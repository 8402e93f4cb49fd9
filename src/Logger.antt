-- ===== src/Logger.antt =====
-- src/common/include/logger.hpp: the flags of the logging library that the program sets. Their values
-- before that are an argument.
use Prim.Native.String.{String}
use tiny_reactor.Base.{ℕ, Bool, true, false}

-- `program` is what `InitGoogleLogging` gets, and `traps_failures` tells whether
-- `InstallFailureSignalHandler` was called.
pub record LogFlags : Type 0 where
  pub program : String
  pub logtostderr : Bool
  pub minloglevel : ℕ
  pub log_dir : String
  pub max_log_size : ℕ
  pub stop_logging_if_full_disk : Bool
  pub colorlogtostderr : Bool
  pub traps_failures : Bool

unfoldable pub init_glog : (argv0 : String) → (unit_test : Bool) → LogFlags → LogFlags
init_glog argv0 true l = record l { program = argv0; logtostderr = true; minloglevel = 1 }
init_glog argv0 false l = record l {
  program = argv0;
  log_dir = "/var/log/dts";
  max_log_size = 100;
  stop_logging_if_full_disk = true;
  colorlogtostderr = true;
  traps_failures = true;
}
