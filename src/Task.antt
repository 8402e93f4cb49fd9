-- ===== src/Task.antt =====
-- src/common/include/task.hpp: the task and its parts. A string is a text, a double its bit pattern,
-- an `int64_t` an integer, and an unsigned field a number below its power of two.
pub mod JsonValue
pub mod Proto
pub mod Normal
pub mod Structs
pub mod Entries
pub mod RoundTrip
pub mod Transfer
pub mod JsonCodec
pub mod Schema
pub mod Reading
pub mod Typing
pub mod JsonKeys
pub mod Sample
mod Tests
use Prim.Native.String.{String}
use tiny_reactor.Base.{ℕ, ◌≤◌, ◌<◌, ◌≡◌, ◌^◌, ◌%◌, Bool, false, ◌==◌, if◌then◌else◌}
use tiny_reactor.Base.Int.{ℤ, pos}
use JsonValue.{Json}

-- The underlying type is `uint8_t`, so a cast can give a value without a name.
pub data TaskState : Type 0 where
  pending running success failed timeout cancelled : TaskState
  unnamed : ℕ → TaskState

unfoldable pub state_code : TaskState → ℕ
state_code pending = 0
state_code running = 1
state_code success = 2
state_code failed = 3
state_code timeout = 4
state_code cancelled = 5
state_code (unnamed n) = n

-- `static_cast<TaskState>` of an integer.
unfoldable pub state_of_code : ℕ → TaskState
state_of_code w =
    let c = w % 256 in
    if c == 0
    then pending
    else if c == 1
    then running
    else if c == 2
    then success
    else if c == 3
    then failed
    else if c == 4
    then timeout
    else if c == 5
    then cancelled
    else unnamed c

pub record Resource : Type 0 where
  pub cpu_core : ℕ
  pub mem_mb : ℕ

pub record Shard : Type 0 where
  pub shard_id : ℕ
  pub total_shards : ℕ

-- `cancelled` is the flag that the shared pointer leads to; a copy of a task, which would share the
-- flag, is made nowhere in the code that is modelled.
pub record Task : Type 0 where
  pub task_id : String
  pub client_id : String
  pub priority : ℕ
  pub state : TaskState
  pub cancelled : Bool
  pub func_name : String
  pub func_params : Json
  pub required : Resource
  pub shard : Shard
  pub timeout_ms : ℕ
  pub max_retry : ℕ
  pub retry_count : ℕ
  pub submit_ts : ℤ
  pub start_ts : ℤ
  pub finish_ts : ℤ
  pub result : Json
  pub error_msg : String

-- The initialisers of the members. The bit pattern of the double 0 is 0.
abbrev pub default_task : Task
default_task = record {
  task_id = "";
  client_id = "";
  priority = 0;
  state = pending;
  cancelled = false;
  func_name = "";
  func_params = Json.null;
  required = record { cpu_core = 0; mem_mb = 0 };
  shard = record { shard_id = 0; total_shards = 1 };
  timeout_ms = 30000;
  max_retry = 3;
  retry_count = 0;
  submit_ts = pos 0;
  start_ts = pos 0;
  finish_ts = pos 0;
  result = Json.null;
  error_msg = "";
}
