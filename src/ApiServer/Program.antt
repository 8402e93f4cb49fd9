-- ===== src/ApiServer/Program.antt =====
-- src/api-server/src/main.cpp: the program around the server, as steps of its main thread between
-- which signals arrive. `std::getenv`, `std::stoi`, the number of processors and the thread that the
-- system gives a signal to are arguments.
use Prim.Native.String.{String}
use tiny_reactor.Base.{
  ℕ, ◌-◌, ◌%◌, ◌^◌, Bool, true, false, not, ◌&&◌, Option, none, some, List, [], ◌∷◌, ltb,
  if◌then◌else◌,
}
use tiny_reactor.Base.Int.{ℤ, pos, negsuc}
use tiny_reactor.Task.Proto.{PbTask}
use tiny_reactor.ApiServer.{AsyncServer, new_server, run_server, shutdown, join_threads}
use tiny_reactor.Logger.{LogFlags, init_glog}

-- Where the main thread stands in `main`. `crashed` is a process that was terminated: by a signal
-- that it does not handle, an exception that nothing catches, or a null pointer.
pub data Stage : Type 0 where
  inits_log installs_handlers reads_port makes_server runs_server polls shuts_down : Stage
  destroys_server exited crashed : Stage

-- What the program finds around it. `dts_port` is what `std::stoi` makes of the variable, if that is
-- set: none is an exception; `dts_initial_context` is the same. `starts` tells whether the library
-- starts the server.
pub record Surroundings : Type 0 where
  pub argv0 : String
  pub dts_port : Option (Option ℤ)
  pub dts_initial_context : Option (Option ℤ)
  pub starts : Bool
  pub processors : ℕ
  pub empty_message : PbTask

-- `in_shutdown` is a main thread that is in `Shutdown`, which it or a signal handler in it called.
pub record Program : Type 0 where
  pub stage : Stage
  pub g_server : Option AsyncServer
  pub g_shutdown : Bool
  pub handles_signals : Bool
  pub in_shutdown : Bool
  pub port : ℕ
  pub log_flags : LogFlags

abbrev pub start_program : LogFlags → Program
start_program l = record {
  stage = inits_log;
  g_server = none;
  g_shutdown = false;
  handles_signals = false;
  in_shutdown = false;
  port = 0;
  log_flags = l;
}

-- `static_cast<uint16_t>` of an `int`.
abbrev pub to_uint16 : ℤ → ℕ
to_uint16 (pos n) = n % 2 ^ 16
to_uint16 (negsuc n) = 2 ^ 16 - 1 - n % 2 ^ 16

abbrev pub read_port : Option (Option ℤ) → Program → Program
read_port none p = record p { stage = makes_server }
read_port (some none) p = record p { stage = crashed }
read_port (some (some z)) p = record p { port = to_uint16 z; stage = makes_server }

-- `g_server->Run`, after which the main thread stands at `next`.
abbrev pub put_server : Stage → Option AsyncServer → Program → Program
put_server next none p = record p { stage = crashed }
put_server next (some s) p = record p { g_server = some s; stage = next }

unfoldable pub call_run : Surroundings → Option AsyncServer → Program → Program
call_run w none p = record p { stage = crashed }
call_run w (some s) p =
    put_server polls (run_server w.empty_message w.processors w.starts w.dts_initial_context s) p

-- `g_server->Shutdown` up to the threads, after which the main thread stands at `next`, and its end.
abbrev pub enter_shutdown : Stage → Option AsyncServer → Program → Program
enter_shutdown next none p = record p { stage = crashed }
enter_shutdown next (some s) p = record p { g_server = some s; stage = next; in_shutdown = true }

unfoldable pub leave_shutdown : Stage → Option AsyncServer → Program → Program
leave_shutdown exited o p = record p { g_server = none; in_shutdown = false }
leave_shutdown g none p = record p { in_shutdown = false }
leave_shutdown g (some s) p = record p { g_server = some (join_threads s); in_shutdown = false }

unfoldable pub call_shutdown : Stage → Option AsyncServer → Program → Program
call_shutdown next none p = record p { stage = crashed }
call_shutdown next (some s) p = enter_shutdown next (shutdown s) p

-- The destructor of `g_server` after `main`, `~AsyncServer`.
unfoldable pub destroy_server : Option AsyncServer → Program → Program
destroy_server none p = record p { stage = exited }
destroy_server (some s) p = enter_shutdown exited (shutdown s) p

-- One step of the main thread, outside `Shutdown`.
unfoldable pub main_step : Surroundings → Stage → Program → Program
unfolding init_glog call_run call_shutdown destroy_server
main_step w inits_log p = record p {
  log_flags = init_glog w.argv0 false p.log_flags;
  stage = installs_handlers;
}
main_step w installs_handlers p = record p { handles_signals = true; stage = reads_port }
main_step w reads_port p = read_port w.dts_port p
main_step w makes_server p = record p { g_server = some new_server; stage = runs_server }
main_step w runs_server p = call_run w p.g_server p
main_step w polls p = if p.g_shutdown then record p { stage = shuts_down } else p
main_step w shuts_down p = call_shutdown destroys_server p.g_server p
main_step w destroys_server p = destroy_server p.g_server p
main_step w exited p = p
main_step w crashed p = p

-- `signal_handler` with a server: a thread of the server that joins itself gets an exception.
abbrev pub handle_with_server : (on_worker : Bool) → AsyncServer → Program → Program
handle_with_server on_worker s p =
    if on_worker && s.has_server && ltb 0 s.cq_threads
    then record p { stage = crashed }
    else enter_shutdown p.stage (shutdown s) p

unfoldable pub signal_handler : (on_worker : Bool) → Option AsyncServer → Program → Program
signal_handler on_worker none p = record p { g_shutdown = true }
signal_handler on_worker (some s) p =
    handle_with_server on_worker s (record p { g_shutdown = true })

-- A process that ended gets no signal, and one that has installed no handler ends by it. A handler that
-- interrupts `Shutdown` calls it again in the midst of it: what the library and the second join of a
-- thread do then is not documented, and is taken for the end of the process.
unfoldable pub signal_program : (on_worker : Bool) → Stage → Program → Program
unfolding signal_handler
signal_program on_worker exited p = if p.in_shutdown then record p { stage = crashed } else p
signal_program on_worker crashed p = p
signal_program on_worker _ p =
    if p.in_shutdown
    then record p { stage = crashed }
    else if p.handles_signals
    then signal_handler on_worker p.g_server p
    else record p { stage = crashed }

pub data ProgramEvent : Type 0 where
  goes_on : ProgramEvent
  signals : (on_worker : Bool) → ProgramEvent

unfoldable pub program_step : Surroundings → ProgramEvent → Program → Program
unfolding main_step leave_shutdown signal_program
program_step w goes_on p =
    if p.in_shutdown then leave_shutdown p.stage p.g_server p else main_step w p.stage p
program_step w (signals on_worker) p = signal_program on_worker p.stage p

unfoldable pub run_program : Surroundings → List ProgramEvent → Program → Program
unfolding program_step
run_program w [] p = p
run_program w (e ∷ es) p = run_program w es (program_step w e p)

-- Whether no signal of a run comes while the main thread is in `Shutdown`.
unfoldable pub interrupts : ProgramEvent → Program → Bool
interrupts goes_on p = false
interrupts (signals on_worker) p = p.in_shutdown

unfoldable pub uninterrupted : Surroundings → List ProgramEvent → Program → Bool
unfolding interrupts
uninterrupted w [] p = true
uninterrupted w (e ∷ es) p = not (interrupts e p) && uninterrupted w es (program_step w e p)
