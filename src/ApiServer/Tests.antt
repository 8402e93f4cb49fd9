-- ===== src/ApiServer/Tests.antt =====
-- api_server.hpp and api_server.cpp: runs at concrete inputs.
use tiny_reactor.Base.{◌≡◌, refl, true, false, none, some, List, [], ◌∷◌, ◌++◌, arith, tally}
use tiny_reactor.Base.Int.{pos}
use tiny_reactor.Task.{Task, default_task, failed, success}
use tiny_reactor.Task.Normal.{is_distinct}
use tiny_reactor.Task.Transfer.{transferred}
use tiny_reactor.GrpcClient.{submit_task_sync, replies}
use tiny_reactor.Task.Sample.{sample_library, keys_differ}
use tiny_reactor.Task.Proto.{PbTask, task_to_proto}
use tiny_reactor.ApiServer.{
  AsyncServer, new_server, Event, completes, with_contexts, add_contexts, run_server,
  initial_contexts, run, step, shutdown, take_context,
}
use tiny_reactor.ApiServer.Contexts.{contexts_on}
use tiny_reactor.ApiServer.Answers.{succeeded, delivered}
use tiny_reactor.Logger.{LogFlags}
use tiny_reactor.ApiServer.Program.{
  Surroundings, ProgramEvent, goes_on, signals, crashed, start_program, run_program,
}
use tiny_reactor.ApiServer.Launch.{steps}
use tiny_reactor.ApiServer.Served.{call_server, submit_task_sync-served}
use tiny_reactor.ApiServer.Start.{Spread, run_server-Spread}

abbrev message : PbTask
message = task_to_proto sample_library default_task

-- Three contexts on two queues.
abbrev served : AsyncServer
served = with_contexts message 2 true (some (pos 3)) new_server

-- Context 0 gets a call, answers it and makes its successor; the request of context 1 fails.
abbrev traffic : List Event
traffic = completes true 0 message ∷ completes true 0 message ∷ completes false 1 message ∷ []

traffic-run :
    ((run message traffic served).replies ≡ succeeded message ∷ [])
    × (contexts_on 0 (run message traffic served) ≡ 2)
    × (contexts_on 1 (run message traffic served) ≡ 0)
unfolding run add_contexts tally
traffic-run = (refl, refl, refl)

-- A server that was never run cannot be shut down.
shutdown_unstarted : shutdown new_server ≡ none
unfolding shutdown
shutdown_unstarted = refl

traffic-delivered : delivered message traffic served ≡ message ∷ []
unfolding delivered add_contexts step
traffic-delivered = refl

run_server-Spread_example :
    (s : AsyncServer) × (run_server message 2 true (some (some (pos 3))) new_server ≡ some s)
    × (s.cq_threads ≡ 2)
    × Spread 2 (initial_contexts 2 (some (pos 3))) s
run_server-Spread_example = run_server-Spread message 2 (some (pos 3)) (omega arith)

abbrev flags : LogFlags
flags = record {
  program = "";
  logtostderr = false;
  minloglevel = 0;
  log_dir = "";
  max_log_size = 1800;
  stop_logging_if_full_disk = false;
  colorlogtostderr = false;
  traps_failures = false;
}

abbrev surroundings : Surroundings
surroundings = record {
  argv0 = "api-server";
  dts_port = some (some (pos 50051));
  dts_initial_context = none;
  starts = true;
  processors = 2;
  empty_message = message;
}

-- A second signal comes when the handler of the first one has returned.
abbrev ending : List ProgramEvent
ending =
    goes_on
    ∷ signals false
    ∷ goes_on
    ∷ goes_on
    ∷ goes_on
    ∷ goes_on
    ∷ goes_on
    ∷ goes_on
    ∷ goes_on
    ∷ []

-- A second signal that comes while the handler waits for the threads of the queues.
interrupted_shutdown :
    (run_program surroundings
      (steps 5 ++ signals false ∷ signals false ∷ [])
      (start_program flags)).stage
    ≡ crashed
unfolding run_program steps run_server shutdown
interrupted_shutdown = refl

-- The library does not start the server: the program goes on, and a signal goes through a null pointer.
unstarted_server :
    (run_program
      (record surroundings { starts = false })
      (steps 5 ++ signals false ∷ [])
      (start_program flags)).stage
    ≡ crashed
unfolding run_program steps run_server shutdown add_contexts
unstarted_server = refl

-- DTS_INITIAL_CONTEXT is not a number.
bad_initial_context :
    (run_program
      (record surroundings { dts_initial_context = some none })
      (steps 5)
      (start_program flags)).stage
    ≡ crashed
unfolding run_program steps run_server
bad_initial_context = refl

-- A signal before `Run` has started the server goes through a null pointer.
early_signal :
    (run_program surroundings (steps 4 ++ signals false ∷ []) (start_program flags)).stage ≡ crashed
unfolding run_program steps shutdown
early_signal = refl

-- A signal that a thread of a queue handles makes the thread join itself.
signal_on_worker :
    (run_program surroundings (steps 5 ++ signals true ∷ []) (start_program flags)).stage ≡ crashed
unfolding run_program steps run_server
signal_on_worker = refl

-- A failed task is submitted to a server that has answered a call.
abbrev failed_task : Task
failed_task = record default_task { state = failed }

submit_task_sync-served_example :
    submit_task_sync sample_library
      (some (call_server message (run message traffic served) 2))
      failed_task
    ≡ replies (record (transferred sample_library failed_task) { state = success })
unfolding run add_contexts is_distinct take_context
submit_task_sync-served_example =
    submit_task_sync-served message sample_library (run message traffic served) 2 _ _ failed_task
      keys_differ refl refl refl refl
