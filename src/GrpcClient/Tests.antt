-- ===== src/GrpcClient/Tests.antt =====
-- grpc_client.hpp and grpc_client.cpp: runs at concrete inputs.
use tiny_reactor.Base.{◌≡◌, refl, true, false, none, List, [], ◌∷◌, ◌++◌, map, ◌≤◌}
use tiny_reactor.Task.{default_task}
use tiny_reactor.Task.Sample.{sample_library}
use tiny_reactor.Task.Proto.{PbTask, task_to_proto}
use tiny_reactor.GrpcClient.{
  Flight, cancel_task_async, submit_flight, listen_flight, listen_results, submit_task_async,
  in_flight, NextStatus, got_event, timed_out, get_future,
}
use tiny_reactor.GrpcClient.Tags.{Status, unset, starts_mute, Completion, SubmitTag, status_ok}
use tiny_reactor.GrpcClient.Submit.{submit_task_async-silent}
use tiny_reactor.GrpcClient.Listen.{Lives, listen_results-Lives}
use tiny_reactor.GrpcClient.Callbacks.{told, arrives, news, farewell, listen_results-told}
use tiny_reactor.GrpcClient.Client.{
  ClientEvent, submits_task, listens_results, cancels_task, destroys, loops, nexts, left,
  new_client, run_client, cancel_task, faults, wait_for,
}
use tiny_reactor.GrpcClient.Client.Closing.{loops_of, last_told, destroyed_client-left}

abbrev message : PbTask
message = task_to_proto sample_library default_task

abbrev lost : Status
lost = record { code = 14; message = "connection lost" }

abbrev opened : Completion
opened = record { ok = true; response = none; success = false; status = status_ok }

abbrev broken : Completion
broken = record { ok = false; response = none; success = false; status = lost }

abbrev ended : Completion
ended = record { ok = true; response = none; success = false; status = lost }

submit_task_async-silent_example :
    (f : Flight SubmitTag) × (submit_task_async true true ≡ in_flight f)
    × ((submit_flight message (opened ∷ arrives message ∷ []) f).tag.promise ≡ unset)
    × ((submit_flight message (opened ∷ arrives message ∷ []) f).log ≡ starts_mute ∷ [])
submit_task_async-silent_example =
    submit_task_async-silent message true (opened ∷ arrives message ∷ [])

listen_results-Lives_example :
    Lives (listen_flight (opened ∷ arrives message ∷ broken ∷ ended ∷ []) (listen_results true))
listen_results-Lives_example =
    listen_results-Lives true (opened ∷ arrives message ∷ broken ∷ ended ∷ [])

listen_results-told_example :
    told
      (listen_flight
        (opened ∷ map arrives (message ∷ message ∷ []) ++ broken ∷ ended ∷ [])
        (listen_results true)).log
    ≡ map news (message ∷ message ∷ []) ++ farewell lost
listen_results-told_example =
    listen_results-told (message ∷ message ∷ []) opened broken ended refl refl

-- A client that submits a task and listens, and is destroyed while its loop is in `AsyncNext`: one more
-- message comes, and the end of the stream is never told.
abbrev session : List ClientEvent
session =
    submits_task true
    ∷ listens_results true
    ∷ loops opened timed_out
    ∷ loops opened (got_event 1 true)
    ∷ loops opened timed_out
    ∷ []

abbrev last_rounds : List (Completion × NextStatus)
last_rounds =
    (arrives message, got_event 1 true)
    ∷ (broken, got_event 1 false)
    ∷ (ended, got_event 1 true)
    ∷ []

session-run :
    let g = run_client message session new_client in
    let e = run_client message (destroys ∷ loops_of last_rounds) g in
    (g.crashed ≡ false) × (g.cq_thread ≡ nexts) × (e.cq_thread ≡ left)
unfolding run_client
session-run = (refl, refl, refl)

destroyed_client-left_example :
    let g = run_client message session new_client in
    let e = run_client message (destroys ∷ loops_of last_rounds) g in
    (e.tags ≡ last_told message g.cq_thread last_rounds g.tags) × (2 ≤ 3 → e.cq_thread ≡ left)
unfolding run_client
destroyed_client-left_example =
    destroyed_client-left message (run_client message session new_client) last_rounds refl

-- A cancellation goes through a null pointer, after which nothing happens.
cancel_task-run :
    ((cancel_task new_client).1 ≡ faults)
    × (run_client message (cancels_task ∷ session) new_client ≡ (cancel_task new_client).0)
unfolding run_client cancel_task cancel_task_async get_future wait_for
cancel_task-run = (refl, refl)
