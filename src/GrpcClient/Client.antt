-- ===== src/GrpcClient/Client.antt =====
-- grpc_client.hpp and grpc_client.cpp, the class `GrpcClient`: its state with the tags of its calls,
-- and the calls of a client from its constructor to its destructor. A tag is its place in the list of
-- tags; a deleted tag stays in the list, with nothing pending.
pub mod Closing
use Prim.Native.String.{String}
use tiny_reactor.Base.{ℕ, zero, suc, Bool, true, false, List, [], ◌∷◌, ◌++◌, if◌then◌else◌}
use tiny_reactor.Task.{Task}
use tiny_reactor.Task.Proto.{PbTask}
use tiny_reactor.ThreadPool.{ThreadPool, make_pool}
use tiny_reactor.GrpcClient.{
  Flight, deliver, Submission, rejected, in_flight, submit_task_async, Access, returns,
  null_dereference, cancel_task_async, query_status_async, listen_results, NextStatus, got_event,
  shut_down, timed_out,
}
use tiny_reactor.GrpcClient.Tags.{
  Status, Promise, unset, value, exception, Completion, SubmitTag, CancelTag, QueryTag, ListenTag,
  submit_proceed, submit_receive, cancel_proceed, cancel_receive, query_proceed, query_receive,
  listen_proceed, listen_receive,
}

-- `GrpcError`: the message and the code of a status.
pub record GrpcError : Type 0 where
  pub what : String
  pub code : ℕ

abbrev pub grpc_error : Status → GrpcError
grpc_error s = record { what = s.message; code = s.code }

-- `IAsyncTag`: a tag of one of the four kinds, with what is pending for it.
pub data AsyncTag : Type 0 where
  submits : Flight SubmitTag → AsyncTag
  cancels : Flight CancelTag → AsyncTag
  queries : Flight QueryTag → AsyncTag
  listens : Flight ListenTag → AsyncTag

-- `Proceed` of a tag on a completion: the `ProceedImpl` of its kind.
unfoldable pub proceed_tag : PbTask → Completion → AsyncTag → AsyncTag
unfolding deliver
proceed_tag empty c (submits f) =
    submits
      (deliver (λ c t. submit_receive c t.step t) (λ ok t. submit_proceed empty ok t.step t) c f)
proceed_tag empty c (cancels f) =
    cancels (deliver cancel_receive (λ ok t. cancel_proceed ok t.step t) c f)
proceed_tag empty c (queries f) =
    queries (deliver (query_receive empty) (λ ok t. query_proceed ok t.step t) c f)
proceed_tag empty c (listens f) =
    listens (deliver (λ c t. listen_receive c t.step t) (λ ok t. listen_proceed ok t.step t) c f)

unfoldable pub at_tag : ℕ → (AsyncTag → AsyncTag) → List AsyncTag → List AsyncTag
at_tag i f [] = []
at_tag zero f (t ∷ ts) = f t ∷ ts
at_tag (suc i) f (t ∷ ts) = t ∷ at_tag i f ts

-- Where `cq_thread_` stands in `CompleteRpc`: it is about to read `shutdown_`, in `AsyncNext`, or out of
-- the loop.
pub data LoopPlace : Type 0 where
  checks nexts left : LoopPlace

-- The client. `crashed` is a client one of whose calls went through a null pointer.
pub record GrpcClient : Type 0 where
  pub has_stub : Bool
  pub thread_pool : ThreadPool
  pub tags : List AsyncTag
  pub is_shutdown : Bool
  pub queue_shut_down : Bool
  pub cq_thread : LoopPlace
  pub crashed : Bool

-- The constructor.
abbrev pub new_client : GrpcClient
new_client = record {
  has_stub = true;
  thread_pool = make_pool 4;
  tags = [];
  is_shutdown = false;
  queue_shut_down = false;
  cq_thread = checks;
  crashed = false;
}

-- The destructor, which then joins `cq_thread_`.
unfoldable pub destroy_client : GrpcClient → GrpcClient
destroy_client g = record g { is_shutdown = true; queue_shut_down = true }

abbrev pub add_tag : AsyncTag → GrpcClient → GrpcClient
add_tag t g = record g { tags = g.tags ++ t ∷ [] }

-- A submission adds the tag of a call in flight; one that is rejected has no tag.
abbrev pub keep_submission : Submission → GrpcClient → GrpcClient
keep_submission (rejected promise acts) g = g
keep_submission (in_flight f) g = add_tag (submits f) g

-- What `get` of a future comes to: a value, an exception, or a thread that waits for it. `faults` is
-- a call that already went through a null pointer.
pub data Waited {ℓ} (A : Type ℓ) : Type ℓ where
  gives : A → Waited A
  raises : GrpcError → Waited A
  waits faults : Waited A

unfoldable pub wait_for {ℓ} : {A : Type ℓ} → Access (Promise A) → Waited A
wait_for null_dereference = faults
wait_for (returns unset) = waits
wait_for (returns (value a)) = gives a
wait_for (returns (exception s)) = raises (grpc_error s)

-- A call that goes through a null pointer ends the client.
abbrev pub goes_through {ℓ} : {A : Type ℓ} → Waited A → GrpcClient → GrpcClient
goes_through faults g = record g { crashed = true }
goes_through _ g = g

-- `cancel_task` and `query_status`: the asynchronous calls, and `get` on what they return.
unfoldable pub cancel_task : GrpcClient → GrpcClient × Waited Bool
unfolding cancel_task_async wait_for
cancel_task g =
    let answer : Waited Bool = wait_for cancel_task_async.1 in
    if g.has_stub
    then (goes_through answer (add_tag (cancels cancel_task_async.0) g), answer)
    else (record g { crashed = true }, faults)

unfoldable pub query_status : PbTask → GrpcClient → GrpcClient × Waited Task
unfolding query_status_async wait_for
query_status empty g =
    let answer : Waited Task = wait_for (query_status_async empty).1 in
    if g.has_stub
    then (goes_through answer (add_tag (queries (query_status_async empty).0) g), answer)
    else (record g { crashed = true }, faults)

-- What `CompleteRpc` does with the result of `AsyncNext`; the library wrote `written`.
abbrev pub handle_next : PbTask → Completion → NextStatus → GrpcClient → GrpcClient
handle_next empty written (got_event i ok) g = record g {
  tags = at_tag i (proceed_tag empty (record written { ok = ok })) g.tags;
  cq_thread = checks;
}
handle_next empty written shut_down g = record g { cq_thread = left }
handle_next empty written timed_out g = record g { cq_thread = checks }

-- One step of `CompleteRpc`: the test of the flag, or the end of a call of `AsyncNext`. Between the two
-- the flag can be set.
unfoldable pub loop_step : PbTask → Completion → NextStatus → LoopPlace → GrpcClient → GrpcClient
unfolding at_tag proceed_tag
loop_step empty written next checks g = record g {
  cq_thread = if g.is_shutdown then left else nexts;
}
loop_step empty written next nexts g = handle_next empty written next g
loop_step empty written next left g = g

-- What happens to a client: its calls, the steps of its loop, and its destructor.
pub data ClientEvent : Type 0 where
  submits_task listens_results : (has_callback : Bool) → ClientEvent
  cancels_task queries_status destroys : ClientEvent
  loops : Completion → NextStatus → ClientEvent

unfoldable pub serve_client : PbTask → ClientEvent → GrpcClient → GrpcClient
unfolding submit_task_async cancel_task query_status listen_results loop_step destroy_client
serve_client empty (submits_task has_callback) g =
    keep_submission (submit_task_async g.has_stub has_callback) g
serve_client empty (listens_results has_callback) g =
    if g.has_stub
    then add_tag (listens (listen_results has_callback)) g
    else record g { crashed = true }
serve_client empty cancels_task g = (cancel_task g).0
serve_client empty queries_status g = (query_status empty g).0
serve_client empty destroys g = destroy_client g
serve_client empty (loops written next) g = loop_step empty written next g.cq_thread g

-- Nothing happens to a client that has crashed.
unfoldable pub step_client : PbTask → ClientEvent → GrpcClient → GrpcClient
unfolding serve_client
step_client empty e g = if g.crashed then g else serve_client empty e g

unfoldable pub run_client : PbTask → List ClientEvent → GrpcClient → GrpcClient
unfolding step_client
run_client empty [] g = g
run_client empty (e ∷ es) g = run_client empty es (step_client empty e g)
