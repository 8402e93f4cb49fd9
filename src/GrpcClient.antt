-- ===== src/GrpcClient.antt =====
-- src/common/include/grpc_client.hpp and src/common/src/grpc_client.cpp: the client's calls and the
-- loop that takes completions off the queue.
pub mod Tags
pub mod Submit
pub mod Listen
pub mod Callbacks
pub mod Calls
pub mod Twice
pub mod Client
mod Tests
use Prim.Native.String.{String}
use tiny_reactor.Base.{
  ℕ, suc, ◌+◌, ◌-◌, Bool, true, false, Option, none, some, List, [], ◌∷◌, ◌++◌, ◌==◌, if◌then◌else◌,
}
use tiny_reactor.Task.{Task, default_task}
use tiny_reactor.Task.Proto.{PbTask, Library, task_to_proto, task_from_proto}
use tiny_reactor.GrpcClient.Tags.{
  Status, Promise, unset, value, exception, Action, starts, starts_mute, finishes, calls_back,
  a_task, Completion, SubmitTag, CancelTag, QueryTag, ListenTag, launch, start, requests,
  submit_proceed, submit_receive, cancel_proceed, cancel_receive, query_proceed, query_receive,
  listen_proceed, listen_receive, is_ok, status_ok, unavailable_code,
}

-- A call in flight: its tag, the operations that the library will still report for it, and what the
-- tag has done.
pub record Flight {ℓ} (Tag : Type ℓ) : Type ℓ where
  pub tag : Tag
  pub pending : ℕ
  pub log : List Action

-- One completion: the library reports it only if an operation is pending, writes its results, and
-- `CompleteRpc` calls `Proceed`.
module _ {ℓ} {Tag : Type ℓ} where
  unfoldable pub deliver :
      (Completion → Tag → Tag)
      → (Bool → Tag → Tag × List Action)
      → Completion
      → Flight Tag
      → Flight Tag
  deliver receive proceed c f =
      if f.pending == 0
      then f
      else (let (t, acts) = proceed c.ok (receive c f.tag) in
          record { tag = t; pending = f.pending - 1 + requests acts; log = f.log ++ acts })

  unfoldable pub deliver_all :
      (Completion → Tag → Tag)
      → (Bool → Tag → Tag × List Action)
      → List Completion
      → Flight Tag
      → Flight Tag
  unfolding deliver
  deliver_all receive proceed [] f = f
  deliver_all receive proceed (c ∷ cs) f =
      deliver_all receive proceed cs (deliver receive proceed c f)

unfoldable pub submit_flight : PbTask → List Completion → Flight SubmitTag → Flight SubmitTag
unfolding deliver_all submit_receive submit_proceed
submit_flight empty =
    deliver_all (λ c t. submit_receive c t.step t) (λ ok t. submit_proceed empty ok t.step t)

unfoldable pub listen_flight : List Completion → Flight ListenTag → Flight ListenTag
unfolding deliver_all listen_receive listen_proceed
listen_flight = deliver_all (λ c t. listen_receive c t.step t) (λ ok t. listen_proceed ok t.step t)

unfoldable pub cancel_flight : List Completion → Flight CancelTag → Flight CancelTag
unfolding deliver_all cancel_receive cancel_proceed
cancel_flight = deliver_all cancel_receive (λ ok t. cancel_proceed ok t.step t)

unfoldable pub query_flight : PbTask → List Completion → Flight QueryTag → Flight QueryTag
unfolding deliver_all query_receive query_proceed
query_flight empty = deliver_all (query_receive empty) (λ ok t. query_proceed ok t.step t)

abbrev pub new_submit_tag : Bool → SubmitTag
new_submit_tag has_callback = record {
  step = launch;
  response = none;
  status = status_ok;
  called = false;
  promise = unset;
  has_callback = has_callback;
}

-- The actions and the operations pending of a call that did `acts` so far.
abbrev pub take_off {ℓ} : {Tag : Type ℓ} → Tag → List Action → Flight Tag
take_off t acts = record { tag = t; pending = requests acts; log = acts }

-- What `submit_task_async` comes to: a promise that holds an exception and a callback that is told,
-- or a call in flight.
pub data Submission : Type 0 where
  rejected : Promise Task → List Action → Submission
  in_flight : Flight SubmitTag → Submission

abbrev pub unavailable : String → Status
unavailable message = record { code = unavailable_code; message = message }

unfoldable pub submit_task_async : (has_stub has_callback : Bool) → Submission
unfolding requests
submit_task_async false has_callback =
    rejected (exception (unavailable "stub_ is null (channel create failed or moved)")) (
      if has_callback then calls_back (a_task default_task) (unavailable "stub_ null") ∷ [] else [])
submit_task_async true has_callback =
    in_flight (take_off (new_submit_tag has_callback) (starts_mute ∷ []))

-- A synchronous call: the task that comes back, or the status of the `GrpcError`.
pub data Reply : Type 0 where
  replies : Task → Reply
  throws : Status → Reply

-- `submit_task_sync` with what the stub's call gives for a message.
unfoldable pub submit_task_sync : Library → Option (PbTask → Status × PbTask) → Task → Reply
submit_task_sync lib none t = throws (unavailable "channel not created / connection refused")
submit_task_sync lib (some rpc) t =
    let (status, response) = rpc (task_to_proto lib t) in
    if is_ok status then replies (task_from_proto response) else throws status

-- What becomes of a function that reads through a pointer: it returns, or the pointer is null.
pub data Access {ℓ} (A : Type ℓ) : Type ℓ where
  returns : A → Access A
  null_dereference : Access A

-- `tag->promise.get_future()` on a `unique_ptr`.
unfoldable pub get_future {ℓ κ} : {Tag : Type ℓ} {F : Type κ} → (Tag → F) → Option Tag → Access F
get_future promise none = null_dereference
get_future promise (some t) = returns (promise t)

abbrev pub new_cancel_tag : CancelTag
new_cancel_tag = record { step = launch; success = false; status = status_ok; promise = unset }

abbrev pub new_query_tag : PbTask → QueryTag
new_query_tag empty = record {
  step = launch;
  response = empty;
  status = status_ok;
  called = false;
  promise = unset;
}

-- `cancel_task_async` and `query_status_async`: `release` hands the tag to the library and leaves the
-- `unique_ptr` null, through which the promise is then read.
unfoldable pub cancel_task_async : Flight CancelTag × Access (Promise Bool)
unfolding requests get_future
cancel_task_async = (
  take_off new_cancel_tag (starts_mute ∷ finishes ∷ []),
  get_future (λ (t : CancelTag). t.promise) none,
)

unfoldable pub query_status_async : PbTask → Flight QueryTag × Access (Promise Task)
unfolding requests get_future
query_status_async empty = (
  take_off (new_query_tag empty) (starts_mute ∷ finishes ∷ []),
  get_future (λ (t : QueryTag). t.promise) none,
)

abbrev pub new_listen_tag : Bool → ListenTag
new_listen_tag has_callback = record {
  step = start;
  response = none;
  status = status_ok;
  has_callback = has_callback;
}

unfoldable pub listen_results : Bool → Flight ListenTag
unfolding requests
listen_results has_callback = take_off (new_listen_tag has_callback) (starts ∷ [])

-- What `AsyncNext` gives within its second.
pub data NextStatus : Type 0 where
  got_event : (tag : ℕ) → (ok : Bool) → NextStatus
  shut_down timed_out : NextStatus

-- `CompleteRpc` on what its rounds find: the flag `shutdown_`, and the result of `AsyncNext`. The
-- result is the calls of `Proceed`, in order.
unfoldable pub complete_rpc : List (Bool × NextStatus) → List (ℕ × Bool)
complete_rpc [] = []
complete_rpc ((true, _) ∷ rs) = []
complete_rpc ((false, got_event tag ok) ∷ rs) = (tag, ok) ∷ complete_rpc rs
complete_rpc ((false, shut_down) ∷ rs) = []
complete_rpc ((false, timed_out) ∷ rs) = complete_rpc rs
