-- ===== src/GrpcClient/Calls.antt =====
-- grpc_client.cpp: the synchronous submission, and the loop over the completion queue.
use tiny_reactor.Base.{ℕ, ◌≡◌, refl, ap, Bool, true, false, some, List, [], ◌∷◌, ◌++◌, All}
use tiny_reactor.Task.{Task}
use tiny_reactor.Task.Normal.{is_distinct}
use tiny_reactor.Task.RoundTrip.{KeysDiffer}
use tiny_reactor.Task.Transfer.{IsByte, transferred, task_from_proto-task_to_proto}
use tiny_reactor.Task.Proto.{PbTask, Library, task_to_proto}
use tiny_reactor.GrpcClient.{
  submit_task_sync, replies, NextStatus, got_event, shut_down, timed_out, complete_rpc,
}
use tiny_reactor.GrpcClient.Tags.{Status, status_ok}

-- A task that is submitted to a service that answers OK with the task as it came is returned with
-- its parameters and its result in normal form and a new flag. The state is one that the program
-- makes, and no object in the parameters or the result has a key twice.
pub submit_task_sync-transferred :
    (lib : Library) (rpc : PbTask → Status × PbTask) (t : Task)
    → KeysDiffer lib
    → IsByte t.state
    → is_distinct t.func_params ≡ true
    → is_distinct t.result ≡ true
    → rpc (task_to_proto lib t) ≡ (status_ok, task_to_proto lib t)
    → submit_task_sync lib (some rpc) t ≡ replies (transferred lib t)
unfolding submit_task_sync
submit_task_sync-transferred lib rpc t keys byte params result echo =
    rw echo (ap replies (task_from_proto-task_to_proto lib t keys byte params result))

-- A round that does not end the loop.
abbrev pub GoesOn : Bool × NextStatus → Type 0
GoesOn (true, _) = ⊥
GoesOn (false, shut_down) = ⊥
GoesOn (false, got_event _ _) = Unit
GoesOn (false, timed_out) = Unit

-- The completions that the queue gives in some rounds.
abbrev pub events : List (Bool × NextStatus) → List (ℕ × Bool)
events [] = []
events ((_, got_event tag ok) ∷ rs) = (tag, ok) ∷ events rs
events ((_, shut_down) ∷ rs) = events rs
events ((_, timed_out) ∷ rs) = events rs

-- Until `shutdown_` is seen set or the queue is shut down, `CompleteRpc` handles each completion that
-- the queue gives, in order; after the flag is seen set it handles none, whatever is still queued.
pub complete_rpc-events :
    (rs later : List (Bool × NextStatus)) (next : NextStatus)
    → All GoesOn rs
    → (complete_rpc rs ≡ events rs) × (complete_rpc (rs ++ (true, next) ∷ later) ≡ events rs)
unfolding complete_rpc
complete_rpc-events [] later next h = (refl, refl)
complete_rpc-events ((true, _) ∷ rs) later next h = absurd h.0
complete_rpc-events ((false, shut_down) ∷ rs) later next h = absurd h.0
complete_rpc-events ((false, got_event tag ok) ∷ rs) later next h =
    let (all, cut) = complete_rpc-events rs later next h.1 in
    (ap (λ es. (tag, ok) ∷ es) all, ap (λ es. (tag, ok) ∷ es) cut)
complete_rpc-events ((false, timed_out) ∷ rs) later next h = complete_rpc-events rs later next h.1
