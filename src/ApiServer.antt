-- ===== src/ApiServer.antt =====
-- src/api-server/{include/api_server.hpp,src/api_server.cpp}: the asynchronous server with its call
-- contexts. A completion queue is its index in `cqs_`; the completions of the gRPC library are events.
pub mod Contexts
pub mod Answers
pub mod Start
pub mod Drive
pub mod Program
pub mod Exit
pub mod Launch
pub mod Served
mod Tests
use tiny_reactor.Base.{
  ℕ, zero, suc, ◌+◌, ◌*◌, ◌%◌, Bool, true, false, not, ◌&&◌, Option, none, some, List, [], ◌∷◌,
  ◌++◌, ◌==◌, if◌then◌else◌,
}
use tiny_reactor.Base.Int.{ℤ, pos, negsuc}
use tiny_reactor.Task.Proto.{PbTask}

pub data CallStatus : Type 0 where
  create finish rearm : CallStatus

-- A live context. One operation of the library is pending for it: the request of a call while it is
-- created, and `Finish` from then on.
pub record AsyncCallContext : Type 0 where
  pub id : ℕ
  pub cq : ℕ
  pub status : CallStatus
  pub request : PbTask
  pub response : PbTask

abbrev pub SubmitTaskFunc : Type 0
SubmitTaskFunc = PbTask → PbTask → PbTask

-- `received` and `replies` log the requests that came in and the responses that `Finish` sent.
pub record AsyncServer : Type 0 where
  pub cqs : ℕ
  pub has_server : Bool
  pub is_shutdown : Bool
  pub cq_threads : ℕ  -- the threads that can be joined
  pub submit_task : Option SubmitTaskFunc
  pub contexts : List AsyncCallContext
  pub next_id : ℕ
  pub received : List PbTask
  pub replies : List PbTask

abbrev pub new_server : AsyncServer
new_server = record {
  cqs = 0;
  has_server = false;
  is_shutdown = false;
  cq_threads = 0;
  submit_task = none;
  contexts = [];
  next_id = 0;
  received = [];
  replies = [];
}

unfoldable pub set_submit_task_handler : SubmitTaskFunc → AsyncServer → AsyncServer
set_submit_task_handler f s = record s { submit_task = some f }

-- `OnSubmitTask`: the request comes back, as `SUCCESS`.
unfoldable pub on_submit_task : AsyncCallContext → AsyncCallContext
on_submit_task ctx = record ctx { response = record ctx.request { state = 2 } }

unfoldable pub take_context :
    ℕ → List AsyncCallContext → Option (AsyncCallContext × List AsyncCallContext)
take_context i [] = none
take_context i (c ∷ cs) =
    let rest = take_context i cs in
    if c.id == i then some (c, cs) else elim rest [ none ↦ none | some (d, ds) ↦ some (d, c ∷ ds) ]

-- The library completes the operation of a context; a call brings its request.
pub data Event : Type 0 where
  completes : (ok : Bool) → (id : ℕ) → (request : PbTask) → Event

unfoldable pub receive : PbTask → CallStatus → AsyncCallContext → AsyncCallContext
receive p create ctx = record ctx { request = p }
receive p _ ctx = ctx

-- How many contexts `Run` makes: `DTS_INITIAL_CONTEXT`, if it is set, or two for each processor.
abbrev pub initial_contexts : ℕ → Option ℤ → ℕ
initial_contexts cq_count none = cq_count * 2
initial_contexts cq_count (some (pos n)) = n
initial_contexts cq_count (some (negsuc n)) = 0

-- A message with default fields is a parameter.
module _ (empty : PbTask) where
  -- The constructor of a context, which requests the next call.
  abbrev pub make_context : ℕ → ℕ → AsyncCallContext
  make_context id cq = record {
    id = id;
    cq = cq;
    status = create;
    request = empty;
    response = empty;
  }

  abbrev pub add_context : ℕ → AsyncServer → AsyncServer
  add_context cq s = record s {
    contexts = make_context s.next_id cq ∷ s.contexts;
    next_id = suc s.next_id;
  }

  -- The loop that makes the first `n` contexts, on `cq_count` queues.
  unfoldable pub add_contexts : ℕ → ℕ → AsyncServer → AsyncServer
  add_contexts cq_count zero s = s
  add_contexts cq_count (suc i) s = add_context (i % cq_count) (add_contexts cq_count i s)

  -- `Run` up to the threads.
  abbrev pub with_contexts : ℕ → (starts : Bool) → Option ℤ → AsyncServer → AsyncServer
  with_contexts cq_count starts env s =
      add_contexts cq_count (initial_contexts cq_count env)
        (record s { cqs = s.cqs + cq_count; has_server = starts })

  -- `Run` from the contexts on.
  unfoldable pub start_queues :
      (cq_count : ℕ) (starts : Bool) → Option ℤ → AsyncServer → Option AsyncServer
  unfolding add_contexts
  start_queues cq_count starts env s =
      let started : AsyncServer = with_contexts cq_count starts env s in
      if cq_count == 0 && not (initial_contexts cq_count env == 0)
      then none
      else some (record started { cq_threads = started.cq_threads + started.cqs })

  -- `Run` on a machine with `cq_count` processors; `starts` tells whether `BuildAndStart` gives a
  -- server, and `env` is what `std::stoi` makes of DTS_INITIAL_CONTEXT, if that is set. `none` is an
  -- exception or a division by 0. What the library does with the request of a context when there is
  -- no server is not documented; here `Run` goes on, without a server.
  unfoldable pub run_server :
      (cq_count : ℕ) (starts : Bool) → Option (Option ℤ) → AsyncServer → Option AsyncServer
  unfolding start_queues
  run_server cq_count starts none s = start_queues cq_count starts none s
  run_server cq_count starts (some none) s = none
  run_server cq_count starts (some (some c)) s = start_queues cq_count starts (some c) s

  -- `Proceed` of a context that was taken off the list of live ones. A status `rearm` has no case.
  unfoldable pub proceed : Bool → CallStatus → AsyncCallContext → AsyncServer → AsyncServer
  unfolding on_submit_task
  proceed false status ctx s = s
  proceed true create ctx s =
      let answered : AsyncCallContext = on_submit_task ctx in
      record s {
        contexts = record answered { status = finish } ∷ s.contexts;
        received = s.received ++ ctx.request ∷ [];
        replies = s.replies ++ answered.response ∷ [];
      }
  proceed true finish ctx s = add_context ctx.cq s
  proceed true rearm ctx s = record s { contexts = ctx ∷ s.contexts }

  unfoldable pub step : Event → AsyncServer → AsyncServer
  unfolding take_context proceed receive
  step (completes ok i p) s = elim (take_context i s.contexts) [
    | none ↦ s
    | some (ctx, rest) ↦
        proceed ok ctx.status (receive p ctx.status ctx) (record s { contexts = rest })
  ]

  unfoldable pub run : List Event → AsyncServer → AsyncServer
  unfolding step
  run [] s = s
  run (v ∷ vs) s = run vs (step v s)

-- `Shutdown` up to its loop over the threads, `none` being the call through the null `server_`, and
-- that loop, whose joins end when the queues are drained.
unfoldable pub shutdown : AsyncServer → Option AsyncServer
shutdown s = if s.has_server then some (record s { is_shutdown = true }) else none

abbrev pub join_threads : AsyncServer → AsyncServer
join_threads s = record s { cq_threads = 0 }

-- `DriveCompletionQueue` on what `Next` gives, `none` being false: the calls of `Proceed`. A null tag
-- is passed over. `drain_queue` is the second loop.
unfoldable pub drain_queue : List (Option (Option ℕ × Bool)) → List (ℕ × Bool)
drain_queue [] = []
drain_queue (none ∷ rs) = []
drain_queue (some (none, ok) ∷ rs) = drain_queue rs
drain_queue (some (some tag, ok) ∷ rs) = (tag, ok) ∷ drain_queue rs

unfoldable pub drive_completion_queue : List (Option (Option ℕ × Bool)) → List (ℕ × Bool)
unfolding drain_queue
drive_completion_queue [] = []
drive_completion_queue (none ∷ rs) = drain_queue rs
drive_completion_queue (some (none, ok) ∷ rs) = drive_completion_queue rs
drive_completion_queue (some (some tag, ok) ∷ rs) = (tag, ok) ∷ drive_completion_queue rs
