-- ===== src/GrpcClient/Tags.antt =====
-- src/common/include/grpc_client.hpp: the tags of the asynchronous calls, each with its state
-- machine `ProceedImpl`. The gRPC library writes a message and a status when an operation completes,
-- and reports it once: both are parts of a `Completion`.
use Prim.Native.String.{String}
use tiny_reactor.Base.{
  ℕ, suc, Bool, true, false, not, ◌&&◌, Option, none, some, List, [], ◌∷◌, ◌++◌, ◌==◌,
  if◌then◌else◌,
}
use tiny_reactor.Task.{Task, default_task}
use tiny_reactor.Task.Proto.{PbTask, task_from_proto}

-- `grpc::Status`: its code, 0 for OK, and its message.
pub record Status : Type 0 where
  pub code : ℕ
  pub message : String

abbrev pub is_ok : Status → Bool
is_ok s = s.code == 0

abbrev pub status_ok : Status
status_ok = record { code = 0; message = "" }

abbrev pub cancelled_code : ℕ
cancelled_code = 1

abbrev pub internal_code : ℕ
internal_code = 13

abbrev pub unavailable_code : ℕ
unavailable_code = 14

-- The state that a `std::promise` shares with its future.
pub data Promise {ℓ} (A : Type ℓ) : Type ℓ where
  unset : Promise A
  value : A → Promise A
  exception : Status → Promise A

-- The task that a callback gets: one it can read, or one whose members were moved away.
pub data Argument : Type 0 where
  a_task : Task → Argument
  moved_from : Argument

-- What a tag does to the rest of the program. `starts` is `StartCall` with a tag, and `starts_mute`
-- without one.
pub data Action : Type 0 where
  starts starts_mute reads finishes deletes aborts : Action
  calls_back : Argument → Status → Action

pub record Completion : Type 0 where
  pub ok : Bool
  pub response : Option PbTask
  pub success : Bool  -- of the answer to a cancellation
  pub status : Status

pub data Step : Type 0 where
  launch finish : Step

pub record SubmitTag : Type 0 where
  pub step : Step
  pub response : Option PbTask
  pub status : Status
  pub called : Bool  -- `once_`
  pub promise : Promise Task
  pub has_callback : Bool

-- `task()` of a response without a task is a message with default fields, given as a parameter.
module _ (empty_message : PbTask) where
  abbrev pub task_of : Option PbTask → Task
  task_of none = task_from_proto empty_message
  task_of (some p) = task_from_proto p

  -- `SetResult`: the task is moved into the promise before the callback gets it.
  unfoldable pub submit_set_result : SubmitTag → SubmitTag × List Action
  submit_set_result t =
      if t.called
      then (t, [])
      else if is_ok t.status
      then (
        record t { called = true; promise = value (task_of t.response) },
        if t.has_callback then calls_back moved_from t.status ∷ [] else [],
      )
      else (
        record t { called = true; promise = exception t.status },
        if t.has_callback then calls_back (a_task default_task) t.status ∷ [] else [],
      )

  -- `AsyncSubmitTag::ProceedImpl`.
  unfoldable pub submit_proceed : Bool → Step → SubmitTag → SubmitTag × List Action
  unfolding submit_set_result
  submit_proceed ok launch t = (
    record t {
      step = finish;
      status =
          if ok then t.status else record { code = internal_code; message = "StartCall failed" };
    },
    finishes ∷ [],
  )
  submit_proceed ok finish t =
      let final : Status =
        if ok then t.status else record { code = internal_code; message = "Finish cq !ok" } in
      let (u, acts) = submit_set_result (record t { status = final }) in (u, acts ++ deletes ∷ [])

pub record CancelTag : Type 0 where
  pub step : Step
  pub success : Bool  -- `response.success()`
  pub status : Status
  pub promise : Promise Bool

-- `AsyncCancelTag::ProceedImpl`.
unfoldable pub cancel_proceed : Bool → Step → CancelTag → CancelTag × List Action
cancel_proceed true launch t = (record t { step = finish }, finishes ∷ [])
cancel_proceed false launch t = (
  record t { status = record { code = internal_code; message = "cq !ok" }; promise = value false },
  deletes ∷ [],
)
cancel_proceed ok finish t =
    (record t { promise = value (is_ok t.status && t.success) }, deletes ∷ [])

pub record QueryTag : Type 0 where
  pub step : Step
  pub response : PbTask
  pub status : Status
  pub called : Bool
  pub promise : Promise Task

unfoldable pub query_set_result : QueryTag → QueryTag
query_set_result t = if t.called then t else record t {
  called = true;
  promise = if is_ok t.status then value (task_from_proto t.response) else exception t.status;
}

-- `AsyncQueryTag::ProceedImpl`.
unfoldable pub query_proceed : Bool → Step → QueryTag → QueryTag × List Action
unfolding query_set_result
query_proceed true launch t = (record t { step = finish }, finishes ∷ [])
query_proceed false launch t = (
  query_set_result (record t { status = record { code = internal_code; message = "cq !ok" } }),
  deletes ∷ [],
)
query_proceed ok finish t = (query_set_result t, deletes ∷ [])

pub data ListenStep : Type 0 where
  start read finish done : ListenStep

pub record ListenTag : Type 0 where
  pub step : ListenStep
  pub response : Option PbTask  -- the task of the message, if it has one
  pub status : Status
  pub has_callback : Bool

unfoldable pub transition_to_finish : ℕ → ListenTag → ListenTag × List Action
transition_to_finish code t = (
  record t {
    step = finish;
    status = if code == 0 then t.status else record { code = code; message = "stream aborted" };
  },
  finishes ∷ [],
)

-- The handling of a message that was read.
unfoldable pub handle_message : Option PbTask → ListenTag → ListenTag × List Action
unfolding transition_to_finish
handle_message (some p) t = (
  record t { response = none },
  if t.has_callback
      then calls_back (a_task (task_from_proto p)) status_ok ∷ reads ∷ []
      else reads ∷ [],
)
handle_message none t = transition_to_finish 0 t

-- `AsyncListenTag::ProceedImpl`.
unfoldable pub listen_proceed : Bool → ListenStep → ListenTag → ListenTag × List Action
unfolding transition_to_finish handle_message
listen_proceed false start t = transition_to_finish cancelled_code t
listen_proceed true start t = (record t { step = read }, reads ∷ [])
listen_proceed false read t = transition_to_finish cancelled_code t
listen_proceed true read t = handle_message t.response t
listen_proceed ok finish t = (
  record t { step = done },
  (if t.has_callback && not (is_ok t.status)
        then calls_back (a_task default_task) t.status ∷ []
        else [])
      ++ deletes ∷ [],
)
listen_proceed ok done t = (t, aborts ∷ [])

-- What the library writes into a tag before it reports the operation that the tag waits for: the
-- first operation of a call writes nothing, `Read` a message, and `Finish` the status.
unfoldable pub submit_receive : Completion → Step → SubmitTag → SubmitTag
submit_receive c launch t = t
submit_receive c finish t = record t { response = c.response; status = c.status }

-- The client calls `Finish` for a cancellation and a query by itself, so every completion of them is
-- one of `Finish`.
unfoldable pub cancel_receive : Completion → CancelTag → CancelTag
cancel_receive c t = record t { success = c.success; status = c.status }

unfoldable pub query_receive : PbTask → Completion → QueryTag → QueryTag
query_receive empty c t = record t {
  response = elim c.response [ none ↦ empty | some p ↦ p ];
  status = c.status;
}

unfoldable pub listen_receive : Completion → ListenStep → ListenTag → ListenTag
listen_receive c read t = record t { response = c.response }
listen_receive c finish t = record t { status = c.status }
listen_receive c _ t = t

-- How many operations the actions begin that the library will report.
unfoldable pub requests : List Action → ℕ
requests [] = 0
requests (starts ∷ acts) = suc (requests acts)
requests (reads ∷ acts) = suc (requests acts)
requests (finishes ∷ acts) = suc (requests acts)
requests (_ ∷ acts) = requests acts
