-- ===== src/ApiServer/Answers.antt =====
-- api_server.hpp and api_server.cpp: what the server answers.
use tiny_reactor.Base.{
  ◌≡◌, refl, ap, ◌∙◌, Bool, true, false, List, [], ◌∷◌, ◌++◌, map, Option-cases, ℕ, Option, none,
  some, ◌==◌, if◌then◌else◌, inl, inr,
}
use tiny_reactor.Task.Proto.{PbTask}
use tiny_reactor.ApiServer.{
  AsyncServer, AsyncCallContext, CallStatus, create, finish, rearm, Event, completes,
  SubmitTaskFunc, set_submit_task_handler, on_submit_task, take_context, receive, proceed, step,
  run,
}

abbrev pub succeeded : PbTask → PbTask
succeeded p = record p { state = 2 }

-- The status of the first live context of a name.
status_of : ℕ → List AsyncCallContext → Option CallStatus
status_of i [] = none
status_of i (c ∷ cs) = if c.id == i then some c.status else status_of i cs

abbrev status_taken : Option (AsyncCallContext × List AsyncCallContext) → Option CallStatus
status_taken none = none
status_taken (some (c, rest)) = some c.status

-- The request that a completion brings to the server: a new call, if the context waits for one.
brought : (ok : Bool) → PbTask → Option CallStatus → List PbTask
brought true p (some create) = p ∷ []
brought ok p _ = []

module _ (empty : PbTask) where
  -- The requests that the library delivers in a run.
  unfoldable pub delivered : List Event → AsyncServer → List PbTask
  unfolding status_of brought
  delivered [] s = []
  delivered (completes ok i p ∷ vs) s =
      brought ok p (status_of i s.contexts) ++ delivered vs (step empty (completes ok i p) s)

  -- What a step adds to the requests and to the replies.
  abbrev Adds : List PbTask → AsyncServer → AsyncServer → Type 0
  Adds ps s s' = (s'.received ≡ s.received ++ ps) × (s'.replies ≡ s.replies ++ map succeeded ps)

  proceed-set_submit_task_handler :
      (f : SubmitTaskFunc) (ok : Bool) (w : CallStatus) (c : AsyncCallContext) (s : AsyncServer)
      → proceed empty ok w c (set_submit_task_handler f s)
        ≡ set_submit_task_handler f (proceed empty ok w c s)
  unfolding proceed set_submit_task_handler on_submit_task
  proceed-set_submit_task_handler f false w c s = refl
  proceed-set_submit_task_handler f true create c s = refl
  proceed-set_submit_task_handler f true finish c s = refl
  proceed-set_submit_task_handler f true rearm c s = refl

  step-set_submit_task_handler :
      (f : SubmitTaskFunc) (v : Event) (s : AsyncServer)
      → step empty v (set_submit_task_handler f s) ≡ set_submit_task_handler f (step empty v s)
  unfolding step set_submit_task_handler
  step-set_submit_task_handler f (completes ok i p) s =
      elim (Option-cases (take_context i s.contexts)) [
        | inl gone ↦ rw (step, gone) refl
        | inr ((c, rest), found) ↦
            rw (step, found)
              (proceed-set_submit_task_handler f ok c.status (receive p c.status c)
                (record s { contexts = rest }))
      ]

  -- A handler that is registered has no effect on what the server does from then on.
  pub run-set_submit_task_handler :
      (f : SubmitTaskFunc) (vs : List Event) (s : AsyncServer)
      → run empty vs (set_submit_task_handler f s) ≡ set_submit_task_handler f (run empty vs s)
  unfolding run
  run-set_submit_task_handler f [] s = refl
  run-set_submit_task_handler f (v ∷ vs) s =
      ap (run empty vs) (step-set_submit_task_handler f v s)
      ∙ run-set_submit_task_handler f vs (step empty v s)
