-- ===== src/ApiServer/Contexts.antt =====
-- api_server.hpp: how many contexts wait on each queue, and what they answer.
use tiny_reactor.Base.{
  ℕ, ◌+◌, Bool, not, ◌&&◌, none, some, List, [], ◌∷◌, ◌==◌, if◌then◌else◌, tally,
}
use tiny_reactor.Task.Proto.{PbTask}
use tiny_reactor.ApiServer.{AsyncServer, AsyncCallContext, Event, completes, take_context, step}

-- The contexts of one queue.
abbrev pub serves : ℕ → AsyncCallContext → Bool
serves q c = c.cq == q

abbrev pub contexts_on : ℕ → AsyncServer → ℕ
contexts_on q s = tally (serves q) s.contexts

-- The contexts of queue `q` that an event deletes for good: one, if it reports a failure to one.
unfoldable pub lost : ℕ → Event → AsyncServer → ℕ
unfolding take_context
lost q (completes ok i p) s = elim (take_context i s.contexts) [
  | none ↦ 0
  | some (c, _) ↦ if not ok && serves q c then 1 else 0
]

unfoldable pub losses : PbTask → ℕ → List Event → AsyncServer → ℕ
unfolding step
losses empty q [] s = 0
losses empty q (v ∷ vs) s = lost q v s + losses empty q vs (step empty v s)
