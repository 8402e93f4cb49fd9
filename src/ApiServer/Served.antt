-- ===== src/ApiServer/Served.antt =====
-- src/common/src/grpc_client.cpp and src/api-server: a task that a client submits to the server.
use tiny_reactor.Base.{
  ◌≡◌, refl, ap, sym, subst, ◌∙◌, true, Option, none, some, List, [], ◌∷◌, ◌++◌, length, get_elem?,
  ℕ,
}
use tiny_reactor.Task.{Task, success}
use tiny_reactor.Task.Normal.{is_distinct}
use tiny_reactor.Task.RoundTrip.{KeysDiffer}
use tiny_reactor.Task.Transfer.{transferred, task_from_proto-task_to_proto}
use tiny_reactor.Task.Proto.{PbTask, Library, task_to_proto}
use tiny_reactor.GrpcClient.{submit_task_sync, replies, unavailable}
use tiny_reactor.GrpcClient.Tags.{Status, status_ok}
use tiny_reactor.ApiServer.{
  AsyncServer, AsyncCallContext, CallStatus, create, completes, take_context, proceed, receive,
  on_submit_task, step,
}
use tiny_reactor.ApiServer.Answers.{succeeded}

module _ (empty : PbTask) where
  abbrev pub answer_of : Option PbTask → Status × PbTask
  answer_of none = (unavailable "no response", empty)
  answer_of (some response) = (status_ok, response)

  -- What the client's stub gets from a server whose context `id` takes the call: the response that
  -- the server sends, if it sends one.
  unfoldable pub call_server : AsyncServer → ℕ → PbTask → Status × PbTask
  call_server s id p =
      answer_of (get_elem? (step empty (completes true id p) s).replies (length s.replies))

  get_elem?-append : (xs : List PbTask) (y : PbTask) → get_elem? (xs ++ y ∷ []) (length xs) ≡ some y
  get_elem?-append [] y = refl
  get_elem?-append (x ∷ xs) y = get_elem?-append xs y

  proceed-replies :
      (p : PbTask) (w : CallStatus) (ctx : AsyncCallContext) (s : AsyncServer)
      → w ≡ create
      → (proceed empty true w (receive p w ctx) s).replies ≡ s.replies ++ succeeded p ∷ []
  unfolding proceed receive on_submit_task
  proceed-replies p w ctx s waits =
      subst
        (λ w. (proceed empty true w (receive p w ctx) s).replies ≡ s.replies ++ succeeded p ∷ [])
        (sym waits) refl

  step-replies :
      (s : AsyncServer) (id : ℕ) (p : PbTask) (ctx : AsyncCallContext)
      (rest : List AsyncCallContext)
      → take_context id s.contexts ≡ some (ctx, rest)
      → ctx.status ≡ create
      → (step empty (completes true id p) s).replies ≡ s.replies ++ succeeded p ∷ []
  unfolding step
  step-replies s id p ctx rest found waits =
      rw (step, found) (proceed-replies p ctx.status ctx (record s { contexts = rest }) waits)

  call_server-succeeded :
      (s : AsyncServer) (id : ℕ) (p : PbTask) (ctx : AsyncCallContext)
      (rest : List AsyncCallContext)
      → take_context id s.contexts ≡ some (ctx, rest)
      → ctx.status ≡ create
      → call_server s id p ≡ (status_ok, succeeded p)
  unfolding call_server
  call_server-succeeded s id p ctx rest found waits = ap answer_of (
      ap (λ rs. get_elem? rs (length s.replies)) (step-replies s id p ctx rest found waits)
      ∙ get_elem?-append s.replies (succeeded p))

  -- A task that is submitted to the server comes back as a successful one, whatever its state was,
  -- with a new flag and with its parameters and its result in normal form. A context of the server
  -- waits for the call, and no object in the parameters or the result has a key twice.
  pub submit_task_sync-served :
      (lib : Library) (s : AsyncServer) (id : ℕ) (ctx : AsyncCallContext)
      (rest : List AsyncCallContext) (t : Task)
      → KeysDiffer lib
      → is_distinct t.func_params ≡ true
      → is_distinct t.result ≡ true
      → take_context id s.contexts ≡ some (ctx, rest)
      → ctx.status ≡ create
      → submit_task_sync lib (some (call_server s id)) t
        ≡ replies (record (transferred lib t) { state = success })
  unfolding submit_task_sync task_to_proto
  submit_task_sync-served lib s id ctx rest t keys params result found waits =
      rw (call_server-succeeded s id (task_to_proto lib t) ctx rest found waits) (
        ap replies
          (task_from_proto-task_to_proto lib (record t { state = success }) keys tt params result))
