-- ===== src/GrpcClient/Callbacks.antt =====
-- grpc_client.hpp, `AsyncListenTag`: what the user of a stream is told.
use tiny_reactor.Base.{
  ◌≡◌, refl, ap, ◌∙◌, Bool, true, false, ◌||◌, not, Option, none, some, List, [], ◌∷◌, ◌++◌,
  if◌then◌else◌, map, append_assoc, append-nil, arith, Bool-cases, Option-cases, inl, inr,
}
use tiny_reactor.Task.{default_task}
use tiny_reactor.Task.Proto.{PbTask, task_from_proto}
use tiny_reactor.GrpcClient.{Flight, deliver, deliver_all, listen_flight, listen_results}
use tiny_reactor.GrpcClient.Tags.{
  Status, Action, Argument, starts, reads, finishes, deletes, calls_back, a_task, Completion,
  ListenTag, read, finish, is_ok, status_ok, listen_proceed, listen_receive, transition_to_finish,
  handle_message, requests, cancelled_code,
}

-- The calls of the callback among some actions.
unfoldable pub told : List Action → List (Argument × Status)
told [] = []
told (calls_back a s ∷ acts) = (a, s) ∷ told acts
told (_ ∷ acts) = told acts

told-append : (xs ys : List Action) → told (xs ++ ys) ≡ told xs ++ told ys
unfolding told
told-append [] ys = refl
told-append (calls_back a s ∷ xs) ys = ap (λ zs. (a, s) ∷ zs) (told-append xs ys)
told-append (Action.starts ∷ xs) ys = told-append xs ys
told-append (Action.starts_mute ∷ xs) ys = told-append xs ys
told-append (Action.reads ∷ xs) ys = told-append xs ys
told-append (Action.finishes ∷ xs) ys = told-append xs ys
told-append (Action.deletes ∷ xs) ys = told-append xs ys
told-append (Action.aborts ∷ xs) ys = told-append xs ys

-- A read that brings a task.
abbrev pub arrives : PbTask → Completion
arrives p = record { ok = true; response = some p; success = false; status = status_ok }

abbrev is_none {ℓ} : {A : Type ℓ} → Option A → Bool
is_none none = true
is_none (some _) = false

-- A read that fails, or brings a message without a task.
abbrev pub ends_stream : Completion → Bool
ends_stream c = not c.ok || is_none c.response

abbrev reading : Option PbTask → List Action → Flight ListenTag
reading response log = record {
  tag = record { step = read; response = response; status = status_ok; has_callback = true };
  pending = 1;
  log = log;
}

abbrev closing : Option PbTask → Status → List Action → Flight ListenTag
closing response status log = record {
  tag = record { step = finish; response = response; status = status; has_callback = true };
  pending = 1;
  log = log;
}

abbrev one : Completion → Flight ListenTag → Flight ListenTag
one = deliver (λ c t. listen_receive c t.step t) (λ ok t. listen_proceed ok t.step t)

-- What the user is told at the end.
abbrev pub farewell : Status → List (Argument × Status)
farewell s = if is_ok s then [] else (a_task default_task, s) ∷ []

-- The last read begins `Finish`.
one-reading :
    (response : Option PbTask) (log : List Action) (c : Completion)
    → ends_stream c ≡ true
    → (status : Status) × (one c (reading response log)
        ≡ closing c.response status (log ++ finishes ∷ []))
unfolding deliver listen_receive listen_proceed handle_message transition_to_finish requests
one-reading response log c h = elim (Bool-cases c.ok) [
  | inr failed ↦ (record { code = cancelled_code; message = "stream aborted" }, rw failed refl)
  | inl good ↦ elim (Option-cases c.response) [
    | inl nothing ↦ (status_ok, rw (good, nothing) refl)
    | inr (p, some_task) ↦ absurd (ground (arith, good, some_task))
  ]
]

one-closing :
    (response : Option PbTask) (status : Status) (log : List Action) (c : Completion)
    → told (one c (closing response status log)).log ≡ told log ++ farewell c.status
unfolding deliver listen_receive listen_proceed told
one-closing response status log c = told-append log _ ∙ ap (λ zs. told log ++ zs) last
  where
    last :
        told (
          (if not (is_ok c.status) then calls_back (a_task default_task) c.status ∷ [] else [])
          ++ deletes ∷ [])
        ≡ farewell c.status
    last = elim (Bool-cases (is_ok c.status)) [ inl fine ↦ rw fine refl | inr bad ↦ rw bad refl ]

farewell-told :
    (response : Option PbTask) (log : List Action) (last final : Completion)
    → ends_stream last ≡ true
    → told (listen_flight (last ∷ final ∷ []) (reading response log)).log
      ≡ told log ++ farewell final.status
unfolding listen_flight deliver_all told
farewell-told response log last final h =
    let (status, e) = one-reading response log last h in
    ap (λ (f : Flight ListenTag). told (one final f).log) e
    ∙ one-closing last.response status (log ++ finishes ∷ []) final
    ∙ ap (λ zs. zs ++ farewell final.status)
        (told-append log (finishes ∷ []) ∙ append-nil (told log))

abbrev pub news : PbTask → Argument × Status
news p = (a_task (task_from_proto p), status_ok)

-- The reads that bring tasks, and what comes after them.
stream-told :
    (ps : List PbTask) (response : Option PbTask) (log : List Action) (last final : Completion)
    → ends_stream last ≡ true
    → told (listen_flight (map arrives ps ++ last ∷ final ∷ []) (reading response log)).log
      ≡ told log ++ (map news ps ++ farewell final.status)
unfolding listen_flight deliver_all deliver listen_receive listen_proceed handle_message requests
    told
stream-told [] response log last final h = farewell-told response log last final h
stream-told (p ∷ ps) response log last final h =
    let more : List Action = calls_back (a_task (task_from_proto p)) status_ok ∷ reads ∷ [] in
    stream-told ps none (log ++ more) last final h
    ∙ ap (λ zs. zs ++ (map news ps ++ farewell final.status)) (told-append log more)
    ∙ append_assoc (told log) (told more) (map news ps ++ farewell final.status)

-- A stream that opens, brings some tasks, and ends with a failed read or a message without a task:
-- the user is told of each task once, in order, with status OK, and then, unless the status of
-- `Finish` is OK, of that status with a default task.
pub listen_results-told :
    (ps : List PbTask) (opened last final : Completion)
    → opened.ok ≡ true
    → ends_stream last ≡ true
    → told (listen_flight (opened ∷ map arrives ps ++ last ∷ final ∷ []) (listen_results true)).log
      ≡ map news ps ++ farewell final.status
unfolding listen_results listen_flight deliver_all deliver listen_receive listen_proceed requests
    told
listen_results-told ps opened last final o h =
    rw o (stream-told ps none (starts ∷ reads ∷ []) last final h)
