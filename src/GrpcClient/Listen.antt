-- ===== src/GrpcClient/Listen.antt =====
-- grpc_client.hpp, `AsyncListenTag`: the life of a stream of results.
use tiny_reactor.Base.{
  ℕ, ◌+◌, ◌-◌, ◌≡◌, refl, ap, ◌∙◌, Bool, true, false, Option, none, some, List, [], ◌∷◌, ◌++◌, ◌==◌,
  tally, tally-append, arith, Bool-cases, inl, inr,
}
use tiny_reactor.Task.Proto.{PbTask}
use tiny_reactor.GrpcClient.{Flight, deliver, listen_flight, listen_results}
use tiny_reactor.GrpcClient.Tags.{
  Action, aborts, Completion, ListenTag, ListenStep, start, read, finish, done, listen_proceed,
  listen_receive, transition_to_finish, handle_message, requests,
}
use tiny_reactor.GrpcClient.Submit.{is_delete, is_finish}

abbrev pub is_abort : Action → Bool
is_abort aborts = true
is_abort _ = false

-- How many calls of `Finish` and how many deletions a stream has behind it in each step.
unfoldable pub finished : ListenStep → ℕ
finished start = 0
finished read = 0
finished finish = 1
finished done = 1

unfoldable pub deleted : ListenStep → ℕ
deleted done = 1
deleted _ = 0

-- One operation is pending until the tag is deleted, and none from then on.
pub record Lives (f : Flight ListenTag) : Type 0 where
  pub one_pending : f.pending + deleted f.tag.step ≡ 1
  pub finish_calls : tally is_finish f.log ≡ finished f.tag.step
  pub deletions : tally is_delete f.log ≡ deleted f.tag.step
  pub no_abort : tally is_abort f.log ≡ 0

-- What one call of `ProceedImpl` adds, on a tag that is not done.
record Adds (s : ListenStep) (r : ListenTag × List Action) : Type 0 where
  pending : requests r.1 + deleted r.0.step ≡ 1
  finish_calls : finished s + tally is_finish r.1 ≡ finished r.0.step
  deletions : tally is_delete r.1 ≡ deleted r.0.step
  no_abort : tally is_abort r.1 ≡ 0

module _ (t : ListenTag) where
  handle_message-Adds : (m : Option PbTask) → t.step ≡ read → Adds read (handle_message m t)
  unfolding handle_message transition_to_finish requests tally finished deleted
  handle_message-Adds none e = record {
    pending = refl;
    finish_calls = refl;
    deletions = refl;
    no_abort = refl;
  }
  handle_message-Adds (some p) e = elim (Bool-cases t.has_callback) [
    | inl told ↦ rw told (record {
      pending = ground (arith, e);
      finish_calls = ground (arith, e);
      deletions = ground (arith, e);
      no_abort = refl;
    })
    | inr mute ↦ rw mute (record {
      pending = ground (arith, e);
      finish_calls = ground (arith, e);
      deletions = ground (arith, e);
      no_abort = refl;
    })
  ]

  listen_proceed-Adds :
      (ok : Bool) (s : ListenStep) → deleted s ≡ 0 → t.step ≡ s → Adds s (listen_proceed ok s t)
  unfolding listen_proceed transition_to_finish requests tally finished deleted
  listen_proceed-Adds false start h e = record {
    pending = refl;
    finish_calls = refl;
    deletions = refl;
    no_abort = refl;
  }
  listen_proceed-Adds true start h e = record {
    pending = refl;
    finish_calls = refl;
    deletions = refl;
    no_abort = refl;
  }
  listen_proceed-Adds false read h e = record {
    pending = refl;
    finish_calls = refl;
    deletions = refl;
    no_abort = refl;
  }
  listen_proceed-Adds true read h e = handle_message-Adds t.response e
  listen_proceed-Adds ok finish h e = record {
    pending = ground arith;
    finish_calls = ground arith;
    deletions = ground arith;
    no_abort = ground arith;
  }
  listen_proceed-Adds ok done h e = absurd (omega arith)

listen_receive-step :
    (c : Completion) (s : ListenStep) (t : ListenTag) → (listen_receive c s t).step ≡ t.step
unfolding listen_receive
listen_receive-step c start t = refl
listen_receive-step c read t = refl
listen_receive-step c finish t = refl
listen_receive-step c done t = refl

-- `ProceedImpl` on what the library wrote.
abbrev next : Completion → ListenTag → ListenTag × List Action
next c t = let r = listen_receive c t.step t in listen_proceed c.ok r.step r

advance :
    (c : Completion) (f : Flight ListenTag)
    → deleted f.tag.step ≡ 0
    → f.pending ≡ 1
    → Lives f
    → let (t, acts) = next c f.tag in
      Lives (record { tag = t; pending = f.pending - 1 + requests acts; log = f.log ++ acts })
advance c f alive one l =
    let r : ListenTag = listen_receive c f.tag.step f.tag in
    let same : r.step ≡ f.tag.step = listen_receive-step c f.tag.step f.tag in
    let a : Adds r.step (next c f.tag) =
      listen_proceed-Adds r c.ok r.step (ap deleted same ∙ alive) refl in
    let acts : List Action = (next c f.tag).1 in
    record {
      one_pending = omega (arith, a.pending, one);
      finish_calls = omega (
        arith,
        tally-append is_finish f.log acts,
        l.finish_calls,
        a.finish_calls,
        ap finished same,
      );
      deletions = omega (arith, tally-append is_delete f.log acts, l.deletions, alive, a.deletions);
      no_abort = omega (arith, tally-append is_abort f.log acts, l.no_abort, a.no_abort);
    }

pub deliver-Lives :
    (c : Completion) (f : Flight ListenTag)
    → Lives f
    → Lives (deliver (λ c t. listen_receive c t.step t) (λ ok t. listen_proceed ok t.step t) c f)
unfolding deliver
deliver-Lives c f l = elim (Bool-cases (f.pending == 0)) [
  | inl over ↦ rw over l
  | inr waits ↦
      rw waits (
        advance c f (ground (arith, l.one_pending, waits)) (ground (arith, l.one_pending, waits)) l)
]

-- Whatever completions the library reports to a stream, one operation is pending until the tag is
-- deleted and none after that, `Finish` is called at most once, the tag is deleted at most once and
-- only after `Finish`, and `ProceedImpl` never runs in its last step.
pub listen_results-Lives :
    (has_callback : Bool) (cs : List Completion)
    → Lives (listen_flight cs (listen_results has_callback))
unfolding listen_results listen_flight requests tally finished deleted
listen_results-Lives has_callback cs =
    all_delivered cs _
      (record { one_pending = refl; finish_calls = refl; deletions = refl; no_abort = refl })
  where
    all_delivered :
        (cs : List Completion) (f : Flight ListenTag) → Lives f → Lives (listen_flight cs f)
    all_delivered [] f l = l
    all_delivered (c ∷ cs) f l = all_delivered cs _ (deliver-Lives c f l)
