-- ===== src/GrpcClient/Submit.antt =====
-- grpc_client.hpp and grpc_client.cpp: what becomes of a submitted task.
use tiny_reactor.Base.{
  ◌≡◌, refl, ap, subst, sym, ◌∙◌, Bool, true, false, List, [], ◌∷◌, if◌then◌else◌, tally, arith,
}
use tiny_reactor.Task.{Task}
use tiny_reactor.Task.Proto.{PbTask}
use tiny_reactor.GrpcClient.{
  Flight, deliver, deliver_all, submit_flight, take_off, new_submit_tag, submit_task_async,
  in_flight,
}
use tiny_reactor.GrpcClient.Tags.{
  Promise, unset, value, exception, Action, starts, starts_mute, finishes, deletes, Completion,
  SubmitTag, is_ok, internal_code, task_of, submit_proceed, submit_receive, submit_set_result,
  requests,
}

abbrev pub is_delete : Action → Bool
is_delete deletes = true
is_delete _ = false

abbrev pub is_finish : Action → Bool
is_finish finishes = true
is_finish _ = false

module _ {ℓ} {Tag : Type ℓ} (receive : Completion → Tag → Tag)
    (proceed : Bool → Tag → Tag × List Action) where
  deliver-none : (c : Completion) (f : Flight Tag) → f.pending ≡ 0 → deliver receive proceed c f ≡ f
  unfolding deliver
  deliver-none c f h = ground (arith, h)

  -- A call for which no operation is pending gets no completion.
  pub deliver_all-none :
      (cs : List Completion) (f : Flight Tag) → f.pending ≡ 0 → deliver_all receive proceed cs f ≡ f
  unfolding deliver_all
  deliver_all-none [] f h = refl
  deliver_all-none (c ∷ cs) f h =
      ap (deliver_all receive proceed cs) (deliver-none c f h) ∙ deliver_all-none cs f h

pub submit_flight-none :
    (empty : PbTask) (cs : List Completion) (f : Flight SubmitTag)
    → f.pending ≡ 0
    → submit_flight empty cs f ≡ f
unfolding submit_flight
submit_flight-none empty cs f h =
    deliver_all-none (λ c t. submit_receive c t.step t) (λ ok t. submit_proceed empty ok t.step t)
      cs f h

-- `submit_task_async` starts its call without a tag, so the library reports nothing for it: whatever
-- completions come, the promise is never set, the callback never called and the tag never deleted.
pub submit_task_async-silent :
    (empty : PbTask) (has_callback : Bool) (cs : List Completion)
    → (f : Flight SubmitTag) × (submit_task_async true has_callback ≡ in_flight f)
      × ((submit_flight empty cs f).tag.promise ≡ unset)
      × ((submit_flight empty cs f).log ≡ starts_mute ∷ [])
unfolding submit_task_async requests
submit_task_async-silent empty has_callback cs =
    let f : Flight SubmitTag = take_off (new_submit_tag has_callback) (starts_mute ∷ []) in
    let same : submit_flight empty cs f ≡ f = submit_flight-none empty cs f refl in
    (
      f,
      refl,
      ap (λ (g : Flight SubmitTag). g.tag.promise) same,
      ap (λ (g : Flight SubmitTag). g.log) same,
    )

-- What the second completion of a submitted task says of it.
abbrev pub verdict : PbTask → Completion → Promise Task
verdict empty c =
    if c.ok
    then (if is_ok c.status then value (task_of empty c.response) else exception c.status)
    else exception (record { code = internal_code; message = "Finish cq !ok" })

-- A call that was settled as `c` says: finished once, and its tag deleted once.
pub record Settled (empty : PbTask) (c : Completion) (f : Flight SubmitTag) : Type 0 where
  pub promised : f.tag.promise ≡ verdict empty c
  pub over : f.pending ≡ 0
  pub finished_once : tally is_finish f.log ≡ 1
  pub deleted_once : tally is_delete f.log ≡ 1

two_completions :
    (empty : PbTask) (has_callback : Bool) (first second : Completion)
    → Settled empty second (
        submit_flight empty
          (first ∷ second ∷ [])
          (take_off (new_submit_tag has_callback) (starts ∷ [])))
unfolding submit_flight deliver_all deliver submit_receive submit_proceed submit_set_result requests
    tally
two_completions empty has_callback first second = record {
  promised = ground arith;
  over = ground arith;
  finished_once = ground arith;
  deleted_once = ground arith;
}

two_more :
    (empty : PbTask) (a b : Completion) (cs : List Completion) (f : Flight SubmitTag)
    → submit_flight empty (a ∷ b ∷ cs) f
      ≡ submit_flight empty cs (submit_flight empty (a ∷ b ∷ []) f)
unfolding submit_flight deliver_all
two_more empty a b cs f = refl

-- A submitted task whose start is reported, well or not, is finished once; the completion of that
-- decides what the promise is set to; then the tag is deleted, and no later completion reaches it.
pub submit_flight-Settled :
    (empty : PbTask) (has_callback : Bool) (first second : Completion) (later : List Completion)
    → Settled empty second (
        submit_flight empty
          (first ∷ second ∷ later)
          (take_off (new_submit_tag has_callback) (starts ∷ [])))
submit_flight-Settled empty has_callback first second later =
    let f : Flight SubmitTag = take_off (new_submit_tag has_callback) (starts ∷ []) in
    let g : Flight SubmitTag = submit_flight empty (first ∷ second ∷ []) f in
    let settled : Settled empty second g = two_completions empty has_callback first second in
    subst (Settled empty second)
      (sym (two_more empty first second later f ∙ submit_flight-none empty later g settled.over))
      settled
