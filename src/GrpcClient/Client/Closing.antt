-- ===== src/GrpcClient/Client/Closing.antt =====
-- grpc_client.cpp: the end of a client, and what a call through a null pointer leaves.
use tiny_reactor.Base.{
  ◌≡◌, ◌≤◌, refl, sym, ap, subst, ◌∙◌, true, false, List, [], ◌∷◌, length, arith, if◌then◌else◌,
}
use tiny_reactor.Task.Proto.{PbTask}
use tiny_reactor.GrpcClient.{NextStatus, got_event, shut_down, timed_out}
use tiny_reactor.GrpcClient.Tags.{Completion}
use tiny_reactor.GrpcClient.Client.{
  AsyncTag, GrpcClient, LoopPlace, checks, nexts, left, ClientEvent, destroys, loops, step_client,
  serve_client, run_client, loop_step, handle_next, destroy_client, at_tag, proceed_tag,
}

-- The steps of the loop on what `AsyncNext` gives.
abbrev pub loops_of : List (Completion × NextStatus) → List ClientEvent
loops_of [] = []
loops_of ((written, next) ∷ rs) = loops written next ∷ loops_of rs

-- The tags after the end of a loop that stands at a place: only a loop in `AsyncNext` that gets an event
-- tells its tag of the completion.
unfoldable pub last_told :
    PbTask → LoopPlace → List (Completion × NextStatus) → List AsyncTag → List AsyncTag
last_told empty nexts ((written, got_event i ok) ∷ rs) ts =
    at_tag i (proceed_tag empty (record written { ok = ok })) ts
last_told empty _ _ ts = ts

module _ (empty : PbTask) where
  loops_step :
      (written : Completion) (next : NextStatus) (g : GrpcClient)
      → g.crashed ≡ false
      → step_client empty (loops written next) g ≡ loop_step empty written next g.cq_thread g
  unfolding step_client serve_client
  loops_step written next g alive =
      ap (λ b. if b then g else loop_step empty written next g.cq_thread g) alive

  -- A loop that was left does nothing more.
  left_stays :
      (rs : List (Completion × NextStatus)) (g : GrpcClient)
      → g.crashed ≡ false
      → g.cq_thread ≡ left
      → run_client empty (loops_of rs) g ≡ g
  unfolding run_client loop_step
  left_stays [] g alive over = refl
  left_stays ((written, next) ∷ rs) g alive over =
      ap (run_client empty (loops_of rs))
        (loops_step written next g alive ∙ ap (λ at. loop_step empty written next at g) over)
      ∙ left_stays rs g alive over

  -- A loop that is about to test the flag leaves.
  flag_stops :
      (rs : List (Completion × NextStatus)) (g : GrpcClient)
      → g.crashed ≡ false
      → g.is_shutdown ≡ true
      → g.cq_thread ≡ checks
      → let e = run_client empty (loops_of rs) g in
        (e.tags ≡ g.tags) × (1 ≤ length rs → e.cq_thread ≡ left)
  unfolding run_client loop_step
  flag_stops [] g alive flag at = (refl, λ le. absurd (omega (arith, le)))
  flag_stops ((written, next) ∷ rs) g alive flag at =
      let e : GrpcClient = record g { cq_thread = left } in
      let stops : step_client empty (loops written next) g ≡ e =
        loops_step written next g alive
        ∙ ap (λ x. loop_step empty written next x g) at
        ∙ ap (λ b. record g { cq_thread = if b then left else nexts }) flag in
      let all = ap (run_client empty (loops_of rs)) stops ∙ left_stays rs e alive refl in
      (ap (λ x. x.tags) all, λ le. ap (λ x. x.cq_thread) all)

  -- A loop that is in `AsyncNext`.
  next_stops :
      (rs : List (Completion × NextStatus)) (written : Completion) (next : NextStatus)
      (g : GrpcClient)
      → g.crashed ≡ false
      → g.is_shutdown ≡ true
      → let e = run_client empty (loops_of rs) (handle_next empty written next g) in
        (e.tags ≡ last_told empty nexts ((written, next) ∷ rs) g.tags)
        × (1 ≤ length rs → e.cq_thread ≡ left)
  unfolding last_told
  next_stops rs written (got_event i ok) g alive flag =
      flag_stops rs (handle_next empty written (got_event i ok) g) alive flag refl
  next_stops rs written shut_down g alive flag =
      let all = left_stays rs (record g { cq_thread = left }) alive refl in
      (ap (λ x. x.tags) all, λ le. ap (λ x. x.cq_thread) all)
  next_stops rs written timed_out g alive flag =
      flag_stops rs (record g { cq_thread = checks }) alive flag refl

  place_stops :
      (rs : List (Completion × NextStatus)) (at : LoopPlace) (g : GrpcClient)
      → g.crashed ≡ false
      → g.is_shutdown ≡ true
      → g.cq_thread ≡ at
      → let e = run_client empty (loops_of rs) g in
        (e.tags ≡ last_told empty at rs g.tags) × (2 ≤ length rs → e.cq_thread ≡ left)
  unfolding run_client loop_step last_told
  place_stops rs checks g alive flag at =
      let (kept, leaves) = flag_stops rs g alive flag at in (kept, λ le. leaves (omega (arith, le)))
  place_stops [] nexts g alive flag at = (refl, λ le. absurd (omega (arith, le)))
  place_stops ((written, next) ∷ rs) nexts g alive flag at =
      let one : step_client empty (loops written next) g ≡ handle_next empty written next g =
        loops_step written next g alive ∙ ap (λ x. loop_step empty written next x g) at in
      let (told, leaves) = next_stops rs written next g alive flag in
      (
        subst
            (λ x.
              (run_client empty (loops_of rs) x).tags
              ≡ last_told empty nexts ((written, next) ∷ rs) g.tags)
            (sym one) told,
        λ le.
            subst (λ x. (run_client empty (loops_of rs) x).cq_thread ≡ left) (sym one)
              (leaves (omega (arith, le))),
      )
  place_stops rs left g alive flag at =
      let all = left_stays rs g alive at in
      (ap (λ x. x.tags) all, λ le. ap (λ x. x.cq_thread) all ∙ at)

-- When the destructor has set the flag, on a client that has not crashed, whatever the queue gives: if
-- the loop of `CompleteRpc` was in `AsyncNext` and gets an event there, it tells the tag of that event
-- of the completion, and no tag of any further one; else it tells none. What else is pending then stays
-- pending. After two steps the loop is over, and the destructor can join the thread.
pub destroyed_client-left :
    (empty : PbTask) (g : GrpcClient) (rs : List (Completion × NextStatus))
    → g.crashed ≡ false
    → let e = run_client empty (destroys ∷ loops_of rs) g in
      (e.tags ≡ last_told empty g.cq_thread rs g.tags) × (2 ≤ length rs → e.cq_thread ≡ left)
unfolding run_client destroy_client step_client serve_client
destroyed_client-left empty g rs alive =
    let d : GrpcClient = destroy_client g in
    let one : step_client empty destroys g ≡ d = ap (λ b. if b then g else d) alive in
    let (told, leaves) = place_stops empty rs g.cq_thread d alive refl refl in
    (
      subst (λ x. (run_client empty (loops_of rs) x).tags ≡ last_told empty g.cq_thread rs g.tags)
          (sym one) told,
      λ le. subst (λ x. (run_client empty (loops_of rs) x).cq_thread ≡ left) (sym one) (leaves le),
    )
