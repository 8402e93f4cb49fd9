-- ===== src/ApiServer/Start.antt =====
-- api_server.cpp, `Run`: how the first contexts are spread over the completion queues.
use tiny_reactor.Base.{
  ℕ, zero, suc, ◌+◌, ◌*◌, ◌%◌, ◌≡◌, ◌<◌, refl, ap, ◌∙◌, Bool, true, Option, none, some, [], ltb,
  if◌then◌else◌, tally, arith, dec_lt,
}
use native.Mathlib.Nat.{mul-add-mod_self_right, mod-eq_of_lt}
use tiny_reactor.Base.Int.{ℤ}
use tiny_reactor.Task.Proto.{PbTask}
use tiny_reactor.ApiServer.{
  AsyncServer, new_server, add_contexts, initial_contexts, run_server, start_queues, with_contexts,
}
use tiny_reactor.ApiServer.Contexts.{serves, contexts_on}

-- `n` contexts on `cq_count` queues: each queue has as many as there are whole rounds over the
-- queues, and the first `rest` queues have one more.
pub record Spread (cq_count n : ℕ) (s : AsyncServer) : Type 0 where
  pub rounds : ℕ
  pub rest : ℕ
  pub all : n ≡ rounds * cq_count + rest
  pub short : rest < cq_count
  pub each : (q : ℕ) → q < cq_count → contexts_on q s ≡ rounds + (if ltb q rest then 1 else 0)

module _ (empty : PbTask) (cq_count : ℕ) (pos : 0 < cq_count) where
  more_rounds :
      (n rounds rest : ℕ)
      → n ≡ rounds * cq_count + rest
      → suc rest ≡ cq_count
      → suc n ≡ suc rounds * cq_count + 0
  more_rounds n rounds rest e f = omega (arith, e, f)

  remainder :
      (n rounds rest : ℕ) → n ≡ rounds * cq_count + rest → rest < cq_count → n % cq_count ≡ rest
  remainder n rounds rest e h =
      ap (λ x. x % cq_count) e ∙ mul-add-mod_self_right rounds cq_count rest ∙ mod-eq_of_lt h

  add_contexts-Spread :
      (n : ℕ) (s : AsyncServer)
      → s.contexts ≡ []
      → Spread cq_count n (add_contexts empty cq_count n s)
  unfolding add_contexts tally
  add_contexts-Spread zero s e = record {
    rounds = 0;
    rest = 0;
    all = omega arith;
    short = pos;
    each = λ q h. ap (tally (serves q)) e ∙ ground arith;
  }
  add_contexts-Spread (suc n) s e =
      let before : Spread cq_count n (add_contexts empty cq_count n s) =
        add_contexts-Spread n s e in
      let at : n % cq_count ≡ before.rest =
        remainder n before.rounds before.rest before.all before.short in
      elim (dec_lt (suc before.rest) cq_count) [
        | yes room ↦ record {
          rounds = before.rounds;
          rest = suc before.rest;
          all = omega (arith, before.all);
          short = room;
          each = λ q h. ground (arith, before.each q h, at);
        }
        | no full ↦ record {
          rounds = suc before.rounds;
          rest = 0;
          all =
              more_rounds n before.rounds before.rest before.all
                (omega (arith, full, before.short));
          short = pos;
          each = λ q h. ground (arith, before.each q h, at, full, before.short);
        }
      ]

-- Contexts change neither the queues nor the threads.
add_contexts-cqs :
    (empty : PbTask) (cq_count n : ℕ) (s : AsyncServer)
    → let e = add_contexts empty cq_count n s in (e.cqs ≡ s.cqs) × (e.cq_threads ≡ s.cq_threads)
unfolding add_contexts
add_contexts-cqs empty cq_count zero s = (refl, refl)
add_contexts-cqs empty cq_count (suc n) s = add_contexts-cqs empty cq_count n s

-- A value of DTS_INITIAL_CONTEXT that is a number, if it is set.
abbrev pub readable : Option ℤ → Option (Option ℤ)
readable none = none
readable (some c) = some (some c)

run_server-readable :
    (empty : PbTask) (cq_count : ℕ) (starts : Bool) (env : Option ℤ) (s : AsyncServer)
    → run_server empty cq_count starts (readable env) s ≡ start_queues empty cq_count starts env s
unfolding run_server
run_server-readable empty cq_count starts none s = refl
run_server-readable empty cq_count starts (some c) s = refl

-- `Run` of a new server, on a machine with at least one processor, if the library starts the server
-- and DTS_INITIAL_CONTEXT is not set or a number, ends with a thread for each queue, and spreads the
-- initial contexts over the queues evenly, the first queues having one more where the number is no
-- multiple of theirs.
pub run_server-Spread :
    (empty : PbTask) (cq_count : ℕ) (env : Option ℤ)
    → 0 < cq_count
    → (s : AsyncServer) × (run_server empty cq_count true (readable env) new_server ≡ some s)
      × (s.cq_threads ≡ cq_count)
      × Spread cq_count (initial_contexts cq_count env) s
unfolding start_queues
run_server-Spread empty cq_count env pos =
    let started : AsyncServer = with_contexts empty cq_count true env new_server in
    let n : ℕ = initial_contexts cq_count env in
    let first : AsyncServer = record new_server { cqs = 0 + cq_count; has_server = true } in
    let spread : Spread cq_count n started = add_contexts-Spread empty cq_count pos n first refl in
    let (queues, threads) = add_contexts-cqs empty cq_count n first in
    (
      record started { cq_threads = started.cq_threads + started.cqs },
      run_server-readable empty cq_count true env new_server ∙ ground (arith, pos),
      omega (arith, queues, threads),
      record {
        rounds = spread.rounds;
        rest = spread.rest;
        all = spread.all;
        short = spread.short;
        each = spread.each;
      },
    )
