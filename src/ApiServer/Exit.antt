-- ===== src/ApiServer/Exit.antt =====
-- main.cpp: how the program ends.
use tiny_reactor.Base.{
  ℕ, ◌+◌, ◌-◌, ◌≡◌, ◌≤◌, refl, sym, ap, subst, ◌∙◌, Bool, true, false, not, none, some, List, [],
  ◌∷◌, All, arith, tally, if◌then◌else◌, Bool-cases, inl, inr, ℕ_discrete,
}
use tiny_reactor.ApiServer.{AsyncServer, shutdown, join_threads}
use tiny_reactor.ApiServer.Program.{
  Stage, polls, shuts_down, exited, Surroundings, Program, ProgramEvent, goes_on, signals,
  main_step, signal_program, signal_handler, call_shutdown, destroy_server, destroys_server,
  enter_shutdown, leave_shutdown, crashed, program_step, run_program, interrupts, uninterrupted,
}

-- A step of the main thread.
abbrev pub is_step : ProgramEvent → Bool
is_step goes_on = true
is_step (signals _) = false

abbrev pub is_signal : ProgramEvent → Bool
is_signal e = not (is_step e)

-- Signals come to the main thread.
abbrev pub OnMain : ProgramEvent → Type 0
OnMain goes_on = Unit
OnMain (signals on_worker) = on_worker ≡ false

abbrev pub Started : Program → Type 0
Started p = (s : AsyncServer) × (p.g_server ≡ some s) × (s.has_server ≡ true)

-- The stages on the way to the end, and the steps that they are away from it.
unfoldable pub Going : Stage → Program → Type 0
Going polls p = Started p
Going shuts_down p = Started p
Going destroys_server p = Started p
Going exited p = Unit
Going _ p = ⊥

unfoldable pub stage_rank : Stage → ℕ
stage_rank polls = 5
stage_rank shuts_down = 4
stage_rank destroys_server = 2
stage_rank _ = 0

-- The steps that the main thread makes to the end, if no further signal comes.
abbrev pub steps_left : Program → ℕ
steps_left p = stage_rank p.stage + (if p.in_shutdown then 1 else 0)

-- A program on its way to a clean exit, which is at most `k` steps away.
pub record Leaving (k : ℕ) (p : Program) : Type 0 where
  pub flagged : p.g_shutdown ≡ true
  pub handling : p.handles_signals ≡ true
  pub going : Going p.stage p
  pub near : steps_left p ≤ k

shutdown-started :
    (s : AsyncServer)
    → s.has_server ≡ true
    → (e : AsyncServer) × (shutdown s ≡ some e) × (e.has_server ≡ true)
unfolding shutdown
shutdown-started s h = (record s { is_shutdown = true }, rw h refl, h)

-- A call of `Shutdown`, from which the program goes on at `next`.
enter_shutdown-Leaving :
    (k : ℕ) (next : Stage) (s : AsyncServer) (p : Program)
    → p.g_shutdown ≡ true
    → p.handles_signals ≡ true
    → s.has_server ≡ true
    → ((q : Program) → Started q → Going next q)
    → stage_rank next + 1 ≤ k
    → Leaving k (enter_shutdown next (shutdown s) p)
enter_shutdown-Leaving k next s p f h started going le =
    let (e, stops, up) = shutdown-started s started in
    subst (λ o. Leaving k (enter_shutdown next o p)) (sym stops)
      (record { flagged = f; handling = h; going = going _ (e, refl, up); near = le })

-- `Shutdown` ends, in the main thread or in the handler that interrupted it.
joined-Leaving :
    (k : ℕ) (g : Stage) (s : AsyncServer) (p : Program)
    → p.stage ≡ g
    → p.g_shutdown ≡ true
    → p.handles_signals ≡ true
    → s.has_server ≡ true
    → ((q : Program) → Started q → Going g q)
    → stage_rank g ≤ k
    → Leaving k (record p { g_server = some (join_threads s); in_shutdown = false })
joined-Leaving k g s p e f h up going le =
    let q : Program = record p { g_server = some (join_threads s); in_shutdown = false } in
    record {
      flagged = f;
      handling = h;
      going = subst (λ x. Going x q) (sym e) (going q (join_threads s, refl, up));
      near = omega (arith, ap stage_rank e, le);
    }

leave_shutdown-Leaving :
    (k : ℕ) (g : Stage) (p : Program)
    → p.stage ≡ g
    → p.g_shutdown ≡ true
    → p.handles_signals ≡ true
    → Going g p
    → stage_rank g ≤ k
    → Leaving k (leave_shutdown g p.g_server p)
unfolding leave_shutdown Going
leave_shutdown-Leaving k exited p e f h g le = record {
  flagged = f;
  handling = h;
  going = subst (λ x. Going x (record p { g_server = none; in_shutdown = false })) (sym e) tt;
  near = omega (arith, ap stage_rank e, le);
}
leave_shutdown-Leaving k polls p e f h (s, holds, up) le =
    subst (λ o. Leaving k (leave_shutdown polls o p)) (sym holds)
      (joined-Leaving k polls s p e f h up (λ q r. r) le)
leave_shutdown-Leaving k shuts_down p e f h (s, holds, up) le =
    subst (λ o. Leaving k (leave_shutdown shuts_down o p)) (sym holds)
      (joined-Leaving k shuts_down s p e f h up (λ q r. r) le)
leave_shutdown-Leaving k destroys_server p e f h (s, holds, up) le =
    subst (λ o. Leaving k (leave_shutdown destroys_server o p)) (sym holds)
      (joined-Leaving k destroys_server s p e f h up (λ q r. r) le)
leave_shutdown-Leaving k _ p e f h g le = absurd g

module _ (w : Surroundings) where
  main_step-Leaving :
      (k : ℕ) (g : Stage) (p : Program)
      → p.stage ≡ g
      → p.in_shutdown ≡ false
      → p.g_shutdown ≡ true
      → p.handles_signals ≡ true
      → Going g p
      → stage_rank g ≤ k
      → Leaving (k - 1) (main_step w g p)
  unfolding main_step Going call_shutdown destroy_server stage_rank
  main_step-Leaving k polls p e i f h g le =
      subst (λ b. Leaving (k - 1) (if b then record p { stage = shuts_down } else p)) (sym f)
        (record { flagged = f; handling = h; going = g; near = ground (arith, i, le) })
  main_step-Leaving k shuts_down p e i f h (s, holds, up) le =
      subst (λ o. Leaving (k - 1) (call_shutdown destroys_server o p)) (sym holds)
        (enter_shutdown-Leaving (k - 1) destroys_server s p f h up (λ q r. r) (omega (arith, le)))
  main_step-Leaving k destroys_server p e i f h (s, holds, up) le =
      subst (λ o. Leaving (k - 1) (destroy_server o p)) (sym holds)
        (enter_shutdown-Leaving (k - 1) exited s p f h up (λ q r. tt) (omega (arith, le)))
  main_step-Leaving k exited p e i f h g le = record {
    flagged = f;
    handling = h;
    going = subst (λ x. Going x p) (sym e) tt;
    near = ground (arith, i, ap stage_rank e);
  }
  main_step-Leaving k _ p e i f h g le = absurd g

-- A signal to the main thread, outside `Shutdown`.
pub handled-Leaving :
    (k : ℕ) (p : Program)
    → p.in_shutdown ≡ false
    → p.handles_signals ≡ true
    → ((q : Program) → Started q → Going p.stage q)
    → Started p
    → stage_rank p.stage + 1 ≤ k
    → Leaving k (
        if p.in_shutdown
        then record p { stage = crashed }
        else if p.handles_signals
        then signal_handler false p.g_server p
        else record p { stage = crashed })
unfolding signal_handler
handled-Leaving k p i h going (s, holds, up) le =
    subst
      (λ c. Leaving k (
        if c
        then record p { stage = crashed }
        else if p.handles_signals
        then signal_handler false p.g_server p
        else record p { stage = crashed }))
      (sym i)
      (subst
        (λ b.
          Leaving k (if b then signal_handler false p.g_server p else record p { stage = crashed }))
        (sym h)
        (subst (λ o. Leaving k (signal_handler false o p)) (sym holds)
          (enter_shutdown-Leaving k p.stage s (record p { g_shutdown = true }) refl h up going le)))

signal_program-Leaving :
    (k : ℕ) (g : Stage) (p : Program)
    → p.stage ≡ g
    → p.in_shutdown ≡ false
    → p.g_shutdown ≡ true
    → p.handles_signals ≡ true
    → Going g p
    → stage_rank g ≤ k
    → Leaving (k + 1) (signal_program false g p)
unfolding signal_program Going
signal_program-Leaving k polls p e i f h g le =
    handled-Leaving (k + 1) p i h (λ q r. subst (λ x. Going x q) (sym e) r) g
      (omega (arith, ap stage_rank e, le))
signal_program-Leaving k shuts_down p e i f h g le =
    handled-Leaving (k + 1) p i h (λ q r. subst (λ x. Going x q) (sym e) r) g
      (omega (arith, ap stage_rank e, le))
signal_program-Leaving k destroys_server p e i f h g le =
    handled-Leaving (k + 1) p i h (λ q r. subst (λ x. Going x q) (sym e) r) g
      (omega (arith, ap stage_rank e, le))
signal_program-Leaving k exited p e i f h g le =
    subst (λ b. Leaving (k + 1) (if b then record p { stage = crashed } else p)) (sym i)
      (record {
        flagged = f;
        handling = h;
        going = subst (λ x. Going x p) (sym e) tt;
        near = ground (arith, i, ap stage_rank e, le);
      })
signal_program-Leaving k _ p e i f h g le = absurd g

goes_on-Leaving :
    (w : Surroundings) (k : ℕ) (p : Program)
    → Leaving k p
    → Leaving (k - 1) (program_step w goes_on p)
unfolding program_step
goes_on-Leaving w k p l = elim (Bool-cases p.in_shutdown) [
  | inl busy ↦
      subst
        (λ b.
          Leaving (k - 1)
            (if b then leave_shutdown p.stage p.g_server p else main_step w p.stage p))
        (sym busy)
        (leave_shutdown-Leaving (k - 1) p.stage p refl l.flagged l.handling l.going
          (ground (arith, busy, l.near)))
  | inr free ↦
      subst
        (λ b.
          Leaving (k - 1)
            (if b then leave_shutdown p.stage p.g_server p else main_step w p.stage p))
        (sym free)
        (main_step-Leaving w k p.stage p refl free l.flagged l.handling l.going
          (ground (arith, free, l.near)))
]

pub uninterrupted-cons :
    (w : Surroundings) (e : ProgramEvent) (es : List ProgramEvent) (p : Program)
    → uninterrupted w (e ∷ es) p ≡ true
    → (interrupts e p ≡ false) × (uninterrupted w es (program_step w e p) ≡ true)
unfolding uninterrupted
uninterrupted-cons w e es p h = (ground arith, ground arith)

pub Leaving-exited : (p : Program) → Leaving 0 p → (p.stage ≡ exited) × (p.in_shutdown ≡ false)
unfolding Going stage_rank
Leaving-exited p l = (at_stage p.stage refl l.going, ground (arith, l.near))
  where
    at_stage : (g : Stage) → p.stage ≡ g → Going g p → p.stage ≡ exited
    at_stage exited e z = e
    at_stage polls e z = absurd (omega (arith, l.near, ap stage_rank e))
    at_stage shuts_down e z = absurd (omega (arith, l.near, ap stage_rank e))
    at_stage destroys_server e z = absurd (omega (arith, l.near, ap stage_rank e))
    at_stage _ e z = absurd z

-- A process that has ended does nothing.
program_step-exit :
    (w : Surroundings) (e : ProgramEvent) (p : Program)
    → p.stage ≡ exited
    → p.in_shutdown ≡ false
    → program_step w e p ≡ p
unfolding program_step main_step signal_program
program_step-exit w goes_on p at out =
    ap (λ b. if b then leave_shutdown p.stage p.g_server p else main_step w p.stage p) out
    ∙ ap (λ g. main_step w g p) at
program_step-exit w (signals b) p at out =
    ap (λ g. signal_program b g p) at ∙ ap (λ c. if c then record p { stage = crashed } else p) out

run_program-exit :
    (w : Surroundings) (es : List ProgramEvent) (p : Program)
    → p.stage ≡ exited
    → p.in_shutdown ≡ false
    → run_program w es p ≡ p
unfolding run_program
run_program-exit w [] p at out = refl
run_program-exit w (e ∷ es) p at out =
    ap (run_program w es) (program_step-exit w e p at out) ∙ run_program-exit w es p at out

pub run_program-Leaving :
    (w : Surroundings) (es : List ProgramEvent) (k : ℕ) (p : Program)
    → All OnMain es
    → uninterrupted w es p ≡ true
    → Leaving k p
    → k + tally is_signal es ≤ tally is_step es
    → Leaving 0 (run_program w es p)
unfolding run_program tally interrupts program_step
run_program-Leaving w [] k p m u l le = subst (λ n. Leaving n p) (omega arith) l
run_program-Leaving w (goes_on ∷ es) k p m u l le = elim (ℕ_discrete k 0) [
  | yes over ↦
      let (at, out) = Leaving-exited p (subst (λ n. Leaving n p) over l) in
      subst (Leaving 0) (sym (run_program-exit w (goes_on ∷ es) p at out))
        (subst (λ n. Leaving n p) over l)
  | no on_the_way ↦
      run_program-Leaving w es (k - 1) _ m.1 (uninterrupted-cons w goes_on es p u).1
        (goes_on-Leaving w k p l) (omega arith)
]
run_program-Leaving w (signals b ∷ es) k p m u l le =
    let (apart, rest) = uninterrupted-cons w (signals b) es p u in
    run_program-Leaving w es (k + 1) _ m.1 rest
      (subst (λ c. Leaving (k + 1) (signal_program c p.stage p)) (sym m.0)
        (signal_program-Leaving k p.stage p refl apart l.flagged l.handling l.going
          (ground (arith, apart, l.near))))
      (omega arith)
