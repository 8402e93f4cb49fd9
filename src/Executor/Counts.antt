-- ===== src/Executor/Counts.antt =====
-- task_executor.cpp: how often a task stands in the queue, among the running ones and among the
-- timers, and what the operations on these lists do to the numbers.
use tiny_reactor.Base.{
  tally, length, suc, ℕ, ◌+◌, ◌≤◌, ◌≡◌, refl, inl, inr, Bool, true, false, not, ◌&&◌, ◌||◌, some,
  List, [], ◌∷◌, ◌==◌, if◌then◌else◌, select, arith, Bool-cases, Option-cases,
}
use tiny_reactor.Executor.{
  Timer, TimerKind, exec_timer, retry_timer, TaskExecutor, take_task, take_running, take_expired,
  expire,
}

pub tally_mono {ℓ} :
    {A : Type ℓ} (p q : A → Bool) (xs : List A)
    → ((x : A) → p x ≡ true → q x ≡ true)
    → tally p xs ≤ tally q xs
unfolding tally
tally_mono p q [] h = omega arith
tally_mono p q (x ∷ xs) h = ground (arith, h x, tally_mono p q xs h)

abbrev pub is_retry : TimerKind → Bool
is_retry exec_timer = false
is_retry retry_timer = true

abbrev pub waits_for : ℕ → Timer → Bool
waits_for k t = is_retry t.kind && (t.task == k)

abbrev pub retries_as : ℕ → Timer → Bool
retries_as i t = is_retry t.kind && (t.id == i)

abbrev pub queued : ℕ → TaskExecutor → ℕ
queued k e = tally (λ q. q == k) e.queue

abbrev pub runs : ℕ → TaskExecutor → ℕ
runs k e = tally (λ (r : ℕ × ℕ). r.0 == k) e.running

abbrev pub runs_as : ℕ → TaskExecutor → ℕ
runs_as i e = tally (λ (r : ℕ × ℕ). r.1 == i) e.running

abbrev pub waits : ℕ → TaskExecutor → ℕ
waits k e = tally (waits_for k) e.timers

abbrev pub refusing : ℕ → TaskExecutor → ℕ
refusing k e = tally (λ q. q == k) e.refused

abbrev pub returning : ℕ → TaskExecutor → ℕ
returning k e = tally (λ q. q == k) e.resubmitting

-- In how many places of the executor a task is.
abbrev pub places : ℕ → TaskExecutor → ℕ
places k e = queued k e + runs k e + waits k e + refusing k e + returning k e

abbrev pub waiting : TaskExecutor → ℕ
waiting e = tally (λ t. is_retry t.kind) e.timers

abbrev pub retrying_as : ℕ → TaskExecutor → ℕ
retrying_as i e = tally (retries_as i) e.timers

-- Taking a task, a running task, or an expired timer, off its list.
pub tally-take_task :
    (p : ℕ → Bool) (k : ℕ) (js ks : List ℕ)
    → take_task k js ≡ some ks
    → tally p js ≡ tally p ks + (if p k then 1 else 0)
unfolding tally take_task
tally-take_task p k [] ks h = cc
tally-take_task p k (j ∷ js) ks h = elim (Bool-cases (j == k)) [
  | inl here ↦ ground arith
  | inr there ↦ elim (Option-cases (take_task k js)) [
    | inl gone ↦ absurd (ground arith)
    | inr (is, found) ↦ ground (arith, tally-take_task p k js is found)
  ]
]

pub length-take_task :
    (k : ℕ) (js ks : List ℕ) → take_task k js ≡ some ks → length js ≡ suc (length ks)
unfolding take_task
length-take_task k [] ks h = cc
length-take_task k (j ∷ js) ks h = elim (Bool-cases (j == k)) [
  | inl here ↦ ground arith
  | inr there ↦ elim (Option-cases (take_task k js)) [
    | inl gone ↦ absurd (ground arith)
    | inr (is, found) ↦ ground (arith, length-take_task k js is found)
  ]
]

pub tally-take_running :
    (p : ℕ × ℕ → Bool) (k i : ℕ) (rs qs : List (ℕ × ℕ))
    → take_running k rs ≡ some (i, qs)
    → tally p rs ≡ tally p qs + (if p (k, i) then 1 else 0)
unfolding tally take_running
tally-take_running p k i [] qs h = cc
tally-take_running p k i ((j, m) ∷ rs) qs h = elim (Bool-cases (j == k)) [
  | inl here ↦ ground arith
  | inr there ↦ elim (Option-cases (take_running k rs)) [
    | inl gone ↦ absurd (ground arith)
    | inr ((n, ps), found) ↦ ground (arith, tally-take_running p k n rs ps found)
  ]
]

pub tally-take_expired :
    (p : Timer → Bool) (i : ℕ) (ts us : List Timer) (t : Timer)
    → take_expired i ts ≡ some (t, us)
    → tally p ts ≡ tally p us + (if p t then 1 else 0)
unfolding tally take_expired
tally-take_expired p i [] us t h = cc
tally-take_expired p i (x ∷ ts) us t h = elim (Bool-cases (x.id == i && x.expired)) [
  | inl here ↦ ground arith
  | inr there ↦ elim (Option-cases (take_expired i ts)) [
    | inl gone ↦ absurd (ground arith)
    | inr ((u, vs), found) ↦ ground (arith, tally-take_expired p i ts vs u found)
  ]
]

pub tally-expire :
    (p : Timer → Bool) (i : ℕ) (ts : List Timer)
    → ((t : Timer) → p (record t { expired = true }) ≡ p t)
    → tally p (expire i ts) ≡ tally p ts
unfolding tally expire
tally-expire p i [] h = refl
tally-expire p i (t ∷ ts) h = ground (arith, h t, tally-expire p i ts h)

-- Cancelling a timer that is not counted.
pub tally-cancel :
    (p : Timer → Bool) (i : ℕ) (ts : List Timer)
    → tally (λ t. p t && (t.id == i)) ts ≡ 0
    → tally p (select (λ t. not (t.id == i) || t.expired) ts) ≡ tally p ts
unfolding tally
tally-cancel p i [] h = refl
tally-cancel p i (t ∷ ts) h = ground (arith, tally-cancel p i ts)
