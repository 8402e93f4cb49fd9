-- ===== src/Hazptr/Conservation.antt =====
-- hazard_pointer.hpp: every retired object is on one thread's list, on the global list, or freed.
use tiny_reactor.Base.{
  ℕ, ◌+◌, ◌<◌, ◌≡◌, refl, sym, ◌∙◌, Bool, List, [], ◌∷◌, ◌==◌, if◌then◌else◌, Option-cases, inl,
  inr, All, All-append, select, total-update, arith,
}
use tiny_reactor.Hazptr.{
  HazPtrDomain, done, Call, registers, unregisters, acquires, scans, collects, reclaims, releases,
  protects, retires, acquire, take_free, new_slot, register_thread, collect, collect_all,
  reclaim_all, scan, retire_pointer, release, step, run,
}
use tiny_reactor.Hazptr.Slots.{acquire_new, acquire_reuse, release_inv}
use tiny_reactor.Hazptr.Scan.{collect_all-done, reclaim_all-done, Collected, collect-Collected}
use tiny_reactor.Hazptr.Retire.{retire_pointer_inv, pushed, retired}
use tiny_reactor.Hazptr.Runs.{done-injective, run-cons, >>=-eq-done}
use tiny_reactor.Hazptr.Counts.{
  held_by, accounted, splice-accounted, collect-accounted, reclaimed-accounted, pushed-accounted,
}

-- The calls come from threads with ids from 1 to n - 1.
abbrev pub InRange : ℕ → Call → Type 0
InRange n (registers t) = (0 < t) × (t < n)
InRange n (unregisters t) = (0 < t) × (t < n)
InRange n (acquires t) = (0 < t) × (t < n)
InRange n (scans t) = (0 < t) × (t < n)
InRange n (collects t) = (0 < t) × (t < n)
InRange n (reclaims t) = (0 < t) × (t < n)
InRange n (releases t a) = (0 < t) × (t < n)
InRange n (protects a p) = Unit
InRange n (retires t p del) = (0 < t) × (t < n)

-- How often the calls retire `p`.
unfoldable pub retirements : ℕ → List Call → ℕ
retirements p [] = 0
retirements p (retires t x del ∷ cs) = (if x == p then 1 else 0) + retirements p cs
retirements p (_ ∷ cs) = retirements p cs

-- The mutex is free, and only threads below `n` are registered.
pub record IsTidy (n : ℕ) (d : HazPtrDomain) : Type 0 where
  pub unlocked : d.global_retired_mutex ≡ 0
  pub listed : All (λ k. k < n) d.all_thread_data

pub record Accounts (p n k : ℕ) (d e : HazPtrDomain) : Type 0 where
  pub tidy : IsTidy n e
  pub sum : accounted p n e ≡ accounted p n d + k

module _ (p n : ℕ) (d : HazPtrDomain) (q : IsTidy n d) where
  select-listed :
      (f : ℕ → Bool) (ks : List ℕ) → All (λ k. k < n) ks → All (λ k. k < n) (select f ks)
  select-listed f [] h = tt
  select-listed f (k ∷ ks) h = ground (arith, select-listed f ks h.1)

  register-Accounts : (t : ℕ) → t < n → Accounts p n 0 d (register_thread t d)
  unfolding register_thread
  register-Accounts t h = record {
    tidy = record {
      unlocked = q.unlocked;
      listed = All-append _ d.all_thread_data (t ∷ []) q.listed (h, tt);
    };
    sum = omega (arith, total-update (held_by p) n d.tl t (record (d.tl t) { thread_id = t }) h);
  }

  acquire-Accounts : (t : ℕ) → Accounts p n 0 d (acquire t d).0
  unfolding new_slot
  acquire-Accounts t = elim (Option-cases (take_free t d.head)) [
    | inl e ↦
        rw (acquire_new t d e)
          (record { tidy = record { unlocked = q.unlocked; listed = q.listed }; sum = omega arith })
    | inr ((ss, b), e) ↦
        rw (acquire_reuse t d e)
          (record { tidy = record { unlocked = q.unlocked; listed = q.listed }; sum = omega arith })
  ]

  release-Accounts : (t a : ℕ) (e : HazPtrDomain) → release t a d ≡ done e → Accounts p n 0 d e
  release-Accounts t a e h = elim (release_inv t a d e h) [
    | inl (_, same) ↦ rw same (record { tidy = q; sum = omega arith })
    | inr (_, _, now) ↦
        rw now
          (record { tidy = record { unlocked = q.unlocked; listed = q.listed }; sum = omega arith })
  ]

  collect-Accounts : (t : ℕ) (e : HazPtrDomain) → collect_all t d ≡ done e → Accounts p n 0 d e
  collect-Accounts t e h =
      let k : Collected d.all_thread_data d (collect d.all_thread_data d) =
        collect-Collected d.all_thread_data d in
      rw (← done-injective (sym (collect_all-done t d q.unlocked) ∙ h)) (record {
        tidy = record { unlocked = refl; listed = rw k.listed q.listed };
        sum = omega (arith, collect-accounted p n d.all_thread_data d q.listed);
      })

  reclaim-Accounts : (t : ℕ) (e : HazPtrDomain) → reclaim_all t d ≡ done e → Accounts p n 0 d e
  reclaim-Accounts t e h =
      rw (← done-injective (sym (reclaim_all-done t d q.unlocked) ∙ h)) (record {
        tidy = record { unlocked = refl; listed = q.listed };
        sum = omega (arith, reclaimed-accounted p n d);
      })

  retire-Accounts :
      (t x del : ℕ) (e : HazPtrDomain)
      → 0 < t
      → t < n
      → retire_pointer t x del d ≡ done e
      → Accounts p n (if x == p then 1 else 0) d e
  retire-Accounts t x del e pos h r = elim (retire_pointer_inv t x del d e pos q.unlocked r) [
    | inl now ↦ rw now (record {
      tidy = record { unlocked = q.unlocked; listed = q.listed };
      sum = pushed-accounted p n t (retired x del) d h;
    })
    | inr now ↦ rw now (record {
      tidy = record { unlocked = q.unlocked; listed = q.listed };
      sum =
          splice-accounted p n t (pushed t (retired x del) d) h
          ∙ pushed-accounted p n t (retired x del) d h;
    })
  ]

module _ (p n : ℕ) (d : HazPtrDomain) (q : IsTidy n d) where
  scan-Accounts : (t : ℕ) (e : HazPtrDomain) → scan t d ≡ done e → Accounts p n 0 d e
  unfolding scan
  scan-Accounts t e h =
      let (m, first, rest) = >>=-eq-done (collect_all t d) (reclaim_all t) h in
      let j = collect-Accounts p n d q t m first in
      let k = reclaim-Accounts p n m j.tidy t e rest in
      record { tidy = k.tidy; sum = omega (arith, j.sum, k.sum) }

  step-Accounts :
      (c : Call) (e : HazPtrDomain)
      → InRange n c
      → step c d ≡ done e
      → Accounts p n (retirements p (c ∷ [])) d e
  unfolding step retirements
  step-Accounts (registers t) e i h = rw (← done-injective h) (register-Accounts p n d q t i.1)
  step-Accounts (unregisters t) e i h = rw (← done-injective h) (record {
    tidy = record {
      unlocked = q.unlocked;
      listed = select-listed p n d q _ d.all_thread_data q.listed;
    };
    sum = omega arith;
  })
  step-Accounts (acquires t) e i h = rw (← done-injective h) (acquire-Accounts p n d q t)
  step-Accounts (scans t) e i h = scan-Accounts t e h
  step-Accounts (collects t) e i h = collect-Accounts p n d q t e h
  step-Accounts (reclaims t) e i h = reclaim-Accounts p n d q t e h
  step-Accounts (releases t a) e i h = release-Accounts p n d q t a e h
  step-Accounts (protects a x) e i h =
      rw (← done-injective h)
        (record { tidy = record { unlocked = q.unlocked; listed = q.listed }; sum = omega arith })
  step-Accounts (retires t x del) e i h =
      let k = retire-Accounts p n d q t x del e i.0 i.1 h in
      record { tidy = k.tidy; sum = omega (arith, k.sum) }

retirements-cons :
    (p : ℕ) (c : Call) (cs : List Call)
    → retirements p (c ∷ cs) ≡ retirements p (c ∷ []) + retirements p cs
unfolding retirements
retirements-cons p (retires t x del) cs = omega arith
retirements-cons p _ cs = omega arith

-- Over any calls by registered or unregistered threads below `n` that run to their end, the number
-- of times that `p` stands on a thread's list, on the global list or among the freed objects grows
-- by exactly the number of its retirements: none is lost, and none is freed twice.
pub run-accounted :
    (p n : ℕ) (cs : List Call) (d e : HazPtrDomain)
    → IsTidy n d
    → All (InRange n) cs
    → run cs d ≡ done e
    → accounted p n e ≡ accounted p n d + retirements p cs
unfolding run
run-accounted p n [] d e q ok h = rw (← done-injective h) (unfold retirements in omega arith)
run-accounted p n (c ∷ cs) d e q ok h =
    let (m, first, rest) = run-cons c cs d e h in
    let k = step-Accounts p n d q c m ok.0 first in
    omega (arith, k.sum, run-accounted p n cs m e k.tidy ok.1 rest, retirements-cons p c cs)
