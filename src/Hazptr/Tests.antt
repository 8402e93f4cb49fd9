-- ===== src/Hazptr/Tests.antt =====
-- hazard_pointer.hpp: runs at concrete inputs.
use tiny_reactor.Base.{ℕ, zero, suc, ◌+◌, ◌≡◌, refl, List, [], ◌∷◌, arith, inr, All}
use tiny_reactor.Hazptr.{
  HazPtrDomain, RetiredPtr, Outcome, done, stuck, aborted, Call, acquires, protects, collects,
  reclaims, releases, retires, destroy_domain, empty_domain, release, scan, retire_pointer, step,
  run,
}
use tiny_reactor.Hazptr.Slots.{owner_of, hazard_of}
use tiny_reactor.Hazptr.Scan.{Scanned, scan_reclaims}
use tiny_reactor.Hazptr.Retire.{retired, retire_pointer-stuck_iff}
use tiny_reactor.Hazptr.Protection.{IsQuiet, Guarded, Named, Spares, protected_survives}
use tiny_reactor.Hazptr.Conservation.{retirements, run-accounted}
use tiny_reactor.Hazptr.Counts.{accounted}
use tiny_reactor.Hazptr.Returns.{step_returns}
use tiny_reactor.Hazptr.Holder.{Lifecycle, make_holder, protect, holder-Lifecycle}

-- Threads 1 and 2 are registered, and slot 1 of thread 1 protects object 70.
abbrev guarded : HazPtrDomain
guarded = record empty_domain {
  head = record { addr = 1; hazard_ptr = 70; owner = 1 } ∷ [];
  all_thread_data = 1 ∷ 2 ∷ [];
  next_addr = 2;
}

guarded-IsQuiet : IsQuiet guarded
guarded-IsQuiet = record {
  unlocked = refl;
  slots = (omega arith, omega arith, tt);
  heap = omega arith;
}

-- Thread 2 retires 70 and 80 and scans, and thread 1 retires 90 between the parts of that: only 80
-- is freed.
abbrev mixed : List Call
mixed = retires 2 70 0 ∷ retires 2 80 0 ∷ collects 2 ∷ retires 1 90 0 ∷ reclaims 2 ∷ []

-- The domain that a run leaves.
abbrev result : Outcome HazPtrDomain → HazPtrDomain
result (done e) = e
result stuck = guarded
result aborted = guarded

mixed-run :
    (run mixed guarded ≡ done (result (run mixed guarded)))
    × ((result (run mixed guarded)).freed ≡ retired 80 0 ∷ [])
    × ((result (run mixed guarded)).global_retired ≡ retired 70 0 ∷ [])
unfolding run
mixed-run = (refl, refl, refl)

mixed-Spares : All (λ c. Named c × Spares 1 c) mixed
mixed-Spares = ground arith

protected_survives_example : Guarded 1 70 guarded (result (run mixed guarded))
unfolding run hazard_of
protected_survives_example =
    protected_survives 1 70 guarded mixed (result (run mixed guarded)) (omega arith) guarded-IsQuiet
      refl mixed-Spares refl

run-accounted_example :
    accounted 80 3 (result (run mixed guarded)) ≡ accounted 80 3 guarded + retirements 80 mixed
unfolding run
run-accounted_example =
    run-accounted 80 3 mixed guarded (result (run mixed guarded))
      (record { unlocked = refl; listed = omega arith }) (omega arith) refl

scan_reclaims_example : (e : HazPtrDomain) × (scan 2 guarded ≡ done e) × Scanned guarded e
scan_reclaims_example = scan_reclaims 2 guarded refl

-- The global list is full, and thread 1 has one object less than its threshold of 2.
abbrev replicate : ℕ → RetiredPtr → List RetiredPtr
replicate zero r = []
replicate (suc n) r = r ∷ replicate n r

abbrev full : HazPtrDomain
full = record empty_domain {
  global_retired = replicate 4999 (retired 5 0);
  tl = λ _. record { retired_list = retired 6 0 ∷ []; scan_threshold = 2; thread_id = 1 };
}

retire_pointer-stuck_iff_example : retire_pointer 1 7 0 full ≡ stuck
retire_pointer-stuck_iff_example =
    (retire_pointer-stuck_iff 1 7 0 full (omega arith) refl).1 (omega arith, omega arith)

step_returns_example : (e : HazPtrDomain) × (step (releases 1 1) guarded ≡ done e)
unfolding owner_of
step_returns_example =
    step_returns (releases 1 1) guarded guarded-IsQuiet (omega arith) (inr (omega arith, refl))

-- Thread 2 may not release the slot of thread 1.
release_of_another : release 2 1 guarded ≡ aborted
unfolding release
release_of_another = refl

holder-Lifecycle_example :
    Lifecycle 2 90 guarded
      (make_holder 2 guarded).1
      (protect 90 (make_holder 2 guarded).1 (make_holder 2 guarded).0)
holder-Lifecycle_example = holder-Lifecycle 2 90 guarded (omega arith) (omega arith) guarded-IsQuiet

-- Two slots are allocated, and a third acquisition finds the first one free.
abbrev slots : List Call
slots = acquires 1 ∷ acquires 2 ∷ protects 1 70 ∷ releases 1 1 ∷ acquires 3 ∷ []

slots-run : (destroy_domain (result (run slots empty_domain))).1 ≡ 2 ∷ 1 ∷ []
unfolding run destroy_domain
slots-run = refl
