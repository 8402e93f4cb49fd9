-- ===== src/Hazptr/Allocation.antt =====
-- hazard_pointer.hpp: the slots that a domain allocates, and its destructor.
use tiny_reactor.Base.{
  ℕ, zero, suc, ◌<◌, ◌≡◌, refl, sym, ap, ◌∙◌, some, List, [], ◌∷◌, ◌==◌, All, Option-cases,
  Bool-cases, inl, inr, arith,
}
use tiny_reactor.Hazptr.{
  HazardPointer, HazPtrDomain, empty_domain, done, Call, registers, unregisters, acquires, scans,
  collects, reclaims, releases, protects, retires, acquire, take_free, new_slot, register_thread,
  unregister_thread, set_hazard, set_owner, release, scan, collect_all, reclaim_all, retire_pointer,
  delete_slots, destroy_domain, step, run,
}
use tiny_reactor.Hazptr.Slots.{acquire_new, acquire_reuse, release_inv}
use tiny_reactor.Hazptr.Scan.{collect_all-done, reclaim_all-done, collect-Collected, Collected}
use tiny_reactor.Hazptr.Retire.{Untouched, retire_pointer-Untouched}
use tiny_reactor.Hazptr.Protection.{Named}
use tiny_reactor.Hazptr.Runs.{done-injective, run-cons, >>=-eq-done}

-- The addresses from `k` down to 1.
unfoldable pub below : ℕ → List ℕ
below zero = []
below (suc k) = suc k ∷ below k

delete_slots-take_free :
    (t a : ℕ) (ss us : List HazardPointer)
    → take_free t ss ≡ some (us, a)
    → delete_slots us ≡ delete_slots ss
unfolding take_free delete_slots
delete_slots-take_free t a [] us h = cc
delete_slots-take_free t a (s ∷ ss) us h = elim (Bool-cases (s.owner == 0)) [
  | inl free ↦ ground arith
  | inr owned ↦ elim (Option-cases (take_free t ss)) [
    | inl nothing ↦ absurd (ground arith)
    | inr ((vs, b), found) ↦ ground (arith, delete_slots-take_free t b ss vs found)
  ]
]

delete_slots-set_hazard :
    (a p : ℕ) (ss : List HazardPointer) → delete_slots (set_hazard a p ss) ≡ delete_slots ss
unfolding set_hazard delete_slots
delete_slots-set_hazard a p [] = refl
delete_slots-set_hazard a p (s ∷ ss) = ground (arith, delete_slots-set_hazard a p ss)

delete_slots-set_owner :
    (a t : ℕ) (ss : List HazardPointer) → delete_slots (set_owner a t ss) ≡ delete_slots ss
unfolding set_owner delete_slots
delete_slots-set_owner a t [] = refl
delete_slots-set_owner a t (s ∷ ss) = ground (arith, delete_slots-set_owner a t ss)

-- The slots have the addresses from the newest down to 1.
record Allocated (k : ℕ) (d : HazPtrDomain) : Type 0 where
  unlocked : d.global_retired_mutex ≡ 0
  next : d.next_addr ≡ suc k
  slots : delete_slots d.head ≡ below k

module _ (k : ℕ) (d : HazPtrDomain) (q : Allocated k d) where
  acquire-Allocated : (t : ℕ) → (m : ℕ) × Allocated m (acquire t d).0
  unfolding new_slot delete_slots below
  acquire-Allocated t = elim (Option-cases (take_free t d.head)) [
    | inl e ↦ (
      suc k,
      rw (acquire_new t d e) (record {
        unlocked = q.unlocked;
        next = ap suc q.next;
        slots = ground (arith, q.next, q.slots);
      }),
    )
    | inr ((ss, b), e) ↦ (
      k,
      rw (acquire_reuse t d e) (record {
        unlocked = q.unlocked;
        next = q.next;
        slots = delete_slots-take_free t b d.head ss e ∙ q.slots;
      }),
    )
  ]

  release-Allocated : (t a : ℕ) (e : HazPtrDomain) → release t a d ≡ done e → Allocated k e
  release-Allocated t a e h = elim (release_inv t a d e h) [
    | inl (_, same) ↦ rw same q
    | inr (_, _, now) ↦ rw now (record {
      unlocked = q.unlocked;
      next = q.next;
      slots =
          delete_slots-set_owner a 0 (set_hazard a 0 d.head)
          ∙ delete_slots-set_hazard a 0 d.head
          ∙ q.slots;
    })
  ]

  collect-Allocated : (t : ℕ) (e : HazPtrDomain) → collect_all t d ≡ done e → Allocated k e
  collect-Allocated t e h =
      let c : Collected d.all_thread_data d _ = collect-Collected d.all_thread_data d in
      rw (← done-injective (sym (collect_all-done t d q.unlocked) ∙ h)) (record {
        unlocked = refl;
        next = c.next_addr ∙ q.next;
        slots = ap delete_slots c.head ∙ q.slots;
      })

  reclaim-Allocated : (t : ℕ) (e : HazPtrDomain) → reclaim_all t d ≡ done e → Allocated k e
  reclaim-Allocated t e h =
      rw (← done-injective (sym (reclaim_all-done t d q.unlocked) ∙ h))
        (record { unlocked = refl; next = q.next; slots = q.slots })

  retire-Allocated :
      (t p del : ℕ) (e : HazPtrDomain) → 0 < t → retire_pointer t p del d ≡ done e → Allocated k e
  retire-Allocated t p del e pos h =
      let u : Untouched d e = retire_pointer-Untouched t p del d e pos q.unlocked h in
      record {
        unlocked = u.mutex ∙ q.unlocked;
        next = u.next_addr ∙ q.next;
        slots = ap delete_slots u.head ∙ q.slots;
      }

module _ (k : ℕ) (d : HazPtrDomain) (q : Allocated k d) where
  scan-Allocated : (t : ℕ) (e : HazPtrDomain) → scan t d ≡ done e → Allocated k e
  unfolding scan
  scan-Allocated t e h =
      let (m, first, rest) = >>=-eq-done (collect_all t d) (reclaim_all t) h in
      reclaim-Allocated k m (collect-Allocated k d q t m first) t e rest

  step-Allocated :
      (c : Call) (e : HazPtrDomain) → Named c → step c d ≡ done e → (m : ℕ) × Allocated m e
  unfolding step register_thread unregister_thread
  step-Allocated (registers t) e i h = (
    k,
    rw (← done-injective h) (record { unlocked = q.unlocked; next = q.next; slots = q.slots }),
  )
  step-Allocated (unregisters t) e i h = (
    k,
    rw (← done-injective h) (record { unlocked = q.unlocked; next = q.next; slots = q.slots }),
  )
  step-Allocated (acquires t) e i h =
      let (m, a) = acquire-Allocated k d q t in (m, rw (← done-injective h) a)
  step-Allocated (scans t) e i h = (k, scan-Allocated t e h)
  step-Allocated (collects t) e i h = (k, collect-Allocated k d q t e h)
  step-Allocated (reclaims t) e i h = (k, reclaim-Allocated k d q t e h)
  step-Allocated (releases t a) e i h = (k, release-Allocated k d q t a e h)
  step-Allocated (protects a p) e i h = (
    k,
    rw (← done-injective h) (record {
      unlocked = q.unlocked;
      next = q.next;
      slots = delete_slots-set_hazard a p d.head ∙ q.slots;
    }),
  )
  step-Allocated (retires t p del) e i h = (k, retire-Allocated k d q t p del e i h)

run-Allocated :
    (k : ℕ) (cs : List Call) (d e : HazPtrDomain)
    → Allocated k d
    → All Named cs
    → run cs d ≡ done e
    → (m : ℕ) × Allocated m e
unfolding run
run-Allocated k [] d e q ok h = (k, rw (← done-injective h) q)
run-Allocated k (c ∷ cs) d e q ok h =
    let (m, first, rest) = run-cons c cs d e h in
    let (j, a) = step-Allocated k d q c m ok.0 first in run-Allocated j cs m e a ok.1 rest

-- After any calls on a new domain that run to their end, the destructor deletes each slot that was
-- allocated exactly once, the newest first: slots are numbered from 1 on as they are allocated.
pub destroy_domain-below :
    (cs : List Call) (e : HazPtrDomain)
    → All Named cs
    → run cs empty_domain ≡ done e
    → (k : ℕ) × (e.next_addr ≡ suc k) × ((destroy_domain e).1 ≡ below k)
unfolding destroy_domain below
destroy_domain-below cs e ok h =
    let start : Allocated 0 empty_domain = record { unlocked = refl; next = refl; slots = refl } in
    let (k, a) = run-Allocated 0 cs empty_domain e start ok h in (k, a.next, a.slots)
