-- ===== src/Hazptr/Protection.antt =====
-- hazard_pointer.hpp: an object that a slot protects is not freed.
use tiny_reactor.Base.{
  ℕ, ◌<◌, ◌≡◌, ◌≢◌, inl, inr, refl, sym, ap, ◌∙◌, true, List, [], ◌∷◌, ◌++◌, ◌==◌, Option-cases,
  All, All-append, All-map, any, select, not, arith, append_assoc, append-nil,
}
use tiny_reactor.Hazptr.{
  HazPtrDomain, HazardPointer, RetiredPtr, done, Call, registers, unregisters, acquires, scans,
  collects, reclaims, releases, protects, retires, is_protected, acquire, take_free, new_slot,
  release, retire_pointer, scan, collect, collect_all, reclaim_all, step, run,
}
use tiny_reactor.Hazptr.Slots.{
  Below, hazard_of, hazard_of-lt, hazard_of-set_hazard_ne, hazard_of-set_owner, set_hazard-Below,
  set_owner-Below, take_free-Taken, acquire_new, acquire_reuse, released, release_inv,
}
use tiny_reactor.Hazptr.Scan.{
  Collected, collect-Collected, collected, collect_all-done, reclaim_all-done, All-select-not,
}
use tiny_reactor.Hazptr.Runs.{done-injective, run-cons, >>=-eq-done}
use tiny_reactor.Hazptr.Retire.{Untouched, retire_pointer-Untouched}

-- A slot that protects `p` is found by the walk of `isProtected`.
pub is_protected_of_hazard :
    (a p : ℕ) (ss : List HazardPointer)
    → hazard_of a ss ≡ p
    → 0 < p
    → any (λ s. s.hazard_ptr == p) ss ≡ true
unfolding hazard_of
is_protected_of_hazard a p [] h pos = absurd (omega arith)
is_protected_of_hazard a p (s ∷ ss) h pos = ground (arith, is_protected_of_hazard a p ss)

-- The domain between two calls: the mutex is free and the slots have addresses of their own.
pub record IsQuiet (d : HazPtrDomain) : Type 0 where
  pub unlocked : d.global_retired_mutex ≡ 0
  pub slots : Below d.next_addr d.head
  pub heap : 0 < d.next_addr

-- Threads have ids that are not 0.
abbrev pub Named : Call → Type 0
Named (registers t) = 0 < t
Named (unregisters t) = 0 < t
Named (acquires t) = 0 < t
Named (scans t) = 0 < t
Named (collects t) = 0 < t
Named (reclaims t) = 0 < t
Named (releases t a) = 0 < t
Named (protects a p) = Unit
Named (retires t p del) = 0 < t

-- The call writes no hazard into slot `a`.
abbrev pub Spares : ℕ → Call → Type 0
Spares a (releases t b) = b ≢ a
Spares a (protects b p) = b ≢ a
Spares a _ = Unit

-- What a call does to the slot at `a`, to the objects freed, and to the shape of the domain.
pub record Guarded (a p : ℕ) (d e : HazPtrDomain) : Type 0 where
  pub quiet : IsQuiet e
  pub still : hazard_of a e.head ≡ p
  pub fresh : List RetiredPtr
  pub appended : e.freed ≡ d.freed ++ fresh
  pub spared : All (λ r. r.ptr ≢ p) fresh

module _ (a p : ℕ) (pos : 0 < p) (d : HazPtrDomain) (q : IsQuiet d)
    (g : hazard_of a d.head ≡ p) where
  -- A call that frees nothing.
  frees_none :
      (e : HazPtrDomain) → IsQuiet e → hazard_of a e.head ≡ p → e.freed ≡ d.freed → Guarded a p d e
  frees_none e q' g' f = record {
    quiet = q';
    still = g';
    fresh = [];
    appended = f ∙ sym (append-nil d.freed);
    spared = tt;
  }

  acquire-Guarded : (t : ℕ) → Guarded a p d (acquire t d).0
  unfolding new_slot hazard_of
  acquire-Guarded t = elim (Option-cases (take_free t d.head)) [
    | inl e ↦ rw (acquire_new t d e) (
        frees_none _
          (record {
            unlocked = q.unlocked;
            slots = (omega arith, q.heap, q.slots);
            heap = omega (arith, q.heap);
          })
          (ground (arith, hazard_of-lt a d.next_addr d.head q.slots)) refl)
    | inr ((ss, b), e) ↦
        let k = take_free-Taken t d.next_addr d.head ss b q.slots e in
        rw (acquire_reuse t d e) (
          frees_none _
            (record { unlocked = q.unlocked; slots = k.below d.next_addr q.slots; heap = q.heap })
            (k.hazards a ∙ g) refl)
  ]

  collect-Guarded : (t : ℕ) (e : HazPtrDomain) → collect_all t d ≡ done e → Guarded a p d e
  collect-Guarded t e h =
      let k : Collected d.all_thread_data d (collect d.all_thread_data d) =
        collect-Collected d.all_thread_data d in
      rw (← done-injective (sym (collect_all-done t d q.unlocked) ∙ h)) (
        frees_none (collected d)
          (record {
            unlocked = refl;
            slots = rw (k.next_addr, k.head) q.slots;
            heap = rw k.next_addr q.heap;
          })
          (rw k.head g) k.freed)

  reclaim-Guarded : (t : ℕ) (e : HazPtrDomain) → reclaim_all t d ≡ done e → Guarded a p d e
  unfolding is_protected
  reclaim-Guarded t e h =
      let guarded : is_protected d p ≡ true = is_protected_of_hazard a p d.head g pos in
      rw (← done-injective (sym (reclaim_all-done t d q.unlocked) ∙ h)) (record {
        quiet = record { unlocked = refl; slots = q.slots; heap = q.heap };
        still = g;
        fresh = select (λ r. not (is_protected d r.ptr)) d.global_retired;
        appended = refl;
        spared =
            All-map _ _ (select (λ r. not (is_protected d r.ptr)) d.global_retired)
              (λ r f e. cc guarded) (All-select-not (λ r. is_protected d r.ptr) d.global_retired);
      })

  release-Guarded : (t b : ℕ) (e : HazPtrDomain) → b ≢ a → release t b d ≡ done e → Guarded a p d e
  release-Guarded t b e ne h = elim (release_inv t b d e h) [
    | inl (null, same) ↦ rw same (frees_none d q g refl)
    | inr (some_slot, own, now) ↦ rw now (
        frees_none (released b d)
          (record {
            unlocked = q.unlocked;
            slots =
                set_owner-Below b 0 d.next_addr _ (set_hazard-Below b 0 d.next_addr d.head q.slots);
            heap = q.heap;
          })
          (hazard_of-set_owner a b 0 _ ∙ hazard_of-set_hazard_ne a b 0 d.head ne ∙ g) refl)
  ]

  retire-Guarded :
      (t x del : ℕ) (e : HazPtrDomain) → 0 < t → retire_pointer t x del d ≡ done e → Guarded a p d e
  retire-Guarded t x del e tpos h =
      frees_none e
        (record {
          unlocked = u.mutex ∙ q.unlocked;
          slots = rw (u.next_addr, u.head) q.slots;
          heap = rw u.next_addr q.heap;
        })
        (rw u.head g) u.freed
    where
      u : Untouched d e
      u = retire_pointer-Untouched t x del d e tpos q.unlocked h

Guarded-trans :
    (a p : ℕ) (d e f : HazPtrDomain) → Guarded a p d e → Guarded a p e f → Guarded a p d f
Guarded-trans a p d e f k l = record {
  quiet = l.quiet;
  still = l.still;
  fresh = k.fresh ++ l.fresh;
  appended = l.appended ∙ ap (λ x. x ++ l.fresh) k.appended ∙ append_assoc d.freed k.fresh l.fresh;
  spared = All-append _ k.fresh l.fresh k.spared l.spared;
}

module _ (a p : ℕ) (pos : 0 < p) (d : HazPtrDomain) (q : IsQuiet d)
    (g : hazard_of a d.head ≡ p) where
  -- A `Scan` is its two parts.
  scan-Guarded : (t : ℕ) (e : HazPtrDomain) → scan t d ≡ done e → Guarded a p d e
  unfolding scan
  scan-Guarded t e h =
      let (m, first, rest) = >>=-eq-done (collect_all t d) (reclaim_all t) h in
      let k = collect-Guarded a p pos d q g t m first in
      Guarded-trans a p d m e k (reclaim-Guarded a p pos m k.quiet k.still t e rest)

  step-Guarded :
      (c : Call) (e : HazPtrDomain) → Named c → Spares a c → step c d ≡ done e → Guarded a p d e
  unfolding step
  step-Guarded (registers t) e n sp h = rw (← done-injective h) (
      frees_none a p pos d q g _ (record { unlocked = q.unlocked; slots = q.slots; heap = q.heap })
        g refl)
  step-Guarded (unregisters t) e n sp h = rw (← done-injective h) (
      frees_none a p pos d q g _ (record { unlocked = q.unlocked; slots = q.slots; heap = q.heap })
        g refl)
  step-Guarded (acquires t) e n sp h = rw (← done-injective h) (acquire-Guarded a p pos d q g t)
  step-Guarded (scans t) e n sp h = scan-Guarded t e h
  step-Guarded (collects t) e n sp h = collect-Guarded a p pos d q g t e h
  step-Guarded (reclaims t) e n sp h = reclaim-Guarded a p pos d q g t e h
  step-Guarded (releases t b) e n sp h = release-Guarded a p pos d q g t b e sp h
  step-Guarded (protects b x) e n sp h = rw (← done-injective h) (
      frees_none a p pos d q g _
        (record {
          unlocked = q.unlocked;
          slots = set_hazard-Below b x d.next_addr d.head q.slots;
          heap = q.heap;
        })
        (hazard_of-set_hazard_ne a b x d.head sp ∙ g) refl)
  step-Guarded (retires t x del) e n sp h = retire-Guarded a p pos d q g t x del e n h

-- While slot `a` protects `p`, no sequence of calls by any threads that writes no hazard into that
-- slot frees `p`: if it runs to its end, what it gives to a deleter, in addition to what was freed
-- before, does not include `p`, the slot still protects `p`, and the domain is quiet again.
pub protected_survives :
    (a p : ℕ) (d : HazPtrDomain) (cs : List Call) (e : HazPtrDomain)
    → 0 < p
    → IsQuiet d
    → hazard_of a d.head ≡ p
    → All (λ c. Named c × Spares a c) cs
    → run cs d ≡ done e
    → Guarded a p d e
unfolding run
protected_survives a p d [] e pos q g ok h =
    rw (← done-injective h) (frees_none a p pos d q g d q g refl)
protected_survives a p d (c ∷ cs) e pos q g ok h =
    let (m, first, rest) = run-cons c cs d e h in
    let k = step-Guarded a p pos d q g c m ok.0.0 ok.0.1 first in
    Guarded-trans a p d m e k (protected_survives a p m cs e pos k.quiet k.still ok.1 rest)
