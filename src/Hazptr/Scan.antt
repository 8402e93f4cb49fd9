-- ===== src/Hazptr/Scan.antt =====
-- hazard_pointer.hpp: what `Scan` and `reclaim_all` come to when the mutex is free.
use tiny_reactor.Base.{
  ℕ, ◌≡◌, refl, sym, ◌∙◌, ap, Bool, true, false, not, List, [], ◌∷◌, ◌++◌, All, All-map, All-select,
  select, update, arith,
}
use tiny_reactor.Hazptr.{
  HazPtrDomain, RetiredPtr, done, is_protected, reclaim_all, collect, collect_all, scan,
}

-- The domain after a `reclaim_all` that runs.
abbrev pub reclaimed : HazPtrDomain → HazPtrDomain
reclaimed d = record d {
  global_retired_mutex = 0;
  global_retired = select (λ r. is_protected d r.ptr) d.global_retired;
  freed = d.freed ++ select (λ r. not (is_protected d r.ptr)) d.global_retired;
}

abbrev pub with_mutex : ℕ → HazPtrDomain → HazPtrDomain
with_mutex m d = record d { global_retired_mutex = m }

collect-with_mutex :
    (ks : List ℕ) (m : ℕ) (d : HazPtrDomain)
    → collect ks (with_mutex m d) ≡ with_mutex m (collect ks d)
unfolding collect
collect-with_mutex [] m d = refl
collect-with_mutex (k ∷ ks) m d = collect-with_mutex ks m _

pub reclaim_all-done :
    (t : ℕ) (d : HazPtrDomain) → d.global_retired_mutex ≡ 0 → reclaim_all t d ≡ done (reclaimed d)
unfolding reclaim_all
reclaim_all-done t d free = ground arith

-- The domain after the splices of a `Scan`.
abbrev pub collected : HazPtrDomain → HazPtrDomain
collected d = with_mutex 0 (collect d.all_thread_data d)

pub collect_all-done :
    (t : ℕ) (d : HazPtrDomain) → d.global_retired_mutex ≡ 0 → collect_all t d ≡ done (collected d)
unfolding collect_all
collect_all-done t d free = ground (arith, collect-with_mutex d.all_thread_data t d)

-- `Scan` by a thread that finds the mutex free.
pub scan-done :
    (t : ℕ) (d : HazPtrDomain)
    → d.global_retired_mutex ≡ 0
    → scan t d ≡ done (reclaimed (collect d.all_thread_data d))
unfolding scan
scan-done t d free = rw (collect_all-done t d free) (reclaim_all-done t (collected d) refl)

-- The fields that collecting leaves alone.
pub record Collected (ks : List ℕ) (d e : HazPtrDomain) : Type 0 where
  pub head : e.head ≡ d.head
  pub listed : e.all_thread_data ≡ d.all_thread_data
  pub freed : e.freed ≡ d.freed
  pub next_addr : e.next_addr ≡ d.next_addr
  pub emptied : All (λ k. (e.tl k).retired_list ≡ []) ks
  pub still_empty : (k : ℕ) → (d.tl k).retired_list ≡ [] → (e.tl k).retired_list ≡ []
  pub settings :
      (k : ℕ)
      → ((e.tl k).scan_threshold ≡ (d.tl k).scan_threshold)
        × ((e.tl k).thread_id ≡ (d.tl k).thread_id)

-- One round of the loop in `Scan`.
abbrev pub splice : ℕ → HazPtrDomain → HazPtrDomain
splice k d = record d {
  global_retired = d.global_retired ++ (d.tl k).retired_list;
  tl = update d.tl k (record (d.tl k) { retired_list = [] });
}

Collected-cons :
    (k : ℕ) (ks : List ℕ) (d e : HazPtrDomain)
    → Collected ks (splice k d) e
    → Collected (k ∷ ks) d e
Collected-cons k ks d e rest = record {
  head = rest.head;
  listed = rest.listed;
  freed = rest.freed;
  next_addr = rest.next_addr;
  emptied = (rest.still_empty k (ground arith), rest.emptied);
  still_empty = λ j h. rest.still_empty j (ground arith);
  settings = λ j. ground (arith, rest.settings j);
}

pub collect-Collected : (ks : List ℕ) (d : HazPtrDomain) → Collected ks d (collect ks d)
unfolding collect
collect-Collected [] d = record {
  head = refl;
  listed = refl;
  freed = refl;
  next_addr = refl;
  emptied = tt;
  still_empty = λ k h. h;
  settings = λ k. (refl, refl);
}
collect-Collected (k ∷ ks) d = Collected-cons k ks d _ (collect-Collected ks (splice k d))

pub All-select-not :
    (p : RetiredPtr → Bool) (xs : List RetiredPtr)
    → All (λ r. p r ≡ false) (select (λ r. not (p r)) xs)
All-select-not p [] = tt
All-select-not p (x ∷ xs) = ground (arith, All-select-not p xs)

is_protected-head :
    (d e : HazPtrDomain) (p : ℕ) → e.head ≡ d.head → is_protected e p ≡ is_protected d p
unfolding is_protected
is_protected-head d e p h = rw h

-- What a `Scan` achieves.
pub record Scanned (d e : HazPtrDomain) : Type 0 where
  pub kept : All (λ r. is_protected e r.ptr ≡ true) e.global_retired
  pub fresh : List RetiredPtr
  pub appended : e.freed ≡ d.freed ++ fresh
  pub unprotected : All (λ r. is_protected d r.ptr ≡ false) fresh
  pub emptied : All (λ k. (e.tl k).retired_list ≡ []) e.all_thread_data
  pub slots : e.head ≡ d.head
  pub unlocked : e.global_retired_mutex ≡ 0

pub reclaimed-Scanned :
    (d c : HazPtrDomain) → Collected d.all_thread_data d c → Scanned d (reclaimed c)
unfolding is_protected
reclaimed-Scanned d c k = record {
  kept = All-select (λ r. is_protected c r.ptr) c.global_retired;
  fresh = select (λ r. not (is_protected c r.ptr)) c.global_retired;
  appended = ap (λ l. l ++ select (λ r. not (is_protected c r.ptr)) c.global_retired) k.freed;
  unprotected =
      All-map _ _ (select (λ r. not (is_protected c r.ptr)) c.global_retired)
        (λ r h. sym (is_protected-head d c r.ptr k.head) ∙ h)
        (All-select-not (λ r. is_protected c r.ptr) c.global_retired);
  emptied = rw k.listed k.emptied;
  slots = k.head;
  unlocked = refl;
}

-- A `Scan` that finds the mutex free returns with the mutex free. It leaves the slots alone and
-- empties the retired list of every registered thread. What it passes to a deleter, in addition to
-- what was freed before, no slot protected; what stays on the global list some slot protects.
pub scan_reclaims :
    (t : ℕ) (d : HazPtrDomain)
    → d.global_retired_mutex ≡ 0
    → (e : HazPtrDomain) × (scan t d ≡ done e) × Scanned d e
scan_reclaims t d free = (
  reclaimed (collect d.all_thread_data d),
  scan-done t d free,
  reclaimed-Scanned d _ (collect-Collected d.all_thread_data d),
)
