-- ===== src/Hazptr.antt =====
-- src/common/include/hazard_pointer.hpp: one domain of hazard pointers with the thread-local data
-- of every thread. A pointer, a thread id and the address of a slot are numbers; 0 is `nullptr`, and
-- the `std::thread::id{}` of no thread. Each member function is a step of one thread on the domain.
pub mod Slots
pub mod Scan
pub mod Protection
pub mod Counts
pub mod Conservation
pub mod Retire
mod Runs
pub mod Holder
pub mod Exclusion
pub mod Allocation
pub mod Returns
mod Tests
use tiny_reactor.Base.{
  ℕ, suc, ◌+◌, Bool, true, false, not, ◌||◌, Option, none, some, List, [], ◌∷◌, ◌++◌, ltb, leb,
  ◌==◌, if◌then◌else◌, length, select, any, update,
}

-- A slot. The chain of `next_` pointers is the list that the slots stand in.
pub record HazardPointer : Type 0 where
  pub addr : ℕ
  pub hazard_ptr : ℕ
  pub owner : ℕ

-- A retired object. `deleter` names the function that frees it.
pub record RetiredPtr : Type 0 where
  pub ptr : ℕ
  pub deleter : ℕ

pub record ThreadData : Type 0 where
  pub retired_list : List RetiredPtr
  pub scan_threshold : ℕ
  pub thread_id : ℕ

-- `head` is the list of slots, newest first. `tl` holds the thread-local data of each thread, and
-- `all_thread_data` points into it. `global_retired_mutex` is the thread that holds that mutex, 0 if
-- it is free. `freed` logs the calls of deleters, and `next_addr` is where the next `new` allocates.
pub record HazPtrDomain : Type 0 where
  pub head : List HazardPointer
  pub global_retired : List RetiredPtr
  pub global_retired_mutex : ℕ
  pub all_thread_data : List ℕ
  pub tl : ℕ → ThreadData
  pub freed : List RetiredPtr
  pub next_addr : ℕ

abbrev pub global_threshold : ℕ
global_threshold = 5000

abbrev pub fresh_thread_data : ThreadData
fresh_thread_data = record { retired_list = []; scan_threshold = 100; thread_id = 0 }

abbrev pub empty_domain : HazPtrDomain
empty_domain = record {
  head = [];
  global_retired = [];
  global_retired_mutex = 0;
  all_thread_data = [];
  tl = λ _. fresh_thread_data;
  freed = [];
  next_addr = 1;
}

-- What a call comes to: it returns, its thread waits for a mutex that never becomes free, or an
-- `assert` fails.
pub data Outcome {ℓ} (A : Type ℓ) : Type ℓ where
  done : A → Outcome A
  stuck : Outcome A
  aborted : Outcome A

infixl 5 ◌>>=◌
abbrev pub ◌>>=◌ {ℓ κ} : {A : Type ℓ} {B : Type κ} → Outcome A → (A → Outcome B) → Outcome B
done a >>= f = f a
stuck >>= f = stuck
aborted >>= f = aborted

-- `std::lock_guard` on `global_retired_mutex_`. No thread sleeps while it holds this mutex, so a
-- thread that finds it taken found it taken by itself.
pub lock_global : ℕ → HazPtrDomain → Outcome HazPtrDomain
lock_global t d =
    if d.global_retired_mutex == 0 then done (record d { global_retired_mutex = t }) else stuck

pub unlock_global : HazPtrDomain → HazPtrDomain
unlock_global d = record d { global_retired_mutex = 0 }

pub register_thread : ℕ → HazPtrDomain → HazPtrDomain
register_thread t d = record d {
  tl = update d.tl t (record (d.tl t) { thread_id = t });
  all_thread_data = d.all_thread_data ++ t ∷ [];
}

pub unregister_thread : ℕ → HazPtrDomain → HazPtrDomain
unregister_thread t d = record d {
  all_thread_data = select (λ k. not ((d.tl k).thread_id == t)) d.all_thread_data;
}

-- The walk of `acquire` over the slots: the first free one gets the owner.
pub take_free : ℕ → List HazardPointer → Option (List HazardPointer × ℕ)
take_free t [] = none
take_free t (s ∷ ss) =
    let rest = take_free t ss in
    if s.owner == 0
    then some (record s { owner = t } ∷ ss, s.addr)
    else elim rest [ none ↦ none | some (ss', a) ↦ some (s ∷ ss', a) ]

pub new_slot : ℕ → HazPtrDomain → HazPtrDomain × ℕ
new_slot t d = (
  record d {
    head = record { addr = d.next_addr; hazard_ptr = 0; owner = t } ∷ d.head;
    next_addr = suc d.next_addr;
  },
  d.next_addr,
)

pub acquire : ℕ → HazPtrDomain → HazPtrDomain × ℕ
unfolding take_free new_slot
acquire t d = elim (take_free t d.head) [
  | none ↦ new_slot t d
  | some (ss, a) ↦ (record d { head = ss }, a)
]

pub find_slot : ℕ → List HazardPointer → Option HazardPointer
find_slot a [] = none
find_slot a (s ∷ ss) = if s.addr == a then some s else find_slot a ss

pub set_hazard : ℕ → ℕ → List HazardPointer → List HazardPointer
set_hazard a p [] = []
set_hazard a p (s ∷ ss) =
    (if s.addr == a then record s { hazard_ptr = p } else s) ∷ set_hazard a p ss

pub set_owner : ℕ → ℕ → List HazardPointer → List HazardPointer
set_owner a t [] = []
set_owner a t (s ∷ ss) = (if s.addr == a then record s { owner = t } else s) ∷ set_owner a t ss

-- `release`, with its debug check. A pointer to no slot of the domain does not occur.
pub release : ℕ → ℕ → HazPtrDomain → Outcome HazPtrDomain
unfolding find_slot set_hazard set_owner
release t a d = if a == 0 then done d else elim (find_slot a d.head) [
  | none ↦ aborted
  | some s ↦
      if s.owner == t
      then done (record d { head = set_owner a 0 (set_hazard a 0 d.head) })
      else aborted
]

pub is_protected : HazPtrDomain → ℕ → Bool
is_protected d p = any (λ s. s.hazard_ptr == p) d.head

-- `reclaim_all`: the lock covers the split of the list, the deleters run after it.
pub reclaim_all : ℕ → HazPtrDomain → Outcome HazPtrDomain
unfolding lock_global unlock_global is_protected
reclaim_all t d = lock_global t d >>= λ e. done (
    unlock_global (record e {
      global_retired = select (λ r. is_protected d r.ptr) d.global_retired;
      freed = d.freed ++ select (λ r. not (is_protected d r.ptr)) d.global_retired;
    }))

-- The loop of `Scan`: each listed thread's retired objects are spliced to the global list.
pub collect : List ℕ → HazPtrDomain → HazPtrDomain
collect [] d = d
collect (k ∷ ks) d = collect ks (record d {
  global_retired = d.global_retired ++ (d.tl k).retired_list;
  tl = update d.tl k (record (d.tl k) { retired_list = [] });
})

-- The block of `Scan` that holds the lock.
pub collect_all : ℕ → HazPtrDomain → Outcome HazPtrDomain
unfolding lock_global unlock_global collect
collect_all t d = lock_global t d >>= λ e. done (unlock_global (collect e.all_thread_data e))

pub scan : ℕ → HazPtrDomain → Outcome HazPtrDomain
unfolding collect_all reclaim_all
scan t d = collect_all t d >>= λ e. reclaim_all t e

-- The part of `RetirePointer` that holds the lock. The lock is released at the end of the scope,
-- after the call of `Scan`.
pub submit : ℕ → HazPtrDomain → Outcome HazPtrDomain
unfolding lock_global unlock_global scan
submit t d = lock_global t d >>= λ e.
    let moved : HazPtrDomain = record e {
      global_retired = e.global_retired ++ (e.tl t).retired_list;
      tl = update e.tl t (record (e.tl t) { retired_list = [] });
    } in
    (if ltb global_threshold (length moved.global_retired) then scan t moved else done moved)
    >>= λ f. done (unlock_global f)

pub retire_pointer : ℕ → ℕ → ℕ → HazPtrDomain → Outcome HazPtrDomain
unfolding submit
retire_pointer t p del d =
    let own : ThreadData = record (d.tl t) {
      retired_list = (d.tl t).retired_list ++ record { ptr = p; deleter = del } ∷ [];
    } in
    let e : HazPtrDomain = record d { tl = update d.tl t own } in
    if leb own.scan_threshold (length own.retired_list) then submit t e else done e

-- The destructor: it deletes the slots, newest first. What is left on the lists of retired objects
-- is not freed.
pub delete_slots : List HazardPointer → List ℕ
delete_slots [] = []
delete_slots (s ∷ ss) = s.addr ∷ delete_slots ss

pub destroy_domain : HazPtrDomain → HazPtrDomain × List ℕ
unfolding delete_slots
destroy_domain d = (record d { head = [] }, delete_slots d.head)

-- The calls that threads make, slots being named by their address. A `Scan` is one call, or its two
-- parts are, `collects` and `reclaims`, between which other threads make calls.
pub data Call : Type 0 where
  registers unregisters acquires scans collects reclaims : (t : ℕ) → Call
  releases : (t a : ℕ) → Call
  protects : (a p : ℕ) → Call
  retires : (t p del : ℕ) → Call

pub step : Call → HazPtrDomain → Outcome HazPtrDomain
unfolding register_thread unregister_thread acquire release set_hazard scan collect_all reclaim_all
    retire_pointer
step (registers t) d = done (register_thread t d)
step (unregisters t) d = done (unregister_thread t d)
step (acquires t) d = done (acquire t d).0
step (scans t) d = scan t d
step (collects t) d = collect_all t d
step (reclaims t) d = reclaim_all t d
step (releases t a) d = release t a d
step (protects a p) d = done (record d { head = set_hazard a p d.head })
step (retires t p del) d = retire_pointer t p del d

pub run : List Call → HazPtrDomain → Outcome HazPtrDomain
unfolding step
run [] d = done d
run (c ∷ cs) d = step c d >>= λ e. run cs e
