-- ===== src/MpmcQueue.antt =====
-- src/common/include/mpmc_queue.hpp: the linked queue, with the threads that call it. A node is the
-- number of its address, 0 is `nullptr`, and data is a number. A step of a thread is one access to
-- `head`, `tail`, a `next` pointer or a hazard pointer, and the steps of the threads interleave; the
-- release of the two holders is one step. The holders of a call of `dequeue` are two slots of the
-- thread, which hold 0 outside a call. What `new` gives is an argument of a step: any address but that of
-- a node that was not deleted. A deleted node keeps its content until its address is given again, and
-- `none_reused` says that a run gives no such address.
pub mod Chains
pub mod Invariant
pub mod Moves
pub mod Exchanges
pub mod Steps
pub mod Reclaim
pub mod Refinement
pub mod Contents
pub mod Alone
pub mod Progress
pub mod Guards
pub mod Guarding
pub mod Hazards
pub mod Undeleted
mod Tests
use tiny_reactor.Base.{
  ◌||◌, ◌&&◌, not, any, select, ℕ, zero, suc, Bool, true, false, Option, none, some, List, [], ◌∷◌,
  ◌==◌, if◌then◌else◌, update,
}

-- Where a thread stands. `n` is its `new_node`, `ct` its `curr_tail`, `ch` its `curr_head` and `nx`
-- its `next`. `rests` is in no call, with what its last `dequeue` wrote to `result`: none when that
-- returned false or the call was an `enqueue`.
pub data Pc : Type 0 where
  rests : (result : Option ℕ) → Pc
  loads_tail : (n : ℕ) → Pc
  loads_next links swings : (n ct : ℕ) → Pc
  rechecks_tail helps : (n ct nx : ℕ) → Pc
  loads_head returns_false : Pc
  protects_head rechecks_head reads_tail : (ch : ℕ) → Pc
  reads_next : (ch ct : ℕ) → Pc
  protects_next rechecks_next swings_for : (ch ct nx : ℕ) → Pc
  pops reads_data : (ch nx : ℕ) → Pc
  releases_holders retires : (ch v : ℕ) → Pc

-- What took effect on the queue: at ①, the thread `t` linked a node with `v`; at ③, it took `v`.
pub data Op : Type 0 where
  enqueued dequeued : (t v : ℕ) → Op

-- Where the loop of `reclaim_all` stands, which one thread runs at a time. `isProtected` of the node
-- `a` walks over the slots: with `at_next`, those of the threads below `k` are left; with `at_head`,
-- the first slot of the thread `k` is left too.
pub data Check : Type 0 where
  no_check : Check
  at_next at_head : (a k : ℕ) → Check

-- The nodes are `next` and `value` by address. `given` are the addresses that `new` gave,
-- `retired` logs the calls of `RetirePointer`, `freed` the nodes that the domain of hazard pointers has
-- found unprotected since, which it deletes, and `history` what took effect, newest first.
pub record MpmcQueue : Type 0 where
  pub next : ℕ → ℕ
  pub value : ℕ → ℕ
  pub head : ℕ
  pub tail : ℕ
  pub given : ℕ → Bool
  pub hp_head : ℕ → ℕ
  pub hp_next : ℕ → ℕ
  pub threads : ℕ → Pc
  pub retired : List ℕ
  pub freed : ℕ → Bool
  pub check : Check
  pub history : List Op

-- The constructor: the dummy node is at address 1.
pub make_queue : MpmcQueue
make_queue = record {
  next = λ _. 0;
  value = λ _. 0;
  head = 1;
  tail = 1;
  given = λ a. a == 1;
  hp_head = λ _. 0;
  hp_next = λ _. 0;
  threads = λ _. rests none;
  retired = [];
  freed = λ _. false;
  check = no_check;
  history = [];
}

abbrev pub goto : ℕ → Pc → MpmcQueue → MpmcQueue
goto t pc q = record q { threads = update q.threads t pc }

-- Whether `compare_exchange_weak` exchanges. It may fail without a reason.
abbrev pub exchanges : (fails : Bool) → (current expected : ℕ) → Bool
exchanges true current expected = false
exchanges false current expected = current == expected

-- `tail.compare_exchange_weak(ct, nx)`; what it returns is not used.
abbrev pub swing_tail : (fails : Bool) → (ct nx : ℕ) → MpmcQueue → MpmcQueue
swing_tail fails ct nx q = record q { tail = if exchanges fails q.tail ct then nx else q.tail }

-- Whether `new` can give the address `a`.
unfoldable pub is_free : ℕ → MpmcQueue → Bool
is_free a q = not (a == 0) && (q.freed a || not (q.given a))

-- The address `a` is no more that of a node that was deleted.
unfoldable pub recycle : ℕ → MpmcQueue → MpmcQueue
recycle a q =
    if q.freed a
    then record q { freed = update q.freed a false; retired = select (λ x. not (x == a)) q.retired }
    else q

-- `enqueue` begins with `new Node<T>(data)`, which gives the address `a`.
unfoldable pub new_node : (t v a : ℕ) → MpmcQueue → MpmcQueue
new_node t v a q = goto t (loads_tail a) (record q {
  next = update q.next a 0;
  value = update q.value a v;
  given = update q.given a true;
})

-- The exchange at ①.
unfoldable pub link_node : (fails : Bool) → (t n ct : ℕ) → MpmcQueue → MpmcQueue
link_node fails t n ct q =
    if exchanges fails (q.next ct) 0
    then goto t (swings n ct)
        (record q { next = update q.next ct n; history = enqueued t (q.value n) ∷ q.history })
    else goto t (loads_tail n) q

-- The exchange at ③.
unfoldable pub pop_head : (fails : Bool) → (t ch nx : ℕ) → MpmcQueue → MpmcQueue
pop_head fails t ch nx q =
    if exchanges fails q.head ch
    then goto t (reads_data ch nx)
        (record q { head = nx; history = dequeued t (q.value nx) ∷ q.history })
    else goto t loads_head q

-- The two holders of the thread are released: by `release`, or at the end of the call.
unfoldable pub release_holders : ℕ → MpmcQueue → MpmcQueue
release_holders t q = record q { hp_head = update q.hp_head t 0; hp_next = update q.hp_next t 0 }

-- The branches of `enqueue` and of `dequeue` after their last check.
abbrev pub after_tail_check : (n ct nx : ℕ) → Pc
after_tail_check n ct nx = if nx == 0 then links n ct else helps n ct nx

abbrev pub after_head_check : (ch ct nx : ℕ) → Pc
after_head_check ch ct nx =
    if nx == 0 then returns_false else if ch == ct then swings_for ch ct nx else pops ch nx

-- One step of the thread `t`, which stands at `pc`.
unfoldable pub advance : (fails : Bool) → ℕ → Pc → MpmcQueue → MpmcQueue
unfolding link_node pop_head release_holders
advance fails t (rests r) q = q
advance fails t (loads_tail n) q = goto t (loads_next n q.tail) q
advance fails t (loads_next n ct) q = goto t (rechecks_tail n ct (q.next ct)) q
advance fails t (rechecks_tail n ct nx) q =
    goto t (if ct == q.tail then after_tail_check n ct nx else loads_tail n) q
advance fails t (links n ct) q = link_node fails t n ct q
advance fails t (swings n ct) q = goto t (rests none) (swing_tail fails ct n q)
advance fails t (helps n ct nx) q = goto t (loads_tail n) (swing_tail fails ct nx q)
advance fails t loads_head q = goto t (protects_head q.head) q
advance fails t (protects_head ch) q =
    goto t (rechecks_head ch) (record q { hp_head = update q.hp_head t ch })
advance fails t (rechecks_head ch) q = goto t (if ch == q.head then reads_tail ch else loads_head) q
advance fails t (reads_tail ch) q = goto t (reads_next ch q.tail) q
advance fails t (reads_next ch ct) q = goto t (protects_next ch ct (q.next ch)) q
advance fails t (protects_next ch ct nx) q =
    goto t (rechecks_next ch ct nx) (record q { hp_next = update q.hp_next t nx })
advance fails t (rechecks_next ch ct nx) q =
    goto t (if ch == q.head then after_head_check ch ct nx else loads_head) q
advance fails t (swings_for ch ct nx) q = goto t loads_head (swing_tail fails ct nx q)
advance fails t (pops ch nx) q = pop_head fails t ch nx q
advance fails t returns_false q = goto t (rests none) (release_holders t q)
advance fails t (reads_data ch nx) q = goto t (releases_holders ch (q.value nx)) q
advance fails t (releases_holders ch v) q = goto t (retires ch v) (release_holders t q)
advance fails t (retires ch v) q = goto t (rests (some v)) (record q { retired = ch ∷ q.retired })

-- A thread that is in no call calls `enqueue` or `dequeue`.
unfoldable pub enqueue : (t v a : ℕ) → Pc → MpmcQueue → MpmcQueue
unfolding is_free recycle new_node
enqueue t v a (rests r) q = if is_free a q then new_node t v a (recycle a q) else q
enqueue t v a _ q = q

unfoldable pub dequeue : ℕ → Pc → MpmcQueue → MpmcQueue
dequeue t (rests r) q = goto t loads_head q
dequeue t _ q = q

-- `reclaim_all` comes to the retired node `a`, if the mutex is free. The lists of retired nodes and
-- the thresholds are left out: any retired node can be checked at any time. `threads` is the number
-- of the threads with slots.
unfoldable pub start_check : (threads a : ℕ) → Check → MpmcQueue → MpmcQueue
start_check threads a no_check q =
    if any (λ x. x == a) q.retired && not (q.freed a)
    then record q { check = at_next a threads }
    else q
start_check threads a _ q = q

-- `isProtected` reads the next slot, and the node is to be deleted if no slot is left.
unfoldable pub check_slot : Check → MpmcQueue → MpmcQueue
check_slot no_check q = q
check_slot (at_next a zero) q = record q { check = no_check; freed = update q.freed a true }
check_slot (at_next a (suc k)) q = record q {
  check = if q.hp_next k == a then no_check else at_head a k;
}
check_slot (at_head a k) q = record q { check = if q.hp_head k == a then no_check else at_next a k }

pub data Event : Type 0 where
  enqueues : (t v a : ℕ) → Event
  dequeues : ℕ → Event
  steps : (fails : Bool) → (t : ℕ) → Event
  checks : (threads a : ℕ) → Event
  looks : Event

unfoldable pub step : Event → MpmcQueue → MpmcQueue
unfolding enqueue dequeue advance start_check check_slot
step (enqueues t v a) q = enqueue t v a (q.threads t) q
step (dequeues t) q = dequeue t (q.threads t) q
step (steps fails t) q = advance fails t (q.threads t) q
step (checks threads a) q = start_check threads a q.check q
step looks q = check_slot q.check q

unfoldable pub run : List Event → MpmcQueue → MpmcQueue
unfolding step
run [] q = q
run (e ∷ es) q = run es (step e q)

-- Whether no call of `new` in a run gives the address of a node that was deleted.
unfoldable pub reuses : Event → MpmcQueue → Bool
reuses (enqueues t v a) q = q.freed a
reuses _ q = false

unfoldable pub none_reused : List Event → MpmcQueue → Bool
unfolding reuses
none_reused [] q = true
none_reused (e ∷ es) q = not (reuses e q) && none_reused es (step e q)

-- The loop of the destructor, on fuel: the nodes that it deletes, in order.
unfoldable pub delete_from : (fuel : ℕ) → (next : ℕ → ℕ) → (curr : ℕ) → Option (List ℕ)
delete_from zero next curr = none
delete_from (suc fuel) next curr =
    let rest = delete_from fuel next (next curr) in
    if curr == 0 then some [] else elim rest [ none ↦ none | some ns ↦ some (curr ∷ ns) ]

unfoldable pub destroy_queue : (fuel : ℕ) → MpmcQueue → Option (List ℕ)
unfolding delete_from
destroy_queue fuel q = delete_from fuel q.next q.head
