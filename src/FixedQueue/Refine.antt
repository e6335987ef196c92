-- ===== src/FixedQueue/Refine.antt =====
-- The cyclic buffer of fixed_queue.c implements a bounded first-in first-out queue.
use native.Mathlib.Nat.{mod-eq_of_lt, mul-div_cancel_left}
use fern_os.Prelude.{
  ℕ, suc, ◌+◌, ◌-◌, ◌*◌, ◌/◌, ◌^◌, ◌≤◌, ◌<◌, ◌≡◌, ◌≢◌, refl, ap, ◌∙◌, Bool, Bool-cases, inl, inr,
  ℕ_discrete, true, false, Option, none, some, List, [], ◌∷◌, ◌++◌, arith, length, leb, ltb,
  if◌then◌else◌, length-set, length-replicate,
}
use fern_os.FixedQueue.{FixedQueue, mul_size, new_fixed_queue, fq_enqueue, fq_poll}
use fern_os.FixedQueue.Window.{
  window, next_slot, slot, add_size-next_slot, window-set, window_of_pos, length-window,
  get_elem?-eq-get_or,
}

pub record IsValid (fq : FixedQueue) : Type 0 where
  pub small : fq.capacity < 2 ^ 32
  pub storage : fq.capacity ≤ length fq.buffer
  pub start_in : fq.start < fq.capacity
  pub end_in : fq.end < fq.capacity
  pub empty_at : fq.empty ≡ true → fq.start ≡ fq.end

-- The number of occupied cells: `end` is the last one, inclusive.
abbrev pub count : FixedQueue → ℕ
count fq =
    if fq.empty
    then 0
    else if leb fq.start fq.end
    then suc (fq.end - fq.start)
    else suc (fq.end + fq.capacity - fq.start)

-- What the queue holds, oldest first.
abbrev pub contents : FixedQueue → List ℕ
contents fq = window fq.buffer fq.capacity fq.start (count fq)

pub length-contents : (fq : FixedQueue) → length (contents fq) ≡ count fq
length-contents fq = length-window fq.buffer fq.capacity fq.start (count fq)

-- The queue that the header promises: at most `cap` elements, and with `writeover` the oldest one
-- gives way.
abbrev pub drop_oldest : List ℕ → List ℕ
drop_oldest [] = []
drop_oldest (x ∷ xs) = xs

pub enqueue : ℕ → List ℕ → ℕ → Bool → Bool × List ℕ
enqueue cap q x writeover =
    if ltb (length q) cap
    then (true, q ++ (x ∷ []))
    else if writeover
    then (true, drop_oldest q ++ (x ∷ []))
    else (false, q)

pub poll : List ℕ → Bool × Option ℕ × List ℕ
poll [] = (false, none, [])
poll (x ∷ xs) = (true, some x, xs)

div_exact : (cs n : ℕ) → cs ≢ 0 → cs * n < 2 ^ 32 → mul_size cs n / cs ≡ n
div_exact cs n pos h = ground (arith, mod-eq_of_lt h, mul-div_cancel_left n {n = cs})

-- A queue that `new_fixed_queue` returns is valid and empty, if the size of its buffer does not
-- overflow.
pub new_fixed_queue-IsValid :
    (fq_ok buffer_ok : Bool) (junk cs cap : ℕ) {fq : FixedQueue}
    → cs * cap < 2 ^ 32
    → new_fixed_queue fq_ok buffer_ok junk cs cap ≡ some fq
    → IsValid fq × (contents fq ≡ []) × (fq.capacity ≡ cap)
unfolding new_fixed_queue
new_fixed_queue-IsValid fq_ok buffer_ok junk cs cap h e =
    ground (arith, length-replicate (mul_size cs cap / cs) junk, div_exact cs cap)

-- enqueue
pub fq_enqueue-IsValid :
    {fq : FixedQueue} (ele : Option ℕ) (w : Bool) → IsValid fq → IsValid (fq_enqueue fq ele w).1
unfolding fq_enqueue
fq_enqueue-IsValid none w v = v
fq_enqueue-IsValid {fq} (some x) w v = ground (
  arith,
  length-set fq.buffer fq.end x,
  length-set fq.buffer (next_slot fq.capacity fq.end) x,
  add_size-next_slot fq.capacity fq.end,
  add_size-next_slot fq.capacity fq.start,
)

pub fq_poll-IsValid : {fq : FixedQueue} (dest : Bool) → IsValid fq → IsValid (fq_poll fq dest).2
unfolding fq_poll
fq_poll-IsValid {fq} dest v = ground (arith, add_size-next_slot fq.capacity fq.start)

pub fq_poll_refines :
    {fq : FixedQueue}
    → IsValid fq
    → let (done, out, fq') = fq_poll fq true in (done, out, contents fq') ≡ poll (contents fq)
unfolding fq_poll poll
fq_poll_refines {fq} v = ground (
  arith,
  add_size-next_slot fq.capacity fq.start,
  window_of_pos fq.buffer fq.capacity fq.start (count fq),
  get_elem?-eq-get_or fq.buffer fq.start,
)

-- The queue that the buffer holds is full exactly when the slot after `end` is `start`.
count_full :
    (fq : FixedQueue)
    → IsValid fq
    → fq.empty ≡ false
    → (next_slot fq.capacity fq.end ≡ fq.start → count fq ≡ fq.capacity)
      × (next_slot fq.capacity fq.end ≢ fq.start → count fq < fq.capacity)
      × (next_slot fq.capacity fq.end ≡ slot fq.capacity fq.start (count fq))
count_full fq v e = ground arith

module _ {fq : FixedQueue} (x : ℕ) (v : IsValid fq) where
  enqueue_empty :
      (w : Bool)
      → fq.empty ≡ true
      → let (done, fq') = fq_enqueue fq (some x) w in
        (done, contents fq') ≡ enqueue fq.capacity (contents fq) x w
  unfolding fq_enqueue enqueue
  enqueue_empty w e = ground (arith, window-set fq.buffer fq.capacity x 0 fq.start fq.end)

  module _ (e : fq.empty ≡ false) where
    -- The slot after `end` is free.
    enqueue_room :
        (w : Bool)
        → next_slot fq.capacity fq.end ≢ fq.start
        → let (done, fq') = fq_enqueue fq (some x) w in
          (done ≡ true) × (contents fq' ≡ contents fq ++ (x ∷ []))
    unfolding fq_enqueue
    enqueue_room w room = ground (
      arith,
      count_full fq v e,
      add_size-next_slot fq.capacity fq.end,
      window-set fq.buffer fq.capacity x (count fq) fq.start (next_slot fq.capacity fq.end),
    )

    enqueue_over :
        next_slot fq.capacity fq.end ≡ fq.start
        → let fq' = (fq_enqueue fq (some x) true).1 in
          ((fq_enqueue fq (some x) true).0 ≡ true)
          × (contents fq' ≡ drop_oldest (contents fq) ++ (x ∷ []))
    unfolding fq_enqueue
    enqueue_over full = ground (
      arith,
      count_full fq v e,
      add_size-next_slot fq.capacity fq.end,
      add_size-next_slot fq.capacity fq.start,
      window_of_pos fq.buffer fq.capacity fq.start (count fq),
      window-set fq.buffer fq.capacity x (count fq - 1) (next_slot fq.capacity fq.start) fq.start,
    )

    enqueue_stop :
        next_slot fq.capacity fq.end ≡ fq.start → fq_enqueue fq (some x) false ≡ (false, fq)
    unfolding fq_enqueue
    enqueue_stop full = ground (arith, add_size-next_slot fq.capacity fq.end)

-- On a valid queue `fq_enqueue` answers as the promised queue does, and holds what that one holds.
pub fq_enqueue_refines :
    {fq : FixedQueue} (x : ℕ) (w : Bool)
    → IsValid fq
    → let (done, fq') = fq_enqueue fq (some x) w in
      (done, contents fq') ≡ enqueue fq.capacity (contents fq) x w
unfolding enqueue
fq_enqueue_refines {fq} x w v = elim (Bool-cases fq.empty) [
  | inl e ↦ enqueue_empty x v w e
  | inr e ↦ elim (ℕ_discrete (next_slot fq.capacity fq.end) fq.start) [
    | no room ↦ ground (arith, count_full fq v e, length-contents fq, enqueue_room x v e w room)
    | yes full ↦ ground (
      arith,
      count_full fq v e,
      length-contents fq,
      enqueue_over x v e full,
      enqueue_stop x v e full,
    )
  ]
]

-- What a client can ask of a queue, and what it sees of each call.
pub data Op : Type 0 where
  enq : Option ℕ → Bool → Op
  pol : Bool → Op

abbrev pub Reply : Type 0
Reply = Bool × Option ℕ

unfoldable pub run : FixedQueue → List Op → List Reply
run fq [] = []
run fq (enq ele w ∷ ops) = let (done, fq') = fq_enqueue fq ele w in (done, none) ∷ run fq' ops
run fq (pol dest ∷ ops) = let (done, out, fq') = fq_poll fq dest in (done, out) ∷ run fq' ops

-- The promised queue under the same calls; a null pointer is refused and changes nothing.
pub run_queue : ℕ → List ℕ → List Op → List Reply
run_queue cap q [] = []
run_queue cap q (enq none w ∷ ops) = (false, none) ∷ run_queue cap q ops
run_queue cap q (enq (some x) w ∷ ops) =
    let (done, q') = enqueue cap q x w in (done, none) ∷ run_queue cap q' ops
run_queue cap q (pol false ∷ ops) = (false, none) ∷ run_queue cap q ops
run_queue cap q (pol true ∷ ops) =
    let (done, out, q') = poll q in (done, out) ∷ run_queue cap q' ops

capacity-fq_enqueue :
    (fq : FixedQueue) (ele : Option ℕ) (w : Bool) → (fq_enqueue fq ele w).1.capacity ≡ fq.capacity
unfolding fq_enqueue
capacity-fq_enqueue fq none w = refl
capacity-fq_enqueue fq (some x) w = ground arith

capacity-fq_poll : (fq : FixedQueue) (dest : Bool) → (fq_poll fq dest).2.capacity ≡ fq.capacity
unfolding fq_poll
capacity-fq_poll fq dest = ground arith

fq_enqueue_null : (fq : FixedQueue) (w : Bool) → fq_enqueue fq none w ≡ (false, fq)
unfolding fq_enqueue
fq_enqueue_null fq w = refl

fq_poll_null : (fq : FixedQueue) → fq_poll fq false ≡ (false, none, fq)
unfolding fq_poll
fq_poll_null fq = refl

-- No sequence of calls, null pointers and write-over included, tells a valid queue from the
-- bounded first-in first-out queue of what it holds.
pub run_refines :
    (ops : List Op) {fq : FixedQueue}
    → IsValid fq
    → run fq ops ≡ run_queue fq.capacity (contents fq) ops
unfolding run run_queue
run_refines [] v = refl
run_refines (enq none w ∷ ops) {fq} v = rw (fq_enqueue_null fq w, run_refines ops v)
run_refines (enq (some x) w ∷ ops) {fq} v =
    ap (λ r. ((fq_enqueue fq (some x) w).0, none) ∷ r)
      (run_refines ops (fq_enqueue-IsValid (some x) w v)
        ∙ ap (λ c. run_queue c (contents (fq_enqueue fq (some x) w).1) ops)
            (capacity-fq_enqueue fq (some x) w))
    ∙ ap (λ (r : Bool × List ℕ). (r.0, none) ∷ run_queue fq.capacity r.1 ops)
        (fq_enqueue_refines x w v)
run_refines (pol false ∷ ops) {fq} v = rw (fq_poll_null fq, run_refines ops v)
run_refines (pol true ∷ ops) {fq} v =
    ap (λ r. ((fq_poll fq true).0, (fq_poll fq true).1) ∷ r)
      (run_refines ops (fq_poll-IsValid true v)
        ∙ ap (λ c. run_queue c (contents (fq_poll fq true).2) ops) (capacity-fq_poll fq true))
    ∙ ap (λ (r : Bool × Option ℕ × List ℕ). (r.0, r.1) ∷ run_queue fq.capacity r.2 ops)
        (fq_poll_refines v)
