-- ===== src/WaitQueue/Timed.antt =====
-- The timed wait queue of wait_queue.c: items that sleep until a time on a 32-bit clock that
-- wraps, kept in the order in which they will wake.
pub mod Clock
pub mod Enqueue
pub mod Notify
pub mod Memory
pub mod Leave
use fern_os.Prelude.{
  ℕ, zero, suc, ◌+◌, ◌-◌, ◌%◌, ◌^◌, Bool, not, true, false, Option, none, some, List, leb, ltb,
  ◌==◌, if◌then◌else◌,
}
use fern_os.Err.{Err, success, empty, is_success, Mem, al_malloc}
use fern_os.ListT.{
  ListT, cells, new_list, l_get_len, l_get_ptr, l_push_back, l_pop_front, l_reset_iter, l_get_iter,
  l_next_iter, l_push_before_iter,
}
use fern_os.WaitQueue.Remove.{remove_item}

-- `twq_wait_pair_t`
pub record WaitPair : Type 0 where
  pub item : ℕ
  pub wake_time : ℕ

-- `timed_wait_queue_t`
pub record TimedWaitQueue : Type 0 where
  pub time : ℕ
  pub wait_q : ListT WaitPair
  pub ready_q : ListT ℕ

abbrev pub uint32_max : ℕ
uint32_max = 2 ^ 32 - 1

-- `new_timed_wait_queue`: the queue and its two lists are allocated, and given back unless all
-- three are there.
pub new_timed_wait_queue : Mem → Option TimedWaitQueue × Mem
new_timed_wait_queue mem =
    let (twq, mem1) = al_malloc mem in
    let (wq, mem2) = al_malloc mem1 in
    let (rq, mem3) = al_malloc mem2 in
    if not twq
    then (none, mem3)
    else if not wq
    then (none, mem3)
    else if not rq
    then (none, mem3)
    else (some (record { time = 0; wait_q = new_list; ready_q = new_list }), mem3)

-- `abs_wait_time`: the ticks from now to the wake time, in `uint32_t` arithmetic. The subtractions
-- are made only where they do not go below 0.
unfoldable pub abs_wait_time : ℕ → ℕ → ℕ
abs_wait_time curr_time wake_time =
    if leb curr_time wake_time
    then wake_time - curr_time
    else (uint32_max - curr_time + 1 + wake_time) % 2 ^ 32

-- The loop of `twq_enqueue` stops before the first item that wakes later than the new one; at the
-- end of the list the new one goes to the back.
pub enqueue_loop : ℕ → WaitPair → TimedWaitQueue → Mem → Err × TimedWaitQueue × Mem
enqueue_loop zero new_pair twq mem = (success, twq, mem)
enqueue_loop (suc fuel) new_pair twq mem = elim (l_get_iter twq.wait_q) [
  | none ↦
      let (err, wq, mem') = l_push_back twq.wait_q new_pair mem in
      (err, record twq { wait_q = wq }, mem')
  | some p ↦
      elim (ltb (abs_wait_time twq.time new_pair.wake_time) (abs_wait_time twq.time p.wake_time)) [
        | true ↦
            let (err, wq, mem') = l_push_before_iter twq.wait_q new_pair mem in
            (err, record twq { wait_q = wq }, mem')
        | false ↦ enqueue_loop fuel new_pair (record twq { wait_q = l_next_iter twq.wait_q }) mem
      ]
]

-- `twq_enqueue`. The loop takes one round for each waiting item, and one to see the end.
pub twq_enqueue : TimedWaitQueue → ℕ → ℕ → Mem → Err × TimedWaitQueue × Mem
unfolding enqueue_loop
twq_enqueue twq item wt mem =
    if wt == twq.time
    then (let (err, rq, mem') = l_push_back twq.ready_q item mem in
        (err, record twq { ready_q = rq }, mem'))
    else enqueue_loop (suc (l_get_len twq.wait_q)) (record { item = item; wake_time = wt })
        (record twq { wait_q = l_reset_iter twq.wait_q }) mem

-- The head is pushed to the ready queue, and popped if that worked.
pub ready_head : WaitPair → TimedWaitQueue → Mem → Err × TimedWaitQueue × Mem
ready_head p twq mem =
    let (err, rq, mem') = l_push_back twq.ready_q p.item mem in
    if is_success err
    then (err, record twq { wait_q = (l_pop_front twq.wait_q).2; ready_q = rq }, mem')
    else (err, record twq { ready_q = rq }, mem')

-- The loop of `twq_notify`: a failed push, or a head that must still sleep, ends it.
pub notify_loop : ℕ → ℕ → TimedWaitQueue → Mem → Err × TimedWaitQueue × Mem
notify_loop zero ticks_passed twq mem = (success, twq, mem)
notify_loop (suc fuel) ticks_passed twq mem = elim (l_get_ptr twq.wait_q 0) [
  | none ↦ (success, twq, mem)
  | some p ↦ elim (leb (abs_wait_time twq.time p.wake_time) ticks_passed) [
    | false ↦ (success, twq, mem)
    | true ↦
        let (err, twq', mem') = ready_head p twq mem in
        elim (is_success err) [
          | false ↦ (err, twq', mem')
          | true ↦ notify_loop fuel ticks_passed twq' mem'
        ]
  ]
]

-- `twq_notify` sets the time in any case.
unfoldable pub twq_notify : TimedWaitQueue → ℕ → Mem → Err × TimedWaitQueue × Mem
unfolding ready_head notify_loop
twq_notify twq curr_time mem =
    let ticks_passed = abs_wait_time twq.time curr_time in
    let (err, twq', mem') = notify_loop (suc (l_get_len twq.wait_q)) ticks_passed twq mem in
    (err, record twq' { time = curr_time }, mem')

-- What `twq_pop` does to `*item`: nothing, or a value is written.
pub data Written : Type 0 where
  untouched : Written
  wrote : Option ℕ → Written

-- `twq_pop` leaves `*item` alone when nothing is ready.
pub twq_pop : TimedWaitQueue → Err × Written × TimedWaitQueue
twq_pop twq =
    let (err, item, rq) = l_pop_front twq.ready_q in
    if l_get_len twq.ready_q == 0
    then (empty, untouched, twq)
    else (success, wrote item, record twq { ready_q = rq })

-- `twq_remove` walks both lists.
pub twq_remove : TimedWaitQueue → ℕ → TimedWaitQueue
twq_remove twq item = record twq {
  wait_q = remove_item (λ (p : WaitPair). p.item) twq.wait_q item;
  ready_q = remove_item (λ i. i) twq.ready_q item;
}
