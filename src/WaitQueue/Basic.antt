-- ===== src/WaitQueue/Basic.antt =====
-- The basic wait queue of wait_queue.c: `bwq_enqueue`, `bwq_notify`, `bwq_pop`, `bwq_remove`.
pub mod Laws
use fern_os.Prelude.{
  ℕ, zero, suc, ◌-◌, Bool, true, false, Option, none, some, List, ltb, ◌==◌, if◌then◌else◌,
}
use fern_os.Err.{Err, success, empty, is_success, Mem, al_malloc}
use fern_os.ListT.{
  ListT, cells, new_list, l_get_len, l_get_ptr, l_push_back, l_pop_front, l_pop_back,
}
use fern_os.WaitQueue.Remove.{remove_item}

-- `basic_wait_queue_t`; an item is an opaque pointer.
pub record BasicWaitQueue : Type 0 where
  pub wait_q : ListT ℕ
  pub ready_q : ListT ℕ

abbrev pub bwq_notify_next : ℕ
bwq_notify_next = 0

abbrev pub bwq_notify_last : ℕ
bwq_notify_last = 1

abbrev pub bwq_notify_all : ℕ
bwq_notify_all = 2

-- `new_basic_wait_queue` allocates the queue and its two lists, in this order; a part that was
-- allocated is given back when another one fails.
pub new_basic_wait_queue : Mem → Option BasicWaitQueue × Mem
new_basic_wait_queue mem =
    let (bwq, mem1) = al_malloc mem in
    let (wq, mem2) = al_malloc mem1 in
    let (rq, mem3) = al_malloc mem2 in
    if bwq
    then (if rq
        then (if wq
            then (some (record { wait_q = new_list; ready_q = new_list }), mem3)
            else (none, mem3))
        else (none, mem3))
    else (none, mem3)

pub bwq_enqueue : BasicWaitQueue → ℕ → Mem → Err × BasicWaitQueue × Mem
bwq_enqueue bwq item mem =
    let (err, wq, mem') = l_push_back bwq.wait_q item mem in (err, record bwq { wait_q = wq }, mem')

-- The item is pushed to the ready queue first, and leaves the wait queue only if that worked.
pub ready_front : BasicWaitQueue → ℕ → Mem → Err × BasicWaitQueue × Mem
ready_front bwq item mem =
    let (res, rq, mem') = l_push_back bwq.ready_q item mem in
    if is_success res
    then (res, record { wait_q = (l_pop_front bwq.wait_q).2; ready_q = rq }, mem')
    else (res, record bwq { ready_q = rq }, mem')

pub ready_back : BasicWaitQueue → ℕ → Mem → Err × BasicWaitQueue × Mem
ready_back bwq item mem =
    let (res, rq, mem') = l_push_back bwq.ready_q item mem in
    if is_success res
    then (res, record { wait_q = (l_pop_back bwq.wait_q).2; ready_q = rq }, mem')
    else (res, record bwq { ready_q = rq }, mem')

-- `while (res == FOS_E_SUCCESS && l_get_len(bwq->wait_q) > 0)`.
pub notify_all_loop : ℕ → Err → BasicWaitQueue → Mem → Err × BasicWaitQueue × Mem
notify_all_loop zero res bwq mem = (res, bwq, mem)
notify_all_loop (suc fuel) res bwq mem = elim (is_success res) [
  | false ↦ (res, bwq, mem)
  | true ↦ elim (l_get_ptr bwq.wait_q 0) [
    | none ↦ (res, bwq, mem)
    | some item ↦
        let (res', bwq', mem') = ready_front bwq item mem in notify_all_loop fuel res' bwq' mem'
  ]
]

-- `bwq_notify`. The loop ends within one round for each waiting item.
pub bwq_notify : BasicWaitQueue → ℕ → Mem → Err × BasicWaitQueue × Mem
unfolding ready_front ready_back notify_all_loop
bwq_notify bwq mode mem =
    if mode == bwq_notify_next
    then elim (l_get_ptr bwq.wait_q 0) [
      | none ↦ (success, bwq, mem)
      | some item ↦ ready_front bwq item mem
    ]
    else if mode == bwq_notify_last
    then elim (l_get_ptr bwq.wait_q (l_get_len bwq.wait_q - 1)) [
      | none ↦ (success, bwq, mem)
      | some item ↦ ready_back bwq item mem
    ]
    else if mode == bwq_notify_all
    then notify_all_loop (suc (l_get_len bwq.wait_q)) success bwq mem
    else (success, bwq, mem)

-- `bwq_pop`; the option is what is written to `*item`, where `none` is NULL.
pub bwq_pop : BasicWaitQueue → Err × Option ℕ × BasicWaitQueue
bwq_pop bwq =
    if l_get_len bwq.ready_q == 0
    then (empty, none, bwq)
    else let (err, item, rq) = l_pop_front bwq.ready_q in (err, item, record bwq { ready_q = rq })

-- `bwq_l_remove` on both lists.
pub bwq_remove : BasicWaitQueue → ℕ → BasicWaitQueue
bwq_remove bwq item = record {
  wait_q = remove_item (λ i. i) bwq.wait_q item;
  ready_q = remove_item (λ i. i) bwq.ready_q item;
}
