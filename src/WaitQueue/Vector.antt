-- ===== src/WaitQueue/Vector.antt =====
-- The vector wait queue of wait_queue.c: each waiting item names the events, out of 32, that can
-- ready it, as a bit mask.
pub mod Laws
use Prim.Native.Nat.{bit_and}
use fern_os.Prelude.{
  ℕ, zero, suc, ◌%◌, ◌^◌, Bool, not, true, false, Option, none, some, List, leb, ltb, ◌==◌,
  if◌then◌else◌,
}
use fern_os.Err.{Err, success, bad_args, empty, is_success, Mem, al_malloc}
use fern_os.ListT.{
  ListT, cells, new_list, l_get_len, l_push_back, l_pop_front, l_reset_iter, l_get_iter,
  l_next_iter, l_pop_iter,
}
use fern_os.WaitQueue.Remove.{remove_item}

-- `vwq_wait_pair_t`
pub record WaitPair : Type 0 where
  pub item : ℕ
  pub ready_mask : ℕ

-- `vwq_ready_pair_t`
pub record ReadyPair : Type 0 where
  pub item : ℕ
  pub ready_id : ℕ

-- `vector_wait_queue_t`
pub record VectorWaitQueue : Type 0 where
  pub wait_q : ListT WaitPair
  pub ready_q : ListT ReadyPair

abbrev pub vwq_notify_first : ℕ
vwq_notify_first = 0

abbrev pub vwq_notify_all : ℕ
vwq_notify_all = 1

-- VWQ_NULL_READY_ID
abbrev pub vwq_null_ready_id : ℕ
vwq_null_ready_id = 32

-- `new_vector_wait_queue`: the queue and its two lists are allocated, and given back unless all
-- three are there.
pub new_vector_wait_queue : Mem → Option VectorWaitQueue × Mem
new_vector_wait_queue mem =
    let (vwq, mem1) = al_malloc mem in
    let (wq, mem2) = al_malloc mem1 in
    let (rq, mem3) = al_malloc mem2 in
    if not vwq
    then (none, mem3)
    else if not wq
    then (none, mem3)
    else if not rq
    then (none, mem3)
    else (some (record { wait_q = new_list; ready_q = new_list }), mem3)

pub vwq_enqueue : VectorWaitQueue → ℕ → ℕ → Mem → Err × VectorWaitQueue × Mem
vwq_enqueue vwq item ready_mask mem =
    if ready_mask == 0
    then (bad_args, vwq, mem)
    else let (err, wq, mem') =
        l_push_back vwq.wait_q (record { item = item; ready_mask = ready_mask }) mem in
      (err, record vwq { wait_q = wq }, mem')

-- `iter->ready_mask & mask`, where `mask` is `1 << ready_id`.
pub accepts : ℕ → WaitPair → Bool
accepts ready_id p = not (bit_and p.ready_mask (2 ^ ready_id % 2 ^ 32) == 0)

abbrev pub tag : ℕ → WaitPair → ReadyPair
tag ready_id p = record { item = p.item; ready_id = ready_id }

-- The item under the iterator is pushed to the ready queue, and popped if that worked.
pub ready_iter : ℕ → WaitPair → VectorWaitQueue → Mem → Err × VectorWaitQueue × Mem
ready_iter ready_id p vwq mem =
    let (err, rq, mem') = l_push_back vwq.ready_q (tag ready_id p) mem in
    if is_success err
    then (err, record { wait_q = l_pop_iter vwq.wait_q; ready_q = rq }, mem')
    else (err, record vwq { ready_q = rq }, mem')

-- The loop of VWQ_NOTIFY_FIRST leaves at the first match.
pub first_loop : ℕ → ℕ → VectorWaitQueue → Mem → Err × VectorWaitQueue × Mem
first_loop zero ready_id vwq mem = (success, vwq, mem)
first_loop (suc fuel) ready_id vwq mem = elim (l_get_iter vwq.wait_q) [
  | none ↦ (success, vwq, mem)
  | some p ↦ elim (accepts ready_id p) [
    | true ↦ ready_iter ready_id p vwq mem
    | false ↦ first_loop fuel ready_id (record vwq { wait_q = l_next_iter vwq.wait_q }) mem
  ]
]

-- The loop of VWQ_NOTIFY_ALL goes on while there is no error.
pub all_loop : ℕ → ℕ → Err → VectorWaitQueue → Mem → Err × VectorWaitQueue × Mem
all_loop zero ready_id err vwq mem = (err, vwq, mem)
all_loop (suc fuel) ready_id err vwq mem = elim (is_success err) [
  | false ↦ (err, vwq, mem)
  | true ↦ elim (l_get_iter vwq.wait_q) [
    | none ↦ (err, vwq, mem)
    | some p ↦ elim (accepts ready_id p) [
      | true ↦
          let (err', vwq', mem') = ready_iter ready_id p vwq mem in
          all_loop fuel ready_id err' vwq' mem'
      | false ↦ all_loop fuel ready_id err (record vwq { wait_q = l_next_iter vwq.wait_q }) mem
    ]
  ]
]

-- `vwq_notify`. Either loop takes one round for each waiting item, and one to see the end.
pub vwq_notify : VectorWaitQueue → ℕ → ℕ → Mem → Err × VectorWaitQueue × Mem
unfolding ready_iter first_loop all_loop
vwq_notify vwq ready_id mode mem =
    let start = record vwq { wait_q = l_reset_iter vwq.wait_q } in
    let fuel = suc (l_get_len vwq.wait_q) in
    if leb 32 ready_id
    then (bad_args, vwq, mem)
    else if mode == vwq_notify_first
    then first_loop fuel ready_id start mem
    else if mode == vwq_notify_all
    then all_loop fuel ready_id success start mem
    else (success, vwq, mem)

abbrev pub pair_item : Option ReadyPair → Option ℕ
pair_item none = none
pair_item (some rp) = some rp.item

abbrev pub pair_id : Option ReadyPair → ℕ
pair_id none = vwq_null_ready_id
pair_id (some rp) = rp.ready_id

-- `vwq_pop`: what is written to `*item`, where `none` is NULL, and to `*ready_id`.
pub vwq_pop : VectorWaitQueue → Err × Option ℕ × ℕ × VectorWaitQueue
vwq_pop vwq =
    let (err, rp, rq) = l_pop_front vwq.ready_q in
    if ltb 0 (l_get_len vwq.ready_q)
    then (success, pair_item rp, pair_id rp, record vwq { ready_q = rq })
    else (empty, none, vwq_null_ready_id, vwq)

-- `vwq_remove` walks both lists.
pub vwq_remove : VectorWaitQueue → ℕ → VectorWaitQueue
vwq_remove vwq item = record {
  wait_q = remove_item (λ (p : WaitPair). p.item) vwq.wait_q item;
  ready_q = remove_item (λ (p : ReadyPair). p.item) vwq.ready_q item;
}
