-- ===== src/WaitQueue/Basic/Laws.antt =====
-- What each operation of the basic wait queue does to the waiting and the ready items.
use fern_os.Prelude.{
  ℕ, zero, suc, ◌-◌, ◌<◌, ◌≡◌, ◌≢◌, ◌⊎◌, inl, inr, List-cases, refl, ap, sym, ◌∙◌, false, some,
  none, List, [], ◌∷◌, ◌++◌, append-nil, append_assoc, arith, length, get_elem?, select, ◌==◌,
}
use fern_os.Err.{Err, success, no_mem, empty, Mem}
use fern_os.ListT.{cells, init, last?, l_get_len, l_get_ptr, l_pop_front}
use fern_os.ListT.Cells.{
  init-last?, l_push_back_cases, cells-l_pop_front, cells-l_pop_back, l_pop_front-cons,
}
use fern_os.WaitQueue.Remove.{keeps, cells-remove_item}
use fern_os.WaitQueue.Basic.{
  BasicWaitQueue, bwq_notify_next, bwq_notify_last, bwq_notify_all, ready_front, ready_back,
  notify_all_loop, bwq_enqueue, bwq_notify, bwq_pop, bwq_remove,
}

abbrev pub waiting : BasicWaitQueue → List ℕ
waiting bwq = cells bwq.wait_q

abbrev pub ready : BasicWaitQueue → List ℕ
ready bwq = cells bwq.ready_q

-- One transfer: the first waiting item becomes the last ready one, or memory is out.
ready_front_lem :
    (bwq : BasicWaitQueue) (item : ℕ) (w : List ℕ) (mem : Mem)
    → waiting bwq ≡ item ∷ w
    → let (res, bwq', mem') = ready_front bwq item mem in
      (res ≡ success) × (waiting bwq' ≡ w) × (ready bwq' ≡ ready bwq ++ (item ∷ []))
      ⊎ (res ≡ no_mem) × (bwq' ≡ bwq)
unfolding ready_front
ready_front_lem bwq item w mem h =
    ground (arith, l_push_back_cases bwq.ready_q item mem, cells-l_pop_front bwq.wait_q)

ready_back_lem :
    (bwq : BasicWaitQueue) (item : ℕ) (mem : Mem)
    → let (res, bwq', mem') = ready_back bwq item mem in
      (res ≡ success)
        × (waiting bwq' ≡ init (waiting bwq))
        × (ready bwq' ≡ ready bwq ++ (item ∷ []))
      ⊎ (res ≡ no_mem) × (bwq' ≡ bwq)
unfolding ready_back
ready_back_lem bwq item mem =
    ground (arith, l_push_back_cases bwq.ready_q item mem, cells-l_pop_back bwq.wait_q)

-- What a notification of all items has done: some of the oldest items, all of them if it
-- succeeds, have moved behind the ready ones in order.
abbrev pub NotifiedAll : BasicWaitQueue → Err × BasicWaitQueue × Mem → Type 0
NotifiedAll bwq (res, bwq', mem') =
    (moved : List ℕ) × (waiting bwq ≡ moved ++ waiting bwq')
    × (ready bwq' ≡ ready bwq ++ moved)
    × ((res ≡ success) × (waiting bwq' ≡ []) ⊎ (res ≡ no_mem) × (waiting bwq' ≢ []))

notify_all_loop-nil :
    (fuel : ℕ) (bwq : BasicWaitQueue) (mem : Mem)
    → waiting bwq ≡ []
    → notify_all_loop (suc fuel) success bwq mem ≡ (success, bwq, mem)
unfolding notify_all_loop l_get_ptr
notify_all_loop-nil fuel bwq mem e = rw (e, notify_all_loop)

notify_all_loop-cons :
    (fuel : ℕ) (bwq : BasicWaitQueue) (x : ℕ) (w : List ℕ) (mem : Mem)
    → waiting bwq ≡ x ∷ w
    → let (res, bwq', mem') = ready_front bwq x mem in
      notify_all_loop (suc fuel) success bwq mem ≡ notify_all_loop fuel res bwq' mem'
unfolding notify_all_loop l_get_ptr
notify_all_loop-cons fuel bwq x w mem e = rw (e, notify_all_loop)

-- Once a push has failed the loop stops.
notify_all_loop-no_mem :
    (fuel : ℕ) (bwq : BasicWaitQueue) (mem : Mem)
    → notify_all_loop fuel no_mem bwq mem ≡ (no_mem, bwq, mem)
unfolding notify_all_loop
notify_all_loop-no_mem zero bwq mem = refl
notify_all_loop-no_mem (suc fuel) bwq mem = refl

notified_more :
    (bwq bwq1 : BasicWaitQueue) (x : ℕ) (out : Err × BasicWaitQueue × Mem)
    → waiting bwq ≡ x ∷ waiting bwq1
    → ready bwq1 ≡ ready bwq ++ (x ∷ [])
    → NotifiedAll bwq1 out
    → NotifiedAll bwq out
notified_more bwq bwq1 x out hw hr (moved, split, grown, end) =
    (x ∷ moved, cc, ground (arith, append_assoc (ready bwq) (x ∷ []) moved), end)

notify_all_loop_lem :
    (fuel : ℕ) (bwq : BasicWaitQueue) (mem : Mem)
    → length (waiting bwq) < fuel
    → NotifiedAll bwq (notify_all_loop fuel success bwq mem)
notify_all_loop_lem zero bwq mem h = absurd (omega arith)
notify_all_loop_lem (suc fuel) bwq mem h = elim (List-cases (waiting bwq)) [
  | inl e ↦
      rw (notify_all_loop-nil fuel bwq mem e) ([], refl, rw (append-nil (ready bwq)), inl (refl, e))
  | inr (x, w, e) ↦ elim (ready_front_lem bwq x w mem e) [
    | inl (r, hw, hr) ↦
        rw (notify_all_loop-cons fuel bwq x w mem e, r)
          (notified_more bwq (ready_front bwq x mem).1 x
            (notify_all_loop fuel success (ready_front bwq x mem).1 (ready_front bwq x mem).2)
            (e ∙ ap (λ l. x ∷ l) (sym hw)) hr
            (notify_all_loop_lem fuel (ready_front bwq x mem).1 (ready_front bwq x mem).2
              (ground arith)))
    | inr (r, same) ↦
        rw (notify_all_loop-cons fuel bwq x w mem e, r, notify_all_loop-no_mem)
          (
            [],
            ap waiting (sym same),
            ap ready same ∙ sym (append-nil (ready bwq)),
            inr (refl, λ z. cc),
          )
  ]
]

-- `bwq_notify` with BWQ_NOTIFY_ALL moves the waiting items, oldest first, behind the ready ones,
-- and stops early only when memory runs out.
pub bwq_notify-all :
    (bwq : BasicWaitQueue) (mem : Mem) → NotifiedAll bwq (bwq_notify bwq bwq_notify_all mem)
unfolding bwq_notify l_get_len
bwq_notify-all bwq mem = notify_all_loop_lem (suc (length (waiting bwq))) bwq mem (omega arith)

-- What a notification of one item has done: with nobody waiting, nothing; else the item `x` has
-- moved behind the ready ones, or memory ran out and nothing has changed.
abbrev pub NotifiedOne :
    BasicWaitQueue → (ℕ → List ℕ → List ℕ) → Err × BasicWaitQueue × Mem → Type 0
NotifiedOne bwq place (res, bwq', mem') =
    (waiting bwq ≡ []) × (res ≡ success) × (bwq' ≡ bwq)
    ⊎ (((x : ℕ) × (waiting bwq ≡ place x (waiting bwq'))
          × (ready bwq' ≡ ready bwq ++ (x ∷ []))
          × (res ≡ success))
        ⊎ (waiting bwq ≢ []) × (res ≡ no_mem) × (bwq' ≡ bwq))

bwq_notify-next-cons :
    (bwq : BasicWaitQueue) (x : ℕ) (w : List ℕ) (mem : Mem)
    → waiting bwq ≡ x ∷ w
    → bwq_notify bwq bwq_notify_next mem ≡ ready_front bwq x mem
unfolding bwq_notify l_get_ptr
bwq_notify-next-cons bwq x w mem e = rw (e, bwq_notify)

bwq_notify-nil :
    (bwq : BasicWaitQueue) (mem : Mem)
    → waiting bwq ≡ []
    → (bwq_notify bwq bwq_notify_next mem ≡ (success, bwq, mem))
      × (bwq_notify bwq bwq_notify_last mem ≡ (success, bwq, mem))
unfolding bwq_notify l_get_ptr l_get_len
bwq_notify-nil bwq mem e = (rw (e, bwq_notify), rw (e, bwq_notify))

-- `bwq_notify` with BWQ_NOTIFY_NEXT does nothing to a queue without waiting items; else it moves the
-- item that has waited longest behind the ready ones, or memory runs out and nothing changes.
pub bwq_notify-next :
    (bwq : BasicWaitQueue) (mem : Mem)
    → NotifiedOne bwq (λ x w. x ∷ w) (bwq_notify bwq bwq_notify_next mem)
bwq_notify-next bwq mem = elim (List-cases (waiting bwq)) [
  | inl e ↦ rw ((bwq_notify-nil bwq mem e).0) (inl (e, refl, refl))
  | inr (x, w, e) ↦ rw (bwq_notify-next-cons bwq x w mem e) (elim (ready_front_lem bwq x w mem e) [
    | inl (r, hw, hr) ↦ inr (inl (x, e ∙ ap (λ l. x ∷ l) (sym hw), hr, r))
    | inr (r, same) ↦ inr (inr (λ z. cc, r, same))
  ])
]

get_elem?-last : (x : ℕ) (xs : List ℕ) → get_elem? (x ∷ xs) (length xs) ≡ last? (x ∷ xs)
get_elem?-last x [] = refl
get_elem?-last x (y ∷ r) = get_elem?-last y r

bwq_notify-last-cons :
    (bwq : BasicWaitQueue) (x y : ℕ) (w : List ℕ) (mem : Mem)
    → waiting bwq ≡ x ∷ w
    → last? (x ∷ w) ≡ some y
    → bwq_notify bwq bwq_notify_last mem ≡ ready_back bwq y mem
unfolding bwq_notify l_get_ptr l_get_len
bwq_notify-last-cons bwq x y w mem e h =
    let i : suc (length w) - 1 ≡ length w = omega arith in
    rw (e, bwq_notify, i, get_elem?-last x w, h)

-- `bwq_notify` with BWQ_NOTIFY_LAST does nothing to a queue without waiting items; else it moves the
-- item that came last behind the ready ones, or memory runs out and nothing changes.
pub bwq_notify-last :
    (bwq : BasicWaitQueue) (mem : Mem)
    → NotifiedOne bwq (λ x w. w ++ (x ∷ [])) (bwq_notify bwq bwq_notify_last mem)
bwq_notify-last bwq mem = elim (List-cases (waiting bwq)) [
  | inl e ↦ rw ((bwq_notify-nil bwq mem e).1) (inl (e, refl, refl))
  | inr (x, w, e) ↦
      let (y, h, split) = init-last? x w in
      rw (bwq_notify-last-cons bwq x y w mem e h) (elim (ready_back_lem bwq y mem) [
        | inl (r, hw, hr) ↦ inr (
            inl (
              y,
              e
                  ∙ sym split
                  ∙ ap (λ l. init l ++ (y ∷ [])) (sym e)
                  ∙ ap (λ l. l ++ (y ∷ [])) (sym hw),
              hr,
              r,
            ))
        | inr (r, same) ↦ inr (inr (λ z. cc, r, same))
      ])
]

bwq_pop-nil : (bwq : BasicWaitQueue) → ready bwq ≡ [] → bwq_pop bwq ≡ (empty, none, bwq)
unfolding bwq_pop l_get_len
bwq_pop-nil bwq e = rw (e, bwq_pop)

bwq_pop-cons :
    (bwq : BasicWaitQueue) (x : ℕ) (r : List ℕ)
    → ready bwq ≡ x ∷ r
    → let (err, item, rq) = l_pop_front bwq.ready_q in
      bwq_pop bwq ≡ (err, item, record bwq { ready_q = rq })
unfolding bwq_pop l_get_len
bwq_pop-cons bwq x r e = let z : (suc (length r) == 0) ≡ false = ground arith in rw (e, bwq_pop, z)

-- `bwq_pop` hands out the ready items in the order in which they became ready, and says
-- FOS_E_EMPTY exactly when there is none, changing nothing.
pub bwq_pop_lem :
    (bwq : BasicWaitQueue)
    → let (err, item, bwq') = bwq_pop bwq in
      (ready bwq ≡ []) × (err ≡ empty) × (item ≡ none) × (bwq' ≡ bwq)
      ⊎ ((x : ℕ) × (ready bwq ≡ x ∷ ready bwq')
          × (err ≡ success)
          × (item ≡ some x)
          × (waiting bwq' ≡ waiting bwq))
bwq_pop_lem bwq = elim (List-cases (ready bwq)) [
  | inl e ↦ rw (bwq_pop-nil bwq e) (inl (e, refl, refl, refl))
  | inr (x, r, e) ↦
      let (done, value, left) = l_pop_front-cons bwq.ready_q x r e in
      rw (bwq_pop-cons bwq x r e) (inr (x, e ∙ ap (λ l. x ∷ l) (sym left), done, value, refl))
]

-- `bwq_remove` drops every occurrence of the item, and nothing else, in order.
pub bwq_remove_lem :
    (bwq : BasicWaitQueue) (item : ℕ)
    → let bwq' = bwq_remove bwq item in
      (waiting bwq' ≡ select (keeps (λ i. i) item) (waiting bwq))
      × (ready bwq' ≡ select (keeps (λ i. i) item) (ready bwq))
unfolding bwq_remove
bwq_remove_lem bwq item = (cells-remove_item _ _ item, cells-remove_item _ _ item)

pub bwq_enqueue_lem :
    (bwq : BasicWaitQueue) (item : ℕ) (mem : Mem)
    → let (err, bwq', mem') = bwq_enqueue bwq item mem in
      (err ≡ success) × (waiting bwq' ≡ waiting bwq ++ (item ∷ [])) × (ready bwq' ≡ ready bwq)
      ⊎ (err ≡ no_mem) × (bwq' ≡ bwq)
unfolding bwq_enqueue
bwq_enqueue_lem bwq item mem = ground (arith, l_push_back_cases bwq.wait_q item mem)
