-- ===== src/WaitQueue/Vector/Laws.antt =====
-- Which items a notification of the vector wait queue readies.
use Prim.Native.Nat.{bit_and}
use fern_os.Prelude.{
  ◌%◌, ◌^◌, ◌==◌, ℕ, zero, suc, ◌<◌, ◌≡◌, ◌⊎◌, inl, inr, List-cases, refl, ap, sym, subst, leb, ltb,
  ◌∙◌, Bool, Bool-cases, not, true, false, some, none, List, [], ◌∷◌, ◌++◌, map, append-nil,
  append_assoc, arith, length, select,
}
use fern_os.Err.{Err, success, no_mem, empty, Mem}
use fern_os.ListT.{ListT, cells, l_get_len, l_pop_front}
use fern_os.ListT.Cells.{l_push_back_cases, l_pop_front-cons}
use fern_os.WaitQueue.Remove.{keeps, cells-remove_item}
use fern_os.WaitQueue.Vector.{
  WaitPair, ReadyPair, VectorWaitQueue, vwq_notify_first, vwq_notify_all, vwq_null_ready_id,
  accepts, tag, pair_item, pair_id, ready_iter, first_loop, all_loop, vwq_notify, vwq_pop,
  vwq_enqueue, vwq_remove,
}

abbrev pub waiting : VectorWaitQueue → List WaitPair
waiting vwq = cells vwq.wait_q

abbrev pub ready : VectorWaitQueue → List ReadyPair
ready vwq = cells vwq.ready_q

abbrev pub rejects : ℕ → WaitPair → Bool
rejects ready_id p = not (accepts ready_id p)

abbrev pub Out : Type 0
Out = Err × VectorWaitQueue × Mem

-- A queue whose iterator stands behind `b` and before `r`.
abbrev at : List WaitPair → List WaitPair → ListT ReadyPair → VectorWaitQueue
at b r rq = record { wait_q = record { before = b; rest = r }; ready_q = rq }

ready_iter_cases :
    (id : ℕ) (p : WaitPair) (b r : List WaitPair) (rq : ListT ReadyPair) (mem : Mem)
    → let (err, vwq, mem') = ready_iter id p (at b (p ∷ r) rq) mem in
      (err ≡ success)
        × (vwq.wait_q ≡ record { before = b; rest = r })
        × (ready vwq ≡ cells rq ++ (tag id p ∷ []))
      ⊎ (err ≡ no_mem) × (vwq ≡ at b (p ∷ r) rq)
unfolding ready_iter
ready_iter_cases id p b r rq mem = ground (arith, l_push_back_cases rq (tag id p) mem)

-- What VWQ_NOTIFY_ALL has done to a queue whose waiting items are `w`, after `b` that it does not
-- look at: of the items `seen`, those that accept the event have become ready, in order, and the
-- others wait on as before; all are seen, unless memory ran out at one that accepts it.
abbrev pub NotifiedAll : ℕ → List WaitPair → List WaitPair → List ReadyPair → Out → Type 0
NotifiedAll id b w rq (err, vwq, mem) =
    (seen : List WaitPair) × (left : List WaitPair) × (w ≡ seen ++ left)
    × (waiting vwq ≡ b ++ (select (rejects id) seen ++ left))
    × (ready vwq ≡ rq ++ map (tag id) (select (accepts id) seen))
    × ((err ≡ success) × (left ≡ [])
        ⊎ ((err ≡ no_mem)
            × ((p : WaitPair) × (rest : List WaitPair) × (left ≡ p ∷ rest)
                × (accepts id p ≡ true))))

all_loop-no_mem :
    (fuel id : ℕ) (vwq : VectorWaitQueue) (mem : Mem)
    → all_loop fuel id no_mem vwq mem ≡ (no_mem, vwq, mem)
unfolding all_loop
all_loop-no_mem zero id vwq mem = refl
all_loop-no_mem (suc fuel) id vwq mem = refl

all_loop-nil :
    (fuel id : ℕ) (b : List WaitPair) (rq : ListT ReadyPair) (mem : Mem)
    → all_loop (suc fuel) id success (at b [] rq) mem ≡ (success, at b [] rq, mem)
unfolding all_loop
all_loop-nil fuel id b rq mem = refl

module _ (fuel id : ℕ) (b : List WaitPair) (p : WaitPair) (w : List WaitPair) (rq : ListT ReadyPair)
    (mem : Mem) where
  all_loop-reject :
      accepts id p ≡ false
      → all_loop (suc fuel) id success (at b (p ∷ w) rq) mem
        ≡ all_loop fuel id success (at (b ++ (p ∷ [])) w rq) mem
  unfolding all_loop
  all_loop-reject n = rw (n, all_loop)

  all_loop-accept :
      accepts id p ≡ true
      → let (err, vwq, mem') = ready_iter id p (at b (p ∷ w) rq) mem in
        all_loop (suc fuel) id success (at b (p ∷ w) rq) mem ≡ all_loop fuel id err vwq mem'
  unfolding all_loop
  all_loop-accept y = rw (y, all_loop)

  skipped :
      (out : Out)
      → accepts id p ≡ false
      → NotifiedAll id (b ++ (p ∷ [])) w (cells rq) out
      → NotifiedAll id b (p ∷ w) (cells rq) out
  skipped out n (seen, left, split, hw, hr, end) = (
    p ∷ seen,
    left,
    ap (λ l. p ∷ l) split,
    rw n (hw ∙ append_assoc b (p ∷ []) (select (rejects id) seen ++ left)),
    rw n hr,
    end,
  )

  taken :
      (out : Out) (rq1 : List ReadyPair)
      → accepts id p ≡ true
      → rq1 ≡ cells rq ++ (tag id p ∷ [])
      → NotifiedAll id b w rq1 out
      → NotifiedAll id b (p ∷ w) (cells rq) out
  taken out rq1 y e (seen, left, split, hw, hr, end) = (
    p ∷ seen,
    left,
    ap (λ l. p ∷ l) split,
    rw y hw,
    rw y (
        hr
        ∙ ap (λ l. l ++ map (tag id) (select (accepts id) seen)) e
        ∙ append_assoc (cells rq) (tag id p ∷ []) (map (tag id) (select (accepts id) seen))),
    end,
  )

all_loop_lem :
    (fuel id : ℕ) (b w : List WaitPair) (rq : ListT ReadyPair) (mem : Mem)
    → length w < fuel
    → NotifiedAll id b w (cells rq) (all_loop fuel id success (at b w rq) mem)
all_loop_lem zero id b w rq mem h = absurd (omega arith)
all_loop_lem (suc fuel) id b [] rq mem h =
    rw (all_loop-nil fuel id b rq mem)
      ([], [], refl, refl, sym (append-nil (cells rq)), inl (refl, refl))
all_loop_lem (suc fuel) id b (p ∷ w) rq mem h = elim (Bool-cases (accepts id p)) [
  | inr n ↦ rw (all_loop-reject fuel id b p w rq mem n) (
      skipped fuel id b p w rq mem (all_loop fuel id success (at (b ++ (p ∷ [])) w rq) mem) n
        (all_loop_lem fuel id (b ++ (p ∷ [])) w rq mem (omega arith)))
  | inl y ↦
      let vwq = (ready_iter id p (at b (p ∷ w) rq) mem).1 in
      let mem1 = (ready_iter id p (at b (p ∷ w) rq) mem).2 in
      elim (ready_iter_cases id p b w rq mem) [
        | inl (e, hw, hr) ↦
            let same : vwq ≡ at b w vwq.ready_q =
              λ i. record { wait_q = hw i; ready_q = vwq.ready_q } in
            rw (all_loop-accept fuel id b p w rq mem y, e)
              (taken fuel id b p w rq mem (all_loop fuel id success vwq mem1) (ready vwq) y hr (
                subst (λ v. NotifiedAll id b w (ready vwq) (all_loop fuel id success v mem1))
                  (sym same) (all_loop_lem fuel id b w vwq.ready_q mem1 (omega arith))))
        | inr (e, same) ↦
            rw (all_loop-accept fuel id b p w rq mem y, e, all_loop-no_mem, same)
              ([], p ∷ w, refl, refl, sym (append-nil (cells rq)), inr (refl, (p, w, refl, y)))
      ]
]

-- For every event below 32 and every pattern of failing allocations, `vwq_notify` with
-- VWQ_NOTIFY_ALL readies, in order and with the event's id, the waiting items that accept the event,
-- up to the first one for which memory runs out, and leaves the others waiting in order.
pub vwq_notify-all :
    (vwq : VectorWaitQueue) (id : ℕ) (mem : Mem)
    → id < 32
    → NotifiedAll id [] (waiting vwq) (ready vwq) (vwq_notify vwq id vwq_notify_all mem)
unfolding vwq_notify l_get_len
vwq_notify-all vwq id mem h =
    let e : leb 32 id ≡ false = ground arith in
    rw (e, vwq_notify)
      (all_loop_lem (suc (length (waiting vwq))) id [] (waiting vwq) vwq.ready_q mem (omega arith))

-- What VWQ_NOTIFY_FIRST has done: if no item accepts the event, nothing. Else the first one `p`
-- that does, behind `seen`, has become ready, or memory ran out and nothing has changed.
abbrev pub NotifiedFirst : ℕ → List WaitPair → List WaitPair → List ReadyPair → Out → Type 0
NotifiedFirst id b w rq (err, vwq, mem) =
    (select (accepts id) w ≡ []) × (err ≡ success) × (waiting vwq ≡ b ++ w) × (ready vwq ≡ rq)
    ⊎ ((seen : List WaitPair) × (p : WaitPair) × (left : List WaitPair) × (w ≡ seen ++ (p ∷ left))
        × (select (accepts id) seen ≡ [])
        × (accepts id p ≡ true)
        × ((err ≡ success)
              × (waiting vwq ≡ b ++ (seen ++ left))
              × (ready vwq ≡ rq ++ (tag id p ∷ []))
            ⊎ (err ≡ no_mem) × (waiting vwq ≡ b ++ w) × (ready vwq ≡ rq)))

first_loop-nil :
    (fuel id : ℕ) (b : List WaitPair) (rq : ListT ReadyPair) (mem : Mem)
    → first_loop (suc fuel) id (at b [] rq) mem ≡ (success, at b [] rq, mem)
unfolding first_loop
first_loop-nil fuel id b rq mem = refl

module _ (fuel id : ℕ) (b : List WaitPair) (p : WaitPair) (w : List WaitPair) (rq : ListT ReadyPair)
    (mem : Mem) where
  first_loop-reject :
      accepts id p ≡ false
      → first_loop (suc fuel) id (at b (p ∷ w) rq) mem
        ≡ first_loop fuel id (at (b ++ (p ∷ [])) w rq) mem
  unfolding first_loop
  first_loop-reject n = rw (n, first_loop)

  first_loop-accept :
      accepts id p ≡ true
      → first_loop (suc fuel) id (at b (p ∷ w) rq) mem ≡ ready_iter id p (at b (p ∷ w) rq) mem
  unfolding first_loop
  first_loop-accept y = rw (y, first_loop)

  first_skipped :
      (out : Out)
      → accepts id p ≡ false
      → NotifiedFirst id (b ++ (p ∷ [])) w (cells rq) out
      → NotifiedFirst id b (p ∷ w) (cells rq) out
  first_skipped out n (inl (none_do, e, hw, hr)) =
      inl (rw n none_do, e, hw ∙ append_assoc b (p ∷ []) w, hr)
  first_skipped out n (inr (seen, q, left, split, none_do, y, inl (e, hw, hr))) = inr (
    p ∷ seen,
    q,
    left,
    ap (λ l. p ∷ l) split,
    rw n none_do,
    y,
    inl (e, hw ∙ append_assoc b (p ∷ []) (seen ++ left), hr),
  )
  first_skipped out n (inr (seen, q, left, split, none_do, y, inr (e, hw, hr))) = inr (
    p ∷ seen,
    q,
    left,
    ap (λ l. p ∷ l) split,
    rw n none_do,
    y,
    inr (e, hw ∙ append_assoc b (p ∷ []) w, hr),
  )

first_loop_lem :
    (fuel id : ℕ) (b w : List WaitPair) (rq : ListT ReadyPair) (mem : Mem)
    → length w < fuel
    → NotifiedFirst id b w (cells rq) (first_loop fuel id (at b w rq) mem)
first_loop_lem zero id b w rq mem h = absurd (omega arith)
first_loop_lem (suc fuel) id b [] rq mem h =
    rw (first_loop-nil fuel id b rq mem) (inl (refl, refl, refl, refl))
first_loop_lem (suc fuel) id b (p ∷ w) rq mem h = elim (Bool-cases (accepts id p)) [
  | inr n ↦ rw (first_loop-reject fuel id b p w rq mem n) (
      first_skipped fuel id b p w rq mem (first_loop fuel id (at (b ++ (p ∷ [])) w rq) mem) n
        (first_loop_lem fuel id (b ++ (p ∷ [])) w rq mem (omega arith)))
  | inl y ↦ rw (first_loop-accept fuel id b p w rq mem y) (
      inr (
        [],
        p,
        w,
        refl,
        refl,
        y,
        elim (ready_iter_cases id p b w rq mem) [
          | inl (e, hw, hr) ↦ inl (e, ap cells hw, hr)
          | inr (e, same) ↦ inr (e, ap waiting same, ap ready same)
        ],
      ))
]

-- For every event below 32 and every pattern of failing allocations, `vwq_notify` with
-- VWQ_NOTIFY_FIRST readies the first waiting item that accepts the event and no other; it changes
-- nothing if there is none or if memory runs out.
pub vwq_notify-first :
    (vwq : VectorWaitQueue) (id : ℕ) (mem : Mem)
    → id < 32
    → NotifiedFirst id [] (waiting vwq) (ready vwq) (vwq_notify vwq id vwq_notify_first mem)
unfolding vwq_notify l_get_len
vwq_notify-first vwq id mem h =
    let e : leb 32 id ≡ false = ground arith in
    rw (e, vwq_notify)
      (first_loop_lem (suc (length (waiting vwq))) id [] (waiting vwq) vwq.ready_q mem
        (omega arith))

-- `vwq_remove` drops every entry of the item from both lists, and nothing else, in order.
pub vwq_remove_lem :
    (vwq : VectorWaitQueue) (item : ℕ)
    → let vwq' = vwq_remove vwq item in
      (waiting vwq' ≡ select (keeps (λ (p : WaitPair). p.item) item) (waiting vwq))
      × (ready vwq' ≡ select (keeps (λ (p : ReadyPair). p.item) item) (ready vwq))
unfolding vwq_remove
vwq_remove_lem vwq item = (
  cells-remove_item (λ (p : WaitPair). p.item) vwq.wait_q item,
  cells-remove_item (λ (p : ReadyPair). p.item) vwq.ready_q item,
)

vwq_pop-nil :
    (vwq : VectorWaitQueue) → ready vwq ≡ [] → vwq_pop vwq ≡ (empty, none, vwq_null_ready_id, vwq)
unfolding vwq_pop l_get_len
vwq_pop-nil vwq e = rw (e, vwq_pop)

vwq_pop-cons :
    (vwq : VectorWaitQueue) (rp : ReadyPair) (r : List ReadyPair)
    → ready vwq ≡ rp ∷ r
    → let (err, out, rq) = l_pop_front vwq.ready_q in
      vwq_pop vwq ≡ (success, pair_item out, pair_id out, record vwq { ready_q = rq })
unfolding vwq_pop l_get_len
vwq_pop-cons vwq rp r e = let z : ltb 0 (suc (length r)) ≡ true = ground arith in rw (e, vwq_pop, z)

-- `vwq_pop` hands out the ready pairs in order; with none ready it says FOS_E_EMPTY, writes NULL
-- and the null id, and changes nothing.
pub vwq_pop_lem :
    (vwq : VectorWaitQueue)
    → let (err, item, id, vwq') = vwq_pop vwq in
      (ready vwq ≡ []) × (err ≡ empty) × (item ≡ none) × (id ≡ vwq_null_ready_id) × (vwq' ≡ vwq)
      ⊎ ((rp : ReadyPair) × (ready vwq ≡ rp ∷ ready vwq')
          × (err ≡ success)
          × (item ≡ some rp.item)
          × (id ≡ rp.ready_id)
          × (waiting vwq' ≡ waiting vwq))
vwq_pop_lem vwq = elim (List-cases (ready vwq)) [
  | inl e ↦ rw (vwq_pop-nil vwq e) (inl (e, refl, refl, refl, refl))
  | inr (rp, r, e) ↦
      let (done, value, left) = l_pop_front-cons vwq.ready_q rp r e in
      rw (vwq_pop-cons vwq rp r e) (
        inr (rp, e ∙ ap (λ l. rp ∷ l) (sym left), refl, ap pair_item value, ap pair_id value, refl))
]

-- Whether an item with a mask accepts an event.
pub accepts-mask :
    (item mask id : ℕ)
    → accepts id (record { item = item; ready_mask = mask })
      ≡ not (bit_and mask (2 ^ id % 2 ^ 32) == 0)
unfolding accepts
accepts-mask item mask id = refl

-- `vwq_enqueue` with a mask puts the item behind the others, or memory runs out and nothing changes.
pub vwq_enqueue_cases :
    (vwq : VectorWaitQueue) (item mask : ℕ) (mem : Mem)
    → mask == 0 ≡ false
    → let (err, vwq', mem') = vwq_enqueue vwq item mask mem in
      (err ≡ success)
        × (waiting vwq' ≡ waiting vwq ++ (record { item = item; ready_mask = mask } ∷ []))
        × (ready vwq' ≡ ready vwq)
      ⊎ (err ≡ no_mem) × (vwq' ≡ vwq)
unfolding vwq_enqueue
vwq_enqueue_cases vwq item mask mem some_mask =
    rw (some_mask, vwq_enqueue)
      (elim (l_push_back_cases vwq.wait_q (record { item = item; ready_mask = mask }) mem) [
        | inl (ok, w) ↦ inl (ok, w, refl)
        | inr (bad, same) ↦ inr (bad, ap (λ q. record vwq { wait_q = q }) same)
      ])
