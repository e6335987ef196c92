-- ===== src/WaitQueue/Timed/Leave.antt =====
-- How items leave the timed wait queue: `twq_pop` and `twq_remove`.
use fern_os.Prelude.{
  ℕ, suc, ◌≤◌, ◌<◌, ◌≡◌, ◌⊎◌, inl, inr, refl, ap, sym, ◌∙◌, Bool, Bool-cases, false, some, List,
  List-cases, [], ◌∷◌, All, arith, length, ◌==◌, select,
}
use fern_os.Err.{success, empty}
use fern_os.ListT.{l_pop_front, l_get_len}
use fern_os.ListT.Cells.{l_pop_front-cons}
use fern_os.WaitQueue.Remove.{keeps, cells-remove_item}
use fern_os.WaitQueue.Timed.{WaitPair, TimedWaitQueue, untouched, wrote, twq_pop, twq_remove}
use fern_os.WaitQueue.Timed.Clock.{sleeps, IsSorted, IsClock, waiting, ready, IsValid}

twq_pop-nil : (twq : TimedWaitQueue) → ready twq ≡ [] → twq_pop twq ≡ (empty, untouched, twq)
unfolding twq_pop l_get_len
twq_pop-nil twq e = rw (e, twq_pop)

twq_pop-cons :
    (twq : TimedWaitQueue) (x : ℕ) (r : List ℕ)
    → ready twq ≡ x ∷ r
    → let (err, item, rq) = l_pop_front twq.ready_q in
      twq_pop twq ≡ (success, wrote item, record twq { ready_q = rq })
unfolding twq_pop l_get_len
twq_pop-cons twq x r e = let z : (suc (length r) == 0) ≡ false = ground arith in rw (e, twq_pop, z)

-- `twq_pop` hands out the ready items in order. With none ready it says FOS_E_EMPTY and leaves
-- both the queue and `*item` as they are: no NULL is written.
pub twq_pop_lem :
    (twq : TimedWaitQueue)
    → let (err, out, twq') = twq_pop twq in
      (ready twq ≡ []) × (err ≡ empty) × (out ≡ untouched) × (twq' ≡ twq)
      ⊎ ((x : ℕ) × (ready twq ≡ x ∷ ready twq')
          × (err ≡ success)
          × (out ≡ wrote (some x))
          × (waiting twq' ≡ waiting twq)
          × (twq'.time ≡ twq.time))
twq_pop_lem twq = elim (List-cases (ready twq)) [
  | inl e ↦ rw (twq_pop-nil twq e) (inl (e, refl, refl, refl))
  | inr (x, r, e) ↦
      let (done, value, left) = l_pop_front-cons twq.ready_q x r e in
      rw (twq_pop-cons twq x r e)
        (inr (x, e ∙ ap (λ l. x ∷ l) (sym left), refl, ap wrote value, refl, refl))
]

All-select {ℓ κ} :
    {A : Type ℓ} (P : A → Type κ) (keep : A → Bool) (w : List A) → All P w → All P (select keep w)
All-select P keep [] h = tt
All-select P keep (p ∷ w) h = elim (Bool-cases (keep p)) [
  | inl y ↦ rw y (h.0, All-select P keep w h.1)
  | inr n ↦ rw n (All-select P keep w h.1)
]

IsSorted-select :
    (t : ℕ) (keep : WaitPair → Bool) (w : List WaitPair) → IsSorted t w → IsSorted t (select keep w)
IsSorted-select t keep [] s = tt
IsSorted-select t keep (p ∷ w) s = elim (Bool-cases (keep p)) [
  | inl y ↦
      rw y (All-select (λ q. sleeps t p ≤ sleeps t q) keep w s.0, IsSorted-select t keep w s.1)
  | inr n ↦ rw n (IsSorted-select t keep w s.1)
]

-- `twq_remove` drops every entry of the item from both lists, and nothing else, in order, and the
-- queue stays valid.
pub twq_remove_lem :
    (twq : TimedWaitQueue) (item : ℕ)
    → IsValid twq
    → let twq' = twq_remove twq item in
      (waiting twq' ≡ select (keeps (λ (p : WaitPair). p.item) item) (waiting twq))
      × (ready twq' ≡ select (keeps (λ i. i) item) (ready twq))
      × IsValid twq'
unfolding twq_remove
twq_remove_lem twq item v =
    let keep = keeps (λ (p : WaitPair). p.item) item in
    let e = cells-remove_item (λ (p : WaitPair). p.item) twq.wait_q item in
    (
      e,
      cells-remove_item (λ i. i) twq.ready_q item,
      record {
        now = v.now;
        clocks = rw e (All-select IsClock keep (waiting twq) v.clocks);
        asleep = rw e (All-select (λ p. 0 < sleeps twq.time p) keep (waiting twq) v.asleep);
        sorted = rw e (IsSorted-select twq.time keep (waiting twq) v.sorted);
      },
    )
