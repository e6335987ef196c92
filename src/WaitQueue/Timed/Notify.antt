-- ===== src/WaitQueue/Timed/Notify.antt =====
-- Which items `twq_notify` wakes.
use fern_os.Prelude.{
  ℕ, zero, suc, ◌+◌, ◌^◌, ◌≤◌, ◌<◌, ◌≡◌, ◌≢◌, ◌⊎◌, inl, inr, refl, ap, sym, subst, ◌∙◌, Bool, not,
  true, false, List, [], ◌∷◌, ◌++◌, map, All, append_assoc, append-nil, arith, length, leb, select,
  dec_lt,
}
use fern_os.Err.{Err, success, no_mem, Mem}
use fern_os.ListT.{l_get_ptr, l_get_len}
use fern_os.ListT.Cells.{l_push_back_cases, cells-l_pop_front}
use fern_os.WaitQueue.Timed.{
  WaitPair, TimedWaitQueue, abs_wait_time, ready_head, notify_loop, twq_notify,
}
use fern_os.WaitQueue.Timed.Clock.{
  sleeps, IsSorted, IsClock, waiting, ready, IsValid, All-split, All-map, abs_wait_time_shift,
  IsSorted-suffix,
}

abbrev pub Out : Type 0
Out = Err × TimedWaitQueue × Mem

abbrev pub item_of : WaitPair → ℕ
item_of p = p.item

-- `moved` have become ready, in order, and all of them were due; the loop ended at the end of the
-- list or at an item that is not due, or memory ran out at one that is.
abbrev pub Notified : ℕ → ℕ → List WaitPair → List ℕ → Out → Type 0
Notified t ticks w rq (err, twq, mem) =
    (moved : List WaitPair) × (w ≡ moved ++ waiting twq)
    × (ready twq ≡ rq ++ map item_of moved)
    × All (λ p. sleeps t p ≤ ticks) moved
    × (twq.time ≡ t)
    × ((err ≡ success) × (waiting twq ≡ [])
        ⊎ (((p : WaitPair) × (r : List WaitPair) × (waiting twq ≡ p ∷ r)
            × ((err ≡ success) × (ticks < sleeps t p) ⊎ (err ≡ no_mem) × (sleeps t p ≤ ticks)))))

ready_head_lem :
    (p : WaitPair) (w : List WaitPair) (twq : TimedWaitQueue) (mem : Mem)
    → waiting twq ≡ p ∷ w
    → let (err, twq', mem') = ready_head p twq mem in
      (err ≡ success)
        × (waiting twq' ≡ w)
        × (ready twq' ≡ ready twq ++ (p.item ∷ []))
        × (twq'.time ≡ twq.time)
      ⊎ (err ≡ no_mem) × (twq' ≡ twq)
unfolding ready_head
ready_head_lem p w twq mem h =
    ground (arith, l_push_back_cases twq.ready_q p.item mem, cells-l_pop_front twq.wait_q)

module _ (fuel ticks : ℕ) (twq : TimedWaitQueue) (mem : Mem) where
  pub notify_loop-nil :
      waiting twq ≡ [] → notify_loop (suc fuel) ticks twq mem ≡ (success, twq, mem)
  unfolding notify_loop l_get_ptr
  notify_loop-nil e = rw (e, notify_loop)

  module _ (p : WaitPair) (w : List WaitPair) (e : waiting twq ≡ p ∷ w) where
    pub notify_loop-asleep :
        ticks < sleeps twq.time p → notify_loop (suc fuel) ticks twq mem ≡ (success, twq, mem)
    unfolding notify_loop l_get_ptr
    notify_loop-asleep h =
        let d : leb (sleeps twq.time p) ticks ≡ false = ground arith in rw (e, notify_loop, d)

    pub notify_loop-due :
        sleeps twq.time p ≤ ticks
        → let (err, twq', mem') = ready_head p twq mem in
          (err ≡ success → notify_loop (suc fuel) ticks twq mem ≡ notify_loop fuel ticks twq' mem')
          × (err ≡ no_mem → notify_loop (suc fuel) ticks twq mem ≡ (no_mem, twq', mem'))
    unfolding notify_loop l_get_ptr
    notify_loop-due h =
        let d : leb (sleeps twq.time p) ticks ≡ true = ground arith in
        (
          λ s. rw (e, notify_loop, d, s),
          λ s.
              rw (e, notify_loop, d, s)
                (ap {B = Out} (λ x. (x, (ready_head p twq mem).1, (ready_head p twq mem).2)) s),
        )

Notified-more :
    (t ticks : ℕ) (p : WaitPair) (w : List WaitPair) (rq : List ℕ) (out : Out)
    → sleeps t p ≤ ticks
    → Notified t ticks w (rq ++ (p.item ∷ [])) out
    → Notified t ticks (p ∷ w) rq out
Notified-more t ticks p w rq out h (moved, split, hr, due, ht, end) = (
  p ∷ moved,
  ap (λ l. p ∷ l) split,
  hr ∙ append_assoc rq (p.item ∷ []) (map item_of moved),
  (h, due),
  ht,
  end,
)

notify_loop_lem :
    (fuel t ticks : ℕ) (w : List WaitPair) (rq : List ℕ) (twq : TimedWaitQueue) (mem : Mem)
    → twq.time ≡ t
    → waiting twq ≡ w
    → ready twq ≡ rq
    → length w < fuel
    → Notified t ticks w rq (notify_loop fuel ticks twq mem)
notify_loop_lem zero t ticks w rq twq mem ht hw hr h = absurd (omega arith)
notify_loop_lem (suc fuel) t ticks [] rq twq mem ht hw hr h =
    rw (notify_loop-nil fuel ticks twq mem hw)
      ([], sym hw, hr ∙ sym (append-nil rq), tt, ht, inl (refl, hw))
notify_loop_lem (suc fuel) t ticks (p ∷ w) rq twq mem ht hw hr h =
    elim (dec_lt ticks (sleeps t p)) [
      | yes asleep ↦
          rw (notify_loop-asleep fuel ticks twq mem p w hw (rw ht asleep))
            ([], sym hw, hr ∙ sym (append-nil rq), tt, ht, inr (p, w, hw, inl (refl, asleep)))
      | no not_asleep ↦
          let due : sleeps t p ≤ ticks = omega arith in
          let step = notify_loop-due fuel ticks twq mem p w hw (rw ht due) in
          elim (ready_head_lem p w twq mem hw) [
            | inl (e, hw', hr', ht') ↦ rw (step.0 e) (
                Notified-more t ticks p w rq
                  (notify_loop fuel ticks (ready_head p twq mem).1 (ready_head p twq mem).2) due
                  (notify_loop_lem fuel t ticks w (rq ++ (p.item ∷ [])) (ready_head p twq mem).1
                    (ready_head p twq mem).2 (ht' ∙ ht) hw' (hr' ∙ ap (λ l. l ++ (p.item ∷ [])) hr)
                    (omega arith)))
            | inr (e, same) ↦
                rw (step.1 e, same)
                  ([], sym hw, hr ∙ sym (append-nil rq), tt, ht, inr (p, w, hw, inr (refl, due)))
          ]
    ]

-- In a sorted list, behind an item that must still sleep nothing is due.
none_due :
    (t ticks : ℕ) (p : WaitPair) (r : List WaitPair)
    → IsSorted t (p ∷ r)
    → ticks < sleeps t p
    → All (λ q. ticks < sleeps t q) (p ∷ r)
none_due t ticks p r s h =
    (h, All-map (λ q. sleeps t p ≤ sleeps t q) (λ q. ticks < sleeps t q) r (λ q k. omega arith) s.0)

-- The test by which an item is due.
abbrev pub due : ℕ → ℕ → WaitPair → Bool
due t ticks p = leb (sleeps t p) ticks

select-due :
    (t ticks : ℕ) (moved left : List WaitPair)
    → All (λ p. sleeps t p ≤ ticks) moved
    → All (λ p. ticks < sleeps t p) left
    → (select (due t ticks) (moved ++ left) ≡ moved)
      × (select (λ p. not (due t ticks p)) (moved ++ left) ≡ left)
select-due t ticks [] [] hm hl = (refl, refl)
select-due t ticks [] (p ∷ left) hm hl =
    let d : leb (sleeps t p) ticks ≡ false = ground arith in
    let (a, b) = select-due t ticks [] left hm hl.1 in (rw d a, rw d (ap (λ l. p ∷ l) b))
select-due t ticks (p ∷ moved) left hm hl =
    let d : leb (sleeps t p) ticks ≡ true = ground arith in
    let (a, b) = select-due t ticks moved left hm.1 hl in (rw d (ap (λ l. p ∷ l) a), rw d b)

-- What is asleep at the old time is asleep and in order at the new one.
IsSorted-shift :
    (t c : ℕ) (w : List WaitPair)
    → t < 2 ^ 32
    → c < 2 ^ 32
    → All IsClock w
    → All (λ p. abs_wait_time t c < sleeps t p) w
    → IsSorted t w
    → IsSorted c w × All (λ p. 0 < sleeps c p) w
IsSorted-shift t c [] ht hc k a s = (tt, tt)
IsSorted-shift t c (p ∷ w) ht hc k a s =
    let (s', a') = IsSorted-shift t c w ht hc k.1 a.1 s.1 in
    let e : sleeps c p + abs_wait_time t c ≡ sleeps t p =
      abs_wait_time_shift t c p.wake_time ht hc k.0 (omega arith) in
    ((later w k.1 a.1 s.0, s'), (omega arith, a'))
  where
    later :
        (r : List WaitPair)
        → All IsClock r
        → All (λ q. abs_wait_time t c < sleeps t q) r
        → All (λ q. sleeps t p ≤ sleeps t q) r
        → All (λ q. sleeps c p ≤ sleeps c q) r
    later [] hk ha hs = tt
    later (q ∷ r) hk ha hs = (
      omega (
        arith,
        abs_wait_time_shift t c p.wake_time ht hc k.0 (omega arith),
        abs_wait_time_shift t c q.wake_time ht hc hk.0 (omega arith),
      ),
      later r hk.1 ha.1 hs.1,
    )

-- What `twq_notify` has done at the new time `c`: on success exactly the items that have slept
-- long enough have become ready, in the order of waking, and the queue is valid at the new time;
-- else memory ran out, and some of the items that are due still wait.
abbrev pub Woken : TimedWaitQueue → ℕ → Out → Type 0
Woken twq c (err, twq', mem') =
    (twq'.time ≡ c)
    × ((err ≡ success)
          × (ready twq'
              ≡ ready twq
                ++ map item_of (select (due twq.time (abs_wait_time twq.time c)) (waiting twq)))
          × (waiting twq'
              ≡ select (λ p. not (due twq.time (abs_wait_time twq.time c) p)) (waiting twq))
          × IsValid twq'
        ⊎ (err ≡ no_mem)
          × ((moved : List WaitPair) × (waiting twq ≡ moved ++ waiting twq')
              × (ready twq' ≡ ready twq ++ map item_of moved)
              × All (λ p. sleeps twq.time p ≤ abs_wait_time twq.time c) moved
              × (waiting twq' ≢ [])))

Woken-success :
    (twq twq' : TimedWaitQueue) (c : ℕ) (mem : Mem) (moved : List WaitPair)
    → c < 2 ^ 32
    → IsValid twq
    → waiting twq ≡ moved ++ waiting twq'
    → ready twq' ≡ ready twq ++ map item_of moved
    → All (λ p. sleeps twq.time p ≤ abs_wait_time twq.time c) moved
    → All (λ p. abs_wait_time twq.time c < sleeps twq.time p) (waiting twq')
    → Woken twq c (success, record twq' { time = c }, mem)
Woken-success twq twq' c mem moved hc v split hr hm hl =
    let t = twq.time in
    let (a, b) = select-due t (abs_wait_time t c) moved (waiting twq') hm hl in
    let clocks' : All IsClock (waiting twq') =
      (All-split IsClock moved (waiting twq') (subst (λ l. All IsClock l) split v.clocks)).1 in
    let sorted' : IsSorted t (waiting twq') =
      IsSorted-suffix t moved (waiting twq') (subst (λ l. IsSorted t l) split v.sorted) in
    let (s, aw) = IsSorted-shift t c (waiting twq') v.now hc clocks' hl sorted' in
    (
      refl,
      inl (
        refl,
        hr
            ∙ ap (λ l. ready twq ++ map item_of l)
                (sym a ∙ ap (λ l. select (due t (abs_wait_time t c)) l) (sym split)),
        sym b ∙ ap (λ l. select (λ p. not (due t (abs_wait_time t c) p)) l) (sym split),
        record { now = hc; clocks = clocks'; asleep = aw; sorted = s },
      ),
    )

-- For a valid queue, any clock reading, wrapped or not, and every pattern of failing allocations,
-- `twq_notify` readies in order exactly the items whose wake time has been reached, or those before
-- the one for which memory ran out; if it succeeds, the queue is valid at the new time.
pub twq_notify-wakes :
    (twq : TimedWaitQueue) (c : ℕ) (mem : Mem)
    → c < 2 ^ 32
    → IsValid twq
    → Woken twq c (twq_notify twq c mem)
unfolding twq_notify l_get_len
twq_notify-wakes twq c mem hc v =
    finish (notify_loop (suc (length (waiting twq))) (abs_wait_time twq.time c) twq mem) (
      notify_loop_lem (suc (length (waiting twq))) twq.time (abs_wait_time twq.time c) (waiting twq)
        (ready twq) twq mem refl refl refl (omega arith))
  where
    finish :
        (out : Out)
        → Notified twq.time (abs_wait_time twq.time c) (waiting twq) (ready twq) out
        → Woken twq c (out.0, record (out.1) { time = c }, out.2)
    finish out (moved, split, hr, hm, ht, inl (e, hw)) =
        rw e (Woken-success twq out.1 c out.2 moved hc v split hr hm (rw hw tt))
    finish out (moved, split, hr, hm, ht, inr (p, r, hw, inl (e, asleep))) = rw e (
        Woken-success twq out.1 c out.2 moved hc v split hr hm (
          rw hw (
            none_due twq.time (abs_wait_time twq.time c) p r
              (IsSorted-suffix twq.time moved (p ∷ r)
                (subst (λ l. IsSorted twq.time l) (split ∙ ap (λ l. moved ++ l) hw) v.sorted))
              asleep)))
    finish out (moved, split, hr, hm, ht, inr (p, r, hw, inr (e, is_due))) =
        (refl, inr (e, (moved, split, hr, hm, λ z. cc)))
