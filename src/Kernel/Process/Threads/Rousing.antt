-- ===== src/Kernel/Process/Threads/Rousing.antt =====
-- k_startup/src/state.c, the loop of `ks_tick` that puts the ready threads back into the schedule.
use fern_os.Prelude.{
  ℕ, zero, suc, ◌<◌, ◌≡◌, ◌⊎◌, inl, inr, refl, ap, sym, subst, ◌∙◌, none, some, List, [], ◌∷◌, ◌++◌,
  append_assoc, append-nil, arith, length, elem, if◌then◌else◌,
}
use fern_os.Err.{Err, success, empty}
use fern_os.WaitQueue.Timed.{TimedWaitQueue, Written, wrote, untouched, twq_pop}
use fern_os.WaitQueue.Timed.Clock.{waiting, ready}
use fern_os.WaitQueue.Timed.Leave.{twq_pop_lem}
use fern_os.Kernel.Thread.{Thread, Kernel, scheduled, detatched}
use fern_os.Kernel.Thread.Moves.{thread_schedule-Placed}
use fern_os.Kernel.Process.Threads.{rouse, tick_loop}

-- A thread that has slept runs on with the registers that it had.
abbrev pub roused : Thread → Thread
roused thr = record { state = scheduled; wq = none; wait_ctx = thr.wait_ctx; eax = thr.eax }

-- The threads `ts`, and no other, have been put behind the schedule, in this order.
abbrev pub Roused : List ℕ → Kernel → Kernel → Type 0
Roused ts k k' =
    (k'.schedule ≡ k.schedule ++ ts)
    × ((i : ℕ) → k'.threads i ≡ (if elem i ts then roused (k.threads i) else k.threads i))

rouse-Roused :
    (k : Kernel) (t : ℕ) → Roused (t ∷ []) k (rouse k t) × ((rouse k t).sleep_q ≡ k.sleep_q)
unfolding rouse
rouse-Roused k t =
    let (schedule, (threads, (_, (sleep_q, _)))) =
      thread_schedule-Placed k t (record (k.threads t) { wq = none; state = detatched }) refl in
    ((schedule, λ i. threads i ∙ ground arith), sleep_q)

Roused-cons :
    (t : ℕ) (ts : List ℕ) (k k1 k2 : Kernel)
    → Roused (t ∷ []) k k1
    → Roused ts k1 k2
    → Roused (t ∷ ts) k k2
Roused-cons t ts k k1 k2 (s1, h1) (s2, h2) = (
  s2 ∙ ap (λ l. l ++ ts) s1 ∙ append_assoc k.schedule (t ∷ []) ts,
  λ i. ground (arith, h1 i, h2 i),
)

-- One round of the loop, by what the pop has handed out.
abbrev round : ℕ → Kernel → Err × Written × TimedWaitQueue → Err × Kernel
round fuel k (err, item, twq) = elim item [
  | wrote (some t) ↦ tick_loop fuel (rouse (record k { sleep_q = twq }) t)
  | _ ↦ (err, record k { sleep_q = twq })
]

tick_loop-round :
    (fuel : ℕ) (k : Kernel) → tick_loop (suc fuel) k ≡ round fuel k (twq_pop k.sleep_q)
unfolding tick_loop
tick_loop-round fuel k = refl

-- A pop, as one equation.
twq_pop_cases :
    (twq : TimedWaitQueue)
    → (ready twq ≡ []) × (twq_pop twq ≡ (empty, untouched, twq))
      ⊎ ((t : ℕ) × (twq' : TimedWaitQueue) × (twq_pop twq ≡ (success, wrote (some t), twq'))
          × (ready twq ≡ t ∷ ready twq')
          × (waiting twq' ≡ waiting twq)
          × (twq'.time ≡ twq.time))
twq_pop_cases twq = elim (twq_pop_lem twq) [
  | inl (e, r, o, q) ↦ inl (e, λ j. (r j, o j, q j))
  | inr (t, e, r, o, w, c) ↦ inr (t, (twq_pop twq).2, λ j. (r j, o j, (twq_pop twq).2), e, w, c)
]

-- What the loop leaves: nothing is ready, and all that was has been put behind the schedule.
abbrev pub Emptied : Kernel → Err × Kernel → Type 0
Emptied k (err, k') =
    (err ≡ empty)
    × (Roused (ready k.sleep_q) k k'
        × ((ready k'.sleep_q ≡ [])
            × ((waiting k'.sleep_q ≡ waiting k.sleep_q) × (k'.sleep_q.time ≡ k.sleep_q.time))))

pub tick_loop-Emptied :
    (fuel : ℕ) (k : Kernel) → length (ready k.sleep_q) < fuel → Emptied k (tick_loop fuel k)
tick_loop-Emptied zero k h = elim h [ ]
tick_loop-Emptied (suc fuel) k h = elim (twq_pop_cases k.sleep_q) [
  | inl (none_ready, e) ↦ subst (Emptied k) (sym (tick_loop-round fuel k ∙ ap (round fuel k) e)) (
    refl,
    (
      (rw (none_ready, append-nil k.schedule) refl, λ i. rw none_ready refl),
      (none_ready, (refl, refl)),
    ),
  )
  | inr (t, twq, e, first, w, c) ↦
      let k0 = record k { sleep_q = twq } in
      let k1 = rouse k0 t in
      let (roused1, sleep1) = rouse-Roused k0 t in
      let fewer : length (ready k1.sleep_q) < fuel =
        omega (arith, ap (λ q. length (ready q)) sleep1, ap length first) in
      let (err, (roused2, (r2, (w2, c2)))) = tick_loop-Emptied fuel k1 fewer in
      let k2 = (tick_loop fuel k1).1 in
      subst (Emptied k) (sym (tick_loop-round fuel k ∙ ap (round fuel k) e)) (
        err,
        (
          subst (λ l. Roused l k k2) (ap (λ q. t ∷ ready q) sleep1 ∙ sym first)
              (Roused-cons t (ready k1.sleep_q) k k1 k2 roused1 roused2),
          (
            r2,
            (w2 ∙ (ap waiting sleep1 ∙ w), c2 ∙ (ap (λ (q : TimedWaitQueue). q.time) sleep1 ∙ c)),
          ),
        ),
      )
]
