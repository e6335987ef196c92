-- ===== src/Kernel/Process/Threads/Tick.antt =====
-- Which threads a tick wakes, and in which order.
use fern_os.Prelude.{
  ℕ, suc, ◌≡◌, ◌+◌, ◌%◌, ◌^◌, ◌⊎◌, inl, inr, refl, ap, sym, subst, ◌∙◌, Bool, true, not, List, [],
  ◌∷◌, ◌++◌, map, select, arith, All, leb, ◌≤◌, length, length-map, elem, ◌==◌, if◌then◌else◌,
}
use fern_os.Err.{Err, success, no_mem, is_empty}
use fern_os.ListT.{l_get_len}
use fern_os.WaitQueue.Timed.{WaitPair, TimedWaitQueue, abs_wait_time, twq_notify}
use fern_os.WaitQueue.Timed.Clock.{sleeps, waiting, ready, IsValid}
use fern_os.WaitQueue.Timed.Notify.{item_of, due, twq_notify-wakes}
use fern_os.WaitQueue.Timed.Memory.{Serves, Fails, twq_notify-Pushed}
use fern_os.Kernel.Thread.{Kernel}
use fern_os.Kernel.Process.{KernelState}
use fern_os.Kernel.Process.Threads.Rousing.{roused, Emptied, tick_loop-Emptied}
use fern_os.Kernel.Process.Threads.{ring_advance, has_head, tick_loop, ks_tick}

IsValid-same :
    (twq twq' : TimedWaitQueue)
    → waiting twq' ≡ waiting twq
    → twq'.time ≡ twq.time
    → IsValid twq
    → IsValid twq'
IsValid-same twq twq' w c v = record {
  now = rw c v.now;
  clocks = rw w v.clocks;
  asleep = rw (w, c) v.asleep;
  sorted = rw (w, c) v.sorted;
}

-- `curr_tick` after a tick: it wraps.
abbrev pub next_tick : KernelState → ℕ
next_tick s = (s.curr_tick + 1) % 2 ^ 32

-- The running thread, if there was one before the tick, gives way to the next one.
abbrev pub advanced : List ℕ → List ℕ → List ℕ
advanced before schedule = if has_head before then ring_advance schedule else schedule

abbrev pub is_due : KernelState → WaitPair → Bool
is_due s = due s.kernel.sleep_q.time (abs_wait_time s.kernel.sleep_q.time (next_tick s))

-- The threads of the sleepers `moved` run again, in this order; then the schedule has advanced.
abbrev pub Moved : List WaitPair → KernelState → KernelState → Type 0
Moved moved s s' =
    (s'.curr_tick ≡ next_tick s)
    × ((s'.kernel.schedule ≡ advanced s.kernel.schedule (s.kernel.schedule ++ map item_of moved))
        × (((i : ℕ)
              → s'.kernel.threads i ≡ (
                  if elem i (map item_of moved)
                  then roused (s.kernel.threads i)
                  else s.kernel.threads i))
            × (ready s'.kernel.sleep_q ≡ [])))

-- The allocations for all who are due have succeeded, and they have moved; or there is a first allocation
-- that fails, for one who is due, just those before it have moved, and it and the others sleep on.
abbrev pub Ticked : KernelState → KernelState → Type 0
Ticked s s' =
    Moved (select (is_due s) (waiting s.kernel.sleep_q)) s s'
      × ((waiting s'.kernel.sleep_q ≡ select (λ p. not (is_due s p)) (waiting s.kernel.sleep_q))
          × (IsValid s'.kernel.sleep_q
              × Serves (length (select (is_due s) (waiting s.kernel.sleep_q))) s.kernel.mem))
    ⊎ ((moved : List WaitPair) × Moved moved s s'
        × (waiting s.kernel.sleep_q ≡ moved ++ waiting s'.kernel.sleep_q)
        × All (λ p. is_due s p ≡ true) moved
        × Fails (length moved) s.kernel.mem
        × ((p : WaitPair) × (left : List WaitPair) × (waiting s'.kernel.sleep_q ≡ p ∷ left)
            × (is_due s p ≡ true)))

le→leb : (a b : ℕ) → a ≤ b → leb a b ≡ true
le→leb a b h = ground arith

All-due :
    (s : KernelState) (moved : List WaitPair)
    → All
        (λ p. sleeps s.kernel.sleep_q.time p ≤ abs_wait_time s.kernel.sleep_q.time (next_tick s))
        moved
    → All (λ p. is_due s p ≡ true) moved
All-due s [] h = tt
All-due s (p ∷ moved) (early, h) = (le→leb _ _ early, All-due s moved h)

module _ (plgs_tick : KernelState → Err × KernelState) (s : KernelState) where
  -- The kernel that the loop starts with and the state after it.
  abbrev told : Kernel
  told =
      let (_, twq, mem') = twq_notify s.kernel.sleep_q (next_tick s) s.kernel.mem in
      record (s.kernel) { sleep_q = twq; mem = mem' }

  abbrev looped : Err × Kernel
  looped = tick_loop (suc (l_get_len told.sleep_q.ready_q)) told

  abbrev after : KernelState
  after = record s {
    curr_tick = next_tick s;
    kernel = record (looped.1) { schedule = advanced s.kernel.schedule (looped.1).schedule };
  }

  ks_tick-step :
      is_empty looped.0 ≡ true
      → ks_tick plgs_tick s ≡ (if next_tick s % 16 == 0 then plgs_tick after else (success, after))
  unfolding ks_tick
  ks_tick-step e = rw e refl

  looped-Emptied : Emptied told looped
  unfolding l_get_len
  looped-Emptied = tick_loop-Emptied (suc (l_get_len told.sleep_q.ready_q)) told (omega arith)

  after-Moved :
      (moved : List WaitPair) → ready told.sleep_q ≡ map item_of moved → Moved moved s after
  after-Moved moved e =
      let (_, ((schedule, threads), (none_ready, _))) = looped-Emptied in
      (
        refl,
        (
          ap (advanced s.kernel.schedule) (schedule ∙ ap (λ l. s.kernel.schedule ++ l) e),
          (
            λ i.
                threads i
                ∙ ap (λ l. if elem i l then roused (s.kernel.threads i) else s.kernel.threads i) e,
            none_ready,
          ),
        ),
      )

  moved-length :
      (moved : List WaitPair) (n : ℕ)
      → length (ready told.sleep_q) ≡ length (ready s.kernel.sleep_q) + n
      → ready s.kernel.sleep_q ≡ []
      → ready told.sleep_q ≡ map item_of moved
      → n ≡ length moved
  moved-length moved n more unready e =
      omega (arith, more, ap length e, ap length unready, length-map moved item_of)

  memory_served :
      (moved : List WaitPair)
      → (twq_notify s.kernel.sleep_q (next_tick s) s.kernel.mem).0 ≡ success
      → ready s.kernel.sleep_q ≡ []
      → ready told.sleep_q ≡ map item_of moved
      → Serves (length moved) s.kernel.mem
  memory_served moved ok unready e =
      let (n, more, mem_case) = twq_notify-Pushed s.kernel.sleep_q (next_tick s) s.kernel.mem in
      elim mem_case [
        | inl (_, served) ↦
            subst (λ i. Serves i s.kernel.mem) (moved-length moved n more unready e) served
        | inr (bad, _) ↦ absurd (ground (arith, ok, bad))
      ]

  memory_failed :
      (moved : List WaitPair)
      → (twq_notify s.kernel.sleep_q (next_tick s) s.kernel.mem).0 ≡ no_mem
      → ready s.kernel.sleep_q ≡ []
      → ready told.sleep_q ≡ map item_of moved
      → Fails (length moved) s.kernel.mem
        × ((p : WaitPair) × (left : List WaitPair) × (waiting told.sleep_q ≡ p ∷ left)
            × (is_due s p ≡ true))
  memory_failed moved bad unready e =
      let (n, more, mem_case) = twq_notify-Pushed s.kernel.sleep_q (next_tick s) s.kernel.mem in
      elim mem_case [
        | inl (ok, _) ↦ absurd (ground (arith, ok, bad))
        | inr (_, (failed, (p, left, first, early))) ↦ (
          subst (λ i. Fails i s.kernel.mem) (moved-length moved n more unready e) failed,
          (p, left, first, le→leb _ _ early),
        )
      ]

  -- A tick of the clock, at any time and with any pattern of failing allocations, where nothing was
  -- left ready: the allocations for the threads whose sleep is over all succeed, exactly these threads
  -- are put behind the schedule, in the order of their wake times, and the others sleep on in a valid
  -- queue; or a first such allocation fails, exactly the threads before the one that it is for are put there,
  -- whose sleep is over, and that one and the others sleep on. Then the schedule advances, unless the system was halted, and the
  -- plugins are told of every sixteenth tick.
  pub ks_tick-Ticked :
      IsValid s.kernel.sleep_q
      → ready s.kernel.sleep_q ≡ []
      → (s' : KernelState) × Ticked s s'
        × (ks_tick plgs_tick s ≡ (if next_tick s % 16 == 0 then plgs_tick s' else (success, s')))
  ks_tick-Ticked valid unready =
      let (err, (_, (_, (w, c)))) = looped-Emptied in
      (
        after,
        (elim (twq_notify-wakes s.kernel.sleep_q (next_tick s) s.kernel.mem (omega arith) valid).1 [
          | inl (ok, r, w', valid') ↦
              let e =
                r
                ∙ ap (λ l. l ++ map item_of (select (is_due s) (waiting s.kernel.sleep_q)))
                    unready in
              inl (
                after-Moved _ e,
                (
                  w ∙ w',
                  (
                    IsValid-same told.sleep_q looped.1.sleep_q w c valid',
                    memory_served _ ok unready e,
                  ),
                ),
              )
          | inr (bad, (moved, split, r, early, _)) ↦
              let e = r ∙ ap (λ l. l ++ map item_of moved) unready in
              let (failed, (p, left, first, early')) = memory_failed moved bad unready e in
              inr (
                moved,
                after-Moved moved e,
                split ∙ ap (λ l. moved ++ l) (sym w),
                All-due s moved early,
                failed,
                (p, left, w ∙ first, early'),
              )
        ]),
        ks_tick-step (ap is_empty err),
      )
