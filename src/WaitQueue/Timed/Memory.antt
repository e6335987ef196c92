-- ===== src/WaitQueue/Timed/Memory.antt =====
-- How much memory `twq_notify` takes: one allocation for each item that it readies.
use fern_os.Prelude.{
  List, ◌≤◌, ◌∷◌, ℕ, zero, suc, ◌+◌, ◌≡◌, ◌⊎◌, inl, inr, refl, ap, sym, subst, ◌∙◌, Bool-cases,
  List-cases, true, false, [], arith, length, length-append, dec_lt,
}
use fern_os.Err.{success, no_mem, Mem, al_malloc}
use fern_os.ListT.{l_push_back, l_get_len}
use fern_os.ListT.Cells.{cells-snoc}
use fern_os.WaitQueue.Timed.{
  WaitPair, TimedWaitQueue, abs_wait_time, ready_head, notify_loop, twq_notify,
}
use fern_os.WaitQueue.Timed.Clock.{sleeps, waiting, ready}
use fern_os.WaitQueue.Timed.Notify.{Out, notify_loop-nil, notify_loop-asleep, notify_loop-due}

-- The next `n` allocations succeed.
abbrev pub Serves : ℕ → Mem → Type 0
Serves zero mem = Unit
Serves (suc n) mem = ((al_malloc mem).0 ≡ true) × Serves n (al_malloc mem).1

-- So they do, and the one after them fails.
abbrev pub Fails : ℕ → Mem → Type 0
Fails zero mem = (al_malloc mem).0 ≡ false
Fails (suc n) mem = ((al_malloc mem).0 ≡ true) × Fails n (al_malloc mem).1

-- Of `n` items that have become ready each took an allocation; the call failed just if one more failed,
-- and then that was for the first item that still waits, whose wait was at most `ticks`.
abbrev pub Pushed : ℕ → TimedWaitQueue → Mem → Out → Type 0
Pushed ticks twq mem (err, twq', mem') =
    (n : ℕ) × (length (ready twq') ≡ length (ready twq) + n)
    × ((err ≡ success) × Serves n mem
        ⊎ (err ≡ no_mem)
          × (Fails n mem
              × ((p : WaitPair) × (w : List WaitPair) × (waiting twq' ≡ p ∷ w)
                  × (sleeps twq.time p ≤ ticks))))

ready_head-memory :
    (p : WaitPair) (twq : TimedWaitQueue) (mem : Mem)
    → let (err, twq', mem') = ready_head p twq mem in
      ((al_malloc mem).0 ≡ true)
        × (err ≡ success)
        × (length (ready twq') ≡ suc (length (ready twq)))
        × (mem' ≡ (al_malloc mem).1)
        × (twq'.time ≡ twq.time)
      ⊎ ((al_malloc mem).0 ≡ false)
        × (err ≡ no_mem)
        × (ready twq' ≡ ready twq)
        × (waiting twq' ≡ waiting twq)
unfolding ready_head l_push_back
ready_head-memory p twq mem = elim (Bool-cases (al_malloc mem).0) [
  | inl ok ↦ rw ok (
      inl (
        refl,
        refl,
        ap length (cells-snoc twq.ready_q.before twq.ready_q.rest p.item)
            ∙ (length-append (ready twq) (p.item ∷ []) ∙ omega arith),
        refl,
        refl,
      ))
  | inr bad ↦ rw bad (inr (refl, refl, refl, refl))
]

Pushed-more :
    (ticks : ℕ) (twq twq' : TimedWaitQueue) (mem mem' : Mem) (out : Out)
    → (al_malloc mem).0 ≡ true
    → mem' ≡ (al_malloc mem).1
    → twq'.time ≡ twq.time
    → length (ready twq') ≡ suc (length (ready twq))
    → Pushed ticks twq' mem' out
    → Pushed ticks twq mem out
Pushed-more ticks twq twq' mem mem' out ok next clock longer (n, more, inl (done, served)) =
    (suc n, omega (arith, more, longer), inl (done, (ok, subst (Serves n) next served)))
Pushed-more ticks twq twq' mem mem' out ok next clock longer
      (n, more, inr (bad, (fails, (p, w, left, early)))) =
    (
      suc n,
      omega (arith, more, longer),
      inr (
        bad,
        (
          (ok, subst (Fails n) next fails),
          (p, w, left, subst (λ t. sleeps t p ≤ ticks) clock early),
        ),
      ),
    )

idle_notification :
    (ticks : ℕ) (twq : TimedWaitQueue) (mem : Mem) → Pushed ticks twq mem (success, twq, mem)
idle_notification ticks twq mem = (0, omega arith, inl (refl, tt))

notify_loop-Pushed :
    (fuel ticks : ℕ) (twq : TimedWaitQueue) (mem : Mem)
    → Pushed ticks twq mem (notify_loop fuel ticks twq mem)
unfolding notify_loop
notify_loop-Pushed zero ticks twq mem = idle_notification ticks twq mem
notify_loop-Pushed (suc fuel) ticks twq mem = elim (List-cases (waiting twq)) [
  | inl e ↦
      subst (Pushed ticks twq mem) (sym (notify_loop-nil fuel ticks twq mem e))
        (idle_notification ticks twq mem)
  | inr (p, w, e) ↦ elim (dec_lt ticks (sleeps twq.time p)) [
    | yes asleep ↦
        subst (Pushed ticks twq mem) (sym (notify_loop-asleep fuel ticks twq mem p w e asleep))
          (idle_notification ticks twq mem)
    | no awake ↦
        let (on, off) = notify_loop-due fuel ticks twq mem p w e (omega arith) in
        let (err, twq', mem') = ready_head p twq mem in
        elim (ready_head-memory p twq mem) [
          | inl (ok, done, longer, next, clock) ↦ subst (Pushed ticks twq mem) (sym (on done)) (
              Pushed-more ticks twq twq' mem mem' (notify_loop fuel ticks twq' mem') ok next clock
                longer (notify_loop-Pushed fuel ticks twq' mem'))
          | inr (bad, failed, same, left) ↦
              subst (Pushed ticks twq mem) (sym (off failed))
                (0, ap length same ∙ omega arith, inr (refl, (bad, (p, w, left ∙ e, omega arith))))
        ]
  ]
]

pub twq_notify-Pushed :
    (twq : TimedWaitQueue) (c : ℕ) (mem : Mem)
    → Pushed (abs_wait_time twq.time c) twq mem (twq_notify twq c mem)
unfolding twq_notify
twq_notify-Pushed twq c mem =
    notify_loop-Pushed (suc (l_get_len twq.wait_q)) (abs_wait_time twq.time c) twq mem
