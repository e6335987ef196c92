-- ===== src/Kernel/Thread/Waking.antt =====
-- What becomes of the threads of a wait queue that is woken.
use fern_os.Prelude.{
  ℕ, zero, subst, suc, ◌<◌, ◌≡◌, ◌≢◌, ◌⊎◌, inl, inr, refl, ap, sym, ◌∙◌, Bool, true, none, some,
  List, [], ◌∷◌, ◌++◌, append_assoc, append-nil, arith, length, replicate, elem, if◌then◌else◌,
}
use fern_os.Err.{Err, success, no_mem, empty, Mem}
use fern_os.ListT.{l_get_len}
use fern_os.WaitQueue.Basic.{BasicWaitQueue, bwq_notify_all, bwq_notify, bwq_pop}
use fern_os.WaitQueue.Basic.Laws.{waiting, ready, NotifiedAll, bwq_notify-all, bwq_pop_lem}
use fern_os.Kernel.Thread.{
  Thread, scheduled, detatched, set_thread, ring_element_detach, thread_detach, detach_from, Kernel,
  set_queue, wake_thread, wake_loop, wake_all, bwq_wake_all_threads,
}

-- A thread that has been woken with a status.
abbrev pub woken : Bool → Err → Thread → Thread
woken ctx status thr = record {
  state = scheduled;
  wq = none;
  wait_ctx = if ctx then replicate 6 0 else thr.wait_ctx;
  eax = status;
}

-- The kernel `k'` is `k` after the threads `ts` have been woken and put behind the schedule; every
-- other thread is as it was.
abbrev pub Woke : Bool → Err → List ℕ → Kernel → Kernel → Type 0
Woke ctx status ts k k' =
    (k'.schedule ≡ k.schedule ++ ts)
    × ((i : ℕ) → k'.threads i ≡ (if elem i ts then woken ctx status (k.threads i) else k.threads i))

-- The queues other than `q` are as they were.
abbrev pub OthersSame : ℕ → Kernel → Kernel → Type 0
OthersSame q k k' = (p : ℕ) → p ≢ q → k'.queues p ≡ k.queues p

wake_thread_lem :
    (ctx : Bool) (status : Err) (k : Kernel) (t : ℕ)
    → let k' = wake_thread ctx status k t in
      Woke ctx status (t ∷ []) k k' × (k'.queues ≡ k.queues) × (k'.mem ≡ k.mem)
unfolding wake_thread
wake_thread_lem ctx status k t = ((ground arith, λ i. ground arith), ground arith, ground arith)

Woke-cons :
    (ctx : Bool) (status : Err) (t : ℕ) (ts : List ℕ) (k k1 k2 : Kernel)
    → Woke ctx status (t ∷ []) k k1
    → Woke ctx status ts k1 k2
    → Woke ctx status (t ∷ ts) k k2
Woke-cons ctx status t ts k k1 k2 (s1, h1) (s2, h2) = (
  s2 ∙ ap (λ l. l ++ ts) s1 ∙ append_assoc k.schedule (t ∷ []) ts,
  λ i. ground (arith, h1 i, h2 i),
)

-- What the loop leaves behind: nothing is ready on `q`, and who was ready is scheduled.
abbrev pub Woken : Bool → Err → ℕ → Kernel → Kernel → Type 0
Woken ctx status q k k' =
    Woke ctx status (ready (k.queues q)) k k'
    × (ready (k'.queues q) ≡ [])
    × (waiting (k'.queues q) ≡ waiting (k.queues q))
    × OthersSame q k k'
    × (k'.mem ≡ k.mem)

wake_loop-empty :
    (fuel : ℕ) (ctx : Bool) (status : Err) (q : ℕ) (k : Kernel) (bwq : BasicWaitQueue)
    → bwq_pop (k.queues q) ≡ (empty, none, bwq)
    → wake_loop (suc fuel) ctx status q k ≡ (empty, set_queue k q bwq)
unfolding wake_loop
wake_loop-empty fuel ctx status q k bwq e =
    ap
      (λ p.
        let (err, item, bwq) = p in
        elim item [
          | none ↦ (err, set_queue k q bwq)
          | some t ↦ wake_loop fuel ctx status q (wake_thread ctx status (set_queue k q bwq) t)
        ])
      e

wake_loop-pop :
    (fuel : ℕ) (ctx : Bool) (status : Err) (q t : ℕ) (k : Kernel) (bwq : BasicWaitQueue)
    → bwq_pop (k.queues q) ≡ (success, some t, bwq)
    → wake_loop (suc fuel) ctx status q k
      ≡ wake_loop fuel ctx status q (wake_thread ctx status (set_queue k q bwq) t)
unfolding wake_loop
wake_loop-pop fuel ctx status q t k bwq e =
    ap
      (λ p.
        let (err, item, bwq) = p in
        elim item [
          | none ↦ (err, set_queue k q bwq)
          | some t ↦ wake_loop fuel ctx status q (wake_thread ctx status (set_queue k q bwq) t)
        ])
      e

-- A pop, as one equation.
bwq_pop_cases :
    (bwq : BasicWaitQueue)
    → (ready bwq ≡ []) × (bwq_pop bwq ≡ (empty, none, bwq))
      ⊎ ((t : ℕ) × (bwq' : BasicWaitQueue) × (bwq_pop bwq ≡ (success, some t, bwq'))
          × (ready bwq ≡ t ∷ ready bwq')
          × (waiting bwq' ≡ waiting bwq))
bwq_pop_cases bwq = elim (bwq_pop_lem bwq) [
  | inl (e, r, i, s) ↦ inl (e, λ j. (r j, i j, s j))
  | inr (t, e, r, i, w) ↦ inr (t, (bwq_pop bwq).2, λ j. (r j, i j, (bwq_pop bwq).2), e, w)
]

set_queue-other : (k : Kernel) (q : ℕ) (bwq : BasicWaitQueue) → OthersSame q k (set_queue k q bwq)
set_queue-other k q bwq p h = ground arith

set_queue-at : (k : Kernel) (q : ℕ) (bwq : BasicWaitQueue) → (set_queue k q bwq).queues q ≡ bwq
set_queue-at k q bwq = ground arith

Woken-nil :
    (ctx : Bool) (status : Err) (q : ℕ) (k : Kernel)
    → ready (k.queues q) ≡ []
    → Woken ctx status q k (set_queue k q (k.queues q))
Woken-nil ctx status q k e =
    let at = set_queue-at k q (k.queues q) in
    (
      (rw (e, append-nil k.schedule), λ i. rw e),
      ap ready at ∙ e,
      ap waiting at,
      set_queue-other k q (k.queues q),
      refl,
    )

Woken-cons :
    (ctx : Bool) (status : Err) (q t : ℕ) (k k2 : Kernel) (bwq : BasicWaitQueue)
    → ready (k.queues q) ≡ t ∷ ready bwq
    → waiting bwq ≡ waiting (k.queues q)
    → Woken ctx status q (wake_thread ctx status (set_queue k q bwq) t) k2
    → Woken ctx status q k k2
Woken-cons ctx status q t k k2 bwq e w (woke, none_ready, w2, others, m) =
    let k1 = set_queue k q bwq in
    let (woke1, same, m1) = wake_thread_lem ctx status k1 t in
    let at : (wake_thread ctx status k1 t).queues q ≡ bwq =
      ap (λ f. f q) same ∙ set_queue-at k q bwq in
    (
      rw e (
          Woke-cons ctx status t (ready bwq) k1 (wake_thread ctx status k1 t) k2 woke1
            (subst (λ b. Woke ctx status (ready b) (wake_thread ctx status k1 t) k2) at woke)),
      none_ready,
      w2 ∙ ap waiting at ∙ w,
      λ p h. others p h ∙ ap (λ f. f p) same ∙ set_queue-other k q bwq p h,
      m ∙ m1,
    )

wake_loop_lem :
    (fuel : ℕ) (ctx : Bool) (status : Err) (q : ℕ) (k : Kernel)
    → length (ready (k.queues q)) < fuel
    → let (err, k') = wake_loop fuel ctx status q k in (err ≡ empty) × Woken ctx status q k k'
wake_loop_lem zero ctx status q k h = elim h [ ]
wake_loop_lem (suc fuel) ctx status q k h = elim (bwq_pop_cases (k.queues q)) [
  | inl (e, p) ↦
      rw (wake_loop-empty fuel ctx status q k (k.queues q) p) (refl, Woken-nil ctx status q k e)
  | inr (t, bwq, p, e, w) ↦
      let k1 = wake_thread ctx status (set_queue k q bwq) t in
      let at : k1.queues q ≡ bwq =
        ap (λ f. f q) (wake_thread_lem ctx status (set_queue k q bwq) t).1 ∙ set_queue-at k q bwq in
      let (r, done) =
        wake_loop_lem fuel ctx status q k1
          (omega (arith, ap length (sym e), ap (λ b. length (ready b)) at)) in
      rw (wake_loop-pop fuel ctx status q t k bwq p)
        (r, Woken-cons ctx status q t k (wake_loop fuel ctx status q k1).1 bwq e w done)
]

-- A threads' queue is woken: either every thread that waited in `bwq` is scheduled with the status,
-- in the order of the queue, and the queue is empty; or memory ran out and no thread moved.
abbrev pub WokenAll : Bool → Err → ℕ → Kernel → Err × Kernel → Type 0
WokenAll ctx status q k (err, k') =
    (err ≡ success)
      × Woke ctx status (ready (k.queues q) ++ waiting (k.queues q)) k k'
      × (ready (k'.queues q) ≡ [])
      × (waiting (k'.queues q) ≡ [])
      × OthersSame q k k'
    ⊎ (err ≡ no_mem)
      × (k'.schedule ≡ k.schedule)
      × (k'.threads ≡ k.threads)
      × (ready (k'.queues q) ++ waiting (k'.queues q) ≡ ready (k.queues q) ++ waiting (k.queues q))
      × OthersSame q k k'

wake_all-failed :
    (ctx : Bool) (mode : ℕ) (status : Err) (q : ℕ) (k : Kernel) (bwq : BasicWaitQueue) (mem' : Mem)
    → bwq_notify (k.queues q) mode k.mem ≡ (no_mem, bwq, mem')
    → wake_all ctx mode status q k ≡ (no_mem, record (set_queue k q bwq) { mem = mem' })
unfolding wake_all
wake_all-failed ctx mode status q k bwq mem' e = rw e refl

-- A notification that succeeds is followed by the loop, which empties the ready queue.
wake_all-success :
    (ctx : Bool) (mode : ℕ) (status : Err) (q : ℕ) (k : Kernel) (bwq : BasicWaitQueue) (mem' : Mem)
    → bwq_notify (k.queues q) mode k.mem ≡ (success, bwq, mem')
    → let (err, k') = wake_all ctx mode status q k in
      (err ≡ success) × Woken ctx status q (record (set_queue k q bwq) { mem = mem' }) k'
unfolding wake_all l_get_len
wake_all-success ctx mode status q k bwq mem' e =
    let k1 : Kernel = record (set_queue k q bwq) { mem = mem' } in
    let (r, done) =
      wake_loop_lem (suc (l_get_len bwq.ready_q)) ctx status q k1
        (omega (arith, ap (λ b. length (ready b)) (set_queue-at k q bwq))) in
    rw (e, r) (refl, done)

wake_all-NotifiedAll :
    (ctx : Bool) (mode : ℕ) (status : Err) (q : ℕ) (k : Kernel)
    → NotifiedAll (k.queues q) (bwq_notify (k.queues q) mode k.mem)
    → WokenAll ctx status q k (wake_all ctx mode status q k)
wake_all-NotifiedAll ctx mode status q k (moved, hw, hr, inl (r, none_left)) =
    let (err, bwq, mem') = bwq_notify (k.queues q) mode k.mem in
    let e : bwq_notify (k.queues q) mode k.mem ≡ (success, bwq, mem') = λ i. (r i, bwq, mem') in
    let (done, out) = wake_all-success ctx mode status q k bwq mem' e in
    let (woke, none_ready, w, others, m) = out in
    let at = set_queue-at k q bwq in
    let hw0 : waiting (k.queues q) ≡ moved =
      hw ∙ ap (λ l. moved ++ l) none_left ∙ append-nil moved in
    inl (
      done,
      subst (λ l. Woke ctx status l k (wake_all ctx mode status q k).1)
          (ap ready at ∙ hr ∙ ap (λ l. ready (k.queues q) ++ l) (sym hw0)) woke,
      none_ready,
      w ∙ ap waiting at ∙ none_left,
      λ p h. others p h ∙ set_queue-other k q bwq p h,
    )
wake_all-NotifiedAll ctx mode status q k (moved, hw, hr, inr (r, some_left)) =
    let (err, bwq, mem') = bwq_notify (k.queues q) mode k.mem in
    let e : bwq_notify (k.queues q) mode k.mem ≡ (no_mem, bwq, mem') = λ i. (r i, bwq, mem') in
    let at = set_queue-at k q bwq in
    rw (wake_all-failed ctx mode status q k bwq mem' e) (
      inr (
        refl,
        refl,
        refl,
        ap (λ b. ready b ++ waiting b) at
            ∙ ap (λ l. l ++ waiting bwq) hr
            ∙ append_assoc (ready (k.queues q)) moved (waiting bwq)
            ∙ ap (λ l. ready (k.queues q) ++ l) (sym hw),
        set_queue-other k q bwq,
      ))

-- Whoever notifies all and wakes the ready ones, clearing the wait context or not.
pub wake_all-all :
    (ctx : Bool) (q : ℕ) (status : Err) (k : Kernel)
    → WokenAll ctx status q k (wake_all ctx bwq_notify_all status q k)
wake_all-all ctx q status k =
    wake_all-NotifiedAll ctx bwq_notify_all status q k (bwq_notify-all (k.queues q) k.mem)

-- For every wait queue `q`, status and memory, `bwq_wake_all_threads` does one of two things.
-- Either it succeeds: the threads that were on `q`, and no other, are scheduled behind the threads
-- scheduled before, in the order of the queue, with the status as the result of their system call
-- and no queue to wait on; and `q` is empty. Or it returns `no_mem`: the schedule and every thread
-- are as before, and `q` holds the same threads in the same order. Other queues stay as they are.
pub bwq_wake_all_threads-all :
    (q : ℕ) (status : Err) (k : Kernel) → WokenAll true status q k (bwq_wake_all_threads q status k)
unfolding bwq_wake_all_threads
bwq_wake_all_threads-all q status k = wake_all-all true q status k

pub thread_detach-scheduled :
    (k : Kernel) (t : ℕ)
    → (k.threads t).state ≡ scheduled
    → thread_detach k t
      ≡ set_thread
          (record k { schedule = ring_element_detach k.schedule t })
          t
          (record (k.threads t) { state = detatched })
unfolding thread_detach detach_from
thread_detach-scheduled k t e = ap (λ st. detach_from st k t) e
