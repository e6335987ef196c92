-- ===== src/Kernel/Process/Delivery.antt =====
-- What becomes of a signal that a process allows, and of the threads that wait for it.
use fern_os.Prelude.{
  ℕ, ◌<◌, ◌≡◌, ◌⊎◌, inl, inr, refl, ap, ap₂, sym, subst, ◌∙◌, true, false, none, some, List, [],
  ◌∷◌, ◌++◌, arith, set, select, get_or, ◌==◌, if◌then◌else◌, Bool-cases,
}
use fern_os.Err.{success, no_mem, is_success, is_empty}
use fern_os.ListT.{head?, drop_head}
use fern_os.WaitQueue.Vector.{
  WaitPair, VectorWaitQueue, accepts, tag, pair_item, vwq_notify_first, vwq_notify, vwq_pop,
}
use fern_os.WaitQueue.Vector.Laws.{waiting, ready, vwq_notify-first, vwq_pop_lem}
use fern_os.Kernel.Thread.{Thread, scheduled, detatched, Kernel, set_thread, set_vector}
use fern_os.Kernel.Thread.Moves.{Placed, thread_schedule-Placed}
use fern_os.Kernel.Process.{
  Process, KernelState, set_proc, set_mem, Out, returned, set_bit, word_bytes, put_user, release,
  wake_signalled, deliver,
}

pub put_user-kernel :
    (s : KernelState) (p u_ptr : ℕ) (bytes : List ℕ) → (put_user s p u_ptr bytes).kernel ≡ s.kernel
put_user-kernel s p u_ptr bytes = elim (Bool-cases (u_ptr == 0)) [
  | inl null ↦ rw (put_user, null) refl
  | inr ptr ↦ rw (put_user, ptr) refl
]

pub put_user-procs :
    (s : KernelState) (p u_ptr : ℕ) (bytes : List ℕ) → (put_user s p u_ptr bytes).procs ≡ s.procs
put_user-procs s p u_ptr bytes = elim (Bool-cases (u_ptr == 0)) [
  | inl null ↦ rw (put_user, null) refl
  | inr ptr ↦ rw (put_user, ptr) refl
]

-- A thread that runs again after a wait that ended well.
abbrev pub resumed : Thread → Thread
resumed thr = record {
  state = scheduled;
  wq = none;
  wait_ctx = set thr.wait_ctx 0 0;
  eax = success;
}

-- The thread `t`, and no other, has been put behind the schedule, and its wait has ended well.
abbrev pub Resumed : ℕ → Kernel → Kernel → Type 0
Resumed t k k' =
    (k'.schedule ≡ k.schedule ++ (t ∷ []))
    × ((i : ℕ) → k'.threads i ≡ (if i == t then resumed (k.threads t) else k.threads i))

release-Placed :
    (s : KernelState) (t : ℕ)
    → let thr = s.kernel.threads t in
      Placed t
        (record thr { wait_ctx = set thr.wait_ctx 0 0; wq = none; state = detatched })
        s.kernel
        (release s t).kernel
unfolding release
release-Placed s t = thread_schedule-Placed s.kernel t _ refl

set_eax-Resumed :
    (k k1 : Kernel) (t : ℕ)
    → Placed t
        (record (k.threads t) {
          wait_ctx = set (k.threads t).wait_ctx 0 0;
          wq = none;
          state = detatched;
        })
        k
        k1
    → Resumed t k (set_thread k1 t (record (k1.threads t) { eax = success }))
set_eax-Resumed k k1 t (schedule, (threads, rest)) =
    let at : k1.threads t ≡ record (resumed (k.threads t)) { eax = (k.threads t).eax } =
      threads t ∙ ground arith in
    (
      schedule,
      λ i.
          ap (λ (x : Thread). if i == t then record x { eax = success } else k1.threads i) at
          ∙ elim (Bool-cases (i == t)) [ inl e ↦ rw e refl | inr e ↦ rw e (threads i ∙ rw e refl) ],
    )

wake_signalled_lem :
    (s : KernelState) (p sid t : ℕ)
    → let s' = wake_signalled s p sid t in
      Resumed t s.kernel s'.kernel
      × ((s'.kernel.vectors ≡ s.kernel.vectors)
          × (s'.procs
              ≡ (set_proc s p
                  (record (s.procs p) { sig_vec = set_bit (s.procs p).sig_vec sid false })).procs))
unfolding wake_signalled release
wake_signalled_lem s p sid t =
    let cleared =
      set_proc s p (record (s.procs p) { sig_vec = set_bit (s.procs p).sig_vec sid false }) in
    let u_sid = get_or (s.kernel.threads t).wait_ctx 0 0 in
    let same = put_user-kernel (release cleared t) (s.thread_proc t) u_sid (word_bytes sid) in
    let placed = release-Placed cleared t in
    (
      subst (λ k1. Resumed t s.kernel (set_thread k1 t (record (k1.threads t) { eax = success })))
          (sym same) (set_eax-Resumed s.kernel (release cleared t).kernel t placed),
      (
        ap (λ (x : Kernel). x.vectors) same ∙ placed.1.1.0,
        put_user-procs (release cleared t) (s.thread_proc t) u_sid (word_bytes sid),
      ),
    )

abbrev pub queue_of : KernelState → ℕ → VectorWaitQueue
queue_of s p = s.kernel.vectors (s.procs p).signal_queue

pub set_proc-at : (s : KernelState) (p : ℕ) (proc : Process) → (set_proc s p proc).procs p ≡ proc
set_proc-at s p proc = ground arith

wake_signalled-queue :
    (s : KernelState) (p sid t : ℕ)
    → (queue_of (wake_signalled s p sid t) p ≡ queue_of s p)
      × (((wake_signalled s p sid t).procs p).sig_vec ≡ set_bit (s.procs p).sig_vec sid false)
wake_signalled-queue s p sid t =
    let (_, (vectors, procs)) = wake_signalled_lem s p sid t in
    let proc = record (s.procs p) { sig_vec = set_bit (s.procs p).sig_vec sid false } in
    let at : (wake_signalled s p sid t).procs p ≡ proc =
      ap (λ f. f p) procs ∙ set_proc-at s p proc in
    (ap₂ (λ f (x : Process). f x.signal_queue) vectors at, ap (λ (x : Process). x.sig_vec) at)

-- The state after the notification of the queue, and after the pop.
abbrev notified : KernelState → ℕ → ℕ → KernelState
notified s p sid =
    let (_, vwq, mem') = vwq_notify (queue_of s p) sid vwq_notify_first s.kernel.mem in
    set_mem (record s { kernel = set_vector s.kernel (s.procs p).signal_queue vwq }) mem'

abbrev popped : KernelState → ℕ → ℕ → KernelState
popped s p sid =
    let (_, vwq, _) = vwq_notify (queue_of s p) sid vwq_notify_first s.kernel.mem in
    let s1 = notified s p sid in
    record s1 { kernel = set_vector s1.kernel (s.procs p).signal_queue (vwq_pop vwq).3 }

module _ (s : KernelState) (p sid : ℕ) where
  deliver-failed :
      is_success (vwq_notify (queue_of s p) sid vwq_notify_first s.kernel.mem).0 ≡ false
      → deliver s p sid
        ≡ returned
            (vwq_notify (queue_of s p) sid vwq_notify_first s.kernel.mem).0
            (notified s p sid)
  unfolding deliver
  deliver-failed bad = rw bad refl

  deliver-none :
      is_success (vwq_notify (queue_of s p) sid vwq_notify_first s.kernel.mem).0 ≡ true
      → (vwq_pop (vwq_notify (queue_of s p) sid vwq_notify_first s.kernel.mem).1).1 ≡ none
      → is_empty (vwq_pop (vwq_notify (queue_of s p) sid vwq_notify_first s.kernel.mem).1).0 ≡ true
      → deliver s p sid ≡ returned success (popped s p sid)
  unfolding deliver
  deliver-none ok gone empty = rw (ok, gone, empty) refl

  deliver-some :
      (t : ℕ)
      → is_success (vwq_notify (queue_of s p) sid vwq_notify_first s.kernel.mem).0 ≡ true
      → (vwq_pop (vwq_notify (queue_of s p) sid vwq_notify_first s.kernel.mem).1).1 ≡ some t
      → deliver s p sid ≡ returned success (wake_signalled (popped s p sid) p sid t)
  unfolding deliver
  deliver-some t ok there = rw (ok, there) refl

-- The threads of the vector wait queue `q` that come from the queue `vwq`.
pub set_vector-at :
    (k : Kernel) (q : ℕ) (vwq : VectorWaitQueue) → (set_vector k q vwq).vectors q ≡ vwq
set_vector-at k q vwq = ground arith

notified-queue :
    (s : KernelState) (p sid : ℕ)
    → queue_of (notified s p sid) p
      ≡ (vwq_notify (queue_of s p) sid vwq_notify_first s.kernel.mem).1
notified-queue s p sid = set_vector-at s.kernel (s.procs p).signal_queue _

popped-queue :
    (s : KernelState) (p sid : ℕ)
    → queue_of (popped s p sid) p
      ≡ (vwq_pop (vwq_notify (queue_of s p) sid vwq_notify_first s.kernel.mem).1).3
popped-queue s p sid = set_vector-at (notified s p sid).kernel (s.procs p).signal_queue _

-- What `deliver` has done for a process none of whose threads is ready: no thread waits for the signal,
-- and nothing has changed; or the first thread that waits for it runs on, and the bit is cleared, or
-- memory has run out and nothing has changed.
abbrev pub Delivered : KernelState → ℕ → ℕ → Out → Type 0
Delivered s p sid (returned err s') =
    (select (accepts sid) (waiting (queue_of s p)) ≡ [])
      × ((err ≡ success)
          × ((waiting (queue_of s' p) ≡ waiting (queue_of s p))
              × ((ready (queue_of s' p) ≡ [])
                  × ((s'.procs ≡ s.procs)
                      × ((s'.kernel.schedule ≡ s.kernel.schedule)
                          × (s'.kernel.threads ≡ s.kernel.threads))))))
    ⊎ ((seen : List WaitPair) × (w : WaitPair) × (left : List WaitPair) × (waiting (queue_of s p)
          ≡ seen ++ (w ∷ left))
        × (select (accepts sid) seen ≡ [])
        × (accepts sid w ≡ true)
        × ((err ≡ success)
              × ((waiting (queue_of s' p) ≡ seen ++ left)
                  × ((ready (queue_of s' p) ≡ [])
                      × (((s'.procs p).sig_vec ≡ set_bit (s.procs p).sig_vec sid false)
                          × Resumed w.item s.kernel s'.kernel)))
            ⊎ (err ≡ no_mem)
              × ((waiting (queue_of s' p) ≡ waiting (queue_of s p))
                  × ((ready (queue_of s' p) ≡ []) × (s'.kernel.threads ≡ s.kernel.threads)))))
Delivered s p sid _ = ⊥

pub deliver-Delivered :
    (s : KernelState) (p sid : ℕ)
    → sid < 32
    → ready (queue_of s p) ≡ []
    → Delivered s p sid (deliver s p sid)
deliver-Delivered s p sid small unready =
    let q = (s.procs p).signal_queue in
    let (err, vwq, mem') = vwq_notify (queue_of s p) sid vwq_notify_first s.kernel.mem in
    elim (vwq_notify-first (queue_of s p) sid s.kernel.mem small) [
      | inl (nobody, ok, w, r) ↦ elim (vwq_pop_lem vwq) [
        | inl (_, is_empty', gone, _, same) ↦
            subst (Delivered s p sid)
              (sym (deliver-none s p sid (ap is_success ok) gone (ap is_empty is_empty')))
              (inl (
                nobody,
                (
                  refl,
                  (
                    ap waiting (popped-queue s p sid) ∙ (ap waiting same ∙ w),
                    (
                      ap ready (popped-queue s p sid) ∙ (ap ready same ∙ (r ∙ unready)),
                      (refl, (refl, refl)),
                    ),
                  ),
                ),
              ))
        | inr (rp, some_ready, _, _, _, _) ↦ absurd (ground (arith, some_ready, r, unready))
      ]
      | inr (seen, w, left, split, before, takes, inl (ok, w', r)) ↦ elim (vwq_pop_lem vwq) [
        | inl (none_ready, _, _, _, _) ↦ absurd (ground (arith, none_ready, r, unready))
        | inr (rp, first, _, item, _, w'') ↦
            let only : rp ∷ ready (vwq_pop vwq).3 ≡ tag sid w ∷ [] =
              sym first ∙ (r ∙ ap (λ l. l ++ (tag sid w ∷ [])) unready) in
            let taken : (vwq_pop vwq).1 ≡ some w.item = item ∙ ap (λ l. pair_item (head? l)) only in
            let (resumed', _) = wake_signalled_lem (popped s p sid) p sid w.item in
            let (same, sig) = wake_signalled-queue (popped s p sid) p sid w.item in
            let back = same ∙ popped-queue s p sid in
            subst (Delivered s p sid) (sym (deliver-some s p sid w.item (ap is_success ok) taken)) (
              inr (
                seen,
                w,
                left,
                split,
                before,
                takes,
                inl (
                  refl,
                  (
                    ap waiting back ∙ (w'' ∙ w'),
                    (ap ready back ∙ ap drop_head only, (sig, resumed')),
                  ),
                ),
              ))
      ]
      | inr (seen, w, left, split, before, takes, inr (bad, w', r)) ↦
          subst (Delivered s p sid) (sym (deliver-failed s p sid (ap is_success bad))) (
            inr (
              seen,
              w,
              left,
              split,
              before,
              takes,
              inr (
                bad,
                (
                  ap waiting (notified-queue s p sid) ∙ w',
                  (ap ready (notified-queue s p sid) ∙ (r ∙ unready), refl),
                ),
              ),
            ))
    ]
