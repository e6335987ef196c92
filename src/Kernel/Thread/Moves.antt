-- ===== src/Kernel/Thread/Moves.antt =====
-- Threads that leave the schedule, and threads that come back to it.
use fern_os.Prelude.{ℕ, arith, some, set, ◌≡◌, refl, ap, ◌∙◌, ◌++◌, [], ◌∷◌, ◌==◌, if◌then◌else◌}
use fern_os.Kernel.Thread.{
  Thread, Kernel, QueueRef, waiting, block, scheduled, detatched, set_thread, ring_element_attach,
  ring_element_detach, detach_from, thread_detach, thread_schedule,
}

pub set_thread-at : (k : Kernel) (t : ℕ) (thr : Thread) → (set_thread k t thr).threads t ≡ thr
set_thread-at k t thr = ground arith

-- A thread that is nowhere goes to the end of the schedule.
pub thread_schedule-detatched :
    (k : Kernel) (t : ℕ)
    → (k.threads t).state ≡ detatched
    → thread_schedule k t
      ≡ set_thread
          (record k { schedule = ring_element_attach k.schedule t })
          t
          (record (k.threads t) { state = scheduled })
unfolding thread_schedule
thread_schedule-detatched k t nowhere = rw nowhere refl

-- A detached thread that has been written is put behind the schedule, and nothing else changes.
abbrev pub Placed : ℕ → Thread → Kernel → Kernel → Type 0
Placed t thr k k' =
    (k'.schedule ≡ k.schedule ++ (t ∷ []))
    × (((i : ℕ) → k'.threads i ≡ (if i == t then record thr { state = scheduled } else k.threads i))
        × ((k'.vectors ≡ k.vectors) × ((k'.sleep_q ≡ k.sleep_q) × (k'.mem ≡ k.mem))))

pub thread_schedule-Placed :
    (k : Kernel) (t : ℕ) (thr : Thread)
    → thr.state ≡ detatched
    → Placed t thr k (thread_schedule (set_thread k t thr) t)
thread_schedule-Placed k t thr nowhere =
    let at = set_thread-at k t thr in
    let e =
      thread_schedule-detatched (set_thread k t thr) t
        (ap (λ (x : Thread). x.state) at ∙ nowhere) in
    (
      ap (λ (x : Kernel). x.schedule) e,
      (
        λ i.
            ap (λ (x : Kernel). x.threads i) e
            ∙ (ap
                  (λ (x : Thread).
                    if i == t
                    then record x { state = scheduled }
                    else (set_thread k t thr).threads i)
                  at
                ∙ ground arith),
        (
          ap (λ (x : Kernel). x.vectors) e,
          (ap (λ (x : Kernel). x.sleep_q) e, ap (λ (x : Kernel). x.mem) e),
        ),
      ),
    )

-- A scheduled thread leaves the schedule.
pub thread_detach-scheduled :
    (k : Kernel) (t : ℕ)
    → (k.threads t).state ≡ scheduled
    → thread_detach k t
      ≡ set_thread
          (record k { schedule = ring_element_detach k.schedule t })
          t
          (record (k.threads t) { state = detatched })
unfolding thread_detach
thread_detach-scheduled k t there = ap (λ st. detach_from st k t) there

-- A thread that was scheduled has left for a queue, and keeps a pointer for its result.
pub block_lem :
    (k : Kernel) (t : ℕ) (q : QueueRef) (u_ptr : ℕ)
    → (k.threads t).state ≡ scheduled
    → let k' = block k t q (some u_ptr) in
      (k'.schedule ≡ ring_element_detach k.schedule t)
      × (k'.threads t ≡ record {
        state = waiting;
        wq = some q;
        wait_ctx = set (k.threads t).wait_ctx 0 u_ptr;
        eax = (k.threads t).eax;
      })
      × (k'.vectors ≡ k.vectors)
block_lem k t q u_ptr there =
    let e = thread_detach-scheduled k t there in
    let thr = record (k.threads t) { state = detatched } in
    let at : (thread_detach k t).threads t ≡ thr =
      ap (λ (x : Kernel). x.threads t) e
      ∙ set_thread-at (record k { schedule = ring_element_detach k.schedule t }) t thr in
    (
      ap (λ (x : Kernel). x.schedule) e,
      set_thread-at (thread_detach k t) t _
          ∙ ap
              (λ (x : Thread). record x {
                wq = some q;
                state = waiting;
                wait_ctx = set x.wait_ctx 0 u_ptr;
              })
              at,
      ap (λ (x : Kernel). x.vectors) e,
    )
