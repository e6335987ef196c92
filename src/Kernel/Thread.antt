-- ===== src/Kernel/Thread.antt =====
-- k_startup/src/thread.c: where a thread is, and how it gets from a wait queue to the schedule.
pub mod Waking
pub mod Moves
use fern_os.Prelude.{
  ℕ, zero, suc, Bool, true, false, Option, none, some, List, [], ◌∷◌, ◌++◌, not, select, set,
  length, replicate, ◌==◌, if◌then◌else◌,
}
use fern_os.Err.{Err, success, empty, is_success, is_empty, Mem}
use fern_os.ListT.{cells, l_get_len}
use fern_os.WaitQueue.Vector.{VectorWaitQueue, vwq_remove}
use fern_os.WaitQueue.Timed.{TimedWaitQueue, twq_remove}
use fern_os.WaitQueue.Basic.{BasicWaitQueue, bwq_notify_all, bwq_notify, bwq_pop, bwq_remove}

-- `thread_state_t`
pub data ThreadState : Type 0 where
  detatched scheduled waiting exited : ThreadState

-- A pointer to a wait queue of one of the three kinds. A wait queue, a thread and a process are named
-- by numbers that stand for their addresses; there is one timed queue, the kernel's.
pub data QueueRef : Type 0 where
  basic : ℕ → QueueRef
  vector : ℕ → QueueRef
  timed : QueueRef

-- The fields of `thread_t` that scheduling uses; `eax` is the error code that a system call returns.
pub record Thread : Type 0 where
  pub state : ThreadState
  pub wq : Option QueueRef
  pub wait_ctx : List ℕ
  pub eax : Err

-- The part of the kernel that threads share: the ring of scheduled threads, the running one first;
-- every thread; every basic and every vector wait queue, and the timed one; and what allocations will answer.
pub record Kernel : Type 0 where
  pub schedule : List ℕ
  pub threads : ℕ → Thread
  pub queues : ℕ → BasicWaitQueue
  pub vectors : ℕ → VectorWaitQueue
  pub sleep_q : TimedWaitQueue
  pub mem : Mem

abbrev pub set_thread : Kernel → ℕ → Thread → Kernel
set_thread k t thr = record k { threads = λ i. if i == t then thr else k.threads i }

abbrev pub set_queue : Kernel → ℕ → BasicWaitQueue → Kernel
set_queue k q bwq = record k { queues = λ i. if i == q then bwq else k.queues i }

abbrev pub set_vector : Kernel → ℕ → VectorWaitQueue → Kernel
set_vector k q vwq = record k { vectors = λ i. if i == q then vwq else k.vectors i }

-- `ring_element_detach`: the ring closes over the gap, and a head that leaves hands on to the next.
abbrev pub ring_element_detach : List ℕ → ℕ → List ℕ
ring_element_detach ring t = select (λ i. not (i == t)) ring

-- `ring_element_attach` of an element that is in no ring: it stands just before the head.
abbrev pub ring_element_attach : List ℕ → ℕ → List ℕ
ring_element_attach ring t = ring ++ (t ∷ [])

-- `wq_remove`, by the kind of the queue.
pub wq_remove : Kernel → QueueRef → ℕ → Kernel
wq_remove k (basic q) t = set_queue k q (bwq_remove (k.queues q) t)
wq_remove k (vector q) t = set_vector k q (vwq_remove (k.vectors q) t)
wq_remove k timed t = record k { sleep_q = twq_remove k.sleep_q t }

-- The branch of `thread_detach` for a waiting thread; its `wq` is not NULL.
pub leave_queue : Kernel → ℕ → Option QueueRef → Kernel
unfolding wq_remove
leave_queue k t none = k
leave_queue k t (some q) =
    let k' = wq_remove k q t in
    set_thread k' t
      (record (k'.threads t) { wq = none; wait_ctx = replicate 6 0; state = detatched })

pub detach_from : ThreadState → Kernel → ℕ → Kernel
detach_from waiting k t = leave_queue k t (k.threads t).wq
detach_from scheduled k t =
    set_thread (record k { schedule = ring_element_detach k.schedule t }) t
      (record (k.threads t) { state = detatched })
detach_from _ k t = k

pub thread_detach : Kernel → ℕ → Kernel
unfolding detach_from leave_queue
thread_detach k t = detach_from (k.threads t).state k t

abbrev pub is_detatched : ThreadState → Bool
is_detatched detatched = true
is_detatched _ = false

pub thread_schedule : Kernel → ℕ → Kernel
unfolding thread_detach
thread_schedule k t =
    let k' = if is_detatched (k.threads t).state then k else thread_detach k t in
    set_thread (record k' { schedule = ring_element_attach k'.schedule t }) t
      (record (k'.threads t) { state = scheduled })

-- What a waker does to a thread that it has popped: `ctx` says whether it clears `wait_ctx` too.
pub wake_thread : Bool → Err → Kernel → ℕ → Kernel
unfolding thread_schedule
wake_thread ctx status k t =
    thread_schedule
      (set_thread k t (record {
        state = detatched;
        wq = none;
        wait_ctx = if ctx then replicate 6 0 else (k.threads t).wait_ctx;
        eax = status;
      }))
      t

-- `while ((err = bwq_pop(bwq, &woken_thread)) == FOS_E_SUCCESS)`: one round for each ready item.
pub wake_loop : ℕ → Bool → Err → ℕ → Kernel → Err × Kernel
wake_loop zero ctx status q k = (success, k)
wake_loop (suc fuel) ctx status q k =
    let (err, item, bwq) = bwq_pop (k.queues q) in
    elim item [
      | none ↦ (err, set_queue k q bwq)
      | some t ↦ wake_loop fuel ctx status q (wake_thread ctx status (set_queue k q bwq) t)
    ]

-- Notify, in a mode, and wake all that are ready. A failed notification, or a pop that fails but
-- for want of items, is passed on.
pub wake_all : Bool → ℕ → Err → ℕ → Kernel → Err × Kernel
unfolding wake_loop wake_thread
wake_all ctx mode status q k =
    let (err, bwq, mem') = bwq_notify (k.queues q) mode k.mem in
    let k' = record (set_queue k q bwq) { mem = mem' } in
    let (err', k'') = wake_loop (suc (l_get_len bwq.ready_q)) ctx status q k' in
    if is_success err then (if is_empty err' then (success, k'') else (err', k'')) else (err, k')

-- `bwq_wake_all_threads`
pub bwq_wake_all_threads : ℕ → Err → Kernel → Err × Kernel
unfolding wake_all
bwq_wake_all_threads q status k = wake_all true bwq_notify_all status q k

-- The end of a system call that waits: the running thread leaves the schedule for a queue; `wait_ctx[0]` says where its result goes.
abbrev pub block : Kernel → ℕ → QueueRef → Option ℕ → Kernel
block k t q u_ptr =
    let k' = thread_detach k t in
    let thr = k'.threads t in
    set_thread k' t (record thr {
      wq = some q;
      state = waiting;
      wait_ctx = elim u_ptr [ none ↦ thr.wait_ctx | some u ↦ set thr.wait_ctx 0 u ];
    })
