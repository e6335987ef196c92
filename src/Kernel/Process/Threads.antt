-- ===== src/Kernel/Process/Threads.antt =====
-- k_startup/src/state.c, k_startup/src/process.c: threads that sleep, exit and join, and the tick.
pub mod Rousing
pub mod Tick
pub mod Joining
use fern_os.Prelude.{
  ℕ, zero, suc, ◌+◌, ◌%◌, ◌^◌, Bool, true, false, not, ◌&&◌, ◌||◌, Option, none, some, List, [],
  ◌∷◌, ◌++◌, get_or, set, ◌==◌, if◌then◌else◌,
}
use fern_os.Err.{Err, success, bad_args, state_mismatch, is_success, is_empty}
use fern_os.Map.{mp_get, mp_remove}
use fern_os.ListT.{l_get_len}
use fern_os.WaitQueue.Vector.{vwq_notify_first, vwq_enqueue, vwq_notify, vwq_pop}
use fern_os.WaitQueue.Timed.{untouched, wrote, twq_enqueue, twq_notify, twq_pop}
use fern_os.Kernel.Thread.{
  ThreadState, QueueRef, detatched, waiting, exited, timed, vector, Kernel, block, set_thread,
  set_vector, thread_detach, thread_schedule,
}
use fern_os.Kernel.UserMem.{UserMem}
use fern_os.Kernel.Process.{
  KernelState, set_proc, set_mem, Out, returned, bit, word_bytes, put_user, release, set_eax,
}
use fern_os.Kernel.Process.Calls.{with_head, dual_ret, or_null, first_bit, ks_exit_proc}

-- `ks_sleep_thread`
pub ks_sleep_thread : KernelState → ℕ → Out
unfolding with_head
ks_sleep_thread s ticks = with_head s.kernel.schedule s (λ t.
    let (err, twq, mem') =
      twq_enqueue s.kernel.sleep_q t ((s.curr_tick + ticks) % 2 ^ 32) s.kernel.mem in
    let s' = set_mem (record s { kernel = record (s.kernel) { sleep_q = twq } }) mem' in
    if is_success err
    then returned success (record s' { kernel = block s'.kernel t timed none })
    else returned err s')

-- `ring_advance`
abbrev pub ring_advance : List ℕ → List ℕ
ring_advance [] = []
ring_advance (t ∷ ts) = ts ++ (t ∷ [])

-- A thread that has slept is detached by hand, and scheduled.
pub rouse : Kernel → ℕ → Kernel
rouse k t =
    thread_schedule (set_thread k t (record (k.threads t) { wq = none; state = detatched })) t

-- The loop of `ks_tick`: one round for each ready item, and one that finds the queue empty.
pub tick_loop : ℕ → Kernel → Err × Kernel
tick_loop zero k = (success, k)
tick_loop (suc fuel) k =
    let (err, item, twq) = twq_pop k.sleep_q in
    let k' = record k { sleep_q = twq } in
    elim item [ wrote (some t) ↦ tick_loop fuel (rouse k' t) | _ ↦ (err, k') ]

abbrev pub has_head : List ℕ → Bool
has_head [] = false
has_head (_ ∷ _) = true

-- `ks_tick`, where `plgs_tick` is a parameter. What `twq_notify` returns is not looked at.
pub ks_tick : (KernelState → Err × KernelState) → KernelState → Err × KernelState
unfolding rouse tick_loop
ks_tick plgs_tick s =
    let tick = (s.curr_tick + 1) % 2 ^ 32 in
    let (_, twq, mem') = twq_notify s.kernel.sleep_q tick s.kernel.mem in
    let (err, k) =
      tick_loop (suc (l_get_len twq.ready_q)) (record (s.kernel) { sleep_q = twq; mem = mem' }) in
    let schedule = if has_head s.kernel.schedule then ring_advance k.schedule else k.schedule in
    let s' = record s { curr_tick = tick; kernel = record k { schedule = schedule } } in
    if not (is_empty err)
    then (err, record s { curr_tick = tick; kernel = k })
    else if tick % 16 == 0
    then plgs_tick s'
    else (success, s')

abbrev pub is_exited : ThreadState → Bool
is_exited exited = true
is_exited _ = false

-- What `pd_free_pages` leaves of a user's memory, when the stack of a thread goes, is a parameter.
module _ (free_stack : UserMem → ℕ → UserMem) where
  -- `proc_delete_thread`, which gives the stack back. What `delete_thread` frees is gone.
  pub proc_delete_thread : KernelState → ℕ → ℕ → KernelState
  proc_delete_thread s p t =
      if (p == 0) || (t == 0) || not (s.thread_proc t == p)
      then s
      else record (set_proc s p
          (record (s.procs p) { thread_table = mp_remove (s.procs p).thread_table (s.tid t) })) {
            user = λ i. if i == p then free_stack (s.user p) t else s.user i;
            kernel = thread_detach s.kernel t;
          }

  -- What `ks_exit_thread` does for a thread that joins.
  pub join_exited : KernelState → ℕ → ℕ → ℕ → KernelState
  unfolding proc_delete_thread
  join_exited s p t joining =
      let thr = s.kernel.threads joining in
      let u_ret_ptr = get_or thr.wait_ctx 0 0 in
      let k =
        set_thread s.kernel joining
          (record thr { wq = none; wait_ctx = set thr.wait_ctx 0 0; state = detatched }) in
      let ret = word_bytes (s.tid t) ++ word_bytes (s.exit_ret_val t) in
      let s1 = set_eax (put_user (record s { kernel = k }) p u_ret_ptr ret) joining success in
      proc_delete_thread (record s1 { kernel = thread_schedule s1.kernel joining }) p t

  -- `ks_exit_thread` for a thread that is not the main one.
  pub exit_worker : KernelState → ℕ → ℕ → ℕ → Out
  unfolding join_exited
  exit_worker s p t ret_val =
      let q = (s.procs p).join_queue in
      let k = thread_detach s.kernel t in
      let k1 = set_thread k t (record (k.threads t) { state = exited }) in
      let (err, vwq, mem') = vwq_notify (k1.vectors q) (s.tid t % 256) vwq_notify_first k1.mem in
      let k2 = record (set_vector k1 q vwq) { mem = mem' } in
      let s2 = record s {
        kernel = k2;
        exit_ret_val = λ i. if i == t then ret_val else s.exit_ret_val i;
      } in
      let (err', item, _, vwq') = vwq_pop vwq in
      let s3 = record s2 { kernel = set_vector k2 q vwq' } in
      if not (is_success err) then returned err s2 else elim item [
        | some joining ↦ returned success (join_exited s3 p t joining)
        | none ↦ returned (if is_empty err' then success else err') s3
      ]

  -- `ks_exit_thread`
  pub ks_exit_thread : ℕ → KernelState → ℕ → Out
  unfolding with_head exit_worker
  ks_exit_thread fuel s ret_val = with_head s.kernel.schedule s (λ t.
      let p = s.thread_proc t in
      elim (t == (s.procs p).main_thread) [
        | true ↦ ks_exit_proc fuel s ret_val
        | false ↦ exit_worker s p t ret_val
      ])

  -- The test of the loop of `ks_join_local_thread`.
  pub joinable : KernelState → ℕ → ℕ → ℕ → Bool
  joinable s p jv tid =
      let thr = or_null (mp_get (s.procs p).thread_table tid) in
      bit jv tid && (not (thr == 0) && is_exited (s.kernel.threads thr).state)

  -- A thread that has exited is joined at once.
  pub join_now : KernelState → ℕ → ℕ → ℕ → ℕ → Out
  unfolding proc_delete_thread
  join_now s p t ready_tid u_join_ret =
      let thr = or_null (mp_get (s.procs p).thread_table ready_tid) in
      let ret = word_bytes ready_tid ++ word_bytes (s.exit_ret_val thr) in
      dual_ret (put_user (proc_delete_thread s p thr) p u_join_ret ret) t success

  pub join_later : KernelState → ℕ → ℕ → ℕ → ℕ → Out
  join_later s p t jv u_join_ret =
      let q = (s.procs p).join_queue in
      let (err, vwq, mem') = vwq_enqueue (s.kernel.vectors q) t jv s.kernel.mem in
      let s' = set_mem (record s { kernel = set_vector s.kernel q vwq }) mem' in
      if is_success err
      then returned success (record s' { kernel = block s'.kernel t (vector q) (some u_join_ret) })
      else dual_ret s' t err

  -- `ks_join_local_thread`
  pub ks_join_local_thread : KernelState → ℕ → ℕ → Out
  unfolding with_head joinable join_now join_later first_bit
  ks_join_local_thread s jv u_join_ret = with_head s.kernel.schedule s (λ t.
      let p = s.thread_proc t in
      if (jv == 0) || (jv == 2 ^ s.tid t % 2 ^ 32)
      then dual_ret s t bad_args
      else elim (first_bit (joinable s p jv) 0 32) [
        | some ready_tid ↦ join_now s p t ready_tid u_join_ret
        | none ↦ join_later s p t jv u_join_ret
      ])
