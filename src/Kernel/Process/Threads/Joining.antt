-- ===== src/Kernel/Process/Threads/Joining.antt =====
-- What `ks_join_local_thread` does: a thread that has exited is joined at once, or the caller waits.
use fern_os.Prelude.{
  ℕ, ◌<◌, ◌≡◌, ◌≢◌, ◌⊎◌, inl, inr, refl, ap, sym, subst, ◌∙◌, Bool, true, false, not, ◌&&◌, Option,
  none, some, List, [], ◌∷◌, ◌++◌, arith, set, ◌==◌, ◌%◌, ◌^◌,
}
use fern_os.Err.{success, no_mem, is_success}
use fern_os.Map.{mp_get, mp_remove}
use fern_os.WaitQueue.Vector.{VectorWaitQueue, vwq_enqueue}
use fern_os.WaitQueue.Vector.Laws.{waiting, ready, vwq_enqueue_cases}
use fern_os.Kernel.Thread.{
  Thread, ThreadState, scheduled, vector, block, set_vector, ring_element_detach,
}
use fern_os.Kernel.Thread.Moves.{set_thread-at, block_lem}
use fern_os.Kernel.UserMem.{UserMem}
use fern_os.Kernel.Process.{
  Process, KernelState, set_mem, set_eax, Out, shut_down, returned, out_of_fuel, bit, put_user,
  word_bytes,
}
use fern_os.Kernel.Process.Delivery.{set_proc-at, set_vector-at, put_user-procs}
use fern_os.Kernel.Process.Calls.{with_head-cons, or_null, first_bit}
use fern_os.Kernel.Process.Calls.Waiting.{First, first_bit-First}
use fern_os.Kernel.Process.Threads.{
  is_exited, proc_delete_thread, joinable, join_now, join_later, ks_join_local_thread,
}

-- The thread that an id leads to.
abbrev pub thread_at : KernelState → ℕ → ℕ → ℕ
thread_at s p tid = or_null (mp_get (s.procs p).thread_table tid)

-- The set `jv` has the id of a thread of `p`, and that thread has exited.
abbrev pub is_ready : KernelState → ℕ → ℕ → ℕ → Bool
is_ready s p jv tid =
    bit jv tid
    && (not (thread_at s p tid == 0) && is_exited (s.kernel.threads (thread_at s p tid)).state)

-- The table of the threads of `p` is in order.
abbrev pub IsTable : KernelState → ℕ → Type 0
IsTable s p =
    (tid thr : ℕ)
    → mp_get (s.procs p).thread_table tid ≡ some thr
    → (s.thread_proc thr ≡ p) × (s.tid thr ≡ tid)

apart : (i j : ℕ) → i ≢ j → i == j ≡ false
apart i j h = ground (arith, h)

same : (i j : ℕ) → i ≡ j → i == j ≡ true
same i j h = ground (arith, h)

there_is : (o : Option ℕ) → or_null o == 0 ≡ false → o ≡ some (or_null o)
there_is none h = absurd (ground (arith, h))
there_is (some i) h = refl

middle : (a b c : Bool) → a && (not b && c) ≡ true → b ≡ false
middle true false c h = refl
middle true true c h = sym h
middle false b c h = absurd (ground (arith, h))

-- The join queue of a process.
abbrev pub joiners : KernelState → ℕ → VectorWaitQueue
joiners s p = s.kernel.vectors (s.procs p).join_queue

abbrev enqueued : KernelState → ℕ → ℕ → KernelState
enqueued s t jv =
    let q = (s.procs (s.thread_proc t)).join_queue in
    let (_, vwq, mem') = vwq_enqueue (s.kernel.vectors q) t jv s.kernel.mem in
    set_mem (record s { kernel = set_vector s.kernel q vwq }) mem'

-- The thread has left the schedule for the end of the join queue.
abbrev pub Joins : KernelState → ℕ → ℕ → ℕ → KernelState → Type 0
Joins s t jv u_ret s' =
    let p = s.thread_proc t in
    (waiting (joiners s' p) ≡ waiting (joiners s p) ++ (record { item = t; ready_mask = jv } ∷ []))
    × (ready (joiners s' p) ≡ ready (joiners s p))
    × (s'.procs ≡ s.procs)
    × (s'.kernel.schedule ≡ ring_element_detach s.kernel.schedule t)
    × (s'.kernel.threads t ≡ record {
      state = ThreadState.waiting;
      wq = some (vector (s.procs p).join_queue);
      wait_ctx = set (s.kernel.threads t).wait_ctx 0 u_ret;
      eax = (s.kernel.threads t).eax;
    })

module _ (free_stack : UserMem → ℕ → UserMem) (s : KernelState) (t jv u_ret : ℕ) where
  -- No thread of `jv` has exited, and the caller waits or has no memory to; or the one with the lowest
  -- id is deleted, and the caller goes on.
  abbrev pub JoinOut : Out → Type 0
  JoinOut (returned err s') =
      let p = s.thread_proc t in
      (err ≡ success)
      × (((tid : ℕ) × (tid < 32)
            × (is_ready s p jv tid ≡ true)
            × ((j : ℕ) → j < tid → is_ready s p jv j ≡ false)
            × (((s'.kernel.threads t).eax ≡ success)
                × ((s'.procs p).thread_table ≡ mp_remove (s.procs p).thread_table tid)))
          ⊎ ((j : ℕ) → j < 32 → is_ready s p jv j ≡ false)
            × (Joins s t jv u_ret s'
                ⊎ ((s'.kernel.threads t).eax ≡ no_mem)
                  × ((joiners s' p ≡ joiners s p)
                      × ((s'.kernel.schedule ≡ s.kernel.schedule)
                          × ((s'.kernel.threads t).state ≡ (s.kernel.threads t).state)))))
  JoinOut shut_down = ⊥
  JoinOut out_of_fuel = ⊥

  join_later-fails :
      is_success (vwq_enqueue (joiners s (s.thread_proc t)) t jv s.kernel.mem).0 ≡ false
      → join_later free_stack s (s.thread_proc t) t jv u_ret
        ≡ returned success (
            set_eax
              (enqueued s t jv)
              t
              (vwq_enqueue (joiners s (s.thread_proc t)) t jv s.kernel.mem).0)
  unfolding join_later
  join_later-fails bad = rw bad refl

  join_later-waits :
      is_success (vwq_enqueue (joiners s (s.thread_proc t)) t jv s.kernel.mem).0 ≡ true
      → join_later free_stack s (s.thread_proc t) t jv u_ret
        ≡ returned success (record (enqueued s t jv) {
          kernel =
              block
                (enqueued s t jv).kernel
                t
                (vector (s.procs (s.thread_proc t)).join_queue)
                (some u_ret);
        })
  unfolding join_later
  join_later-waits ok = rw ok refl

  proc_delete_thread-table :
      (p thr : ℕ)
      → p == 0 ≡ false
      → thr == 0 ≡ false
      → s.thread_proc thr == p ≡ true
      → ((proc_delete_thread free_stack s p thr).procs p).thread_table
        ≡ mp_remove (s.procs p).thread_table (s.tid thr)
  unfolding proc_delete_thread
  proc_delete_thread-table p thr at there owner =
      rw (at, there, owner) (ap (λ (x : Process). x.thread_table) (set_proc-at s p _))

  is_ready-there : (p tid : ℕ) → is_ready s p jv tid ≡ true → thread_at s p tid == 0 ≡ false
  is_ready-there p tid h =
      middle (bit jv tid) (thread_at s p tid == 0)
        (is_exited (s.kernel.threads (thread_at s p tid)).state) h

  -- What the loop has found is joined, or nothing was.
  abbrev joined : Option ℕ → Out
  joined (some tid) = join_now free_stack s (s.thread_proc t) t tid u_ret
  joined none = join_later free_stack s (s.thread_proc t) t jv u_ret

  joined-JoinOut :
      (o : Option ℕ)
      → jv == 0 ≡ false
      → s.thread_proc t ≢ 0
      → (s.kernel.threads t).state ≡ scheduled
      → IsTable s (s.thread_proc t)
      → First (is_ready s (s.thread_proc t) jv) 0 32 o
      → JoinOut (joined o)
  unfolding join_now
  joined-JoinOut (some tid) some_thread at running table (lt, (on, lowest)) =
      let p = s.thread_proc t in
      let thr = thread_at s p tid in
      let there = is_ready-there p tid on in
      let (owner, id) = table tid thr (there_is (mp_get (s.procs p).thread_table tid) there) in
      let d = proc_delete_thread free_stack s p thr in
      let ret = word_bytes tid ++ word_bytes (s.exit_ret_val thr) in
      let put = put_user d p u_ret ret in
      (
        refl,
        inl (
          tid,
          lt,
          on,
          (λ j h. lowest j (omega arith) h),
          (
            ap (λ (x : Thread). x.eax)
                (set_thread-at put.kernel t (record (put.kernel.threads t) { eax = success })),
            ap (λ f. (f p).thread_table) (put_user-procs d p u_ret ret)
                ∙ (proc_delete_thread-table p thr (apart p 0 at) there
                      (same (s.thread_proc thr) p owner)
                    ∙ ap (λ i. mp_remove (s.procs p).thread_table i) id),
          ),
        ),
      )
  joined-JoinOut none some_thread at running table none_exited =
      let p = s.thread_proc t in
      let q = (s.procs p).join_queue in
      let (err, vwq, mem') = vwq_enqueue (s.kernel.vectors q) t jv s.kernel.mem in
      let queue = set_vector-at s.kernel q vwq in
      let none_yet = λ (j : ℕ) (h : j < 32). none_exited j (omega arith) (omega arith) in
      elim (vwq_enqueue_cases (s.kernel.vectors q) t jv s.kernel.mem some_thread) [
        | inl (ok, w, r) ↦
            let (schedule, thread, vectors) =
              block_lem (enqueued s t jv).kernel t (vector q) u_ret running in
            let back = ap (λ f. f q) vectors ∙ queue in
            subst JoinOut (sym (join_later-waits (ap is_success ok))) (
              refl,
              inr (none_yet, inl (ap waiting back ∙ w, ap ready back ∙ r, refl, schedule, thread)),
            )
        | inr (bad, kept) ↦
            let at_t =
              set_thread-at (enqueued s t jv).kernel t
                (record (s.kernel.threads t) { eax = err }) in
            subst JoinOut (sym (join_later-fails (ap is_success bad))) (
              refl,
              inr (
                none_yet,
                inr (
                  ap (λ (x : Thread). x.eax) at_t ∙ bad,
                  (queue ∙ kept, (refl, ap (λ (x : Thread). x.state) at_t)),
                ),
              ),
            )
      ]

  -- A running thread of a process whose table of threads is in order, and a set of threads that is
  -- neither empty nor just the caller: if threads of the set have exited, the one with the lowest id,
  -- alone, leaves the table and the caller goes on with FOS_E_SUCCESS; else the caller leaves the
  -- schedule for the end of the join queue, or is told FOS_E_NO_MEM and stays. The call never fails.
  pub ks_join_local_thread-JoinOut :
      (ts : List ℕ)
      → s.kernel.schedule ≡ t ∷ ts
      → jv ≢ 0
      → jv ≢ 2 ^ s.tid t % 2 ^ 32
      → s.thread_proc t ≢ 0
      → (s.kernel.threads t).state ≡ scheduled
      → IsTable s (s.thread_proc t)
      → JoinOut (ks_join_local_thread free_stack s jv u_ret)
  unfolding ks_join_local_thread joinable
  ks_join_local_thread-JoinOut ts head some_thread others at running table =
      let f = is_ready s (s.thread_proc t) jv in
      subst JoinOut (sym (with_head-cons s.kernel.schedule t ts s _ head)) (
        rw (apart jv 0 some_thread, apart jv (2 ^ s.tid t % 2 ^ 32) others)
          (joined-JoinOut (first_bit f 0 32) (apart jv 0 some_thread) at running table
            (first_bit-First f 0 32)))
