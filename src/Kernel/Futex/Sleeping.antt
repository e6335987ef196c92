-- ===== src/Kernel/Futex/Sleeping.antt =====
-- When a futex wait puts the running thread to sleep, and what deregistering does to sleepers.
use fern_os.Prelude.{
  ℕ, ◌<◌, ◌≡◌, ◌≢◌, ◌⊎◌, inl, inr, refl, Bool, Bool-cases, false, some, [], ◌∷◌, ◌++◌, arith, ◌==◌,
  if◌then◌else◌,
}
use fern_os.Err.{Mem, Err, success, no_mem, state_mismatch, is_success}
use fern_os.WaitQueue.Basic.{BasicWaitQueue, bwq_notify_all, bwq_enqueue}
use fern_os.WaitQueue.Basic.Laws.{waiting, bwq_enqueue_lem}
use fern_os.Map.{mp_get, mp_remove}
use fern_os.Kernel.Thread.{
  basic, scheduled, Kernel, set_queue, ring_element_detach, thread_detach, wake_all,
}
use fern_os.Kernel.Thread.Waking.{WokenAll, wake_all-all, thread_detach-scheduled}
use fern_os.Kernel.UserMem.{mem_cpy_from_user}
use fern_os.Kernel.Futex.{
  FutMap, FutSystem, current, dual_ret, set_map, block, word, fut_wait, fut_deregister,
}
use fern_os.Kernel.Thread

-- A thread that ran has gone to sleep on `q`.
abbrev pub Slept : Kernel → ℕ → ℕ → Kernel → Type 0
Slept k t q k' =
    (waiting (k'.queues q) ≡ waiting (k.queues q) ++ (t ∷ []))
    × (k'.schedule ≡ ring_element_detach k.schedule t)
    × ((k'.threads t).state ≡ Thread.waiting)
    × ((k'.threads t).wq ≡ some (basic q))

block_lem :
    (k : Kernel) (t q : ℕ) (bwq : BasicWaitQueue) (mem' : Mem)
    → (k.threads t).state ≡ scheduled
    → waiting bwq ≡ waiting (k.queues q) ++ (t ∷ [])
    → Slept k t q (block (record (set_queue k q bwq) { mem = mem' }) t q)
block_lem k t q bwq mem' e w =
    let d = thread_detach-scheduled (record (set_queue k q bwq) { mem = mem' }) t e in
    rw d (ground (arith, w), refl, ground arith, ground arith)

-- What `fut_wait` does once the value has been read.
abbrev decide : FutSystem → ℕ → ℕ → Bool → Err × BasicWaitQueue × Mem → Err × FutSystem
decide s t q same (err', b, mem') =
    let k' = record (set_queue s.kernel q b) { mem = mem' } in
    if same
    then (if is_success err'
        then (success, record s { kernel = block k' t q })
        else dual_ret (record s { kernel = k' }) t err')
    else dual_ret s t success

fut_wait-decide :
    (s : FutSystem) (m : FutMap) (u_fut exp_val q : ℕ)
    → 0 < u_fut
    → mp_get m u_fut ≡ some (some q)
    → (mem_cpy_from_user (s.user (s.proc (current s))) u_fut 4).0 ≡ success
    → let t = current s in
      fut_wait s m u_fut exp_val
      ≡ decide s t q
          (word (mem_cpy_from_user (s.user (s.proc t)) u_fut 4).1 == exp_val)
          (bwq_enqueue (s.kernel.queues q) t s.kernel.mem)
unfolding fut_wait
fut_wait-decide s m u_fut exp_val q pos there ok =
    let z : (u_fut == 0) ≡ false = ground arith in rw (z, there, ok) refl

-- For a registered futex whose value can be read, and a running thread that is scheduled, a wait
-- does one of three things. If the value is not the expected one, nothing changes but the result of
-- the call, which is `success`. If it is, then either the thread is now the last one waiting on the
-- futex's queue and off the schedule; or memory ran out, it goes on with `no_mem`, and both the
-- schedule and the queue are as before. The kernel goes on in every case.
pub fut_wait-sleeps :
    (s : FutSystem) (m : FutMap) (u_fut exp_val q : ℕ)
    → 0 < u_fut
    → mp_get m u_fut ≡ some (some q)
    → (mem_cpy_from_user (s.user (s.proc (current s))) u_fut 4).0 ≡ success
    → (s.kernel.threads (current s)).state ≡ scheduled
    → let t = current s in
      let act_val = word (mem_cpy_from_user (s.user (s.proc t)) u_fut 4).1 in
      let (err, s') = fut_wait s m u_fut exp_val in
      (err ≡ success)
      × ((act_val ≢ exp_val) × (s' ≡ (dual_ret s t success).1)
          ⊎ ((act_val ≡ exp_val) × Slept s.kernel t q s'.kernel
              ⊎ (act_val ≡ exp_val)
                × (s'.kernel.schedule ≡ s.kernel.schedule)
                × (s'.kernel.queues q ≡ s.kernel.queues q)
                × ((s'.kernel.threads t).eax ≡ no_mem)))
fut_wait-sleeps s m u_fut exp_val q pos there ok run =
    let t = current s in
    let k = s.kernel in
    let act_val = word (mem_cpy_from_user (s.user (s.proc t)) u_fut 4).1 in
    let (err', b, mem') = bwq_enqueue (k.queues q) t k.mem in
    rw (fut_wait-decide s m u_fut exp_val q pos there ok) (elim (Bool-cases (act_val == exp_val)) [
      | inr h ↦ rw h (refl, inl (ground (arith, h), refl))
      | inl h ↦
          let e : act_val ≡ exp_val = ground (arith, h) in
          elim (bwq_enqueue_lem (k.queues q) t k.mem) [
            | inl (r, w, _) ↦ rw (h, r) (refl, inr (inl (e, block_lem k t q b mem' run w)))
            | inr (r, w) ↦ rw (h, r) (refl, inr (inr (e, refl, ground (arith, w), ground arith)))
          ]
    ])

-- What `fut_deregister` does once the queue has been woken.
abbrev drop_futex : FutSystem → FutMap → ℕ → Err × Kernel → Err × FutSystem
drop_futex s m u_fut (err, k) =
    let s' = record s { kernel = k } in
    if is_success err
    then (success, set_map s' (s.proc (current s)) (some (mp_remove m u_fut)))
    else (err, s')

fut_deregister-drop_futex :
    (s : FutSystem) (m : FutMap) (u_fut q : ℕ)
    → 0 < u_fut
    → mp_get m u_fut ≡ some (some q)
    → fut_deregister s m u_fut
      ≡ drop_futex s m u_fut (wake_all false bwq_notify_all state_mismatch q s.kernel)
unfolding fut_deregister
fut_deregister-drop_futex s m u_fut q pos there =
    let z : (u_fut == 0) ≡ false = ground arith in rw (z, there) refl

drop_futex-WokenAll :
    (s : FutSystem) (m : FutMap) (u_fut q : ℕ) (out : Err × Kernel)
    → WokenAll false state_mismatch q s.kernel out
    → let (err, s') = drop_futex s m u_fut out in
      WokenAll false state_mismatch q s.kernel (err, s'.kernel)
      × ((err ≡ success)
            × (s'.fut_maps ≡ (set_map s (s.proc (current s)) (some (mp_remove m u_fut))).fut_maps)
          ⊎ (err ≡ no_mem) × (s'.fut_maps ≡ s.fut_maps))
drop_futex-WokenAll s m u_fut q (err, k) (inl (r, a, b, c, d)) =
    rw r (inl (refl, a, b, c, d), inl (refl, refl))
drop_futex-WokenAll s m u_fut q (err, k) (inr (r, a, b, c, d)) =
    rw r (inr (refl, a, b, c, d), inr (refl, refl))

-- For a registered futex, deregistering wakes every thread that waits on it, with the status
-- `state_mismatch`, in the order of its queue, and then the futex is out of the map; or memory ran
-- out, the kernel gets `no_mem`, no thread has moved and the futex is still registered.
pub fut_deregister-wakes :
    (s : FutSystem) (m : FutMap) (u_fut q : ℕ)
    → 0 < u_fut
    → mp_get m u_fut ≡ some (some q)
    → let (err, s') = fut_deregister s m u_fut in
      WokenAll false state_mismatch q s.kernel (err, s'.kernel)
      × ((err ≡ success)
            × (s'.fut_maps ≡ (set_map s (s.proc (current s)) (some (mp_remove m u_fut))).fut_maps)
          ⊎ (err ≡ no_mem) × (s'.fut_maps ≡ s.fut_maps))
fut_deregister-wakes s m u_fut q pos there = rw (fut_deregister-drop_futex s m u_fut q pos there) (
    drop_futex-WokenAll s m u_fut q (wake_all false bwq_notify_all state_mismatch q s.kernel)
      (wake_all-all false q state_mismatch s.kernel))
