-- ===== src/Kernel/Futex.antt =====
-- k_startup/src/plugin_fut.c: the futex plugin.
pub mod Sleeping
use fern_os.Prelude.{
  ℕ, zero, suc, ◌+◌, ◌*◌, Bool, true, false, not, Option, none, some, List, [], ◌∷◌, ◌++◌, ◌==◌,
  if◌then◌else◌,
}
use fern_os.Err.{
  Err, success, bad_args, no_mem, already_allocated, invalid_index, state_mismatch, is_success,
  is_empty, al_malloc,
}
use fern_os.ListT.{l_get_len}
use fern_os.Map.{Map, mp_get, mp_put, mp_remove, mp_clear}
use fern_os.WaitQueue.Basic.{
  BasicWaitQueue, bwq_notify_next, bwq_notify_all, new_basic_wait_queue, bwq_enqueue, bwq_notify,
  bwq_pop,
}
use fern_os.Kernel.Thread.{
  basic, waiting, detatched, Kernel, set_thread, set_queue, thread_detach, wake_all,
}
use fern_os.Kernel.UserMem.{UserMem, mem_cpy_from_user}

-- A futex map: from the address of a futex to its wait queue, where `none` is NULL. One answer of the
-- allocator says whether `mp_put` finds the memory that it needs.
abbrev pub FutMap : Type 0
FutMap = Map (Option ℕ)

-- The plugin and what it works on: the kernel's threads and queues, the process of each thread, the
-- memory of each process and its futex map, which is NULL for a process that does not exist.
pub record FutSystem : Type 0 where
  pub kernel : Kernel
  pub proc : ℕ → ℕ
  pub user : ℕ → UserMem
  pub fut_maps : ℕ → Option FutMap

-- `ks->schedule.head`; a command is run only for a running thread.
abbrev first : List ℕ → ℕ
first [] = 0
first (t ∷ ts) = t

abbrev pub current : FutSystem → ℕ
current s = first s.kernel.schedule

-- `DUAL_RET(curr_thr, err, FOS_E_SUCCESS)`
abbrev pub dual_ret : FutSystem → ℕ → Err → Err × FutSystem
dual_ret s t err = (
  success,
  record s { kernel = set_thread s.kernel t (record (s.kernel.threads t) { eax = err }) },
)

abbrev pub set_map : FutSystem → ℕ → Option FutMap → FutSystem
set_map s pid m = record s { fut_maps = λ i. if i == pid then m else s.fut_maps i }

-- `PLG_FUT_PCID_REGISTER`; `q` is the address that the allocator has for a new queue.
pub fut_register : ℕ → FutSystem → FutMap → ℕ → Err × FutSystem
fut_register q s m u_fut =
    let t = current s in
    let pid = s.proc t in
    let k = s.kernel in
    if u_fut == 0 then dual_ret s t bad_args else elim (mp_get m u_fut) [
      | some _ ↦ dual_ret s t already_allocated
      | none ↦
          let (err, test) = mem_cpy_from_user (s.user pid) u_fut 4 in
          let (bwq, mem1) = new_basic_wait_queue k.mem in
          let (ok, mem2) = al_malloc mem1 in
          if is_success err
          then elim bwq [
            | none ↦ dual_ret (record s { kernel = record k { mem = mem1 } }) t no_mem
            | some b ↦
                (if ok
                  then dual_ret
                      (set_map (record s { kernel = set_queue (record k { mem = mem2 }) q b }) pid
                        (some (mp_put m u_fut (some q))))
                      t success
                  else dual_ret (record s { kernel = record k { mem = mem2 } }) t no_mem)
          ]
          else dual_ret s t invalid_index
    ]

-- `PLG_FUT_PCID_DEREGISTER`. A kernel error leaves the futex in the map.
pub fut_deregister : FutSystem → FutMap → ℕ → Err × FutSystem
fut_deregister s m u_fut = if u_fut == 0 then (success, s) else elim (mp_get m u_fut) [
  | none ↦ (success, s)
  | some bwq ↦ elim bwq [
    | none ↦ (state_mismatch, s)
    | some q ↦
        let (err, k) = wake_all false bwq_notify_all state_mismatch q s.kernel in
        let s' = record s { kernel = k } in
        if is_success err
        then (success, set_map s' (s.proc (current s)) (some (mp_remove m u_fut)))
        else (err, s')
  ]
]

-- The running thread is taken from the schedule and waits on `q`.
abbrev pub block : Kernel → ℕ → ℕ → Kernel
block k t q =
    let k' = thread_detach k t in
    set_thread k' t (record (k'.threads t) { wq = some (basic q); state = waiting })

-- A little-endian word.
abbrev pub word : List ℕ → ℕ
word [] = 0
word (b ∷ bs) = b + 256 * word bs

-- `PLG_FUT_PCID_WAIT`
pub fut_wait : FutSystem → FutMap → ℕ → ℕ → Err × FutSystem
fut_wait s m u_fut exp_val =
    let t = current s in
    let k = s.kernel in
    if u_fut == 0 then dual_ret s t invalid_index else elim (mp_get m u_fut) [
      | none ↦ dual_ret s t invalid_index
      | some bwq ↦ elim bwq [
        | none ↦ (state_mismatch, s)
        | some q ↦
            let (err, act_val) = mem_cpy_from_user (s.user (s.proc t)) u_fut 4 in
            let (err', b, mem') = bwq_enqueue (k.queues q) t k.mem in
            let k' = record (set_queue k q b) { mem = mem' } in
            if is_success err
            then (if word act_val == exp_val
                then (if is_success err'
                    then (success, record s { kernel = block k' t q })
                    else dual_ret (record s { kernel = k' }) t err')
                else dual_ret s t success)
            else (err, s)
      ]
    ]

-- `PLG_FUT_PCID_WAKE`
pub fut_wake : FutSystem → FutMap → ℕ → Bool → Err × FutSystem
fut_wake s m u_fut all =
    let t = current s in
    if u_fut == 0 then dual_ret s t invalid_index else elim (mp_get m u_fut) [
      | none ↦ dual_ret s t invalid_index
      | some bwq ↦ elim bwq [
        | none ↦ (state_mismatch, s)
        | some q ↦
            let (err, k) =
              wake_all false (if all then bwq_notify_all else bwq_notify_next) success q s.kernel in
            let s' = record s { kernel = k } in
            if is_success err then dual_ret s' t success else (err, s')
      ]
    ]

-- `plg_fut_cmd`; the commands are numbered 0 to 3.
pub plg_fut_cmd : ℕ → FutSystem → ℕ → ℕ → ℕ → Err × FutSystem
unfolding fut_register fut_deregister fut_wait fut_wake
plg_fut_cmd q s cmd arg0 arg1 = elim (s.fut_maps (s.proc (current s))) [
  | none ↦ (state_mismatch, s)
  | some m ↦
      if cmd == 0
      then fut_register q s m arg0
      else if cmd == 1
      then fut_deregister s m arg0
      else if cmd == 2
      then fut_wait s m arg0 arg1
      else if cmd == 3
      then fut_wake s m arg0 (not (arg1 == 0))
      else dual_ret s (current s) bad_args
]

-- `plg_fut_on_fork_proc`; one answer of the allocator says whether a new map can be made.
pub plg_fut_on_fork_proc : FutSystem → ℕ → Err × FutSystem
plg_fut_on_fork_proc s cpid =
    let (ok, mem') = al_malloc s.kernel.mem in
    let s' = record s { kernel = record s.kernel { mem = mem' } } in
    elim (s.fut_maps cpid) [
      | some _ ↦ (state_mismatch, s)
      | none ↦ if ok then (success, set_map s' cpid (some [])) else (no_mem, s')
    ]

-- The pops of `plg_fut_on_reset_proc`, which leave the threads detached.
pub detach_loop : ℕ → ℕ → Kernel → Err × Kernel
detach_loop zero q k = (success, k)
detach_loop (suc fuel) q k =
    let (err, item, bwq) = bwq_pop (k.queues q) in
    let k' = set_queue k q bwq in
    elim item [
      | none ↦ (err, k')
      | some t ↦ detach_loop fuel q (
          set_thread k' t
            (record (k'.threads t) { wq = none; eax = state_mismatch; state = detatched }))
    ]

-- The iteration over the map.
pub reset_loop : FutMap → Kernel → Err × Kernel
unfolding detach_loop
reset_loop [] k = (success, k)
reset_loop ((u_fut, bwq) ∷ m) k = elim bwq [
  | none ↦ (state_mismatch, k)
  | some q ↦
      let (err, b, mem') = bwq_notify (k.queues q) bwq_notify_all k.mem in
      let k' = record (set_queue k q b) { mem = mem' } in
      let (err', k'') = detach_loop (suc (l_get_len b.ready_q)) q k' in
      let rest = reset_loop m k'' in
      if is_success err then (if is_empty err' then rest else (err', k'')) else (err, k')
]

pub plg_fut_on_reset_proc : FutSystem → ℕ → Err × FutSystem
unfolding reset_loop
plg_fut_on_reset_proc s pid = elim (s.fut_maps pid) [
  | none ↦ (state_mismatch, s)
  | some m ↦
      let (err, k) = reset_loop m s.kernel in
      let s' = record s { kernel = k } in
      if is_success err then (success, set_map s' pid (some (mp_clear m))) else (err, s')
]

-- `plg_fut_on_reap_proc`; the queues are given back with their map.
pub plg_fut_on_reap_proc : FutSystem → ℕ → Err × FutSystem
plg_fut_on_reap_proc s rpid = elim (s.fut_maps rpid) [
  | none ↦ (state_mismatch, set_map s rpid none)
  | some m ↦ (success, set_map s rpid none)
]
