-- ===== src/Kernel/Process.antt =====
-- k_startup/src/state.c, k_startup/include/k_startup/process.h: processes, and how signals and exits
-- spread over their tree.
pub mod Kept
pub mod Ends
pub mod Calls
mod Tests
pub mod Delivery
pub mod Signals
pub mod Zombie
pub mod Threads
use Prim.Native.Nat.{bit_and}
use fern_os.Prelude.{
  ℕ, zero, suc, ◌+◌, ◌/◌, ◌%◌, ◌^◌, Bool, true, false, not, ◌&&◌, ◌||◌, Option, none, some, List,
  [], ◌∷◌, ltb, leb, get_or, set, ◌==◌, if◌then◌else◌,
}
use fern_os.Err.{
  Err, success, unknown_error, bad_args, state_mismatch, not_permitted, is_success, is_empty,
}
use fern_os.Map.{Map}
use fern_os.ListT.{ListT, cells, l_get_len, l_push_back, l_push_back_all, l_pop_first_match}
use fern_os.WaitQueue.Vector.{VectorWaitQueue, vwq_notify_first, vwq_notify, vwq_pop}
use fern_os.Kernel.Thread.{
  Thread, detatched, Kernel, set_thread, set_vector, thread_detach, thread_schedule,
}
use fern_os.Kernel.UserMem.{UserMem, mem_cpy_to_user}

-- The fields of `process_t` that signals, exits and threads use. `sig_vec` is read and changed bit by
-- bit only, and is the function of its bits. `thread_table` has the threads that have an id, in the
-- order in which the table's iterator finds them.
pub record Process : Type 0 where
  pub exited : Bool
  pub exit_status : ℕ
  pub pid : ℕ
  pub parent : ℕ
  pub children : ListT ℕ
  pub zombie_children : ListT ℕ
  pub thread_table : Map ℕ
  pub join_queue : ℕ
  pub main_thread : ℕ
  pub sig_vec : ℕ → Bool
  pub sig_allow : ℕ
  pub signal_queue : ℕ

-- `kernel_state_t`, with what its pointers lead to: the processes by their addresses, of which 0 is
-- NULL, the memory of each, and the fields of threads that scheduling does not use.
pub record KernelState : Type 0 where
  pub kernel : Kernel
  pub curr_tick : ℕ
  pub thread_proc : ℕ → ℕ
  pub tid : ℕ → ℕ
  pub exit_ret_val : ℕ → ℕ
  pub user : ℕ → UserMem
  pub procs : ℕ → Process
  pub proc_table : Map ℕ
  pub root_proc : ℕ

abbrev pub set_proc : KernelState → ℕ → Process → KernelState
set_proc s p proc = record s { procs = λ i. if i == p then proc else s.procs i }

abbrev pub set_mem : KernelState → List Bool → KernelState
set_mem s mem = record s { kernel = record (s.kernel) { mem = mem } }

-- How a call ends: the system is shut down by `ks_shutdown`, which does not return, or it returns; or
-- the fuel of the model is used up.
pub data Out : Type 0 where
  shut_down : Out
  returned : Err → KernelState → Out
  out_of_fuel : Out

-- Going on after a call, unless it failed; `f` turns its error into the caller's.
abbrev pub and_then : Out → (Err → Err) → (KernelState → Out) → Out
and_then shut_down f g = shut_down
and_then out_of_fuel f g = out_of_fuel
and_then (returned err s) f g = elim (is_success err) [ true ↦ g s | false ↦ returned (f err) s ]

-- `v & (1 << i)` of a vector of 32 bits.
abbrev pub bit : ℕ → ℕ → Bool
bit v i = not (bit_and v (2 ^ i % 2 ^ 32) == 0)

abbrev pub set_bit : (ℕ → Bool) → ℕ → Bool → ℕ → Bool
set_bit v i x j = if j == i then x else v j

-- `FSIG_CHLD`, `PROC_ES_SIGNAL`
abbrev pub fsig_chld : ℕ
fsig_chld = 0

abbrev pub proc_es_signal : ℕ
proc_es_signal = 5

-- The bytes of a `uint32_t`, the lowest first.
abbrev pub word_bytes : ℕ → List ℕ
word_bytes v = v % 256 ∷ (v / 256 % 256 ∷ (v / 65536 % 256 ∷ (v / 16777216 % 256 ∷ [])))

-- `if (u_ptr) mem_cpy_to_user(...)`, whose error is not looked at.
abbrev pub put_user : KernelState → ℕ → ℕ → List ℕ → KernelState
put_user s p u_ptr bytes =
    let (_, _, um) = mem_cpy_to_user (s.user p) u_ptr bytes in
    if u_ptr == 0 then s else record s { user = λ i. if i == p then um else s.user i }

-- A thread that has been popped from a vector queue: it is detached by hand, and scheduled.
pub release : KernelState → ℕ → KernelState
release s t =
    let thr = s.kernel.threads t in
    let detached =
      set_thread s.kernel t
        (record thr { wait_ctx = set thr.wait_ctx 0 0; wq = none; state = detatched }) in
    record s { kernel = thread_schedule detached t }

abbrev pub set_eax : KernelState → ℕ → Err → KernelState
set_eax s t err = record s {
  kernel = set_thread s.kernel t (record (s.kernel.threads t) { eax = err });
}

-- The end of `ks_signal_p`, where a thread has been waiting for the signal.
pub wake_signalled : KernelState → ℕ → ℕ → ℕ → KernelState
unfolding release
wake_signalled s p sid t =
    let u_sid = get_or (s.kernel.threads t).wait_ctx 0 0 in
    let cleared =
      set_proc s p (record (s.procs p) { sig_vec = set_bit (s.procs p).sig_vec sid false }) in
    set_eax (put_user (release cleared t) (s.thread_proc t) u_sid (word_bytes sid)) t success

-- The part of `ks_signal_p` for an allowed signal whose bit is set: the signal queue is notified.
pub deliver : KernelState → ℕ → ℕ → Out
unfolding wake_signalled
deliver s p sid =
    let q = (s.procs p).signal_queue in
    let (err, vwq, mem') = vwq_notify (s.kernel.vectors q) sid vwq_notify_first s.kernel.mem in
    let s1 = set_mem (record s { kernel = set_vector s.kernel q vwq }) mem' in
    let (err', item, _, vwq') = vwq_pop vwq in
    let s2 = record s1 { kernel = set_vector s1.kernel q vwq' } in
    if not (is_success err) then returned err s1 else elim item [
      | some t ↦ returned success (wake_signalled s2 p sid t)
      | none ↦ returned (if is_empty err' then success else err') s2
    ]

-- The loop of `ks_abandon_children` that changes the parents.
abbrev pub reparent : List ℕ → ℕ → KernelState → KernelState
reparent [] q s = s
reparent (p ∷ ps) q s = reparent ps q (set_proc s p (record (s.procs p) { parent = q }))

abbrev pub detach_all : Map ℕ → KernelState → KernelState
detach_all [] s = s
detach_all ((_, t) ∷ ts) s = detach_all ts (record s { kernel = thread_detach s.kernel t })

abbrev pub as_unknown : Err → Err
as_unknown err = unknown_error

abbrev pub same_err : Err → Err
same_err err = err

-- The children that live, then the zombies, go to the root process.
pub adopt_children : KernelState → ℕ → Out
adopt_children s p =
    let root = s.root_proc in
    let s1 = reparent (cells (s.procs p).children) root s in
    let (err, l, rest, mem') =
      l_push_back_all (s1.procs root).children (s1.procs p).children s1.kernel.mem in
    let s2 = set_proc s1 root (record (s1.procs root) { children = l }) in
    returned (if is_success err then success else unknown_error)
      (set_mem (set_proc s2 p (record (s2.procs p) { children = rest })) mem')

pub adopt_zombies : KernelState → ℕ → Out
adopt_zombies s p =
    let root = s.root_proc in
    let s1 = reparent (cells (s.procs p).zombie_children) root s in
    let (err, l, rest, mem') =
      l_push_back_all (s1.procs root).zombie_children (s1.procs p).zombie_children s1.kernel.mem in
    let s2 = set_proc s1 root (record (s1.procs root) { zombie_children = l }) in
    returned (if is_success err then success else unknown_error)
      (set_mem (set_proc s2 p (record (s2.procs p) { zombie_children = rest })) mem')

-- `ks_abandon_children` and `ks_exit_proc_p` over the `ks_signal_p` that they call.
module _ (signal : KernelState → ℕ → ℕ → Out) where
  -- The root is told of new zombies.
  pub tell_root : Bool → KernelState → Out
  tell_root false s = returned success s
  tell_root true s =
      and_then (signal s s.root_proc fsig_chld) as_unknown (λ s'. returned success s')

  pub hand_over : Bool → KernelState → ℕ → Out
  unfolding adopt_children adopt_zombies
  hand_over signal_root s p =
      and_then (adopt_children s p) same_err
        (λ s1. and_then (adopt_zombies s1 p) same_err (tell_root signal_root))

  pub ks_abandon_children : KernelState → ℕ → Out
  unfolding tell_root hand_over
  ks_abandon_children s p =
      let proc = s.procs p in
      let signal_root = ltb 0 (l_get_len proc.zombie_children) in
      let occupied = ltb 0 (l_get_len proc.children) || signal_root in
      if p == 0
      then returned bad_args s
      else if p == s.root_proc
      then returned (if occupied then not_permitted else success) s
      else hand_over signal_root s p

  -- The part of `ks_exit_proc_p` after the children are gone: the process becomes a zombie.
  pub bury : ℕ → ℕ → KernelState → Out
  bury p status s =
      let q = (s.procs p).parent in
      let (removed, l) = l_pop_first_match (s.procs q).children (λ i. i == p) in
      let s1 = set_proc s q (record (s.procs q) { children = l }) in
      let s2 = set_proc s1 p (record (s1.procs p) { exited = true; exit_status = status }) in
      let q' = (s2.procs p).parent in
      let (err, z, mem') = l_push_back (s2.procs q').zombie_children p s2.kernel.mem in
      let s3 = set_mem (set_proc s2 q' (record (s2.procs q') { zombie_children = z })) mem' in
      if not removed then returned state_mismatch s1 else elim (is_success err) [
        | false ↦ returned err s3
        | true ↦ signal s3 (s3.procs p).parent fsig_chld
      ]

  pub exit_proc : KernelState → ℕ → ℕ → Out
  unfolding ks_abandon_children bury
  exit_proc s p status =
      if s.root_proc == p
      then shut_down
      else and_then (ks_abandon_children (detach_all (s.procs p).thread_table s) p) same_err
          (bury p status)

-- `ks_signal_p`. Each round of fuel is one signal that is sent because of the one before.
pub ks_signal_p : ℕ → KernelState → ℕ → ℕ → Out
unfolding deliver exit_proc
ks_signal_p zero s p sid = out_of_fuel
ks_signal_p (suc fuel) s p sid =
    let proc = s.procs p in
    let s1 = set_proc s p (record proc { sig_vec = set_bit proc.sig_vec sid true }) in
    if (p == 0) || leb 32 sid
    then returned bad_args s
    else if proc.sig_vec sid
    then returned success s
    else elim (bit proc.sig_allow sid) [
      | true ↦ deliver s1 p sid
      | false ↦ exit_proc (ks_signal_p fuel) s1 p proc_es_signal
    ]

pub ks_exit_proc_p : ℕ → KernelState → ℕ → ℕ → Out
unfolding exit_proc
ks_exit_proc_p fuel s p status = exit_proc (ks_signal_p fuel) s p status
