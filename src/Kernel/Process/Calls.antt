-- ===== src/Kernel/Process/Calls.antt =====
-- k_startup/src/state.c: the system calls of signals and of processes that end. Each works for the
-- thread that stands first in the schedule.
pub mod Waiting
pub mod Told
pub mod Reaped
pub mod Reaping
pub mod Runs
use fern_os.Prelude.{
  ℕ, zero, suc, ◌+◌, ◌≡◌, refl, ap, ◌∙◌, Bool, true, false, not, ◌&&◌, ◌||◌, Option, none, some,
  List, [], ◌∷◌, ltb, leb, set, ◌==◌, if◌then◌else◌,
}
use fern_os.Err.{Err, success, bad_args, empty, state_mismatch, is_success}
use fern_os.Map.{mp_get, mp_remove}
use fern_os.ListT.{ListT, l_get_len, l_pop_front, l_pop_first_match}
use fern_os.WaitQueue.Vector.{vwq_enqueue}
use fern_os.Kernel.Thread.{vector, block, set_thread, set_vector, thread_detach}
use fern_os.Kernel.Process.{
  Process, KernelState, set_proc, set_mem, Out, returned, and_then, same_err, bit, set_bit,
  proc_es_signal, word_bytes, put_user, set_eax, detach_all, ks_signal_p, ks_exit_proc_p,
}

-- `if (!(ks->schedule.head))`
unfoldable pub with_head : List ℕ → KernelState → (ℕ → Out) → Out
with_head [] s call = returned state_mismatch s
with_head (t ∷ _) s call = call t

pub with_head-cons :
    (l : List ℕ) (t : ℕ) (ts : List ℕ) (s : KernelState) (call : ℕ → Out)
    → l ≡ t ∷ ts
    → with_head l s call ≡ call t
unfolding with_head
with_head-cons l t ts s call e = ap (λ r. with_head r s call) e

-- `DUAL_RET` of an error code to the thread.
abbrev pub dual_ret : KernelState → ℕ → Err → Out
dual_ret s t err = returned success (set_eax s t err)

-- A pointer, of which NULL is 0.
abbrev pub or_null : Option ℕ → ℕ
or_null none = 0
or_null (some p) = p

-- The thread is told of success, unless its process has exited.
abbrev pub succeed : ℕ → KernelState → Out
succeed t s =
    returned success (if (s.procs (s.thread_proc t)).exited then s else set_eax s t success)

-- `idtb_get(ks->proc_table, pid)`
abbrev pub idtb_get : KernelState → ℕ → ℕ
idtb_get s pid = or_null (mp_get s.proc_table pid)

-- Where a signal goes; `max_procs` is `FC_CORE_MAX_PROCS`.
abbrev pub receiver : ℕ → KernelState → ℕ → ℕ → ℕ
receiver max_procs s t pid =
    if pid == max_procs
    then (s.procs (s.thread_proc t)).parent
    else or_null (mp_get s.proc_table pid)

unfoldable pub send : ℕ → KernelState → ℕ → ℕ → ℕ → Out
send fuel s t recv sid = elim (recv == 0) [
  | true ↦ dual_ret s t state_mismatch
  | false ↦ and_then (ks_signal_p fuel s recv sid) same_err (succeed t)
]

-- `ks_signal`
unfoldable pub ks_signal : ℕ → ℕ → KernelState → ℕ → ℕ → Out
unfolding with_head send
ks_signal max_procs fuel s pid sid =
    with_head s.kernel.schedule s (λ t. send fuel s t (receiver max_procs s t pid) sid)

-- The first of `n` bits from `i` on for which a test holds.
unfoldable pub first_bit : (ℕ → Bool) → ℕ → ℕ → Option ℕ
first_bit f i zero = none
first_bit f i (suc n) = let later = first_bit f (suc i) n in if f i then some i else later

-- A vector is not 0.
abbrev pub is_set : Option ℕ → Bool
is_set none = false
is_set (some _) = true

-- The wait for a signal: the thread is put on the signal queue and taken off the schedule.
pub wait_signal : KernelState → ℕ → ℕ → ℕ → Out
wait_signal s t sv u_sid =
    let q = (s.procs (s.thread_proc t)).signal_queue in
    let (err, vwq, mem') = vwq_enqueue (s.kernel.vectors q) t sv s.kernel.mem in
    let s' = set_mem (record s { kernel = set_vector s.kernel q vwq }) mem' in
    if is_success err
    then returned success (record s' { kernel = block s'.kernel t (vector q) (some u_sid) })
    else returned err s'

-- A pending signal is taken at once.
unfoldable pub take_signal : KernelState → ℕ → ℕ → ℕ → Out
take_signal s t msid u_sid =
    let p = s.thread_proc t in
    let cleared =
      set_proc s p (record (s.procs p) { sig_vec = set_bit (s.procs p).sig_vec msid false }) in
    dual_ret (put_user cleared p u_sid (word_bytes msid)) t success

-- What the loop over the pending signals has found is served.
unfoldable pub serve : KernelState → ℕ → ℕ → ℕ → Option ℕ → Out
unfolding wait_signal take_signal
serve s t sv u_sid (some msid) = take_signal s t msid u_sid
serve s t sv u_sid none = wait_signal s t sv u_sid

-- `ks_wait_signal`. The loop over the signals finds one just if `sv & proc->sig_vec` is not 0.
unfoldable pub ks_wait_signal : KernelState → ℕ → ℕ → Out
unfolding with_head first_bit serve
ks_wait_signal s sv u_sid = with_head s.kernel.schedule s (λ t.
    let p = s.thread_proc t in
    if sv == 0
    then dual_ret (put_user s p u_sid (word_bytes 32)) t bad_args
    else serve s t sv u_sid (first_bit (λ i. bit sv i && (s.procs p).sig_vec i) 0 32))

-- `ks_signal_clear`
unfoldable pub ks_signal_clear : KernelState → ℕ → Out
unfolding with_head
ks_signal_clear s sv = with_head s.kernel.schedule s (λ t.
    let p = s.thread_proc t in
    let proc = s.procs p in
    returned success
      (set_proc s p (record proc { sig_vec = λ i. proc.sig_vec i && not (bit sv i) })))

-- `ks_exit_proc`
pub ks_exit_proc : ℕ → KernelState → ℕ → Out
unfolding with_head
ks_exit_proc fuel s status =
    with_head s.kernel.schedule s (λ t. ks_exit_proc_p fuel s (s.thread_proc t) status)

-- `ks_allow_signal`, and the old vector, which is what a thread that goes on finds in `eax`.
pub ks_allow_signal : ℕ → KernelState → ℕ → Out × Option ℕ
unfolding first_bit
ks_allow_signal fuel s sv = elim s.kernel.schedule [
  | [] ↦ (returned state_mismatch s, none)
  | t ∷ _ ↦
      let p = s.thread_proc t in
      let s' = set_proc s p (record (s.procs p) { sig_allow = sv }) in
      elim (is_set (first_bit (λ i. not (bit sv i) && (s.procs p).sig_vec i) 0 32)) [
        | true ↦ (ks_exit_proc_p fuel s' p proc_es_signal, none)
        | false ↦ (returned success s', some (s.procs p).sig_allow)
      ]
]

-- `PROC_ES_UNSET`
abbrev pub proc_es_unset : ℕ
proc_es_unset = 1

-- What `ks_reap_proc` finds: the error for the user, the process to reap and the list of zombies that
-- is left; or the system call fails.
pub data Found : Type 0 where
  found : Err → ℕ → ListT ℕ → Found
  fails : Err → Found

-- Any zombie is reaped.
pub find_any : Process → Found
find_any proc =
    let (err, rproc, rest) = l_pop_front proc.zombie_children in
    if not (ltb 0 (l_get_len proc.zombie_children))
    then found empty 0 proc.zombie_children
    else if is_success err
    then found success (or_null rproc) rest
    else fails err

-- The process that an id leads to is reaped, if it is a zombie and a child of `p`.
pub find_pid : KernelState → ℕ → ℕ → Found
find_pid s p rproc =
    let zombies = (s.procs p).zombie_children in
    let (removed, rest) = l_pop_first_match zombies (λ i. i == rproc) in
    if not (rproc == 0) && ((s.procs rproc).parent == p)
    then (if (s.procs rproc).exited
        then (if removed then found success rproc rest else fails state_mismatch)
        else found empty 0 zombies)
    else found state_mismatch 0 zombies

-- The end of `ks_reap_proc`: what is written for the user.
abbrev pub write_reaped : KernelState → ℕ → ℕ → ℕ → ℕ → ℕ → Err → Out
write_reaped s t u_rcpid u_rces rcpid rces user_err =
    let p = s.thread_proc t in
    dual_ret (put_user (put_user s p u_rcpid (word_bytes rcpid)) p u_rces (word_bytes rces)) t
      user_err

-- `plgs_on_reap_proc` is a parameter, and so is the part of `delete_process` that deletes the handles;
-- what the latter frees is gone with the process.
module _ (on_reap delete_handles : KernelState → ℕ → Err × KernelState) where
  pub delete_process : KernelState → ℕ → Err × KernelState
  delete_process s p = delete_handles (detach_all (s.procs p).thread_table s) p

  -- `idtb_push_id` takes the process from the table.
  pub reap : KernelState → ℕ → ℕ → ℕ → ℕ → Out
  unfolding delete_process
  reap s t rproc u_rcpid u_rces =
      let (err, s1) = on_reap s (s.procs rproc).pid in
      let rcpid = (s1.procs rproc).pid in
      let rces = (s1.procs rproc).exit_status in
      let (err', s2) = delete_process s1 rproc in
      let s3 = record s2 { proc_table = mp_remove s2.proc_table rcpid } in
      if not (is_success err)
      then returned err s1
      else if is_success err'
      then write_reaped s3 t u_rcpid u_rces rcpid rces success
      else returned err' s2

  pub go_reap : ℕ → KernelState → ℕ → ℕ → ℕ → Found → Out
  unfolding reap
  go_reap max_procs s t u_rcpid u_rces (fails err) = returned err s
  go_reap max_procs s t u_rcpid u_rces (found err rproc rest) =
      let p = s.thread_proc t in
      let s1 = set_proc s p (record (s.procs p) { zombie_children = rest }) in
      if is_success err
      then reap s1 t rproc u_rcpid u_rces
      else write_reaped s t u_rcpid u_rces max_procs proc_es_unset err

  -- `ks_reap_proc`
  pub ks_reap_proc : ℕ → KernelState → ℕ → ℕ → ℕ → Out
  unfolding with_head find_any find_pid go_reap
  ks_reap_proc max_procs s cpid u_rcpid u_rces = with_head s.kernel.schedule s (λ t.
      let p = s.thread_proc t in
      go_reap max_procs s t u_rcpid u_rces
        (if cpid == max_procs then find_any (s.procs p) else find_pid s p (idtb_get s cpid)))
