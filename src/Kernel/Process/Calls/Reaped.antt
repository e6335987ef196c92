-- ===== src/Kernel/Process/Calls/Reaped.antt =====
-- What `ks_reap_proc` does to the zombie that it has found: `delete_process`, and the id given back.
use fern_os.Prelude.{
  ℕ, ◌≡◌, ◌⊎◌, inl, inr, refl, true, false, none, if◌then◌else◌, ◌==◌, Bool-cases,
}
use fern_os.Err.{Err, success, is_success}
use fern_os.Map.{Map, mp_get, mp_remove, get-remove}
use fern_os.Kernel.Process.{KernelState, Out, returned, put_user, set_eax, word_bytes, detach_all}
use fern_os.Kernel.Process.Calls.{delete_process, write_reaped, reap}
use fern_os.Kernel.Process.Calls.Told.{Told, write_reaped-Told}

-- The zombie `c` is reaped. The plugins are told of its end, its threads are taken off the schedule and
-- its handles are deleted; if one of these fails, so does the call. Then its id leads nowhere, all other
-- ids lead where they did, and the caller gets the id and the exit status.
abbrev pub Reaped :
    (on_reap delete_handles : KernelState → ℕ → Err × KernelState) (s : KernelState)
    (t c u_rcpid u_rces : ℕ)
    → Out
    → Type 0
Reaped on_reap delete_handles s t c u_rcpid u_rces out =
    let (err, s1) = on_reap s (s.procs c).pid in
    let rcpid = (s1.procs c).pid in
    let (err', d) = delete_handles (detach_all (s1.procs c).thread_table s1) c in
    (is_success err ≡ false) × (out ≡ returned err s1)
    ⊎ (is_success err ≡ true)
      × ((is_success err' ≡ false) × (out ≡ returned err' d)
          ⊎ (is_success err' ≡ true)
            × ((table : Map ℕ) × (s' : KernelState) × (out ≡ returned success s')
                × ((i : ℕ) → mp_get table i ≡ (if rcpid == i then none else mp_get d.proc_table i))
                × Told (record d { proc_table = table }) t u_rcpid u_rces rcpid
                    (s1.procs c).exit_status success s'))

module _ (on_reap delete_handles : KernelState → ℕ → Err × KernelState) (s : KernelState)
    (t c u_rcpid u_rces : ℕ) where
  -- The state after the plugins have been told, and after the process has been deleted.
  abbrev told : Err × KernelState
  told = on_reap s (s.procs c).pid

  abbrev gone : Err × KernelState
  gone = delete_handles (detach_all ((told.1).procs c).thread_table told.1) c

  reap-untold :
      is_success told.0 ≡ false
      → reap on_reap delete_handles s t c u_rcpid u_rces ≡ returned told.0 told.1
  unfolding reap
  reap-untold bad = rw bad refl

  reap-kept :
      is_success told.0 ≡ true
      → is_success gone.0 ≡ false
      → reap on_reap delete_handles s t c u_rcpid u_rces ≡ returned gone.0 gone.1
  unfolding reap delete_process
  reap-kept ok bad = rw (ok, bad) refl

  reap-done :
      is_success told.0 ≡ true
      → is_success gone.0 ≡ true
      → reap on_reap delete_handles s t c u_rcpid u_rces
        ≡ write_reaped
            (record (gone.1) { proc_table = mp_remove (gone.1).proc_table ((told.1).procs c).pid })
            t
            u_rcpid
            u_rces
            ((told.1).procs c).pid
            ((told.1).procs c).exit_status
            success
  unfolding reap delete_process
  reap-done ok ok' = rw (ok, ok') refl

  pub reap-Reaped :
      Reaped on_reap delete_handles s t c u_rcpid u_rces
        (reap on_reap delete_handles s t c u_rcpid u_rces)
  reap-Reaped = elim (Bool-cases (is_success told.0)) [
    | inr bad ↦ inl (bad, reap-untold bad)
    | inl ok ↦ elim (Bool-cases (is_success gone.0)) [
      | inr bad ↦ inr (ok, inl (bad, reap-kept ok bad))
      | inl ok' ↦
          let rcpid = ((told.1).procs c).pid in
          let rces = ((told.1).procs c).exit_status in
          let table = mp_remove (gone.1).proc_table rcpid in
          let s3 = record (gone.1) { proc_table = table } in
          let p = s3.thread_proc t in
          inr (
            ok,
            inr (
              ok',
              (
                table,
                set_eax
                    (put_user (put_user s3 p u_rcpid (word_bytes rcpid)) p u_rces (word_bytes rces))
                    t success,
                reap-done ok ok',
                get-remove (gone.1).proc_table rcpid,
                write_reaped-Told s3 t u_rcpid u_rces rcpid rces success,
              ),
            ),
          )
    ]
  ]
