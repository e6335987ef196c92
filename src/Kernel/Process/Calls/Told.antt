-- ===== src/Kernel/Process/Calls/Told.antt =====
-- What `ks_reap_proc` tells its caller: the two words that are written for the user, and `eax`.
use fern_os.Prelude.{
  ℕ, ◌≡◌, ◌≢◌, refl, ap, ◌∙◌, List, arith, Bool-cases, inl, inr, ◌==◌, if◌then◌else◌,
}
use fern_os.Err.{Err}
use fern_os.Kernel.UserMem.{UserMem, mem_cpy_to_user}
use fern_os.Kernel.Thread.{Thread, Kernel}
use fern_os.Kernel.Thread.Moves.{set_thread-at}
use fern_os.Kernel.Process.{KernelState, put_user, set_eax, word_bytes}
use fern_os.Kernel.Process.Delivery.{put_user-kernel, put_user-procs}

-- A memory after the word `v` has been written to the address `u_ptr`, where that is not NULL.
abbrev pub stored : ℕ → ℕ → UserMem → UserMem
stored u_ptr v um = if u_ptr == 0 then um else (mem_cpy_to_user um u_ptr (word_bytes v)).2

-- The thread `t` finds `err` in `eax`, its process the words `rcpid` and `rces` in its memory, and
-- neither the schedule, nor a process, nor the memory of another one has changed.
abbrev pub Told : KernelState → ℕ → ℕ → ℕ → ℕ → ℕ → Err → KernelState → Type 0
Told s t u_rcpid u_rces rcpid rces err s' =
    let p = s.thread_proc t in
    ((s'.kernel.threads t).eax ≡ err)
    × ((s'.kernel.schedule ≡ s.kernel.schedule)
        × ((s'.procs ≡ s.procs)
            × ((s'.proc_table ≡ s.proc_table)
                × ((s'.user p ≡ stored u_rces rces (stored u_rcpid rcpid (s.user p)))
                    × ((i : ℕ) → i ≢ p → s'.user i ≡ s.user i)))))

put_user-user :
    (s : KernelState) (p u_ptr v : ℕ)
    → ((put_user s p u_ptr (word_bytes v)).user p ≡ stored u_ptr v (s.user p))
      × ((i : ℕ) → i ≢ p → (put_user s p u_ptr (word_bytes v)).user i ≡ s.user i)
put_user-user s p u_ptr v = elim (Bool-cases (u_ptr == 0)) [
  | inl null ↦ rw (put_user, null) (refl, λ i other. refl)
  | inr ptr ↦ rw (put_user, ptr) (ground arith, λ i other. ground (arith, other))
]

put_user-proc_table :
    (s : KernelState) (p u_ptr : ℕ) (bytes : List ℕ)
    → (put_user s p u_ptr bytes).proc_table ≡ s.proc_table
put_user-proc_table s p u_ptr bytes = elim (Bool-cases (u_ptr == 0)) [
  | inl null ↦ rw (put_user, null) refl
  | inr ptr ↦ rw (put_user, ptr) refl
]

pub write_reaped-Told :
    (s : KernelState) (t u_rcpid u_rces rcpid rces : ℕ) (err : Err)
    → Told s t u_rcpid u_rces rcpid rces err (
        set_eax
          (put_user
            (put_user s (s.thread_proc t) u_rcpid (word_bytes rcpid))
            (s.thread_proc t)
            u_rces
            (word_bytes rces))
          t
          err)
write_reaped-Told s t u_rcpid u_rces rcpid rces err =
    let p = s.thread_proc t in
    let s1 = put_user s p u_rcpid (word_bytes rcpid) in
    let s2 = put_user s1 p u_rces (word_bytes rces) in
    let (here1, there1) = put_user-user s p u_rcpid rcpid in
    let (here2, there2) = put_user-user s1 p u_rces rces in
    (
      ap (λ (x : Thread). x.eax)
          (set_thread-at s2.kernel t (record (s2.kernel.threads t) { eax = err })),
      (
        ap (λ (x : Kernel). x.schedule)
            (put_user-kernel s1 p u_rces (word_bytes rces)
              ∙ put_user-kernel s p u_rcpid (word_bytes rcpid)),
        (
          put_user-procs s1 p u_rces (word_bytes rces)
              ∙ put_user-procs s p u_rcpid (word_bytes rcpid),
          (
            put_user-proc_table s1 p u_rces (word_bytes rces)
                ∙ put_user-proc_table s p u_rcpid (word_bytes rcpid),
            (here2 ∙ ap (stored u_rces rces) here1, λ i other. there2 i other ∙ there1 i other),
          ),
        ),
      ),
    )
