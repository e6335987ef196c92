-- ===== src/Kernel/Process/Calls/Reaping.antt =====
-- Whom `ks_reap_proc` reaps, and what it tells the others.
use fern_os.Prelude.{ℕ, ◌≡◌, ◌≢◌, ◌⊎◌, false, List, [], ◌∷◌, ◌++◌}
use fern_os.Err.{Err, success, empty, state_mismatch}
use fern_os.Kernel.Process.Calls.Reaped.{Reaped}
use fern_os.Kernel.Process.Calls.Told.{Told}
use fern_os.ListT.{ListT, cells}
use fern_os.Kernel.Process.{Process, KernelState, set_proc, Out, returned}
use fern_os.Kernel.Process.Calls.{idtb_get, Found, found, fails}

zombies_of : Process → List ℕ
zombies_of proc = cells proc.zombie_children

-- What is found among the zombies of `p`: the first of them, or the one with the id; else it is said
-- why there is none.
abbrev pub FoundOk : ℕ → KernelState → ℕ → ℕ → Found → Type 0
FoundOk max_procs s p cpid (fails err) = ⊥
FoundOk max_procs s p cpid (found err c rest) =
    (err ≡ success)
      × ((a b : List ℕ) × (cells (s.procs p).zombie_children ≡ a ++ (c ∷ b))
          × (cells rest ≡ a ++ b)
          × ((cpid ≡ max_procs) × (a ≡ []) ⊎ (cpid ≢ max_procs) × (idtb_get s cpid ≡ c)))
    ⊎ ((err ≡ empty)
          × ((cpid ≡ max_procs) × (cells (s.procs p).zombie_children ≡ [])
              ⊎ (cpid ≢ max_procs)
                × ((idtb_get s cpid ≢ 0)
                    × (((s.procs (idtb_get s cpid)).parent ≡ p)
                        × ((s.procs (idtb_get s cpid)).exited ≡ false))))
        ⊎ (err ≡ state_mismatch)
          × ((cpid ≢ max_procs) × ((idtb_get s cpid ≢ 0) → (s.procs (idtb_get s cpid)).parent ≢ p)))

-- Why nobody is reaped.
abbrev pub Refused : ℕ → KernelState → ℕ → ℕ → Err → Type 0
Refused max_procs s p cpid err =
    (err ≡ empty)
      × ((cpid ≡ max_procs) × (cells (s.procs p).zombie_children ≡ [])
          ⊎ (cpid ≢ max_procs)
            × ((idtb_get s cpid ≢ 0)
                × (((s.procs (idtb_get s cpid)).parent ≡ p)
                    × ((s.procs (idtb_get s cpid)).exited ≡ false))))
    ⊎ (err ≡ state_mismatch)
      × ((cpid ≢ max_procs) × ((idtb_get s cpid ≢ 0) → (s.procs (idtb_get s cpid)).parent ≢ p))

module _ (on_reap delete_handles : KernelState → ℕ → Err × KernelState) (max_procs : ℕ)
    (s : KernelState) (t : ℕ) (u_rcpid u_rces cpid : ℕ) where
  -- One zombie has left the list and is reaped; or the caller is told why not, and no process changes.
  abbrev pub ReapOut : Out → Type 0
  ReapOut out =
      let p = s.thread_proc t in
      ((c : ℕ) × (a b : List ℕ) × (rest : ListT ℕ) × (cells (s.procs p).zombie_children
          ≡ a ++ (c ∷ b))
        × (cells rest ≡ a ++ b)
        × ((cpid ≡ max_procs) × (a ≡ []) ⊎ (cpid ≢ max_procs) × (idtb_get s cpid ≡ c))
        × Reaped on_reap delete_handles
            (set_proc s p (record (s.procs p) { zombie_children = rest })) t c u_rcpid u_rces out)
      ⊎ ((err : Err) × (s' : KernelState) × (out ≡ returned success s')
          × Told s t u_rcpid u_rces max_procs 1 err s'
          × Refused max_procs s p cpid err)
