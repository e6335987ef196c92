-- ===== src/Mutex/Safety.antt =====
-- What holds of the mutex in every state that its threads can reach.
use fern_os.Prelude.{ℕ, ◌≡◌, ◌≢◌, ◌⊎◌, inl, inr, true, arith}
use fern_os.Mutex.{
  asleep, unlocking, unlocking_contended, waking, mismatch, mut_unlocked, mut_locked_contended,
  move, System, Reach,
}
use fern_os.Mutex.Invariant.{holds, Reach-Inv}

-- In every reachable state at most one thread holds the lock.
pub mutual_exclusion :
    {s : System} → Reach s → (i j : ℕ) → holds (s.pc i) ≡ true → holds (s.pc j) ≡ true → i ≡ j
mutual_exclusion r = (Reach-Inv r).unique

-- No wake-up is lost: in every reachable state in which a thread sleeps on the futex, some thread
-- holds the lock, or stands before the `sc_fut_wake` of `mut_unlock`. In the latter case the mutex may
-- be unlocked already.
pub no_lost_wakeup :
    {s : System}
    → Reach s
    → (i : ℕ) → s.pc i ≡ asleep
    → ((j : ℕ) × (holds (s.pc j) ≡ true)) ⊎ ((j : ℕ) × (s.pc j ≡ waking))
no_lost_wakeup r i e = elim ((Reach-Inv r).covered i e) [
  | inl two ↦ inl ((Reach-Inv r).held (omega arith))
  | inr w ↦ inr w
]

-- While another thread sleeps and no wake-up is on its way, the first compare-and-swap of `mut_unlock`
-- fails, changes nothing and leads to the second; and in every reachable state in which the thread
-- stands before the second one, whatever steps of others lie between, it passes, unlocks the mutex and
-- leads to `sc_fut_wake`.
pub unlock_wakes :
    {s s' : System}
    → Reach s
    → (i j : ℕ) → s.pc j ≡ asleep
    → ((k : ℕ) → s.pc k ≢ waking)
    → s.pc i ≡ unlocking
    → Reach s'
    → s'.pc i ≡ unlocking_contended
    → (move s.mut unlocking ≡ (s.mut, unlocking_contended))
      × (move s'.mut unlocking_contended ≡ (mut_unlocked, waking))
unfolding move
unlock_wakes {s} {s'} r i j e none u r' u' =
    let two' : s'.mut ≡ mut_locked_contended = (Reach-Inv r').second i u' in
    elim ((Reach-Inv r).covered j e) [
      | inl two ↦ (ground arith, ground arith)
      | inr (k, w) ↦ absurd (none k w)
    ]

-- `mut_unlock`, called by the thread that holds the lock, never returns FOS_E_STATE_MISMATCH.
pub unlock_no_mismatch : {s : System} → Reach s → (i : ℕ) → s.pc i ≢ mismatch
unlock_no_mismatch r = (Reach-Inv r).fine
