-- ===== src/Mutex/Tests.antt =====
-- Runs of the mutex, and the theorems about it at states that these reach.
use fern_os.Prelude.{ℕ, ◌≡◌, ◌≢◌, ◌⊎◌, refl, true, arith}
use fern_os.Mutex.{
  idle, trying, contending, waiting, asleep, critical, unlocking, unlocking_contended, waking,
  mismatch, mut_unlocked, move, System, update, call_lock, call_unlock, run, Reach, start, later,
}
use fern_os.Mutex.Invariant.{holds}
use fern_os.Mutex.Safety.{mutual_exclusion, no_lost_wakeup, unlock_wakes, unlock_no_mismatch}

-- Thread 0 has the lock, and thread 1 sleeps.
abbrev contended : System
contended = record {
  mut = 2;
  pc =
      update
        (update
          (update (update (update (update (λ i. idle) 0 trying) 0 critical) 1 trying) 1 contending)
          1 waiting)
        1 asleep;
}

Reach-contended : Reach contended
unfolding move
Reach-contended =
    later
      (later
        (later
          (later (later (later start (call_lock 0 refl)) (run 0 trying refl refl))
            (call_lock 1 refl))
          (run 1 trying refl refl))
        (run 1 contending refl refl))
      (run 1 waiting refl refl)

-- The same, with thread 0 in `mut_unlock`.
abbrev releasing : System
releasing = record contended { pc = update contended.pc 0 unlocking }

Reach-releasing : Reach releasing
Reach-releasing = later Reach-contended (call_unlock 0 refl)

mutual_exclusion_example : ◌≡◌ {A = ℕ} 0 0
mutual_exclusion_example = mutual_exclusion Reach-contended 0 0 refl refl

no_lost_wakeup_example :
    ((j : ℕ) × (holds (contended.pc j) ≡ true)) ⊎ ((j : ℕ) × (contended.pc j ≡ waking))
no_lost_wakeup_example = no_lost_wakeup Reach-contended 1 refl

-- Thread 0 has failed the first test of `mut_unlock`, and then thread 2 has begun to lock.
abbrev between : System
between = record contended { pc = update (update releasing.pc 0 unlocking_contended) 2 trying }

Reach-between : Reach between
unfolding move
Reach-between = later (later Reach-releasing (run 0 unlocking refl refl)) (call_lock 2 refl)

releasing_quiet : (k : ℕ) → releasing.pc k ≢ waking
releasing_quiet k = ground arith

unlock_wakes_example :
    (move 2 unlocking ≡ (2, unlocking_contended))
    × (move 2 unlocking_contended ≡ (mut_unlocked, waking))
unlock_wakes_example = unlock_wakes Reach-releasing 0 1 refl releasing_quiet refl Reach-between refl

unlock_no_mismatch_example : contended.pc 0 ≢ mismatch
unlock_no_mismatch_example = unlock_no_mismatch Reach-contended 0
