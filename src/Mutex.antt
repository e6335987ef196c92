-- ===== src/Mutex.antt =====
-- u_concur/src/mutex.c: a mutex on a futex, run by any number of threads in any interleaving.
pub mod Invariant
pub mod Safety
mod Tests
use fern_os.Prelude.{ℕ, ◌≡◌, Bool, true, false, ◌==◌, if◌then◌else◌}

-- The values of the futex.
abbrev pub mut_unlocked : ℕ
mut_unlocked = 0

abbrev pub mut_locked_uncontended : ℕ
mut_locked_uncontended = 1

abbrev pub mut_locked_contended : ℕ
mut_locked_contended = 2

-- Where a thread stands. Each place is before one atomic access: a compare-and-swap, or a system
-- call, which the kernel runs without interruption.
pub data Pc : Type 0 where
  idle : Pc  -- not in `mut_lock` or `mut_unlock`, and without the lock
  trying : Pc  -- the test of the `while` of `mut_lock`
  contending : Pc  -- the first statement of its body
  waiting : Pc  -- before `sc_fut_wait`
  asleep : Pc  -- in the futex's wait queue
  critical : Pc  -- `mut_lock` has returned FOS_E_SUCCESS
  unlocking : Pc  -- the first test of `mut_unlock`
  unlocking_contended : Pc  -- its second test
  waking : Pc  -- before `sc_fut_wake`
  mismatch : Pc  -- `mut_unlock` has returned FOS_E_STATE_MISMATCH

-- `__sync_val_compare_and_swap`: the value that was there, and the one that is there now.
abbrev pub compare_and_swap : ℕ → ℕ → ℕ → ℕ × ℕ
compare_and_swap mut old new = (mut, if mut == old then new else mut)

-- One step of a thread that is inside `mut_lock` or `mut_unlock` and does not touch the others: the
-- futex and the thread's place after it. `sc_fut_wait` puts the thread to sleep if the futex still
-- holds the expected value, and otherwise returns FOS_E_SUCCESS.
pub move : ℕ → Pc → ℕ × Pc
move mut trying =
    let (seen, mut') = compare_and_swap mut mut_unlocked mut_locked_uncontended in
    (mut', if seen == mut_unlocked then critical else contending)
move mut contending =
    let (seen, mut') = compare_and_swap mut mut_locked_uncontended mut_locked_contended in
    (mut', waiting)
move mut waiting = (mut, if mut == mut_locked_contended then asleep else trying)
move mut unlocking =
    let (seen, mut') = compare_and_swap mut mut_locked_uncontended mut_unlocked in
    (mut', if seen == mut_locked_uncontended then idle else unlocking_contended)
move mut unlocking_contended =
    let (seen, mut') = compare_and_swap mut mut_locked_contended mut_unlocked in
    (mut', if seen == mut_locked_contended then waking else mismatch)
move mut p = (mut, p)

-- The futex, and where every thread stands.
pub record System : Type 0 where
  pub mut : ℕ
  pub pc : ℕ → Pc

-- `init_mutex`, before any thread uses the mutex.
abbrev pub init_mutex : System
init_mutex = record { mut = mut_unlocked; pc = λ i. idle }

abbrev pub update : (ℕ → Pc) → ℕ → Pc → ℕ → Pc
update f i p j = if j == i then p else f j

-- `sc_fut_wake` with `all`: every sleeper goes back to the test of the `while`.
abbrev pub wake_one : Pc → Pc
wake_one asleep = trying
wake_one p = p

abbrev pub wake_all : (ℕ → Pc) → ℕ → Pc
wake_all f j = wake_one (f j)

-- The places inside `mut_lock` and `mut_unlock` from which `move` goes on.
abbrev pub runs : Pc → Bool
runs trying = true
runs contending = true
runs waiting = true
runs unlocking = true
runs unlocking_contended = true
runs _ = false

-- The steps of the system. Only a thread that holds the lock calls `mut_unlock`.
pub data Step (s : System) : System → Type 0 where
  call_lock : (i : ℕ) → s.pc i ≡ idle → Step s (record s { pc = update s.pc i trying })
  call_unlock : (i : ℕ) → s.pc i ≡ critical → Step s (record s { pc = update s.pc i unlocking })
  run :
      (i : ℕ) (p : Pc)
      → s.pc i ≡ p
      → runs p ≡ true
      → Step s (record { mut = (move s.mut p).0; pc = update s.pc i (move s.mut p).1 })
  -- `sc_fut_wait` fails, and `mut_lock` returns the error without the lock.
  wait_fails : (i : ℕ) → s.pc i ≡ waiting → Step s (record s { pc = update s.pc i idle })
  wake : (i : ℕ) → s.pc i ≡ waking → Step s (record s { pc = update (wake_all s.pc) i idle })

pub data Reach : System → Type 0 where
  start : Reach init_mutex
  later : {s t : System} → Reach s → Step s t → Reach t
