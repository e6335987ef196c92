-- ===== src/Mutex/Invariant.antt =====
-- What every step of the mutex keeps.
use fern_os.Prelude.{
  ℕ, ◌<◌, ◌≡◌, ◌≢◌, ◌⊎◌, inl, inr, refl, ap, sym, ◌∙◌, Bool, Bool-cases, ℕ_discrete, true, false,
  arith,
}
use fern_os.Mutex.{
  Pc, idle, trying, contending, waiting, asleep, critical, unlocking, unlocking_contended, waking,
  mismatch, mut_unlocked, mut_locked_contended, move, runs, System, update, wake_one, wake_all,
  init_mutex, Step, call_lock, call_unlock, run, wait_fails, wake, Reach, start, later,
}

-- A thread has the lock from the compare-and-swap of `mut_lock` to that of `mut_unlock`.
abbrev pub holds : Pc → Bool
holds critical = true
holds unlocking = true
holds unlocking_contended = true
holds _ = false

pub record Inv (s : System) : Type 0 where
  pub range : s.mut < 3
  pub held : s.mut ≢ mut_unlocked → (j : ℕ) × (holds (s.pc j) ≡ true)
  pub locked : (i : ℕ) → holds (s.pc i) ≡ true → s.mut ≢ mut_unlocked
  pub unique : (i j : ℕ) → holds (s.pc i) ≡ true → holds (s.pc j) ≡ true → i ≡ j
  pub second : (i : ℕ) → s.pc i ≡ unlocking_contended → s.mut ≡ mut_locked_contended
  pub covered :
      (i : ℕ) → s.pc i ≡ asleep → (s.mut ≡ mut_locked_contended) ⊎ ((j : ℕ) × (s.pc j ≡ waking))
  pub fine : (i : ℕ) → s.pc i ≢ mismatch

-- What a step of one thread may do to the futex and to its own place.
record IsFair (m : ℕ) (p : Pc) (m' : ℕ) (p' : Pc) : Type 0 where
  range : m' < 3
  taken : holds p' ≡ true → (m' ≢ 0) × ((holds p ≡ true) ⊎ (m ≡ 0))
  kept : holds p' ≡ false → m' ≢ 0 → (holds p ≡ false) × (m ≢ 0)
  freed : m' ≡ 0 → (m ≡ 0) ⊎ (holds p ≡ true)
  second : p' ≡ unlocking_contended → m' ≡ 2
  stays : m ≡ 2 → (m' ≡ 2) ⊎ (holds p ≡ true)
  covered : m ≡ 2 → (m' ≡ 2) ⊎ (p' ≡ waking)
  slept : p' ≡ asleep → m' ≡ 2
  fine : p' ≢ mismatch
  not_waking : p ≢ waking

move-IsFair :
    (m : ℕ) (p : Pc)
    → m < 3
    → (holds p ≡ true → m ≢ 0)
    → (p ≡ unlocking_contended → m ≡ 2)
    → runs p ≡ true
    → IsFair m p (move m p).0 (move m p).1
unfolding move
move-IsFair m trying h l s r = ground arith
move-IsFair m contending h l s r = ground arith
move-IsFair m waiting h l s r = ground arith
move-IsFair m unlocking h l s r = ground arith
move-IsFair m unlocking_contended h l s r = ground arith
move-IsFair m idle h l s r = cc
move-IsFair m asleep h l s r = cc
move-IsFair m critical h l s r = cc
move-IsFair m waking h l s r = cc
move-IsFair m mismatch h l s r = cc

module _ {s : System} (v : Inv s) (i : ℕ) (m' : ℕ) (p' : Pc) (f : IsFair s.mut (s.pc i) m' p') where
  abbrev after : System
  after = record { mut = m'; pc = update s.pc i p' }

  after_held : m' ≢ mut_unlocked → (j : ℕ) × (holds (after.pc j) ≡ true)
  after_held ne = elim (Bool-cases (holds p')) [
    | inl y ↦ (i, ground arith)
    | inr n ↦ let (free, locked) = f.kept n ne in let (j, h) = v.held locked in (j, ground arith)
  ]

  after_locked : (j : ℕ) → holds (after.pc j) ≡ true → m' ≢ mut_unlocked
  after_locked j h z = ground (arith, v.locked j, v.unique i j, f.freed z, f.taken)

  after_unique : (j k : ℕ) → holds (after.pc j) ≡ true → holds (after.pc k) ≡ true → j ≡ k
  after_unique j k hj hk =
      ground (arith, v.unique j k, v.unique i j, v.unique i k, v.locked j, v.locked k, f.taken)

  after_second : (j : ℕ) → after.pc j ≡ unlocking_contended → m' ≡ mut_locked_contended
  after_second j e = ground (arith, v.second j, f.second, f.stays, v.unique i j, ap holds e)

  after_covered :
      (j : ℕ)
      → after.pc j ≡ asleep
      → (m' ≡ mut_locked_contended) ⊎ ((k : ℕ) × (after.pc k ≡ waking))
  after_covered j e = elim (ℕ_discrete j i) [
    | yes same ↦ inl (f.slept (ground arith))
    | no other ↦ elim (v.covered j (ground arith)) [
      | inl two ↦ elim (f.covered two) [ inl two' ↦ inl two' | inr w ↦ inr (i, ground arith) ]
      | inr (k, w) ↦ inr (k, ground (arith, f.not_waking))
    ]
  ]

  fair-Inv : Inv after
  fair-Inv = record {
    range = f.range;
    held = after_held;
    locked = after_locked;
    unique = after_unique;
    second = after_second;
    covered = after_covered;
    fine = λ j e. ground (arith, v.fine j, f.fine);
  }

-- Waking every sleeper, and the end of `mut_unlock`.
module _ {s : System} (v : Inv s) (i : ℕ) (w : s.pc i ≡ waking) where
  abbrev woken : System
  woken = record s { pc = update (wake_all s.pc) i idle }

  holds-wake_one : (p : Pc) → holds (wake_one p) ≡ holds p
  holds-wake_one asleep = refl
  holds-wake_one idle = refl
  holds-wake_one _ = refl

  wake_one-ne :
      (p : Pc)
      → (wake_one p ≢ asleep)
        × (wake_one p ≡ unlocking_contended → p ≡ unlocking_contended)
        × (wake_one p ≡ mismatch → p ≡ mismatch)
  wake_one-ne asleep = ground arith
  wake_one-ne idle = ground arith
  wake_one-ne _ = ground arith

  holds-woken : (j : ℕ) → holds (woken.pc j) ≡ holds (s.pc j)
  holds-woken j = ground (arith, holds-wake_one (s.pc j), ap holds w)

  wake-Inv : Inv woken
  wake-Inv = record {
    range = v.range;
    held = λ ne. let (j, h) = v.held ne in (j, holds-woken j ∙ h);
    locked = λ j h. v.locked j (sym (holds-woken j) ∙ h);
    unique = λ j k hj hk. v.unique j k (sym (holds-woken j) ∙ hj) (sym (holds-woken k) ∙ hk);
    second = λ j e. ground (arith, v.second j, wake_one-ne (s.pc j));
    covered = λ j e. absurd (ground (arith, wake_one-ne (s.pc j)));
    fine = λ j e. ground (arith, v.fine j, wake_one-ne (s.pc j));
  }

-- Every step of the system keeps the invariant.
pub Step-Inv : {s t : System} → Step s t → Inv s → Inv t
Step-Inv {s} (call_lock i e) v = fair-Inv v i s.mut trying (rw e (ground (arith, v.range)))
Step-Inv {s} (call_unlock i e) v =
    fair-Inv v i s.mut unlocking (rw e (ground (arith, v.range, v.locked i, ap holds e)))
Step-Inv {s} (run i p e r) v = fair-Inv v i (move s.mut p).0 (move s.mut p).1 (
    rw e
      (move-IsFair s.mut p v.range (λ h. v.locked i (ap holds e ∙ h)) (λ u. v.second i (e ∙ u)) r))
Step-Inv {s} (wait_fails i e) v = fair-Inv v i s.mut idle (rw e (ground (arith, v.range)))
Step-Inv {s} (wake i e) v = wake-Inv v i e

init_mutex-Inv : Inv init_mutex
init_mutex-Inv = record {
  range = omega arith;
  held = λ ne. absurd (ne refl);
  locked = λ i h. cc;
  unique = λ i j h k. cc;
  second = λ i e. cc;
  covered = λ i e. cc;
  fine = λ i e. cc;
}

pub Reach-Inv : {s : System} → Reach s → Inv s
Reach-Inv start = init_mutex-Inv
Reach-Inv (later r st) = Step-Inv st (Reach-Inv r)
