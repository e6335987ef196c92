-- ===== src/Fat32/Chain/Queue.antt =====
-- Queues of free slots.
use fern_os.Prelude.{
  ℕ, zero, suc, ◌+◌, ◌*◌, ◌≤◌, ◌<◌, ◌≡◌, ◌≢◌, refl, Bool-cases, inl, inr, false, List, [], ◌∷◌, All,
  elem, arith, ◌==◌,
}
use fern_os.BlockDevice.{Sector}
use fern_os.Fat32.{mask}
use fern_os.Fat32.Slots.{word_at}
use fern_os.Fat32.Chain.{queue_free}

-- Every queued slot is a free slot of a table of `n` slots, and none is queued twice.
module _ (n : ℕ) (f : ℕ → ℕ) where
  abbrev pub Free : ℕ → Type 0
  Free k = (2 ≤ k) × (k < n) × (f k ≡ 0)

  abbrev pub IsQueue : List ℕ → Type 0
  IsQueue [] = Unit
  IsQueue (k ∷ ks) = Free k × (elem k ks ≡ false) × IsQueue ks

  -- Slots that are queued lie below a bound.
  abbrev Below : ℕ → List ℕ → Type 0
  Below m ks = All (λ k. k < m) ks

  Below-weaken : (m m' : ℕ) (ks : List ℕ) → m ≤ m' → Below m ks → Below m' ks
  Below-weaken m m' [] le h = tt
  Below-weaken m m' (k ∷ ks) le h = (omega (arith, h.0), Below-weaken m m' ks le h.1)

  Below-new : (m : ℕ) (ks : List ℕ) → Below m ks → elem m ks ≡ false
  Below-new m [] h = refl
  Below-new m (k ∷ ks) h = ground (arith, h.0, Below-new m ks h.1)

  pub queue_free-IsQueue :
      (count i ind : ℕ) (sector : Sector) (ks : List ℕ)
      → ((j : ℕ) → i ≤ j → j < i + count → mask (word_at sector (j * 4)) ≡ 0 → Free (ind * 128 + j))
      → Below (ind * 128 + i) ks
      → IsQueue ks
      → IsQueue (queue_free count i ind sector ks)
  unfolding queue_free
  queue_free-IsQueue zero i ind sector ks h below q = q
  queue_free-IsQueue (suc count) i ind sector ks h below q =
      let later =
        λ (j : ℕ) (le : suc i ≤ j) (lt : j < suc i + count) (z : mask (word_at sector (j * 4)) ≡ 0).
          h j (omega (arith, le)) (omega (arith, lt)) z in
      elim (Bool-cases (mask (word_at sector (i * 4)) == 0)) [
        | inr e ↦ rw e (
            queue_free-IsQueue count (suc i) ind sector ks later
              (Below-weaken (ind * 128 + i) (ind * 128 + suc i) ks (omega arith) below) q)
        | inl e ↦ rw e (
            queue_free-IsQueue count (suc i) ind sector ((ind * 128 + i) ∷ ks) later
              (omega arith, Below-weaken (ind * 128 + i) (ind * 128 + suc i) ks (omega arith) below)
              (
                h i (omega arith) (omega arith) (ground (arith, e)),
                Below-new (ind * 128 + i) ks below,
                q,
              ))
      ]

-- A slot that is in use is not queued, and free slots of one table may be free in another.
module _ (n : ℕ) (f : ℕ → ℕ) where
  pub elem-queue : (t : ℕ) (ks : List ℕ) → f t ≢ 0 → All (Free n f) ks → elem t ks ≡ false
  elem-queue t [] used q = refl
  elem-queue t (k ∷ ks) used (free, q) = ground (arith, used, free, elem-queue t ks used q)

  pub All-queue : (ks : List ℕ) → IsQueue n f ks → All (Free n f) ks
  All-queue [] q = tt
  All-queue (k ∷ ks) (free, _, q) = (free, All-queue ks q)

  module _ (g : ℕ → ℕ) (h : (k : ℕ) → Free n f k → Free n g k) where
    pub IsQueue-map : (ks : List ℕ) → IsQueue n f ks → IsQueue n g ks
    IsQueue-map [] q = tt
    IsQueue-map (k ∷ ks) (free, new, q) = (h k free, new, IsQueue-map ks q)

    pub Free-map : (ks : List ℕ) → All (Free n f) ks → All (Free n g) ks
    Free-map [] q = tt
    Free-map (k ∷ ks) (free, q) = (h k free, Free-map ks q)
