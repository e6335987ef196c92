-- ===== src/FixedQueue/Window.antt =====
-- The cells of a cyclic buffer, in order from an index on.
use fern_os.Prelude.{
  ℕ, zero, suc, ◌+◌, ◌-◌, ◌%◌, ◌^◌, ◌≤◌, ◌<◌, ◌≡◌, refl, ap, ap₂, List, [], ◌∷◌, ◌++◌, arith, some,
  length, get_or, get_or-set, get_elem?, set, leb, ◌==◌, if◌then◌else◌,
}
use fern_os.FixedQueue.{add_size}

-- One step round a buffer of `cap` cells, and `n` steps from an index below `cap`.
abbrev pub next_slot : ℕ → ℕ → ℕ
next_slot cap h = if (h + 1) == cap then 0 else h + 1

abbrev pub slot : ℕ → ℕ → ℕ → ℕ
slot cap h n = if leb cap (h + n) then h + n - cap else h + n

-- The code's step round the buffer does not wrap as a `size_t`.
pub add_size-next_slot : (cap h : ℕ) → cap < 2 ^ 32 → h < cap → add_size h 1 % cap ≡ next_slot cap h
add_size-next_slot cap h small lt = let e : add_size h 1 ≡ h + 1 = omega arith in rw e (grind arith)

-- The `n` cells from index `h` on.
abbrev pub window : List ℕ → ℕ → ℕ → ℕ → List ℕ
window buf cap h zero = []
window buf cap h (suc n) = get_or buf h 0 ∷ window buf cap (next_slot cap h) n

pub length-window : (buf : List ℕ) (cap h n : ℕ) → length (window buf cap h n) ≡ n
length-window buf cap h zero = refl
length-window buf cap h (suc n) = ap suc (length-window buf cap (next_slot cap h) n)

pub window_of_pos :
    (buf : List ℕ) (cap h n : ℕ)
    → 0 < n
    → window buf cap h n ≡ get_or buf h 0 ∷ window buf cap (next_slot cap h) (n - 1)
window_of_pos buf cap h zero p = absurd (omega arith)
window_of_pos buf cap h (suc n) p = ap (λ k. window buf cap h (suc k)) (omega arith)

pub get_elem?-eq-get_or :
    (buf : List ℕ) (i : ℕ) → i < length buf → get_elem? buf i ≡ some (get_or buf i 0)
get_elem?-eq-get_or [] i h = absurd (omega arith)
get_elem?-eq-get_or (x ∷ xs) zero h = refl
get_elem?-eq-get_or (x ∷ xs) (suc i) h = get_elem?-eq-get_or xs i (omega arith)

-- Writing the cell just past a window that does not fill the buffer extends it by that cell.
pub window-set :
    (buf : List ℕ) (cap v n h i : ℕ)
    → cap ≤ length buf
    → h < cap
    → n < cap
    → i ≡ slot cap h n
    → window (set buf i v) cap h (suc n) ≡ window buf cap h n ++ (v ∷ [])
window-set buf cap v zero h i hs hh hn e = ground (arith, get_or-set buf i h v 0)
window-set buf cap v (suc n) h i hs hh hn e =
    ap₂ ◌∷◌ (ground (arith, get_or-set buf i h v 0))
      (window-set buf cap v n (next_slot cap h) i hs (ground arith) (omega arith) (ground arith))
