-- ===== src/Fat32/Chain/Table.antt =====
-- Chains in a table, as lists of slots, and how many slots of a table are in use.
use fern_os.Prelude.{
  ℕ, zero, suc, ◌≤◌, ◌<◌, ◌≡◌, ◌≢◌, refl, ap, sym, subst, ◌∙◌, Bool-cases, inl, inr, true, false,
  List, [], ◌∷◌, elem, length, arith, ◌==◌, if◌then◌else◌,
}
use fern_os.Fat32.{is_eoc}
use fern_os.Fat32.Slots.{with_slot}

-- `slots` are, in order, those of the chain that starts at `at` in a table of `n` slots.
module _ (n : ℕ) where
  abbrev pub Chain : (ℕ → ℕ) → ℕ → List ℕ → Type 0
  Chain fat at [] = is_eoc at ≡ true
  Chain fat at (i ∷ slots) = (at ≡ i) × (2 ≤ i) × (i < n) × Chain fat (fat i) slots

  Chain-unique :
      (fat : ℕ → ℕ) (at : ℕ) (xs ys : List ℕ)
      → n ≤ 0x0FFFFFF7
      → Chain fat at xs
      → Chain fat at ys
      → length xs ≡ length ys
  Chain-unique fat at [] [] small c c' = refl
  Chain-unique fat at [] (i ∷ ys) small c (e, ge, lt, _) = absurd (ground (arith, c, e, lt))
  Chain-unique fat at (i ∷ xs) [] small (e, ge, lt, _) c = absurd (ground (arith, c, e, lt))
  Chain-unique fat at (i ∷ xs) (j ∷ ys) small (e, _, _, c) (e', _, _, c') =
      ap suc
        (Chain-unique fat (fat i) xs ys small c (subst (λ k. Chain fat (fat k) ys) (sym e' ∙ e) c'))

  -- The rest of a chain from one of its slots on.
  Chain-from :
      (fat : ℕ → ℕ) (at k : ℕ) (xs : List ℕ)
      → Chain fat at xs
      → elem k xs ≡ true
      → (ys : List ℕ) × Chain fat k ys × (length ys ≤ length xs)
  Chain-from fat at k [] c h = cc h
  Chain-from fat at k (i ∷ xs) (e, ge, lt, c) h = elim (Bool-cases (k == i)) [
    | inl same ↦ (i ∷ xs, (ground (arith, same), ge, lt, c), omega arith)
    | inr other ↦
        let (ys, c', le) = Chain-from fat (fat i) k xs c (ground (arith, h, other)) in
        (ys, c', omega (arith, le))
  ]

  -- No chain comes back to its first slot.
  pub Chain-fresh :
      (fat : ℕ → ℕ) (at i : ℕ) (xs : List ℕ)
      → n ≤ 0x0FFFFFF7
      → Chain fat at (i ∷ xs)
      → elem i xs ≡ false
  Chain-fresh fat at i xs small (e, ge, lt, c) = elim (Bool-cases (elem i xs)) [
    | inr h ↦ h
    | inl h ↦
        let (ys, c', le) = Chain-from fat (fat i) i xs c h in
        let same = Chain-unique fat i (i ∷ xs) ys small (refl, ge, lt, c) c' in
        absurd (omega (arith, same, le))
  ]

  -- A chain does not depend on a slot that it has not.
  pub Chain-with_slot :
      (fat : ℕ → ℕ) (at k v : ℕ) (xs : List ℕ)
      → elem k xs ≡ false
      → Chain fat at xs
      → Chain (with_slot fat k v) at xs
  Chain-with_slot fat at k v [] h c = c
  Chain-with_slot fat at k v (i ∷ xs) h (e, ge, lt, c) =
      let other : (k == i) ≡ false = ground (arith, h) in
      (e, ge, lt, rw other (Chain-with_slot fat (fat i) k v xs (ground (arith, h)) c))

-- The slots of a table below `n` that are in use.
pub in_use : (ℕ → ℕ) → ℕ → ℕ
in_use fat zero = 0
in_use fat (suc n) = if fat n == 0 then in_use fat n else suc (in_use fat n)

pub in_use-le : (fat : ℕ → ℕ) (n : ℕ) → in_use fat n ≤ n
unfolding in_use
in_use-le fat zero = omega arith
in_use-le fat (suc n) = ground (arith, in_use-le fat n)

in_use-past : (fat : ℕ → ℕ) (i n v : ℕ) → n ≤ i → in_use (with_slot fat i v) n ≡ in_use fat n
unfolding in_use
in_use-past fat i zero v le = refl
in_use-past fat i (suc n) v le = ground (arith, in_use-past fat i n v (omega arith))

-- Freeing a slot that is in use leaves one fewer.
pub in_use-free :
    (fat : ℕ → ℕ) (i n : ℕ) → i < n → fat i ≢ 0 → suc (in_use (with_slot fat i 0) n) ≡ in_use fat n
unfolding in_use
in_use-free fat i zero lt used = absurd (omega arith)
in_use-free fat i (suc n) lt used = elim (Bool-cases (i == n)) [
  | inl e ↦
      let same : i ≡ n = ground (arith, e) in
      let now : (with_slot fat i 0 n == 0) ≡ true = ground (arith, e) in
      let before : (fat n == 0) ≡ false = ground (arith, used, ap fat same) in
      rw (now, before) (ap suc (in_use-past fat i n 0 (omega (arith, same))))
  | inr e ↦
      let same : with_slot fat i 0 n ≡ fat n = ground (arith, e) in
      let less = in_use-free fat i n (ground (arith, e)) used in rw same (ground (arith, less))
]
