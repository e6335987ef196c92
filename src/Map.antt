-- ===== src/Map.antt =====
-- s_data/include/s_data/map.h: the contract of a map that is keyed by numbers, as the list of its
-- entries. The order of the entries is that of an iteration, which the contract leaves open.
use fern_os.Prelude.{
  ℕ, ◌≡◌, Bool-cases, inl, inr, ◌∙◌, All, Option, none, some, List, [], ◌∷◌, arith, not, select,
  ◌==◌, if◌then◌else◌,
}

abbrev pub Map {ℓ} : Type ℓ → Type ℓ
Map A = List (ℕ × A)

module _ {ℓ} {A : Type ℓ} where
  -- `mp_get`; the value of the entry with a key, if there is one.
  unfoldable pub mp_get : Map A → ℕ → Option A
  mp_get [] key = none
  mp_get ((k, v) ∷ m) key = if k == key then some v else mp_get m key

  -- `mp_remove`
  unfoldable pub mp_remove : Map A → ℕ → Map A
  mp_remove m key = select (λ e. not (e.0 == key)) m

  -- `mp_put`, where there is memory for it: the new entry takes the place of one with its key.
  unfoldable pub mp_put : Map A → ℕ → A → Map A
  unfolding mp_remove
  mp_put m key value = (key, value) ∷ mp_remove m key

  -- `mp_clear`
  abbrev pub mp_clear : Map A → Map A
  mp_clear m = []

  pub get-remove :
      (m : Map A) (k j : ℕ) → mp_get (mp_remove m k) j ≡ (if k == j then none else mp_get m j)
  unfolding mp_get mp_remove
  get-remove [] k j = ground arith
  get-remove ((i, v) ∷ m) k j = ground (arith, get-remove m k j)

  pub get-put :
      (m : Map A) (k j : ℕ) (v : A)
      → mp_get (mp_put m k v) j ≡ (if k == j then some v else mp_get m j)
  unfolding mp_put mp_get
  get-put m k j v = ground (arith, get-remove m k j)

  -- Every entry is the one that `mp_get` finds.
  abbrev pub IsMap : Map A → Type ℓ
  IsMap m = All (λ e. mp_get m e.0 ≡ some e.1) m

  kept-remove :
      (m l : Map A) (k : ℕ)
      → All (λ e. mp_get m e.0 ≡ some e.1) l
      → All (λ e. mp_get (mp_remove m k) e.0 ≡ some e.1) (mp_remove l k)
  unfolding mp_remove
  kept-remove m [] k h = tt
  kept-remove m (e ∷ l) k h = elim (Bool-cases (e.0 == k)) [
    | inl same ↦ rw same (kept-remove m l k h.1)
    | inr other ↦ rw other (get-remove m k e.0 ∙ ground (arith, h.0, other), kept-remove m l k h.1)
  ]

  kept-put :
      (m l : Map A) (k : ℕ) (v : A)
      → All (λ e. mp_get m e.0 ≡ some e.1) l
      → All (λ e. mp_get (mp_put m k v) e.0 ≡ some e.1) (mp_remove l k)
  unfolding mp_remove
  kept-put m [] k v h = tt
  kept-put m (e ∷ l) k v h = elim (Bool-cases (e.0 == k)) [
    | inl same ↦ rw same (kept-put m l k v h.1)
    | inr other ↦ rw other (get-put m k e.0 v ∙ ground (arith, h.0, other), kept-put m l k v h.1)
  ]

  pub remove-IsMap : (m : Map A) (k : ℕ) → IsMap m → IsMap (mp_remove m k)
  remove-IsMap m k h = kept-remove m m k h

  pub put-IsMap : (m : Map A) (k : ℕ) (v : A) → IsMap m → IsMap (mp_put m k v)
  unfolding mp_put
  put-IsMap m k v h = (get-put m k k v ∙ ground arith, kept-put m m k v h)
