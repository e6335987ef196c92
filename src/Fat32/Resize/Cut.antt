-- ===== src/Fat32/Resize/Cut.antt =====
-- What giving a chain another length does, and the links that are dropped.
use fern_os.Prelude.{
  ℕ, ◌<◌, ◌≡◌, ◌≢◌, ◌⊎◌, refl, ap, sym, subst, ◌∙◌, inl, true, false, Option, some, List, [], ◌∷◌,
  elem, take, length, arith,
}
use mathlib.Core.Path.{fun_ext}
use fern_os.Err.{Err, success, no_space}
use fern_os.BlockDevice.{BlockDevice, IsDisk}
use fern_os.Fat32.{Layout, eoc, is_eoc, Dev}
use fern_os.Fat32.Slots.{fat, moved, with_slot, fat32_set_fat_slot_lem}
use fern_os.Fat32.Chain.Table.{Chain, Chain-fresh, Chain-with_slot}
use fern_os.Fat32.Chain.Free.{freed, fat32_free_chain-freed}
use fern_os.Fat32.Chain.Queue.{IsQueue, elem-queue, All-queue, IsQueue-map}
use fern_os.Fat32.Chain.Taking.{FitsQueue, IsReady, elem-with_slot}
use fern_os.Fat32.Resize.{cut}

module _ (b : BlockDevice) (d : IsDisk b) (l : Layout) where
  open l use {num_fat_slots}

  -- What giving the chain of `xs` at `at` in the table `f` the length `len` does. The new chain starts
  -- with the old one or is a start of it; a slot that is added was free, and one that is dropped is.
  abbrev pub Resized : (ℕ → ℕ) → ℕ → List ℕ → ℕ → Option (Err × Dev b l) → Type 0
  Resized f at xs len out =
      (dev : Dev b l) × IsReady b d l dev
      × (((slots : List ℕ) × (out ≡ some (success, dev))
            × Chain num_fat_slots (fat b d l dev) at slots
            × (length slots ≡ len)
            × (take (length xs) slots ≡ take len xs)
            × ((j : ℕ) → elem j slots ≡ true → elem j xs ≡ false → f j ≡ 0)
            × ((j : ℕ) → elem j slots ≡ false → fat b d l dev j ≡ freed f xs j))
          ⊎ ((out ≡ some (no_space, dev)) × (fat b d l dev ≡ f) × (length xs < len)))

  -- Writing a slot that is in use leaves the queue sound.
  pub set-IsQueue :
      (f : ℕ → ℕ) (t v : ℕ) (q : List ℕ)
      → f t ≢ 0
      → IsQueue num_fat_slots f q
      → IsQueue num_fat_slots (with_slot f t v) q
  set-IsQueue f t v q used ready =
      elem-with_slot b d l f t v q
        (elem-queue num_fat_slots f t q used (All-queue num_fat_slots f q ready)) ready

  -- The end: the links behind `iter` are dropped.
  pub cut-Resized :
      (iter : ℕ) (rest : List ℕ) (dev : Dev b l)
      → FitsQueue b d l
      → IsReady b d l dev
      → Chain num_fat_slots (fat b d l dev) iter (iter ∷ rest)
      → Resized (fat b d l dev) iter (iter ∷ rest) 1 (cut b l iter (fat b d l dev iter) dev)
  unfolding cut
  cut-Resized iter [] dev f ready (e, ge, lt, c) = (
    dev,
    ready,
    inl (
      iter ∷ [],
      rw c refl,
      (refl, ge, lt, c),
      refl,
      refl,
      (λ j h h'. ground (arith, h, h')),
      λ j h. ground (arith, h),
    ),
  )
  cut-Resized iter (k ∷ rest) dev f ready (e, ge, lt, c) =
      let g = fat b d l dev in
      let (at_k, ge', lt', c') = c in
      let inner : is_eoc (g iter) ≡ false = ground (arith, at_k, lt', f.fits.no_mark) in
      let used : g iter ≢ 0 = ground (arith, at_k, ge') in
      let fresh = Chain-fresh num_fat_slots g iter iter (k ∷ rest) f.fits.no_mark (e, ge, lt, c) in
      let (bd, put, valid, new) = fat32_set_fat_slot_lem b d l dev iter eoc f.fits ready.0 lt in
      let dev1 = moved b d l dev bd in
      let chain : Chain num_fat_slots (fat b d l dev1) (g iter) (k ∷ rest) =
        subst (λ h. Chain num_fat_slots h (g iter) (k ∷ rest)) (sym new)
          (Chain-with_slot num_fat_slots g (g iter) iter eoc (k ∷ rest) fresh c) in
      let (bd', run, valid', new') =
        fat32_free_chain-freed b d l (g iter) (k ∷ rest) dev1 f.fits valid
          (omega (arith, at_k, ge')) (omega (arith, at_k, lt')) chain in
      let now : (j : ℕ)
          → fat b d l (moved b d l dev bd') j ≡ freed (with_slot g iter eoc) (k ∷ rest) j =
        λ j. ap (λ h. h j) new' ∙ ap (λ h. freed h (k ∷ rest) j) new in
      let ends : fat b d l (moved b d l dev bd') iter ≡ eoc = now iter ∙ ground (arith, fresh) in
      (
        moved b d l dev bd',
        (
          valid',
          subst (λ h. IsQueue num_fat_slots h dev.free_q) (sym (fun_ext now))
              (IsQueue-map num_fat_slots (with_slot g iter eoc)
                (freed (with_slot g iter eoc) (k ∷ rest)) (λ x fr. ground (arith, fr)) dev.free_q
                (set-IsQueue g iter eoc dev.free_q used ready.1)),
        ),
        inl (
          iter ∷ [],
          rw (inner, put) run,
          (refl, ge, lt, ap is_eoc ends),
          refl,
          refl,
          (λ j h h'. ground (arith, h, h')),
          λ j h. now j ∙ ground (arith, h),
        ),
      )
