-- ===== src/Fat32/Chain/Free.antt =====
-- Freeing a chain.
use fern_os.Prelude.{
  ℕ, zero, suc, ◌+◌, ◌≤◌, ◌<◌, ◌≡◌, ◌≢◌, ◌⊎◌, refl, ap, sym, subst, ◌∙◌, Bool-cases, inl, inr,
  false, not, ◌&&◌, Option, some, List, [], ◌∷◌, elem, arith, ◌==◌, if◌then◌else◌,
}
use mathlib.Core.Path.{fun_ext}
use fern_os.Err.{Err, success, state_mismatch}
use fern_os.BlockDevice.{BlockDevice, IsDisk}
use fern_os.Fat32.{Layout, mask, is_eoc, Dev}
use fern_os.Fat32.Slots.{
  Fits, fat, table, moved, with_slot, fat32_get_fat_slot_lem, fat32_set_fat_slot_lem,
}
use fern_os.Fat32.Chain.{no_slot, free_loop, fat32_free_chain}
use fern_os.Fat32.Chain.Table.{Chain, Chain-fresh, Chain-with_slot, in_use, in_use-le, in_use-free}

-- A table with the slots of a list free.
abbrev pub freed : (ℕ → ℕ) → List ℕ → ℕ → ℕ
freed f slots j = if elem j slots then 0 else f j

-- A table that keeps or frees each slot of one that has a slot freed.
kept_or_freed :
    (f g h : ℕ → ℕ) (i : ℕ)
    → g ≡ with_slot f i 0
    → ((j : ℕ) → (h j ≡ g j) ⊎ (h j ≡ 0))
    → (j : ℕ) → (h j ≡ f j) ⊎ (h j ≡ 0)
kept_or_freed f g h i new changes j = elim (changes j) [
  | inr z ↦ inr z
  | inl kept ↦ elim (Bool-cases (i == j)) [
    | inl here ↦ inr (kept ∙ ap (λ t. t j) new ∙ ground (arith, here))
    | inr away ↦ inl (kept ∙ ap (λ t. t j) new ∙ ground (arith, away))
  ]
]

module _ (b : BlockDevice) (d : IsDisk b) (l : Layout) where
  open l use {num_fat_slots}

  -- One round of the loop at a slot of the table: what the slot held decides.
  pub free_loop-round :
      (n i : ℕ) (dev : Dev b l)
      → Fits b d l
      → d.IsValid dev.bd
      → 2 ≤ i
      → i < num_fat_slots
      → let next = fat b d l dev i in
        (bd bd' : b.State) × (free_loop b l (suc n) i dev ≡ (
          if not (is_eoc next) && no_slot b l next
          then some (state_mismatch, moved b d l dev bd)
          else free_loop b l n next (moved b d l dev bd')))
        × d.IsValid bd
        × d.IsValid bd'
        × (d.sector bd ≡ d.sector dev.bd)
        × (fat b d l (moved b d l dev bd') ≡ with_slot (fat b d l dev) i 0)
  unfolding free_loop
  free_loop-round n i dev f v ge lt =
      let (bd, got, valid, same) = fat32_get_fat_slot_lem b d l dev i f v lt in
      let (bd', put, valid', new) =
        fat32_set_fat_slot_lem b d l (moved b d l dev bd) i 0 f valid lt in
      let inner : is_eoc i ≡ false = ground (arith, f.no_mark) in
      (
        bd,
        bd',
        rw (got, put, inner) refl,
        valid,
        valid',
        same,
        new ∙ ap (λ s. with_slot (table (l.bd_offset + l.fat_offset) s) i 0) same,
      )

  -- In a chain, what a slot holds is a slot or the end, and not 0.
  pub Chain-goes :
      (at : ℕ) (slots : List ℕ) (dev : Dev b l)
      → Fits b d l
      → Chain num_fat_slots (fat b d l dev) at slots
      → ((not (is_eoc at) && no_slot b l at) ≡ false) × (1 < at)
  Chain-goes at [] dev f c = ground (arith, c)
  Chain-goes at (i ∷ slots) dev f (e, ge, lt, c) = ground (arith, e, ge, lt)

  -- Enough fuel for a table: one round for each slot in use, one at a free slot, one to see the end.
  free_loop-Chain :
      (n at : ℕ) (slots : List ℕ) (dev : Dev b l)
      → Fits b d l
      → d.IsValid dev.bd
      → in_use (fat b d l dev) num_fat_slots < n
      → Chain num_fat_slots (fat b d l dev) at slots
      → (bd : b.State) × (free_loop b l n at dev ≡ some (success, moved b d l dev bd))
        × d.IsValid bd
        × (fat b d l (moved b d l dev bd) ≡ freed (fat b d l dev) slots)
  unfolding free_loop
  free_loop-Chain zero at slots dev f v enough c = absurd (omega (arith, enough))
  free_loop-Chain (suc n) at [] dev f v enough c = (dev.bd, rw c refl, v, fun_ext (λ j. refl))
  free_loop-Chain (suc n) at (i ∷ slots) dev f v enough c =
      let (e, ge, lt, c') = c in
      let f0 = fat b d l dev in
      let (bd, bd', run, _, valid, _, new) = free_loop-round n i dev f v ge lt in
      let goes = Chain-goes (f0 i) slots dev f c' in
      let used : f0 i ≢ 0 = ground (arith, goes.1) in
      let less = in_use-free f0 i num_fat_slots lt used in
      let c'' =
        Chain-with_slot num_fat_slots f0 (f0 i) i 0 slots
          (Chain-fresh num_fat_slots f0 at i slots f.no_mark c) c' in
      let (bd'', run', valid', new') =
        free_loop-Chain n (f0 i) slots (moved b d l dev bd') f valid
          (omega (arith, enough, less, ap (λ g. in_use g num_fat_slots) new))
          (subst (λ g. Chain num_fat_slots g (f0 i) slots) (sym new) c'') in
      (
        bd'',
        ap (λ k. free_loop b l (suc n) k dev) e
            ∙ run
            ∙ ap
                (λ t.
                  if t
                  then some (state_mismatch, moved b d l dev bd)
                  else free_loop b l n (f0 i) (moved b d l dev bd'))
                goes.0
            ∙ run',
        valid',
        new' ∙ ap (λ g. freed g slots) new ∙ fun_ext (λ j. ground arith),
      )

  free_chain-starts :
      (at : ℕ) (dev : Dev b l)
      → Fits b d l
      → 2 ≤ at
      → at < num_fat_slots
      → fat32_free_chain b l dev at ≡ free_loop b l (num_fat_slots + 2) at dev
  unfolding fat32_free_chain
  free_chain-starts at dev f ge lt =
      let m : mask at ≡ at = omega (arith, f.no_mark) in
      let t : no_slot b l at ≡ false = ground arith in rw (m, t) refl

  -- `fat32_free_chain` of the slot that a chain starts at, in a table on a device that works as a disk:
  -- it succeeds, all the slots of the chain are free, and every other slot holds what it held.
  pub fat32_free_chain-freed :
      (at : ℕ) (slots : List ℕ) (dev : Dev b l)
      → Fits b d l
      → d.IsValid dev.bd
      → 2 ≤ at
      → at < num_fat_slots
      → Chain num_fat_slots (fat b d l dev) at slots
      → (bd : b.State) × (fat32_free_chain b l dev at ≡ some (success, moved b d l dev bd))
        × d.IsValid bd
        × (fat b d l (moved b d l dev bd) ≡ freed (fat b d l dev) slots)
  fat32_free_chain-freed at slots dev f v ge lt c =
      let (bd, run, valid, new) =
        free_loop-Chain (num_fat_slots + 2) at slots dev f v
          (omega (arith, in_use-le (fat b d l dev) num_fat_slots)) c in
      (bd, free_chain-starts at dev f ge lt ∙ run, valid, new)

  -- What a call that ends leaves, whatever the table holds.
  abbrev pub Ended : Dev b l → Option (Err × Dev b l) → Type 0
  Ended dev o =
      (err : Err) × (bd : b.State) × (o ≡ some (err, moved b d l dev bd))
      × ((err ≡ success) ⊎ (err ≡ state_mismatch))
      × ((j : ℕ)
          → (fat b d l (moved b d l dev bd) j ≡ fat b d l dev j)
            ⊎ (fat b d l (moved b d l dev bd) j ≡ 0))

  free_loop-Ended :
      (n at : ℕ) (dev : Dev b l)
      → Fits b d l
      → d.IsValid dev.bd
      → in_use (fat b d l dev) num_fat_slots < n
      → (not (is_eoc at) && no_slot b l at) ≡ false
      → Ended dev (free_loop b l n at dev)
  unfolding free_loop
  free_loop-Ended zero at dev f v enough goes = absurd (omega (arith, enough))
  free_loop-Ended (suc n) at dev f v enough goes = elim (Bool-cases (is_eoc at)) [
    | inl e ↦ (success, dev.bd, rw e refl, inl refl, λ j. inl refl)
    | inr e ↦
        let f0 = fat b d l dev in
        let ge : 2 ≤ at = ground (arith, e, goes) in
        let lt : at < num_fat_slots = ground (arith, e, goes) in
        let (bd, bd', run, valid, valid', same, new) = free_loop-round n at dev f v ge lt in
        elim (Bool-cases (not (is_eoc (f0 at)) && no_slot b l (f0 at))) [
          | inl bad ↦ (
            state_mismatch,
            bd,
            run ∙ rw bad refl,
            inr refl,
            λ j. inl (ap (λ s. table (l.bd_offset + l.fat_offset) s j) same),
          )
          | inr fine ↦
              let used : f0 at ≢ 0 = ground (arith, fine) in
              let less = in_use-free f0 at num_fat_slots lt used in
              let (err, bd'', run', how, changes) =
                free_loop-Ended n (f0 at) (moved b d l dev bd') f valid'
                  (omega (arith, enough, less, ap (λ g. in_use g num_fat_slots) new)) fine in
              (
                err,
                bd'',
                run ∙ rw fine run',
                how,
                kept_or_freed f0 (fat b d l (moved b d l dev bd'))
                    (fat b d l (moved b d l dev bd'')) at new changes,
              )
        ]
  ]

  -- `fat32_free_chain` ends on every table, also where the slots that it follows never come to an end,
  -- on a device that works as a disk: for a slot of the table it succeeds or finds the chain malformed,
  -- and each slot of the table is free or holds what it held.
  pub fat32_free_chain-Ended :
      (at : ℕ) (dev : Dev b l)
      → Fits b d l
      → d.IsValid dev.bd
      → 2 ≤ at
      → at < num_fat_slots
      → Ended dev (fat32_free_chain b l dev at)
  fat32_free_chain-Ended at dev f v ge lt =
      let fine : (not (is_eoc at) && no_slot b l at) ≡ false = ground arith in
      subst (Ended dev) (sym (free_chain-starts at dev f ge lt)) (
        free_loop-Ended (num_fat_slots + 2) at dev f v
          (omega (arith, in_use-le (fat b d l dev) num_fat_slots)) fine)
