-- ===== src/Fat32/Chain/Traverse.antt =====
-- Following a chain for some links.
use fern_os.Prelude.{
  ℕ, zero, suc, ◌+◌, ◌≤◌, ◌<◌, ◌≡◌, refl, ap, sym, subst, ◌∙◌, true, false, List, [], ◌∷◌, get_or,
  length, arith, ltb, if◌then◌else◌,
}
use fern_os.Err.{Err, success, invalid_index}
use fern_os.BlockDevice.{BlockDevice, IsDisk}
use fern_os.Fat32.{Layout, mask, is_eoc, Dev}
use fern_os.Fat32.Slots.{Fits, fat, table, moved, fat32_get_fat_slot_lem}
use fern_os.Fat32.Chain.{no_slot, traverse_loop, fat32_traverse_chain}
use fern_os.Fat32.Chain.Table.{Chain}

module _ (b : BlockDevice) (d : IsDisk b) (l : Layout) where
  open l use {num_fat_slots}

  -- What traversing `n` links of the chain with these slots gives.
  abbrev pub Reached : Dev b l → List ℕ → ℕ → Err × ℕ × Dev b l → Type 0
  Reached dev slots n out =
      (bd : b.State) × (out ≡ (
        if ltb n (length slots)
        then (success, get_or slots n 0, moved b d l dev bd)
        else (invalid_index, 0, moved b d l dev bd)))
      × d.IsValid bd
      × (d.sector bd ≡ d.sector dev.bd)

  traverse_loop-Reached :
      (n i : ℕ) (slots : List ℕ) (dev : Dev b l)
      → Fits b d l
      → d.IsValid dev.bd
      → Chain num_fat_slots (fat b d l dev) i (i ∷ slots)
      → Reached dev (i ∷ slots) n (traverse_loop b l n i dev)
  unfolding traverse_loop
  traverse_loop-Reached zero i slots dev f v c = (dev.bd, ground arith, v, refl)
  traverse_loop-Reached (suc n) i [] dev f v (_, ge, lt, c) =
      let (bd, got, valid, same) = fat32_get_fat_slot_lem b d l dev i f v lt in
      (bd, rw (got, c) (ground arith), valid, same)
  traverse_loop-Reached (suc n) i (k ∷ slots) dev f v (_, ge, lt, c) =
      let (bd, got, valid, same) = fat32_get_fat_slot_lem b d l dev i f v lt in
      let (e, ge', lt', c') = c in
      let inner : is_eoc (fat b d l dev i) ≡ false = ground (arith, e, lt', f.no_mark) in
      let slot : no_slot b l (fat b d l dev i) ≡ false = ground (arith, e, ge', lt') in
      let (bd', run, valid', same') = traverse_loop-Reached n k slots (moved b d l dev bd) f valid (
        refl,
        ge',
        lt',
        subst
            (λ s.
              Chain num_fat_slots (table (l.bd_offset + l.fat_offset) s)
                (table (l.bd_offset + l.fat_offset) s k) slots)
            (sym same) c',
      ) in
      (
        bd',
        rw (got, inner, slot)
            (ap (λ x. traverse_loop b l n x (moved b d l dev bd)) e ∙ run ∙ ground arith),
        valid',
        same' ∙ same,
      )

  -- `fat32_traverse_chain` from the slot that a chain starts at, on a device that works as a disk: the
  -- slot that is so many links on, or FOS_E_INVALID_INDEX where the chain ends before; and the disk is
  -- the same.
  pub fat32_traverse_chain-Reached :
      (at offset : ℕ) (slots : List ℕ) (dev : Dev b l)
      → Fits b d l
      → d.IsValid dev.bd
      → 2 ≤ at
      → at < num_fat_slots
      → Chain num_fat_slots (fat b d l dev) at slots
      → Reached dev slots offset (fat32_traverse_chain b l dev at offset true)
  unfolding fat32_traverse_chain
  fat32_traverse_chain-Reached at offset [] dev f v ge lt c =
      absurd (ground (arith, c, lt, f.no_mark))
  fat32_traverse_chain-Reached at offset (i ∷ slots) dev f v ge lt c =
      let m : mask at ≡ at = omega (arith, f.no_mark) in
      let t : no_slot b l at ≡ false = ground arith in
      let (e, ge', lt', c') = c in
      rw (m, t, e) (traverse_loop-Reached offset i slots dev f v (refl, ge', lt', c'))
