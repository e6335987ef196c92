-- ===== src/Fat32/Data/Reach.antt =====
-- Which sector of the device is a sector of a chain, and that `fat32_read_write_piece` asks for it.
use fern_os.Prelude.{
  ℕ, zero, suc, ◌+◌, ◌-◌, ◌*◌, ◌/◌, ◌%◌, ◌^◌, ◌≤◌, ◌<◌, ◌≡◌, refl, ap, ◌∙◌, true, false, ◌||◌,
  Option, none, some, List, [], ◌∷◌, get_or, length, arith, ◌==◌, ltb, leb,
}
use native.Mathlib.Nat.{mul-le-mul_right}
use fern_os.Err.{Err, success}
use fern_os.BlockDevice.{BlockDevice, IsDisk}
use fern_os.Fat32.{Layout, mask, bad_cluster, Dev, fat32_get_fat_slot}
use fern_os.Fat32.Slots.{Fits, fat, table, moved, fat32_get_fat_slot_lem}
use fern_os.Fat32.Chain.{no_slot, fat32_traverse_chain}
use fern_os.Fat32.Chain.Table.{Chain}
use fern_os.Fat32.Chain.Traverse.{fat32_traverse_chain-Reached}
use fern_os.Fat32.Data.{fat32_read_write_piece}

-- A slot of a chain, and what it holds.
Chain-at :
    (n : ℕ) (f : ℕ → ℕ) (at i : ℕ) (xs : List ℕ)
    → n ≤ bad_cluster
    → Chain n f at xs
    → i < length xs
    → let c = get_or xs i 0 in (2 ≤ c) × (c < n) × ((f c == bad_cluster) ≡ false)
Chain-at n f at i [] small c lt = absurd (omega (arith, lt))
Chain-at n f at zero (x ∷ []) small (e, ge, lt', c) lt = (ge, lt', ground (arith, c))
Chain-at n f at zero (x ∷ (y ∷ xs)) small (e, ge, lt', c) lt =
    (ge, lt', ground (arith, c.0, c.2, small))
Chain-at n f at (suc i) (x ∷ xs) small (e, ge, lt', c) lt =
    Chain-at n f (f x) i xs small c (omega (arith, lt))

row_within : (a b r s : ℕ) → a < b → r < s → a * s + r < b * s
row_within a b r s lt lt' =
    let rows : suc a * s ≤ b * s = mul-le-mul_right s lt in grind (arith, rows, lt')

module _ (b : BlockDevice) (d : IsDisk b) (l : Layout) where
  open l use {num_fat_slots}

  -- The clusters lie on the device, behind the table.
  pub record FitsData : Type 0 where
    pub fits : Fits b d l
    pub some_sector : 0 < l.sectors_per_cluster
    pub behind : l.fat_offset + l.sectors_per_fat ≤ l.data_section_offset
    pub inside :
        l.bd_offset + l.data_section_offset + (num_fat_slots - 2) * l.sectors_per_cluster
        ≤ b.num_sectors

  -- The sector of the device that is sector `sector_offset` of the chain of `slots`.
  abbrev pub data_sector : List ℕ → ℕ → ℕ
  data_sector slots sector_offset =
      l.bd_offset
      + l.data_section_offset
      + (get_or slots (sector_offset / l.sectors_per_cluster) 0 - 2) * l.sectors_per_cluster
      + sector_offset % l.sectors_per_cluster

  data_sector-inside :
      (slots : List ℕ) (so : ℕ)
      → FitsData
      → let c = get_or slots (so / l.sectors_per_cluster) 0 in
        2 ≤ c → c < num_fat_slots → data_sector slots so < b.num_sectors
  data_sector-inside slots so f ge lt =
      let c = get_or slots (so / l.sectors_per_cluster) 0 in
      let low : so % l.sectors_per_cluster < l.sectors_per_cluster = omega (arith, f.some_sector) in
      let row =
        row_within (c - 2) (num_fat_slots - 2) (so % l.sectors_per_cluster) l.sectors_per_cluster
          (omega (arith, ge, lt)) low in
      omega (arith, row, f.inside)

  -- What is asked of the device once the checks have passed.
  abbrev pub asked : b.State → ℕ → ℕ → ℕ → Option (List ℕ) → Dev b l → Err × List ℕ × Dev b l
  asked bd sector bo len none dev =
      let (e, dest, bd') = b.bd_read_piece bd sector bo len true in (e, dest, moved b d l dev bd')
  asked bd sector bo len (some src) dev =
      let (e, bd') = b.bd_write_piece bd sector bo (some src) in (e, [], moved b d l dev bd')

  asked-moved :
      (bd bd' : b.State) (sector bo len : ℕ) (write : Option (List ℕ)) (dev : Dev b l)
      → asked bd' sector bo len write (moved b d l dev bd) ≡ asked bd' sector bo len write dev
  asked-moved bd bd' sector bo len none dev = refl
  asked-moved bd bd' sector bo len (some src) dev = refl

  runs :
      (at so bo len c v sector : ℕ) (dev dev1 : Dev b l) (bd : b.State) (write : Option (List ℕ))
      → mask at ≡ at
      → no_slot b l at ≡ false
      → fat32_traverse_chain b l dev at (so / l.sectors_per_cluster) true ≡ (success, c, dev1)
      → fat32_get_fat_slot b l dev1 c true ≡ (success, v, moved b d l dev1 bd)
      → (v == bad_cluster) ≡ false
      → (leb 512 bo || ltb 512 len || ltb 512 ((bo + len) % 2 ^ 32)) ≡ false
      → (l.bd_offset
            + l.data_section_offset
            + (c - 2) * l.sectors_per_cluster
            + so % l.sectors_per_cluster)
          % 2 ^ 32
        ≡ sector
      → fat32_read_write_piece b l dev at so bo len write ≡ asked bd sector bo len write dev1
  unfolding fat32_read_write_piece
  runs at so bo len c v sector dev dev1 bd none m t there got good range w =
      rw (m, t, there, got, good, range, w) refl
  runs at so bo len c v sector dev dev1 bd (some src) m t there got good range w =
      rw (m, t, there, got, good, range, w) refl

  -- The checks of `fat32_read_write_piece` pass, and the device is asked for the right sector.
  pub reaches :
      (at so bo len : ℕ) (slots : List ℕ) (dev : Dev b l) (write : Option (List ℕ))
      → FitsData
      → d.IsValid dev.bd
      → 2 ≤ at
      → at < num_fat_slots
      → Chain num_fat_slots (fat b d l dev) at slots
      → so / l.sectors_per_cluster < length slots
      → bo < 512
      → bo + len ≤ 512
      → (bd : b.State) × (fat32_read_write_piece b l dev at so bo len write
          ≡ asked bd (data_sector slots so) bo len write dev)
        × d.IsValid bd
        × (d.sector bd ≡ d.sector dev.bd)
        × (data_sector slots so < b.num_sectors)
  reaches at so bo len slots dev write f v ge lt c within bo_lt fits =
      let c_at = get_or slots (so / l.sectors_per_cluster) 0 in
      let m : mask at ≡ at = omega (arith, f.fits.no_mark) in
      let t : no_slot b l at ≡ false = ground arith in
      let (ge', lt', good) =
        Chain-at num_fat_slots (fat b d l dev) at (so / l.sectors_per_cluster) slots f.fits.no_mark
          c within in
      let (bd, went, valid, same) =
        fat32_traverse_chain-Reached b d l at (so / l.sectors_per_cluster) slots dev f.fits v ge lt
          c in
      let found : ltb (so / l.sectors_per_cluster) (length slots) ≡ true = ground (arith, within) in
      let there : fat32_traverse_chain b l dev at (so / l.sectors_per_cluster) true
          ≡ (success, c_at, moved b d l dev bd) =
        went ∙ rw found refl in
      let (bd', got, valid', same') =
        fat32_get_fat_slot_lem b d l (moved b d l dev bd) c_at f.fits valid lt' in
      let good' : (fat b d l (moved b d l dev bd) c_at == bad_cluster) ≡ false =
        ap (λ s. table (l.bd_offset + l.fat_offset) s c_at == bad_cluster) same ∙ good in
      let inside = data_sector-inside slots so f ge' lt' in
      let w : data_sector slots so % 2 ^ 32 ≡ data_sector slots so =
        omega (arith, inside, d.small.0) in
      let range : (leb 512 bo || ltb 512 len || ltb 512 ((bo + len) % 2 ^ 32)) ≡ false =
        ground (arith, bo_lt, fits) in
      (
        bd',
        runs at so bo len c_at (fat b d l (moved b d l dev bd) c_at) (data_sector slots so) dev
              (moved b d l dev bd) bd' write m t there got good' range w
            ∙ asked-moved bd bd' (data_sector slots so) bo len write dev,
        valid',
        same' ∙ same,
        inside,
      )
