-- ===== src/Fat32/Data/Laws.antt =====
-- What `fat32_read_write_piece` reads and writes.
use fern_os.Prelude.{
  ℕ, zero, suc, ◌+◌, ◌/◌, ◌≤◌, ◌<◌, ◌≡◌, refl, ap, ap₂, sym, subst, ◌∙◌, true, false, none, some,
  List, [], ◌∷◌, ◌++◌, take, drop, length, arith, ◌==◌, get_or, ◌-◌, ◌*◌, ◌%◌,
}
use fern_os.Err.{success}
use fern_os.BlockDevice.{Sector, BlockDevice, IsDisk, with_sector, with_piece}
use fern_os.Fat32.{Layout, Dev}
use fern_os.Fat32.Slots.{fat, table, moved}
use fern_os.Fat32.Chain.Table.{Chain}
use fern_os.Fat32.Data.{fat32_read_write_piece}
use fern_os.Fat32.Data.Reach.{FitsData, data_sector, reaches}

-- A piece that is written to a sector is read back from it.
take-append : (p r : List ℕ) → take (length p) (p ++ r) ≡ p
take-append [] r = refl
take-append (x ∷ p) r = ap (λ t. x ∷ t) (take-append p r)

drop-take : (o : ℕ) (s r : List ℕ) → o ≤ length s → drop o (take o s ++ r) ≡ r
drop-take zero s r le = refl
drop-take (suc o) [] r le = absurd (omega arith)
drop-take (suc o) (x ∷ s) r le = drop-take o s r (omega arith)

with_piece-back :
    (s : Sector) (o : ℕ) (p : List ℕ)
    → o ≤ length s
    → take (length p) (drop o (with_piece s o p)) ≡ p
with_piece-back s o p le =
    let rest = drop (o + length p) s in
    ap (λ t. take (length p) t) (drop-take o s (p ++ rest) le) ∙ take-append p rest

Chain-ext :
    (n : ℕ) (f g : ℕ → ℕ) (at : ℕ) (xs : List ℕ)
    → ((j : ℕ) → j < n → g j ≡ f j)
    → Chain n f at xs
    → Chain n g at xs
Chain-ext n f g at [] h c = c
Chain-ext n f g at (x ∷ xs) h (e, ge, lt, c) =
    (e, ge, lt, subst (λ y. Chain n g y xs) (sym (h x lt)) (Chain-ext n f g (f x) xs h c))

module _ (b : BlockDevice) (d : IsDisk b) (l : Layout) where
  open l use {num_fat_slots}

  -- Reading a part of a sector of a chain.
  abbrev pub ReadPiece : Dev b l → ℕ → List ℕ → ℕ → ℕ → ℕ → Type 0
  ReadPiece dev at slots so bo len =
      (bd : b.State) × (fat32_read_write_piece b l dev at so bo len none ≡ (
        success,
        take len (drop bo (d.sector dev.bd (data_sector b d l slots so))),
        moved b d l dev bd,
      ))
      × d.IsValid bd
      × (d.sector bd ≡ d.sector dev.bd)

  read_piece_lem :
      (at so bo len : ℕ) (slots : List ℕ) (dev : Dev b l)
      → FitsData b d l
      → d.IsValid dev.bd
      → 2 ≤ at
      → at < num_fat_slots
      → Chain num_fat_slots (fat b d l dev) at slots
      → so / l.sectors_per_cluster < length slots
      → bo < 512
      → bo + len ≤ 512
      → ReadPiece dev at slots so bo len
  read_piece_lem at so bo len slots dev f v ge lt c within bo_lt fits =
      let (bd, run, valid, same, inside) =
        reaches b d l at so bo len slots dev none f v ge lt c within bo_lt fits in
      let S = data_sector b d l slots so in
      let (ok, out, valid', same') =
        d.read_piece_disk bd S bo len valid inside (omega (arith, bo_lt, f.fits.bytes))
          (omega (arith, fits, f.fits.bytes)) in
      let bd' = (b.bd_read_piece bd S bo len true).2 in
      (
        bd',
        run
            ∙ ap₂ (λ e o. (e, o, moved b d l dev bd')) ok
                (out ∙ ap (λ disk. take len (drop bo (disk S))) same),
        valid',
        same' ∙ same,
      )

  -- Writing one: that part of that sector changes, and nothing else, so that no slot of the table does.
  write_piece_lem :
      (at so bo : ℕ) (slots src : List ℕ) (dev : Dev b l)
      → FitsData b d l
      → d.IsValid dev.bd
      → 2 ≤ at
      → at < num_fat_slots
      → Chain num_fat_slots (fat b d l dev) at slots
      → so / l.sectors_per_cluster < length slots
      → bo < 512
      → bo + length src ≤ 512
      → let S = data_sector b d l slots so in
        (bd : b.State) × (fat32_read_write_piece b l dev at so bo (length src) (some src)
          ≡ (success, [], moved b d l dev bd))
        × d.IsValid bd
        × (d.sector bd ≡ with_sector (d.sector dev.bd) S (with_piece (d.sector dev.bd S) bo src))
        × (S < b.num_sectors)
        × ((j : ℕ) → j < num_fat_slots → fat b d l (moved b d l dev bd) j ≡ fat b d l dev j)
  write_piece_lem at so bo slots src dev f v ge lt c within bo_lt fits =
      let (bd, run, valid, same, inside) =
        reaches b d l at so bo (length src) slots dev (some src) f v ge lt c within bo_lt fits in
      let S = data_sector b d l slots so in
      let (ok, valid', wrote) =
        d.write_piece_disk bd S bo src valid inside (omega (arith, bo_lt, f.fits.bytes))
          (omega (arith, fits, f.fits.bytes)) in
      let bd' = (b.bd_write_piece bd S bo (some src)).1 in
      let now : d.sector bd'
          ≡ with_sector (d.sector dev.bd) S (with_piece (d.sector dev.bd S) bo src) =
        wrote ∙ ap (λ disk. with_sector disk S (with_piece (disk S) bo src)) same in
      (
        bd',
        run ∙ ap (λ e. (e, [], moved b d l dev bd')) ok,
        valid',
        now,
        inside,
        λ j j_lt.
            let below : l.bd_offset + l.fat_offset + j / 128 < S =
              omega (arith, j_lt, f.fits.in_table, f.behind) in
            let apart : (S == l.bd_offset + l.fat_offset + j / 128) ≡ false =
              ground (arith, below) in
            ap (λ disk. table (l.bd_offset + l.fat_offset) disk j) now ∙ rw apart refl,
      )

  -- Over a device that works as a disk with the clusters behind the table, for a sector that the chain
  -- has and a part that lies in a sector: writing succeeds and puts the bytes into that part of that
  -- sector, sector `so % sectors_per_cluster` of the cluster of slot `so / sectors_per_cluster` of the
  -- chain, and no other byte of the disk changes; reading the part then succeeds, gives what was written
  -- and changes nothing; and the slots of the table are as they were.
  pub fat32_read_write_piece-back :
      (at so bo : ℕ) (slots src : List ℕ) (dev : Dev b l)
      → FitsData b d l
      → d.IsValid dev.bd
      → 2 ≤ at
      → at < num_fat_slots
      → Chain num_fat_slots (fat b d l dev) at slots
      → so / l.sectors_per_cluster < length slots
      → bo < 512
      → bo + length src ≤ 512
      → let (err, _, dev1) = fat32_read_write_piece b l dev at so bo (length src) (some src) in
        let (err', dest, dev2) = fat32_read_write_piece b l dev1 at so bo (length src) none in
        let S =
          l.bd_offset
          + l.data_section_offset
          + (get_or slots (so / l.sectors_per_cluster) 0 - 2) * l.sectors_per_cluster
          + so % l.sectors_per_cluster in
        (err ≡ success)
        × (err' ≡ success)
        × (dest ≡ src)
        × (d.sector dev1.bd
            ≡ with_sector (d.sector dev.bd) S (with_piece (d.sector dev.bd S) bo src))
        × (d.sector dev2.bd ≡ d.sector dev1.bd)
        × ((j : ℕ) → j < num_fat_slots → fat b d l dev2 j ≡ fat b d l dev j)
  fat32_read_write_piece-back at so bo slots src dev f v ge lt c within bo_lt fits =
      let (bd, run, valid, now, inside, kept) =
        write_piece_lem at so bo slots src dev f v ge lt c within bo_lt fits in
      let S = data_sector b d l slots so in
      let dev1 = moved b d l dev bd in
      let c1 = Chain-ext num_fat_slots (fat b d l dev) (fat b d l dev1) at slots kept c in
      let (bd', run', valid', same') =
        read_piece_lem at so bo (length src) slots dev1 f valid ge lt c1 within bo_lt fits in
      let old_fits : bo ≤ length (d.sector dev.bd S) =
        omega (arith, bo_lt, f.fits.bytes, d.sized dev.bd S v inside) in
      let here : d.sector bd S ≡ with_piece (d.sector dev.bd S) bo src =
        ap (λ disk. disk S) now ∙ ground arith in
      rw (run, run')
        (
          refl,
          refl,
          ap (λ s. take (length src) (drop bo s)) here
              ∙ with_piece-back (d.sector dev.bd S) bo src old_fits,
          now,
          same',
          λ j j_lt. ap (λ disk. table (l.bd_offset + l.fat_offset) disk j) same' ∙ kept j j_lt,
        )
