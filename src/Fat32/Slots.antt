-- ===== src/Fat32/Slots.antt =====
-- The file allocation table that a disk holds, and the two calls that read and write one slot of it.
use fern_os.Prelude.{
  ℕ, ◌+◌, ◌-◌, ◌*◌, ◌/◌, ◌%◌, ◌^◌, ◌≤◌, ◌<◌, ◌≡◌, refl, ap, sym, ◌∙◌, Bool-cases, inl, inr, true,
  false, some, List, ◌++◌, take, drop, ◌⊎◌, ℕ_discrete, dec_lt, get_or, get_or-append, get_or-take,
  get_or-drop, length, length-take, arith, leb, ltb, ◌==◌, if◌then◌else◌,
}
use mathlib.Core.Path.{fun_ext}
use fern_os.Err.{success}
use fern_os.BlockDevice.{Sector, BlockDevice, IsDisk, with_sector, with_piece}
use fern_os.Fat32.{
  Layout, mask, bad_cluster, le32, to_le32, Dev, fat_sector, fat32_get_fat_slot, fat32_set_fat_slot,
}

get_or-with_piece :
    (s : Sector) (o k : ℕ) (p : List ℕ)
    → o ≤ length s
    → get_or (with_piece s o p) k 0 ≡ (
        if ltb k o
        then get_or s k 0
        else if ltb k (o + length p)
        then get_or p (k - o) 0
        else get_or s k 0)
get_or-with_piece s o k p le =
    let before : length (take o s) ≡ o = omega (arith, length-take o s) in
    let rest = drop (o + length p) s in
    get_or-append (take o s) (p ++ rest) k 0
    ∙ ap (λ n. if ltb k n then get_or (take o s) k 0 else get_or (p ++ rest) (k - n) 0) before
    ∙ elim (Bool-cases (ltb k o)) [
      | inl h ↦ rw h (get_or-take o s k 0 (ground (arith, h)))
      | inr h ↦ rw h (
          get_or-append p rest (k - o) 0 ∙ elim (Bool-cases (ltb k (o + length p))) [
            | inl h' ↦
                let t : ltb (k - o) (length p) ≡ true = ground (arith, h, h') in rw (t, h') refl
            | inr h' ↦
                let t : ltb (k - o) (length p) ≡ false = ground (arith, h, h') in
                let e : o + length p + (k - o - length p) ≡ k = ground (arith, h') in
                rw (t, h')
                  (get_or-drop (o + length p) s (k - o - length p) 0 ∙ ap (λ j. get_or s j 0) e)
          ])
    ]

le32-to_le32 : (v : ℕ) → v < 2 ^ 32 → le32 (to_le32 v) ≡ v
le32-to_le32 v lt = omega arith

-- The value of a slot of the table that starts at sector `base`.
abbrev pub word_at : Sector → ℕ → ℕ
word_at s o = le32 (take 4 (drop o s))

byte_at : (s : Sector) (o k : ℕ) → k < 4 → get_or (take 4 (drop o s)) k 0 ≡ get_or s (o + k) 0
byte_at s o k lt = get_or-take 4 (drop o s) k 0 lt ∙ get_or-drop o s k 0

word_at-bytes :
    (s : Sector) (o : ℕ)
    → word_at s o
      ≡ get_or s o 0
        + 256 * get_or s (o + 1) 0
        + 65536 * get_or s (o + 2) 0
        + 16777216 * get_or s (o + 3) 0
word_at-bytes s o =
    let e : o + 0 ≡ o = omega arith in
    omega (
      arith,
      byte_at s o 0 (omega arith) ∙ ap (λ k. get_or s k 0) e,
      byte_at s o 1 (omega arith),
      byte_at s o 2 (omega arith),
      byte_at s o 3 (omega arith),
    )

inside_piece :
    (s : Sector) (o k : ℕ) (p : List ℕ)
    → o ≤ length s
    → k < length p
    → get_or (with_piece s o p) (o + k) 0 ≡ get_or p k 0
inside_piece s o k p le lt =
    let past : ltb (o + k) o ≡ false = ground arith in
    let within : ltb (o + k) (o + length p) ≡ true = ground (arith, lt) in
    let e : o + k - o ≡ k = omega arith in
    get_or-with_piece s o (o + k) p le ∙ rw (past, within) (ap (λ n. get_or p n 0) e)

outside_piece :
    (s : Sector) (o k : ℕ) (p : List ℕ)
    → o ≤ length s
    → (o ≤ k → o + length p ≤ k)
    → get_or (with_piece s o p) k 0 ≡ get_or s k 0
outside_piece s o k p le out = get_or-with_piece s o k p le ∙ elim (Bool-cases (ltb k o)) [
  | inl h ↦ rw h refl
  | inr h ↦
      let past : ltb k (o + length p) ≡ false = ground (arith, h, out (ground (arith, h))) in
      rw (h, past) refl
]

-- A word that is written is read back, and another one is not changed.
word_at-same :
    (s : Sector) (o v : ℕ)
    → o + 4 ≤ length s
    → v < 2 ^ 32
    → word_at (with_piece s o (to_le32 v)) o ≡ v
word_at-same s o v fits small =
    let le : o ≤ length s = omega arith in
    let e : o + 0 ≡ o = omega arith in
    let new = with_piece s o (to_le32 v) in
    omega (
      arith,
      word_at-bytes new o,
      ap (λ k. get_or new k 0) (sym e) ∙ inside_piece s o 0 (to_le32 v) le (omega arith),
      inside_piece s o 1 (to_le32 v) le (omega arith),
      inside_piece s o 2 (to_le32 v) le (omega arith),
      inside_piece s o 3 (to_le32 v) le (omega arith),
    )

word_at-other :
    (s : Sector) (o k v : ℕ)
    → o + 4 ≤ length s
    → (k + 4 ≤ o) ⊎ (o + 4 ≤ k)
    → word_at (with_piece s o (to_le32 v)) k ≡ word_at s k
word_at-other s o k v fits apart =
    let le : o ≤ length s = omega arith in
    let new = with_piece s o (to_le32 v) in
    let same = λ (n : ℕ) (lt : n < 4). outside_piece s o (k + n) (to_le32 v) le (λ h. elim apart [
      | inl below ↦ omega (arith, h, below, lt)
      | inr above ↦ omega (arith, above)
    ]) in
    let e : k + 0 ≡ k = omega arith in
    omega (
      arith,
      word_at-bytes new k,
      word_at-bytes s k,
      ap (λ k. get_or new k 0) (sym e) ∙ same 0 (omega arith) ∙ ap (λ k. get_or s k 0) e,
      same 1 (omega arith),
      same 2 (omega arith),
      same 3 (omega arith),
    )

-- The table that starts at sector `base` of a disk.
abbrev pub table : ℕ → (ℕ → Sector) → ℕ → ℕ
table base disk i = mask (word_at (disk (base + i / 128)) (i % 128 * 4))

abbrev pub with_slot : (ℕ → ℕ) → ℕ → ℕ → ℕ → ℕ
with_slot fat i v j = if i == j then v else fat j

table-with_sector :
    (base : ℕ) (disk : ℕ → Sector) (i j v : ℕ)
    → length (disk (base + i / 128)) ≡ 512
    → let at = base + i / 128 in
      table base (with_sector disk at (with_piece (disk at) (i % 128 * 4) (to_le32 (mask v)))) j
      ≡ with_slot (table base disk) i (mask v) j
table-with_sector base disk i j v sized =
    let at = base + i / 128 in
    let new = with_piece (disk at) (i % 128 * 4) (to_le32 (mask v)) in
    let fits : i % 128 * 4 + 4 ≤ length (disk at) = omega (arith, sized) in
    elim (Bool-cases (at == base + j / 128)) [
      | inr e ↦ let other : (i == j) ≡ false = ground (arith, e) in rw (e, other) refl
      | inl e ↦
          let here : at ≡ base + j / 128 = ground (arith, e) in
          elim (ℕ_discrete i j) [
            | yes same ↦
                let t : (i == j) ≡ true = ground (arith, same) in
                let o : j % 128 * 4 ≡ i % 128 * 4 = omega (arith, same) in
                let w : word_at new (j % 128 * 4) ≡ mask v =
                  ap (word_at new) o
                  ∙ word_at-same (disk at) (i % 128 * 4) (mask v) fits (omega arith) in
                let m : mask (mask v) ≡ mask v = omega arith in rw (e, t) (ap mask w ∙ m)
            | no apart ↦
                let t : (i == j) ≡ false = ground (arith, apart) in
                let away : (j % 128 * 4 + 4 ≤ i % 128 * 4) ⊎ (i % 128 * 4 + 4 ≤ j % 128 * 4) =
                  elim (dec_lt (j % 128) (i % 128)) [
                    | yes lt ↦ inl (omega (arith, lt))
                    | no ge ↦ inr (omega (arith, ge, apart, here))
                  ] in
                rw (e, t)
                  (ap mask (
                    word_at-other (disk at) (i % 128 * 4) (j % 128 * 4) (mask v) fits away
                    ∙ ap (λ k. word_at (disk k) (j % 128 * 4)) here))
          ]
    ]

module _ (b : BlockDevice) (d : IsDisk b) (l : Layout) where
  -- The table lies on the device, and its slots have numbers below the marks of a chain's end.
  pub record Fits : Type 0 where
    pub bytes : b.sector_size ≡ 512
    pub on_device : l.bd_offset + l.fat_offset + l.sectors_per_fat ≤ b.num_sectors
    pub in_table : l.num_fat_slots ≤ l.sectors_per_fat * 128
    pub no_mark : l.num_fat_slots ≤ bad_cluster

  abbrev pub fat : Dev b l → ℕ → ℕ
  fat dev = table (l.bd_offset + l.fat_offset) (d.sector dev.bd)

  -- A device in state `bd` after reading or writing slots.
  abbrev pub moved : Dev b l → b.State → Dev b l
  moved dev bd = record dev { bd = bd }

  -- Reading a slot.
  pub fat32_get_fat_slot_lem :
      (dev : Dev b l) (i : ℕ)
      → Fits
      → d.IsValid dev.bd
      → i < l.num_fat_slots
      → (bd : b.State) × (fat32_get_fat_slot b l dev i true ≡ (success, fat dev i, moved dev bd))
        × d.IsValid bd
        × (d.sector bd ≡ d.sector dev.bd)
  unfolding fat32_get_fat_slot
  fat32_get_fat_slot_lem dev i f v lt =
      let m : mask i ≡ i = omega (arith, f.no_mark) in
      let small = d.small.0 in
      let sec : fat_sector b l i ≡ l.bd_offset + l.fat_offset + i / 128 =
        omega (arith, f.in_table, f.on_device, small) in
      let t : leb l.num_fat_slots i ≡ false = ground arith in
      let (ok, out, valid, same) =
        d.read_piece_disk dev.bd (l.bd_offset + l.fat_offset + i / 128) (i % 128 * 4) 4 v
          (omega (arith, f.in_table, f.on_device)) (omega (arith, f.bytes))
          (omega (arith, f.bytes)) in
      (
        (b.bd_read_piece dev.bd (l.bd_offset + l.fat_offset + i / 128) (i % 128 * 4) 4 true).2,
        rw (m, t, sec, ok)
            (ap
              (λ w. (
                success,
                mask (le32 w),
                moved dev
                    (b.bd_read_piece dev.bd (l.bd_offset + l.fat_offset + i / 128) (i % 128 * 4) 4
                      true).2,
              ))
              out),
        valid,
        same,
      )

  -- Writing a slot changes that slot of the table and no other.
  pub fat32_set_fat_slot_lem :
      (dev : Dev b l) (i val : ℕ)
      → Fits
      → d.IsValid dev.bd
      → i < l.num_fat_slots
      → (bd : b.State) × (fat32_set_fat_slot b l dev i val ≡ (success, moved dev bd))
        × d.IsValid bd
        × (fat (moved dev bd) ≡ with_slot (fat dev) i (mask val))
  unfolding fat32_set_fat_slot
  fat32_set_fat_slot_lem dev i val f v lt =
      let m : mask i ≡ i = omega (arith, f.no_mark) in
      let at = l.bd_offset + l.fat_offset + i / 128 in
      let inside : at < b.num_sectors = omega (arith, f.in_table, f.on_device) in
      let sec : fat_sector b l i ≡ at = omega (arith, inside, d.small.0) in
      let t : leb l.num_fat_slots i ≡ false = ground arith in
      let (ok, valid, wrote) =
        d.write_piece_disk dev.bd at (i % 128 * 4) (to_le32 (mask val)) v inside
          (omega (arith, f.bytes)) (omega (arith, f.bytes)) in
      (
        (b.bd_write_piece dev.bd at (i % 128 * 4) (some (to_le32 (mask val)))).1,
        rw (m, t, sec, ok) refl,
        valid,
        ap (table (l.bd_offset + l.fat_offset)) wrote
            ∙ fun_ext (λ j.
              table-with_sector (l.bd_offset + l.fat_offset) (d.sector dev.bd) i j val
                (d.sized dev.bd at v inside ∙ f.bytes)),
      )
