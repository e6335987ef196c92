-- ===== src/BlockDevice/Mem/Laws.antt =====
-- The device in memory is a disk.
use fern_os.Prelude.{
  ℕ, zero, suc, ◌+◌, ◌*◌, ◌^◌, ◌≤◌, ◌<◌, ◌≡◌, refl, ap, ◌∙◌, true, false, some, List, [], ◌∷◌, take,
  drop, length, drop-cons, blit, length-blit, get_or, get_or-set, length-set, set, replicate,
  length-replicate, All, arith, ◌==◌, ltb, leb,
}
use mathlib.Core.Path.{fun_ext}
use mathlib.Core.Option.{map}
use fern_os.BlockDevice.Client.{Call, Fits, run, run_on_disk, run-on_disk}
use fern_os.Err.{success, Mem as Memory}
use fern_os.BlockDevice.{
  Sector, IsDisk, sectors, with_sector, with_sectors, with_piece, in_range, length-with_piece,
}
use fern_os.BlockDevice.Mem.{
  new_mem_block_device, mem_block_device, mbd_read, mbd_write, mbd_read_piece, mbd_write_piece,
}

abbrev row : List Sector → ℕ → Sector
row rows i = get_or rows i []

take-drop :
    (rows : List Sector) (i n : ℕ)
    → i + n ≤ length rows
    → take n (drop i rows) ≡ sectors (row rows) i n
take-drop rows i zero le = refl
take-drop rows i (suc n) le =
    ap (λ l. take (suc n) l) (drop-cons rows i [] (omega arith))
    ∙ ap (λ l. row rows i ∷ l) (take-drop rows (suc i) n (omega arith))

row-set :
    (rows : List Sector) (i : ℕ) (x : Sector)
    → i < length rows
    → row (set rows i x) ≡ with_sector (row rows) i x
row-set rows i x h = fun_ext (λ j. get_or-set rows i j x [] h)

row-blit :
    (rows : List Sector) (i : ℕ) (src : List Sector)
    → i + length src ≤ length rows
    → row (blit rows i src) ≡ with_sectors (row rows) i src
row-blit rows i [] le = refl
row-blit rows i (x ∷ src) le =
    row-blit (set rows i x) (suc i) src (omega (arith, length-set rows i x))
    ∙ ap (λ d. with_sectors d (suc i) src) (row-set rows i x (omega arith))

All-row :
    (P : Sector → Type 0) (rows : List Sector) (i : ℕ)
    → All P rows
    → i < length rows
    → P (row rows i)
All-row P [] i h lt = absurd (omega arith)
All-row P (x ∷ rows) zero h lt = h.0
All-row P (x ∷ rows) (suc i) h lt = All-row P rows i h.1 (omega arith)

All-set :
    (P : Sector → Type 0) (rows : List Sector) (i : ℕ) (x : Sector)
    → All P rows
    → P x
    → All P (set rows i x)
All-set P [] i x h p = h
All-set P (y ∷ rows) zero x h p = (p, h.1)
All-set P (y ∷ rows) (suc i) x h p = (h.0, All-set P rows i x h.1 p)

All-blit :
    (P : Sector → Type 0) (rows : List Sector) (i : ℕ) (src : List Sector)
    → All P rows
    → All P src
    → All P (blit rows i src)
All-blit P rows i [] h p = h
All-blit P rows i (x ∷ src) h p =
    All-blit P (set rows i x) (suc i) src (All-set P rows i x h p.0) p.1

module _ (ss ns : ℕ) where
  pub record IsValid (rows : List Sector) : Type 0 where
    pub count : length rows ≡ ns
    pub sized : All (λ r. length r ≡ ss) rows

  mbd_read_lem :
      (rows : List Sector) (i n : ℕ)
      → IsValid rows
      → ns < 2 ^ 32
      → i < ns
      → i + n ≤ ns
      → mbd_read ss ns rows i n true ≡ (success, sectors (row rows) i n, rows)
  unfolding mbd_read
  mbd_read_lem rows i zero v small lt le = rw (in_range ns i 0 small lt le) refl
  mbd_read_lem rows i (suc n) v small lt le =
      let t : ltb 0 (suc n) ≡ true = ground arith in
      rw (in_range ns i (suc n) small lt le, t)
        (ap (λ l. (success, l, rows)) (take-drop rows i (suc n) (omega (arith, v.count))))

  -- The device as a disk.
  pub mem_disk : ns < 2 ^ 32 → ss < 2 ^ 32 → IsDisk (mem_block_device ss ns)
  unfolding mbd_write mbd_read_piece mbd_write_piece
  mem_disk small_ns small_ss = record {
    IsValid = IsValid;
    sector = row;
    small = (small_ns, small_ss);
    sized = λ rows i v lt. All-row (λ r. length r ≡ ss) rows i v.sized (omega (arith, v.count));
    read_disk =
        λ rows i n v lt le. rw (mbd_read_lem rows i n v small_ns lt le) (refl, refl, v, refl);
    write_disk = λ rows i src v lt le sz. rw (in_range ns i (length src) small_ns lt le) (
      refl,
      record {
        count = length-blit rows i src ∙ v.count;
        sized = All-blit (λ r. length r ≡ ss) rows i src v.sized sz;
      },
      row-blit rows i src (omega (arith, v.count)),
    );
    read_piece_disk = λ rows i offset len v lt lt' le.
        let t : leb ns i ≡ false = ground arith in
        rw (t, in_range ss offset len small_ss lt' le) (refl, refl, v, refl);
    write_piece_disk = λ rows i offset src v lt lt' le.
        let t : leb ns i ≡ false = ground arith in
        let fits : length (row rows i) ≡ ss =
          All-row (λ r. length r ≡ ss) rows i v.sized (omega (arith, v.count)) in
        rw (t, in_range ss offset (length src) small_ss lt' le)
          (
            refl,
            record {
              count = length-set rows i (with_piece (row rows i) offset src) ∙ v.count;
              sized =
                  All-set (λ r. length r ≡ ss) rows i (with_piece (row rows i) offset src) v.sized
                    (length-with_piece (row rows i) offset src (omega (arith, fits)) ∙ fits);
            },
            row-set rows i (with_piece (row rows i) offset src) (omega (arith, v.count)),
          );
    flush_disk = λ rows v. (refl, v, refl);
  }

  new-IsValid : (n m junk : ℕ) → All (λ r. length r ≡ m) (replicate n (replicate m junk))
  new-IsValid zero m junk = tt
  new-IsValid (suc n) m junk = (length-replicate m junk, new-IsValid n m junk)

  -- A new device in memory of `ns` sectors of `ss` bytes, both positive and in a `size_t` like their
  -- product, once its two allocations have succeeded: a client that stays on the device gets from every call a success and
  -- what a disk gives whose sectors hold, at first, what the memory held.
  pub mem_block_device-run :
      (cs : List Call) (junk : ℕ) (mem : Memory)
      → 0 < ns
      → 0 < ss
      → ns < 2 ^ 32
      → ss < 2 ^ 32
      → ss * ns < 2 ^ 32
      → All (Fits ns ss) cs
      → map
          (run (mem_block_device ss ns) cs)
          (new_mem_block_device ss ns junk (true ∷ (true ∷ mem))).0
        ≡ some (run_on_disk cs (row (replicate ns (replicate ss junk))))
  unfolding new_mem_block_device mem_disk
  mem_block_device-run cs junk mem pos pos' small small' _ fits =
      let has_bytes : (ss == 0) ≡ false = ground arith in
      let has_sectors : (ns == 0) ≡ false = ground arith in
      rw (has_bytes, has_sectors)
        (ap some (
          run-on_disk (mem_block_device ss ns) (mem_disk small small') cs
            (replicate ns (replicate ss junk))
            (record {
              count = length-replicate ns (replicate ss junk);
              sized = new-IsValid ns ss junk;
            })
            fits))

  pub new_mem_block_device-IsValid :
      (junk : ℕ) (small : ns < 2 ^ 32) (small' : ss < 2 ^ 32)
      → IsDisk.IsValid (mem_disk small small') (replicate ns (replicate ss junk))
  unfolding mem_disk
  new_mem_block_device-IsValid junk small small' = record {
    count = length-replicate ns (replicate ss junk);
    sized = new-IsValid ns ss junk;
  }

  -- The disk of a device in memory, and what its memory has to be.
  pub mem_disk-sector :
      (small : ns < 2 ^ 32) (small' : ss < 2 ^ 32)
      → IsDisk.sector (mem_disk small small') ≡ (λ rows i. get_or rows i [])
  unfolding mem_disk
  mem_disk-sector small small' = refl

  pub mem_disk-IsValid :
      (rows : List Sector) (small : ns < 2 ^ 32) (small' : ss < 2 ^ 32)
      → length rows ≡ ns
      → All (λ r. length r ≡ ss) rows
      → IsDisk.IsValid (mem_disk small small') rows
  unfolding mem_disk
  mem_disk-IsValid rows small small' count sized = record { count = count; sized = sized }
