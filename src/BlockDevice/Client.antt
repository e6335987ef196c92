-- ===== src/BlockDevice/Client.antt =====
-- Two clients of a block device: a sequence of its operations, and the refusal of bad ranges.
use fern_os.Prelude.{
  ℕ, ◌+◌, ◌^◌, ◌≤◌, ◌<◌, ◌≡◌, refl, ap, ap₂, ◌∙◌, true, some, List, [], ◌∷◌, take, drop, All,
  length, leb, dec_lt, arith, ◌||◌,
}
use fern_os.Err.{Err, success}
use fern_os.BlockDevice.{
  Sector, BlockDevice, IsDisk, sectors, with_sector, with_sectors, with_piece, out_of_range,
  not_in_range,
}

-- The calls of block_device.h that a client makes, with the sizes that it has to know.
pub data Call : Type 0 where
  read : ℕ → ℕ → Call
  write : ℕ → List Sector → Call
  read_piece : ℕ → ℕ → ℕ → Call
  write_piece : ℕ → ℕ → List ℕ → Call
  flush : Call

-- Whether a call stays on a device of `ns` sectors of `ss` bytes.
abbrev pub Fits : ℕ → ℕ → Call → Type 0
Fits ns ss (read i n) = (i < ns) × (i + n ≤ ns)
Fits ns ss (write i src) = (i < ns) × (i + length src ≤ ns) × All (λ x. length x ≡ ss) src
Fits ns ss (read_piece i offset len) = (i < ns) × (offset < ss) × (offset + len ≤ ss)
Fits ns ss (write_piece i offset src) = (i < ns) × (offset < ss) × (offset + length src ≤ ss)
Fits ns ss flush = Unit

-- Whether a call names sectors or bytes that are not there.
abbrev pub OffDisk : ℕ → ℕ → Call → Type 0
OffDisk ns ss (read i n) = (i < 2 ^ 32) × (n < 2 ^ 32) × (i < ns → ns < i + n)
OffDisk ns ss (write i src) = (i < 2 ^ 32) × (length src < 2 ^ 32) × (i < ns → ns < i + length src)
OffDisk ns ss (read_piece i offset len) =
    (offset < 2 ^ 32) × (len < 2 ^ 32) × (i < ns → offset < ss → ss < offset + len)
OffDisk ns ss (write_piece i offset src) =
    (offset < 2 ^ 32) × (length src < 2 ^ 32) × (i < ns → offset < ss → ss < offset + length src)
OffDisk ns ss flush = ⊥

pub piece_refused :
    (ns ss i offset len : ℕ)
    → ss < 2 ^ 32
    → offset < 2 ^ 32
    → len < 2 ^ 32
    → (i < ns → offset < ss → ss < offset + len)
    → (leb ns i || out_of_range ss offset len) ≡ true
piece_refused ns ss i offset len small lt lt' off = elim (dec_lt i ns) [
  | no ge ↦ ground arith
  | yes inside ↦ rw (not_in_range ss offset len small lt lt' (off inside)) (ground arith)
]

-- The call on a disk: what the client gets, and the disk after it.
abbrev pub on_disk : Call → (ℕ → Sector) → List Sector × (ℕ → Sector)
on_disk (read i n) disk = (sectors disk i n, disk)
on_disk (write i src) disk = ([], with_sectors disk i src)
on_disk (read_piece i offset len) disk = (take len (drop offset (disk i)) ∷ [], disk)
on_disk (write_piece i offset src) disk = ([], with_sector disk i (with_piece (disk i) offset src))
on_disk flush disk = ([], disk)

pub run_on_disk : List Call → (ℕ → Sector) → List (Err × List Sector)
run_on_disk [] disk = []
run_on_disk (c ∷ cs) disk =
    let (out, disk') = on_disk c disk in (success, out) ∷ run_on_disk cs disk'

module _ (b : BlockDevice) where
  -- The call on a device, by its implementation.
  abbrev pub call : Call → b.State → Err × List Sector × b.State
  call (read i n) s = b.bd_read s i n true
  call (write i src) s = let (err, s') = b.bd_write s i (some src) in (err, [], s')
  call (read_piece i offset len) s =
      let (err, piece, s') = b.bd_read_piece s i offset len true in (err, piece ∷ [], s')
  call (write_piece i offset src) s =
      let (err, s') = b.bd_write_piece s i offset (some src) in (err, [], s')
  call flush s = let (err, s') = b.bd_flush s in (err, [], s')

  pub run : List Call → b.State → List (Err × List Sector)
  run [] s = []
  run (c ∷ cs) s = let (err, out, s') = call c s in (err, out) ∷ run cs s'

  module _ (d : IsDisk b) where
    call-on_disk :
        (c : Call) (s : b.State)
        → d.IsValid s
        → Fits b.num_sectors b.sector_size c
        → let (err, out, s') = call c s in
          (err ≡ success)
          × (out ≡ (on_disk c (d.sector s)).0)
          × d.IsValid s'
          × (d.sector s' ≡ (on_disk c (d.sector s)).1)
    call-on_disk (read i n) s v fits = d.read_disk s i n v fits.0 fits.1
    call-on_disk (write i src) s v fits =
        let (lt, le, sized) = fits in
        let (ok, v', same) = d.write_disk s i src v lt le sized in (ok, refl, v', same)
    call-on_disk (read_piece i offset len) s v fits =
        let (lt, lt', le) = fits in
        let (ok, out, v', same) = d.read_piece_disk s i offset len v lt lt' le in
        (ok, ap (λ p. p ∷ []) out, v', same)
    call-on_disk (write_piece i offset src) s v fits =
        let (lt, lt', le) = fits in
        let (ok, v', same) = d.write_piece_disk s i offset src v lt lt' le in (ok, refl, v', same)
    call-on_disk flush s v fits = let (ok, v', same) = d.flush_disk s v in (ok, refl, v', same)

    -- A client of a device that works as a disk gets what the disk gives.
    pub run-on_disk :
        (cs : List Call) (s : b.State)
        → d.IsValid s
        → All (Fits b.num_sectors b.sector_size) cs
        → run cs s ≡ run_on_disk cs (d.sector s)
    unfolding run run_on_disk
    run-on_disk [] s v fits = refl
    run-on_disk (c ∷ cs) s v fits =
        let (ok, out, v', same) = call-on_disk c s v fits.0 in
        ap₂ (λ o l. o ∷ l) (ap₂ (λ e o. (e, o)) ok out)
          (run-on_disk cs (call c s).2 v' fits.1 ∙ ap (run_on_disk cs) same)
