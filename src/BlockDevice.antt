-- ===== src/BlockDevice.antt =====
-- s_block_device/include/s_block_device/block_device.h: what a block device offers, and what it
-- promises. A buffer of whole sectors is the list of its sectors; a `dest` or `src` that is NULL is
-- `false` or `none`.
pub mod Mem
pub mod Cached
pub mod Client
pub mod Tests
use fern_os.Prelude.{
  ℕ, zero, suc, ◌+◌, ◌-◌, ◌%◌, ◌^◌, ◌≤◌, ◌<◌, ◌≡◌, Bool, true, ◌||◌, Option, some, List, [], ◌∷◌,
  ◌++◌, take, drop, length, leb, ltb, All, arith, dec_lt, ◌==◌, if◌then◌else◌, false, length-append,
  length-take, length-drop,
}
use fern_os.Err.{Err, success}

abbrev pub Sector : Type 0
Sector = List ℕ

-- The operations of `block_device_impl_t`. An operation returns the bytes that it wrote to `dest`.
pub record BlockDevice : Type 1 where
  pub State : Type 0
  pub num_sectors : ℕ
  pub sector_size : ℕ
  pub bd_read : State → ℕ → ℕ → Bool → Err × List Sector × State
  pub bd_write : State → ℕ → Option (List Sector) → Err × State
  pub bd_read_piece : State → ℕ → ℕ → ℕ → Bool → Err × List ℕ × State
  pub bd_write_piece : State → ℕ → ℕ → Option (List ℕ) → Err × State
  pub bd_flush : State → Err × State

-- `sector_ind >= ns || sector_ind + num_sectors > ns || sector_ind + num_sectors < sector_ind`, on
-- 32 bits; for a piece, of an offset and a length in a sector.
abbrev pub out_of_range : ℕ → ℕ → ℕ → Bool
out_of_range bound at n = let end = (at + n) % 2 ^ 32 in leb bound at || ltb bound end || ltb end at

-- The sectors of a disk from `i` on, and a disk with a list of sectors written from `i` on.
abbrev pub sectors : (ℕ → Sector) → ℕ → ℕ → List Sector
sectors disk i zero = []
sectors disk i (suc n) = disk i ∷ sectors disk (suc i) n

abbrev pub with_sector : (ℕ → Sector) → ℕ → Sector → ℕ → Sector
with_sector disk i x j = if i == j then x else disk j

abbrev pub with_sectors : (ℕ → Sector) → ℕ → List Sector → ℕ → Sector
with_sectors disk i [] = disk
with_sectors disk i (x ∷ xs) = with_sectors (with_sector disk i x) (suc i) xs

-- A sector with bytes written from an offset on.
abbrev pub with_piece : Sector → ℕ → List ℕ → Sector
with_piece s offset piece = take offset s ++ (piece ++ drop (offset + length piece) s)

-- A range on the device is not refused.
pub in_range :
    (bound at n : ℕ)
    → bound < 2 ^ 32
    → at < bound
    → at + n ≤ bound
    → out_of_range bound at n ≡ false
in_range bound at n small lt le =
    let w : (at + n) % 2 ^ 32 ≡ at + n = omega arith in rw w (ground arith)

-- What the header says is refused: a range that does not lie on the device, also where its end is
-- past the largest 32-bit number.
pub not_in_range :
    (bound at n : ℕ)
    → bound < 2 ^ 32
    → at < 2 ^ 32
    → n < 2 ^ 32
    → (at < bound → bound < at + n)
    → out_of_range bound at n ≡ true
not_in_range bound at n small small' small'' past = elim (dec_lt at bound) [
  | no ge ↦ ground arith
  | yes lt ↦ elim (dec_lt (at + n) (2 ^ 32)) [
    | yes fits ↦ let w : (at + n) % 2 ^ 32 ≡ at + n = omega arith in rw w (ground (arith, past lt))
    | no wraps ↦
        let w : (at + n) % 2 ^ 32 ≡ at + n - 2 ^ 32 = omega arith in rw w (ground (arith, wraps))
  ]
]

pub length-with_piece :
    (s : Sector) (offset : ℕ) (piece : List ℕ)
    → offset + length piece ≤ length s
    → length (with_piece s offset piece) ≡ length s
length-with_piece s offset piece le = omega (
  arith,
  length-append (take offset s) (piece ++ drop (offset + length piece) s),
  length-append piece (drop (offset + length piece) s),
  length-take offset s,
  length-drop (offset + length piece) s,
)

-- What the header promises: a device that works is a disk, a function from sector numbers. `sector`
-- reads the disk off a state that `IsValid`.
module _ (b : BlockDevice) where
  open b use {
    State, num_sectors, sector_size, bd_read, bd_write, bd_read_piece, bd_write_piece, bd_flush,
  }

  pub record IsDisk : Type 1 where
    pub IsValid : State → Type 0
    pub sector : State → ℕ → Sector
    pub small : (num_sectors < 2 ^ 32) × (sector_size < 2 ^ 32)
    pub sized :
        (s : State) (i : ℕ) → IsValid s → i < num_sectors → length (sector s i) ≡ sector_size
    pub read_disk :
        (s : State) (i n : ℕ)
        → IsValid s
        → i < num_sectors
        → i + n ≤ num_sectors
        → let (err, dest, s') = bd_read s i n true in
          (err ≡ success) × (dest ≡ sectors (sector s) i n) × IsValid s' × (sector s' ≡ sector s)
    pub write_disk :
        (s : State) (i : ℕ) (src : List Sector)
        → IsValid s
        → i < num_sectors
        → i + length src ≤ num_sectors
        → All (λ x. length x ≡ sector_size) src
        → let (err, s') = bd_write s i (some src) in
          (err ≡ success) × IsValid s' × (sector s' ≡ with_sectors (sector s) i src)
    pub read_piece_disk :
        (s : State) (i offset len : ℕ)
        → IsValid s
        → i < num_sectors
        → offset < sector_size
        → offset + len ≤ sector_size
        → let (err, dest, s') = bd_read_piece s i offset len true in
          (err ≡ success)
          × (dest ≡ take len (drop offset (sector s i)))
          × IsValid s'
          × (sector s' ≡ sector s)
    pub write_piece_disk :
        (s : State) (i offset : ℕ) (src : List ℕ)
        → IsValid s
        → i < num_sectors
        → offset < sector_size
        → offset + length src ≤ sector_size
        → let (err, s') = bd_write_piece s i offset (some src) in
          (err ≡ success)
          × IsValid s'
          × (sector s' ≡ with_sector (sector s) i (with_piece (sector s i) offset src))
    pub flush_disk :
        (s : State)
        → IsValid s
        → let (err, s') = bd_flush s in (err ≡ success) × IsValid s' × (sector s' ≡ sector s)
