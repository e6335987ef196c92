-- ===== src/BlockDevice/Mem.antt =====
-- s_block_device/src/mem_block_device.c: a block device in memory.
pub mod Laws
use fern_os.Prelude.{
  ℕ, ◌*◌, ◌%◌, ◌^◌, Bool, true, false, not, ◌||◌, Option, none, some, List, [], take, drop, length,
  leb, blit, get_or, set, replicate, ◌==◌, ltb, if◌then◌else◌,
}
use fern_os.Err.{Err, success, bad_args, invalid_range, Mem, al_malloc}
use fern_os.BlockDevice.{Sector, BlockDevice, out_of_range, with_piece}

-- `mem_block_device_t`: the two constants are parameters, and the memory is its sectors.
module _ (sector_size num_sectors : ℕ) where
  -- `new_mem_block_device`, where the product of the two constants is less than 2^32: the code asks for
  -- the product modulo 2^32. `junk` is what the fresh memory holds.
  pub new_mem_block_device : ℕ → Mem → Option (List Sector) × Mem
  new_mem_block_device junk mem =
      if sector_size == 0 || num_sectors == 0
      then (none, mem)
      else let (mbd, mem1) = al_malloc mem in
        let (rows, mem2) = al_malloc mem1 in
        if not mbd || not rows
        then (none, mem2)
        else (some (replicate num_sectors (replicate sector_size junk)), mem2)

  pub mbd_read : List Sector → ℕ → ℕ → Bool → Err × List Sector × List Sector
  mbd_read rows sector_ind n dest =
      if not dest
      then (bad_args, [], rows)
      else if out_of_range num_sectors sector_ind n
      then (invalid_range, [], rows)
      else if ltb 0 n
      then (success, take n (drop sector_ind rows), rows)
      else (success, [], rows)

  pub mbd_write : List Sector → ℕ → Option (List Sector) → Err × List Sector
  mbd_write rows sector_ind none = (bad_args, rows)
  mbd_write rows sector_ind (some src) =
      if out_of_range num_sectors sector_ind (length src)
      then (invalid_range, rows)
      else (success, blit rows sector_ind src)

  pub mbd_read_piece : List Sector → ℕ → ℕ → ℕ → Bool → Err × List ℕ × List Sector
  mbd_read_piece rows sector_ind offset len dest =
      if not dest
      then (bad_args, [], rows)
      else if leb num_sectors sector_ind || out_of_range sector_size offset len
      then (invalid_range, [], rows)
      else (success, take len (drop offset (get_or rows sector_ind [])), rows)

  pub mbd_write_piece : List Sector → ℕ → ℕ → Option (List ℕ) → Err × List Sector
  mbd_write_piece rows sector_ind offset none = (bad_args, rows)
  mbd_write_piece rows sector_ind offset (some src) =
      if leb num_sectors sector_ind || out_of_range sector_size offset (length src)
      then (invalid_range, rows)
      else (success, set rows sector_ind (with_piece (get_or rows sector_ind []) offset src))

  -- `MBD_IMPL`; there is nothing to flush.
  abbrev pub mem_block_device : BlockDevice
  mem_block_device = record {
    State = List Sector;
    num_sectors = num_sectors;
    sector_size = sector_size;
    bd_read = mbd_read;
    bd_write = mbd_write;
    bd_read_piece = mbd_read_piece;
    bd_write_piece = mbd_write_piece;
    bd_flush = λ rows. (success, rows);
  }
