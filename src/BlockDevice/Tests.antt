-- ===== src/BlockDevice/Tests.antt =====
-- Block devices at concrete sizes.
use fern_os.Prelude.{ℕ, ◌≡◌, refl, Bool, true, some, List, [], ◌∷◌, replicate, get_or, arith}
use mathlib.Core.Option.{map}
use fern_os.Err.{success, invalid_range}
use fern_os.Map.{mp_get}
use fern_os.BlockDevice.{Sector, BlockDevice, IsDisk}
use fern_os.BlockDevice.Client.{
  Call, read, write, read_piece, write_piece, flush, call, run, run_on_disk,
}
use fern_os.BlockDevice.Mem.{new_mem_block_device, mem_block_device}
use fern_os.BlockDevice.Mem.Laws.{mem_disk, mem_block_device-run, new_mem_block_device-IsValid}
use fern_os.BlockDevice.Cached.{
  CachedSectorEntry, CachedBlockDevice, new_cached_block_device, cbd_write_piece, cbd_flush,
  cached_block_device,
}
use fern_os.BlockDevice.Cached.Invariant.{IsCache, shown}
use fern_os.BlockDevice.Cached.Piece.{cbd_write_piece-shown}
use fern_os.BlockDevice.Cached.Flush.{cbd_flush-shown}
use fern_os.BlockDevice.Cached.Laws.{cached_block_device-run, cached_block_device-refused}

-- A client of a device of 4 sectors of 2 bytes that touches more sectors than the cache has slots.
abbrev calls : List Call
calls =
    write_piece 0 1 (7 ∷ [])
    ∷ (write_piece 2 0 (8 ∷ [])
        ∷ (write_piece 3 0 (9 ∷ [])
            ∷ (read 0 4 ∷ (write 1 ((1 ∷ (2 ∷ [])) ∷ []) ∷ (flush ∷ (read_piece 1 1 1 ∷ []))))))

abbrev two_by_four : BlockDevice
two_by_four = mem_block_device 2 4

abbrev disk : IsDisk two_by_four
disk = mem_disk 2 4 (omega arith) (omega arith)

abbrev junk : ℕ → CachedSectorEntry
junk i = record { sector_ind = 0; sector = [] }

abbrev always : ℕ → Bool
always i = true

abbrev rows : List Sector
rows = replicate 4 (0 ∷ (0 ∷ []))

-- An empty cache of two slots over the device, and the same after a write to a part of a sector.
abbrev empty_cache : CachedBlockDevice (List Sector)
empty_cache = record {
  wrapped_bd = rows;
  r = 3;
  cache_fill = 0;
  cache = junk;
  sector_map = [];
  mem = always;
}

empty_cache-IsCache : IsCache two_by_four disk 2 empty_cache
unfolding mp_get
empty_cache-IsCache = record {
  device = new_mem_block_device-IsValid 2 4 0 (omega arith) (omega arith);
  enough = λ i. refl;
  filled = omega arith;
  found = λ k ind h. cc h;
  mapped = λ ind h. absurd (omega (arith, h));
  entries = tt;
}

abbrev written : CachedBlockDevice (List Sector)
written = (cbd_write_piece two_by_four 2 empty_cache 2 0 (some (8 ∷ []))).1

mem_block_device-run_example :
    map (run two_by_four calls) (new_mem_block_device 2 4 5 (true ∷ (true ∷ []))).0
    ≡ some (run_on_disk calls (λ i. get_or (replicate 4 (replicate 2 5)) i []))
mem_block_device-run_example =
    mem_block_device-run 2 4 calls 5 [] (omega arith) (omega arith) (omega arith) (omega arith)
      (omega arith) (ground arith)

cached_block_device-run_example :
    map
      (run (cached_block_device two_by_four 2) calls)
      (new_cached_block_device two_by_four 2 rows 3 junk always).0
    ≡ some (run two_by_four calls rows)
cached_block_device-run_example =
    cached_block_device-run two_by_four disk 2 calls rows 3 junk always (omega arith)
      (new_mem_block_device-IsValid 2 4 0 (omega arith) (omega arith)) (λ i. refl) (ground arith)

-- The range from the last sector on that ends past the largest number of 32 bits.
cached_block_device-refused_example :
    (call (cached_block_device two_by_four 2) (read 3 4294967295) empty_cache).0 ≡ invalid_range
    × ((call (cached_block_device two_by_four 2) (read 3 4294967295) empty_cache).2 ≡ empty_cache)
cached_block_device-refused_example =
    cached_block_device-refused two_by_four disk 2 (read 3 4294967295) empty_cache
      (omega arith, omega arith, λ lt. omega arith)

cbd_flush-shown_example :
    let (err, s') = cbd_flush two_by_four 2 written in
    (err ≡ success)
    × IsCache two_by_four disk 2 s'
    × (shown two_by_four disk 2 s' ≡ shown two_by_four disk 2 written)
    × (disk.sector s'.wrapped_bd ≡ shown two_by_four disk 2 written)
cbd_flush-shown_example =
    cbd_flush-shown two_by_four disk 2 written
      (cbd_write_piece-shown two_by_four disk 2 empty_cache 2 0 (8 ∷ []) (omega arith)
        empty_cache-IsCache (omega arith) (omega arith) (omega arith)).1
