-- ===== src/BlockDevice/Cached/Laws.antt =====
-- The cached device keeps what a block device promises, over a wrapped device that does.
use fern_os.Prelude.{
  ℕ, zero, suc, ◌<◌, ◌≡◌, ap, sym, ◌∙◌, refl, Option-cases, inl, inr, length, Bool, true, false,
  Option, some, List, [], arith, All, ◌==◌,
}
use mathlib.Core.Option.{map}
use fern_os.Rand.{rand}
use fern_os.BlockDevice.Client.{
  Call, read, write, read_piece, write_piece, flush, Fits, OffDisk, call, piece_refused, run,
  run_on_disk, run-on_disk,
}
use fern_os.Err.{invalid_range}
use fern_os.Map.{mp_get}
use fern_os.BlockDevice.{BlockDevice, IsDisk, not_in_range}
use fern_os.BlockDevice.Cached.{
  CachedSectorEntry, Cached, cbd_read, cbd_write, cbd_read_piece, cbd_write_piece, alloc_slots,
  new_cached_block_device, cached_block_device,
}
use fern_os.BlockDevice.Cached.Invariant.{IsCache, shown, pick}
use fern_os.BlockDevice.Cached.Piece.{cbd_read_piece-shown, cbd_write_piece-shown}
use fern_os.BlockDevice.Cached.Ranges.{cbd_read-shown}
use fern_os.BlockDevice.Cached.Overwrite.{cbd_write-shown}
use fern_os.BlockDevice.Cached.Flush.{cbd_flush-shown}

module _ (b : BlockDevice) (d : IsDisk b) (cache_cap : ℕ) where
  shown-sized :
      (s : Cached b cache_cap) (i : ℕ)
      → IsCache b d cache_cap s
      → i < b.num_sectors
      → length (shown b d cache_cap s i) ≡ b.sector_size
  shown-sized s i v lt = elim (Option-cases (mp_get s.sector_map i)) [
    | inl gone ↦
        ap (λ o. length (pick b d cache_cap s o i)) gone ∙ d.sized s.wrapped_bd i v.device lt
    | inr (ind, there) ↦
        let (_, _, _, sized) = v.found i ind there in
        ap (λ o. length (pick b d cache_cap s o i)) there ∙ sized
  ]

  -- A cache with at least one slot, as a disk.
  cached_disk : 0 < cache_cap → IsDisk (cached_block_device b cache_cap)
  cached_disk pos = record {
    IsValid = IsCache b d cache_cap;
    sector = shown b d cache_cap;
    small = d.small;
    sized = shown-sized;
    read_disk = cbd_read-shown b d cache_cap;
    write_disk = cbd_write-shown b d cache_cap;
    read_piece_disk = λ s i offset len v lt lt' le.
        cbd_read_piece-shown b d cache_cap s i offset len pos v lt lt' le;
    write_piece_disk = λ s i offset src v lt lt' le.
        cbd_write_piece-shown b d cache_cap s i offset src pos v lt lt' le;
    flush_disk =
        λ s v. let (ok, sound, same, _) = cbd_flush-shown b d cache_cap s v in (ok, sound, same);
  }

module _ (b : BlockDevice) (d : IsDisk b) (cache_cap : ℕ) where
  alloc_slots-all :
      (n : ℕ) (mem : ℕ → Bool)
      → ((i : ℕ) → mem i ≡ true)
      → ((alloc_slots b cache_cap n mem).0 ≡ true)
        × ((i : ℕ) → (alloc_slots b cache_cap n mem).1 i ≡ true)
  unfolding alloc_slots
  alloc_slots-all zero mem enough = (refl, enough)
  alloc_slots-all (suc n) mem enough =
      rw (enough 0) (alloc_slots-all n (λ i. mem (suc i)) (λ i. enough (suc i)))

  -- A new cache, where there is memory for it, is sound and shows the wrapped disk.
  abbrev Fresh : b.State → Option (Cached b cache_cap) → Type 0
  Fresh bd o =
      (s : Cached b cache_cap) × (o ≡ some s)
      × IsCache b d cache_cap s
      × (shown b d cache_cap s ≡ d.sector bd)

  new_cached_block_device-Fresh :
      (bd : b.State) (seed : ℕ) (junk : ℕ → CachedSectorEntry) (mem : ℕ → Bool)
      → 0 < cache_cap
      → d.IsValid bd
      → ((i : ℕ) → mem i ≡ true)
      → Fresh bd (new_cached_block_device b cache_cap bd seed junk mem).0
  unfolding new_cached_block_device mp_get
  new_cached_block_device-Fresh bd seed junk mem pos v enough =
      let mem2 : ℕ → Bool = λ i. mem (suc (suc i)) in
      let (slots, more) = alloc_slots-all cache_cap mem2 (λ i. enough (suc (suc i))) in
      let zero' : (cache_cap == 0) ≡ false = ground arith in
      rw (enough 0, enough 1, slots, more 0, zero')
        (
          record {
            wrapped_bd = bd;
            r = rand seed;
            cache_fill = 0;
            cache = junk;
            sector_map = [];
            mem = λ i. (alloc_slots b cache_cap cache_cap mem2).1 (suc i);
          },
          refl,
          record {
            device = v;
            enough = λ i. more (suc i);
            filled = omega arith;
            found = λ k ind h. cc h;
            mapped = λ ind h. absurd (omega (arith, h));
            entries = tt;
          },
          refl,
        )

  -- Over a device that works as a disk, a client that stays on the disk cannot tell a new cache with
  -- at least one slot from the device itself, while there is memory: each of its calls of either
  -- gives the same code and the same bytes.
  pub cached_block_device-run :
      (cs : List Call) (bd : b.State) (seed : ℕ) (junk : ℕ → CachedSectorEntry) (mem : ℕ → Bool)
      → 0 < cache_cap
      → d.IsValid bd
      → ((i : ℕ) → mem i ≡ true)
      → All (Fits b.num_sectors b.sector_size) cs
      → map
          (run (cached_block_device b cache_cap) cs)
          (new_cached_block_device b cache_cap bd seed junk mem).0
        ≡ some (run b cs bd)
  unfolding cached_disk
  cached_block_device-run cs bd seed junk mem pos v enough fits =
      let (s, made, sound, same) = new_cached_block_device-Fresh bd seed junk mem pos v enough in
      ap (map (run (cached_block_device b cache_cap) cs)) made
      ∙ ap some (
          run-on_disk (cached_block_device b cache_cap) (cached_disk b d cache_cap pos) cs s sound
            fits
          ∙ ap (run_on_disk cs) same
          ∙ sym (run-on_disk b d cs bd v fits))

  -- Over a device that works as a disk, whatever the state of the cache: a read, a write, or one
  -- of a part of a sector that does not lie on the disk is refused with FOS_E_INVALID_RANGE, and
  -- nothing changes. The numbers of the call are those of a `size_t`; the end of the range may be past
  -- the largest of them.
  pub cached_block_device-refused :
      (c : Call) (s : Cached b cache_cap)
      → OffDisk b.num_sectors b.sector_size c
      → let (err, _, s') = call (cached_block_device b cache_cap) c s in
        (err ≡ invalid_range) × (s' ≡ s)
  unfolding cbd_read cbd_write cbd_read_piece cbd_write_piece
  cached_block_device-refused (read i n) s (lt, lt', off) =
      rw (not_in_range b.num_sectors i n d.small.0 lt lt' off) (refl, refl)
  cached_block_device-refused (write i src) s (lt, lt', off) =
      rw (not_in_range b.num_sectors i (length src) d.small.0 lt lt' off) (refl, refl)
  cached_block_device-refused (read_piece i offset len) s (lt, lt', off) =
      rw (piece_refused b.num_sectors b.sector_size i offset len d.small.1 lt lt' off) (refl, refl)
  cached_block_device-refused (write_piece i offset src) s (lt, lt', off) =
      rw (piece_refused b.num_sectors b.sector_size i offset (length src) d.small.1 lt lt' off)
        (refl, refl)
  cached_block_device-refused flush s off = elim off [ ]
