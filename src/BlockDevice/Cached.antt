-- ===== src/BlockDevice/Cached.antt =====
-- s_block_device/src/cached_block_device.c: a block device that keeps sectors of another one in
-- memory.
pub mod Invariant
pub mod Slot
pub mod Piece
pub mod Ranges
pub mod Overwrite
pub mod Flush
pub mod Laws
use fern_os.Prelude.{
  ℕ, zero, suc, ◌+◌, ◌-◌, ◌%◌, ◌^◌, Bool, true, false, not, ◌||◌, ◌&&◌, Option, none, some, List,
  [], ◌∷◌, ◌++◌, take, drop, length, ◌==◌, ltb, leb, if◌then◌else◌,
}
use fern_os.Err.{Err, success, no_mem, bad_args, invalid_range, is_success}
use fern_os.Map.{Map, mp_get, mp_put, mp_remove, mp_clear}
use fern_os.Rand.{rand, next_rand_u32}
use fern_os.BlockDevice.{Sector, BlockDevice, out_of_range, with_piece}

-- `cached_sector_entry_t`
pub record CachedSectorEntry : Type 0 where
  pub sector_ind : ℕ
  pub sector : Sector

-- The parts of `cached_block_device_t` that change, around a device whose states are `S`. `mem` has
-- the answers of the allocator, without end.
pub record CachedBlockDevice (S : Type 0) : Type 0 where
  pub wrapped_bd : S
  pub r : ℕ
  pub cache_fill : ℕ
  pub cache : ℕ → CachedSectorEntry
  pub sector_map : Map ℕ
  pub mem : ℕ → Bool

-- The sector that a read of one sector has put into the buffer.
abbrev pub first_sector : List Sector → Sector → Sector
first_sector [] old = old
first_sector (x ∷ xs) old = x

module _ (b : BlockDevice) (cache_cap : ℕ) where
  open b use {State, num_sectors, sector_size, bd_read, bd_write, bd_flush}

  abbrev pub Cached : Type 0
  Cached = CachedBlockDevice State

  abbrev pub set_entry : Cached → ℕ → CachedSectorEntry → Cached
  set_entry s ind e = record s { cache = λ i. if i == ind then e else s.cache i }

  -- The memory of the slots, one allocation for each, up to one that fails.
  pub alloc_slots : ℕ → (ℕ → Bool) → Bool × (ℕ → Bool)
  alloc_slots zero mem = (true, mem)
  alloc_slots (suc n) mem =
      let later : ℕ → Bool = λ i. mem (suc i) in
      let rest = alloc_slots n later in if mem 0 then rest else (false, later)

  -- `junk` is what the fresh slots hold.
  pub new_cached_block_device :
      State → ℕ → (ℕ → CachedSectorEntry) → (ℕ → Bool) → Option Cached × (ℕ → Bool)
  unfolding alloc_slots
  new_cached_block_device bd seed junk mem =
      let mem2 : ℕ → Bool = λ i. mem (suc (suc i)) in
      let (slots, mem3) = if mem 1 then alloc_slots cache_cap mem2 else (true, mem2) in
      let mem4 : ℕ → Bool = λ i. mem3 (suc i) in
      if cache_cap == 0
      then (none, mem)
      else if mem 0 && mem 1 && slots && mem3 0
      then (
        some record {
          wrapped_bd = bd;
          r = rand seed;
          cache_fill = 0;
          cache = junk;
          sector_map = [];
          mem = mem4;
        },
        mem4,
      )
      else (none, mem4)

  -- The sectors from `section_start` on that have not been read, up to one that is cached.
  pub read_section : Cached → ℕ → ℕ → Err × List Sector × Cached
  read_section s section_start i =
      let (err, dest, bd) = bd_read s.wrapped_bd section_start (i - section_start) true in
      if ltb section_start i then (err, dest, record s { wrapped_bd = bd }) else (success, [], s)

  -- The loop of `cbd_read`, with the number of sectors left and what `dest` holds so far.
  pub read_loop : ℕ → ℕ → ℕ → List Sector → Cached → Err × List Sector × Cached
  read_loop zero i section_start dest s =
      let (err, more, s') = read_section s section_start i in (err, dest ++ more, s')
  read_loop (suc n) i section_start dest s = elim (mp_get s.sector_map i) [
    | none ↦ read_loop n (suc i) section_start dest s
    | some ind ↦
        let (err, more, s') = read_section s section_start i in
        elim (is_success err) [
          | false ↦ (err, dest ++ more, s')
          | true ↦ read_loop n (suc i) (suc i) ((dest ++ more) ++ ((s'.cache ind).sector ∷ [])) s'
        ]
  ]

  pub cbd_read : Cached → ℕ → ℕ → Bool → Err × List Sector × Cached
  unfolding read_loop read_section
  cbd_read s sector_ind n dest =
      if not dest
      then (bad_args, [], s)
      else if out_of_range num_sectors sector_ind n
      then (invalid_range, [], s)
      else read_loop n sector_ind sector_ind [] s

  -- The sectors that missed the cache so far go to the wrapped device.
  pub write_section : Cached → ℕ → List Sector → Err × Cached
  write_section s section_start [] = (success, s)
  write_section s section_start (x ∷ xs) =
      let (err, bd) = bd_write s.wrapped_bd section_start (some (x ∷ xs)) in
      (err, record s { wrapped_bd = bd })

  -- The loop of `cbd_write`: the sectors of `src` from `section_start` to `i`, and those from `i` on.
  pub write_loop : ℕ → ℕ → List Sector → List Sector → Cached → Err × Cached
  write_loop i section_start section [] s = write_section s section_start section
  write_loop i section_start section (x ∷ src) s = elim (mp_get s.sector_map i) [
    | none ↦ write_loop (suc i) section_start (section ++ (x ∷ [])) src s
    | some ind ↦
        let (err, s') = write_section s section_start section in
        elim (is_success err) [
          | false ↦ (err, s')
          | true ↦
              write_loop (suc i) (suc i) [] src
                (set_entry s' ind (record (s'.cache ind) { sector = x }))
        ]
  ]

  pub cbd_write : Cached → ℕ → Option (List Sector) → Err × Cached
  unfolding write_loop write_section
  cbd_write s sector_ind none = (bad_args, s)
  cbd_write s sector_ind (some src) =
      if out_of_range num_sectors sector_ind (length src)
      then (invalid_range, s)
      else write_loop sector_ind sector_ind [] src s

  -- The end of `cbd_get_cache_entry_ind` for a miss: the sector is loaded into a slot.
  pub load : Cached → ℕ → ℕ → Err × ℕ × Cached
  load s ind sector_ind =
      let s1 = set_entry s ind (record (s.cache ind) { sector_ind = sector_ind }) in
      let s2 = record s1 { mem = λ i. s.mem (suc i) } in
      let (err, dest, bd) = bd_read s.wrapped_bd sector_ind 1 true in
      let s4 =
        record (set_entry s ind
          (record { sector_ind = sector_ind; sector = first_sector dest (s.cache ind).sector })) {
            wrapped_bd = bd;
            sector_map = mp_put s.sector_map sector_ind ind;
            mem = λ i. s.mem (suc i);
          } in
      if s.mem 0
      then (if is_success err then (success, ind, s4) else (err, 0, s4))
      else (no_mem, 0, s2)

  -- When the cache is full, a random sector is written back and gives up its slot.
  pub evict : Cached → ℕ → Err × ℕ × Cached
  unfolding load
  evict s sector_ind =
      let (x, r) = next_rand_u32 s.r in
      let ind = x % cache_cap in
      let (err, bd) =
        bd_write s.wrapped_bd (s.cache ind).sector_ind (some ((s.cache ind).sector ∷ [])) in
      let s1 = record s { r = r; wrapped_bd = bd } in
      if is_success err
      then load (record s1 { sector_map = mp_remove s.sector_map (s.cache ind).sector_ind }) ind
          sector_ind
      else (err, 0, s1)

  pub cbd_get_cache_entry_ind : Cached → ℕ → Err × ℕ × Cached
  unfolding load evict
  cbd_get_cache_entry_ind s sector_ind = elim (mp_get s.sector_map sector_ind) [
    | some ind ↦ (success, ind, s)
    | none ↦
        if ltb s.cache_fill cache_cap
        then load (record s { cache_fill = s.cache_fill + 1 }) s.cache_fill sector_ind
        else evict s sector_ind
  ]

  pub cbd_read_piece : Cached → ℕ → ℕ → ℕ → Bool → Err × List ℕ × Cached
  unfolding cbd_get_cache_entry_ind
  cbd_read_piece s sector_ind offset len dest =
      let (err, ind, s') = cbd_get_cache_entry_ind s sector_ind in
      if not dest
      then (bad_args, [], s)
      else if leb num_sectors sector_ind || out_of_range sector_size offset len
      then (invalid_range, [], s)
      else if is_success err
      then (success, take len (drop offset (s'.cache ind).sector), s')
      else (err, [], s')

  pub cbd_write_piece : Cached → ℕ → ℕ → Option (List ℕ) → Err × Cached
  unfolding cbd_get_cache_entry_ind
  cbd_write_piece s sector_ind offset none = (bad_args, s)
  cbd_write_piece s sector_ind offset (some src) =
      let (err, ind, s') = cbd_get_cache_entry_ind s sector_ind in
      if leb num_sectors sector_ind || out_of_range sector_size offset (length src)
      then (invalid_range, s)
      else if is_success err
      then (
        success,
        set_entry s' ind
            (record (s'.cache ind) { sector = with_piece (s'.cache ind).sector offset src }),
      )
      else (err, s')

  -- The loop of `cbd_flush` over the entries of the map.
  pub flush_loop : Map ℕ → Cached → Err × Cached
  flush_loop [] s = (success, s)
  flush_loop ((sector_ind, ind) ∷ m) s =
      let (err, bd) = bd_write s.wrapped_bd sector_ind (some ((s.cache ind).sector ∷ [])) in
      let s' = record s { wrapped_bd = bd } in
      elim (is_success err) [ true ↦ flush_loop m s' | false ↦ (err, s') ]

  -- `cbd_flush`. Where no new map can be made, the code is left with none, which no operation
  -- survives.
  pub cbd_flush : Cached → Err × Cached
  unfolding flush_loop
  cbd_flush s =
      let (err, s1) = flush_loop s.sector_map s in
      let s2 = record s1 { sector_map = mp_clear s1.sector_map; mem = λ i. s1.mem (suc i) } in
      let (err', bd) = bd_flush s2.wrapped_bd in
      if is_success err
      then (if s1.mem 0
          then (err', record s2 { cache_fill = 0; wrapped_bd = bd })
          else (no_mem, s2))
      else (err, s1)

  -- `CBD_IMPL`
  abbrev pub cached_block_device : BlockDevice
  cached_block_device = record {
    State = Cached;
    num_sectors = num_sectors;
    sector_size = sector_size;
    bd_read = cbd_read;
    bd_write = cbd_write;
    bd_read_piece = cbd_read_piece;
    bd_write_piece = cbd_write_piece;
    bd_flush = cbd_flush;
  }
