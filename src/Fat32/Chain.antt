-- ===== src/Fat32/Chain.antt =====
-- s_block_device/src/fat32.c: chains of slots. A loop that follows slots until the end of a chain runs
-- on fuel, and `none` is the answer where it is used up.
pub mod Table
pub mod Free
pub mod Traverse
pub mod Queue
pub mod Taking
use fern_os.Prelude.{
  ℕ, zero, suc, ◌+◌, ◌-◌, ◌*◌, ◌/◌, ◌%◌, ◌^◌, Bool, true, false, not, ◌&&◌, ◌||◌, Option, none,
  some, List, [], ◌∷◌, take, drop, length, leb, ltb, ◌==◌, if◌then◌else◌,
}
use fern_os.Err.{
  Err, success, unknown_error, bad_args, invalid_range, invalid_index, state_mismatch, no_space,
  is_success,
}
use fern_os.Rand.{next_rand_u32}
use fern_os.BlockDevice.{Sector, BlockDevice}
use fern_os.Fat32.{
  Layout, Fat32Device, mask, eoc, is_eoc, bad_cluster, slots_per_fat_sector, le32, Dev,
  fat32_get_fat_slot, fat32_set_fat_slot,
}

-- The loop over one sector of the table: `n` slots from `i` on, of which the free ones are queued.
pub queue_free : ℕ → ℕ → ℕ → Sector → List ℕ → List ℕ
queue_free zero i fat_sector_ind sector free_q = free_q
queue_free (suc n) i fat_sector_ind sector free_q =
    let found = fat_sector_ind * slots_per_fat_sector + i in
    queue_free n (suc i) fat_sector_ind sector
      (if mask (le32 (take 4 (drop (i * 4) sector))) == 0 then found ∷ free_q else free_q)

abbrev pub first_slot : ℕ → ℕ
first_slot fat_sector_ind = if fat_sector_ind == 0 then 2 else 0

-- The bytes of the sector that was read.
abbrev pub one_sector : List Sector → Sector
one_sector [] = []
one_sector (s ∷ ss) = s

-- `free_q_fill == 0` after the search.
abbrev pub found_any : List ℕ → Err
found_any [] = no_space
found_any (i ∷ is) = success

module _ (b : BlockDevice) (l : Layout) where
  -- `slot_ind < 2 || slot_ind >= dev->num_fat_slots`
  abbrev pub no_slot : ℕ → Bool
  no_slot i = ltb i 2 || leb l.num_fat_slots i

  -- The loop of `fat32_free_chain`.
  pub free_loop : ℕ → ℕ → Dev b l → Option (Err × Dev b l)
  free_loop zero curr_ind dev = none
  free_loop (suc n) curr_ind dev =
      let (err, next_ind, dev1) = fat32_get_fat_slot b l dev curr_ind true in
      let (err', dev2) = fat32_set_fat_slot b l dev1 curr_ind 0 in
      let rest = free_loop n next_ind dev2 in
      if is_eoc curr_ind
      then some (success, dev)
      else if not (is_success err)
      then some (unknown_error, dev1)
      else if not (is_eoc next_ind) && no_slot next_ind
      then some (state_mismatch, dev1)
      else if not (is_success err')
      then some (unknown_error, dev2)
      else rest

  pub fat32_free_chain : Dev b l → ℕ → Option (Err × Dev b l)
  unfolding free_loop
  fat32_free_chain dev slot_ind =
      let slot = mask slot_ind in
      if no_slot slot then some (invalid_index, dev) else free_loop (l.num_fat_slots + 2) slot dev

  -- The loop of `fat32_traverse_chain`, with the links that are left.
  pub traverse_loop : ℕ → ℕ → Dev b l → Err × ℕ × Dev b l
  traverse_loop zero iter dev = (success, iter, dev)
  traverse_loop (suc n) iter dev =
      let (err, next_iter, dev1) = fat32_get_fat_slot b l dev iter true in
      let rest = traverse_loop n next_iter dev1 in
      if not (is_success err)
      then (unknown_error, 0, dev1)
      else if is_eoc next_iter
      then (invalid_index, 0, dev1)
      else if no_slot next_iter
      then (state_mismatch, 0, dev1)
      else rest

  pub fat32_traverse_chain : Dev b l → ℕ → ℕ → Bool → Err × ℕ × Dev b l
  unfolding traverse_loop
  fat32_traverse_chain dev slot_ind slot_offset slot_stop_ind =
      let slot = mask slot_ind in
      if not slot_stop_ind
      then (bad_args, 0, dev)
      else if no_slot slot
      then (invalid_index, 0, dev)
      else traverse_loop slot_offset slot dev

  abbrev pub end_slot : ℕ → ℕ
  end_slot fat_sector_ind =
      let rem = l.num_fat_slots % slots_per_fat_sector in
      if (fat_sector_ind == l.sectors_per_fat - 1) && ltb 0 rem then rem else slots_per_fat_sector

  -- The tries of `fat32_populate_free_queue`.
  pub populate_loop : ℕ → Dev b l → Err × Dev b l
  unfolding queue_free
  populate_loop zero dev = (success, dev)
  populate_loop (suc n) dev =
      let (x, r) = next_rand_u32 dev.r in
      let fat_sector_ind = x % l.sectors_per_fat in
      let (err, dest, bd) = b.bd_read dev.bd ((l.fat_offset + fat_sector_ind) % 2 ^ 32) 1 true in
      let start = first_slot fat_sector_ind in
      let free_q =
        queue_free (end_slot fat_sector_ind - start) start fat_sector_ind (one_sector dest) [] in
      let rest = populate_loop n (record { bd = bd; r = r; free_q = free_q }) in
      elim dev.free_q [
        | [] ↦ if is_success err then rest else (unknown_error, record dev { bd = bd; r = r })
        | i ∷ is ↦ (success, dev)
      ]

  pub fat32_populate_free_queue : Dev b l → Err × Dev b l
  fat32_populate_free_queue dev =
      let (err, dev1) = populate_loop 5 dev in
      if ltb 0 (length dev.free_q)
      then (success, dev)
      else if is_success err
      then (found_any dev1.free_q, dev1)
      else (err, dev1)

  -- The part of `fat32_pop_free_fat_slot` with a queue that is not empty.
  pub pop_queued : Dev b l → Err × ℕ × Dev b l
  pop_queued dev = elim dev.free_q [
    | [] ↦ (no_space, 0, dev)
    | free_ind ∷ rest ↦
        let (err, dev1) = fat32_set_fat_slot b l (record dev { free_q = rest }) free_ind eoc in
        if is_success err then (success, free_ind, dev1) else (unknown_error, 0, dev1)
  ]

  pub fat32_pop_free_fat_slot : Dev b l → Bool → Err × ℕ × Dev b l
  unfolding fat32_populate_free_queue pop_queued
  fat32_pop_free_fat_slot dev slot_ind =
      let (err, dev1) = fat32_populate_free_queue dev in
      if not slot_ind
      then (bad_args, 0, dev)
      else if is_success err
      then pop_queued dev1
      else (err, 0, dev1)
