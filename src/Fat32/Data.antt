-- ===== src/Fat32/Data.antt =====
-- s_block_device/src/fat32.c: reading and writing a part of a sector of a chain.
pub mod Reach
pub mod Laws
use fern_os.Prelude.{
  ℕ, zero, suc, ◌+◌, ◌-◌, ◌*◌, ◌/◌, ◌%◌, ◌^◌, Bool, true, not, ◌||◌, Option, none, some, List, [],
  ◌∷◌, leb, ltb, ◌==◌, if◌then◌else◌,
}
use fern_os.Err.{Err, success, invalid_range, invalid_index, state_mismatch, is_success}
use fern_os.BlockDevice.{BlockDevice}
use fern_os.Fat32.{Layout, Fat32Device, mask, bad_cluster, Dev, fat32_get_fat_slot}
use fern_os.Fat32.Chain.{no_slot, fat32_traverse_chain}

module _ (b : BlockDevice) (l : Layout) where
  -- `fat32_read_write_piece`, with `some` bytes to write or `none` to read `len`; the bytes that were
  -- read are the second component.
  pub fat32_read_write_piece : Dev b l → ℕ → ℕ → ℕ → ℕ → Option (List ℕ) → Err × List ℕ × Dev b l
  fat32_read_write_piece dev slot_ind sector_offset byte_offset len write =
      let slot = mask slot_ind in
      let (err, cluster_ind, dev1) =
        fat32_traverse_chain b l dev slot (sector_offset / l.sectors_per_cluster) true in
      let (err', slot_val, dev2) = fat32_get_fat_slot b l dev1 cluster_ind true in
      let abs_sector_offset =
        (l.bd_offset
          + l.data_section_offset
          + (cluster_ind - 2) * l.sectors_per_cluster
          + sector_offset % l.sectors_per_cluster)
        % 2 ^ 32 in
      if leb 512 byte_offset || ltb 512 len || ltb 512 ((byte_offset + len) % 2 ^ 32)
      then (invalid_range, [], dev)
      else if no_slot b l slot
      then (invalid_index, [], dev)
      else if not (is_success err)
      then (err, [], dev1)
      else if not (is_success err')
      then (err', [], dev2)
      else if slot_val == bad_cluster
      then (state_mismatch, [], dev2)
      else elim write [
        | some src ↦
            let (e, bd) = b.bd_write_piece dev2.bd abs_sector_offset byte_offset (some src) in
            (e, [], record dev2 { bd = bd })
        | none ↦
            let (e, dest, bd) = b.bd_read_piece dev2.bd abs_sector_offset byte_offset len true in
            (e, dest, record dev2 { bd = bd })
      ]
