-- ===== src/Fat32.antt =====
-- s_block_device/include/s_block_device/fat32.h, s_block_device/src/fat32.c: a FAT32 device, and
-- single slots of its file allocation table.
pub mod Slots
pub mod Chain
pub mod Resize
pub mod Data
pub mod Tests
use fern_os.Prelude.{
  ℕ, zero, suc, ◌+◌, ◌-◌, ◌*◌, ◌/◌, ◌%◌, ◌^◌, Bool, true, false, not, some, List, [], ◌∷◌, get_or,
  leb, ltb, ◌==◌, if◌then◌else◌,
}
use fern_os.Err.{Err, success, bad_args, invalid_index, is_success}
use fern_os.BlockDevice.{BlockDevice}

-- The fields of `fat32_device_t` that stay as they are. Offsets are in sectors.
pub record Layout : Type 0 where
  pub bd_offset : ℕ
  pub num_sectors : ℕ
  pub fat_offset : ℕ
  pub num_fats : ℕ
  pub sectors_per_fat : ℕ
  pub data_section_offset : ℕ
  pub sectors_per_cluster : ℕ
  pub num_fat_slots : ℕ
  pub root_dir_cluster : ℕ

-- The ones that change. `free_q` has the first `free_q_fill` entries of the array, the last one first.
pub record Fat32Device (S : Type 0) : Type 0 where
  pub bd : S
  pub r : ℕ
  pub free_q : List ℕ

-- `v & FAT32_MASK`, `FAT32_EOC`, `FAT32_IS_EOC`, `FAT32_BAD_CLUSTER`, `FAT32_SLOTS_PER_FAT_SECTOR`
abbrev pub mask : ℕ → ℕ
mask v = v % 2 ^ 28

abbrev pub eoc : ℕ
eoc = 0x0FFFFFF8

abbrev pub is_eoc : ℕ → Bool
is_eoc v = leb 0x0FFFFFF8 (v % 2 ^ 28)

abbrev pub bad_cluster : ℕ
bad_cluster = 0x0FFFFFF7

abbrev pub slots_per_fat_sector : ℕ
slots_per_fat_sector = 128

-- A `uint32_t` in memory, the lowest byte first.
abbrev pub le32 : List ℕ → ℕ
le32 l = get_or l 0 0 + 256 * get_or l 1 0 + 65536 * get_or l 2 0 + 16777216 * get_or l 3 0

abbrev pub to_le32 : ℕ → List ℕ
to_le32 v = v % 256 ∷ (v / 256 % 256 ∷ (v / 65536 % 256 ∷ (v / 16777216 % 256 ∷ [])))

module _ (b : BlockDevice) (l : Layout) where
  abbrev pub Dev : Type 0
  Dev = Fat32Device b.State

  -- The sector of the device that has a slot.
  abbrev pub fat_sector : ℕ → ℕ
  fat_sector slot_ind = (l.bd_offset + l.fat_offset + slot_ind / slots_per_fat_sector) % 2 ^ 32

  pub fat32_get_fat_slot : Dev → ℕ → Bool → Err × ℕ × Dev
  fat32_get_fat_slot dev slot_ind out_val =
      let slot = mask slot_ind in
      let (err, act_val, bd) =
        b.bd_read_piece dev.bd (fat_sector slot) (slot % slots_per_fat_sector * 4) 4 true in
      if not out_val
      then (bad_args, 0, dev)
      else if leb l.num_fat_slots slot
      then (invalid_index, 0, dev)
      else (err, if is_success err then mask (le32 act_val) else 0, record dev { bd = bd })

  pub fat32_set_fat_slot : Dev → ℕ → ℕ → Err × Dev
  fat32_set_fat_slot dev slot_ind val =
      let slot = mask slot_ind in
      let (err, bd) =
        b.bd_write_piece dev.bd (fat_sector slot) (slot % slots_per_fat_sector * 4)
          (some (to_le32 (mask val))) in
      if leb l.num_fat_slots slot then (invalid_index, dev) else (err, record dev { bd = bd })
