-- ===== src/Fat32/Tests.antt =====
-- A table of 100 slots on a device in memory, with a chain of two slots.
use fern_os.Prelude.{
  none, ℕ, ◌<◌, ◌≡◌, refl, sym, subst, true, some, List, [], ◌∷◌, ◌++◌, replicate, arith,
}
use fern_os.Err.{success}
use fern_os.BlockDevice.{with_sector, with_piece, Sector, BlockDevice, IsDisk}
use fern_os.BlockDevice.Mem.{mem_block_device}
use fern_os.BlockDevice.Mem.Laws.{mem_disk, mem_disk-sector, mem_disk-IsValid}
use fern_os.Fat32.{Layout, Fat32Device}
use fern_os.Fat32.Slots.{Fits, fat, table, moved}
use fern_os.Fat32.Chain.{fat32_free_chain, fat32_traverse_chain}
use fern_os.Fat32.Chain.Table.{Chain}
use fern_os.Fat32.Chain.Free.{Ended, freed, fat32_free_chain-freed, fat32_free_chain-Ended}
use fern_os.Fat32.Chain.Traverse.{Reached, fat32_traverse_chain-Reached}
use fern_os.Fat32.Chain.Taking.{FitsQueue, IsReady}
use fern_os.Fat32.Data.{fat32_read_write_piece}
use fern_os.Fat32.Data.Reach.{FitsData}
use fern_os.Fat32.Data.Laws.{fat32_read_write_piece-back}
use fern_os.Fat32.Resize.{fat32_new_chain, fat32_resize_chain}
use fern_os.Fat32.Resize.NewChain.{NewChain, fat32_new_chain-NewChain}
use fern_os.Fat32.Resize.Cut.{Resized}
use fern_os.Fat32.Resize.Length.{fat32_resize_chain-Resized}

-- Slot 2 points to slot 3, which ends the chain.
abbrev fat_bytes : Sector
fat_bytes =
    replicate 8 255 ++ (3 ∷ (0 ∷ (0 ∷ (0 ∷ (248 ∷ (255 ∷ (255 ∷ (15 ∷ replicate 496 0))))))))

abbrev rows : List Sector
rows = fat_bytes ∷ (replicate 512 0 ∷ (replicate 512 0 ∷ []))

abbrev device : BlockDevice
device = mem_block_device 512 3

abbrev disk : IsDisk device
disk = mem_disk 512 3 (omega arith) (omega arith)

abbrev layout : Layout
layout = record {
  bd_offset = 0;
  num_sectors = 3;
  fat_offset = 0;
  num_fats = 1;
  sectors_per_fat = 1;
  data_section_offset = 1;
  sectors_per_cluster = 1;
  num_fat_slots = 100;
  root_dir_cluster = 2;
}

abbrev dev : Fat32Device (List Sector)
dev = record { bd = rows; r = 1; free_q = [] }

layout-Fits : Fits device disk layout
layout-Fits = record {
  bytes = refl;
  on_device = omega arith;
  in_table = omega arith;
  no_mark = omega arith;
}

layout-FitsQueue : FitsQueue device disk layout
layout-FitsQueue = record {
  fits = layout-Fits;
  first = refl;
  some_fat = omega arith;
  last_used = omega arith;
}

rows-IsValid : disk.IsValid rows
rows-IsValid =
    mem_disk-IsValid 512 3 rows (omega arith) (omega arith) refl (refl, (refl, (refl, tt)))

dev-IsReady : IsReady device disk layout dev
dev-IsReady = (rows-IsValid, tt)

dev-Chain : Chain 100 (fat device disk layout dev) 2 (2 ∷ (3 ∷ []))
dev-Chain =
    subst (λ s. Chain 100 (table 0 (s rows)) 2 (2 ∷ (3 ∷ [])))
      (sym (mem_disk-sector 512 3 (omega arith) (omega arith)))
      (refl, omega arith, omega arith, (refl, omega arith, omega arith, refl))

fat32_free_chain-freed_example :
    (bd : List Sector) × (fat32_free_chain device layout dev 2
      ≡ some (success, moved device disk layout dev bd))
    × disk.IsValid bd
    × (fat device disk layout (moved device disk layout dev bd)
        ≡ freed (fat device disk layout dev) (2 ∷ (3 ∷ [])))
fat32_free_chain-freed_example =
    fat32_free_chain-freed device disk layout 2 (2 ∷ (3 ∷ [])) dev layout-Fits rows-IsValid
      (omega arith) (omega arith) dev-Chain

fat32_free_chain-Ended_example : Ended device disk layout dev (fat32_free_chain device layout dev 3)
fat32_free_chain-Ended_example =
    fat32_free_chain-Ended device disk layout 3 dev layout-Fits rows-IsValid (omega arith)
      (omega arith)

fat32_traverse_chain-Reached_example :
    Reached device disk layout dev
      (2 ∷ (3 ∷ []))
      1
      (fat32_traverse_chain device layout dev 2 1 true)
fat32_traverse_chain-Reached_example =
    fat32_traverse_chain-Reached device disk layout 2 1 (2 ∷ (3 ∷ [])) dev layout-Fits rows-IsValid
      (omega arith) (omega arith) dev-Chain

fat32_new_chain-NewChain_example :
    NewChain device disk layout
      (fat device disk layout dev)
      5
      (fat32_new_chain device layout dev 5 true)
fat32_new_chain-NewChain_example =
    fat32_new_chain-NewChain device disk layout 5 dev layout-FitsQueue dev-IsReady

fat32_resize_chain-Resized_example :
    Resized device disk layout
      (fat device disk layout dev)
      2
      (2 ∷ (3 ∷ []))
      4
      (fat32_resize_chain device layout dev 2 4)
fat32_resize_chain-Resized_example =
    fat32_resize_chain-Resized device disk layout 2 4 (2 ∷ (3 ∷ [])) dev layout-FitsQueue
      dev-IsReady (omega arith) (omega arith) dev-Chain (omega arith)

-- The same with as many slots as the device has clusters.
abbrev small : Layout
small = record layout { num_fat_slots = 4 }

small-FitsData : FitsData device disk small
small-FitsData = record {
  fits = record {
    bytes = refl;
    on_device = omega arith;
    in_table = omega arith;
    no_mark = omega arith;
  };
  some_sector = omega arith;
  behind = omega arith;
  inside = omega arith;
}

small-Chain : Chain 4 (fat device disk small dev) 2 (2 ∷ (3 ∷ []))
small-Chain =
    subst (λ s. Chain 4 (table 0 (s rows)) 2 (2 ∷ (3 ∷ [])))
      (sym (mem_disk-sector 512 3 (omega arith) (omega arith)))
      (refl, omega arith, omega arith, (refl, omega arith, omega arith, refl))

fat32_read_write_piece-back_example :
    let (err, _, dev1) = fat32_read_write_piece device small dev 2 1 100 2 (some (7 ∷ (8 ∷ []))) in
    let (err', dest, dev2) = fat32_read_write_piece device small dev1 2 1 100 2 none in
    (err ≡ success)
    × (err' ≡ success)
    × (dest ≡ 7 ∷ (8 ∷ []))
    × (disk.sector dev1.bd
        ≡ with_sector (disk.sector dev.bd) 2 (with_piece (disk.sector dev.bd 2) 100 (7 ∷ (8 ∷ []))))
    × (disk.sector dev2.bd ≡ disk.sector dev1.bd)
    × ((j : ℕ) → j < 4 → fat device disk small dev2 j ≡ fat device disk small dev j)
fat32_read_write_piece-back_example =
    fat32_read_write_piece-back device disk small 2 1 100 (2 ∷ (3 ∷ [])) (7 ∷ (8 ∷ [])) dev
      small-FitsData rows-IsValid (omega arith) (omega arith) small-Chain (omega arith)
      (omega arith) (omega arith)
