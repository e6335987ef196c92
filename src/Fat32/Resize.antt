-- ===== src/Fat32/Resize.antt =====
-- s_block_device/src/fat32.c: new chains and other lengths of chains.
pub mod NewChain
pub mod Cut
pub mod Attach
pub mod Length
use fern_os.Prelude.{
  ℕ, zero, suc, ◌+◌, ◌-◌, ◌*◌, ◌/◌, ◌%◌, ◌^◌, Bool, true, false, not, ◌&&◌, ◌||◌, Option, none,
  some, List, [], ◌∷◌, length, leb, ltb, ◌==◌, if◌then◌else◌,
}
use fern_os.Err.{
  Err, success, unknown_error, bad_args, invalid_range, invalid_index, state_mismatch, no_space,
  is_success,
}
use fern_os.BlockDevice.{BlockDevice}
use fern_os.Fat32.{
  Layout, Fat32Device, mask, eoc, is_eoc, bad_cluster, Dev, fat32_get_fat_slot, fat32_set_fat_slot,
}
use fern_os.Fat32.Chain.{no_slot, fat32_free_chain, fat32_traverse_chain, fat32_pop_free_fat_slot}

-- `err == FOS_E_NO_SPACE`
abbrev pub is_no_space : Err → Bool
is_no_space no_space = true
is_no_space _ = false

module _ (b : BlockDevice) (l : Layout) where
  -- The loop of `fat32_new_chain`, with the links that are left.
  pub extend_loop : ℕ → ℕ → Dev b l → Err × Dev b l
  extend_loop zero tail dev = (success, dev)
  extend_loop (suc n) tail dev =
      let (err, next_free, dev1) = fat32_pop_free_fat_slot b l dev true in
      let (err', dev2) = fat32_set_fat_slot b l dev1 tail next_free in
      let rest = extend_loop n next_free dev2 in
      if is_no_space err
      then (no_space, dev1)
      else if not (is_success err)
      then (unknown_error, dev1)
      else if not (is_success err')
      then (unknown_error, dev2)
      else rest

  -- The end of `fat32_new_chain`: a chain that could not be completed is freed.
  pub finish_chain : ℕ → Err × Dev b l → Option (Err × ℕ × Dev b l)
  finish_chain head (err, dev) =
      if is_no_space err
      then elim (fat32_free_chain b l dev head) [
        | none ↦ none
        | some (err', dev') ↦ some (if is_success err' then no_space else unknown_error, 0, dev')
      ]
      else if is_success err
      then some (success, head, dev)
      else some (unknown_error, 0, dev)

  pub fat32_new_chain : Dev b l → ℕ → Bool → Option (Err × ℕ × Dev b l)
  unfolding extend_loop finish_chain
  fat32_new_chain dev len false = some (bad_args, 0, dev)
  fat32_new_chain dev zero true = some (success, eoc, dev)
  fat32_new_chain dev (suc n) true =
      let (err, head, dev1) = fat32_pop_free_fat_slot b l dev true in
      if is_success err then finish_chain head (extend_loop n head dev1) else some (err, 0, dev1)

  -- The end of `fat32_resize_chain`: a new segment is attached to `iter`.
  pub attach : ℕ → Option (Err × ℕ × Dev b l) → Option (Err × Dev b l)
  attach iter none = none
  attach iter (some (err, new_seg, dev1)) =
      let (err', dev2) = fat32_set_fat_slot b l dev1 iter new_seg in
      if not (is_success err)
      then some (err, dev1)
      else if is_success err'
      then some (success, dev2)
      else elim (fat32_free_chain b l dev2 new_seg) [
        | none ↦ none
        | some (_, dev3) ↦ some (unknown_error, dev3)
      ]

  -- The part of `fat32_resize_chain` at the link `iter`, the last one to keep, before `next_iter`.
  pub cut : ℕ → ℕ → Dev b l → Option (Err × Dev b l)
  cut iter next_iter dev =
      let (err, dev1) = fat32_set_fat_slot b l dev iter eoc in
      if is_eoc next_iter
      then some (success, dev)
      else if is_success err
      then fat32_free_chain b l dev1 next_iter
      else some (unknown_error, dev1)

  -- The loop of `fat32_resize_chain`: `n` is `new_len - links`.
  pub resize_loop : ℕ → ℕ → Dev b l → Option (Err × Dev b l)
  unfolding attach cut
  resize_loop zero iter dev =
      let (err, next_iter, dev1) = fat32_get_fat_slot b l dev iter true in
      if not (is_success err)
      then some (unknown_error, dev1)
      else if next_iter == bad_cluster
      then some (state_mismatch, dev1)
      else cut iter next_iter dev1
  resize_loop (suc n) iter dev =
      let (err, next_iter, dev1) = fat32_get_fat_slot b l dev iter true in
      let rest = resize_loop n next_iter dev1 in
      if not (is_success err)
      then some (unknown_error, dev1)
      else if next_iter == bad_cluster
      then some (state_mismatch, dev1)
      else if is_eoc next_iter
      then attach iter (fat32_new_chain dev1 (suc n) true)
      else if no_slot b l next_iter
      then some (state_mismatch, dev1)
      else rest

  pub fat32_resize_chain : Dev b l → ℕ → ℕ → Option (Err × Dev b l)
  unfolding resize_loop
  fat32_resize_chain dev slot_ind new_len =
      let slot = mask slot_ind in
      if no_slot b l slot
      then some (invalid_index, dev)
      else elim new_len [ zero ↦ fat32_free_chain b l dev slot | suc n ↦ resize_loop n slot dev ]
