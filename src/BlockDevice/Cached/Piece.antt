-- ===== src/BlockDevice/Cached/Piece.antt =====
-- Reading and writing a part of a sector through the cache.
use fern_os.Prelude.{
  ℕ, ◌+◌, ◌≤◌, ◌<◌, ◌≡◌, refl, ap, sym, ◌∙◌, Option-cases, inl, inr, true, false, some, List, take,
  drop, arith, length, leb, ◌==◌, if◌then◌else◌,
}
use mathlib.Core.Path.{fun_ext}
use fern_os.Err.{success}
use fern_os.Map.{mp_get}
use fern_os.BlockDevice.{BlockDevice, IsDisk, with_sector, with_piece, length-with_piece, in_range}
use fern_os.BlockDevice.Cached.{
  Cached, set_entry, cbd_get_cache_entry_ind, cbd_read_piece, cbd_write_piece,
}
use fern_os.BlockDevice.Cached.Invariant.{IsCache, shown, pick}
use fern_os.BlockDevice.Cached.Slot.{cbd_get_cache_entry_ind-Got}

module _ (b : BlockDevice) (d : IsDisk b) (cache_cap : ℕ) where
  -- A sound cache stays so when the sector in a slot is overwritten, and the disk changes there.
  pub overwritten-IsCache :
      (s : Cached b cache_cap) (ind k : ℕ) (x : List ℕ)
      → IsCache b d cache_cap s
      → mp_get s.sector_map k ≡ some ind
      → length x ≡ b.sector_size
      → let s' = set_entry b cache_cap s ind (record (s.cache ind) { sector = x }) in
        IsCache b d cache_cap s'
        × (shown b d cache_cap s' ≡ with_sector (shown b d cache_cap s) k x)
  overwritten-IsCache s ind k x v there sized =
      let s' = set_entry b cache_cap s ind (record (s.cache ind) { sector = x }) in
      (
        record {
          device = v.device;
          enough = v.enough;
          filled = v.filled;
          found = λ j i h. ground (arith, v.found j i h, sized);
          mapped = λ i h.
              let same : (s'.cache i).sector_ind ≡ (s.cache i).sector_ind = ground arith in
              ap (λ a. mp_get s.sector_map a) same ∙ v.mapped i h;
          entries = v.entries;
        },
        fun_ext (λ j. elim (Option-cases (mp_get s.sector_map j)) [
          | inl gone ↦
              let other : (k == j) ≡ false = ground (arith, gone, there) in
              ap (λ o. pick b d cache_cap s' o j) gone
              ∙ ap (λ o. pick b d cache_cap s o j) (sym gone)
              ∙ ap (λ c. if c then x else shown b d cache_cap s j) (sym other)
          | inr (i, h) ↦
              ap (λ o. pick b d cache_cap s' o j) h
              ∙ ground (arith, h, there, v.found j i h, v.found k ind there)
        ]),
      )

  pub cbd_read_piece-shown :
      (s : Cached b cache_cap) (i offset len : ℕ)
      → 0 < cache_cap
      → IsCache b d cache_cap s
      → i < b.num_sectors
      → offset < b.sector_size
      → offset + len ≤ b.sector_size
      → let (err, dest, s') = cbd_read_piece b cache_cap s i offset len true in
        (err ≡ success)
        × (dest ≡ take len (drop offset (shown b d cache_cap s i)))
        × IsCache b d cache_cap s'
        × (shown b d cache_cap s' ≡ shown b d cache_cap s)
  unfolding cbd_read_piece
  cbd_read_piece-shown s i offset len pos v lt lt' le =
      let t : leb b.num_sectors i ≡ false = ground arith in
      let (ok, sound, has, same) = cbd_get_cache_entry_ind-Got b d cache_cap s i pos v lt in
      let (err, ind, s') = cbd_get_cache_entry_ind b cache_cap s i in
      rw (t, in_range b.sector_size offset len d.small.1 lt' le, ok)
        (
          refl,
          ap (λ x. take len (drop offset x))
              (ap (λ o. pick b d cache_cap s' o i) (sym has) ∙ ap (λ f. f i) same),
          sound,
          same,
        )

  pub cbd_write_piece-shown :
      (s : Cached b cache_cap) (i offset : ℕ) (src : List ℕ)
      → 0 < cache_cap
      → IsCache b d cache_cap s
      → i < b.num_sectors
      → offset < b.sector_size
      → offset + length src ≤ b.sector_size
      → let (err, s') = cbd_write_piece b cache_cap s i offset (some src) in
        (err ≡ success)
        × IsCache b d cache_cap s'
        × (shown b d cache_cap s'
            ≡ with_sector
                (shown b d cache_cap s)
                i
                (with_piece (shown b d cache_cap s i) offset src))
  unfolding cbd_write_piece
  cbd_write_piece-shown s i offset src pos v lt lt' le =
      let t : leb b.num_sectors i ≡ false = ground arith in
      let (ok, sound, has, same) = cbd_get_cache_entry_ind-Got b d cache_cap s i pos v lt in
      let (err, ind, s') = cbd_get_cache_entry_ind b cache_cap s i in
      let (_, _, _, sized) = sound.found i ind has in
      let old : (s'.cache ind).sector ≡ shown b d cache_cap s i =
        ap (λ o. pick b d cache_cap s' o i) (sym has) ∙ ap (λ f. f i) same in
      let new = with_piece (s'.cache ind).sector offset src in
      let (sound', shows) =
        overwritten-IsCache s' ind i new sound has
          (length-with_piece (s'.cache ind).sector offset src (omega (arith, sized)) ∙ sized) in
      rw (t, in_range b.sector_size offset (length src) d.small.1 lt' le, ok)
        (
          refl,
          sound',
          shows
              ∙ ap (λ f. with_sector f i new) same
              ∙ ap (λ x. with_sector (shown b d cache_cap s) i (with_piece x offset src)) old,
        )
