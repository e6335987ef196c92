-- ===== src/BlockDevice/Cached/Slot.antt =====
-- `cbd_get_cache_entry_ind` gives a sector a slot, and the disk stays what it was.
use fern_os.Prelude.{
  ℕ, ◌+◌, ◌%◌, ◌<◌, ◌≡◌, inl, inr, refl, ap, sym, subst, ◌∙◌, Bool, Bool-cases, Option-cases, true,
  false, none, some, [], ◌∷◌, arith, ltb, ltb→lt, ◌==◌, if◌then◌else◌,
}
use mathlib.Core.Path.{fun_ext}
use fern_os.Err.{success}
use fern_os.Map.{mp_get, mp_remove, get-remove, remove-IsMap}
use fern_os.Rand.{next_rand_u32}
use fern_os.BlockDevice.{BlockDevice, IsDisk, with_sector}
use fern_os.BlockDevice.Cached.{Cached, load, evict, cbd_get_cache_entry_ind}
use fern_os.BlockDevice.Cached.Invariant.{
  IsCache, shown, pick, IsVacant, load-loaded, Got, loaded-Got,
}

module _ (b : BlockDevice) (d : IsDisk b) (cache_cap : ℕ) where
  load-Got :
      (s : Cached b cache_cap) (slot k : ℕ)
      → IsVacant b d cache_cap s slot k
      → Got b d cache_cap s k (load b cache_cap s slot k)
  load-Got s slot k v =
      let (_, _, valid, same) =
        d.read_disk s.wrapped_bd k 1 v.device v.key_in (omega (arith, v.key_in)) in
      subst (Got b d cache_cap s k) (sym (load-loaded b d cache_cap s slot k v))
        (loaded-Got b d cache_cap s slot k (b.bd_read s.wrapped_bd k 1 true).2 v valid same)

  -- A free slot, while the cache is not full.
  free-IsVacant :
      (s : Cached b cache_cap) (k : ℕ)
      → IsCache b d cache_cap s
      → k < b.num_sectors
      → mp_get s.sector_map k ≡ none
      → s.cache_fill < cache_cap
      → IsVacant b d cache_cap (record s { cache_fill = s.cache_fill + 1 }) s.cache_fill k
  free-IsVacant s k v lt absent room = record {
    device = v.device;
    enough = v.enough;
    filled = omega arith;
    slot_in = omega arith;
    key_in = lt;
    absent = absent;
    found = λ j ind h. ground (arith, v.found j ind h);
    mapped = λ ind h other. v.mapped ind (ground arith);
    entries = v.entries;
  }

  -- The cache after sector `slot` has been written back and has lost its slot.
  abbrev evicted : Cached b cache_cap → ℕ → ℕ → b.State → Cached b cache_cap
  evicted s slot r bd = record s {
    r = r;
    wrapped_bd = bd;
    sector_map = mp_remove s.sector_map (s.cache slot).sector_ind;
  }

  evicted-IsVacant :
      (s : Cached b cache_cap) (slot k r : ℕ) (bd : b.State)
      → IsCache b d cache_cap s
      → k < b.num_sectors
      → mp_get s.sector_map k ≡ none
      → slot < s.cache_fill
      → d.IsValid bd
      → IsVacant b d cache_cap (evicted s slot r bd) slot k
  evicted-IsVacant s slot k r bd v lt absent inside valid =
      let key = (s.cache slot).sector_ind in
      let there = v.mapped slot inside in
      record {
        device = valid;
        enough = v.enough;
        filled = v.filled;
        slot_in = inside;
        key_in = lt;
        absent = get-remove s.sector_map key k ∙ ground (arith, absent);
        found = λ j ind h.
            let still : mp_get s.sector_map j ≡ some ind =
              ground (arith, h, get-remove s.sector_map key j) in
            ground (arith, h, get-remove s.sector_map key j, v.found j ind still);
        mapped = λ ind h other.
            get-remove s.sector_map key (s.cache ind).sector_ind
            ∙ ground (arith, v.mapped ind h, there, other);
        entries = remove-IsMap s.sector_map key v.entries;
      }

  evicted-shown :
      (s : Cached b cache_cap) (slot r j : ℕ) (bd : b.State)
      → IsCache b d cache_cap s
      → slot < s.cache_fill
      → d.sector bd
        ≡ with_sector (d.sector s.wrapped_bd) (s.cache slot).sector_ind (s.cache slot).sector
      → shown b d cache_cap (evicted s slot r bd) j ≡ shown b d cache_cap s j
  evicted-shown s slot r j bd v inside wrote =
      let key = (s.cache slot).sector_ind in
      let s' = evicted s slot r bd in
      let there = v.mapped slot inside in
      let g = get-remove s.sector_map key j in
      elim (Bool-cases (key == j)) [
        | inl e ↦
            let same_key : key ≡ j = ground (arith, e) in
            let now : mp_get s'.sector_map j ≡ none = g ∙ ground (arith, e) in
            let before : mp_get s.sector_map j ≡ some slot =
              ap (λ i. mp_get s.sector_map i) (sym same_key) ∙ there in
            ap (λ o. pick b d cache_cap s' o j) now
            ∙ ap (λ f. f j) wrote
            ∙ ground (arith, e)
            ∙ ap (λ o. pick b d cache_cap s o j) (sym before)
        | inr e ↦
            let now : mp_get s'.sector_map j ≡ mp_get s.sector_map j = g ∙ ground (arith, e) in
            ap (λ o. pick b d cache_cap s' o j) now ∙ elim (Option-cases (mp_get s.sector_map j)) [
              | inl gone ↦ rw gone (ap (λ f. f j) wrote ∙ ground (arith, e))
              | inr (ind, still) ↦ rw still refl
            ]
      ]

  evict-Got :
      (s : Cached b cache_cap) (k : ℕ)
      → 0 < cache_cap
      → IsCache b d cache_cap s
      → k < b.num_sectors
      → mp_get s.sector_map k ≡ none
      → s.cache_fill ≡ cache_cap
      → Got b d cache_cap s k (evict b cache_cap s k)
  unfolding evict
  evict-Got s k pos v lt absent full =
      let (x, r) = next_rand_u32 s.r in
      let slot = x % cache_cap in
      let inside : slot < s.cache_fill = grind (arith, full, pos) in
      let there = v.mapped slot inside in
      let (_, _, key_in, sized) = v.found (s.cache slot).sector_ind slot there in
      let (ok, valid, wrote) =
        d.write_disk s.wrapped_bd (s.cache slot).sector_ind ((s.cache slot).sector ∷ []) v.device
          key_in (omega (arith, key_in)) (sized, tt) in
      let bd =
        (b.bd_write s.wrapped_bd (s.cache slot).sector_ind (some ((s.cache slot).sector ∷ []))).1 in
      let (done, sound, has, same) =
        load-Got (evicted s slot r bd) slot k
          (evicted-IsVacant s slot k r bd v lt absent inside valid) in
      rw ok (done, sound, has, same ∙ fun_ext (λ j. evicted-shown s slot r j bd v inside wrote))

  hit :
      (s : Cached b cache_cap) (k ind : ℕ)
      → mp_get s.sector_map k ≡ some ind
      → cbd_get_cache_entry_ind b cache_cap s k ≡ (success, ind, s)
  unfolding cbd_get_cache_entry_ind
  hit s k ind there =
      ap
        (λ o. elim o [
          | some ind ↦ (success, ind, s)
          | none ↦
              if ltb s.cache_fill cache_cap
              then load b cache_cap (record s { cache_fill = s.cache_fill + 1 }) s.cache_fill k
              else evict b cache_cap s k
        ])
        there

  miss :
      (s : Cached b cache_cap) (k : ℕ) (room : Bool)
      → mp_get s.sector_map k ≡ none
      → ltb s.cache_fill cache_cap ≡ room
      → cbd_get_cache_entry_ind b cache_cap s k ≡ (
          if room
          then load b cache_cap (record s { cache_fill = s.cache_fill + 1 }) s.cache_fill k
          else evict b cache_cap s k)
  unfolding cbd_get_cache_entry_ind
  miss s k room absent e =
      ap
        (λ o. elim o [
          | some ind ↦ (success, ind, s)
          | none ↦
              if ltb s.cache_fill cache_cap
              then load b cache_cap (record s { cache_fill = s.cache_fill + 1 }) s.cache_fill k
              else evict b cache_cap s k
        ])
        absent
      ∙ ap
          (λ c.
            if c
            then load b cache_cap (record s { cache_fill = s.cache_fill + 1 }) s.cache_fill k
            else evict b cache_cap s k)
          e

  -- `cbd_get_cache_entry_ind` of a sound cache, for a sector of the disk: it succeeds, the sector has
  -- the slot that it says, the cache is sound, and the disk that a client sees is the same.
  pub cbd_get_cache_entry_ind-Got :
      (s : Cached b cache_cap) (k : ℕ)
      → 0 < cache_cap
      → IsCache b d cache_cap s
      → k < b.num_sectors
      → Got b d cache_cap s k (cbd_get_cache_entry_ind b cache_cap s k)
  cbd_get_cache_entry_ind-Got s k pos v lt = elim (Option-cases (mp_get s.sector_map k)) [
    | inr (ind, there) ↦
        subst (Got b d cache_cap s k) (sym (hit s k ind there)) (refl, v, there, refl)
    | inl absent ↦ elim (Bool-cases (ltb s.cache_fill cache_cap)) [
      | inl room ↦ subst (Got b d cache_cap s k) (sym (miss s k true absent room)) (
          load-Got (record s { cache_fill = s.cache_fill + 1 }) s.cache_fill k
            (free-IsVacant s k v lt absent (ltb→lt s.cache_fill cache_cap room)))
      | inr full ↦
          subst (Got b d cache_cap s k) (sym (miss s k false absent full))
            (evict-Got s k pos v lt absent (ground (arith, full, v.filled)))
    ]
  ]
