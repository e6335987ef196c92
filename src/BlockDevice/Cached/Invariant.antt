-- ===== src/BlockDevice/Cached/Invariant.antt =====
-- When a cache is sound, and the disk that it shows: what is cached, and elsewhere the wrapped device.
use fern_os.Prelude.{
  ℕ, suc, ◌≤◌, ◌<◌, ◌≡◌, ◌≢◌, inl, inr, refl, ap, sym, ◌∙◌, Bool-cases, Option-cases, true, Option,
  none, some, List, [], ◌∷◌, arith, length, ◌==◌,
}
use mathlib.Core.Path.{fun_ext}
use fern_os.Err.{Err, success}
use fern_os.Map.{mp_get, mp_put, get-put, IsMap, put-IsMap}
use fern_os.BlockDevice.{Sector, BlockDevice, IsDisk}
use fern_os.BlockDevice.Cached.{Cached, set_entry, first_sector, load}

module _ (b : BlockDevice) (d : IsDisk b) (cache_cap : ℕ) where
  pub record IsCache (s : Cached b cache_cap) : Type 0 where
    pub device : d.IsValid s.wrapped_bd
    pub enough : (i : ℕ) → s.mem i ≡ true
    pub filled : s.cache_fill ≤ cache_cap
    pub found :
        (k ind : ℕ)
        → mp_get s.sector_map k ≡ some ind
        → (ind < s.cache_fill)
          × ((s.cache ind).sector_ind ≡ k)
          × (k < b.num_sectors)
          × (length (s.cache ind).sector ≡ b.sector_size)
    pub mapped :
        (ind : ℕ) → ind < s.cache_fill → mp_get s.sector_map (s.cache ind).sector_ind ≡ some ind
    pub entries : IsMap s.sector_map

  -- The disk that a client sees: a sector that has a slot, and one that has none.
  abbrev pub pick : Cached b cache_cap → Option ℕ → ℕ → Sector
  pick s none j = d.sector s.wrapped_bd j
  pick s (some ind) j = (s.cache ind).sector

  abbrev pub shown : Cached b cache_cap → ℕ → Sector
  shown s j = pick s (mp_get s.sector_map j) j

  -- A cache one of whose slots is to be given to the sector `k`, which is not cached.
  pub record IsVacant (s : Cached b cache_cap) (slot k : ℕ) : Type 0 where
    pub device : d.IsValid s.wrapped_bd
    pub enough : (i : ℕ) → s.mem i ≡ true
    pub filled : s.cache_fill ≤ cache_cap
    pub slot_in : slot < s.cache_fill
    pub key_in : k < b.num_sectors
    pub absent : mp_get s.sector_map k ≡ none
    pub found :
        (j ind : ℕ)
        → mp_get s.sector_map j ≡ some ind
        → (ind ≢ slot)
          × (ind < s.cache_fill)
          × ((s.cache ind).sector_ind ≡ j)
          × (j < b.num_sectors)
          × (length (s.cache ind).sector ≡ b.sector_size)
    pub mapped :
        (ind : ℕ)
        → ind < s.cache_fill
        → ind ≢ slot
        → mp_get s.sector_map (s.cache ind).sector_ind ≡ some ind
    pub entries : IsMap s.sector_map

  -- The state after a load.
  abbrev pub loaded : Cached b cache_cap → ℕ → ℕ → List Sector → b.State → Cached b cache_cap
  loaded s slot k dest bd =
      record (set_entry b cache_cap s slot
        (record { sector_ind = k; sector = first_sector dest (s.cache slot).sector })) {
          wrapped_bd = bd;
          sector_map = mp_put s.sector_map k slot;
          mem = λ i. s.mem (suc i);
        }

  pub load-loaded :
      (s : Cached b cache_cap) (slot k : ℕ)
      → IsVacant s slot k
      → let bd = (b.bd_read s.wrapped_bd k 1 true).2 in
        load b cache_cap s slot k
        ≡ (success, slot, loaded s slot k (d.sector s.wrapped_bd k ∷ []) bd)
  unfolding load
  load-loaded s slot k v =
      let (ok, is, valid, same) =
        d.read_disk s.wrapped_bd k 1 v.device v.key_in (omega (arith, v.key_in)) in
      rw (v.enough 0, ok)
        (ap (λ l. (success, slot, loaded s slot k l (b.bd_read s.wrapped_bd k 1 true).2)) is)

  -- What getting the slot of sector `k` does.
  abbrev pub Got : Cached b cache_cap → ℕ → Err × ℕ × Cached b cache_cap → Type 0
  Got s k (err, slot, s') =
      (err ≡ success) × IsCache s' × (mp_get s'.sector_map k ≡ some slot) × (shown s' ≡ shown s)

  loaded-found :
      (s : Cached b cache_cap) (slot k j ind : ℕ) (bd : b.State)
      → IsVacant s slot k
      → let s' = loaded s slot k (d.sector s.wrapped_bd k ∷ []) bd in
        mp_get s'.sector_map j ≡ some ind
        → (ind < s.cache_fill)
          × ((s'.cache ind).sector_ind ≡ j)
          × (j < b.num_sectors)
          × (length (s'.cache ind).sector ≡ b.sector_size)
  loaded-found s slot k j ind bd v h =
      let g = get-put s.sector_map k j slot in
      elim (Bool-cases (k == j)) [
        | inl e ↦
            let here : slot ≡ ind = ground (arith, h, g, e) in
            ground (arith, here, e, v.slot_in, v.key_in, d.sized s.wrapped_bd k v.device v.key_in)
        | inr e ↦
            let there : mp_get s.sector_map j ≡ some ind = ground (arith, h, g, e) in
            ground (arith, v.found j ind there)
      ]

  loaded-mapped :
      (s : Cached b cache_cap) (slot k ind : ℕ) (bd : b.State)
      → IsVacant s slot k
      → ind < s.cache_fill
      → let s' = loaded s slot k (d.sector s.wrapped_bd k ∷ []) bd in
        mp_get s'.sector_map (s'.cache ind).sector_ind ≡ some ind
  loaded-mapped s slot k ind bd v h = elim (Bool-cases (ind == slot)) [
    | inl e ↦ rw e (get-put s.sector_map k k slot ∙ ground (arith, e))
    | inr e ↦
        let old = v.mapped ind h (ground (arith, e)) in
        rw e (get-put s.sector_map k (s.cache ind).sector_ind slot ∙ ground (arith, old, v.absent))
  ]

  loaded-shown :
      (s : Cached b cache_cap) (slot k j : ℕ) (bd : b.State)
      → IsVacant s slot k
      → d.sector bd ≡ d.sector s.wrapped_bd
      → shown (loaded s slot k (d.sector s.wrapped_bd k ∷ []) bd) j ≡ shown s j
  loaded-shown s slot k j bd v same =
      let s' = loaded s slot k (d.sector s.wrapped_bd k ∷ []) bd in
      let g = get-put s.sector_map k j slot in
      elim (Bool-cases (k == j)) [
        | inl e ↦
            let same_key : k ≡ j = ground (arith, e) in
            let now : mp_get s'.sector_map j ≡ some slot = g ∙ ground (arith, e) in
            let before : mp_get s.sector_map j ≡ none =
              ap (λ i. mp_get s.sector_map i) (sym same_key) ∙ v.absent in
            ap (λ o. pick s' o j) now
            ∙ ground arith
            ∙ ap (λ i. d.sector s.wrapped_bd i) same_key
            ∙ ap (λ o. pick s o j) (sym before)
        | inr e ↦
            let now : mp_get s'.sector_map j ≡ mp_get s.sector_map j = g ∙ ground (arith, e) in
            ap (λ o. pick s' o j) now ∙ elim (Option-cases (mp_get s.sector_map j)) [
              | inl gone ↦ rw gone (ap (λ f. f j) same)
              | inr (ind, there) ↦ rw there (ground (arith, v.found j ind there))
            ]
      ]

  pub loaded-Got :
      (s : Cached b cache_cap) (slot k : ℕ) (bd : b.State)
      → IsVacant s slot k
      → d.IsValid bd
      → d.sector bd ≡ d.sector s.wrapped_bd
      → Got s k (success, slot, loaded s slot k (d.sector s.wrapped_bd k ∷ []) bd)
  loaded-Got s slot k bd v valid same = (
    refl,
    record {
      device = valid;
      enough = λ i. v.enough (suc i);
      filled = v.filled;
      found = λ j ind h. loaded-found s slot k j ind bd v h;
      mapped = λ ind h. loaded-mapped s slot k ind bd v h;
      entries = put-IsMap s.sector_map k slot v.entries;
    },
    get-put s.sector_map k k slot ∙ ground arith,
    fun_ext (λ j. loaded-shown s slot k j bd v same),
  )
