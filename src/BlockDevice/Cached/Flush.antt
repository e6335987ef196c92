-- ===== src/BlockDevice/Cached/Flush.antt =====
-- Flushing a cache: every cached sector is written back, and the cache is empty.
use fern_os.Prelude.{
  ℕ, suc, ◌<◌, ◌≡◌, refl, ap, sym, subst, ◌∙◌, Bool-cases, inl, inr, true, none, some, [], ◌∷◌, All,
  arith, length, ◌==◌,
}
use mathlib.Core.Path.{fun_ext}
use fern_os.Err.{Err, success}
use fern_os.Map.{Map, mp_get}
use fern_os.BlockDevice.{Sector, BlockDevice, IsDisk}
use fern_os.BlockDevice.Cached.{Cached, flush_loop, cbd_flush}
use fern_os.BlockDevice.Cached.Invariant.{IsCache, shown, pick}

All-imp : {P Q : ℕ × ℕ → Type 0} (m : Map ℕ) → All P m → ((e : ℕ × ℕ) → P e → Q e) → All Q m
All-imp [] h f = tt
All-imp (e ∷ m) h f = (f e h.0, All-imp m h.1 f)

module _ (b : BlockDevice) (d : IsDisk b) (cache_cap : ℕ) where
  -- What writing back the entries `m` of a cache that shows `disk` does.
  abbrev Flushed : (ℕ → Sector) → Cached b cache_cap → Err × Cached b cache_cap → Type 0
  Flushed disk s (err, s') =
      (err ≡ success) × d.IsValid s'.wrapped_bd × (s'.mem ≡ s.mem) × (d.sector s'.wrapped_bd ≡ disk)

  abbrev Holds : (ℕ → Sector) → Cached b cache_cap → ℕ × ℕ → Type 0
  Holds disk s (k, ind) =
      (k < b.num_sectors)
      × (length (s.cache ind).sector ≡ b.sector_size)
      × ((s.cache ind).sector ≡ disk k)

  flush_loop-one :
      (k ind : ℕ) (m : Map ℕ) (s : Cached b cache_cap)
      → let (err, bd) = b.bd_write s.wrapped_bd k (some ((s.cache ind).sector ∷ [])) in
        err ≡ success
        → flush_loop b cache_cap ((k, ind) ∷ m) s
          ≡ flush_loop b cache_cap m (record s { wrapped_bd = bd })
  unfolding flush_loop
  flush_loop-one k ind m s ok = rw (flush_loop, ok) refl

  flush_loop-Flushed :
      (disk : ℕ → Sector) (m : Map ℕ) (s : Cached b cache_cap)
      → d.IsValid s.wrapped_bd
      → All (Holds disk s) m
      → ((j : ℕ) → mp_get m j ≡ none → d.sector s.wrapped_bd j ≡ disk j)
      → Flushed disk s (flush_loop b cache_cap m s)
  unfolding flush_loop mp_get
  flush_loop-Flushed disk [] s valid all rest = (refl, valid, refl, fun_ext (λ j. rest j refl))
  flush_loop-Flushed disk ((k, ind) ∷ m) s valid all rest =
      let ((lt, sized, same), more) = all in
      let x = (s.cache ind).sector in
      let (ok, valid', wrote) =
        d.write_disk s.wrapped_bd k (x ∷ []) valid lt (omega (arith, lt)) (sized, tt) in
      let bd = (b.bd_write s.wrapped_bd k (some (x ∷ []))).1 in
      subst (Flushed disk s) (sym (flush_loop-one k ind m s ok)) (
        flush_loop-Flushed disk m (record s { wrapped_bd = bd }) valid' more
          (λ j gone. ap (λ f. f j) wrote ∙ elim (Bool-cases (k == j)) [
            | inl e ↦ let same_key : k ≡ j = ground (arith, e) in rw e (same ∙ ap disk same_key)
            | inr e ↦ rw e (rest j (rw e gone))
          ]))

  -- `cbd_flush` of a sound cache over a disk succeeds, leaves the cache sound and shows the same disk,
  -- which the wrapped device then holds itself.
  pub cbd_flush-shown :
      (s : Cached b cache_cap)
      → IsCache b d cache_cap s
      → let (err, s') = cbd_flush b cache_cap s in
        (err ≡ success)
        × IsCache b d cache_cap s'
        × (shown b d cache_cap s' ≡ shown b d cache_cap s)
        × (d.sector s'.wrapped_bd ≡ shown b d cache_cap s)
  unfolding cbd_flush mp_get
  cbd_flush-shown s v =
      let (ok, valid, kept, same) =
        flush_loop-Flushed (shown b d cache_cap s) s.sector_map s v.device
          (All-imp {Q = Holds (shown b d cache_cap s) s} s.sector_map v.entries (λ e there.
            let (_, _, key_in, sized) = v.found e.0 e.1 there in
            (key_in, sized, ap (λ o. pick b d cache_cap s o e.0) (sym there))))
          (λ j gone. ap (λ o. pick b d cache_cap s o j) (sym gone)) in
      let (err, s1) = flush_loop b cache_cap s.sector_map s in
      let (ok', valid', same') = d.flush_disk s1.wrapped_bd valid in
      let more : s1.mem 0 ≡ true = ap (λ f. f 0) kept ∙ v.enough 0 in
      rw (ok, more)
        (
          ok',
          record {
            device = valid';
            enough = λ i. ap (λ f. f (suc i)) kept ∙ v.enough (suc i);
            filled = omega arith;
            found = λ k ind h. cc h;
            mapped = λ ind h. absurd (omega (arith, h));
            entries = tt;
          },
          same' ∙ same,
          same' ∙ same,
        )
