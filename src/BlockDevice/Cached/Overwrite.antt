-- ===== src/BlockDevice/Cached/Overwrite.antt =====
-- Writing whole sectors through the cache: runs of sectors that are not cached go to the wrapped
-- device, and the others to their slots.
use fern_os.Prelude.{
  ℕ, suc, ◌+◌, ◌≤◌, ◌<◌, ◌≡◌, refl, ap, sym, subst, ◌∙◌, Option-cases, ℕ_discrete, inl, inr, none,
  some, List, [], ◌∷◌, ◌++◌, append-nil, append_assoc, All, arith, length, length-append, dec_lt,
}
use mathlib.Core.Path.{fun_ext}
use fern_os.Err.{Err, success}
use fern_os.Map.{mp_get}
use fern_os.BlockDevice.{Sector, BlockDevice, IsDisk, with_sector, with_sectors, in_range}
use fern_os.BlockDevice.Cached.{Cached, set_entry, write_section, write_loop, cbd_write}
use fern_os.BlockDevice.Cached.Invariant.{IsCache, shown, pick}
use fern_os.BlockDevice.Cached.Piece.{overwritten-IsCache}
use fern_os.BlockDevice.Cached.Ranges.{Missing}

-- What is written at a sector depends on that sector alone, and only those of the range change.
with_sectors-at :
    (f g : ℕ → Sector) (i j : ℕ) (xs : List Sector)
    → f j ≡ g j
    → with_sectors f i xs j ≡ with_sectors g i xs j
with_sectors-at f g i j [] h = h
with_sectors-at f g i j (x ∷ xs) h =
    with_sectors-at (with_sector f i x) (with_sector g i x) (suc i) j xs (ground (arith, h))

with_sectors-outside :
    (f : ℕ → Sector) (i j : ℕ) (xs : List Sector)
    → (i ≤ j → i + length xs ≤ j)
    → with_sectors f i xs j ≡ f j
with_sectors-outside f i j [] h = refl
with_sectors-outside f i j (x ∷ xs) h =
    with_sectors-outside (with_sector f i x) (suc i) j xs (λ le. omega (arith, h (omega arith)))
    ∙ ground (arith, h)

with_sectors-append :
    (f : ℕ → Sector) (i : ℕ) (xs ys : List Sector)
    → with_sectors f i (xs ++ ys) ≡ with_sectors (with_sectors f i xs) (i + length xs) ys
with_sectors-append f i [] ys = let e : i ≡ i + 0 = omega arith in ap (λ k. with_sectors f k ys) e
with_sectors-append f i (x ∷ xs) ys =
    let e : suc i + length xs ≡ i + suc (length xs) = omega arith in
    with_sectors-append (with_sector f i x) (suc i) xs ys
    ∙ ap (λ k. with_sectors (with_sectors (with_sector f i x) (suc i) xs) k ys) e

All-append-one :
    (P : Sector → Type 0) (xs : List Sector) (x : Sector) → All P xs → P x → All P (xs ++ (x ∷ []))
All-append-one P [] x h p = (p, tt)
All-append-one P (y ∷ xs) x h p = (h.0, All-append-one P xs x h.1 p)

module _ (b : BlockDevice) (d : IsDisk b) (cache_cap : ℕ) where
  -- What a write of the sectors `src` from `i` on has done.
  abbrev pub Wrote : Cached b cache_cap → ℕ → List Sector → Err × Cached b cache_cap → Type 0
  Wrote s i src (err, s') =
      (err ≡ success)
      × IsCache b d cache_cap s'
      × (shown b d cache_cap s' ≡ with_sectors (shown b d cache_cap s) i src)

  abbrev Sized : List Sector → Type 0
  Sized src = All (λ x. length x ≡ b.sector_size) src

  write_section-Wrote :
      (s : Cached b cache_cap) (start : ℕ) (section : List Sector)
      → IsCache b d cache_cap s
      → start + length section ≤ b.num_sectors
      → Missing b d cache_cap s start (start + length section)
      → Sized section
      → let (err, s') = write_section b cache_cap s start section in
        Wrote s start section (err, s') × (s'.sector_map ≡ s.sector_map)
  unfolding write_section
  write_section-Wrote s start [] v inside gone sized = ((refl, v, refl), refl)
  write_section-Wrote s start (x ∷ xs) v inside gone sized =
      let lt : start < b.num_sectors = omega arith in
      let (ok, valid, wrote) = d.write_disk s.wrapped_bd start (x ∷ xs) v.device lt inside sized in
      let bd = (b.bd_write s.wrapped_bd start (some (x ∷ xs))).1 in
      (
        (
          ok,
          record {
            device = valid;
            enough = v.enough;
            filled = v.filled;
            found = v.found;
            mapped = v.mapped;
            entries = v.entries;
          },
          fun_ext (λ j. elim (Option-cases (mp_get s.sector_map j)) [
            | inl miss ↦
                ap (λ o. pick b d cache_cap (record s { wrapped_bd = bd }) o j) miss
                ∙ ap (λ f. f j) wrote
                ∙ with_sectors-at (d.sector s.wrapped_bd) (shown b d cache_cap s) start j (x ∷ xs)
                    (ap (λ o. pick b d cache_cap s o j) (sym miss))
            | inr (ind, there) ↦
                ap (λ o. pick b d cache_cap (record s { wrapped_bd = bd }) o j) there
                ∙ ap (λ o. pick b d cache_cap s o j) (sym there)
                ∙ sym (
                    with_sectors-outside (shown b d cache_cap s) start j (x ∷ xs) (λ le.
                      elim (dec_lt j (start + length (x ∷ xs))) [
                        | yes lt ↦ cc (gone j le lt, there)
                        | no ge ↦ omega (arith, ge)
                      ]))
          ]),
        ),
        refl,
      )

  write_loop-miss :
      (i start : ℕ) (section : List Sector) (x : Sector) (src : List Sector)
      (s : Cached b cache_cap)
      → mp_get s.sector_map i ≡ none
      → write_loop b cache_cap i start section (x ∷ src) s
        ≡ write_loop b cache_cap (suc i) start (section ++ (x ∷ [])) src s
  unfolding write_loop
  write_loop-miss i start section x src s e = rw (write_loop, e) refl

  write_loop-hit :
      (i start ind : ℕ) (section : List Sector) (x : Sector) (src : List Sector)
      (s : Cached b cache_cap)
      → mp_get s.sector_map i ≡ some ind
      → let (err, s') = write_section b cache_cap s start section in
        err ≡ success
        → write_loop b cache_cap i start section (x ∷ src) s
          ≡ write_loop b cache_cap
              (suc i)
              (suc i)
              []
              src
              (set_entry b cache_cap s' ind (record (s'.cache ind) { sector = x }))
  unfolding write_loop
  write_loop-hit i start ind section x src s e ok = rw (write_loop, e, ok) refl

  write_loop-end :
      (i start : ℕ) (section : List Sector) (s : Cached b cache_cap)
      → write_loop b cache_cap i start section [] s ≡ write_section b cache_cap s start section
  unfolding write_loop
  write_loop-end i start section s = refl

  write_loop_lem :
      (i start : ℕ) (section src : List Sector) (s : Cached b cache_cap)
      → IsCache b d cache_cap s
      → i ≡ start + length section
      → i + length src ≤ b.num_sectors
      → Missing b d cache_cap s start i
      → Sized section
      → Sized src
      → Wrote s start (section ++ src) (write_loop b cache_cap i start section src s)
  write_loop_lem i start section [] s v e inside gone sized sized' =
      let wrote =
        (write_section-Wrote s start section v (omega (arith, inside))
          (λ j ge lt. gone j ge (omega arith)) sized).0 in
      subst (Wrote s start (section ++ [])) (sym (write_loop-end i start section s)) (
        subst (λ l. Wrote s start l (write_section b cache_cap s start section))
          (sym (append-nil section)) wrote)
  write_loop_lem i start section (x ∷ src) s v e inside gone sized sized' =
      elim (Option-cases (mp_get s.sector_map i)) [
        | inl miss ↦
            let done =
              write_loop_lem (suc i) start (section ++ (x ∷ [])) src s v
                (omega (arith, length-append section (x ∷ []))) (omega (arith, inside))
                (λ j ge lt. elim (ℕ_discrete j i) [
                  | yes here ↦ ap (λ k. mp_get s.sector_map k) here ∙ miss
                  | no other ↦ gone j ge (omega (arith, other))
                ])
                (All-append-one (λ x. length x ≡ b.sector_size) section x sized sized'.0)
                sized'.1 in
            subst (Wrote s start (section ++ (x ∷ src)))
              (sym (write_loop-miss i start section x src s miss))
              (subst
                (λ l.
                  Wrote s start l
                    (write_loop b cache_cap (suc i) start (section ++ (x ∷ [])) src s))
                (append_assoc section (x ∷ []) src) done)
        | inr (ind, there) ↦
            let (written, kept) =
              write_section-Wrote s start section v (omega (arith, inside))
                (λ j ge lt. gone j ge (omega arith)) sized in
            let (ok, v', shows) = written in
            let (err, s') = write_section b cache_cap s start section in
            let (v'', shows') =
              overwritten-IsCache b d cache_cap s' ind i x v' (ap (λ m. mp_get m i) kept ∙ there)
                sized'.0 in
            let s'' = set_entry b cache_cap s' ind (record (s'.cache ind) { sector = x }) in
            let (ok', valid, shows'') =
              write_loop_lem (suc i) (suc i) [] src s'' v'' (omega arith) (omega (arith, inside))
                (λ j ge lt. absurd (omega (arith, ge, lt))) tt sized'.1 in
            subst (Wrote s start (section ++ (x ∷ src)))
              (sym (write_loop-hit i start ind section x src s there ok))
              (
                ok',
                valid,
                shows''
                    ∙ ap (λ f. with_sectors f (suc i) src)
                        (shows' ∙ ap (λ f. with_sector f i x) shows)
                    ∙ ap
                        (λ k.
                          with_sectors (with_sectors (shown b d cache_cap s) start section) k
                            (x ∷ src))
                        e
                    ∙ sym (with_sectors-append (shown b d cache_cap s) start section (x ∷ src)),
              )
      ]

  pub cbd_write-shown :
      (s : Cached b cache_cap) (i : ℕ) (src : List Sector)
      → IsCache b d cache_cap s
      → i < b.num_sectors
      → i + length src ≤ b.num_sectors
      → Sized src
      → Wrote s i src (cbd_write b cache_cap s i (some src))
  unfolding cbd_write
  cbd_write-shown s i src v lt le sized =
      rw (in_range b.num_sectors i (length src) d.small.0 lt le) (
        write_loop_lem i i [] src s v (omega arith) le (λ j ge lt. absurd (omega (arith, ge, lt)))
          tt sized)
