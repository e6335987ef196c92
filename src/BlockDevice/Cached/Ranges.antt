-- ===== src/BlockDevice/Cached/Ranges.antt =====
-- Reading whole sectors through the cache: runs of sectors that are not cached come from the wrapped
-- device, and the others from their slots.
use fern_os.Prelude.{
  ℕ, zero, suc, ◌+◌, ◌-◌, ◌≤◌, ◌<◌, ◌≡◌, refl, ap, ap₂, sym, subst, ◌∙◌, Bool-cases, Option-cases,
  ℕ_discrete, inl, inr, true, none, some, List, [], ◌∷◌, ◌++◌, append_assoc, arith, ltb,
}
use mathlib.Core.Path.{fun_ext}
use fern_os.Err.{Err, success}
use fern_os.Map.{mp_get}
use fern_os.BlockDevice.{Sector, BlockDevice, IsDisk, sectors, in_range}
use fern_os.BlockDevice.Cached.{Cached, read_section, read_loop, cbd_read}
use fern_os.BlockDevice.Cached.Invariant.{IsCache, shown, pick}

sectors-ext :
    (f g : ℕ → Sector) (i n : ℕ)
    → ((j : ℕ) → i ≤ j → j < i + n → f j ≡ g j)
    → sectors f i n ≡ sectors g i n
sectors-ext f g i zero h = refl
sectors-ext f g i (suc n) h =
    ap₂ (λ x l. x ∷ l) (h i (omega arith) (omega arith))
      (sectors-ext f g (suc i) n (λ j le lt. h j (omega arith) (omega arith)))

sectors-add :
    (f : ℕ → Sector) (i n m : ℕ) → sectors f i (n + m) ≡ sectors f i n ++ sectors f (i + n) m
sectors-add f i zero m =
    let e : 0 + m ≡ m = omega arith in
    let e' : i ≡ i + 0 = omega arith in ap (λ k. sectors f i k) e ∙ ap (λ k. sectors f k m) e'
sectors-add f i (suc n) m =
    let e : suc n + m ≡ suc (n + m) = omega arith in
    let e' : suc i + n ≡ i + suc n = omega arith in
    ap (λ k. sectors f i k) e
    ∙ ap (λ l. f i ∷ l)
        (sectors-add f (suc i) n m ∙ ap (λ k. sectors f (suc i) n ++ sectors f k m) e')

module _ (b : BlockDevice) (d : IsDisk b) (cache_cap : ℕ) where
  -- No sector from `start` up to `i` is cached.
  abbrev pub Missing : Cached b cache_cap → ℕ → ℕ → Type 0
  Missing s start i = (j : ℕ) → start ≤ j → j < i → mp_get s.sector_map j ≡ none

  -- A wrapped device in another state that shows the same disk.
  pub wrapped-IsCache :
      (s : Cached b cache_cap) (bd : b.State)
      → IsCache b d cache_cap s
      → d.IsValid bd
      → d.sector bd ≡ d.sector s.wrapped_bd
      → let s' = record s { wrapped_bd = bd } in
        IsCache b d cache_cap s' × (shown b d cache_cap s' ≡ shown b d cache_cap s)
  wrapped-IsCache s bd v valid same = (
    record {
      device = valid;
      enough = v.enough;
      filled = v.filled;
      found = v.found;
      mapped = v.mapped;
      entries = v.entries;
    },
    fun_ext (λ j. elim (Option-cases (mp_get s.sector_map j)) [
      | inl gone ↦ rw gone (ap (λ f. f j) same)
      | inr (ind, there) ↦ rw there refl
    ]),
  )

  -- What a read of `n` sectors from `start` on has done.
  abbrev pub ReadOut : Cached b cache_cap → ℕ → ℕ → Err × List Sector × Cached b cache_cap → Type 0
  ReadOut s start n (err, dest, s') =
      (err ≡ success)
      × (dest ≡ sectors (shown b d cache_cap s) start n)
      × IsCache b d cache_cap s'
      × (shown b d cache_cap s' ≡ shown b d cache_cap s)

  read_section-ReadOut :
      (s : Cached b cache_cap) (start i : ℕ)
      → IsCache b d cache_cap s
      → start ≤ i
      → i ≤ b.num_sectors
      → Missing s start i
      → let (err, dest, s') = read_section b cache_cap s start i in
        ReadOut s start (i - start) (err, dest, s')
        × (s'.cache ≡ s.cache)
        × (s'.sector_map ≡ s.sector_map)
  unfolding read_section
  read_section-ReadOut s start i v le inside gone = elim (Bool-cases (ltb start i)) [
    | inr h ↦
        let none_left : i - start ≡ 0 = ground arith in
        rw (h, none_left) ((refl, refl, v, refl), refl, refl)
    | inl h ↦
        let lt : start < i = ground arith in
        let (ok, is, valid, same) =
          d.read_disk s.wrapped_bd start (i - start) v.device (omega arith) (omega arith) in
        let (v', same') =
          wrapped-IsCache s (b.bd_read s.wrapped_bd start (i - start) true).2 v valid same in
        let out : sectors (d.sector s.wrapped_bd) start (i - start)
            ≡ sectors (shown b d cache_cap s) start (i - start) =
          sectors-ext (d.sector s.wrapped_bd) (shown b d cache_cap s) start (i - start)
            (λ j ge lt. ap (λ o. pick b d cache_cap s o j) (sym (gone j ge (omega arith)))) in
        rw h ((ok, is ∙ out, v', same'), refl, refl)
  ]

  -- The loop appends the sectors from `start` on.
  abbrev AppendsSectors :
      Cached b cache_cap → List Sector → ℕ → ℕ → Err × List Sector × Cached b cache_cap → Type 0
  AppendsSectors s dest start n (err, out, s') =
      (err ≡ success)
      × (out ≡ dest ++ sectors (shown b d cache_cap s) start n)
      × IsCache b d cache_cap s'
      × (shown b d cache_cap s' ≡ shown b d cache_cap s)

  read_loop-miss :
      (n i start : ℕ) (dest : List Sector) (s : Cached b cache_cap)
      → mp_get s.sector_map i ≡ none
      → read_loop b cache_cap (suc n) i start dest s ≡ read_loop b cache_cap n (suc i) start dest s
  unfolding read_loop
  read_loop-miss n i start dest s e = rw (read_loop, e) refl

  read_loop-hit :
      (n i start ind : ℕ) (dest : List Sector) (s : Cached b cache_cap)
      → mp_get s.sector_map i ≡ some ind
      → let (err, more, s') = read_section b cache_cap s start i in
        err ≡ success
        → read_loop b cache_cap (suc n) i start dest s
          ≡ read_loop b cache_cap n
              (suc i)
              (suc i)
              ((dest ++ more) ++ ((s'.cache ind).sector ∷ []))
              s'
  unfolding read_loop
  read_loop-hit n i start ind dest s e ok = rw (read_loop, e, ok) refl

  read_loop-end :
      (i start : ℕ) (dest : List Sector) (s : Cached b cache_cap)
      → let (err, more, s') = read_section b cache_cap s start i in
        read_loop b cache_cap 0 i start dest s ≡ (err, dest ++ more, s')
  unfolding read_loop
  read_loop-end i start dest s = refl

  read_loop_lem :
      (n i start : ℕ) (dest : List Sector) (s : Cached b cache_cap)
      → IsCache b d cache_cap s
      → start ≤ i
      → i + n ≤ b.num_sectors
      → Missing s start i
      → AppendsSectors s dest start (i + n - start) (read_loop b cache_cap n i start dest s)
  read_loop_lem zero i start dest s v le inside gone =
      let e : i + 0 - start ≡ i - start = omega arith in
      let (read, _, _) = read_section-ReadOut s start i v le (omega arith) gone in
      let (ok, out, v', same) = read in
      subst (AppendsSectors s dest start (i + 0 - start)) (sym (read_loop-end i start dest s)) (
        ok,
        ap (λ l. dest ++ l) (out ∙ ap (λ k. sectors (shown b d cache_cap s) start k) (sym e)),
        v',
        same,
      )
  read_loop_lem (suc n) i start dest s v le inside gone =
      elim (Option-cases (mp_get s.sector_map i)) [
        | inl miss ↦
            let e : suc i + n - start ≡ i + suc n - start = omega arith in
            subst (AppendsSectors s dest start (i + suc n - start))
              (sym (read_loop-miss n i start dest s miss))
              (subst
                (λ k. AppendsSectors s dest start k (read_loop b cache_cap n (suc i) start dest s))
                e
                (read_loop_lem n (suc i) start dest s v (omega arith) (omega arith) (λ j ge lt.
                  elim (ℕ_discrete j i) [
                    | yes here ↦ ap (λ k. mp_get s.sector_map k) here ∙ miss
                    | no other ↦ gone j ge (ground (arith, other))
                  ])))
        | inr (ind, there) ↦
            let (read, same_cache, same_map) =
              read_section-ReadOut s start i v le (omega arith) gone in
            let (ok, out, v', same) = read in
            let (err, more, s') = read_section b cache_cap s start i in
            let x = (s'.cache ind).sector in
            let rest = sectors (shown b d cache_cap s) (suc i) n in
            let (ok', out', v'', same') =
              read_loop_lem n (suc i) (suc i) ((dest ++ more) ++ (x ∷ [])) s' v' (omega arith)
                (omega arith) (λ j ge lt. absurd (omega (arith, ge, lt))) in
            let is_x : x ≡ shown b d cache_cap s i =
              ap (λ c. (c ind).sector) same_cache
              ∙ ap (λ o. pick b d cache_cap s o i) (sym there) in
            let e : suc i + n - suc i ≡ n = omega arith in
            let e' : i - start + suc n ≡ i + suc n - start = omega arith in
            let e'' : start + (i - start) ≡ i = omega arith in
            let all : sectors (shown b d cache_cap s) start (i + suc n - start)
                ≡ more ++ (x ∷ rest) =
              ap (λ k. sectors (shown b d cache_cap s) start k) (sym e')
              ∙ sectors-add (shown b d cache_cap s) start (i - start) (suc n)
              ∙ ap
                  (λ k.
                    sectors (shown b d cache_cap s) start (i - start)
                    ++ sectors (shown b d cache_cap s) k (suc n))
                  e''
              ∙ ap₂ (λ l y. l ++ (y ∷ rest)) (sym out) (sym is_x) in
            subst (AppendsSectors s dest start (i + suc n - start))
              (sym (read_loop-hit n i start ind dest s there ok))
              (
                ok',
                out'
                    ∙ ap₂ (λ f k. ((dest ++ more) ++ (x ∷ [])) ++ sectors f (suc i) k) same e
                    ∙ append_assoc (dest ++ more) (x ∷ []) rest
                    ∙ append_assoc dest more (x ∷ rest)
                    ∙ ap (λ l. dest ++ l) (sym all),
                v'',
                same' ∙ same,
              )
      ]

  pub cbd_read-shown :
      (s : Cached b cache_cap) (i n : ℕ)
      → IsCache b d cache_cap s
      → i < b.num_sectors
      → i + n ≤ b.num_sectors
      → ReadOut s i n (cbd_read b cache_cap s i n true)
  unfolding cbd_read
  cbd_read-shown s i n v lt le =
      let e : i + n - i ≡ n = omega arith in
      rw (in_range b.num_sectors i n d.small.0 lt le) (
        subst (λ k. AppendsSectors s [] i k (read_loop b cache_cap n i i [] s)) e
          (read_loop_lem n i i [] s v (omega arith) le (λ j ge lt. absurd (omega (arith, ge, lt)))))
