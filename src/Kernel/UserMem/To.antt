-- ===== src/Kernel/UserMem/To.antt =====
-- `mem_cpy_to_user`, page by page, copies byte by byte.
use fern_os.Prelude.{
  ℕ, zero, suc, ◌+◌, ◌-◌, ◌%◌, ◌^◌, ◌≤◌, ◌<◌, ◌≡◌, inl, inr, refl, ap, ap₂, sym, ◌∙◌, Bool-cases,
  Option-cases, false, none, some, List, [], ◌∷◌, ◌++◌, arith, take, drop, take-add, drop-add,
  length, length-take, length-drop, ltb, lt→ltb, ltb→lt, ◌==◌, if◌then◌else◌,
}
use fern_os.Err.{success, no_mem}
use fern_os.Kernel.UserMem.{
  UserMem, m_4k, pd_get_underlying, pd_get_underlying_p, page_in, set_byte, bytes_to_copy, to_loop,
  mem_cpy_to_user,
}
use fern_os.Kernel.UserMem.Bytewise.{
  reachable, poke, put_byte, amount, bytes_to_copy_lem, underlying-suc, reachable-page,
  reachable-nil,
}

-- A write changes no page table.
reachable-set_byte :
    (um : UserMem) (p o v a n : ℕ) → reachable (set_byte um p o v) a n ≡ reachable um a n
unfolding pd_get_underlying_p
reachable-set_byte um p o v a zero = refl
reachable-set_byte um p o v a (suc n) =
    ap (λ r. elim (pd_get_underlying um a) [ none ↦ 0 | some p ↦ suc r ])
      (reachable-set_byte um p o v (suc a) n)

underlying-set_byte :
    (um : UserMem) (p o v a : ℕ) → pd_get_underlying (set_byte um p o v) a ≡ pd_get_underlying um a
unfolding pd_get_underlying_p
underlying-set_byte um p o v a = refl

reachable-page_in :
    (um : UserMem) (p o : ℕ) (xs : List ℕ) (a n : ℕ)
    → reachable (page_in um p o xs) a n ≡ reachable um a n
reachable-page_in um p o [] a n = refl
reachable-page_in um p o (x ∷ xs) a n =
    reachable-page_in (set_byte um p o x) p (suc o) xs a n ∙ reachable-set_byte um p o x a n

put_byte-some :
    (um : UserMem) (a x p : ℕ)
    → pd_get_underlying um a ≡ some p
    → put_byte um a x ≡ set_byte um p (a % m_4k) x
put_byte-some um a x p e = ap (λ o. elim o [ none ↦ um | some p ↦ set_byte um p (a % m_4k) x ]) e

page_in_lem :
    (um : UserMem) (a p : ℕ) (xs : List ℕ)
    → pd_get_underlying um a ≡ some p
    → a % m_4k + length xs ≤ m_4k
    → page_in um p (a % m_4k) xs ≡ poke um a xs
page_in_lem um a p [] e h = refl
page_in_lem um a p (x ∷ []) e h = sym (put_byte-some um a x p e)
page_in_lem um a p (x ∷ y ∷ ys) e h =
    let (e', r) = underlying-suc um a (length ys) p e h in
    let um' = set_byte um p (a % m_4k) x in
    ap (λ o. page_in um' p o (y ∷ ys)) (sym r)
    ∙ page_in_lem um' (suc a) p (y ∷ ys) (underlying-set_byte um p (a % m_4k) x (suc a) ∙ e')
        (omega (arith, r))
    ∙ ap (λ u. poke u (suc a) (y ∷ ys)) (sym (put_byte-some um a x p e))

pub poke-append :
    (um : UserMem) (a : ℕ) (xs ys : List ℕ)
    → poke um a (xs ++ ys) ≡ poke (poke um a xs) (a + length xs) ys
poke-append um a [] ys = ap (λ k. poke um k ys) (omega arith)
poke-append um a (x ∷ xs) ys =
    poke-append (put_byte um a x) (suc a) xs ys
    ∙ ap (λ k. poke (poke (put_byte um a x) (suc a) xs) k ys) (omega arith)

to_loop-next :
    (fuel : ℕ) (um : UserMem) (ubuf : ℕ) (kbuf : List ℕ) (copied p : ℕ)
    → ubuf + length kbuf ≤ 2 ^ 32 - m_4k
    → copied < length kbuf
    → pd_get_underlying um (ubuf + copied) ≡ some p
    → let a = ubuf + copied in
      let n = amount a (length kbuf - copied) in
      to_loop (suc fuel) um ubuf kbuf copied
      ≡ to_loop fuel (page_in um p (a % m_4k) (take n (drop copied kbuf))) ubuf kbuf (copied + n)
unfolding to_loop
to_loop-next fuel um ubuf kbuf copied p lim le e =
    let a = ubuf + copied in
    let w : a % 2 ^ 32 ≡ a = omega arith in
    let w' : (ubuf + length kbuf) % 2 ^ 32 ≡ ubuf + length kbuf = omega arith in
    let n : bytes_to_copy (ubuf + length kbuf) a ≡ amount a (length kbuf - copied) =
      bytes_to_copy_lem (ubuf + length kbuf) a (omega arith) lim ∙ omega arith in
    rw (to_loop, lt→ltb copied (length kbuf) le, w, e, w, w', n) refl

to_loop-done :
    (fuel : ℕ) (um : UserMem) (ubuf : ℕ) (kbuf : List ℕ) (copied : ℕ)
    → ltb copied (length kbuf) ≡ false
    → to_loop (suc fuel) um ubuf kbuf copied ≡ (copied, um)
unfolding to_loop
to_loop-done fuel um ubuf kbuf copied h = rw (to_loop, h) refl

to_loop-absent :
    (fuel : ℕ) (um : UserMem) (ubuf : ℕ) (kbuf : List ℕ) (copied : ℕ)
    → ubuf + copied < 2 ^ 32
    → pd_get_underlying um (ubuf + copied) ≡ none
    → to_loop (suc fuel) um ubuf kbuf copied ≡ (copied, um)
unfolding to_loop
to_loop-absent fuel um ubuf kbuf copied b e =
    let w : (ubuf + copied) % 2 ^ 32 ≡ ubuf + copied = omega arith in
    elim (Bool-cases (ltb copied (length kbuf))) [
      | inr h ↦ rw (to_loop, h) refl
      | inl h ↦ rw (to_loop, h, w, e) refl
    ]

-- What the loop writes from `a` on, of the bytes `kbuf` that are left.
abbrev written : UserMem → ℕ → List ℕ → ℕ → ℕ × UserMem
written um a kbuf copied =
    let r = reachable um a (length kbuf) in (copied + r, poke um a (take r kbuf))

written-add :
    (um : UserMem) (a p n : ℕ) (kbuf : List ℕ) (copied : ℕ)
    → pd_get_underlying um a ≡ some p
    → a % m_4k + n ≤ m_4k
    → n ≤ length kbuf
    → written (page_in um p (a % m_4k) (take n kbuf)) (a + n) (drop n kbuf) (copied + n)
      ≡ written um a kbuf copied
written-add um a p n kbuf copied e h le =
    let xs = take n kbuf in
    let len : length xs ≡ n = omega (arith, length-take n kbuf) in
    let r = reachable um (a + n) (length kbuf - n) in
    let same : reachable (page_in um p (a % m_4k) xs) (a + n) (length (drop n kbuf)) ≡ r =
      reachable-page_in um p (a % m_4k) xs (a + n) (length (drop n kbuf))
      ∙ ap (λ k. reachable um (a + n) k) (length-drop n kbuf) in
    let total : reachable um a (length kbuf) ≡ n + r =
      ap (λ k. reachable um a k) (omega arith) ∙ reachable-page um a n (length kbuf - n) p e h in
    let whole : poke (page_in um p (a % m_4k) xs) (a + n) (take r (drop n kbuf))
        ≡ poke um a (take (n + r) kbuf) =
      ap (λ u. poke u (a + n) (take r (drop n kbuf))) (page_in_lem um a p xs e (omega arith))
      ∙ ap (λ k. poke (poke um a xs) (a + k) (take r (drop n kbuf))) (sym len)
      ∙ sym (poke-append um a xs (take r (drop n kbuf)))
      ∙ ap (λ l. poke um a l) (sym (take-add n r kbuf)) in
    ap (λ k. (copied + n + k, poke (page_in um p (a % m_4k) xs) (a + n) (take k (drop n kbuf))))
      same
    ∙ ap₂ (λ k u. (k, u)) (omega arith) whole
    ∙ ap (λ k. (copied + k, poke um a (take k kbuf))) (sym total)

to_loop_lem :
    (fuel : ℕ) (um : UserMem) (ubuf : ℕ) (kbuf : List ℕ) (copied : ℕ)
    → ubuf + length kbuf ≤ 2 ^ 32 - m_4k
    → copied ≤ length kbuf
    → length kbuf - copied < fuel
    → to_loop fuel um ubuf kbuf copied ≡ written um (ubuf + copied) (drop copied kbuf) copied
to_loop_lem zero um ubuf kbuf copied lim le enough = elim enough [ ]
to_loop_lem (suc fuel) um ubuf kbuf copied lim le enough =
    let a = ubuf + copied in
    let rest = drop copied kbuf in
    let len = length-drop copied kbuf in
    elim (Bool-cases (ltb copied (length kbuf))) [
      | inr h ↦
          let z : length rest ≡ 0 = ground arith in
          to_loop-done fuel um ubuf kbuf copied h
          ∙ ap (λ k. (k, um)) (omega arith)
          ∙ ap (λ k. (copied + reachable um a k, poke um a (take (reachable um a k) rest))) (sym z)
      | inl h ↦ elim (Option-cases (pd_get_underlying um a)) [
        | inl e ↦
            to_loop-absent fuel um ubuf kbuf copied (omega arith) e
            ∙ ap (λ k. (k, um)) (omega arith)
            ∙ ap (λ k. (copied + k, poke um a (take k rest)))
                (sym (reachable-nil um a (length rest) e))
        | inr (p, e) ↦
            let n = amount a (length kbuf - copied) in
            let um' = page_in um p (a % m_4k) (take n rest) in
            let lt = ltb→lt copied (length kbuf) h in
            to_loop-next fuel um ubuf kbuf copied p lim lt e
            ∙ to_loop_lem fuel um' ubuf kbuf (copied + n) lim (omega arith) (omega arith)
            ∙ ap₂ (λ k l. written um' k l (copied + n)) (omega arith) (drop-add copied n kbuf)
            ∙ written-add um a p n rest copied e (omega arith) (omega arith)
      ]
    ]

-- For a destination that is not NULL and a write that ends at or before the last page of the
-- address space, `mem_cpy_to_user` writes exactly the bytes before the first page that is not
-- present, each to its own address and in order, reports how many, and succeeds when that is all.
pub mem_cpy_to_user-poke :
    (um : UserMem) (user_dest : ℕ) (kbuf : List ℕ)
    → 0 < user_dest
    → user_dest + length kbuf ≤ 2 ^ 32 - m_4k
    → let r = reachable um user_dest (length kbuf) in
      mem_cpy_to_user um user_dest kbuf
      ≡ (if r == length kbuf then success else no_mem, r, poke um user_dest (take r kbuf))
unfolding mem_cpy_to_user
mem_cpy_to_user-poke um user_dest kbuf h lim =
    let r = reachable um user_dest (length kbuf) in
    let z : (user_dest == 0) ≡ false = ground arith in
    let e : to_loop (suc (length kbuf)) um user_dest kbuf 0 ≡ (r, poke um user_dest (take r kbuf)) =
      to_loop_lem (suc (length kbuf)) um user_dest kbuf 0 lim (omega arith) (omega arith)
      ∙ ap (λ a. written um a kbuf 0) (omega arith)
      ∙ ap (λ k. (k, poke um user_dest (take r kbuf))) (omega arith) in
    rw (z, e) refl

pub reachable-poke :
    (um : UserMem) (a : ℕ) (xs : List ℕ) (b n : ℕ) → reachable (poke um a xs) b n ≡ reachable um b n
reachable-poke um a [] b n = refl
reachable-poke um a (x ∷ xs) b n =
    reachable-poke (put_byte um a x) (suc a) xs b n ∙ elim (Option-cases (pd_get_underlying um a)) [
      | inl e ↦
          ap (λ o. reachable (elim o [ none ↦ um | some p ↦ set_byte um p (a % m_4k) x ]) b n) e
      | inr (p, e) ↦
          ap (λ u. reachable u b n) (put_byte-some um a x p e)
          ∙ reachable-set_byte um p (a % m_4k) x b n
    ]
