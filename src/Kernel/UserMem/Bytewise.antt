-- ===== src/Kernel/UserMem/Bytewise.antt =====
-- Reading and writing a user's memory byte by byte, and what a page has to do with it.
use fern_os.Prelude.{
  inr, inl, Option-cases, ℕ, zero, suc, ◌+◌, ◌-◌, ◌/◌, ◌%◌, ◌^◌, ◌≤◌, ◌<◌, min, ◌≡◌, refl, ap, ap₂,
  sym, ◌∙◌, none, some, List, [], ◌∷◌, ◌++◌, arith, length,
}
use fern_os.Kernel.UserMem.{
  UserMem, m_4k, pd_get_underlying, pd_get_underlying_p, page_out, set_byte, bytes_to_copy,
}

-- How many bytes from `a` on, `n` at most, can be reached before a page that is not present.
abbrev pub reachable : UserMem → ℕ → ℕ → ℕ
reachable um a zero = 0
reachable um a (suc n) = elim (pd_get_underlying um a) [
  | none ↦ 0
  | some p ↦ suc (reachable um (suc a) n)
]

abbrev pub get_byte : UserMem → ℕ → ℕ
get_byte um a = elim (pd_get_underlying um a) [ none ↦ 0 | some p ↦ um.bytes p (a % m_4k) ]

-- The bytes at `n` addresses from `a` on.
abbrev pub peek : UserMem → ℕ → ℕ → List ℕ
peek um a zero = []
peek um a (suc n) = get_byte um a ∷ peek um (suc a) n

abbrev pub put_byte : UserMem → ℕ → ℕ → UserMem
put_byte um a x = elim (pd_get_underlying um a) [ none ↦ um | some p ↦ set_byte um p (a % m_4k) x ]

-- The memory with the bytes of a list written at the addresses from `a` on.
abbrev pub poke : UserMem → ℕ → List ℕ → UserMem
poke um a [] = um
poke um a (x ∷ xs) = poke (put_byte um a x) (suc a) xs

pub bytes_to_copy_lem :
    (limit a : ℕ)
    → a < limit
    → limit ≤ 2 ^ 32 - m_4k
    → bytes_to_copy limit a ≡ min (limit - a) (m_4k - a % m_4k)
unfolding bytes_to_copy
bytes_to_copy_lem limit a h b = ground arith

-- Two addresses on one page.
pub same_page :
    (a n : ℕ)
    → a % m_4k + suc n < m_4k
    → (suc a / m_4k ≡ a / m_4k) × (suc a % m_4k ≡ suc (a % m_4k))
same_page a n h = (omega arith, omega arith)

-- The page of an address holds the next address too, unless that starts a page.
pub underlying-suc :
    (um : UserMem) (a n p : ℕ)
    → pd_get_underlying um a ≡ some p
    → a % m_4k + suc (suc n) ≤ m_4k
    → (pd_get_underlying um (suc a) ≡ some p) × (suc a % m_4k ≡ suc (a % m_4k))
underlying-suc um a n p e h =
    let (d, r) = same_page a n (omega arith) in (ap (λ i. pd_get_underlying_p um i) d ∙ e, r)

pub reachable-suc :
    (um : UserMem) (a n p : ℕ)
    → pd_get_underlying um a ≡ some p
    → reachable um a (suc n) ≡ suc (reachable um (suc a) n)
reachable-suc um a n p e = ap (λ o. elim o [ none ↦ 0 | some p ↦ suc (reachable um (suc a) n) ]) e

pub get_byte-some :
    (um : UserMem) (a p : ℕ)
    → pd_get_underlying um a ≡ some p
    → get_byte um a ≡ um.bytes p (a % m_4k)
get_byte-some um a p e = ap (λ o. elim o [ none ↦ 0 | some p ↦ um.bytes p (a % m_4k) ]) e

pub reachable-page :
    (um : UserMem) (a n m p : ℕ)
    → pd_get_underlying um a ≡ some p
    → a % m_4k + n ≤ m_4k
    → reachable um a (n + m) ≡ n + reachable um (a + n) m
reachable-page um a zero m p e h = ground arith
reachable-page um a (suc zero) m p e h = ground (arith, reachable-suc um a m p e)
reachable-page um a (suc (suc n)) m p e h =
    let (e', r) = underlying-suc um a n p e h in
    let l : suc (suc n) + m ≡ suc (suc n + m) = omega arith in
    let c : suc a + suc n ≡ a + suc (suc n) = omega arith in
    let ih = reachable-page um (suc a) (suc n) m p e' (omega (arith, r)) in
    ap (λ k. reachable um a k) l
    ∙ reachable-suc um a (suc n + m) p e
    ∙ ap suc (ih ∙ ap (λ k. suc n + reachable um k m) c)
    ∙ omega arith

pub page_out_lem :
    (um : UserMem) (a n p : ℕ)
    → pd_get_underlying um a ≡ some p
    → a % m_4k + n ≤ m_4k
    → page_out (um.bytes p) (a % m_4k) n ≡ peek um a n
page_out_lem um a zero p e h = refl
page_out_lem um a (suc zero) p e h = ap (λ b. b ∷ []) (sym (get_byte-some um a p e))
page_out_lem um a (suc (suc n)) p e h =
    let (e', r) = underlying-suc um a n p e h in
    ap₂ (λ b l. b ∷ l) (sym (get_byte-some um a p e))
      (ap (λ o. page_out (um.bytes p) o (suc n)) (sym r)
        ∙ page_out_lem um (suc a) (suc n) p e' (omega (arith, r)))

pub peek-add : (um : UserMem) (a n m : ℕ) → peek um a (n + m) ≡ peek um a n ++ peek um (a + n) m
peek-add um a zero m = ground arith
peek-add um a (suc n) m =
    let l : suc n + m ≡ suc (n + m) = omega arith in
    let c : suc a + n ≡ a + suc n = omega arith in
    ap (λ k. peek um a k) l
    ∙ ap (λ t. get_byte um a ∷ t)
        (peek-add um (suc a) n m ∙ ap (λ k. peek um (suc a) n ++ peek um k m) c)

pub length-peek : (um : UserMem) (a n : ℕ) → length (peek um a n) ≡ n
length-peek um a zero = refl
length-peek um a (suc n) = ap suc (length-peek um (suc a) n)

pub reachable_le : (um : UserMem) (a n : ℕ) → reachable um a n ≤ n
reachable_le um a zero = omega arith
reachable_le um a (suc n) = ground (arith, reachable_le um (suc a) n)

-- One round of the loop, at `a` and with `left` bytes to go.
abbrev pub amount : ℕ → ℕ → ℕ
amount a left = min left (m_4k - a % m_4k)

pub reachable-nil : (um : UserMem) (a n : ℕ) → pd_get_underlying um a ≡ none → reachable um a n ≡ 0
reachable-nil um a zero e = refl
reachable-nil um a (suc n) e =
    ap (λ o. elim o [ none ↦ 0 | some p ↦ suc (reachable um (suc a) n) ]) e

-- A read that got all it asked for goes on behind it, and one that did not has met its end.
pub reachable-more :
    (um : UserMem) (a n m : ℕ)
    → reachable um a n ≡ n
    → reachable um a (n + m) ≡ n + reachable um (a + n) m
reachable-more um a zero m e =
    let z : 0 + m ≡ m = omega arith in
    let y : a + 0 ≡ a = omega arith in
    ap (λ k. reachable um a k) z ∙ ap (λ k. reachable um k m) (sym y) ∙ omega arith
reachable-more um a (suc n) m e = elim (Option-cases (pd_get_underlying um a)) [
  | inl none_there ↦ absurd (omega (arith, e, reachable-nil um a (suc n) none_there))
  | inr (p, there) ↦
      let z : suc n + m ≡ suc (n + m) = omega arith in
      let y : suc a + n ≡ a + suc n = omega arith in
      let r = reachable-suc um a n p there in
      ap (λ k. reachable um a k) z
      ∙ reachable-suc um a (n + m) p there
      ∙ ap suc (reachable-more um (suc a) n m (omega (arith, r)))
      ∙ ap (λ k. suc (n + reachable um k m)) y
      ∙ omega arith
]

pub reachable-stop :
    (um : UserMem) (a n m : ℕ) → reachable um a n < n → reachable um a (n + m) ≡ reachable um a n
reachable-stop um a zero m h = absurd (omega (arith, h))
reachable-stop um a (suc n) m h = elim (Option-cases (pd_get_underlying um a)) [
  | inl none_there ↦
      reachable-nil um a (suc n + m) none_there ∙ sym (reachable-nil um a (suc n) none_there)
  | inr (p, there) ↦
      let z : suc n + m ≡ suc (n + m) = omega arith in
      let r = reachable-suc um a n p there in
      ap (λ k. reachable um a k) z
      ∙ reachable-suc um a (n + m) p there
      ∙ ap suc (reachable-stop um (suc a) n m (omega (arith, r)))
      ∙ sym r
]
