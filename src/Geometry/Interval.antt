-- ===== src/Geometry/Interval.antt =====
-- `intervals_overlap` of s_util/src/misc.c: the part of an interval that lies in a window.
use fern_os.Prelude.{
  ℕ, suc, ◌+◌, ◌-◌, ◌^◌, ◌≤◌, ◌<◌, ◌≡◌, Option, none, some, true, ◌⊎◌, inl, inr, ◌||◌, ◌↔◌, arith,
  min, dec_lt, if◌then◌else◌,
}
use fern_os.Prelude.Int.{
  ℤ, pos, negsuc, ◌+ℤ◌, ◌-ℤ◌, ◌≤ℤ◌, ◌<ℤ◌, ltb_ℤ, leb_ℤ, IsInt32, wrap32, wrap32_self, wrap32_over,
  int_laws,
}

abbrev pub int32_max : ℤ
int32_max = pos (2 ^ 31 - 1)

-- `p + l` on `int32_t` values; the code expects a sum that is too large to wrap.
abbrev pub add_int32 : ℤ → ℤ → ℤ
add_int32 a b = wrap32 (a +ℤ b)

abbrev pub sub_int32 : ℤ → ℤ → ℤ
sub_int32 a b = wrap32 (a -ℤ b)

-- The two cuts of the part that lies to the right of 0.
pub cut_right : ℤ → ℤ → ℤ → ℤ × ℤ
cut_right p l window_len =
    let l1 = if ltb_ℤ (add_int32 p l) (pos 0) then sub_int32 int32_max p else l in
    let l2 = if ltb_ℤ window_len (add_int32 p l1) then sub_int32 window_len p else l1 in (p, l2)

-- `intervals_overlap`: `none` is `false`, where `*pos` and `*len` are left alone; else what is
-- written to them.
pub intervals_overlap : ℤ → ℤ → ℤ → Option (ℤ × ℤ)
intervals_overlap p l window_len =
    if leb_ℤ l (pos 0) || leb_ℤ window_len (pos 0)
    then none
    else if leb_ℤ window_len p
    then none
    else if ltb_ℤ p (pos 0)
    then (if leb_ℤ (add_int32 p l) (pos 0)
        then none
        else some (cut_right (pos 0) (add_int32 l p) window_len))
    else some (cut_right p l window_len)

-- The numbers of an interval.
abbrev pub Inside : ℤ → ℤ → ℤ → Type 0
Inside p l x = (p ≤ℤ x) × (x <ℤ p +ℤ l)

pos-+ℤ : (a b : ℕ) → pos a +ℤ pos b ≡ pos (a + b)
unfolding ◌+ℤ◌
pos-+ℤ a b = ground arith

negsuc-+ℤ : (a b : ℕ) → a < b → pos b +ℤ negsuc a ≡ pos (b - a - 1)
unfolding ◌+ℤ◌
negsuc-+ℤ a b h = ground arith

add_nat : (a b : ℕ) → a + b < 2 ^ 31 → add_int32 (pos a) (pos b) ≡ pos (a + b)
add_nat a b h = rw (pos-+ℤ a b) (wrap32_self (pos (a + b)) (omega arith))

add_over :
    (a b : ℕ)
    → 2 ^ 31 ≤ a + b
    → a + b < 2 ^ 32
    → add_int32 (pos a) (pos b) ≡ negsuc (2 ^ 32 - (a + b) - 1)
add_over a b lo hi = rw (pos-+ℤ a b) (wrap32_over (a + b) lo hi)

sub_nat : (a b : ℕ) → b ≤ a → a < 2 ^ 31 → sub_int32 (pos a) (pos b) ≡ pos (a - b)
unfolding ◌-ℤ◌
sub_nat a b h hi = ground (arith, wrap32_self (pos (a - b)))

-- The cut interval ends where it did, or at the window's end, whichever comes first; also where
-- the sum overflows.
cut_right_lem :
    (p l w : ℕ)
    → 0 < l
    → l < 2 ^ 31
    → p < w
    → w < 2 ^ 31
    → cut_right (pos p) (pos l) (pos w) ≡ (pos p, pos (min l (w - p)))
unfolding cut_right
cut_right_lem p l w hl hl' hp hw = elim (dec_lt (p + l) (2 ^ 31)) [
  | yes fits ↦ ground (arith, add_nat p l fits, sub_nat w p)
  | no over ↦ ground (
    arith,
    add_over p l (omega arith) (omega arith),
    sub_nat w p,
    sub_nat (2 ^ 31 - 1) p,
    add_nat p (2 ^ 31 - 1 - p),
  )
]

-- What the header promises of a result: the overlap is empty, or it is the interval written back.
abbrev pub Overlap : ℤ → ℤ → ℤ → Option (ℤ × ℤ) → Type 0
Overlap p l w none = (x : ℤ) → ¬ (Inside p l x × Inside (pos 0) w x)
Overlap p l w (some (p', l')) =
    (pos 0 <ℤ l') × ((x : ℤ) → (Inside p l x × Inside (pos 0) w x) ↔ Inside p' l' x)

-- `intervals_overlap` on numbers of each sign.
overlap_pos :
    (p l w : ℕ)
    → 0 < l
    → l < 2 ^ 31
    → p < w
    → w < 2 ^ 31
    → intervals_overlap (pos p) (pos l) (pos w) ≡ some (pos p, pos (min l (w - p)))
unfolding intervals_overlap
overlap_pos p l w hl hl' hp hw = ground (arith, cut_right_lem p l w)

add_neg : (a l : ℕ) → suc a < l → l < 2 ^ 31 → add_int32 (pos l) (negsuc a) ≡ pos (l - a - 1)
add_neg a l h hi = rw (negsuc-+ℤ a l (omega arith)) (wrap32_self (pos (l - a - 1)) (omega arith))

add_neg' : (a l : ℕ) → suc a < l → l < 2 ^ 31 → add_int32 (negsuc a) (pos l) ≡ pos (l - a - 1)
unfolding ◌+ℤ◌
add_neg' a l h hi = ground (arith, wrap32_self (pos (l - a - 1)))

add_neg_le :
    (a l : ℕ) → l ≤ suc a → suc a ≤ 2 ^ 31 → leb_ℤ (add_int32 (negsuc a) (pos l)) (pos 0) ≡ true
unfolding ◌+ℤ◌
add_neg_le a l h ha = ground (arith, wrap32_self (pos 0), wrap32_self (negsuc (suc a - l - 1)))

overlap_neg :
    (a l w : ℕ)
    → suc a < l
    → l < 2 ^ 31
    → 0 < w
    → w < 2 ^ 31
    → intervals_overlap (negsuc a) (pos l) (pos w) ≡ some (pos 0, pos (min (l - a - 1) w))
unfolding intervals_overlap
overlap_neg a l w hl hl' hw hw' =
    ground (arith, add_neg a l, add_neg' a l, cut_right_lem 0 (l - a - 1) w)

overlap_left :
    (a l w : ℕ) → l ≤ suc a → suc a ≤ 2 ^ 31 → intervals_overlap (negsuc a) (pos l) (pos w) ≡ none
unfolding intervals_overlap
overlap_left a l w h ha = ground (arith, add_neg_le a l)

overlap_right : (p : ℤ) (l w : ℕ) → pos w ≤ℤ p → intervals_overlap p (pos l) (pos w) ≡ none
unfolding intervals_overlap
overlap_right p l w h = ground arith

overlap_empty : (p l w : ℤ) → (l ≤ℤ pos 0) ⊎ (w ≤ℤ pos 0) → intervals_overlap p l w ≡ none
unfolding intervals_overlap
overlap_empty p l w h = ground arith

-- `intervals_overlap` says `true` exactly when the interval meets the window, and then writes the
-- numbers that they share, for all `int32_t` arguments, negative lengths and overflowing sums
-- included.
pub intervals_overlap_lem :
    (p l w : ℤ) → IsInt32 p → IsInt32 l → IsInt32 w → Overlap p l w (intervals_overlap p l w)
intervals_overlap_lem p (negsuc b) w hp hl hw =
    rw (overlap_empty p (negsuc b) w (inl (omega arith))) (λ x h. omega int_laws)
intervals_overlap_lem p (pos l) (negsuc c) hp hl hw =
    rw (overlap_empty p (pos l) (negsuc c) (inr (omega arith))) (λ x h. omega int_laws)
intervals_overlap_lem (negsuc a) (pos l) (pos w) hp hl hw = elim (dec_lt (suc a) l) [
  | no left ↦ rw (overlap_left a l w (omega arith) (omega arith)) (λ x h. omega int_laws)
  | yes over ↦ elim (dec_lt 0 w) [
    | no none_there ↦
        rw (overlap_empty (negsuc a) (pos l) (pos w) (inr (omega arith))) (λ x h. omega int_laws)
    | yes some_there ↦
        rw (overlap_neg a l w over (omega arith) some_there (omega arith))
          (omega arith, λ x. (λ h. omega int_laws, λ h. omega int_laws))
  ]
]
intervals_overlap_lem (pos p) (pos l) (pos w) hp hl hw = elim (dec_lt p w) [
  | no right ↦ rw (overlap_right (pos p) l w (omega arith)) (λ x h. omega int_laws)
  | yes inside ↦ elim (dec_lt 0 l) [
    | no none_there ↦
        rw (overlap_empty (pos p) (pos l) (pos w) (inl (omega arith))) (λ x h. omega int_laws)
    | yes some_there ↦
        rw (overlap_pos p l w some_there (omega arith) inside (omega arith))
          (omega arith, λ x. (λ h. omega int_laws, λ h. omega int_laws))
  ]
]
