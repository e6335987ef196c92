-- ===== src/Geometry/Clip/Laws.antt =====
-- A clipped box holds exactly the pixels that both boxes hold.
use fern_os.Prelude.{
  ℕ, ◌+◌, ◌^◌, ◌≤◌, ◌<◌, ◌≡◌, ◌↔◌, ◌⊎◌, inl, inr, refl, Bool, Bool-cases, true, false, Option, none,
  some, arith, if◌then◌else◌, ltb, leb, ◌==◌, not, ◌&&◌, ◌||◌,
}
use fern_os.Prelude.Int.{
  ℤ, pos, negsuc, pos_part, neg_part, ◌+ℤ◌, ◌-ℤ◌, ◌≤ℤ◌, ◌<ℤ◌, ltb_ℤ, IsInt32, wrap32_self, +ℤ_parts,
  -ℤ_parts,
}
use fern_os.Geometry.Interval.{Inside, sub_int32}
use fern_os.Geometry.Clip.{Box, sub_u16, shrink, gfx_clip, gfx_clip_with_buffer}

-- A cut that does not exceed the size does not wrap.
sub_u16_lem :
    (w : ℕ) (d : ℤ)
    → w < 2 ^ 16
    → pos 0 ≤ℤ d
    → d ≤ℤ pos w
    → sub_u16 w d + pos_part d ≡ w + neg_part d
unfolding sub_u16 ◌-ℤ◌
sub_u16_lem w (pos n) hw lo hi = ground arith
sub_u16_lem w (negsuc n) hw lo hi = absurd (omega arith)

cut_lem :
    (w : ℕ) (a b : ℤ)
    → w < 2 ^ 16
    → b ≤ℤ a
    → pos_part a + neg_part b ≤ w + pos_part b + neg_part a
    → sub_u16 w (sub_int32 a b) + pos_part a + neg_part b ≡ w + pos_part b + neg_part a
cut_lem w a b hw lo hi =
    rw (wrap32_self (a -ℤ b) (omega (arith, -ℤ_parts a b), omega (arith, -ℤ_parts a b))) (
      omega (
        arith,
        -ℤ_parts a b,
        sub_u16_lem w (a -ℤ b) hw (omega (arith, -ℤ_parts a b)) (omega (arith, -ℤ_parts a b)),
      ))

-- The ends of an axis decide which numbers lie on it.
abbrev Ends : ℤ → ℤ → ℤ → ℕ → Type 0
Ends x end x' w' = (x' ≡ x) × (w' + pos_part x + neg_part end ≡ pos_part end + neg_part x)

-- One axis of a box that meets the clip area: it begins at the later beginning, and ends at the
-- earlier end.
shrink-Ends :
    (cx ce bx be : ℤ) (bw : ℕ)
    → bw < 2 ^ 16
    → bw + pos_part bx + neg_part be ≡ pos_part be + neg_part bx
    → cx <ℤ ce
    → bx <ℤ ce
    → cx <ℤ be
    → let (x', w') = shrink cx ce bx be bw in
      Ends (if ltb_ℤ bx cx then cx else bx) (if ltb_ℤ ce be then ce else be) x' w' × (w' < 2 ^ 16)
unfolding shrink
shrink-Ends cx ce bx be bw hw e hc h k = elim (Bool-cases (ltb_ℤ bx cx)) [
  | inl left ↦
      let l : bx <ℤ cx = ground arith in
      let front = cut_lem bw cx bx hw (omega arith) (omega arith) in
      elim (Bool-cases (ltb_ℤ ce be)) [
        | inl right ↦
            let r : ce <ℤ be = ground arith in
            let back =
              cut_lem (sub_u16 bw (sub_int32 cx bx)) be ce (omega (arith, front)) (omega arith)
                (omega (arith, front)) in
            rw (left, right) ((refl, omega (arith, front, back)), omega (arith, front, back))
        | inr right ↦ rw (left, right) ((refl, omega (arith, front)), omega (arith, front))
      ]
  | inr left ↦ elim (Bool-cases (ltb_ℤ ce be)) [
    | inl right ↦
        let l : cx ≤ℤ bx = ground arith in
        let r : ce <ℤ be = ground arith in
        let back = cut_lem bw be ce hw (omega arith) (omega arith) in
        rw (left, right) ((refl, omega (arith, back)), omega (arith, back))
    | inr right ↦ rw (left, right) ((refl, e), hw)
  ]
]

-- An axis of a box as the header wants it: its end is an `int32_t`.
abbrev pub IsAxis : ℤ → ℕ → Type 0
IsAxis x w = IsInt32 x × (w < 2 ^ 16) × IsInt32 (x +ℤ pos w)

Meets : ℤ → ℕ → ℤ → ℕ → ℤ → ℕ → Type 0
Meets cx cw bx bw x' w' =
    (t : ℤ) → (Inside cx (pos cw) t × Inside bx (pos bw) t) ↔ Inside x' (pos w') t

Ends-meet :
    (cx bx : ℤ) (cw bw : ℕ) (x' : ℤ) (w' : ℕ)
    → IsAxis cx cw
    → IsAxis bx bw
    → Ends
        (if ltb_ℤ bx cx then cx else bx)
        (if ltb_ℤ (cx +ℤ pos cw) (bx +ℤ pos bw) then cx +ℤ pos cw else bx +ℤ pos bw)
        x'
        w'
    → w' < 2 ^ 16
    → IsAxis x' w' × Meets cx cw bx bw x' w'
unfolding Meets
Ends-meet cx bx cw bw x' w' hc hb e small = (
  (
    ground arith,
    small,
    ground (arith, +ℤ_parts cx (pos cw), +ℤ_parts bx (pos bw), +ℤ_parts x' (pos w')),
  ),
  λ t. (
    λ h. ground (arith, +ℤ_parts cx (pos cw), +ℤ_parts bx (pos bw), +ℤ_parts x' (pos w')),
    λ h. ground (arith, +ℤ_parts cx (pos cw), +ℤ_parts bx (pos bw), +ℤ_parts x' (pos w')),
  ),
)

abbrev pub IsBox : Box → Type 0
IsBox b = IsAxis b.x b.width × IsAxis b.y b.height

-- A pixel of a box.
abbrev pub InBox : Box → ℤ → ℤ → Type 0
InBox b px py = Inside b.x (pos b.width) px × Inside b.y (pos b.height) py

-- What the header promises: `false`, an untouched box and no pixel in common; or `true` and a box
-- of exactly the pixels in common.
abbrev pub Clipped : Box → Box → Bool × Box → Type 0
Clipped clip_area box (hit, box') =
    (hit ≡ false) × (box' ≡ box) × ((px py : ℤ) → ¬ (InBox clip_area px py × InBox box px py))
    ⊎ (hit ≡ true)
      × IsBox box'
      × ((px py : ℤ) → (InBox clip_area px py × InBox box px py) ↔ InBox box' px py)

-- The two axes overlap, and neither box is empty.
abbrev AxisMeets : ℤ → ℕ → ℤ → ℕ → Type 0
AxisMeets cx cw bx bw = (0 < cw) × (0 < bw) × (bx <ℤ cx +ℤ pos cw) × (cx <ℤ bx +ℤ pos bw)

axis_test : ℤ → ℕ → ℤ → ℕ → Bool
axis_test cx cw bx bw = ltb 0 cw && ltb 0 bw && ltb_ℤ bx (cx +ℤ pos cw) && ltb_ℤ cx (bx +ℤ pos bw)

axis_apart :
    (cx : ℤ) (cw : ℕ) (bx : ℤ) (bw : ℕ)
    → axis_test cx cw bx bw ≡ false
    → (t : ℤ) → ¬ (Inside cx (pos cw) t × Inside bx (pos bw) t)
unfolding axis_test
axis_apart cx cw bx bw e t h = ground (arith, +ℤ_parts cx (pos cw), +ℤ_parts bx (pos bw))

axis_meets :
    (cx : ℤ) (cw : ℕ) (bx : ℤ) (bw : ℕ) → axis_test cx cw bx bw ≡ true → AxisMeets cx cw bx bw
unfolding axis_test
axis_meets cx cw bx bw e = ground arith

leb-not : (a b : ℕ) → leb a b ≡ not (ltb b a)
leb-not a b = ground arith

eq_zero-not : (n : ℕ) → (n == 0) ≡ not (ltb 0 n)
eq_zero-not n = ground arith

-- The row of early returns, as one test for each axis.
ladder :
    {A : Type 0} (cw ch bw bh p q r s : Bool) (miss hit : A)
    → (if not cw || not ch || not bw || not bh
        then miss
        else if not p
        then miss
        else if not q
        then miss
        else if not r
        then miss
        else if not s
        then miss
        else hit)
      ≡ (if (cw && bw && p && q) && (ch && bh && r && s) then hit else miss)
ladder false ch bw bh p q r s miss hit = refl
ladder true ch false bh p q r s miss hit = ground arith
ladder true false true bh p q r s miss hit = ground arith
ladder true true true false p q r s miss hit = ground arith
ladder true true true true false q r s miss hit = refl
ladder true true true true true false r s miss hit = refl
ladder true true true true true true false s miss hit = refl
ladder true true true true true true true false miss hit = refl
ladder true true true true true true true true miss hit = refl

-- On boxes whose ends do not overflow `gfx_clip` tests each axis, and cuts each axis.
gfx_clip_axes :
    (c b : Box)
    → IsBox c
    → IsBox b
    → gfx_clip c b ≡ (
        if axis_test c.x c.width b.x b.width && axis_test c.y c.height b.y b.height
        then (
          true,
          record {
            x = (shrink c.x (c.x +ℤ pos c.width) b.x (b.x +ℤ pos b.width) b.width).0;
            y = (shrink c.y (c.y +ℤ pos c.height) b.y (b.y +ℤ pos b.height) b.height).0;
            width = (shrink c.x (c.x +ℤ pos c.width) b.x (b.x +ℤ pos b.width) b.width).1;
            height = (shrink c.y (c.y +ℤ pos c.height) b.y (b.y +ℤ pos b.height) b.height).1;
          },
        )
        else (false, b))
unfolding gfx_clip axis_test
gfx_clip_axes c b hc hb =
    rw
      (
        wrap32_self (c.x +ℤ pos c.width) (hc.0.2),
        wrap32_self (b.x +ℤ pos b.width) (hb.0.2),
        wrap32_self (c.y +ℤ pos c.height) (hc.1.2),
        wrap32_self (b.y +ℤ pos b.height) (hb.1.2),
        eq_zero-not c.width,
        eq_zero-not c.height,
        eq_zero-not b.width,
        eq_zero-not b.height,
        leb-not (pos_part (c.x +ℤ pos c.width) + neg_part b.x),
        leb-not (pos_part (b.x +ℤ pos b.width) + neg_part c.x),
        leb-not (pos_part (c.y +ℤ pos c.height) + neg_part b.y),
        leb-not (pos_part (b.y +ℤ pos b.height) + neg_part c.y),
      )
      (ladder (ltb 0 c.width) (ltb 0 c.height) (ltb 0 b.width) (ltb 0 b.height)
        (ltb_ℤ b.x (c.x +ℤ pos c.width)) (ltb_ℤ c.x (b.x +ℤ pos b.width))
        (ltb_ℤ b.y (c.y +ℤ pos c.height)) (ltb_ℤ c.y (b.y +ℤ pos b.height)) (false, b) _)

cut-IsAxis :
    (cx : ℤ) (cw : ℕ) (bx : ℤ) (bw : ℕ)
    → IsAxis cx cw
    → IsAxis bx bw
    → axis_test cx cw bx bw ≡ true
    → let (x', w') = shrink cx (cx +ℤ pos cw) bx (bx +ℤ pos bw) bw in
      IsAxis x' w' × Meets cx cw bx bw x' w'
cut-IsAxis cx cw bx bw hc hb e =
    let (hcw, hbw, h, k) = axis_meets cx cw bx bw e in
    let (ends, small) =
      shrink-Ends cx (cx +ℤ pos cw) bx (bx +ℤ pos bw) bw hb.1 (omega (arith, +ℤ_parts bx (pos bw)))
        (omega (arith, +ℤ_parts cx (pos cw))) h k in
    Ends-meet cx bx cw bw (shrink cx (cx +ℤ pos cw) bx (bx +ℤ pos bw) bw).0
      (shrink cx (cx +ℤ pos cw) bx (bx +ℤ pos bw) bw).1 hc hb ends small

-- `gfx_clip` on boxes whose ends fit an `int32_t`.
pub gfx_clip_lem : (c b : Box) → IsBox c → IsBox b → Clipped c b (gfx_clip c b)
unfolding Meets
gfx_clip_lem c b hc hb =
    rw (gfx_clip_axes c b hc hb) (elim (Bool-cases (axis_test c.x c.width b.x b.width)) [
      | inr apart ↦
          rw apart (
            inl (refl, refl, λ px py h. axis_apart c.x c.width b.x b.width apart px (h.0.0, h.1.0)))
      | inl x_meets ↦ elim (Bool-cases (axis_test c.y c.height b.y b.height)) [
        | inr apart ↦
            rw (x_meets, apart)
              (inl (
                refl,
                refl,
                λ px py h. axis_apart c.y c.height b.y b.height apart py (h.0.1, h.1.1),
              ))
        | inl y_meets ↦
            let (ax, mx) = cut-IsAxis c.x c.width b.x b.width hc.0 hb.0 x_meets in
            let (ay, my) = cut-IsAxis c.y c.height b.y b.height hc.1 hb.1 y_meets in
            rw (x_meets, y_meets)
              (inr (
                refl,
                (ax, ay),
                λ px py. (
                  λ h. ((mx px).0 (h.0.0, h.1.0), (my py).0 (h.0.1, h.1.1)),
                  λ h.
                      let (cx, bx) = (mx px).1 h.0 in
                      let (cy, by) = (my py).1 h.1 in ((cx, cy), (bx, by)),
                ),
              ))
      ]
    ])

-- What `gfx_clip_with_buffer` promises: as `Clipped`, for the pixels of the buffer that lie in the
-- clip area, if there is one.
abbrev pub InArea : Option Box → ℤ → ℤ → Type 0
InArea none px py = Unit
InArea (some c) px py = InBox c px py

abbrev pub IsArea : Option Box → Type 0
IsArea none = Unit
IsArea (some c) = IsBox c

abbrev pub buffer_box : ℕ → ℕ → Box
buffer_box width height = record { x = pos 0; y = pos 0; width = width; height = height }

abbrev pub ClippedInBuffer : ℕ → ℕ → Option Box → Box → Bool × Box → Type 0
ClippedInBuffer width height area box (hit, box') =
    (hit ≡ false)
      × (box' ≡ box)
      × ((px py : ℤ)
          → ¬ (InArea area px py × InBox (buffer_box width height) px py × InBox box px py))
    ⊎ (hit ≡ true)
      × ((px py : ℤ)
          → (InArea area px py × InBox (buffer_box width height) px py × InBox box px py)
            ↔ InBox box' px py)

buffer-IsBox :
    (width height : ℕ) → width < 2 ^ 16 → height < 2 ^ 16 → IsBox (buffer_box width height)
buffer-IsBox width height hw hh =
    omega (arith, +ℤ_parts (pos 0) (pos width), +ℤ_parts (pos 0) (pos height))

-- For a buffer with sides below 2^16, a box and a clip area whose edges are 32-bit integers, the area
-- perhaps absent or reaching over the buffer's edges, `gfx_clip_with_buffer` leaves exactly the
-- pixels of the box that are in the buffer and in the area, and says `false` if there are none.
pub gfx_clip_with_buffer_lem :
    (width height : ℕ) (area : Option Box) (box : Box)
    → width < 2 ^ 16
    → height < 2 ^ 16
    → IsArea area
    → IsBox box
    → ClippedInBuffer width height area box (gfx_clip_with_buffer width height area box)
unfolding gfx_clip_with_buffer
gfx_clip_with_buffer_lem width height none box hw hh ha hb =
    elim (gfx_clip_lem (buffer_box width height) box (buffer-IsBox width height hw hh) hb) [
      | inl (e, same, apart) ↦ inl (e, same, λ px py h. apart px py (h.1, h.2))
      | inr (e, _, meets) ↦ inr (
        e,
        λ px py. (
          λ h. (meets px py).0 (h.1, h.2),
          λ h. (tt, ((meets px py).1 h).0, ((meets px py).1 h).1),
        ),
      )
    ]
gfx_clip_with_buffer_lem width height (some c) box hw hh ha hb =
    elim (gfx_clip_lem c (buffer_box width height) ha (buffer-IsBox width height hw hh)) [
      | inl (e, same, apart) ↦ rw e (inl (refl, refl, λ px py h. apart px py (h.0, h.1)))
      | inr (e, valid, meets) ↦
          rw e (elim (gfx_clip_lem (gfx_clip c (buffer_box width height)).1 box valid hb) [
            | inl (e', same, apart) ↦
                inl (e', same, λ px py h. apart px py ((meets px py).0 (h.0, h.1), h.2))
            | inr (e', _, meets') ↦ inr (
              e',
              λ px py. (
                λ h. (meets' px py).0 ((meets px py).0 (h.0, h.1), h.2),
                λ h.
                    let (inner, outer) = (meets' px py).1 h in
                    let (a, b) = (meets px py).1 inner in (a, b, outer),
              ),
            )
          ])
    ]
