-- ===== src/Geometry/Clip.antt =====
-- `gfx_clip` and `gfx_clip_with_buffer` of s_gfx/src/gfx.c: a box cut to another one.
pub mod Laws
use fern_os.Prelude.{
  ℕ, ◌-◌, ◌%◌, ◌^◌, Bool, true, false, Option, none, some, ◌||◌, ◌==◌, if◌then◌else◌,
}
use fern_os.Prelude.Int.{ℤ, pos, negsuc, ◌+ℤ◌, ◌-ℤ◌, ltb_ℤ, leb_ℤ, wrap32}
use fern_os.Geometry.Interval.{add_int32, sub_int32}

-- `gfx_box_t`: the corner is a pair of `int32_t`, the size a pair of `uint16_t`.
pub record Box : Type 0 where
  pub x : ℤ
  pub y : ℤ
  pub width : ℕ
  pub height : ℕ

-- `w -= d` on a `uint16_t`: the difference is an `int`, cut to 16 bits.
pub sub_u16 : ℕ → ℤ → ℕ
sub_u16 w d = elim (pos w -ℤ d) [ pos n ↦ n % 2 ^ 16 | negsuc n ↦ 2 ^ 16 - 1 - n % 2 ^ 16 ]

-- What the last part of `gfx_clip` does on one axis: the corner and the size after the cuts at
-- both ends.
pub shrink : ℤ → ℤ → ℤ → ℤ → ℕ → ℤ × ℕ
shrink clip_x clip_x_bound box_x box_x_bound width =
    let left = ltb_ℤ box_x clip_x in
    let width' = if left then sub_u16 width (sub_int32 clip_x box_x) else width in
    (
      if left then clip_x else box_x,
      if ltb_ℤ clip_x_bound box_x_bound
          then sub_u16 width' (sub_int32 box_x_bound clip_x_bound)
          else width',
    )

pub gfx_clip : Box → Box → Bool × Box
gfx_clip clip_area box =
    let clip_x_bound = add_int32 clip_area.x (pos clip_area.width) in
    let box_x_bound = add_int32 box.x (pos box.width) in
    let clip_y_bound = add_int32 clip_area.y (pos clip_area.height) in
    let box_y_bound = add_int32 box.y (pos box.height) in
    let (x', width') = shrink clip_area.x clip_x_bound box.x box_x_bound box.width in
    let (y', height') = shrink clip_area.y clip_y_bound box.y box_y_bound box.height in
    if clip_area.width == 0 || clip_area.height == 0 || box.width == 0 || box.height == 0
    then (false, box)
    else if leb_ℤ clip_x_bound box.x
    then (false, box)
    else if leb_ℤ box_x_bound clip_area.x
    then (false, box)
    else if leb_ℤ clip_y_bound box.y
    then (false, box)
    else if leb_ℤ box_y_bound clip_area.y
    then (false, box)
    else (true, record { x = x'; y = y'; width = width'; height = height' })

-- `gfx_clip_with_buffer` for a buffer of `width` times `height` pixels; `none` is a NULL clip area.
pub gfx_clip_with_buffer : ℕ → ℕ → Option Box → Box → Bool × Box
gfx_clip_with_buffer width height none box =
    gfx_clip (record { x = pos 0; y = pos 0; width = width; height = height }) box
gfx_clip_with_buffer width height (some clip_area) box =
    let buffer_box : Box = record { x = pos 0; y = pos 0; width = width; height = height } in
    let (hit, buffer_box') = gfx_clip clip_area buffer_box in
    let out = gfx_clip buffer_box' box in if hit then out else (false, box)
