-- ===== src/Geometry/Tests.antt =====
-- Intervals and boxes at concrete inputs.
use fern_os.Prelude.{◌-◌, ◌^◌, some, arith}
use fern_os.Prelude.Int.{pos, negsuc, +ℤ_parts}
use fern_os.Geometry.Interval.{intervals_overlap, Overlap, intervals_overlap_lem}
use fern_os.Geometry.Clip.{Box, gfx_clip_with_buffer}
use fern_os.Geometry.Clip.Laws.{IsBox, ClippedInBuffer, gfx_clip_with_buffer_lem}

-- An interval whose end overflows.
intervals_overlap_lem_example :
    Overlap
      (pos 5)
      (pos (2 ^ 31 - 1))
      (pos 100)
      (intervals_overlap (pos 5) (pos (2 ^ 31 - 1)) (pos 100))
intervals_overlap_lem_example =
    intervals_overlap_lem (pos 5) (pos (2 ^ 31 - 1)) (pos 100) (omega arith) (omega arith)
      (omega arith)

-- A box that reaches over the left edge of the clip area.
abbrev area : Box
area = record { x = pos 2; y = pos 3; width = 10; height = 20 }

abbrev box : Box
box = record { x = negsuc 4; y = pos 5; width = 9; height = 30 }

area-IsBox : IsBox area
area-IsBox = omega (arith, +ℤ_parts (pos 2) (pos 10), +ℤ_parts (pos 3) (pos 20))

box-IsBox : IsBox box
box-IsBox = omega (arith, +ℤ_parts (negsuc 4) (pos 9), +ℤ_parts (pos 5) (pos 30))

gfx_clip_with_buffer_lem_example :
    ClippedInBuffer 8 8 (some area) box (gfx_clip_with_buffer 8 8 (some area) box)
gfx_clip_with_buffer_lem_example =
    gfx_clip_with_buffer_lem 8 8 (some area) box (omega arith) (omega arith) area-IsBox box-IsBox
