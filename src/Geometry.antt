-- ===== src/Geometry.antt =====
-- Intervals and boxes of pixels: `intervals_overlap` of s_util/src/misc.c, and the clipping of
-- s_gfx/src/gfx.c.
pub mod Interval
pub mod Clip
mod Tests
