-- ===== src/Rand/Tests.antt =====
-- Random numbers from a concrete seed.
use fern_os.Prelude.{◌<◌, ◌^◌, arith}
use fern_os.Rand.{rand, rand_bits, rand_bits-bounds}

rand_bits-bounds_example :
    let (val, r) = rand_bits 32 0 (rand 0) in (0 < rand 0) × (val < 2 ^ 32) × (0 < r) × (r < 2 ^ 64)
rand_bits-bounds_example = rand_bits-bounds 32 0 (omega arith)
