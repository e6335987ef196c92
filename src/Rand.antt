-- ===== src/Rand.antt =====
-- s_util/src/rand.c: a 64-bit shift register with feedback.
pub mod Tests
use fern_os.Prelude.{
  ℕ, zero, suc, ◌+◌, ◌*◌, ◌/◌, ◌%◌, ◌^◌, ◌<◌, ◌≤◌, ◌≡◌, arith, subst, ◌==◌, if◌then◌else◌,
}

abbrev pub rand : ℕ → ℕ
rand seed = if seed == 0 then 0xAABB1234FFEEBACD else seed

-- `next_rand_u1`: the bit that is shifted out, and the register. The lowest bit of an exclusive or is
-- that of the sum.
pub next_rand_u1 : ℕ → ℕ × ℕ
next_rand_u1 old_val =
    let new_bit = (old_val / 2 ^ 63 + old_val / 2 ^ 62 + old_val / 2 ^ 60 + old_val / 2 ^ 59) % 2 in
    (old_val / 2 ^ 63 % 2, (old_val * 2) % 2 ^ 64 + new_bit)

-- The loop of the `next_rand_u*`, with the bits still to come and the value so far.
pub rand_bits : ℕ → ℕ → ℕ → ℕ × ℕ
rand_bits zero val r = (val, r)
rand_bits (suc n) val r = let (bit, r') = next_rand_u1 r in rand_bits n (val * 2 + bit) r'

abbrev pub next_rand_u8 : ℕ → ℕ × ℕ
next_rand_u8 r = rand_bits 8 0 r

abbrev pub next_rand_u16 : ℕ → ℕ × ℕ
next_rand_u16 r = rand_bits 16 0 r

abbrev pub next_rand_u32 : ℕ → ℕ × ℕ
next_rand_u32 r = rand_bits 32 0 r

abbrev pub next_rand_u64 : ℕ → ℕ × ℕ
next_rand_u64 r = rand_bits 64 0 r

-- The register of 64 bits never becomes 0, where it would stay.
next_rand_u1-bounds :
    (r : ℕ)
    → 0 < r
    → r < 2 ^ 64
    → let (bit, r') = next_rand_u1 r in (bit < 2) × (0 < r') × (r' < 2 ^ 64)
unfolding next_rand_u1
next_rand_u1-bounds r pos lt = (omega arith, omega arith, omega arith)

rand_bits-within :
    (n val k r : ℕ)
    → val < 2 ^ k
    → 0 < r
    → r < 2 ^ 64
    → let (val', r') = rand_bits n val r in (val' < 2 ^ (k + n)) × (0 < r') × (r' < 2 ^ 64)
unfolding rand_bits
rand_bits-within zero val k r within pos lt =
    let e : k ≡ k + 0 = omega arith in (subst (λ j. val < 2 ^ j) e within, pos, lt)
rand_bits-within (suc n) val k r within pos lt =
    let (bit_lt, pos', lt') = next_rand_u1-bounds r pos lt in
    let (bit, r') = next_rand_u1 r in
    let (fits, ok, ok') =
      rand_bits-within n (val * 2 + bit) (suc k) r' (omega (arith, bit_lt)) pos' lt' in
    let e : suc k + n ≡ k + suc n = omega arith in
    (subst (λ j. (rand_bits n (val * 2 + bit) r').0 < 2 ^ j) e fits, ok, ok')

-- From a generator made with any seed of 64 bits, `n` bits make a number below 2^n, and the register
-- is again one of 64 bits that is not 0, as it is in every generator that `rand` makes.
pub rand_bits-bounds :
    (n seed : ℕ)
    → seed < 2 ^ 64
    → let (val, r) = rand_bits n 0 (rand seed) in
      (0 < rand seed) × (val < 2 ^ n) × (0 < r) × (r < 2 ^ 64)
rand_bits-bounds n seed lt =
    let pos : 0 < rand seed = ground arith in
    let e : 0 + n ≡ n = omega arith in
    let (fits, ok, ok') = rand_bits-within n 0 0 (rand seed) (omega arith) pos (ground arith) in
    (pos, subst (λ j. (rand_bits n 0 (rand seed)).0 < 2 ^ j) e fits, ok, ok')
