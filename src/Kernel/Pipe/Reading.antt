-- ===== src/Kernel/Pipe/Reading.antt =====
-- The copies of `pipe_hs_read` give the user the oldest bytes of the pipe.
use fern_os.Prelude.{
  ℕ, ◌+◌, ◌-◌, ◌^◌, ◌≤◌, ◌<◌, ◌≡◌, refl, ap, ap₂, sym, ◌∙◌, Bool, true, false, ◌&&◌, List, ◌++◌,
  arith, length, take-take, subst, take, drop, ◌==◌, if◌then◌else◌,
}
use fern_os.Err.{Err, success, no_mem}
use fern_os.FixedQueue.Window.{window, slot, length-window}
use fern_os.Kernel.UserMem.{UserMem, m_4k}
use fern_os.Kernel.UserMem.Bytewise.{reachable, poke, reachable_le}
use fern_os.Kernel.UserMem.To.{mem_cpy_to_user-poke}
use fern_os.Kernel.Pipe.{Pipe, occupied_bytes, copy_out}
use fern_os.Kernel.Pipe.Content.{IsValid, contents, window-add, window-flat}

abbrev pub with_start : Pipe → ℕ → Pipe
with_start p i = record p { i = i }

-- What a read of `amt` bytes has done: as many of the oldest bytes as fit before the first address
-- that cannot be reached have moved to the user, in order, and it succeeds if these are all.
abbrev pub ReadOut : UserMem → ℕ → ℕ → Pipe → Err × ℕ × Pipe × UserMem → Type 0
ReadOut um u_dest amt p (err, n, p', um') =
    (n ≡ reachable um u_dest amt)
    × (err ≡ (if n == amt then success else no_mem))
    × ((out : List ℕ) × (contents p ≡ out ++ contents p')
        × (length out ≡ n)
        × (um' ≡ poke um u_dest out))
    × IsValid p'
    × (with_start p p'.i ≡ p')

-- The pipe after one copy of `n` bytes.
abbrev pulled : Pipe → ℕ → Bool → Pipe
pulled p n wrap = let i = p.i + n in with_start p (if wrap && (i == p.cap) then 0 else i)

pulled_lem :
    (p : Pipe) (n : ℕ) (wrap : Bool)
    → IsValid p
    → n ≤ occupied_bytes p
    → p.i + n ≤ p.cap
    → (p.i + n ≡ p.cap → wrap ≡ true)
    → ((pulled p n wrap).i ≡ slot p.cap p.i n)
      × (occupied_bytes (pulled p n wrap) ≡ occupied_bytes p - n)
      × (slot p.cap p.i n < p.cap)
pulled_lem p n true v room fits wraps = (
  ground (arith, v.end_in, v.start_in),
  ground (arith, v.end_in, v.start_in),
  ground (arith, v.start_in),
)
pulled_lem p n false v room fits wraps =
    (ground (arith, wraps), ground (arith, v.end_in, v.start_in, wraps), ground (arith, v.start_in))

pub copy_out_lem :
    (um : UserMem) (p : Pipe) (u_dest amt : ℕ) (wrap : Bool)
    → IsValid p
    → 0 < u_dest
    → u_dest + amt ≤ 2 ^ 32 - m_4k
    → amt ≤ occupied_bytes p
    → p.i + amt ≤ p.cap
    → (p.i + amt ≡ p.cap → wrap ≡ true)
    → ReadOut um u_dest amt p (copy_out um p u_dest amt wrap)
unfolding copy_out
copy_out_lem um p u_dest amt wrap v pos lim room fits wraps =
    let chunk = take amt (drop p.i p.buf) in
    let flat : chunk ≡ window p.buf p.cap p.i amt =
      window-flat p.buf p.cap p.i amt v.storage fits in
    let len : length chunk ≡ amt = ap length flat ∙ length-window p.buf p.cap p.i amt in
    let n = reachable um u_dest amt in
    let le = reachable_le um u_dest amt in
    let inside : occupied_bytes p < p.cap = ground (arith, v.end_in, v.start_in) in
    let (at, occ, slot_in) =
      pulled_lem p n wrap v (omega arith) (omega arith) (λ e. wraps (omega arith)) in
    let out = take n chunk in
    let out_is : out ≡ window p.buf p.cap p.i n =
      take-take n amt (drop p.i p.buf) le ∙ window-flat p.buf p.cap p.i n v.storage (omega arith) in
    let total : n + (occupied_bytes p - n) ≡ occupied_bytes p = omega arith in
    let split : contents p ≡ out ++ contents (pulled p n wrap) =
      ap (λ k. window p.buf p.cap p.i k) (sym total)
      ∙ window-add p.buf p.cap p.i n (occupied_bytes p - n) v.start_in (omega arith)
      ∙ ap₂ (λ l k. l ++ window p.buf p.cap k (occupied_bytes p - n)) (sym out_is) (sym at)
      ∙ ap (λ k. out ++ window p.buf p.cap (pulled p n wrap).i k) (sym occ) in
    let v' : IsValid (pulled p n wrap) = record {
      storage = v.storage;
      start_in = subst (λ k. k < p.cap) (sym at) slot_in;
      end_in = v.end_in;
    } in
    rw (mem_cpy_to_user-poke um u_dest chunk pos (omega (arith, len)), len)
      (refl, refl, (out, split, ap length out_is ∙ length-window p.buf p.cap p.i n, refl), v', refl)
