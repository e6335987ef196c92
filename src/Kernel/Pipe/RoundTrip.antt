-- ===== src/Kernel/Pipe/RoundTrip.antt =====
-- What is written to an empty pipe is what is read from it.
use fern_os.Prelude.{
  ℕ, ◌+◌, ◌-◌, ◌^◌, ◌≤◌, ◌<◌, ◌≡◌, refl, ap, sym, ◌∙◌, List, [], ◌∷◌, ◌++◌, append-nil, arith,
  length, length-append, ◌==◌, if◌then◌else◌,
}
use fern_os.Err.{success, no_mem}
use fern_os.Kernel.UserMem.{UserMem, m_4k}
use fern_os.Kernel.UserMem.Bytewise.{reachable, peek, poke, length-peek}
use fern_os.Kernel.Pipe.{Pipe, occupied_bytes, write_bytes, read_bytes}
use fern_os.Kernel.Pipe.Content.{IsValid, contents, length-contents}
use fern_os.Kernel.Pipe.Writing.{write_bytes-Wrote}
use fern_os.Kernel.Pipe.Draining.{read_bytes-ReadOut}

nil_of_length : (xs : List ℕ) → length xs ≡ 0 → xs ≡ []
nil_of_length [] h = refl
nil_of_length (x ∷ xs) h = absurd (omega (arith, h))

all_done : (a n : ℕ) → a ≡ n → (if a == n then success else no_mem) ≡ success
all_done a n h = ground (arith, h)

-- For an empty valid pipe, `n` bytes fewer than its capacity, a source and a destination that can be
-- reached and end by the last page of the address space: writing the `n` bytes and then reading `n`
-- both succeed, copy all, leave the bytes of the source at the destination in order and nothing
-- else changed in the user's memory, and leave the pipe empty and valid.
pub read_bytes-write_bytes :
    (um : UserMem) (p : Pipe) (u_src u_dest n : ℕ)
    → IsValid p
    → contents p ≡ []
    → n < p.cap
    → 0 < u_src
    → u_src + n ≤ 2 ^ 32 - m_4k
    → reachable um u_src n ≡ n
    → 0 < u_dest
    → u_dest + n ≤ 2 ^ 32 - m_4k
    → reachable um u_dest n ≡ n
    → let (err, written, p1) = write_bytes um p u_src n in
      let (err', readden, p2, um') = read_bytes um p1 u_dest n in
      (err ≡ success)
      × (written ≡ n)
      × (err' ≡ success)
      × (readden ≡ n)
      × (um' ≡ poke um u_dest (peek um u_src n))
      × (contents p2 ≡ [])
      × IsValid p2
read_bytes-write_bytes um p u_src u_dest n v none_yet room pos lim there pos' lim' there' =
    let drained : occupied_bytes p ≡ 0 = sym (length-contents p) ∙ ap length none_yet in
    let (err, written, p1) = write_bytes um p u_src n in
    let (written_is, err_is, c, v1, frame) =
      write_bytes-Wrote um p u_src n v pos lim (omega (arith, drained)) in
    let w : written ≡ n = written_is ∙ there in
    let held : contents p1 ≡ peek um u_src n =
      c ∙ ap (λ l. l ++ peek um u_src written) none_yet ∙ ap (λ k. peek um u_src k) w in
    let occ : occupied_bytes p1 ≡ n =
      sym (length-contents p1) ∙ ap length held ∙ length-peek um u_src n in
    let (err', readden, p2, um') = read_bytes um p1 u_dest n in
    let (readden_is, err'_is, moved, v2, _) =
      read_bytes-ReadOut um p1 u_dest n v1 pos' lim' (omega (arith, occ)) in
    let (out, split, len, mem_is) = moved in
    let r : readden ≡ n = readden_is ∙ there' in
    let gone : contents p2 ≡ [] = nil_of_length (contents p2) (
      omega (
        arith,
        ap length split,
        length-append out (contents p2),
        len,
        r,
        ap length held,
        length-peek um u_src n,
      )) in
    let all : out ≡ peek um u_src n =
      sym (append-nil out) ∙ ap (λ l. out ++ l) (sym gone) ∙ sym split ∙ held in
    (
      err_is ∙ all_done written n w,
      w,
      err'_is ∙ all_done readden n r,
      r,
      mem_is ∙ ap (λ l. poke um u_dest l) all,
      gone,
      v2,
    )
