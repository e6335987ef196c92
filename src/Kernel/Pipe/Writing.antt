-- ===== src/Kernel/Pipe/Writing.antt =====
-- The copies of `pipe_hs_write` put the user's bytes behind those in the pipe.
use fern_os.Prelude.{
  blit, length-blit, ℕ, ◌+◌, ◌-◌, ◌%◌, ◌^◌, ◌≤◌, ◌<◌, min, ◌≡◌, ◌⊎◌, inl, inr, refl, ap, sym, ◌∙◌,
  Bool, Bool-cases, true, false, ◌&&◌, List, ◌++◌, append_assoc, append-nil, arith, length,
  length-append, subst, leb, ltb, ◌==◌, if◌then◌else◌,
}
use fern_os.Err.{Err, success, no_mem, is_success}
use fern_os.FixedQueue.Window.{window, slot}
use fern_os.Kernel.UserMem.{UserMem, m_4k}
use fern_os.Kernel.UserMem.Bytewise.{
  reachable, peek, peek-add, length-peek, reachable_le, reachable-more, reachable-stop,
}
use fern_os.Kernel.UserMem.From.{mem_cpy_from_user-peek}
use fern_os.Kernel.Pipe.{Pipe, occupied_bytes, copy_in, write_rest, write_bytes}
use fern_os.Kernel.Pipe.Content.{IsValid, contents, length-contents, window-blit}

abbrev pub with_tail : Pipe → ℕ → List ℕ → Pipe
with_tail p j buf = record p { j = j; buf = buf }

-- What a write of `amt` bytes has done to a pipe: the bytes before the first that cannot be
-- reached are behind those that the pipe held, and it succeeds if these are all.
abbrev pub Wrote : UserMem → ℕ → ℕ → Pipe → Err × ℕ × Pipe → Type 0
Wrote um u_src amt p (err, n, p') =
    (n ≡ reachable um u_src amt)
    × (err ≡ (if n == amt then success else no_mem))
    × (contents p' ≡ contents p ++ peek um u_src n)
    × IsValid p'
    × (with_tail p p'.j p'.buf ≡ p')

-- The pipe after one copy.
abbrev pushed : Pipe → List ℕ → Bool → Pipe
pushed p input wrap =
    let j = p.j + length input in
    record p { buf = blit p.buf p.j input; j = if wrap && (j == p.cap) then 0 else j }

occupied_bytes-pushed :
    (p : Pipe) (input : List ℕ) (wrap : Bool)
    → IsValid p
    → occupied_bytes p + length input < p.cap
    → p.j + length input ≤ p.cap
    → (p.j + length input ≡ p.cap → wrap ≡ true)
    → (occupied_bytes (pushed p input wrap) ≡ occupied_bytes p + length input)
      × (pushed p input wrap).j < p.cap
occupied_bytes-pushed p input true v room fits wraps =
    (ground (arith, v.end_in, v.start_in), ground (arith, v.end_in))
occupied_bytes-pushed p input false v room fits wraps =
    (ground (arith, v.end_in, v.start_in), ground (arith, wraps))

pushed_lem :
    (p : Pipe) (input : List ℕ) (wrap : Bool)
    → IsValid p
    → occupied_bytes p + length input < p.cap
    → p.j + length input ≤ p.cap
    → (p.j + length input ≡ p.cap → wrap ≡ true)
    → (contents (pushed p input wrap) ≡ contents p ++ input) × IsValid (pushed p input wrap)
pushed_lem p input wrap v room fits wraps =
    let (o, j_in) = occupied_bytes-pushed p input wrap v room fits wraps in
    let at : p.j ≡ slot p.cap p.i (occupied_bytes p) = ground (arith, v.end_in, v.start_in) in
    (
      ap (λ k. window (blit p.buf p.j input) p.cap p.i k) o
          ∙ window-blit p.buf p.cap p.i (occupied_bytes p) p.j input (omega (arith, v.storage))
              v.start_in (omega arith) fits at,
      record {
        storage = length-blit p.buf p.j input ∙ v.storage;
        start_in = v.start_in;
        end_in = j_in;
      },
    )

copy_in_lem :
    (um : UserMem) (p : Pipe) (u_src amt : ℕ) (wrap : Bool)
    → IsValid p
    → 0 < u_src
    → u_src + amt ≤ 2 ^ 32 - m_4k
    → occupied_bytes p + amt < p.cap
    → p.j + amt ≤ p.cap
    → (p.j + amt ≡ p.cap → wrap ≡ true)
    → Wrote um u_src amt p (copy_in um p u_src amt wrap)
unfolding copy_in
copy_in_lem um p u_src amt wrap v pos lim room fits wraps =
    let n = reachable um u_src amt in
    let input = peek um u_src n in
    let len = length-peek um u_src n in
    let le = reachable_le um u_src amt in
    let (c, v') =
      pushed_lem p input wrap v (omega arith) (omega arith) (λ e. wraps (omega arith)) in
    rw (mem_cpy_from_user-peek um u_src amt pos lim) (
      len,
      ap (λ k. if k == amt then success else no_mem) (sym len),
      c ∙ ap (λ k. contents p ++ peek um u_src k) (sym len),
      v',
      refl,
    )

Wrote-none : (um : UserMem) (u_src : ℕ) (p : Pipe) → IsValid p → Wrote um u_src 0 p (success, 0, p)
Wrote-none um u_src p v = (refl, refl, sym (append-nil (contents p)), v, refl)

-- A write that stopped early is also what a longer write does.
Wrote-stop :
    (um : UserMem) (u_src a b : ℕ) (p : Pipe) (out : Err × ℕ × Pipe)
    → out.1 < a
    → a ≤ b
    → Wrote um u_src a p out
    → Wrote um u_src b p out
Wrote-stop um u_src a b p (err, n, p') lt le (n_is, err_is, c, v, frame) =
    let split : a + (b - a) ≡ b = omega arith in
    (
      n_is
          ∙ sym (reachable-stop um u_src a (b - a) (omega (arith, n_is, lt)))
          ∙ ap (λ k. reachable um u_src k) split,
      err_is ∙ ground (arith, lt),
      c,
      v,
      frame,
    )

-- A write that is complete, and one that goes on behind it, are one write.
Wrote-then :
    (um : UserMem) (u_src a b m : ℕ) (p p1 p2 : Pipe) (err err' : Err)
    → Wrote um u_src a p (err, a, p1)
    → Wrote um (u_src + a) b p1 (err', m, p2)
    → Wrote um u_src (a + b) p (err', a + m, p2)
Wrote-then um u_src a b m p p1 p2 err err' (n1, e1, c1, v1, f1) (n2, e2, c2, v2, f2) = (
  ap (λ k. a + k) n2 ∙ sym (reachable-more um u_src a b (sym n1)),
  e2 ∙ ground arith,
  c2
      ∙ ap (λ l. l ++ peek um (u_src + a) m) c1
      ∙ append_assoc (contents p) (peek um u_src a) (peek um (u_src + a) m)
      ∙ ap (λ l. contents p ++ l) (sym (peek-add um u_src a m)),
  v2,
  ap (λ q. with_tail q p2.j p2.buf) f1 ∙ f2,
)

write_rest-more :
    (um : UserMem) (u_src b n : ℕ) (p1 : Pipe)
    → u_src + n < 2 ^ 32
    → n < b
    → let (err', more, p2) = copy_in um p1 (u_src + n) (b - n) false in
      write_rest um u_src b (success, n, p1) ≡ (err', n + more, p2)
unfolding write_rest
write_rest-more um u_src b n p1 lim lt =
    let w : (u_src + n) % 2 ^ 32 ≡ u_src + n = omega arith in
    let t : ltb 0 (b - n) ≡ true = ground arith in rw (w, t) refl

write_rest-done :
    (um : UserMem) (u_src b n : ℕ) (p1 : Pipe) (err : Err)
    → (err ≡ no_mem) ⊎ (b ≤ n)
    → write_rest um u_src b (err, n, p1) ≡ (err, n, p1)
unfolding write_rest
write_rest-done um u_src b n p1 err (inl e) = rw e refl
write_rest-done um u_src b n p1 err (inr le) =
    let t : ltb 0 (b - n) ≡ false = ground arith in
    elim (Bool-cases (is_success err)) [ inl h ↦ rw (h, t) refl | inr h ↦ rw h refl ]

write_rest_lem :
    (um : UserMem) (u_src a b n : ℕ) (p p1 : Pipe) (err : Err)
    → 0 < u_src
    → u_src + b ≤ 2 ^ 32 - m_4k
    → a ≤ b
    → (n ≡ a → a < b → (occupied_bytes p1 + (b - a) < p1.cap) × (p1.j + (b - a) < p1.cap))
    → Wrote um u_src a p (err, n, p1)
    → Wrote um u_src b p (write_rest um u_src b (err, n, p1))
write_rest_lem um u_src a b n p p1 err pos lim le room (n_is, err_is, c, v, frame) =
    let most : n ≤ a = omega (arith, n_is, reachable_le um u_src a) in
    elim (Bool-cases (n == a)) [
      | inr h ↦
          let lt : n < a = ground arith in
          rw (write_rest-done um u_src b n p1 err (inl (err_is ∙ ground (arith, h))))
            (Wrote-stop um u_src a b p (err, n, p1) lt le (n_is, err_is, c, v, frame))
      | inl h ↦
          let same : n ≡ a = ground arith in
          let ok : err ≡ success = err_is ∙ ground (arith, h) in
          elim (Bool-cases (ltb a b)) [
            | inr g ↦
                let ends : a ≡ b = ground arith in
                rw (write_rest-done um u_src b n p1 err (inr (omega (arith, same, ends))))
                  (subst (λ k. Wrote um u_src k p (err, n, p1)) ends (n_is, err_is, c, v, frame))
            | inl g ↦
                let lt : a < b = ground arith in
                let (room1, fits) = room same lt in
                let rest =
                  copy_in_lem um p1 (u_src + a) (b - a) false v (omega arith) (omega arith) room1
                    (omega arith) (λ e. absurd (omega arith)) in
                let (err', more, p2) = copy_in um p1 (u_src + a) (b - a) false in
                let first : Wrote um u_src a p (success, a, p1) =
                  subst (λ k. Wrote um u_src a p (success, k, p1)) same
                    (subst (λ e. Wrote um u_src a p (e, n, p1)) ok (n_is, err_is, c, v, frame)) in
                let both = Wrote-then um u_src a (b - a) more p p1 p2 success err' first rest in
                let total : a + (b - a) ≡ b = omega arith in
                rw (ok, same, write_rest-more um u_src b a p1 (omega arith) lt)
                  (subst (λ k. Wrote um u_src k p (err', a + more, p2)) total both)
          ]
    ]

-- After a first copy that stopped at the end of the buffer, the next byte goes to its start.
wrapped :
    (p p1 : Pipe)
    → IsValid p
    → IsValid p1
    → p.i ≤ p.j
    → with_tail p p1.j p1.buf ≡ p1
    → occupied_bytes p1 ≡ occupied_bytes p + (p.cap - p.j)
    → p1.j ≡ 0
wrapped p p1 v v1 le frame occ =
    ground (arith, v.end_in, v.start_in, v1.end_in, ap (λ q. q.i) frame, ap (λ q. q.cap) frame)

write_bytes_eq :
    (um : UserMem) (p : Pipe) (u_src b : ℕ) (c : Bool)
    → leb p.i p.j ≡ c
    → write_bytes um p u_src b
      ≡ write_rest um u_src b
          (if c then copy_in um p u_src (min b (p.cap - p.j)) true else (success, 0, p))
unfolding write_bytes
write_bytes_eq um p u_src b c h =
    ap
      (λ c.
        write_rest um u_src b
          (if c then copy_in um p u_src (min b (p.cap - p.j)) true else (success, 0, p)))
      h

occupied-Wrote :
    (um : UserMem) (u_src a n : ℕ) (p p1 : Pipe) (err : Err)
    → Wrote um u_src a p (err, n, p1)
    → occupied_bytes p1 ≡ occupied_bytes p + n
occupied-Wrote um u_src a n p p1 err (n_is, err_is, c, v, frame) = omega (
  arith,
  length-contents p1,
  length-contents p,
  ap length c,
  length-append (contents p) (peek um u_src n),
  length-peek um u_src n,
)

-- For a valid pipe, a source that is not NULL and ends by the last page of the address space, and
-- no more bytes than there is room for, the one or two copies of `pipe_hs_write` do what one write
-- to an unbounded queue does: the bytes before the first unreachable one are appended, in order,
-- the count is theirs, the error is `success` exactly if that is all, and the pipe stays valid.
pub write_bytes-Wrote :
    (um : UserMem) (p : Pipe) (u_src bytes_to_write : ℕ)
    → IsValid p
    → 0 < u_src
    → u_src + bytes_to_write ≤ 2 ^ 32 - m_4k
    → occupied_bytes p + bytes_to_write < p.cap
    → Wrote um u_src bytes_to_write p (write_bytes um p u_src bytes_to_write)
write_bytes-Wrote um p u_src bytes_to_write v pos lim room = elim (Bool-cases (leb p.i p.j)) [
  | inr h ↦
      subst (Wrote um u_src bytes_to_write p)
        (sym (write_bytes_eq um p u_src bytes_to_write false h))
        (write_rest_lem um u_src 0 bytes_to_write 0 p p success pos lim (omega arith)
          (λ _ _. (omega arith, ground (arith, v.start_in))) (Wrote-none um u_src p v))
  | inl h ↦
      let a = min bytes_to_write (p.cap - p.j) in
      let first =
        copy_in_lem um p u_src a true v pos (omega arith) (omega arith) (omega (arith, v.end_in))
          (λ e. refl) in
      let (err, n, p1) = copy_in um p u_src a true in
      let (n_is, err_is, c, v1, frame) = first in
      let occ = occupied-Wrote um u_src a n p p1 err first in
      subst (Wrote um u_src bytes_to_write p)
        (sym (write_bytes_eq um p u_src bytes_to_write true h))
        (write_rest_lem um u_src a bytes_to_write n p p1 err pos lim (omega arith)
          (λ same lt.
            let j0 = wrapped p p1 v v1 (ground arith) frame (omega (arith, occ, same)) in
            (omega (arith, occ, ap (λ q. q.cap) frame), ground (arith, j0, ap (λ q. q.cap) frame)))
          first)
]
