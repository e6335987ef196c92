-- ===== src/Kernel/Pipe/Draining.antt =====
-- The two copies of `pipe_hs_read` are one read.
use fern_os.Prelude.{
  ℕ, ◌+◌, ◌-◌, ◌%◌, ◌^◌, ◌≤◌, ◌<◌, min, ◌≡◌, ◌⊎◌, inl, inr, refl, ap, ap₂, sym, ◌∙◌, Bool,
  Bool-cases, true, false, [], ◌++◌, append_assoc, arith, length, length-append, subst, ltb, ◌==◌,
  if◌then◌else◌,
}
use fern_os.Err.{Err, success, no_mem, is_success}
use fern_os.Kernel.UserMem.{UserMem, m_4k}
use fern_os.Kernel.UserMem.Bytewise.{reachable, poke, reachable_le, reachable-more, reachable-stop}
use fern_os.Kernel.UserMem.To.{poke-append, reachable-poke}
use fern_os.Kernel.Pipe.{Pipe, occupied_bytes, copy_out, read_rest, read_bytes}
use fern_os.Kernel.Pipe.Content.{IsValid, contents, length-contents}
use fern_os.Kernel.Pipe.Reading.{with_start, ReadOut, copy_out_lem}

ReadOut-none :
    (um : UserMem) (u_dest : ℕ) (p : Pipe) → IsValid p → ReadOut um u_dest 0 p (success, 0, p, um)
ReadOut-none um u_dest p v = (refl, refl, ([], refl, refl, refl), v, refl)

ReadOut-stop :
    (um : UserMem) (u_dest a b : ℕ) (p : Pipe) (out : Err × ℕ × Pipe × UserMem)
    → out.1 < a
    → a ≤ b
    → ReadOut um u_dest a p out
    → ReadOut um u_dest b p out
ReadOut-stop um u_dest a b p (err, n, p', um') lt le (n_is, err_is, c, v, frame) =
    let split : a + (b - a) ≡ b = omega arith in
    (
      n_is
          ∙ sym (reachable-stop um u_dest a (b - a) (omega (arith, n_is, lt)))
          ∙ ap (λ k. reachable um u_dest k) split,
      err_is ∙ ground (arith, lt),
      c,
      v,
      frame,
    )

ReadOut-then :
    (um um1 um2 : UserMem) (u_dest a b m : ℕ) (p p1 p2 : Pipe) (err err' : Err)
    → ReadOut um u_dest a p (err, a, p1, um1)
    → ReadOut um1 (u_dest + a) b p1 (err', m, p2, um2)
    → ReadOut um u_dest (a + b) p (err', a + m, p2, um2)
ReadOut-then um um1 um2 u_dest a b m p p1 p2 err err' (n1, e1, (o1, c1, l1, w1), v1, f1)
      (n2, e2, (o2, c2, l2, w2), v2, f2) =
    let same : m ≡ reachable um (u_dest + a) b =
      n2 ∙ ap (λ u. reachable u (u_dest + a) b) w1 ∙ reachable-poke um u_dest o1 (u_dest + a) b in
    (
      ap (λ k. a + k) same ∙ sym (reachable-more um u_dest a b (sym n1)),
      e2 ∙ ground arith,
      (
        o1 ++ o2,
        c1 ∙ ap (λ l. o1 ++ l) c2 ∙ sym (append_assoc o1 o2 (contents p2)),
        omega (arith, length-append o1 o2, l1, l2),
        w2 ∙ ap₂ (λ u k. poke u (u_dest + k) o2) w1 (sym l1) ∙ sym (poke-append um u_dest o1 o2),
      ),
      v2,
      ap (λ q. with_start q p2.i) f1 ∙ f2,
    )

read_rest-more :
    (um : UserMem) (u_dest b n : ℕ) (p1 : Pipe)
    → u_dest + n < 2 ^ 32
    → n < b
    → let (err', more, p2, um2) = copy_out um p1 (u_dest + n) (b - n) false in
      read_rest u_dest b (success, n, p1, um) ≡ (err', n + more, p2, um2)
unfolding read_rest
read_rest-more um u_dest b n p1 lim lt =
    let w : (u_dest + n) % 2 ^ 32 ≡ u_dest + n = omega arith in
    let t : ltb 0 (b - n) ≡ true = ground arith in rw (w, t) refl

read_rest-done :
    (um : UserMem) (u_dest b n : ℕ) (p1 : Pipe) (err : Err)
    → (err ≡ no_mem) ⊎ (b ≤ n)
    → read_rest u_dest b (err, n, p1, um) ≡ (err, n, p1, um)
unfolding read_rest
read_rest-done um u_dest b n p1 err (inl e) = rw e refl
read_rest-done um u_dest b n p1 err (inr le) =
    let t : ltb 0 (b - n) ≡ false = ground arith in
    elim (Bool-cases (is_success err)) [ inl h ↦ rw (h, t) refl | inr h ↦ rw h refl ]

read_rest_lem :
    (um um1 : UserMem) (u_dest a b n : ℕ) (p p1 : Pipe) (err : Err)
    → 0 < u_dest
    → u_dest + b ≤ 2 ^ 32 - m_4k
    → a ≤ b
    → (n ≡ a → a < b → (b - a ≤ occupied_bytes p1) × (p1.i + (b - a) < p1.cap))
    → ReadOut um u_dest a p (err, n, p1, um1)
    → ReadOut um u_dest b p (read_rest u_dest b (err, n, p1, um1))
read_rest_lem um um1 u_dest a b n p p1 err pos lim le room (n_is, err_is, c, v, frame) =
    let most : n ≤ a = omega (arith, n_is, reachable_le um u_dest a) in
    elim (Bool-cases (n == a)) [
      | inr h ↦
          let lt : n < a = ground arith in
          subst (ReadOut um u_dest b p)
            (sym (read_rest-done um1 u_dest b n p1 err (inl (err_is ∙ ground (arith, h)))))
            (ReadOut-stop um u_dest a b p (err, n, p1, um1) lt le (n_is, err_is, c, v, frame))
      | inl h ↦
          let same : n ≡ a = ground arith in
          let ok : err ≡ success = err_is ∙ ground (arith, h) in
          elim (Bool-cases (ltb a b)) [
            | inr g ↦
                let ends : a ≡ b = ground arith in
                subst (ReadOut um u_dest b p)
                  (sym (read_rest-done um1 u_dest b n p1 err (inr (omega (arith, same, ends)))))
                  (subst (λ k. ReadOut um u_dest k p (err, n, p1, um1)) ends
                    (n_is, err_is, c, v, frame))
            | inl g ↦
                let lt : a < b = ground arith in
                let (room1, fits) = room same lt in
                let rest =
                  copy_out_lem um1 p1 (u_dest + a) (b - a) false v (omega arith) (omega arith) room1
                    (omega arith) (λ e. absurd (omega arith)) in
                let (err', more, p2, um2) = copy_out um1 p1 (u_dest + a) (b - a) false in
                let first : ReadOut um u_dest a p (success, a, p1, um1) =
                  subst (λ k. ReadOut um u_dest a p (success, k, p1, um1)) same
                    (subst (λ e. ReadOut um u_dest a p (e, n, p1, um1)) ok
                      (n_is, err_is, c, v, frame)) in
                let both =
                  ReadOut-then um um1 um2 u_dest a (b - a) more p p1 p2 success err' first rest in
                let total : a + (b - a) ≡ b = omega arith in
                let run : read_rest u_dest b (err, n, p1, um1) ≡ (err', a + more, p2, um2) =
                  ap₂ (λ e k. read_rest u_dest b (e, k, p1, um1)) ok same
                  ∙ read_rest-more um1 u_dest b a p1 (omega arith) lt in
                subst (ReadOut um u_dest b p) (sym run)
                  (subst (λ k. ReadOut um u_dest k p (err', a + more, p2, um2)) total both)
          ]
    ]

read_bytes_eq :
    (um : UserMem) (p : Pipe) (u_dest b : ℕ) (c : Bool)
    → ltb p.j p.i ≡ c
    → read_bytes um p u_dest b
      ≡ read_rest u_dest b
          (if c then copy_out um p u_dest (min (p.cap - p.i) b) true else (success, 0, p, um))
unfolding read_bytes
read_bytes_eq um p u_dest b c h =
    ap
      (λ c.
        read_rest u_dest b
          (if c then copy_out um p u_dest (min (p.cap - p.i) b) true else (success, 0, p, um)))
      h

occupied-ReadOut :
    (um um1 : UserMem) (u_dest a n : ℕ) (p p1 : Pipe) (err : Err)
    → ReadOut um u_dest a p (err, n, p1, um1)
    → occupied_bytes p ≡ n + occupied_bytes p1
occupied-ReadOut um um1 u_dest a n p p1 err (n_is, err_is, (out, c, l, w), v, frame) =
    omega (
      arith,
      length-contents p1,
      length-contents p,
      ap length c,
      length-append out (contents p1),
      l,
    )

-- After a first copy that stopped at the end of the buffer, the next byte comes from its start.
restarted :
    (p p1 : Pipe)
    → IsValid p
    → IsValid p1
    → p.j < p.i
    → with_start p p1.i ≡ p1
    → occupied_bytes p ≡ p.cap - p.i + occupied_bytes p1
    → (p1.i ≡ 0) × (p1.j ≡ p.j)
restarted p p1 v v1 le frame occ = (
  ground (arith, v.end_in, v.start_in, v1.start_in, ap (λ q. q.j) frame, ap (λ q. q.cap) frame),
  sym (ap (λ q. q.j) frame),
)

-- For a valid pipe, a destination that is not NULL and ends by the last page of the address space,
-- and no more bytes than the pipe holds, the one or two copies of `pipe_hs_read` do what one read
-- from an unbounded queue does: the oldest bytes, as many as fit before the first address that
-- cannot be reached, leave the pipe and stand at the destination in order; the count is theirs, the
-- error is `success` exactly if that is all that was asked for, and the pipe stays valid.
pub read_bytes-ReadOut :
    (um : UserMem) (p : Pipe) (u_dest bytes_to_read : ℕ)
    → IsValid p
    → 0 < u_dest
    → u_dest + bytes_to_read ≤ 2 ^ 32 - m_4k
    → bytes_to_read ≤ occupied_bytes p
    → ReadOut um u_dest bytes_to_read p (read_bytes um p u_dest bytes_to_read)
read_bytes-ReadOut um p u_dest bytes_to_read v pos lim room = elim (Bool-cases (ltb p.j p.i)) [
  | inr h ↦
      subst (ReadOut um u_dest bytes_to_read p)
        (sym (read_bytes_eq um p u_dest bytes_to_read false h))
        (read_rest_lem um um u_dest 0 bytes_to_read 0 p p success pos lim (omega arith)
          (λ _ _. (omega arith, ground (arith, v.end_in))) (ReadOut-none um u_dest p v))
  | inl h ↦
      let a = min (p.cap - p.i) bytes_to_read in
      let first =
        copy_out_lem um p u_dest a true v pos (omega arith) (omega arith)
          (omega (arith, v.start_in)) (λ e. refl) in
      let (err, n, p1, um1) = copy_out um p u_dest a true in
      let (n_is, err_is, c, v1, frame) = first in
      let occ = occupied-ReadOut um um1 u_dest a n p p1 err first in
      subst (ReadOut um u_dest bytes_to_read p)
        (sym (read_bytes_eq um p u_dest bytes_to_read true h))
        (read_rest_lem um um1 u_dest a bytes_to_read n p p1 err pos lim (omega arith)
          (λ same lt.
            let (i0, j_same) =
              restarted p p1 v v1 (ground arith) frame (omega (arith, occ, same)) in
            (
              omega (arith, occ),
              ground (arith, i0, j_same, v1.end_in, v.end_in, occ, same, ap (λ q. q.cap) frame),
            ))
          first)
]
