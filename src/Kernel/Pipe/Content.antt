-- ===== src/Kernel/Pipe/Content.antt =====
-- What a pipe holds, and what a write to its buffer adds to it.
use fern_os.Prelude.{
  ℕ, zero, suc, ◌+◌, ◌≤◌, ◌<◌, ◌≡◌, refl, ap, sym, ◌∙◌, List, [], ◌∷◌, ◌++◌, append_assoc,
  append-nil, arith, length, length-set, drop-cons, blit, set, take, drop, get_or,
}
use fern_os.FixedQueue.Window.{window, next_slot, slot, window-set, length-window}
use fern_os.Kernel.Pipe.{Pipe, occupied_bytes}

-- The indices of a pipe stand in its buffer.
pub record IsValid (p : Pipe) : Type 0 where
  pub storage : length p.buf ≡ p.cap
  pub start_in : p.i < p.cap
  pub end_in : p.j < p.cap

-- The bytes in a pipe, oldest first.
abbrev pub contents : Pipe → List ℕ
contents p = window p.buf p.cap p.i (occupied_bytes p)

pub length-contents : (p : Pipe) → length (contents p) ≡ occupied_bytes p
length-contents p = length-window p.buf p.cap p.i (occupied_bytes p)

-- Bytes written just past a window, where the buffer does not end among them, extend it.
pub window-blit :
    (buf : List ℕ) (cap h n at : ℕ) (xs : List ℕ)
    → cap ≤ length buf
    → h < cap
    → n + length xs ≤ cap
    → at + length xs ≤ cap
    → at ≡ slot cap h n
    → window (blit buf at xs) cap h (n + length xs) ≡ window buf cap h n ++ xs
window-blit buf cap h n at [] hs hh hn ha e =
    let z : n + 0 ≡ n = omega arith in
    ap (λ k. window buf cap h k) z ∙ sym (append-nil (window buf cap h n))
window-blit buf cap h n at (x ∷ []) hs hh hn ha e =
    let z : n + 1 ≡ suc n = omega arith in
    ap (λ k. window (set buf at x) cap h k) z ∙ window-set buf cap x n h at hs hh (omega arith) e
window-blit buf cap h n at (x ∷ y ∷ ys) hs hh hn ha e =
    let s : suc at ≡ slot cap h (suc n) = ground arith in
    let z : n + suc (suc (length ys)) ≡ suc n + suc (length ys) = omega arith in
    ap (λ k. window (blit (set buf at x) (suc at) (y ∷ ys)) cap h k) z
    ∙ window-blit (set buf at x) cap h (suc n) (suc at) (y ∷ ys)
        (omega (arith, length-set buf at x)) hh (omega arith) (omega arith) s
    ∙ ap (λ l. l ++ (y ∷ ys)) (window-set buf cap x n h at hs hh (omega arith) e)
    ∙ append_assoc (window buf cap h n) (x ∷ []) (y ∷ ys)

pub window-add :
    (buf : List ℕ) (cap h n m : ℕ)
    → h < cap
    → n < cap
    → window buf cap h (n + m) ≡ window buf cap h n ++ window buf cap (slot cap h n) m
window-add buf cap h zero m hh hn =
    let z : 0 + m ≡ m = omega arith in
    let s : h ≡ slot cap h 0 = ground arith in
    ap (λ k. window buf cap h k) z ∙ ap (λ k. window buf cap k m) s
window-add buf cap h (suc n) m hh hn =
    let z : suc n + m ≡ suc (n + m) = omega arith in
    let s : slot cap (next_slot cap h) n ≡ slot cap h (suc n) = ground arith in
    ap (λ k. window buf cap h k) z
    ∙ ap (λ l. get_or buf h 0 ∷ l)
        (window-add buf cap (next_slot cap h) n m (ground arith) (omega arith)
          ∙ ap (λ k. window buf cap (next_slot cap h) n ++ window buf cap k m) s)

-- Where it does not wrap, a window is a slice of the buffer.
pub window-flat :
    (buf : List ℕ) (cap h n : ℕ)
    → length buf ≡ cap
    → h + n ≤ cap
    → take n (drop h buf) ≡ window buf cap h n
window-flat buf cap h zero e le = refl
window-flat buf cap h (suc zero) e le = rw (drop-cons buf h 0 (omega arith)) refl
window-flat buf cap h (suc (suc n)) e le =
    let s : suc h ≡ next_slot cap h = ground arith in
    ap (λ l. take (suc (suc n)) l) (drop-cons buf h 0 (omega arith))
    ∙ ap (λ l. get_or buf h 0 ∷ l)
        (window-flat buf cap (suc h) (suc n) e (omega arith) ∙ ap (λ k. window buf cap k (suc n)) s)
