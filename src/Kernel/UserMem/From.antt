-- ===== src/Kernel/UserMem/From.antt =====
-- `mem_cpy_from_user`, page by page, copies byte by byte.
use fern_os.Prelude.{
  ℕ, zero, suc, ◌+◌, ◌-◌, ◌%◌, ◌^◌, ◌≤◌, ◌<◌, ◌≡◌, inl, inr, refl, ap, ap₂, sym, ◌∙◌, Bool-cases,
  Option-cases, false, none, some, List, [], ◌++◌, append_assoc, append-nil, arith, length,
  length-append, ltb, lt→ltb, ltb→lt, ◌==◌, if◌then◌else◌,
}
use fern_os.Err.{success, no_mem}
use fern_os.Kernel.UserMem.{
  UserMem, m_4k, pd_get_underlying, bytes_to_copy, from_loop, mem_cpy_from_user,
}
use fern_os.Kernel.UserMem.Bytewise.{
  reachable, peek, amount, bytes_to_copy_lem, reachable-page, page_out_lem, peek-add, length-peek,
  reachable-nil,
}

from_loop-next :
    (fuel : ℕ) (um : UserMem) (ubuf bytes : ℕ) (copied : List ℕ) (p : ℕ)
    → ubuf + bytes ≤ 2 ^ 32 - m_4k
    → length copied < bytes
    → pd_get_underlying um (ubuf + length copied) ≡ some p
    → let a = ubuf + length copied in
      from_loop (suc fuel) um ubuf bytes copied
      ≡ from_loop fuel um ubuf bytes (copied ++ peek um a (amount a (bytes - length copied)))
unfolding from_loop
from_loop-next fuel um ubuf bytes copied p lim le e =
    let a = ubuf + length copied in
    let w : a % 2 ^ 32 ≡ a = omega arith in
    let w' : (ubuf + bytes) % 2 ^ 32 ≡ ubuf + bytes = omega arith in
    let n : bytes_to_copy (ubuf + bytes) a ≡ amount a (bytes - length copied) =
      bytes_to_copy_lem (ubuf + bytes) a (omega arith) lim ∙ omega arith in
    rw
      (
        from_loop,
        lt→ltb (length copied) bytes le,
        w,
        e,
        w,
        w',
        n,
        page_out_lem um a (amount a (bytes - length copied)) p e (omega arith),
      )
      refl

from_loop-done :
    (fuel : ℕ) (um : UserMem) (ubuf bytes : ℕ) (copied : List ℕ)
    → ltb (length copied) bytes ≡ false
    → from_loop (suc fuel) um ubuf bytes copied ≡ copied
unfolding from_loop
from_loop-done fuel um ubuf bytes copied h = rw (from_loop, h) refl

from_loop-absent :
    (fuel : ℕ) (um : UserMem) (ubuf bytes : ℕ) (copied : List ℕ)
    → ubuf + length copied < 2 ^ 32
    → pd_get_underlying um (ubuf + length copied) ≡ none
    → from_loop (suc fuel) um ubuf bytes copied ≡ copied
unfolding from_loop
from_loop-absent fuel um ubuf bytes copied b e =
    let w : (ubuf + length copied) % 2 ^ 32 ≡ ubuf + length copied = omega arith in
    elim (Bool-cases (ltb (length copied) bytes)) [
      | inr h ↦ rw (from_loop, h) refl
      | inl h ↦ rw (from_loop, h, w, e) refl
    ]

from_loop_lem :
    (fuel : ℕ) (um : UserMem) (ubuf bytes : ℕ) (copied : List ℕ)
    → ubuf + bytes ≤ 2 ^ 32 - m_4k
    → length copied ≤ bytes
    → bytes - length copied < fuel
    → from_loop fuel um ubuf bytes copied
      ≡ copied
        ++ peek um
            (ubuf + length copied)
            (reachable um (ubuf + length copied) (bytes - length copied))
from_loop_lem zero um ubuf bytes copied lim le enough = elim enough [ ]
from_loop_lem (suc fuel) um ubuf bytes copied lim le enough =
    let a = ubuf + length copied in
    let left = bytes - length copied in
    elim (Bool-cases (ltb (length copied) bytes)) [
      | inr h ↦
          let z : left ≡ 0 = ground arith in
          rw (from_loop-done fuel um ubuf bytes copied h, z, append-nil copied)
      | inl h ↦ elim (Option-cases (pd_get_underlying um a)) [
        | inl e ↦ rw (
          from_loop-absent fuel um ubuf bytes copied (omega arith) e,
          reachable-nil um a left e,
          append-nil copied,
        )
        | inr (p, e) ↦
            let n = amount a left in
            let more = copied ++ peek um a n in
            let len : length more ≡ length copied + n =
              omega (arith, length-append copied (peek um a n), length-peek um a n) in
            let lt = ltb→lt (length copied) bytes h in
            let split : left ≡ n + (bytes - length more) = omega arith in
            let at : ubuf + length more ≡ a + n = omega arith in
            from_loop-next fuel um ubuf bytes copied p lim lt e
            ∙ from_loop_lem fuel um ubuf bytes more lim (omega arith) (omega arith)
            ∙ ap (λ k. more ++ peek um k (reachable um k (bytes - length more))) at
            ∙ append_assoc copied (peek um a n)
                (peek um (a + n) (reachable um (a + n) (bytes - length more)))
            ∙ ap (λ l. copied ++ l)
                (sym (peek-add um a n (reachable um (a + n) (bytes - length more))))
            ∙ ap (λ k. copied ++ peek um a k)
                (sym (
                  ap (λ k. reachable um a k) split
                  ∙ reachable-page um a n (bytes - length more) p e (omega arith)))
      ]
    ]

-- For a source that is not NULL and that ends at or before the last page of the address space,
-- `mem_cpy_from_user` copies exactly the bytes before the first page that is not present, each from
-- its own address, and succeeds when these are all of them.
pub mem_cpy_from_user-peek :
    (um : UserMem) (user_src bytes : ℕ)
    → 0 < user_src
    → user_src + bytes ≤ 2 ^ 32 - m_4k
    → let r = reachable um user_src bytes in
      mem_cpy_from_user um user_src bytes
      ≡ (if r == bytes then success else no_mem, peek um user_src r)
unfolding mem_cpy_from_user
mem_cpy_from_user-peek um user_src bytes h lim =
    let c : user_src + 0 ≡ user_src = omega arith in
    let d : bytes - 0 ≡ bytes = omega arith in
    let r = reachable um user_src bytes in
    let z : (user_src == 0) ≡ false = ground arith in
    let e : from_loop (suc bytes) um user_src bytes [] ≡ peek um user_src r =
      from_loop_lem (suc bytes) um user_src bytes [] lim (omega arith) (omega arith)
      ∙ ap₂ (λ k l. peek um k (reachable um k l)) c d in
    rw (z, e, length-peek um user_src r) refl
