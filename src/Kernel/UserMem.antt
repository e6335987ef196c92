-- ===== src/Kernel/UserMem.antt =====
-- k_startup/src/page_helpers.c: how the kernel copies between its own memory and a user's, one page
-- at a time.
pub mod Bytewise
pub mod From
pub mod To
use fern_os.Prelude.{
  ℕ, zero, suc, ◌+◌, ◌-◌, ◌*◌, ◌/◌, ◌%◌, ◌^◌, Bool, true, false, Option, none, some, List, [], ◌∷◌,
  ◌++◌, take, drop, length, ltb, ◌==◌, if◌then◌else◌,
}
use fern_os.Err.{Err, success, no_mem, bad_args}

-- `M_4K`
abbrev pub m_4k : ℕ
m_4k = 4096

-- The memory of a user: the entries of its page directory, which are page tables, the entries of
-- each table, and the bytes of each page of physical memory. An entry that is `none` is not present.
pub record UserMem : Type 0 where
  pub directory : ℕ → Option ℕ
  pub tables : ℕ → ℕ → Option ℕ
  pub bytes : ℕ → ℕ → ℕ

unfoldable pub pd_get_underlying_p : UserMem → ℕ → Option ℕ
pd_get_underlying_p um pi = elim (um.directory (pi / 1024)) [
  | none ↦ none
  | some pt ↦ um.tables pt (pi % 1024)
]

abbrev pub pd_get_underlying : UserMem → ℕ → Option ℕ
pd_get_underlying um ptr = pd_get_underlying_p um (ptr / m_4k)

-- `mem_cpy` out of a page that is assigned to the kernel.
abbrev pub page_out : (ℕ → ℕ) → ℕ → ℕ → List ℕ
page_out page offset zero = []
page_out page offset (suc n) = page offset ∷ page_out page (suc offset) n

abbrev pub set_byte : UserMem → ℕ → ℕ → ℕ → UserMem
set_byte um p offset v = record um {
  bytes = λ q o. if q == p then (if o == offset then v else um.bytes q o) else um.bytes q o;
}

-- `mem_cpy` into a page that is assigned to the kernel.
abbrev pub page_in : UserMem → ℕ → ℕ → List ℕ → UserMem
page_in um p offset [] = um
page_in um p offset (x ∷ xs) = page_in (set_byte um p offset x) p (suc offset) xs

-- The next page border after `tbuf`, or `limit` if that comes first: `nb - tbuf` on 32 bits.
pub bytes_to_copy : ℕ → ℕ → ℕ
bytes_to_copy limit tbuf =
    let nb = (tbuf + m_4k) % 2 ^ 32 / m_4k * m_4k in
    let nb' = if ltb limit nb then limit else nb in (nb' + 2 ^ 32 - tbuf) % 2 ^ 32

-- `while (bytes_copied < bytes)`, from the user: what has been copied into `kbuf`.
pub from_loop : ℕ → UserMem → ℕ → ℕ → List ℕ → List ℕ
from_loop zero um ubuf bytes copied = copied
from_loop (suc fuel) um ubuf bytes copied =
    let tbuf = (ubuf + length copied) % 2 ^ 32 in
    elim (ltb (length copied) bytes) [
      | false ↦ copied
      | true ↦ elim (pd_get_underlying um tbuf) [
        | none ↦ copied
        | some p ↦ from_loop fuel um ubuf bytes (
            copied
            ++ page_out (um.bytes p) (tbuf % m_4k) (bytes_to_copy ((ubuf + bytes) % 2 ^ 32) tbuf))
      ]
    ]

-- `mem_cpy_from_user`: the error, and the bytes that were written to `dest`; `*copied` is their
-- number. A round copies at least one byte.
pub mem_cpy_from_user : UserMem → ℕ → ℕ → Err × List ℕ
unfolding from_loop
mem_cpy_from_user um user_src bytes =
    if user_src == 0
    then (bad_args, [])
    else let copied = from_loop (suc bytes) um user_src bytes [] in
      (if length copied == bytes then success else no_mem, copied)

-- The same loop, to the user.
pub to_loop : ℕ → UserMem → ℕ → List ℕ → ℕ → ℕ × UserMem
to_loop zero um ubuf kbuf copied = (copied, um)
to_loop (suc fuel) um ubuf kbuf copied =
    let tbuf = (ubuf + copied) % 2 ^ 32 in
    elim (ltb copied (length kbuf)) [
      | false ↦ (copied, um)
      | true ↦ elim (pd_get_underlying um tbuf) [
        | none ↦ (copied, um)
        | some p ↦
            let n = bytes_to_copy ((ubuf + length kbuf) % 2 ^ 32) tbuf in
            to_loop fuel (page_in um p (tbuf % m_4k) (take n (drop copied kbuf))) ubuf kbuf
              (copied + n)
      ]
    ]

-- `mem_cpy_to_user` of the bytes `kbuf`: the error, `*copied` and the memory.
pub mem_cpy_to_user : UserMem → ℕ → List ℕ → Err × ℕ × UserMem
unfolding to_loop
mem_cpy_to_user um user_dest kbuf =
    if user_dest == 0
    then (bad_args, 0, um)
    else let (copied, um') = to_loop (suc (length kbuf)) um user_dest kbuf 0 in
      (if copied == length kbuf then success else no_mem, copied, um')
