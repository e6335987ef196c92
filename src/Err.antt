-- ===== src/Err.antt =====
-- s_util/include/s_util/err.h: the error codes, and the outcomes of the allocator's calls.
use fern_os.Prelude.{Bool, true, false, List, [], ◌∷◌}

-- `fernos_error_t`
pub data Err : Type 0 where
  success : Err
  unknown_error : Err
  align_error : Err
  invalid_range : Err
  bad_args : Err
  no_mem : Err
  already_allocated : Err
  identity_overwrite : Err
  invalid_index : Err
  empty : Err
  state_mismatch : Err
  abort_system : Err
  not_implemented : Err
  in_use : Err
  no_space : Err
  not_permitted : Err
  fatal : Err
  inactive : Err

-- `err == FOS_E_SUCCESS`
abbrev pub is_success : Err → Bool
is_success success = true
is_success _ = false

-- `err == e` for the codes that the kernel compares with.
abbrev pub is_empty : Err → Bool
is_empty empty = true
is_empty _ = false

-- What the coming calls of `al_malloc` will answer, in order. When the list is used up, memory is
-- exhausted. Every pattern of failures is one such list.
abbrev pub Mem : Type 0
Mem = List Bool

abbrev pub al_malloc : Mem → Bool × Mem
al_malloc [] = (false, [])
al_malloc (b ∷ m) = (b, m)
