-- ===== src/ListT.antt =====
-- s_data/include/s_data/list.h: the list interface that the kernel's queues are written against.
-- A list is its cells, split where the iterator stands: `rest` begins at the cell that the
-- iterator points to, and an iterator that is NULL stands behind the last cell.
pub mod Cells
use fern_os.Prelude.{
  ℕ, Bool, true, false, Option, none, some, List, [], ◌∷◌, ◌++◌, length, get_elem?, if◌then◌else◌,
}
use fern_os.Err.{Err, success, no_mem, invalid_index, is_success, Mem, al_malloc}

pub record ListT {ℓ} (A : Type ℓ) : Type ℓ where
  pub before : List A
  pub rest : List A

module _ {ℓ} {A : Type ℓ} where
  abbrev pub cells : ListT A → List A
  cells l = l.before ++ l.rest

  abbrev pub new_list : ListT A
  new_list = record { before = []; rest = [] }

  unfoldable pub l_get_len : ListT A → ℕ
  l_get_len l = length (cells l)

  -- Where the iterator is NULL it stays so when a cell is added behind it.
  abbrev pub snoc : List A → List A → A → ListT A
  snoc b [] x = record { before = b ++ (x ∷ []); rest = [] }
  snoc b (y ∷ r) x = record { before = b; rest = (y ∷ r) ++ (x ∷ []) }

  unfoldable pub l_get_ptr : ListT A → ℕ → Option A
  l_get_ptr l i = get_elem? (cells l) i

  -- `l_push_back`: a push at the end allocates a node, and fails only if that fails.
  unfoldable pub l_push_back : ListT A → A → Mem → Err × ListT A × Mem
  l_push_back l x mem =
      let (ok, mem') = al_malloc mem in
      if ok then (success, snoc l.before l.rest x, mem') else (no_mem, l, mem')

  -- A pop from the front hands out the first cell; on an empty list the index 0 is invalid.
  abbrev pub unfront : List A → List A → Err × Option A × ListT A
  unfront [] [] = (invalid_index, none, new_list)
  unfront [] (x ∷ r) = (success, some x, record { before = []; rest = r })
  unfront (x ∷ b) r = (success, some x, record { before = b; rest = r })

  unfoldable pub l_pop_front : ListT A → Err × Option A × ListT A
  l_pop_front l = unfront l.before l.rest

  abbrev pub init : List A → List A
  init [] = []
  init (x ∷ []) = []
  init (x ∷ y ∷ r) = x ∷ init (y ∷ r)

  abbrev pub last? : List A → Option A
  last? [] = none
  last? (x ∷ []) = some x
  last? (x ∷ y ∷ r) = last? (y ∷ r)

  abbrev pub unback : List A → List A → Err × Option A × ListT A
  unback [] [] = (invalid_index, none, new_list)
  unback (x ∷ b) [] = (success, last? (x ∷ b), record { before = init (x ∷ b); rest = [] })
  unback b (x ∷ r) = (success, last? (x ∷ r), record { before = b; rest = init (x ∷ r) })

  unfoldable pub l_pop_back : ListT A → Err × Option A × ListT A
  l_pop_back l = unback l.before l.rest

  abbrev pub l_reset_iter : ListT A → ListT A
  l_reset_iter l = record { before = []; rest = cells l }

  abbrev pub head? : List A → Option A
  head? [] = none
  head? (x ∷ r) = some x

  abbrev pub l_get_iter : ListT A → Option A
  l_get_iter l = head? l.rest

  abbrev pub advance : List A → List A → ListT A
  advance b [] = record { before = b; rest = [] }
  advance b (x ∷ r) = record { before = b ++ (x ∷ []); rest = r }

  abbrev pub l_next_iter : ListT A → ListT A
  l_next_iter l = advance l.before l.rest

  abbrev pub push_before : List A → List A → A → Mem → Err × ListT A × Mem
  push_before b [] x mem = (invalid_index, record { before = b; rest = [] }, mem)
  push_before b (y ∷ r) x mem =
      let (ok, mem') = al_malloc mem in
      if ok
      then (success, record { before = b ++ (x ∷ []); rest = y ∷ r }, mem')
      else (no_mem, record { before = b; rest = y ∷ r }, mem')

  unfoldable pub l_push_before_iter : ListT A → A → Mem → Err × ListT A × Mem
  l_push_before_iter l x mem = push_before l.before l.rest x mem

  abbrev pub drop_head : List A → List A
  drop_head [] = []
  drop_head (x ∷ r) = r

  -- The iterator moves on to the cell behind the one that goes.
  abbrev pub l_pop_iter : ListT A → ListT A
  l_pop_iter l = record { before = l.before; rest = drop_head l.rest }

  -- The loop of `l_push_back_all` from the iterator of `s` on; in the end `s` is cleared.
  abbrev pub push_all : ListT A → List A → List A → Mem → Err × ListT A × ListT A × Mem
  push_all l b [] mem = (success, l, new_list, mem)
  push_all l b (x ∷ r) mem =
      let (err, l', mem') = l_push_back l x mem in
      elim (is_success err) [
        | true ↦ push_all l' (b ++ (x ∷ [])) r mem'
        | false ↦ (err, l', record { before = b; rest = x ∷ r }, mem')
      ]

  -- `l_push_back_all`: the error, `l`, `s` and the memory.
  unfoldable pub l_push_back_all : ListT A → ListT A → Mem → Err × ListT A × ListT A × Mem
  l_push_back_all l s mem = push_all l [] (cells s) mem

  -- The loop of `l_pop_ele` up to the first match, where `all` is false.
  abbrev pub pop_match : (A → Bool) → List A → List A → Bool × ListT A
  pop_match cmp b [] = (false, record { before = b; rest = [] })
  pop_match cmp b (x ∷ r) =
      let later = pop_match cmp (b ++ (x ∷ [])) r in
      if cmp x then (true, record { before = b; rest = r }) else later

  unfoldable pub l_pop_first_match : ListT A → (A → Bool) → Bool × ListT A
  l_pop_first_match l cmp = pop_match cmp [] (cells l)
