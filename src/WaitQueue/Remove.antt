-- ===== src/WaitQueue/Remove.antt =====
-- The loop by which every wait queue of wait_queue.c drops an item: walk the list with its
-- iterator and pop each cell that holds the item.
use fern_os.Prelude.{
  ℕ, zero, suc, ◌≤◌, ◌≡◌, Bool, not, none, some, List, [], ◌∷◌, ◌++◌, append-nil, append_assoc,
  arith, length, select, ◌==◌, if◌then◌else◌, ◌∙◌, ap,
}
use fern_os.ListT.{ListT, cells, l_get_len, l_get_iter, l_next_iter, l_pop_iter, l_reset_iter}

module _ {ℓ} {A : Type ℓ} (key : A → ℕ) where
  pub remove_loop : ℕ → ℕ → ListT A → ListT A
  remove_loop zero item l = l
  remove_loop (suc fuel) item l = elim (l_get_iter l) [
    | none ↦ l
    | some x ↦ remove_loop fuel item (if key x == item then l_pop_iter l else l_next_iter l)
  ]

  -- One round for each cell is fuel enough.
  unfoldable pub remove_item : ListT A → ℕ → ListT A
  unfolding remove_loop l_get_len
  remove_item l item = remove_loop (l_get_len l) item (l_reset_iter l)

  abbrev pub keeps : ℕ → A → Bool
  keeps item x = not (key x == item)

  remove_loop_lem :
      (fuel item : ℕ) (b r : List A)
      → length r ≤ fuel
      → remove_loop fuel item (record { before = b; rest = r })
        ≡ record { before = b ++ select (keeps item) r; rest = [] }
  unfolding remove_loop
  remove_loop_lem zero item b [] h = rw (append-nil b)
  remove_loop_lem zero item b (x ∷ r) h = absurd (omega arith)
  remove_loop_lem (suc f) item b [] h = rw (append-nil b)
  remove_loop_lem (suc f) item b (x ∷ r) h = ground (
    arith,
    remove_loop_lem f item b r (omega arith),
    remove_loop_lem f item (b ++ (x ∷ [])) r (omega arith),
    append_assoc b (x ∷ []) (select (keeps item) r),
  )

  -- The walk ends at the end of the list, with exactly the cells of other items left, in order.
  pub remove_item_lem :
      (l : ListT A) (item : ℕ)
      → remove_item l item ≡ record { before = select (keeps item) (cells l); rest = [] }
  unfolding remove_item
  remove_item_lem l item = remove_loop_lem (length (cells l)) item [] (cells l) (omega arith)

  pub cells-remove_item :
      (l : ListT A) (item : ℕ) → cells (remove_item l item) ≡ select (keeps item) (cells l)
  cells-remove_item l item = ap cells (remove_item_lem l item) ∙ append-nil _
