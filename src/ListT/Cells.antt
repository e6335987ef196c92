-- ===== src/ListT/Cells.antt =====
-- What the list operations do to the cells.
use fern_os.Prelude.{
  ◌≡◌, refl, ap, sym, some, List, [], ◌∷◌, ◌++◌, append-nil, append_assoc, Bool-cases, inl, inr,
  ◌⊎◌,
}
use fern_os.Err.{success, no_mem, Mem, al_malloc}
use fern_os.ListT.{
  ListT, cells, snoc, unfront, init, last?, unback, head?, drop_head, l_push_back, l_pop_front,
  l_pop_back,
}

module _ {ℓ} {A : Type ℓ} where
  pub cells-snoc : (b r : List A) (x : A) → cells (snoc b r x) ≡ (b ++ r) ++ (x ∷ [])
  cells-snoc b [] x = simp append-nil
  cells-snoc b (y ∷ r) x = sym (append_assoc b (y ∷ r) (x ∷ []))

  pub cells-unfront : (b r : List A) → cells (unfront b r).2 ≡ drop_head (b ++ r)
  cells-unfront [] [] = refl
  cells-unfront [] (x ∷ r) = refl
  cells-unfront (x ∷ b) r = refl

  pub value-unfront : (b r : List A) → (unfront b r).1 ≡ head? (b ++ r)
  value-unfront [] [] = refl
  value-unfront [] (x ∷ r) = refl
  value-unfront (x ∷ b) r = refl

  init-append : (b : List A) (x : A) (r : List A) → init (b ++ (x ∷ r)) ≡ b ++ init (x ∷ r)
  init-append [] x r = refl
  init-append (y ∷ []) x r = refl
  init-append (y ∷ z ∷ b) x r = ap (λ l. y ∷ l) (init-append (z ∷ b) x r)

  last?-append : (b : List A) (x : A) (r : List A) → last? (b ++ (x ∷ r)) ≡ last? (x ∷ r)
  last?-append [] x r = refl
  last?-append (y ∷ []) x r = refl
  last?-append (y ∷ z ∷ b) x r = last?-append (z ∷ b) x r

  pub cells-unback : (b r : List A) → cells (unback b r).2 ≡ init (b ++ r)
  cells-unback [] [] = refl
  cells-unback (x ∷ b) [] = simp (append-nil)
  cells-unback [] (x ∷ r) = refl
  cells-unback (y ∷ b) (x ∷ r) = sym (init-append (y ∷ b) x r)

  pub value-unback : (b r : List A) → (unback b r).1 ≡ last? (b ++ r)
  value-unback [] [] = refl
  value-unback (x ∷ b) [] = simp (append-nil)
  value-unback [] (x ∷ r) = refl
  value-unback (y ∷ b) (x ∷ r) = sym (last?-append (y ∷ b) x r)

  pub init-last? :
      (x : A) (xs : List A)
      → (y : A) × (last? (x ∷ xs) ≡ some y) × (init (x ∷ xs) ++ (y ∷ []) ≡ x ∷ xs)
  init-last? x [] = (x, refl, refl)
  init-last? x (y ∷ r) = let (z, p, q) = init-last? y r in (z, p, ap (λ l. x ∷ l) q)

  -- A push succeeds and appends, or fails for want of memory and changes nothing.
  pub l_push_back_cases :
      (l : ListT A) (x : A) (mem : Mem)
      → ((l_push_back l x mem).0 ≡ success) × (cells (l_push_back l x mem).1 ≡ cells l ++ (x ∷ []))
        ⊎ ((l_push_back l x mem).0 ≡ no_mem) × ((l_push_back l x mem).1 ≡ l)
  unfolding l_push_back
  l_push_back_cases l x mem = elim (Bool-cases (al_malloc mem).0) [
    | inl y ↦ rw y (inl (refl, cells-snoc l.before l.rest x))
    | inr n ↦ rw n (inr (refl, refl))
  ]

  pub cells-l_pop_front : (l : ListT A) → cells (l_pop_front l).2 ≡ drop_head (cells l)
  unfolding l_pop_front
  cells-l_pop_front l = cells-unfront l.before l.rest

  pub value-l_pop_front : (l : ListT A) → (l_pop_front l).1 ≡ head? (cells l)
  unfolding l_pop_front
  value-l_pop_front l = value-unfront l.before l.rest

  pub cells-l_pop_back : (l : ListT A) → cells (l_pop_back l).2 ≡ init (cells l)
  unfolding l_pop_back
  cells-l_pop_back l = cells-unback l.before l.rest

  unfront-cons :
      (b r : List A) (x : A) (xs : List A)
      → b ++ r ≡ x ∷ xs
      → ((unfront b r).0 ≡ success) × ((unfront b r).1 ≡ some x) × (cells (unfront b r).2 ≡ xs)
  unfront-cons [] [] x xs h = cc
  unfront-cons [] (y ∷ r) x xs h = (refl, ap head? h, ap drop_head h)
  unfront-cons (y ∷ b) r x xs h = (refl, ap head? h, ap drop_head h)

  -- A pop from the front of a list that is not empty succeeds with its first cell.
  pub l_pop_front-cons :
      (l : ListT A) (x : A) (xs : List A)
      → cells l ≡ x ∷ xs
      → ((l_pop_front l).0 ≡ success)
        × ((l_pop_front l).1 ≡ some x)
        × (cells (l_pop_front l).2 ≡ xs)
  unfolding l_pop_front
  l_pop_front-cons l x xs h = unfront-cons l.before l.rest x xs h
