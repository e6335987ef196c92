-- ===== src/WaitQueue/Timed/Enqueue.antt =====
-- Where `twq_enqueue` puts an item.
use fern_os.Prelude.{
  ℕ, zero, suc, ◌^◌, ◌≤◌, ◌<◌, ◌≡◌, ◌≢◌, ◌⊎◌, inl, inr, refl, ap, subst, ◌∙◌, true, false, List, [],
  ◌∷◌, ◌++◌, All, append_assoc, append-nil, arith, length, ltb, ◌==◌, ℕ_discrete, dec_lt,
}
use fern_os.Err.{Err, success, no_mem, Mem}
use fern_os.ListT.{ListT, cells, l_push_before_iter, l_get_len}
use fern_os.ListT.Cells.{l_push_back_cases}
use fern_os.WaitQueue.Timed.{WaitPair, TimedWaitQueue, enqueue_loop, twq_enqueue}
use fern_os.WaitQueue.Timed.Clock.{
  sleeps, IsSorted, IsClock, waiting, ready, IsValid, All-append, All-split, All-map,
  IsSorted-suffix, IsSorted-insert, abs_wait_time-pos,
}

abbrev pub Out : Type 0
Out = Err × TimedWaitQueue × Mem

abbrev at : ℕ → List WaitPair → List WaitPair → ListT ℕ → TimedWaitQueue
at t b r rq = record { time = t; wait_q = record { before = b; rest = r }; ready_q = rq }

-- The new pair stands behind all that wake no later, and before all that wake later; or memory ran
-- out and nothing has changed.
abbrev pub Inserted : ℕ → WaitPair → List WaitPair → List WaitPair → List ℕ → Out → Type 0
Inserted t new b w rq (err, twq, mem) =
    (twq.time ≡ t)
    × (ready twq ≡ rq)
    × ((err ≡ success)
          × ((early : List WaitPair) × (late : List WaitPair) × (w ≡ early ++ late)
              × (waiting twq ≡ b ++ (early ++ (new ∷ late)))
              × All (λ p. sleeps t p ≤ sleeps t new) early
              × ((late ≡ [])
                  ⊎ ((p : WaitPair) × (r : List WaitPair) × (late ≡ p ∷ r)
                      × (sleeps t new < sleeps t p))))
        ⊎ (err ≡ no_mem) × (waiting twq ≡ b ++ w))

push_before_iter_cases :
    (b r : List WaitPair) (p new : WaitPair) (mem : Mem)
    → let (err, wq, mem') = l_push_before_iter (record { before = b; rest = p ∷ r }) new mem in
      (err ≡ success) × (cells wq ≡ b ++ (new ∷ p ∷ r)) ⊎ (err ≡ no_mem) × (cells wq ≡ b ++ (p ∷ r))
unfolding l_push_before_iter
push_before_iter_cases b r p new mem = ground (arith, append_assoc b (new ∷ []) (p ∷ r))

module _ (t : ℕ) (new : WaitPair) (rq : ListT ℕ) (mem : Mem) where
  enqueue_loop-nil :
      (fuel : ℕ) (b : List WaitPair)
      → Inserted t new b [] (cells rq) (enqueue_loop (suc fuel) new (at t b [] rq) mem)
  unfolding enqueue_loop
  enqueue_loop-nil fuel b = (
    refl,
    refl,
    elim (l_push_back_cases (record { before = b; rest = [] }) new mem) [
      | inl (e, hw) ↦
          inl (e, ([], [], refl, hw ∙ ap (λ l. l ++ (new ∷ [])) (append-nil b), tt, inl refl))
      | inr (e, same) ↦ inr (e, ap cells same)
    ],
  )

  enqueue_loop-later :
      (fuel : ℕ) (b : List WaitPair) (p : WaitPair) (r : List WaitPair)
      → sleeps t new < sleeps t p
      → Inserted t new b (p ∷ r) (cells rq) (enqueue_loop (suc fuel) new (at t b (p ∷ r) rq) mem)
  unfolding enqueue_loop
  enqueue_loop-later fuel b p r h =
      let e : ltb (sleeps t new) (sleeps t p) ≡ true = ground arith in
      rw (e, enqueue_loop)
        (
          refl,
          refl,
          elim (push_before_iter_cases b r p new mem) [
            | inl (d, hw) ↦ inl (d, ([], p ∷ r, refl, hw, tt, inr (p, r, refl, h)))
            | inr (d, hw) ↦ inr (d, hw)
          ],
        )

  enqueue_loop-next :
      (fuel : ℕ) (b : List WaitPair) (p : WaitPair) (r : List WaitPair)
      → sleeps t p ≤ sleeps t new
      → enqueue_loop (suc fuel) new (at t b (p ∷ r) rq) mem
        ≡ enqueue_loop fuel new (at t (b ++ (p ∷ [])) r rq) mem
  unfolding enqueue_loop
  enqueue_loop-next fuel b p r h =
      let e : ltb (sleeps t new) (sleeps t p) ≡ false = ground arith in rw (e, enqueue_loop)

  Inserted-further :
      (b : List WaitPair) (p : WaitPair) (r : List WaitPair) (out : Out)
      → sleeps t p ≤ sleeps t new
      → Inserted t new (b ++ (p ∷ [])) r (cells rq) out
      → Inserted t new b (p ∷ r) (cells rq) out
  Inserted-further b p r out h (ht, hr, inl (e, (early, late, split, hw, before, after))) = (
    ht,
    hr,
    inl (
      e,
      (
        p ∷ early,
        late,
        ap (λ l. p ∷ l) split,
        hw ∙ append_assoc b (p ∷ []) (early ++ (new ∷ late)),
        (h, before),
        after,
      ),
    ),
  )
  Inserted-further b p r out h (ht, hr, inr (e, hw)) =
      (ht, hr, inr (e, hw ∙ append_assoc b (p ∷ []) r))

  enqueue_loop_lem :
      (fuel : ℕ) (b w : List WaitPair)
      → length w < fuel
      → Inserted t new b w (cells rq) (enqueue_loop fuel new (at t b w rq) mem)
  enqueue_loop_lem zero b w h = absurd (omega arith)
  enqueue_loop_lem (suc fuel) b [] h = enqueue_loop-nil fuel b
  enqueue_loop_lem (suc fuel) b (p ∷ r) h = elim (dec_lt (sleeps t new) (sleeps t p)) [
    | yes later ↦ enqueue_loop-later fuel b p r later
    | no sooner ↦ rw (enqueue_loop-next fuel b p r (omega arith)) (
        Inserted-further b p r (enqueue_loop fuel new (at t (b ++ (p ∷ [])) r rq) mem) (omega arith)
          (enqueue_loop_lem fuel (b ++ (p ∷ [])) r (omega arith)))
  ]

-- `twq_enqueue` with a wake time other than now: the waiting items split into those that wake no
-- later than the new one and the rest, which is empty or starts with one that wakes later; the new
-- item stands between them and nothing else changes, or memory runs out and no item moves.
pub twq_enqueue-inserts :
    (twq : TimedWaitQueue) (item wt : ℕ) (mem : Mem)
    → wt ≢ twq.time
    → Inserted twq.time
        (record { item = item; wake_time = wt })
        []
        (waiting twq)
        (ready twq)
        (twq_enqueue twq item wt mem)
unfolding twq_enqueue l_get_len
twq_enqueue-inserts twq item wt mem h =
    let e : (wt == twq.time) ≡ false = ground arith in
    rw (e, twq_enqueue)
      (enqueue_loop_lem twq.time (record { item = item; wake_time = wt }) twq.ready_q mem
        (suc (length (waiting twq))) [] (waiting twq) (omega arith))

-- An item that wakes now is ready at once; the waiting ones are left alone.
pub twq_enqueue-now :
    (twq : TimedWaitQueue) (item wt : ℕ) (mem : Mem)
    → wt ≡ twq.time
    → let (err, twq', mem') = twq_enqueue twq item wt mem in
      (waiting twq' ≡ waiting twq)
      × (twq'.time ≡ twq.time)
      × ((err ≡ success) × (ready twq' ≡ ready twq ++ (item ∷ []))
          ⊎ (err ≡ no_mem) × (ready twq' ≡ ready twq))
unfolding twq_enqueue
twq_enqueue-now twq item wt mem h =
    let e : (wt == twq.time) ≡ true = ground arith in
    rw (e, twq_enqueue) (ground (arith, l_push_back_cases twq.ready_q item mem))

-- Where `twq_enqueue` puts an item, for every wake time. One that wakes now goes to the end of the ready
-- queue and no waiting item moves. Any other goes behind the waiting items that wake no later and before
-- the rest, which is empty or starts with one that wakes later, and nothing else changes. Or memory
-- runs out, the answer is FOS_E_NO_MEM and neither queue changes.
pub twq_enqueue-places :
    (twq : TimedWaitQueue) (item wt : ℕ) (mem : Mem)
    → let (err, twq', mem') = twq_enqueue twq item wt mem in
      (wt ≡ twq.time)
        × (waiting twq' ≡ waiting twq)
        × (twq'.time ≡ twq.time)
        × ((err ≡ success) × (ready twq' ≡ ready twq ++ (item ∷ []))
            ⊎ (err ≡ no_mem) × (ready twq' ≡ ready twq))
      ⊎ (wt ≢ twq.time)
        × Inserted twq.time
            (record { item = item; wake_time = wt })
            []
            (waiting twq)
            (ready twq)
            (twq_enqueue twq item wt mem)
twq_enqueue-places twq item wt mem = elim (ℕ_discrete wt twq.time) [
  | yes now ↦ let (w, t, r) = twq_enqueue-now twq item wt mem now in inl (now, w, t, r)
  | no later ↦ inr (later, twq_enqueue-inserts twq item wt mem later)
]

module _ (t : ℕ) (new : WaitPair) (early late : List WaitPair) where
  All-late :
      IsSorted t (early ++ late)
      → (late ≡ [])
        ⊎ ((p : WaitPair) × (r : List WaitPair) × (late ≡ p ∷ r) × (sleeps t new < sleeps t p))
      → All (λ p. sleeps t new ≤ sleeps t p) late
  All-late s (inl e) = rw e tt
  All-late s (inr (p, r, e, h)) =
      let s' : IsSorted t (p ∷ r) = subst (λ l. IsSorted t l) e (IsSorted-suffix t early late s) in
      rw e (
        omega arith,
        All-map (λ q. sleeps t p ≤ sleeps t q) (λ q. sleeps t new ≤ sleeps t q) r
            (λ q k. omega arith) s'.0,
      )

  All-insert {ℓ} :
      (P : WaitPair → Type ℓ) → P new → All P (early ++ late) → All P (early ++ (new ∷ late))
  All-insert P h all =
      let (he, hl) = All-split P early late all in All-append P early (new ∷ late) he (h, hl)

later-IsValid :
    (twq : TimedWaitQueue) (item wt : ℕ) (out : Out)
    → wt < 2 ^ 32
    → wt ≢ twq.time
    → IsValid twq
    → Inserted twq.time (record { item = item; wake_time = wt }) [] (waiting twq) (ready twq) out
    → IsValid out.1
later-IsValid twq item wt out small ne v
      (ht, hr, inl (e, (early, late, split, hw, before, after))) =
    record {
      now = rw ht v.now;
      clocks = rw hw (
          All-insert twq.time new early late IsClock small
            (subst (λ l. All IsClock l) split v.clocks));
      asleep =
          rw (ht, hw)
            (All-insert twq.time new early late (λ p. 0 < sleeps twq.time p)
              (abs_wait_time-pos twq.time wt v.now small ne)
              (subst (λ l. All (λ p. 0 < sleeps twq.time p) l) split v.asleep));
      sorted =
          rw (ht, hw)
            (IsSorted-insert twq.time new early late sorted' before
              (All-late twq.time new early late sorted' after));
    }
  where
    new : WaitPair
    new = record { item = item; wake_time = wt }

    sorted' : IsSorted twq.time (early ++ late)
    sorted' = subst (λ l. IsSorted twq.time l) split v.sorted
later-IsValid twq item wt out small ne v (ht, hr, inr (e, hw)) = record {
  now = rw ht v.now;
  clocks = rw hw v.clocks;
  asleep = rw (ht, hw) v.asleep;
  sorted = rw (ht, hw) v.sorted;
}

-- `twq_enqueue` keeps a valid queue valid, its waiting items in the order of waking, whatever time
-- within the clock's range is asked for and whether or not memory suffices.
pub twq_enqueue-IsValid :
    (twq : TimedWaitQueue) (item wt : ℕ) (mem : Mem)
    → wt < 2 ^ 32
    → IsValid twq
    → IsValid (twq_enqueue twq item wt mem).1
twq_enqueue-IsValid twq item wt mem small v = elim (ℕ_discrete wt twq.time) [
  | yes now ↦
      let (hw, ht, _) = twq_enqueue-now twq item wt mem now in
      record {
        now = rw ht v.now;
        clocks = rw hw v.clocks;
        asleep = rw (ht, hw) v.asleep;
        sorted = rw (ht, hw) v.sorted;
      }
  | no later ↦
      later-IsValid twq item wt (twq_enqueue twq item wt mem) small later v
        (twq_enqueue-inserts twq item wt mem later)
]
