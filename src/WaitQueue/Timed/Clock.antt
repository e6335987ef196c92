-- ===== src/WaitQueue/Timed/Clock.antt =====
-- The wrapping clock, and the order of the waiting items.
use fern_os.Prelude.{ℕ, ◌+◌, ◌-◌, ◌%◌, ◌^◌, ◌≤◌, ◌<◌, ◌≡◌, ◌≢◌, List, [], ◌∷◌, ◌++◌, All, arith}
use fern_os.ListT.{cells}
use fern_os.WaitQueue.Timed.{WaitPair, TimedWaitQueue, abs_wait_time}

-- The code's two cases are one subtraction modulo 2 ^ 32.
pub abs_wait_time-mod :
    (c w : ℕ) → c < 2 ^ 32 → w < 2 ^ 32 → abs_wait_time c w ≡ (w + 2 ^ 32 - c) % 2 ^ 32
unfolding abs_wait_time
abs_wait_time-mod c w hc hw = ground arith

pub abs_wait_time-lt : (c w : ℕ) → c < 2 ^ 32 → w < 2 ^ 32 → abs_wait_time c w < 2 ^ 32
unfolding abs_wait_time
abs_wait_time-lt c w hc hw = ground arith

-- When the clock moves on to `c`, what must still sleep longer than that sleeps that much less.
pub abs_wait_time_shift :
    (t c w : ℕ)
    → t < 2 ^ 32
    → c < 2 ^ 32
    → w < 2 ^ 32
    → abs_wait_time t c ≤ abs_wait_time t w
    → abs_wait_time c w + abs_wait_time t c ≡ abs_wait_time t w
unfolding abs_wait_time
abs_wait_time_shift t c w ht hc hw h = ground arith

-- The ticks that a waiting item still sleeps.
abbrev pub sleeps : ℕ → WaitPair → ℕ
sleeps t p = abs_wait_time t p.wake_time

-- The items wake in the order of the list.
abbrev pub IsSorted : ℕ → List WaitPair → Type 0
IsSorted t [] = Unit
IsSorted t (p ∷ r) = All (λ q. sleeps t p ≤ sleeps t q) r × IsSorted t r

abbrev pub IsClock : WaitPair → Type 0
IsClock p = p.wake_time < 2 ^ 32

abbrev pub waiting : TimedWaitQueue → List WaitPair
waiting twq = cells twq.wait_q

abbrev pub ready : TimedWaitQueue → List ℕ
ready twq = cells twq.ready_q

-- Every waiting item sleeps at least one more tick, and they are in order of waking.
pub record IsValid (twq : TimedWaitQueue) : Type 0 where
  pub now : twq.time < 2 ^ 32
  pub clocks : All IsClock (waiting twq)
  pub asleep : All (λ p. 0 < sleeps twq.time p) (waiting twq)
  pub sorted : IsSorted twq.time (waiting twq)

module _ {ℓ κ} {A : Type ℓ} where
  pub All-append :
      (P : A → Type κ) (early late : List A) → All P early → All P late → All P (early ++ late)
  All-append P [] late done todo = todo
  All-append P (e ∷ early) late (first, done) todo = (first, All-append P early late done todo)

  pub All-split : (P : A → Type κ) (xs ys : List A) → All P (xs ++ ys) → All P xs × All P ys
  All-split P [] ys h = (tt, h)
  All-split P (x ∷ xs) ys h = let (l, r) = All-split P xs ys h.1 in ((h.0, l), r)

pub All-map {ℓ κ μ} :
    {A : Type ℓ} (P : A → Type κ) (Q : A → Type μ) (xs : List A)
    → ((x : A) → P x → Q x)
    → All P xs
    → All Q xs
All-map P Q [] f h = tt
All-map P Q (x ∷ xs) f h = (f x h.0, All-map P Q xs f h.1)

-- Two readings of the clock that differ are at least one tick apart.
pub abs_wait_time-pos : (c w : ℕ) → c < 2 ^ 32 → w < 2 ^ 32 → w ≢ c → 0 < abs_wait_time c w
unfolding abs_wait_time
abs_wait_time-pos c w hc hw ne = ground arith

pub IsSorted-suffix :
    (t : ℕ) (early late : List WaitPair) → IsSorted t (early ++ late) → IsSorted t late
IsSorted-suffix t [] late h = h
IsSorted-suffix t (p ∷ early) late h = IsSorted-suffix t early late h.1

pub IsSorted-insert :
    (t : ℕ) (new : WaitPair) (early late : List WaitPair)
    → IsSorted t (early ++ late)
    → All (λ p. sleeps t p ≤ sleeps t new) early
    → All (λ p. sleeps t new ≤ sleeps t p) late
    → IsSorted t (early ++ (new ∷ late))
IsSorted-insert t new [] late s before after = (after, s)
IsSorted-insert t new (p ∷ early) late s before after =
    let (he, hl) = All-split (λ q. sleeps t p ≤ sleeps t q) early late s.0 in
    (
      All-append (λ q. sleeps t p ≤ sleeps t q) early (new ∷ late) he (before.0, hl),
      IsSorted-insert t new early late s.1 before.1 after,
    )
