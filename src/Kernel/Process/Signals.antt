-- ===== src/Kernel/Process/Signals.antt =====
-- No signal is lost: a pending signal and a thread that waits for it do not meet.
use fern_os.Prelude.{
  ℕ, suc, ◌<◌, ◌≡◌, ◌≢◌, ◌⊎◌, inl, inr, refl, ap, sym, subst, ◌∙◌, Bool, true, false, List, [], ◌∷◌,
  ◌++◌, arith, select, ◌==◌, leb, Bool-cases,
}
use fern_os.Err.{success, no_mem}
use fern_os.WaitQueue.Vector.{accepts}
use fern_os.WaitQueue.Vector.Laws.{waiting, ready}
use fern_os.Kernel.Process.{
  Process, KernelState, set_proc, Out, shut_down, returned, out_of_fuel, bit, set_bit, ks_signal_p,
}
use fern_os.Kernel.Process.Delivery.{queue_of, Delivered, deliver-Delivered, set_proc-at}

-- No thread of the process is ready but not woken, and none waits for a signal that is pending.
abbrev pub IsQuiet : KernelState → ℕ → Type 0
IsQuiet s p =
    (ready (queue_of s p) ≡ [])
    × ((i : ℕ)
        → i < 32
        → (s.procs p).sig_vec i ≡ true
        → select (accepts i) (waiting (queue_of s p)) ≡ [])

-- A signal has been made pending.
abbrev pub raised : KernelState → ℕ → ℕ → KernelState
raised s p sid =
    set_proc s p (record (s.procs p) { sig_vec = set_bit (s.procs p).sig_vec sid true })

abbrev pub Sent : KernelState → ℕ → ℕ → Out → Type 0
Sent s p sid out =
    ((s.procs p).sig_vec sid ≡ true) × (out ≡ returned success s)
    ⊎ ((s.procs p).sig_vec sid ≡ false) × Delivered (raised s p sid) p sid out

raised-queue : (s : KernelState) (p sid : ℕ) → queue_of (raised s p sid) p ≡ queue_of s p
raised-queue s p sid =
    ap (λ (x : Process). s.kernel.vectors x.signal_queue)
      (set_proc-at s p (record (s.procs p) { sig_vec = set_bit (s.procs p).sig_vec sid true }))

raised-sig_vec :
    (s : KernelState) (p sid : ℕ)
    → ((raised s p sid).procs p).sig_vec ≡ set_bit (s.procs p).sig_vec sid true
raised-sig_vec s p sid =
    ap (λ (x : Process). x.sig_vec)
      (set_proc-at s p (record (s.procs p) { sig_vec = set_bit (s.procs p).sig_vec sid true }))

apart : (i j : ℕ) → i ≢ j → i == j ≡ false
apart i j h = ground (arith, h)

in_range : (sid : ℕ) → sid < 32 → leb 32 sid ≡ false
in_range sid h = ground arith

-- A signal below 32 that a process allows, sent while none of its threads is ready: it was pending,
-- and nothing happens; or it becomes pending, and stays so if no thread waits for it; or the first
-- thread that waits for it, alone, goes to the end of the schedule with FOS_E_SUCCESS, and the signal
-- is not pending; or memory runs out, the call fails, and no thread has moved.
pub ks_signal_p-Sent :
    (fuel : ℕ) (s : KernelState) (p sid : ℕ)
    → p ≢ 0
    → sid < 32
    → bit (s.procs p).sig_allow sid ≡ true
    → ready (queue_of s p) ≡ []
    → Sent s p sid (ks_signal_p (suc fuel) s p sid)
unfolding ks_signal_p
ks_signal_p-Sent fuel s p sid at small allowed unready =
    let null = apart p 0 at in
    let valid = in_range sid small in
    elim (Bool-cases ((s.procs p).sig_vec sid)) [
      | inl pending ↦ inl (pending, rw (null, valid, pending) refl)
      | inr new ↦ inr (
        new,
        subst (Delivered (raised s p sid) p sid) (rw (null, valid, new, allowed) refl) (
            deliver-Delivered (raised s p sid) p sid small
              (ap ready (raised-queue s p sid) ∙ unready)),
      )
    ]

select-middle :
    {A : Type 0} (f : A → Bool) (a : List A) (x : A) (b : List A)
    → select f (a ++ (x ∷ b)) ≡ []
    → select f (a ++ b) ≡ []
select-middle f [] x b h = elim (Bool-cases (f x)) [
  | inl on ↦ let e : x ∷ select f b ≡ [] = sym (rw on refl) ∙ h in absurd (ground (arith, e))
  | inr off ↦ sym (rw off refl) ∙ h
]
select-middle f (y ∷ a) x b h = elim (Bool-cases (f y)) [
  | inl on ↦
      let e : y ∷ select f (a ++ (x ∷ b)) ≡ [] = sym (rw on refl) ∙ h in absurd (ground (arith, e))
  | inr off ↦ rw off (select-middle f a x b (sym (rw off refl) ∙ h))
]

-- A call ends in a state where the process is quiet, or for want of memory.
abbrev pub StaysQuiet : ℕ → Out → Type 0
StaysQuiet p (returned err s) = (err ≡ success) × IsQuiet s p ⊎ (err ≡ no_mem)
StaysQuiet p shut_down = ⊥
StaysQuiet p out_of_fuel = ⊥

was_set : (v : ℕ → Bool) (i sid : ℕ) → set_bit (set_bit v sid true) sid false i ≡ true → v i ≡ true
was_set v i sid h = ground (arith, h)

Delivered-StaysQuiet :
    (s : KernelState) (p sid : ℕ) (out : Out)
    → IsQuiet s p
    → Delivered (raised s p sid) p sid out
    → StaysQuiet p out
Delivered-StaysQuiet s p sid shut_down quiet d = elim d [ ]
Delivered-StaysQuiet s p sid out_of_fuel quiet d = elim d [ ]
Delivered-StaysQuiet s p sid (returned err s') (unready, quiet)
      (inl (nobody, (ok, (w, (r, (procs, _)))))) =
    let before = raised-queue s p sid in
    let sig : (s'.procs p).sig_vec ≡ set_bit (s.procs p).sig_vec sid true =
      ap (λ f. (f p).sig_vec) procs ∙ raised-sig_vec s p sid in
    inl (
      ok,
      (
        r,
        λ i b h. ap (λ l. select (accepts i) l) w ∙ elim (Bool-cases (i == sid)) [
          | inl here ↦
              let same : i ≡ sid = ground (arith, here) in
              ap (λ j. select (accepts j) (waiting (queue_of (raised s p sid) p))) same ∙ nobody
          | inr elsewhere ↦
              ap (λ q. select (accepts i) (waiting q)) before
              ∙ quiet i b (sym (ap (λ f. f i) sig ∙ rw elsewhere refl) ∙ h)
        ],
      ),
    )
Delivered-StaysQuiet s p sid (returned err s') (unready, quiet)
      (inr (seen, w, left, split, before, takes, inl (ok, (w', (r, (sig, _)))))) =
    inl (
      ok,
      (
        r,
        λ i b h.
            ap (λ l. select (accepts i) l) w'
            ∙ select-middle (accepts i) seen w left (
                ap (λ l. select (accepts i) l) (sym split)
                ∙ (ap (λ q. select (accepts i) (waiting q)) (raised-queue s p sid)
                    ∙ quiet i b (
                        was_set (s.procs p).sig_vec i sid (
                          sym (
                            ap (λ f. f i)
                              (sig ∙ ap (λ v. set_bit v sid false) (raised-sig_vec s p sid)))
                          ∙ h)))),
      ),
    )
Delivered-StaysQuiet s p sid (returned err s') (unready, quiet)
      (inr (seen, w, left, split, before, takes, inr (bad, _))) =
    inr bad

pub ks_signal_p-StaysQuiet :
    (fuel : ℕ) (s : KernelState) (p sid : ℕ)
    → p ≢ 0
    → sid < 32
    → bit (s.procs p).sig_allow sid ≡ true
    → IsQuiet s p
    → StaysQuiet p (ks_signal_p (suc fuel) s p sid)
ks_signal_p-StaysQuiet fuel s p sid at small allowed quiet =
    elim (ks_signal_p-Sent fuel s p sid at small allowed quiet.0) [
      | inl (_, same) ↦ subst (StaysQuiet p) (sym same) (inl (refl, quiet))
      | inr (_, delivered) ↦
          Delivered-StaysQuiet s p sid (ks_signal_p (suc fuel) s p sid) quiet delivered
    ]
