-- ===== src/Kernel/Process/Calls/Runs.antt =====
-- Runs of the calls that change what is pending for a process and who waits for it.
use fern_os.Prelude.{
  ℕ, suc, ◌<◌, ◌≡◌, ◌≢◌, inl, inr, refl, ap, sym, subst, ◌∙◌, Bool, true, not, ◌&&◌, List, ◌∷◌,
  arith, select,
}
use fern_os.Err.{success, is_success}
use fern_os.WaitQueue.Vector.{accepts}
use fern_os.WaitQueue.Vector.Laws.{waiting, ready}
use fern_os.Kernel.Thread.{scheduled}
use fern_os.Kernel.Process.{Process, KernelState, set_proc, Out, returned, bit, ks_signal_p}
use fern_os.Kernel.Process.Delivery.{queue_of, set_proc-at}
use fern_os.Kernel.Process.Signals.{IsQuiet, StaysQuiet, ks_signal_p-StaysQuiet}
use fern_os.Kernel.Process.Calls.{with_head-cons, ks_wait_signal, ks_signal_clear}
use fern_os.Kernel.Process.Calls.Waiting.{ks_wait_signal-StaysQuiet}

-- A call that succeeds: someone sends the process `p` a signal that it allows, or its running thread
-- waits for signals, or clears some.
pub data Step (p : ℕ) : KernelState → KernelState → Type 0 where
  sends :
      {s s' : KernelState} (fuel sid : ℕ)
      → sid < 32
      → bit (s.procs p).sig_allow sid ≡ true
      → ks_signal_p (suc fuel) s p sid ≡ returned success s'
      → Step p s s'
  waits :
      {s s' : KernelState} (t : ℕ) (ts : List ℕ) (sv u_sid : ℕ)
      → s.kernel.schedule ≡ t ∷ ts
      → (s.kernel.threads t).state ≡ scheduled
      → s.thread_proc t ≡ p
      → sv ≢ 0
      → ks_wait_signal s sv u_sid ≡ returned success s'
      → Step p s s'
  clears :
      {s s' : KernelState} (t : ℕ) (ts : List ℕ) (sv : ℕ)
      → s.kernel.schedule ≡ t ∷ ts
      → s.thread_proc t ≡ p
      → ks_signal_clear s sv ≡ returned success s'
      → Step p s s'

pub data Steps (p : ℕ) : KernelState → KernelState → Type 0 where
  done : {s : KernelState} → Steps p s s
  step : {s s' s'' : KernelState} → Step p s s' → Steps p s' s'' → Steps p s s''

StaysQuiet-IsQuiet :
    (p : ℕ) (out : Out) (s' : KernelState)
    → out ≡ returned success s'
    → StaysQuiet p out
    → IsQuiet s' p
StaysQuiet-IsQuiet p out s' e h = elim (subst (StaysQuiet p) e h) [
  | inl (_, quiet) ↦ quiet
  | inr bad ↦ absurd (ground (arith, ap is_success bad))
]

was_set : (v : ℕ → Bool) (b : Bool) (i : ℕ) → v i && b ≡ true → v i ≡ true
was_set v b i h = ground (arith, h)

clears-StaysQuiet :
    (s : KernelState) (t : ℕ) (ts : List ℕ) (sv : ℕ)
    → s.kernel.schedule ≡ t ∷ ts
    → IsQuiet s (s.thread_proc t)
    → StaysQuiet (s.thread_proc t) (ks_signal_clear s sv)
unfolding ks_signal_clear
clears-StaysQuiet s t ts sv head (unready, quiet) =
    let p = s.thread_proc t in
    let proc = record (s.procs p) { sig_vec = λ i. (s.procs p).sig_vec i && not (bit sv i) } in
    let at = set_proc-at s p proc in
    let same : queue_of (set_proc s p proc) p ≡ queue_of s p =
      ap (λ (x : Process). s.kernel.vectors x.signal_queue) at in
    subst (StaysQuiet p) (sym (with_head-cons s.kernel.schedule t ts s _ head)) (
      inl (
        refl,
        (
          ap ready same ∙ unready,
          λ i b h.
              ap (λ q. select (accepts i) (waiting q)) same
              ∙ quiet i b (
                  was_set (s.procs p).sig_vec (not (bit sv i)) i
                    (sym (ap (λ (x : Process). x.sig_vec i) at) ∙ h)),
        ),
      ))

Step-IsQuiet : (p : ℕ) (s s' : KernelState) → p ≢ 0 → Step p s s' → IsQuiet s p → IsQuiet s' p
Step-IsQuiet p s s' at (sends fuel sid small allowed e) quiet =
    StaysQuiet-IsQuiet p (ks_signal_p (suc fuel) s p sid) s' e
      (ks_signal_p-StaysQuiet fuel s p sid at small allowed quiet)
Step-IsQuiet p s s' at (waits t ts sv u_sid head running owner some_signal e) quiet =
    subst (λ q. IsQuiet s' q) owner
      (StaysQuiet-IsQuiet (s.thread_proc t) (ks_wait_signal s sv u_sid) s' e (
        ks_wait_signal-StaysQuiet s t ts sv u_sid head running some_signal
          (subst (λ q. IsQuiet s q) (sym owner) quiet)))
Step-IsQuiet p s s' at (clears t ts sv head owner e) quiet =
    subst (λ q. IsQuiet s' q) owner
      (StaysQuiet-IsQuiet (s.thread_proc t) (ks_signal_clear s sv) s' e
        (clears-StaysQuiet s t ts sv head (subst (λ q. IsQuiet s q) (sym owner) quiet)))

-- No signal is lost: however many calls of `ks_signal_p` for a process and of `ks_wait_signal` and
-- `ks_signal_clear` by its threads succeed, in whatever order, a process that was quiet is quiet: no
-- thread of it is left ready but asleep, and none waits for a signal that is pending.
pub Steps-IsQuiet : (p : ℕ) (s s' : KernelState) → p ≢ 0 → Steps p s s' → IsQuiet s p → IsQuiet s' p
Steps-IsQuiet p s s' at done quiet = quiet
Steps-IsQuiet p s s' at (step {s' = s1} first rest) quiet =
    Steps-IsQuiet p s1 s' at rest (Step-IsQuiet p s s1 at first quiet)
