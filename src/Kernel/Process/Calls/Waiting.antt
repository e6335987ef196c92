-- ===== src/Kernel/Process/Calls/Waiting.antt =====
-- What `ks_wait_signal` does: a pending signal is taken at once, or the thread waits.
use fern_os.Prelude.{
  ℕ, zero, suc, ◌<◌, ◌≤◌, ◌+◌, ◌≡◌, ◌≢◌, ◌⊎◌, inl, inr, refl, ap, ap₂, sym, subst, ◌∙◌, Bool, true,
  false, ◌&&◌, Option, none, some, List, [], ◌∷◌, ◌++◌, arith, set, select, ◌==◌, Bool-cases,
  ℕ_discrete, select-append,
}
use fern_os.Err.{success, no_mem, is_success}
use fern_os.WaitQueue.Vector.{accepts, vwq_enqueue}
use fern_os.WaitQueue.Vector.Laws.{waiting, ready, accepts-mask, vwq_enqueue_cases}
use fern_os.Kernel.Thread.{
  Thread, ThreadState, Kernel, scheduled, vector, block, set_vector, ring_element_detach,
}
use fern_os.Kernel.Thread.Moves.{set_thread-at, block_lem}
use fern_os.Kernel.Process.{
  Process, KernelState, set_proc, set_mem, set_eax, Out, shut_down, returned, out_of_fuel, bit,
  set_bit, put_user, word_bytes,
}
use fern_os.Kernel.Process.Delivery.{
  queue_of, set_proc-at, set_vector-at, put_user-kernel, put_user-procs,
}
use fern_os.Kernel.Process.Signals.{IsQuiet, StaysQuiet}
use fern_os.Kernel.Process.Calls.{
  with_head-cons, first_bit, take_signal, wait_signal, serve, ks_wait_signal,
}

-- The first bit that passes a test, or none, is what `first_bit` finds.
abbrev pub First : (ℕ → Bool) → ℕ → ℕ → Option ℕ → Type 0
First f i n none = (j : ℕ) → i ≤ j → j < i + n → f j ≡ false
First f i n (some m) = (m < i + n) × ((f m ≡ true) × ((j : ℕ) → i ≤ j → j < m → f j ≡ false))

First-suc :
    (f : ℕ → Bool) (i n : ℕ) (o : Option ℕ)
    → f i ≡ false
    → First f (suc i) n o
    → First f i (suc n) o
First-suc f i n none off h = λ j le lt. elim (ℕ_discrete i j) [
  | yes here ↦ ap f (sym here) ∙ off
  | no later ↦ h j (omega arith) (omega arith)
]
First-suc f i n (some m) off (lt, (on, h)) = (
  omega arith,
  (
    on,
    λ j le lt'. elim (ℕ_discrete i j) [
      | yes here ↦ ap f (sym here) ∙ off
      | no later ↦ h j (omega arith) lt'
    ],
  ),
)

pub first_bit-First : (f : ℕ → Bool) (i n : ℕ) → First f i n (first_bit f i n)
unfolding first_bit
first_bit-First f i zero = λ j le lt. absurd (omega arith)
first_bit-First f i (suc n) = elim (Bool-cases (f i)) [
  | inl on ↦ rw on (omega arith, (on, λ j le lt. absurd (omega arith)))
  | inr off ↦ rw off (First-suc f i n (first_bit f (suc i) n) off (first_bit-First f (suc i) n))
]

-- The signals of `sv` that are pending.
abbrev pub wanted : KernelState → ℕ → ℕ → ℕ → Bool
wanted s p sv i = bit sv i && (s.procs p).sig_vec i

-- The lowest pending signal of `sv` is taken: its bit is cleared, it is written for the user, and the
-- thread goes on.
abbrev pub Taken : KernelState → ℕ → ℕ → ℕ → KernelState → Type 0
Taken s t sv u_sid s' =
    let p = s.thread_proc t in
    (msid : ℕ) × (msid < 32)
    × (wanted s p sv msid ≡ true)
    × ((j : ℕ) → j < msid → wanted s p sv j ≡ false)
    × ((s'.procs p).sig_vec ≡ set_bit (s.procs p).sig_vec msid false)
    × (queue_of s' p ≡ queue_of s p)
    × (s'.user ≡ (put_user s p u_sid (word_bytes msid)).user)
    × (s'.kernel.schedule ≡ s.kernel.schedule)
    × ((s'.kernel.threads t).eax ≡ success)

-- The thread has left the schedule for the end of the signal queue.
abbrev pub Blocked : KernelState → ℕ → ℕ → ℕ → KernelState → Type 0
Blocked s t sv u_sid s' =
    let p = s.thread_proc t in
    (waiting (queue_of s' p)
      ≡ waiting (queue_of s p) ++ (record { item = t; ready_mask = sv } ∷ []))
    × (ready (queue_of s' p) ≡ ready (queue_of s p))
    × (s'.procs ≡ s.procs)
    × (s'.kernel.schedule ≡ ring_element_detach s.kernel.schedule t)
    × (s'.kernel.threads t ≡ record {
      state = ThreadState.waiting;
      wq = some (vector (s.procs p).signal_queue);
      wait_ctx = set (s.kernel.threads t).wait_ctx 0 u_sid;
      eax = (s.kernel.threads t).eax;
    })

user-same :
    (s : KernelState) (p : ℕ) (proc : Process) (u_ptr : ℕ) (bytes : List ℕ)
    → (put_user (set_proc s p proc) p u_ptr bytes).user ≡ (put_user s p u_ptr bytes).user
user-same s p proc u_ptr bytes = elim (Bool-cases (u_ptr == 0)) [
  | inl null ↦ rw (put_user, null) refl
  | inr ptr ↦ rw (put_user, ptr) refl
]

take_signal-Taken :
    (s : KernelState) (t msid u_sid sv : ℕ)
    → msid < 32
    → wanted s (s.thread_proc t) sv msid ≡ true
    → ((j : ℕ) → j < msid → wanted s (s.thread_proc t) sv j ≡ false)
    → (s' : KernelState) × (take_signal s t msid u_sid ≡ returned success s')
      × Taken s t sv u_sid s'
unfolding take_signal
take_signal-Taken s t msid u_sid sv lt on lowest =
    let p = s.thread_proc t in
    let proc = record (s.procs p) { sig_vec = set_bit (s.procs p).sig_vec msid false } in
    let cleared = set_proc s p proc in
    let put = put_user cleared p u_sid (word_bytes msid) in
    let kernel = put_user-kernel cleared p u_sid (word_bytes msid) in
    let at : put.procs p ≡ proc =
      ap (λ f. f p) (put_user-procs cleared p u_sid (word_bytes msid)) ∙ set_proc-at s p proc in
    (
      set_eax put t success,
      refl,
      (
        msid,
        lt,
        on,
        lowest,
        ap (λ (x : Process). x.sig_vec) at,
        ap₂ (λ (k : Kernel) (x : Process). k.vectors x.signal_queue) kernel at,
        user-same s p proc u_sid (word_bytes msid),
        ap (λ (k : Kernel). k.schedule) kernel,
        ap (λ (x : Thread). x.eax)
            (set_thread-at put.kernel t (record (put.kernel.threads t) { eax = success })),
      ),
    )

-- The queue has taken the thread, which has not left the schedule yet.
abbrev enqueued : KernelState → ℕ → ℕ → KernelState
enqueued s t sv =
    let q = (s.procs (s.thread_proc t)).signal_queue in
    let (_, vwq, mem') = vwq_enqueue (s.kernel.vectors q) t sv s.kernel.mem in
    set_mem (record s { kernel = set_vector s.kernel q vwq }) mem'

module _ (s : KernelState) (t sv u_sid : ℕ) where
  wait_signal-fails :
      is_success (vwq_enqueue (queue_of s (s.thread_proc t)) t sv s.kernel.mem).0 ≡ false
      → wait_signal s t sv u_sid
        ≡ returned
            (vwq_enqueue (queue_of s (s.thread_proc t)) t sv s.kernel.mem).0
            (enqueued s t sv)
  unfolding wait_signal
  wait_signal-fails bad = rw bad refl

  wait_signal-waits :
      is_success (vwq_enqueue (queue_of s (s.thread_proc t)) t sv s.kernel.mem).0 ≡ true
      → wait_signal s t sv u_sid
        ≡ returned success (record (enqueued s t sv) {
          kernel =
              block
                (enqueued s t sv).kernel
                t
                (vector (s.procs (s.thread_proc t)).signal_queue)
                (some u_sid);
        })
  unfolding wait_signal
  wait_signal-waits ok = rw ok refl

-- The thread has taken a signal, or waits, or memory has run out and it is where it was.
abbrev pub WaitOut : KernelState → ℕ → ℕ → ℕ → Out → Type 0
WaitOut s t sv u_sid (returned err s') =
    (err ≡ success) × Taken s t sv u_sid s'
    ⊎ ((j : ℕ) → j < 32 → wanted s (s.thread_proc t) sv j ≡ false)
      × ((err ≡ success) × Blocked s t sv u_sid s'
          ⊎ (err ≡ no_mem)
            × ((queue_of s' (s.thread_proc t) ≡ queue_of s (s.thread_proc t))
                × (s'.kernel.threads ≡ s.kernel.threads)))
WaitOut s t sv u_sid _ = ⊥

wait_signal-WaitOut :
    (s : KernelState) (t sv u_sid : ℕ)
    → sv == 0 ≡ false
    → (s.kernel.threads t).state ≡ scheduled
    → ((j : ℕ) → j < 32 → wanted s (s.thread_proc t) sv j ≡ false)
    → WaitOut s t sv u_sid (wait_signal s t sv u_sid)
wait_signal-WaitOut s t sv u_sid some_signal running none_pending =
    let q = (s.procs (s.thread_proc t)).signal_queue in
    let (err, vwq, mem') = vwq_enqueue (s.kernel.vectors q) t sv s.kernel.mem in
    let at = set_vector-at s.kernel q vwq in
    elim (vwq_enqueue_cases (s.kernel.vectors q) t sv s.kernel.mem some_signal) [
      | inl (ok, w, r) ↦
          let (schedule, thread, vectors) =
            block_lem (enqueued s t sv).kernel t (vector q) u_sid running in
          let back = ap (λ f. f q) vectors ∙ at in
          subst (WaitOut s t sv u_sid) (sym (wait_signal-waits s t sv u_sid (ap is_success ok))) (
            inr (
              none_pending,
              inl (refl, (ap waiting back ∙ w, ap ready back ∙ r, refl, schedule, thread)),
            ))
      | inr (bad, same) ↦
          subst (WaitOut s t sv u_sid) (sym (wait_signal-fails s t sv u_sid (ap is_success bad)))
            (inr (none_pending, inr (bad, (at ∙ same, refl))))
    ]

serve-WaitOut :
    (s : KernelState) (t sv u_sid : ℕ) (o : Option ℕ)
    → sv == 0 ≡ false
    → (s.kernel.threads t).state ≡ scheduled
    → First (wanted s (s.thread_proc t) sv) 0 32 o
    → WaitOut s t sv u_sid (serve s t sv u_sid o)
unfolding serve
serve-WaitOut s t sv u_sid (some msid) some_signal running (lt, (on, lowest)) =
    let (s', step, taken) =
      take_signal-Taken s t msid u_sid sv lt on (λ j h. lowest j (omega arith) h) in
    subst (WaitOut s t sv u_sid) (sym step) (inl (refl, taken))
serve-WaitOut s t sv u_sid none some_signal running none_pending =
    wait_signal-WaitOut s t sv u_sid some_signal running (λ j h. none_pending j (omega arith) h)

apart : (i j : ℕ) → i ≢ j → i == j ≡ false
apart i j h = ground (arith, h)

pub ks_wait_signal-WaitOut :
    (s : KernelState) (t : ℕ) (ts : List ℕ) (sv u_sid : ℕ)
    → s.kernel.schedule ≡ t ∷ ts
    → (s.kernel.threads t).state ≡ scheduled
    → sv ≢ 0
    → WaitOut s t sv u_sid (ks_wait_signal s sv u_sid)
unfolding ks_wait_signal
ks_wait_signal-WaitOut s t ts sv u_sid head running some_signal =
    let valid = apart sv 0 some_signal in
    subst (WaitOut s t sv u_sid) (sym (with_head-cons s.kernel.schedule t ts s _ head)) (
      rw valid (
        serve-WaitOut s t sv u_sid (first_bit (wanted s (s.thread_proc t) sv) 0 32) valid running
          (first_bit-First (wanted s (s.thread_proc t) sv) 0 32)))

still_set : (v : ℕ → Bool) (i m : ℕ) → set_bit v m false i ≡ true → v i ≡ true
still_set v i m h = ground (arith, h)

not_wanted : (a b : Bool) → a && b ≡ false → b ≡ true → a ≡ false
not_wanted true true h h' = h
not_wanted false b h h' = refl
not_wanted true false h h' = sym h'

WaitOut-StaysQuiet :
    (s : KernelState) (t sv u_sid : ℕ) (out : Out)
    → IsQuiet s (s.thread_proc t)
    → WaitOut s t sv u_sid out
    → StaysQuiet (s.thread_proc t) out
WaitOut-StaysQuiet s t sv u_sid shut_down quiet w = elim w [ ]
WaitOut-StaysQuiet s t sv u_sid out_of_fuel quiet w = elim w [ ]
WaitOut-StaysQuiet s t sv u_sid (returned err s') (unready, quiet)
      (inl (ok, (msid, _, _, _, sig, queue, _, _, _))) =
    inl (
      ok,
      (
        ap ready queue ∙ unready,
        λ i b h.
            ap (λ q. select (accepts i) (waiting q)) queue
            ∙ quiet i b (
                still_set (s.procs (s.thread_proc t)).sig_vec i msid (sym (ap (λ f. f i) sig) ∙ h)),
      ),
    )
WaitOut-StaysQuiet s t sv u_sid (returned err s') (unready, quiet)
      (inr (none_pending, inl (ok, (w, r, procs, _, _)))) =
    let p = s.thread_proc t in
    inl (
      ok,
      (
        r ∙ unready,
        λ i b h.
            let pending : (s.procs p).sig_vec i ≡ true =
              sym (ap (λ f. (f p).sig_vec i) procs) ∙ h in
            let off : accepts i (record { item = t; ready_mask = sv }) ≡ false =
              accepts-mask t sv i
              ∙ not_wanted (bit sv i) ((s.procs p).sig_vec i) (none_pending i b) pending in
            ap (λ l. select (accepts i) l) w
            ∙ (select-append (accepts i) (waiting (queue_of s p)) _
                ∙ ap₂ (λ l m. l ++ m) (quiet i b pending) (rw off refl)),
      ),
    )
WaitOut-StaysQuiet s t sv u_sid (returned err s') quiet (inr (_, inr (bad, _))) = inr bad

pub ks_wait_signal-StaysQuiet :
    (s : KernelState) (t : ℕ) (ts : List ℕ) (sv u_sid : ℕ)
    → s.kernel.schedule ≡ t ∷ ts
    → (s.kernel.threads t).state ≡ scheduled
    → sv ≢ 0
    → IsQuiet s (s.thread_proc t)
    → StaysQuiet (s.thread_proc t) (ks_wait_signal s sv u_sid)
ks_wait_signal-StaysQuiet s t ts sv u_sid head running some_signal quiet =
    WaitOut-StaysQuiet s t sv u_sid (ks_wait_signal s sv u_sid) quiet
      (ks_wait_signal-WaitOut s t ts sv u_sid head running some_signal)
