-- ===== src/Kernel/Process/Ends.antt =====
-- Signals that exit processes, whose exits send signals, come to an end.
use fern_os.Prelude.{
  ℕ, zero, suc, ◌<◌, ◌≡◌, ◌≢◌, refl, sym, subst, ◌∙◌, Bool, Bool-cases, Option-cases, ℕ_discrete,
  inl, inr, true, false, not, ◌||◌, arith, leb, ◌==◌, if◌then◌else◌,
}
use fern_os.Err.{Err, success, bad_args, state_mismatch, is_success}
use fern_os.ListT.{cells, l_push_back, l_push_back_all, l_pop_first_match}
use fern_os.WaitQueue.Vector.{vwq_notify_first, vwq_notify, vwq_pop}
use fern_os.Kernel.Thread.{set_vector}
use fern_os.Kernel.Process.{
  KernelState, set_proc, Out, shut_down, returned, out_of_fuel, and_then, bit, set_bit, set_mem,
  fsig_chld, proc_es_signal, wake_signalled, deliver, reparent, detach_all, as_unknown, same_err,
  adopt_children, adopt_zombies, tell_root, hand_over, ks_abandon_children, bury, exit_proc,
  ks_signal_p,
}
use fern_os.Kernel.Process.Kept.{
  IsTree, Kept, Kept-IsTree, Kept-trans, set_proc-Kept, reparent-Kept, detach_all-Kept,
  wake_signalled-Kept,
}

and_then-success :
    (err : Err) (s : KernelState) (f : Err → Err) (g : KernelState → Out)
    → is_success err ≡ true
    → and_then (returned err s) f g ≡ g s
and_then-success err s f g ok = rw (and_then, ok) refl

and_then-error :
    (err : Err) (s : KernelState) (f : Err → Err) (g : KernelState → Out)
    → is_success err ≡ false
    → and_then (returned err s) f g ≡ returned (f err) s
and_then-error err s f g bad = rw (and_then, bad) refl

module _ (r : ℕ) (rank : ℕ → ℕ) (low : (c : ℕ) → c ≢ r → rank r < rank c) where
  -- A call ends, and leaves a tree.
  abbrev pub EndsWell : Out → Type 0
  EndsWell shut_down = Unit
  EndsWell (returned err s) = IsTree r rank s
  EndsWell out_of_fuel = ⊥

  and_then-EndsWell :
      (out : Out) (f : Err → Err) (g : KernelState → Out)
      → EndsWell out
      → ((s : KernelState) → IsTree r rank s → EndsWell (g s))
      → EndsWell (and_then out f g)
  and_then-EndsWell shut_down f g h h' = tt
  and_then-EndsWell out_of_fuel f g h h' = h
  and_then-EndsWell (returned err s) f g h h' = elim (Bool-cases (is_success err)) [
    | inl ok ↦ subst EndsWell (sym (and_then-success err s f g ok)) (h' s h)
    | inr bad ↦ subst EndsWell (sym (and_then-error err s f g bad)) h
  ]

  deliver-EndsWell : (s : KernelState) (p sid : ℕ) → IsTree r rank s → EndsWell (deliver s p sid)
  unfolding deliver
  deliver-EndsWell s p sid tree =
      let (err, vwq, mem') =
        vwq_notify (s.kernel.vectors (s.procs p).signal_queue) sid vwq_notify_first s.kernel.mem in
      let s1 = record s {
        kernel =
            set_vector (record (set_vector s.kernel (s.procs p).signal_queue vwq) { mem = mem' })
              (s.procs p).signal_queue (vwq_pop vwq).3;
      } in
      elim (Bool-cases (is_success err)) [
        | inr bad ↦ rw bad tree
        | inl ok ↦ rw ok (elim (Option-cases (vwq_pop vwq).1) [
          | inl gone ↦ rw gone tree
          | inr (t, there) ↦ rw there (
              Kept-IsTree r rank low s1 (wake_signalled s1 p sid t)
                (wake_signalled-Kept r s1 p sid t) tree)
        ])
      ]

  adopt_children-EndsWell :
      (s : KernelState) (p : ℕ) → IsTree r rank s → EndsWell (adopt_children s p)
  unfolding adopt_children
  adopt_children-EndsWell s p (root, tree) =
      let s1 = reparent (cells (s.procs p).children) s.root_proc s in
      let (_, l, rest, _) =
        l_push_back_all (s1.procs s.root_proc).children (s1.procs p).children s1.kernel.mem in
      let s2 = set_proc s1 s.root_proc (record (s1.procs s.root_proc) { children = l }) in
      let s3 = set_proc s2 p (record (s2.procs p) { children = rest }) in
      Kept-IsTree r rank low s s3
        (Kept-trans r s s1 s3 (reparent-Kept r (cells (s.procs p).children) s.root_proc s root) (
          Kept-trans r s1 s2 s3 (set_proc-Kept r s1 s.root_proc _ refl)
            (set_proc-Kept r s2 p _ refl)))
        (root, tree)

  adopt_zombies-EndsWell :
      (s : KernelState) (p : ℕ) → IsTree r rank s → EndsWell (adopt_zombies s p)
  unfolding adopt_zombies
  adopt_zombies-EndsWell s p (root, tree) =
      let s1 = reparent (cells (s.procs p).zombie_children) s.root_proc s in
      let (_, l, rest, _) =
        l_push_back_all (s1.procs s.root_proc).zombie_children (s1.procs p).zombie_children
          s1.kernel.mem in
      let s2 = set_proc s1 s.root_proc (record (s1.procs s.root_proc) { zombie_children = l }) in
      let s3 = set_proc s2 p (record (s2.procs p) { zombie_children = rest }) in
      Kept-IsTree r rank low s s3
        (Kept-trans r s s1 s3
          (reparent-Kept r (cells (s.procs p).zombie_children) s.root_proc s root)
          (Kept-trans r s1 s2 s3 (set_proc-Kept r s1 s.root_proc _ refl)
            (set_proc-Kept r s2 p _ refl)))
        (root, tree)

  if-EndsWell :
      (t : Bool) (a b : Out)
      → (t ≡ true → EndsWell a)
      → (t ≡ false → EndsWell b)
      → EndsWell (if t then a else b)
  if-EndsWell true a b h h' = h refl
  if-EndsWell false a b h h' = h' refl

  -- A call of `ks_signal_p` ends for the root, and for what stands nearer to it than `p`.
  module _ (signal : KernelState → ℕ → ℕ → Out) (p : ℕ) (below : p ≢ r)
      (signal_root : (s : KernelState) → IsTree r rank s → EndsWell (signal s r fsig_chld))
      (signal_near : (s : KernelState) (q : ℕ)
        → IsTree r rank s
        → (q ≢ 0 → rank q < rank p)
        → EndsWell (signal s q fsig_chld)) where
    tell_root-EndsWell :
        (new : Bool) (s : KernelState) → IsTree r rank s → EndsWell (tell_root signal new s)
    unfolding tell_root
    tell_root-EndsWell false s tree = tree
    tell_root-EndsWell true s (root, tree) =
        and_then-EndsWell (signal s s.root_proc fsig_chld) as_unknown (λ s'. returned success s')
          (subst (λ q. EndsWell (signal s q fsig_chld)) (sym root) (signal_root s (root, tree)))
          (λ s' tree'. tree')

    hand_over-EndsWell :
        (new : Bool) (s : KernelState) → IsTree r rank s → EndsWell (hand_over signal new s p)
    unfolding hand_over
    hand_over-EndsWell new s tree =
        and_then-EndsWell (adopt_children s p) same_err _ (adopt_children-EndsWell s p tree)
          (λ s1 tree1.
            and_then-EndsWell (adopt_zombies s1 p) same_err (tell_root signal new)
              (adopt_zombies-EndsWell s1 p tree1) (tell_root-EndsWell new))

    ks_abandon_children-EndsWell :
        (s : KernelState) → IsTree r rank s → EndsWell (ks_abandon_children signal s p)
    unfolding ks_abandon_children
    ks_abandon_children-EndsWell s tree =
        if-EndsWell (p == 0) (returned _ s) _ (λ e. tree)
          (λ e.
            if-EndsWell (p == s.root_proc) (returned _ s) (hand_over signal _ s p) (λ e'. tree)
              (λ e'. hand_over-EndsWell _ s tree))

    bury-EndsWell :
        (status : ℕ) (s : KernelState) → IsTree r rank s → EndsWell (bury signal p status s)
    unfolding bury
    bury-EndsWell status s tree =
        let q = (s.procs p).parent in
        let (removed, l) = l_pop_first_match (s.procs q).children (λ i. i == p) in
        let s1 = set_proc s q (record (s.procs q) { children = l }) in
        let s2 = set_proc s1 p (record (s1.procs p) { exited = true; exit_status = status }) in
        let q' = (s2.procs p).parent in
        let (err, z, mem') = l_push_back (s2.procs q').zombie_children p s2.kernel.mem in
        let s3 = set_mem (set_proc s2 q' (record (s2.procs q') { zombie_children = z })) mem' in
        let kept1 : Kept r s s1 = set_proc-Kept r s q _ refl in
        let kept2 : Kept r s s2 = Kept-trans r s s1 s2 kept1 (set_proc-Kept r s1 p _ refl) in
        let kept3 : Kept r s s3 = Kept-trans r s s2 s3 kept2 (set_proc-Kept r s2 q' _ refl) in
        let (root, near) = Kept-IsTree r rank low s s3 kept3 tree in
        if-EndsWell (not removed) (returned state_mismatch s1) _
          (λ e. Kept-IsTree r rank low s s1 kept1 tree)
          (λ e. elim (Bool-cases (is_success err)) [
            | inl ok ↦ rw ok (signal_near s3 (s3.procs p).parent (root, near) (near p below))
            | inr bad ↦ rw bad (root, near)
          ])

    exit_proc-EndsWell :
        (s : KernelState) (status : ℕ) → IsTree r rank s → EndsWell (exit_proc signal s p status)
    unfolding exit_proc
    exit_proc-EndsWell s status (root, tree) =
        if-EndsWell (s.root_proc == p) shut_down _ (λ e. tt)
          (λ e.
            and_then-EndsWell (ks_abandon_children signal (detach_all (s.procs p).thread_table s) p)
              same_err (bury signal p status)
              (ks_abandon_children-EndsWell (detach_all (s.procs p).thread_table s) (
                Kept-IsTree r rank low s (detach_all (s.procs p).thread_table s)
                  (detach_all-Kept r (s.procs p).thread_table s) (root, tree)))
              (bury-EndsWell status))

  exit_proc-root :
      (signal : KernelState → ℕ → ℕ → Out) (s : KernelState) (p status : ℕ)
      → s.root_proc ≡ p
      → exit_proc signal s p status ≡ shut_down
  unfolding exit_proc
  exit_proc-root signal s p status is_root =
      let same : s.root_proc == p ≡ true = ground (arith, is_root) in rw same refl

  ks_signal_p-null :
      (fuel : ℕ) (s : KernelState) (sid : ℕ)
      → 0 < fuel
      → ks_signal_p fuel s 0 sid ≡ returned bad_args s
  unfolding ks_signal_p
  ks_signal_p-null zero s sid h = absurd (omega arith)
  ks_signal_p-null (suc fuel) s sid h = refl

  -- A signal, with all exits and signals that follow from it, comes to an end: in a state whose
  -- processes form a tree (each has a parent of a smaller rank, or none, and the root's rank is the
  -- smallest), fuel greater than the rank of the process is enough for `ks_signal_p`, whatever the
  -- signal, the masks, the queues and the children are. What it leaves is a tree again, with the
  -- same ranks.
  pub ks_signal_p-EndsWell :
      (fuel : ℕ) (s : KernelState) (p sid : ℕ)
      → IsTree r rank s
      → rank p < fuel
      → EndsWell (ks_signal_p fuel s p sid)
  unfolding ks_signal_p
  ks_signal_p-EndsWell zero s p sid tree h = absurd (omega arith)
  ks_signal_p-EndsWell (suc fuel) s p sid tree h =
      let proc = s.procs p in
      let s1 = set_proc s p (record proc { sig_vec = set_bit proc.sig_vec sid true }) in
      let tree1 : IsTree r rank s1 =
        Kept-IsTree r rank low s s1 (set_proc-Kept r s p _ refl) tree in
      if-EndsWell ((p == 0) || leb 32 sid) (returned bad_args s) _ (λ e. tree)
        (λ e.
          if-EndsWell (proc.sig_vec sid) (returned success s) _ (λ e'. tree)
            (λ e'. elim (Bool-cases (bit proc.sig_allow sid)) [
              | inl on ↦ rw on (deliver-EndsWell s1 p sid tree1)
              | inr off ↦ rw off (elim (ℕ_discrete r p) [
                | yes is_root ↦
                    subst EndsWell
                      (sym
                        (exit_proc-root (ks_signal_p fuel) s1 p proc_es_signal (tree.0 ∙ is_root)))
                      tt
                | no below ↦
                    let above : rank r < rank p = low p (λ e. below (sym e)) in
                    exit_proc-EndsWell (ks_signal_p fuel) p (λ e. below (sym e))
                      (λ s' tree'. ks_signal_p-EndsWell fuel s' r fsig_chld tree' (omega arith))
                      (λ s' q tree' near. elim (ℕ_discrete q 0) [
                        | yes null ↦
                            subst (λ q. EndsWell (ks_signal_p fuel s' q fsig_chld)) (sym null)
                              (subst EndsWell
                                (sym (ks_signal_p-null fuel s' fsig_chld (omega arith))) tree')
                        | no at ↦
                            let nearer : rank q < rank p = near at in
                            ks_signal_p-EndsWell fuel s' q fsig_chld tree' (omega arith)
                      ])
                      s1 proc_es_signal tree1
              ])
            ]))
