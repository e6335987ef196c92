-- ===== src/Kernel/Process/Kept.antt =====
-- Changes of the tree of processes: parents that stay what they are, or become the root.
use fern_os.Prelude.{
  ℕ, ◌<◌, ◌≡◌, ◌≢◌, refl, ap, sym, subst, ◌∙◌, ◌⊎◌, Bool-cases, ℕ_discrete, inl, inr, true, false,
  List, [], ◌∷◌, arith, ◌==◌, get_or,
}
use fern_os.Map.{Map}
use fern_os.Kernel.Process.{
  Process, KernelState, set_proc, set_bit, word_bytes, put_user, release, wake_signalled, reparent,
  detach_all,
}

-- What a process that is changed, but not in the field `f`, leaves of that field in all of them.
pub set_proc-field :
    {A : Type 0} (f : Process → A) (s : KernelState) (q : ℕ) (proc : Process) (i : ℕ)
    → f proc ≡ f (s.procs q)
    → f ((set_proc s q proc).procs i) ≡ f (s.procs i)
set_proc-field f s q proc i same = elim (ℕ_discrete i q) [
  | yes at ↦
      let here : i == q ≡ true = ground (arith, at) in
      rw here (same ∙ ap (λ j. f (s.procs j)) (sym at))
  | no other ↦ let elsewhere : i == q ≡ false = ground (arith, other) in rw elsewhere refl
]

pub detach_all-same :
    (ts : Map ℕ) (s : KernelState)
    → ((detach_all ts s).procs ≡ s.procs) × ((detach_all ts s).root_proc ≡ s.root_proc)
detach_all-same [] s = (refl, refl)
detach_all-same ((_, t) ∷ ts) s = detach_all-same ts _

put_user-same :
    (s : KernelState) (p u_ptr : ℕ) (bytes : List ℕ)
    → ((put_user s p u_ptr bytes).procs ≡ s.procs)
      × ((put_user s p u_ptr bytes).root_proc ≡ s.root_proc)
put_user-same s p u_ptr bytes = elim (Bool-cases (u_ptr == 0)) [
  | inl null ↦ (rw (put_user, null) refl, rw (put_user, null) refl)
  | inr ptr ↦ (rw (put_user, ptr) refl, rw (put_user, ptr) refl)
]

module _ (r : ℕ) where
  -- Parents that stay what they are, or become the root.
  abbrev pub Kept : KernelState → KernelState → Type 0
  Kept s s' =
      (s'.root_proc ≡ s.root_proc)
      × ((p : ℕ) → ((s'.procs p).parent ≡ (s.procs p).parent) ⊎ ((s'.procs p).parent ≡ r))

  pub Kept-trans : (s s' s'' : KernelState) → Kept s s' → Kept s' s'' → Kept s s''
  Kept-trans s s' s'' (e, k) (e', k') = (
    e' ∙ e,
    λ p. elim (k' p) [
      | inr to_root ↦ inr to_root
      | inl same ↦ elim (k p) [
        | inl same' ↦ inl (same ∙ same')
        | inr to_root ↦ inr (same ∙ to_root)
      ]
    ],
  )

  pub set_proc-Kept :
      (s : KernelState) (q : ℕ) (proc : Process)
      → proc.parent ≡ (s.procs q).parent
      → Kept s (set_proc s q proc)
  set_proc-Kept s q proc same =
      (refl, λ p. inl (set_proc-field (λ (x : Process). x.parent) s q proc p same))

  pub same-Kept :
      (s s' : KernelState) → (s'.procs ≡ s.procs) × (s'.root_proc ≡ s.root_proc) → Kept s s'
  same-Kept s s' (procs, root) = (root, λ p. inl (ap (λ f. (f p).parent) procs))

  pub reparent-Kept : (ps : List ℕ) (q : ℕ) (s : KernelState) → q ≡ r → Kept s (reparent ps q s)
  reparent-Kept [] q s to_root = (refl, λ p. inl refl)
  reparent-Kept (c ∷ ps) q s to_root =
      let s' = set_proc s c (record (s.procs c) { parent = q }) in
      Kept-trans s s' (reparent ps q s')
        (
          refl,
          λ p. elim (Bool-cases (p == c)) [ inl e ↦ inr (rw e to_root) | inr e ↦ inl (rw e refl) ],
        )
        (reparent-Kept ps q s' to_root)

  pub detach_all-Kept : (ts : Map ℕ) (s : KernelState) → Kept s (detach_all ts s)
  detach_all-Kept ts s = same-Kept s (detach_all ts s) (detach_all-same ts s)

  pub wake_signalled-Kept : (s : KernelState) (p sid t : ℕ) → Kept s (wake_signalled s p sid t)
  unfolding wake_signalled release
  wake_signalled-Kept s p sid t =
      let cleared =
        set_proc s p (record (s.procs p) { sig_vec = set_bit (s.procs p).sig_vec sid false }) in
      let u_sid = get_or (s.kernel.threads t).wait_ctx 0 0 in
      Kept-trans s cleared (wake_signalled s p sid t) (set_proc-Kept s p _ refl) (
        same-Kept cleared (wake_signalled s p sid t)
          (put_user-same (release cleared t) (s.thread_proc t) u_sid (word_bytes sid)))

-- Every process but the root `r` has a parent that is nearer to the root, or none.
module _ (r : ℕ) (rank : ℕ → ℕ) where
  abbrev pub IsTree : KernelState → Type 0
  IsTree s =
      (s.root_proc ≡ r)
      × ((p : ℕ) → p ≢ r → (s.procs p).parent ≢ 0 → rank (s.procs p).parent < rank p)

  pub Kept-IsTree :
      (low : (c : ℕ) → c ≢ r → rank r < rank c)
      → (s s' : KernelState) → Kept r s s'
      → IsTree s
      → IsTree s'
  Kept-IsTree low s s' (root', kept) (root, tree) = (
    root' ∙ root,
    λ p h h'. elim (kept p) [
      | inl same ↦ subst (λ q. rank q < rank p) (sym same) (tree p h (λ z. h' (same ∙ z)))
      | inr to_root ↦ subst (λ q. rank q < rank p) (sym to_root) (low p h)
    ],
  )
