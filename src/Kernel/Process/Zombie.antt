-- ===== src/Kernel/Process/Zombie.antt =====
-- What a signal does to a process that has exited and waits to be reaped.
use fern_os.Prelude.{
  ℕ, suc, ◌<◌, ◌≡◌, ◌≢◌, refl, ap, sym, subst, ◌∙◌, All, true, false, some, List, [], ◌∷◌, ◌++◌,
  arith, ltb, leb, ◌==◌,
}
use fern_os.Err.{success, state_mismatch, Mem}
use fern_os.Map.{mp_get}
use fern_os.ListT.{ListT, new_list, cells, l_get_len, l_push_back_all, l_pop_first_match, pop_match}
use fern_os.Kernel.Process.{
  Process, KernelState, set_proc, Out, returned, and_then, same_err, bit, set_bit, proc_es_signal,
  detach_all, adopt_children, adopt_zombies, hand_over, tell_root, ks_abandon_children, bury,
  exit_proc, ks_signal_p,
}
use fern_os.Kernel.Process.Kept.{set_proc-field, detach_all-same}
use fern_os.Kernel.Process.Calls.{with_head-cons, receiver, send, succeed, ks_signal}

abbrev children_of : Process → List ℕ
children_of proc = cells proc.children

abbrev zombies_of : Process → List ℕ
zombies_of proc = cells proc.zombie_children

abbrev parent_of : Process → ℕ
parent_of proc = proc.parent

apart : (i j : ℕ) → i ≢ j → i == j ≡ false
apart i j h = ground (arith, h)

in_range : (sid : ℕ) → sid < 32 → leb 32 sid ≡ false
in_range sid h = ground arith

pop_match-missing :
    (p : ℕ) (b l : List ℕ) → All (λ c. c ≢ p) l → (pop_match (λ i. i == p) b l).0 ≡ false
pop_match-missing p b [] h = refl
pop_match-missing p b (c ∷ l) (other, h) =
    let e : c == p ≡ false = ground (arith, other) in rw e (pop_match-missing p (b ++ (c ∷ [])) l h)

module _ (signal : KernelState → ℕ → ℕ → Out) where
  -- Nothing that the exit of `p` looks at has changed.
  abbrev Alike : KernelState → KernelState → Type 0
  Alike s s' =
      (s'.root_proc ≡ s.root_proc)
      × ((i : ℕ)
          → (cells (s'.procs i).children ≡ cells (s.procs i).children)
            × ((cells (s'.procs i).zombie_children ≡ cells (s.procs i).zombie_children)
                × ((s'.procs i).parent ≡ (s.procs i).parent)))

  push_all-none :
      (l l' : ListT ℕ) (mem : Mem)
      → cells l' ≡ []
      → l_push_back_all l l' mem ≡ (success, l, new_list, mem)
  unfolding l_push_back_all
  push_all-none l l' mem e = rw e refl

  adopt_children-none :
      (s : KernelState) (p : ℕ)
      → cells (s.procs p).children ≡ []
      → (s' : KernelState) × (adopt_children s p ≡ returned success s') × Alike s s'
  unfolding adopt_children
  adopt_children-none s p e =
      let root = s.root_proc in
      let s2 = set_proc s root (s.procs root) in
      let s3 = set_proc s2 p (record (s2.procs p) { children = new_list }) in
      (
        s3,
        rw
            (
              adopt_children,
              e,
              push_all-none (s.procs root).children (s.procs p).children s.kernel.mem e,
            )
            refl,
        (
          refl,
          λ i. (
            set_proc-field children_of s2 p (record (s2.procs p) { children = new_list }) i
                  (sym (set_proc-field children_of s root (s.procs root) p refl ∙ e))
                ∙ set_proc-field children_of s root (s.procs root) i refl,
            (
              set_proc-field zombies_of s2 p (record (s2.procs p) { children = new_list }) i refl
                  ∙ set_proc-field zombies_of s root (s.procs root) i refl,
              set_proc-field parent_of s2 p (record (s2.procs p) { children = new_list }) i refl
                  ∙ set_proc-field parent_of s root (s.procs root) i refl,
            ),
          ),
        ),
      )

  adopt_zombies-none :
      (s : KernelState) (p : ℕ)
      → cells (s.procs p).zombie_children ≡ []
      → (s' : KernelState) × (adopt_zombies s p ≡ returned success s') × Alike s s'
  unfolding adopt_zombies
  adopt_zombies-none s p e =
      let root = s.root_proc in
      let s2 = set_proc s root (s.procs root) in
      let s3 = set_proc s2 p (record (s2.procs p) { zombie_children = new_list }) in
      (
        s3,
        rw
            (
              adopt_zombies,
              e,
              push_all-none (s.procs root).zombie_children (s.procs p).zombie_children s.kernel.mem
                  e,
            )
            refl,
        (
          refl,
          λ i. (
            set_proc-field children_of s2 p (record (s2.procs p) { zombie_children = new_list }) i
                  refl
                ∙ set_proc-field children_of s root (s.procs root) i refl,
            (
              set_proc-field zombies_of s2 p (record (s2.procs p) { zombie_children = new_list }) i
                    (sym (set_proc-field zombies_of s root (s.procs root) p refl ∙ e))
                  ∙ set_proc-field zombies_of s root (s.procs root) i refl,
              set_proc-field parent_of s2 p (record (s2.procs p) { zombie_children = new_list }) i
                    refl
                  ∙ set_proc-field parent_of s root (s.procs root) i refl,
            ),
          ),
        ),
      )

  Alike-trans : (s s' s'' : KernelState) → Alike s s' → Alike s' s'' → Alike s s''
  Alike-trans s s' s'' (e, f) (e', g) =
      (e' ∙ e, λ i. ((g i).0 ∙ (f i).0, ((g i).1.0 ∙ (f i).1.0, (g i).1.1 ∙ (f i).1.1)))

  hand_over-none :
      (s : KernelState) (p : ℕ)
      → cells (s.procs p).children ≡ []
      → cells (s.procs p).zombie_children ≡ []
      → (s' : KernelState) × (hand_over signal false s p ≡ returned success s') × Alike s s'
  unfolding hand_over tell_root
  hand_over-none s p e e' =
      let (s1, step1, alike1) = adopt_children-none s p e in
      let (s2, step2, alike2) = adopt_zombies-none s1 p ((alike1.1 p).1.0 ∙ e') in
      (s2, rw (step1, step2) refl, Alike-trans s s1 s2 alike1 alike2)

  bury-missing :
      (p status : ℕ) (s : KernelState)
      → All (λ c. c ≢ p) (children_of (s.procs (s.procs p).parent))
      → (s' : KernelState) × (bury signal p status s ≡ returned state_mismatch s')
  unfolding bury l_pop_first_match
  bury-missing p status s missing =
      let q = (s.procs p).parent in
      let (_, l) = l_pop_first_match (s.procs q).children (λ i. i == p) in
      (
        set_proc s q (record (s.procs q) { children = l }),
        rw (pop_match-missing p [] (children_of (s.procs q)) missing) refl,
      )

  ks_abandon_children-below :
      (s : KernelState) (p : ℕ)
      → p == 0 ≡ false
      → p == s.root_proc ≡ false
      → ltb 0 (l_get_len (s.procs p).zombie_children) ≡ false
      → ks_abandon_children signal s p ≡ hand_over signal false s p
  unfolding ks_abandon_children
  ks_abandon_children-below s p null root no_zombies = rw (null, root, no_zombies) refl

  ks_abandon_children-none :
      (s : KernelState) (p : ℕ)
      → p ≢ 0
      → p ≢ s.root_proc
      → cells (s.procs p).children ≡ []
      → cells (s.procs p).zombie_children ≡ []
      → (s' : KernelState) × (ks_abandon_children signal s p ≡ returned success s') × Alike s s'
  unfolding l_get_len
  ks_abandon_children-none s p at below e e' =
      let (s', step, alike) = hand_over-none s p e e' in
      let null : p == 0 ≡ false = apart p 0 at in
      let root : p == s.root_proc ≡ false = apart p s.root_proc below in
      (s', ks_abandon_children-below s p null root (rw e' refl) ∙ step, alike)

  exit_proc-zombie :
      (s : KernelState) (p status : ℕ)
      → p ≢ 0
      → p ≢ s.root_proc
      → cells (s.procs p).children ≡ []
      → cells (s.procs p).zombie_children ≡ []
      → All (λ c. c ≢ p) (children_of (s.procs (s.procs p).parent))
      → (s' : KernelState) × (exit_proc signal s p status ≡ returned state_mismatch s')
  unfolding exit_proc
  exit_proc-zombie s p status at below e e' missing =
      let d = detach_all (s.procs p).thread_table s in
      let (procs, root) = detach_all-same (s.procs p).thread_table s in
      let alike : Alike s d = (
        root,
        λ i. (
          ap (λ f. children_of (f i)) procs,
          (ap (λ f. zombies_of (f i)) procs, ap (λ f. parent_of (f i)) procs),
        ),
      ) in
      let (s1, step1, alike1) =
        ks_abandon_children-none d p at (λ h. below (h ∙ root)) ((alike.1 p).0 ∙ e)
          ((alike.1 p).1.0 ∙ e') in
      let (same_root, same) = Alike-trans s d s1 alike alike1 in
      let q = (s.procs p).parent in
      let missing1 : All (λ c. c ≢ p) (children_of (s1.procs (s1.procs p).parent)) =
        subst (λ l. All (λ c. c ≢ p) l)
          (sym (ap (λ i. children_of (s1.procs i)) (same p).1.1 ∙ (same q).0)) missing in
      let (s2, step2) = bury-missing p status s1 missing1 in
      let not_root : s.root_proc == p ≡ false = apart s.root_proc p (λ h. below (sym h)) in
      (s2, rw (not_root, step1, step2) refl)

-- A process that has exited: no list of living children has it, and its own children are gone.
abbrev pub IsZombie : KernelState → ℕ → Type 0
IsZombie s p =
    (p ≢ 0)
    × ((p ≢ s.root_proc)
        × ((cells (s.procs p).children ≡ [])
            × ((cells (s.procs p).zombie_children ≡ [])
                × All (λ c. c ≢ p) (children_of (s.procs (s.procs p).parent)))))

ks_signal_p-zombie :
    (fuel : ℕ) (s : KernelState) (p sid : ℕ)
    → IsZombie s p
    → sid < 32
    → (s.procs p).sig_vec sid ≡ false
    → bit (s.procs p).sig_allow sid ≡ false
    → (s' : KernelState) × (ks_signal_p (suc fuel) s p sid ≡ returned state_mismatch s')
unfolding ks_signal_p
ks_signal_p-zombie fuel s p sid (at, (below, (e, (e', missing)))) small new forbidden =
    let proc = record (s.procs p) { sig_vec = set_bit (s.procs p).sig_vec sid true } in
    let s1 = set_proc s p proc in
    let kept = λ (i : ℕ). set_proc-field children_of s p proc i refl in
    let parent = set_proc-field parent_of s p proc p refl in
    let missing1 : All (λ c. c ≢ p) (children_of (s1.procs (s1.procs p).parent)) =
      subst (λ l. All (λ c. c ≢ p) l)
        (sym (ap (λ i. children_of (s1.procs i)) parent ∙ kept (s.procs p).parent)) missing in
    let (s', step) =
      exit_proc-zombie (ks_signal_p fuel) s1 p proc_es_signal at below (kept p ∙ e)
        (set_proc-field zombies_of s p proc p refl ∙ e') missing1 in
    let null : p == 0 ≡ false = apart p 0 at in
    let valid : leb 32 sid ≡ false = in_range sid small in
    (s', rw (null, valid, new, forbidden, step) refl)

ks_signal-found :
    (max_procs fuel : ℕ) (s : KernelState) (t : ℕ) (ts : List ℕ) (pid p sid : ℕ)
    → s.kernel.schedule ≡ t ∷ ts
    → receiver max_procs s t pid ≡ p
    → p == 0 ≡ false
    → ks_signal max_procs fuel s pid sid ≡ and_then (ks_signal_p fuel s p sid) same_err (succeed t)
unfolding ks_signal send
ks_signal-found max_procs fuel s t ts pid p sid running there at =
    with_head-cons s.kernel.schedule t ts s (λ i. send fuel s i (receiver max_procs s i pid) sid)
      running
    ∙ (ap (λ r. send fuel s t r sid) there ∙ rw (send, at) refl)

-- A running thread that sends a zombie, found by its id, a signal that is not pending and that the
-- zombie does not allow makes the system call itself fail with FOS_E_STATE_MISMATCH, whatever the
-- rest of the state is: the zombie is exited again, and its parent no longer has it as a child.
pub ks_signal-zombie :
    (max_procs fuel : ℕ) (s : KernelState) (t : ℕ) (ts : List ℕ) (pid p sid : ℕ)
    → s.kernel.schedule ≡ t ∷ ts
    → pid < max_procs
    → mp_get s.proc_table pid ≡ some p
    → IsZombie s p
    → sid < 32
    → (s.procs p).sig_vec sid ≡ false
    → bit (s.procs p).sig_allow sid ≡ false
    → (s' : KernelState) × (ks_signal max_procs (suc fuel) s pid sid ≡ returned state_mismatch s')
ks_signal-zombie max_procs fuel s t ts pid p sid running known there zombie small new forbidden =
    let (s', step) = ks_signal_p-zombie fuel s p sid zombie small new forbidden in
    let given : pid == max_procs ≡ false = apart pid max_procs (λ h. omega arith) in
    let some_proc : p == 0 ≡ false = apart p 0 zombie.0 in
    (
      s',
      ks_signal-found max_procs (suc fuel) s t ts pid p sid running (rw (given, there) refl)
            some_proc
          ∙ rw step refl,
    )
