-- ===== src/Fat32/Resize/NewChain.antt =====
-- New chains: made of free slots, or undone where there are too few.
use fern_os.Prelude.{
  ℕ, zero, suc, ◌≤◌, ◌<◌, ◌≡◌, ◌≢◌, ◌⊎◌, refl, ap, sym, subst, ◌∙◌, Bool-cases, inl, inr, true,
  false, Option, some, List, [], ◌∷◌, All, elem, length, arith, ◌==◌,
}
use mathlib.Core.Path.{fun_ext}
use fern_os.Err.{Err, success, no_space}
use fern_os.BlockDevice.{BlockDevice, IsDisk}
use fern_os.Fat32.{Layout, mask, eoc, is_eoc, Dev}
use fern_os.Fat32.Slots.{Fits, fat, moved, with_slot, fat32_set_fat_slot_lem}
use fern_os.Fat32.Chain.{fat32_pop_free_fat_slot}
use fern_os.Fat32.Chain.Table.{Chain}
use fern_os.Fat32.Chain.Free.{freed, fat32_free_chain-freed}
use fern_os.Fat32.Chain.Queue.{Free, IsQueue, elem-queue, All-queue, IsQueue-map, Free-map}
use fern_os.Fat32.Chain.Taking.{FitsQueue, IsReady, elem-with_slot, fat32_pop_free_fat_slot-Taken}
use fern_os.Fat32.Resize.{extend_loop, finish_chain, fat32_new_chain}

module _ (b : BlockDevice) (d : IsDisk b) (l : Layout) where
  open l use {num_fat_slots}

  -- A chain from `at` over `slots` that are free in the table `f`, which holds the rest as it was.
  abbrev pub Made : (ℕ → ℕ) → ℕ → List ℕ → Dev b l → Type 0
  Made f at slots dev =
      Chain num_fat_slots (fat b d l dev) at slots
      × All (Free num_fat_slots f) slots
      × ((j : ℕ) → elem j slots ≡ false → fat b d l dev j ≡ f j)
      × IsReady b d l dev

  -- What making a chain of `n` slots does.
  abbrev pub NewChain : (ℕ → ℕ) → ℕ → Option (Err × ℕ × Dev b l) → Type 0
  NewChain f n out =
      (at : ℕ) × (dev : Dev b l) × (((slots : List ℕ) × (out ≡ some (success, at, dev))
          × (length slots ≡ n)
          × Made f at slots dev)
        ⊎ ((out ≡ some (no_space, at, dev)) × (fat b d l dev ≡ f) × IsReady b d l dev))

  -- What adding up to `n` links behind `tail`, the end of a chain, does.
  abbrev Extended : (ℕ → ℕ) → ℕ → ℕ → Err × Dev b l → Type 0
  Extended f n tail (err, dev) =
      (slots : List ℕ) × (((err ≡ success) × (length slots ≡ n)) ⊎ (err ≡ no_space))
      × Chain num_fat_slots (fat b d l dev) tail (tail ∷ slots)
      × All (Free num_fat_slots f) slots
      × ((j : ℕ) → elem j (tail ∷ slots) ≡ false → fat b d l dev j ≡ f j)
      × IsReady b d l dev

  -- One link: a slot is taken, and the end of the chain points to it.
  link :
      (n tail i : ℕ) (dev dev1 : Dev b l)
      → FitsQueue b d l
      → 2 ≤ tail
      → tail < num_fat_slots
      → fat b d l dev tail ≡ eoc
      → fat32_pop_free_fat_slot b l dev true ≡ (success, i, dev1)
      → Free num_fat_slots (fat b d l dev) i
      → IsReady b d l dev1
      → fat b d l dev1 ≡ with_slot (fat b d l dev) i eoc
      → (dev2 : Dev b l) × (extend_loop b l (suc n) tail dev ≡ extend_loop b l n i dev2)
        × IsReady b d l dev2
        × (fat b d l dev2 ≡ with_slot (with_slot (fat b d l dev) i eoc) tail i)
  unfolding extend_loop
  link n tail i dev dev1 f ge lt end popped free ready same =
      let (bd, put, valid, new) = fat32_set_fat_slot_lem b d l dev1 tail i f.fits ready.0 lt in
      let m : mask i ≡ i = omega (arith, free.1, f.fits.no_mark) in
      let used : fat b d l dev1 tail ≢ 0 = ground (arith, ap (λ g. g tail) same, end, free) in
      (
        moved b d l dev1 bd,
        rw (popped, put) refl,
        (
          valid,
          subst (λ g. IsQueue num_fat_slots g dev1.free_q) (sym new)
              (elem-with_slot b d l (fat b d l dev1) tail (mask i) dev1.free_q
                (elem-queue num_fat_slots (fat b d l dev1) tail dev1.free_q used
                  (All-queue num_fat_slots (fat b d l dev1) dev1.free_q ready.1))
                ready.1),
        ),
        new ∙ fun_ext (λ j. ground (arith, m, ap (λ g. g j) same)),
      )

  full :
      (n tail : ℕ) (dev dev1 : Dev b l) (i : ℕ)
      → fat32_pop_free_fat_slot b l dev true ≡ (no_space, i, dev1)
      → extend_loop b l (suc n) tail dev ≡ (no_space, dev1)
  unfolding extend_loop
  full n tail dev dev1 i popped = rw popped refl

  -- The slots behind a new link are free before it, too.
  behind :
      (g : ℕ → ℕ) (tail i k : ℕ)
      → 2 ≤ i
      → Free num_fat_slots (with_slot (with_slot g i eoc) tail i) k
      → Free num_fat_slots g k
  behind g tail i k ge free = ground (arith, free)

  extend_loop-Extended :
      (n tail : ℕ) (dev : Dev b l)
      → FitsQueue b d l
      → IsReady b d l dev
      → 2 ≤ tail
      → tail < num_fat_slots
      → fat b d l dev tail ≡ eoc
      → Extended (fat b d l dev) n tail (extend_loop b l n tail dev)
  unfolding extend_loop
  extend_loop-Extended zero tail dev f ready ge lt end =
      ([], inl (refl, refl), (refl, ge, lt, ap is_eoc end), tt, (λ j out. refl), ready)
  extend_loop-Extended (suc n) tail dev f ready ge lt end =
      let g = fat b d l dev in
      let (err, i, dev1) = fat32_pop_free_fat_slot b l dev true in
      elim (fat32_pop_free_fat_slot-Taken b d l dev f ready) [
        | inr (e, ready1, same) ↦
            let popped : fat32_pop_free_fat_slot b l dev true ≡ (no_space, i, dev1) =
              ap (λ e. (e, i, dev1)) e in
            subst (Extended g (suc n) tail) (sym (full n tail dev dev1 i popped)) (
              [],
              inr refl,
              (refl, ge, lt, ap is_eoc (ap (λ h. h tail) same ∙ end)),
              tt,
              (λ j out. ap (λ h. h j) same),
              ready1,
            )
        | inl (e, free, ready1, same) ↦
            let popped : fat32_pop_free_fat_slot b l dev true ≡ (success, i, dev1) =
              ap (λ e. (e, i, dev1)) e in
            let (dev2, step, ready2, new) =
              link n tail i dev dev1 f ge lt end popped free ready1 same in
            let apart : tail ≢ i = ground (arith, end, free) in
            let at_i : fat b d l dev2 i ≡ eoc = ap (λ h. h i) new ∙ ground (arith, apart) in
            let at_tail : fat b d l dev2 tail ≡ i = ap (λ h. h tail) new ∙ ground arith in
            let (slots, how, chain, all, kept, ready3) =
              extend_loop-Extended n i dev2 f ready2 free.0 free.1 at_i in
            let dev3 = (extend_loop b l n i dev2).1 in
            let in_use_tail : fat b d l dev2 tail ≢ 0 = ground (arith, at_tail, free) in
            let outside : elem tail (i ∷ slots) ≡ false = ground (
              arith,
              apart,
              elem-queue num_fat_slots (fat b d l dev2) tail slots in_use_tail all,
            ) in
            let points : fat b d l dev3 tail ≡ i = kept tail outside ∙ at_tail in
            subst (Extended g (suc n) tail) (sym step) (
              i ∷ slots,
              elim how [ inl (e', len) ↦ inl (e', ap suc len) | inr e' ↦ inr e' ],
              (
                refl,
                ge,
                lt,
                subst (λ k. Chain num_fat_slots (fat b d l dev3) k (i ∷ slots)) (sym points) chain,
              ),
              (
                free,
                Free-map num_fat_slots (fat b d l dev2) g
                    (λ k fr. behind g tail i k free.0 (subst (λ h. Free num_fat_slots h k) new fr))
                    slots all,
              ),
              (λ j out. kept j (ground (arith, out)) ∙ ap (λ h. h j) new ∙ ground (arith, out)),
              ready3,
            )
      ]

  pub Free-elem :
      (f : ℕ → ℕ) (j : ℕ) (ks : List ℕ) → All (Free num_fat_slots f) ks → elem j ks ≡ true → f j ≡ 0
  Free-elem f j [] all h = cc h
  Free-elem f j (k ∷ ks) (free, all) h = elim (Bool-cases (j == k)) [
    | inl e ↦ ground (arith, e, free)
    | inr e ↦ Free-elem f j ks all (ground (arith, h, e))
  ]

  -- Slots that were taken and are freed again.
  undone :
      (f g : ℕ → ℕ) (slots : List ℕ)
      → All (Free num_fat_slots f) slots
      → ((j : ℕ) → elem j slots ≡ false → g j ≡ f j)
      → freed g slots ≡ f
  undone f g slots all kept = fun_ext (λ j. elim (Bool-cases (elem j slots)) [
    | inr out ↦ rw out (kept j out)
    | inl inside ↦ rw inside (sym (Free-elem f j slots all inside))
  ])

  finish_chain-NewChain :
      (f : ℕ → ℕ) (n head : ℕ) (err : Err) (dev : Dev b l)
      → Fits b d l
      → Free num_fat_slots f head
      → Extended (with_slot f head eoc) n head (err, dev)
      → NewChain f (suc n) (finish_chain b l head (err, dev))
  unfolding finish_chain
  finish_chain-NewChain f n head err dev fits free (slots, how, chain, all, kept, ready) =
      let kept' : (j : ℕ) → elem j (head ∷ slots) ≡ false → fat b d l dev j ≡ f j =
        λ j out. kept j out ∙ ground (arith, out) in
      let all' : All (Free num_fat_slots f) (head ∷ slots) = (
        free,
        Free-map num_fat_slots (with_slot f head eoc) f (λ k fr. ground (arith, fr)) slots all,
      ) in
      elim how [
        | inl (e, len) ↦
            (head, dev, inl (head ∷ slots, rw e refl, ap suc len, (chain, all', kept', ready)))
        | inr e ↦
            let (bd, run, valid, new) =
              fat32_free_chain-freed b d l head (head ∷ slots) dev fits ready.0 free.0 free.1
                chain in
            let same : fat b d l (moved b d l dev bd) ≡ f =
              new ∙ undone f (fat b d l dev) (head ∷ slots) all' kept' in
            (
              0,
              moved b d l dev bd,
              inr (
                rw (e, run) refl,
                same,
                (
                  valid,
                  subst (λ g. IsQueue num_fat_slots g dev.free_q) (sym new)
                      (IsQueue-map num_fat_slots (fat b d l dev)
                        (freed (fat b d l dev) (head ∷ slots)) (λ k fr. ground (arith, fr))
                        dev.free_q ready.1),
                ),
              ),
            )
      ]

  -- `fat32_new_chain` of `len` links, for a partition at the start of a device that works as a disk and
  -- a table whose last sector has a slot of the device, with only free slots in the queue: it always
  -- ends, and either makes a chain of `len` slots that were free, with every other slot as it was, or
  -- finds no space and the whole table is as it was. The queue has again only free slots.
  pub fat32_new_chain-NewChain :
      (len : ℕ) (dev : Dev b l)
      → FitsQueue b d l
      → IsReady b d l dev
      → NewChain (fat b d l dev) len (fat32_new_chain b l dev len true)
  unfolding fat32_new_chain
  fat32_new_chain-NewChain zero dev f ready =
      (eoc, dev, inl ([], refl, refl, (refl, tt, (λ j out. refl), ready)))
  fat32_new_chain-NewChain (suc n) dev f ready =
      let g = fat b d l dev in
      let (err, head, dev1) = fat32_pop_free_fat_slot b l dev true in
      elim (fat32_pop_free_fat_slot-Taken b d l dev f ready) [
        | inr (e, ready1, same) ↦ (0, dev1, inr (rw e refl, same, ready1))
        | inl (e, free, ready1, same) ↦
            let ends : fat b d l dev1 head ≡ eoc = ap (λ h. h head) same ∙ ground arith in
            rw e (
              finish_chain-NewChain g n head (extend_loop b l n head dev1).0
                (extend_loop b l n head dev1).1 f.fits free
                (subst (λ h. Extended h n head (extend_loop b l n head dev1)) same
                  (extend_loop-Extended n head dev1 f ready1 free.0 free.1 ends)))
      ]
