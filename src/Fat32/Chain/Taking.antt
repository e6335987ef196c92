-- ===== src/Fat32/Chain/Taking.antt =====
-- Taking a slot from the queue of free slots, which is filled when it is empty.
use fern_os.Prelude.{
  ℕ, zero, suc, ◌+◌, ◌-◌, ◌*◌, ◌/◌, ◌%◌, ◌^◌, ◌≤◌, ◌<◌, ◌≡◌, ◌⊎◌, refl, ap, sym, subst, ◌∙◌,
  Bool-cases, List-cases, inl, inr, true, false, List, [], ◌∷◌, elem, length, arith, ◌==◌, ltb,
}
use fern_os.Err.{Err, success, no_space}
use fern_os.Rand.{next_rand_u32}
use fern_os.BlockDevice.{Sector, BlockDevice, IsDisk}
use fern_os.Fat32.{Layout, mask, eoc, Dev}
use fern_os.Fat32.Slots.{Fits, fat, table, word_at, with_slot, fat32_set_fat_slot_lem}
use fern_os.Fat32.Chain.{
  queue_free, first_slot, end_slot, one_sector, found_any, populate_loop, fat32_populate_free_queue,
  pop_queued, fat32_pop_free_fat_slot,
}
use fern_os.Fat32.Chain.Queue.{Free, IsQueue, queue_free-IsQueue}

module _ (b : BlockDevice) (d : IsDisk b) (l : Layout) where
  open l use {num_fat_slots}

  -- The partition starts the device, and the table has no sector without a slot of the device.
  pub record FitsQueue : Type 0 where
    pub fits : Fits b d l
    pub first : l.bd_offset ≡ 0
    pub some_fat : 0 < l.sectors_per_fat
    pub last_used : (l.sectors_per_fat - 1) * 128 < num_fat_slots

  abbrev pub IsReady : Dev b l → Type 0
  IsReady dev = d.IsValid dev.bd × IsQueue num_fat_slots (fat b d l dev) dev.free_q

  queued-Free :
      (dev : Dev b l) (ind j : ℕ)
      → FitsQueue
      → ind < l.sectors_per_fat
      → first_slot ind ≤ j
      → j < end_slot b l ind
      → mask (word_at (d.sector dev.bd (l.fat_offset + ind)) (j * 4)) ≡ 0
      → Free num_fat_slots (fat b d l dev) (ind * 128 + j)
  queued-Free dev ind j f lt ge lt' z =
      let j_lt : j < 128 = ground (arith, lt') in
      let q : (ind * 128 + j) / 128 ≡ ind = omega arith in
      let r : (ind * 128 + j) % 128 ≡ j = omega arith in
      let at : l.bd_offset + l.fat_offset + ind ≡ l.fat_offset + ind = omega (arith, f.first) in
      (
        elim (Bool-cases (ind == 0)) [ inl e ↦ ground (arith, ge, e) | inr e ↦ ground (arith, e) ],
        elim (Bool-cases (ind == l.sectors_per_fat - 1)) [
          | inr e ↦
              let early : ind < l.sectors_per_fat - 1 = ground (arith, e) in
              omega (arith, early, f.last_used)
          | inl e ↦
              let last : ind ≡ l.sectors_per_fat - 1 = ground (arith, e) in
              elim (Bool-cases (ltb 0 (num_fat_slots % 128))) [
                | inl part ↦
                    let within : j < num_fat_slots % 128 = ground (arith, lt', e, part) in
                    omega (arith, within, last, f.last_used, f.fits.in_table)
                | inr full ↦
                    let whole : num_fat_slots % 128 ≡ 0 = ground (arith, full) in
                    omega (arith, whole, last, j_lt, f.last_used, f.fits.in_table)
              ]
        ],
        ap
              (λ k. mask (
                word_at (d.sector dev.bd (l.bd_offset + l.fat_offset + k))
                  ((ind * 128 + j) % 128 * 4)))
              q
            ∙ ap (λ k. mask (word_at (d.sector dev.bd k) ((ind * 128 + j) % 128 * 4))) at
            ∙ ap (λ k. mask (word_at (d.sector dev.bd (l.fat_offset + ind)) (k * 4))) r
            ∙ z,
      )

  -- What a search for free slots leaves.
  abbrev Populated : Dev b l → Dev b l → Type 0
  Populated dev dev' = IsReady dev' × (d.sector dev'.bd ≡ d.sector dev.bd)

  -- One try with an empty queue.
  populate_loop-try :
      (n r : ℕ) (bd : b.State)
      → FitsQueue
      → d.IsValid bd
      → (dev' : Dev b l) × (populate_loop b l (suc n) (record { bd = bd; r = r; free_q = [] })
          ≡ populate_loop b l n dev')
        × Populated (record { bd = bd; r = r; free_q = [] }) dev'
  unfolding populate_loop
  populate_loop-try n r bd f v =
      let (x, r') = next_rand_u32 r in
      let ind = x % l.sectors_per_fat in
      let lt : ind < l.sectors_per_fat = omega (arith, f.some_fat) in
      let at = l.fat_offset + ind in
      let inside : at < b.num_sectors = omega (arith, lt, f.first, f.fits.on_device) in
      let w : at % 2 ^ 32 ≡ at = omega (arith, inside, d.small.0) in
      let (ok, out, valid, same) = d.read_disk bd at 1 v inside (omega (arith, inside)) in
      let bd' = (b.bd_read bd at 1 true).2 in
      let q : Sector → List ℕ =
        λ s. queue_free (end_slot b l ind - first_slot ind) (first_slot ind) ind s [] in
      let dev' : Dev b l = record { bd = bd'; r = r'; free_q = q (d.sector bd at) } in
      let start : Dev b l = record { bd = bd; r = r; free_q = [] } in
      (
        dev',
        rw (w, ok)
            (ap (λ o. populate_loop b l n (record { bd = bd'; r = r'; free_q = q (one_sector o) }))
              out),
        (
          (
            valid,
            subst
                (λ s.
                  IsQueue num_fat_slots (table (l.bd_offset + l.fat_offset) s) (q (d.sector bd at)))
                (sym same)
                (queue_free-IsQueue num_fat_slots (fat b d l start)
                  (end_slot b l ind - first_slot ind) (first_slot ind) ind (d.sector bd at) []
                  (λ j ge lt' z. queued-Free start ind j f lt ge (omega (arith, ge, lt')) z) tt tt),
          ),
          same,
        ),
      )

  populate_loop-Populated :
      (n : ℕ) (dev : Dev b l)
      → FitsQueue
      → IsReady dev
      → (dev' : Dev b l) × (populate_loop b l n dev ≡ (success, dev')) × Populated dev dev'
  unfolding populate_loop
  populate_loop-Populated zero dev f ready = (dev, refl, (ready, refl))
  populate_loop-Populated (suc n) dev f ready = elim (List-cases dev.free_q) [
    | inr (i, is, e) ↦ (dev, rw e refl, (ready, refl))
    | inl e ↦
        let (dev1, step, p1) = populate_loop-try n dev.r dev.bd f ready.0 in
        let (dev2, run, p2) = populate_loop-Populated n dev1 f p1.0 in
        (
          dev2,
          ap (λ q. populate_loop b l (suc n) (record dev { free_q = q })) e ∙ step ∙ run,
          (p2.0, p2.1 ∙ p1.1),
        )
  ]

  search :
      (dev dev1 : Dev b l)
      → dev.free_q ≡ []
      → populate_loop b l 5 dev ≡ (success, dev1)
      → fat32_populate_free_queue b l dev ≡ (found_any dev1.free_q, dev1)
  unfolding fat32_populate_free_queue
  search dev dev1 e run =
      let t : ltb 0 (length dev.free_q) ≡ false = ap (λ q. ltb 0 (length q)) e in rw (t, run) refl

  no_search :
      (dev : Dev b l) (i : ℕ) (is : List ℕ)
      → dev.free_q ≡ i ∷ is
      → fat32_populate_free_queue b l dev ≡ (found_any dev.free_q, dev)
  unfolding fat32_populate_free_queue
  no_search dev i is e =
      let t : ltb 0 (length dev.free_q) ≡ true = ap (λ q. ltb 0 (length q)) e ∙ ground arith in
      rw t (ap (λ q. (found_any q, dev)) (sym e))

  fat32_populate_free_queue-Populated :
      (dev : Dev b l)
      → FitsQueue
      → IsReady dev
      → (dev' : Dev b l) × (fat32_populate_free_queue b l dev ≡ (found_any dev'.free_q, dev'))
        × Populated dev dev'
  fat32_populate_free_queue-Populated dev f ready = elim (List-cases dev.free_q) [
    | inr (i, is, e) ↦ (dev, no_search dev i is e, (ready, refl))
    | inl e ↦
        let (dev1, run, p1) = populate_loop-Populated 5 dev f ready in
        (dev1, search dev dev1 e run, p1)
  ]

  pub elem-with_slot :
      (f : ℕ → ℕ) (i v : ℕ) (ks : List ℕ)
      → elem i ks ≡ false
      → IsQueue num_fat_slots f ks
      → IsQueue num_fat_slots (with_slot f i v) ks
  elem-with_slot f i v [] h q = tt
  elem-with_slot f i v (k ∷ ks) h (free, new, q) =
      (ground (arith, h, free), new, elem-with_slot f i v ks (ground (arith, h)) q)

  -- What taking a free slot does.
  abbrev pub Taken : (ℕ → ℕ) → Err × ℕ × Dev b l → Type 0
  Taken f (err, i, dev') =
      ((err ≡ success)
        × Free num_fat_slots f i
        × IsReady dev'
        × (fat b d l dev' ≡ with_slot f i eoc))
      ⊎ ((err ≡ no_space) × IsReady dev' × (fat b d l dev' ≡ f))

  pop_queued-Taken :
      (dev : Dev b l) (i : ℕ) (is : List ℕ)
      → FitsQueue
      → d.IsValid dev.bd
      → IsQueue num_fat_slots (fat b d l dev) (i ∷ is)
      → Taken (fat b d l dev) (pop_queued b l (record dev { free_q = i ∷ is }))
  unfolding pop_queued
  pop_queued-Taken dev i is f v (free, new, q) =
      let (bd, put, valid, same) =
        fat32_set_fat_slot_lem b d l (record dev { free_q = is }) i eoc f.fits v free.1 in
      rw put (
        inl (
          refl,
          free,
          (
            valid,
            subst (λ g. IsQueue num_fat_slots g is) (sym same)
                (elem-with_slot (fat b d l dev) i eoc is new q),
          ),
          same,
        ))

  -- `fat32_pop_free_fat_slot`, for a partition at the start of a device that works as a disk and a table
  -- whose last sector has a slot of the device, with only free slots in the queue: it takes a free slot,
  -- which is then the end of a chain, and changes no other, or it finds no space and the table is as it
  -- was. The queue has again only free slots.
  pub fat32_pop_free_fat_slot-Taken :
      (dev : Dev b l)
      → FitsQueue
      → IsReady dev
      → Taken (fat b d l dev) (fat32_pop_free_fat_slot b l dev true)
  unfolding fat32_pop_free_fat_slot
  fat32_pop_free_fat_slot-Taken dev f ready =
      let (dev1, run, p1) = fat32_populate_free_queue-Populated dev f ready in
      let (ready1, same) = p1 in
      let same_fat : fat b d l dev1 ≡ fat b d l dev =
        ap (table (l.bd_offset + l.fat_offset)) same in
      elim (List-cases dev1.free_q) [
        | inl e ↦ rw (run, e) (inr (refl, ready1, same_fat))
        | inr (i, is, e) ↦
            let queue = subst (IsQueue num_fat_slots (fat b d l dev1)) e ready1.1 in
            let taken = pop_queued-Taken dev1 i is f ready1.0 queue in
            let whole = ap (λ q. pop_queued b l (record dev1 { free_q = q })) (sym e) in
            rw (run, e)
              (subst (λ g. Taken g (pop_queued b l dev1)) same_fat
                (subst (Taken (fat b d l dev1)) whole taken))
      ]
