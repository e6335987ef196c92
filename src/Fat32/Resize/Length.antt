-- ===== src/Fat32/Resize/Length.antt =====
-- Giving a chain another length.
use fern_os.Prelude.{
  ℕ, zero, suc, ◌+◌, ◌≤◌, ◌<◌, ◌≡◌, refl, ap, sym, subst, ◌∙◌, Bool-cases, inl, inr, true, false,
  Option, List, [], ◌∷◌, elem, arith, ◌==◌,
}
use fern_os.Err.{Err, success}
use fern_os.BlockDevice.{BlockDevice, IsDisk}
use fern_os.Fat32.{Layout, mask, is_eoc, bad_cluster, Dev, fat32_get_fat_slot}
use fern_os.Fat32.Slots.{Fits, fat, table, moved, fat32_get_fat_slot_lem}
use fern_os.Fat32.Chain.{no_slot}
use fern_os.Fat32.Chain.Table.{Chain, Chain-fresh}
use fern_os.Fat32.Chain.Queue.{IsQueue}
use fern_os.Fat32.Chain.Taking.{FitsQueue, IsReady}
use fern_os.Fat32.Resize.{fat32_new_chain, attach, cut, resize_loop, fat32_resize_chain}
use fern_os.Fat32.Resize.Cut.{Resized, cut-Resized}
use fern_os.Fat32.Resize.Attach.{attach-Resized}

module _ (b : BlockDevice) (d : IsDisk b) (l : Layout) where
  open l use {num_fat_slots}

  -- A link that stays, before a chain that has got its length.
  kept_link :
      (f : ℕ → ℕ) (iter k n : ℕ) (rest : List ℕ) (out : Option (Err × Dev b l))
      → num_fat_slots ≤ bad_cluster
      → Chain num_fat_slots f iter (iter ∷ (k ∷ rest))
      → Resized b d l f k (k ∷ rest) (suc n) out
      → Resized b d l f iter (iter ∷ (k ∷ rest)) (suc (suc n)) out
  kept_link f iter k n rest out small (e, ge, lt, c) (dev, ready, inr (out_is, same, lt')) =
      (dev, ready, inr (out_is, same, omega (arith, lt')))
  kept_link f iter k n rest out small (e, ge, lt, c)
        (dev, ready, inl (slots, out_is, chain, len, starts, new, kept)) =
      let fresh = Chain-fresh num_fat_slots f iter iter (k ∷ rest) small (e, ge, lt, c) in
      let (at_k, ge', _, _) = c in
      let outside : elem iter slots ≡ false = elim (Bool-cases (elem iter slots)) [
        | inr h ↦ h
        | inl h ↦ absurd (ground (arith, new iter h fresh, at_k, ge'))
      ] in
      let points : fat b d l dev iter ≡ k = kept iter outside ∙ ground (arith, fresh, at_k) in
      (
        dev,
        ready,
        inl (
          iter ∷ slots,
          out_is,
          (
            refl,
            ge,
            lt,
            subst (λ x. Chain num_fat_slots (fat b d l dev) x slots) (sym points) chain,
          ),
          ap suc len,
          ap (λ t. iter ∷ t) starts,
          (λ j h h'. new j (ground (arith, h, h')) (ground (arith, h'))),
          λ j h. kept j (ground (arith, h)) ∙ ground (arith, h),
        ),
      )

  not_bad :
      (iter : ℕ) (rest : List ℕ) (dev : Dev b l)
      → Fits b d l
      → Chain num_fat_slots (fat b d l dev) (fat b d l dev iter) rest
      → (fat b d l dev iter == bad_cluster) ≡ false
  not_bad iter [] dev f c = ground (arith, c)
  not_bad iter (k ∷ rest) dev f (e, ge, lt, c) = ground (arith, e, lt, f.no_mark)

  resize-starts :
      (n at : ℕ) (dev : Dev b l)
      → Fits b d l
      → 2 ≤ at
      → at < num_fat_slots
      → fat32_resize_chain b l dev at (suc n) ≡ resize_loop b l n at dev
  unfolding fat32_resize_chain
  resize-starts n at dev f ge lt =
      let m : mask at ≡ at = omega (arith, f.no_mark) in
      let t : no_slot b l at ≡ false = ground arith in rw (m, t) refl

  -- Reading a slot changes neither the table nor the queue.
  reading :
      (iter : ℕ) (dev : Dev b l)
      → Fits b d l
      → IsReady b d l dev
      → iter < num_fat_slots
      → (dev1 : Dev b l) × (fat32_get_fat_slot b l dev iter true
          ≡ (success, fat b d l dev iter, dev1))
        × (fat b d l dev1 ≡ fat b d l dev)
        × IsReady b d l dev1
  reading iter dev f ready lt =
      let (bd, got, valid, same) = fat32_get_fat_slot_lem b d l dev iter f ready.0 lt in
      let same_fat : fat b d l (moved b d l dev bd) ≡ fat b d l dev =
        ap (table (l.bd_offset + l.fat_offset)) same in
      (
        moved b d l dev bd,
        got,
        same_fat,
        (valid, subst (λ h. IsQueue num_fat_slots h dev.free_q) (sym same_fat) ready.1),
      )

  -- The rounds of the loop, by what the slot holds.
  loop-cut :
      (iter v : ℕ) (dev dev1 : Dev b l)
      → fat32_get_fat_slot b l dev iter true ≡ (success, v, dev1)
      → (v == bad_cluster) ≡ false
      → resize_loop b l 0 iter dev ≡ cut b l iter v dev1
  unfolding resize_loop
  loop-cut iter v dev dev1 got t = rw (got, t) refl

  loop-grow :
      (n iter v : ℕ) (dev dev1 : Dev b l)
      → fat32_get_fat_slot b l dev iter true ≡ (success, v, dev1)
      → (v == bad_cluster) ≡ false
      → is_eoc v ≡ true
      → resize_loop b l (suc n) iter dev ≡ attach b l iter (fat32_new_chain b l dev1 (suc n) true)
  unfolding resize_loop
  loop-grow n iter v dev dev1 got t e = rw (got, t, e) refl

  loop-on :
      (n iter v : ℕ) (dev dev1 : Dev b l)
      → fat32_get_fat_slot b l dev iter true ≡ (success, v, dev1)
      → (v == bad_cluster) ≡ false
      → is_eoc v ≡ false
      → no_slot b l v ≡ false
      → resize_loop b l (suc n) iter dev ≡ resize_loop b l n v dev1
  unfolding resize_loop
  loop-on n iter v dev dev1 got t e s = rw (got, t, e, s) refl

  resize_loop-Resized :
      (n iter : ℕ) (rest : List ℕ) (dev : Dev b l)
      → FitsQueue b d l
      → IsReady b d l dev
      → Chain num_fat_slots (fat b d l dev) iter (iter ∷ rest)
      → Resized b d l (fat b d l dev) iter (iter ∷ rest) (suc n) (resize_loop b l n iter dev)
  resize_loop-Resized zero iter rest dev f ready (e, ge, lt, c) =
      let (dev1, got, same, ready1) = reading iter dev f.fits ready lt in
      subst (Resized b d l (fat b d l dev) iter (iter ∷ rest) 1)
        (sym (loop-cut iter (fat b d l dev iter) dev dev1 got (not_bad iter rest dev f.fits c)))
        (subst (λ h. Resized b d l h iter (iter ∷ rest) 1 (cut b l iter (h iter) dev1)) same
          (cut-Resized b d l iter rest dev1 f ready1
            (subst (λ h. Chain num_fat_slots h iter (iter ∷ rest)) (sym same) (e, ge, lt, c))))
  resize_loop-Resized (suc n) iter [] dev f ready (e, ge, lt, c) =
      let (dev1, got, same, ready1) = reading iter dev f.fits ready lt in
      subst (Resized b d l (fat b d l dev) iter (iter ∷ []) (suc (suc n)))
        (sym (loop-grow n iter (fat b d l dev iter) dev dev1 got (not_bad iter [] dev f.fits c) c))
        (subst
          (λ h.
            Resized b d l h iter (iter ∷ []) (suc (suc n))
              (attach b l iter (fat32_new_chain b l dev1 (suc n) true)))
          same
          (attach-Resized b d l n iter dev1 f ready1
            (subst (λ h. Chain num_fat_slots h iter (iter ∷ [])) (sym same) (e, ge, lt, c))))
  resize_loop-Resized (suc n) iter (k ∷ rest) dev f ready (e, ge, lt, c) =
      let (dev1, got, same, ready1) = reading iter dev f.fits ready lt in
      let g = fat b d l dev in
      let (at_k, ge', lt', c') = c in
      let inner : is_eoc (g iter) ≡ false = ground (arith, at_k, lt', f.fits.no_mark) in
      let slot : no_slot b l (g iter) ≡ false = ground (arith, at_k, ge', lt') in
      let on : resize_loop b l (suc n) iter dev ≡ resize_loop b l n k dev1 =
        loop-on n iter (g iter) dev dev1 got (not_bad iter (k ∷ rest) dev f.fits c) inner slot
        ∙ ap (λ x. resize_loop b l n x dev1) at_k in
      subst (Resized b d l g iter (iter ∷ (k ∷ rest)) (suc (suc n))) (sym on) (
        kept_link g iter k n rest (resize_loop b l n k dev1) f.fits.no_mark (e, ge, lt, c)
          (subst (λ h. Resized b d l h k (k ∷ rest) (suc n) (resize_loop b l n k dev1)) same
            (resize_loop-Resized n k rest dev1 f ready1
              (subst (λ h. Chain num_fat_slots h k (k ∷ rest)) (sym same) (refl, ge', lt', c')))))

  -- `fat32_resize_chain` of the chain that starts at a slot to a length that is not 0, for a partition
  -- at the start of a device that works as a disk and a table whose last sector has a slot of the
  -- device, with only free slots in the queue: it always ends. Either it succeeds, and the chain from
  -- the same slot has that length, starts with the old chain or is a start of it, has got only slots
  -- that were free, its dropped slots are free, and every other slot is as it was; or it was to grow,
  -- there was no space, and the whole table is as it was. The queue has again only free slots.
  pub fat32_resize_chain-Resized :
      (at len : ℕ) (slots : List ℕ) (dev : Dev b l)
      → FitsQueue b d l
      → IsReady b d l dev
      → 2 ≤ at
      → at < num_fat_slots
      → Chain num_fat_slots (fat b d l dev) at slots
      → 0 < len
      → Resized b d l (fat b d l dev) at slots len (fat32_resize_chain b l dev at len)
  fat32_resize_chain-Resized at zero slots dev f ready ge lt c pos = absurd (omega (arith, pos))
  fat32_resize_chain-Resized at (suc n) [] dev f ready ge lt c pos =
      absurd (ground (arith, c, lt, f.fits.no_mark))
  fat32_resize_chain-Resized at (suc n) (i ∷ slots) dev f ready ge lt (e, ge', lt', c) pos =
      subst
        (λ x.
          Resized b d l (fat b d l dev) x (i ∷ slots) (suc n)
            (fat32_resize_chain b l dev x (suc n)))
        (sym e)
        (subst (Resized b d l (fat b d l dev) i (i ∷ slots) (suc n))
          (sym (resize-starts n i dev f.fits ge' lt'))
          (resize_loop-Resized n i slots dev f ready (refl, ge', lt', c)))
