-- ===== src/Fat32/Resize/Attach.antt =====
-- A new segment at the end of a chain.
use fern_os.Prelude.{
  ℕ, suc, ◌≤◌, ◌<◌, ◌≡◌, ◌≢◌, refl, ap, sym, subst, ◌∙◌, inl, inr, true, false, some, List, [], ◌∷◌,
  elem, length, arith,
}
use fern_os.Err.{success}
use fern_os.BlockDevice.{BlockDevice, IsDisk}
use fern_os.Fat32.{Layout, mask, is_eoc, Dev}
use fern_os.Fat32.Slots.{fat, moved, fat32_set_fat_slot_lem}
use fern_os.Fat32.Chain.Table.{Chain, Chain-with_slot}
use fern_os.Fat32.Chain.Queue.{IsQueue, elem-queue}
use fern_os.Fat32.Chain.Taking.{FitsQueue, IsReady}
use fern_os.Fat32.Resize.{fat32_new_chain, attach}
use fern_os.Fat32.Resize.NewChain.{Made, Free-elem, fat32_new_chain-NewChain}
use fern_os.Fat32.Resize.Cut.{Resized, set-IsQueue}

module _ (b : BlockDevice) (d : IsDisk b) (l : Layout) where
  open l use {num_fat_slots}

  -- A new segment is attached to the end of a chain.
  attached :
      (n iter at : ℕ) (slots : List ℕ) (dev dev1 : Dev b l)
      → FitsQueue b d l
      → 2 ≤ iter
      → iter < num_fat_slots
      → is_eoc (fat b d l dev iter) ≡ true
      → fat32_new_chain b l dev (suc n) true ≡ some (success, at, dev1)
      → length slots ≡ suc n
      → Made b d l (fat b d l dev) at slots dev1
      → Resized b d l
          (fat b d l dev)
          iter
          (iter ∷ [])
          (suc (suc n))
          (attach b l iter (fat32_new_chain b l dev (suc n) true))
  unfolding attach
  attached n iter at [] dev dev1 f ge lt c ok len made = absurd (omega (arith, len))
  attached n iter at (k ∷ slots) dev dev1 f ge lt c ok len (chain, all, kept, ready) =
      let g = fat b d l dev in
      let used : g iter ≢ 0 = ground (arith, c) in
      let fresh : elem iter (k ∷ slots) ≡ false =
        elem-queue num_fat_slots g iter (k ∷ slots) used all in
      let used' : fat b d l dev1 iter ≢ 0 = ground (arith, used, kept iter fresh) in
      let (at_k, ge', lt', _) = chain in
      let m : mask at ≡ at = omega (arith, at_k, lt', f.fits.no_mark) in
      let (bd, put, valid, new) = fat32_set_fat_slot_lem b d l dev1 iter at f.fits ready.0 lt in
      let dev2 = moved b d l dev1 bd in
      let points : fat b d l dev2 iter ≡ at = ap (λ h. h iter) new ∙ ground (arith, m) in
      let chain' : Chain num_fat_slots (fat b d l dev2) at (k ∷ slots) =
        subst (λ h. Chain num_fat_slots h at (k ∷ slots)) (sym new)
          (Chain-with_slot num_fat_slots (fat b d l dev1) at iter (mask at) (k ∷ slots) fresh
            chain) in
      (
        dev2,
        (
          valid,
          subst (λ h. IsQueue num_fat_slots h dev1.free_q) (sym new)
              (set-IsQueue b d l (fat b d l dev1) iter (mask at) dev1.free_q used' ready.1),
        ),
        inl (
          iter ∷ (k ∷ slots),
          rw (ok, put) refl,
          (
            refl,
            ge,
            lt,
            subst (λ x. Chain num_fat_slots (fat b d l dev2) x (k ∷ slots)) (sym points) chain',
          ),
          ap suc len,
          refl,
          (λ j h h'. Free-elem b d l g j (k ∷ slots) all (ground (arith, h, h'))),
          λ j h. ap (λ h. h j) new ∙ ground (arith, h, kept j (ground (arith, h))),
        ),
      )

  -- The end of a chain that is too short.
  pub attach-Resized :
      (n iter : ℕ) (dev : Dev b l)
      → FitsQueue b d l
      → IsReady b d l dev
      → Chain num_fat_slots (fat b d l dev) iter (iter ∷ [])
      → Resized b d l
          (fat b d l dev)
          iter
          (iter ∷ [])
          (suc (suc n))
          (attach b l iter (fat32_new_chain b l dev (suc n) true))
  unfolding attach
  attach-Resized n iter dev f ready (e, ge, lt, c) =
      let g = fat b d l dev in
      let used : g iter ≢ 0 = ground (arith, c) in
      let (at, dev1, how) = fat32_new_chain-NewChain b d l (suc n) dev f ready in
      elim how [
        | inr (none_left, same, ready1) ↦ (dev1, ready1, inr (rw none_left refl, same, omega arith))
        | inl (slots, ok, len, made) ↦ attached n iter at slots dev dev1 f ge lt c ok len made
      ]
