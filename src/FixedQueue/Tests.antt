-- ===== src/FixedQueue/Tests.antt =====
-- The fixed queue at concrete inputs.
use fern_os.Prelude.{◌≡◌, refl, true, false, none, some, List, [], ◌∷◌, arith}
use fern_os.FixedQueue.{FixedQueue, fq_enqueue, fq_poll}
use fern_os.FixedQueue.Refine.{IsValid, Op, enq, pol, run, run_queue, run_refines}

-- 7, 8, 9 in three cells, round the end of the buffer.
abbrev full : FixedQueue
full = record { capacity = 3; buffer = 9 ∷ 7 ∷ 8 ∷ []; start = 1; end = 0; empty = false }

full-IsValid : IsValid full
full-IsValid = ground arith

abbrev script : List Op
script =
    enq (some 1) false ∷ enq (some 2) true ∷ pol true ∷ pol false ∷ enq none true ∷ pol true ∷ []

run-full :
    run full script
    ≡ (false, none)
      ∷ (true, none)
      ∷ (true, some 8)
      ∷ (false, none)
      ∷ (false, none)
      ∷ (true, some 9)
      ∷ []
unfolding run fq_enqueue fq_poll
run-full = refl

run_refines_example : run full script ≡ run_queue 3 (7 ∷ 8 ∷ 9 ∷ []) script
run_refines_example = run_refines script full-IsValid
