-- ===== src/WaitQueue/Tests.antt =====
-- The wait queues at concrete inputs, with enough memory and with too little.
use fern_os.Prelude.{ℕ, ◌-◌, ◌^◌, ◌≡◌, ◌≢◌, ◌⊎◌, refl, true, [], ◌∷◌, arith}
use fern_os.Err.{success, no_mem, Mem}
use fern_os.ListT.{ListT, new_list, l_get_ptr, l_get_len, l_push_back, l_pop_front}
use fern_os.WaitQueue.Basic.{BasicWaitQueue, bwq_notify}
use fern_os.WaitQueue.Basic.Laws.{NotifiedAll, bwq_notify-all}
use fern_os.WaitQueue.Vector.{VectorWaitQueue, vwq_notify}
use fern_os.WaitQueue.Vector.Laws
use fern_os.WaitQueue.Timed
use fern_os.WaitQueue.Timed.{TimedWaitQueue, twq_enqueue, twq_notify, twq_pop, twq_remove}
use fern_os.WaitQueue.Timed.Clock.{IsValid, waiting, ready}
use fern_os.WaitQueue.Timed.Enqueue
use fern_os.WaitQueue.Timed.Notify

abbrev line : ListT ℕ
line = record { before = []; rest = 3 ∷ 4 ∷ 5 ∷ [] }

abbrev three : BasicWaitQueue
three = record { wait_q = line; ready_q = new_list }

-- Memory for two transfers.
abbrev two_pushes : Mem
two_pushes = true ∷ true ∷ []

bwq_notify-all_example : NotifiedAll three (bwq_notify three 2 two_pushes)
bwq_notify-all_example = bwq_notify-all three two_pushes

-- Items 6 and 7 accept event 1, item 8 does not.
abbrev events : VectorWaitQueue
events = record {
  wait_q = record {
    before = [];
    rest =
        record { item = 6; ready_mask = 2 }
        ∷ record { item = 8; ready_mask = 1 }
        ∷ record { item = 7; ready_mask = 3 }
        ∷ [];
  };
  ready_q = new_list;
}

vwq_notify-all_example :
    Laws.NotifiedAll 1 [] (Laws.waiting events) [] (vwq_notify events 1 1 two_pushes)
vwq_notify-all_example = Laws.vwq_notify-all events 1 two_pushes (omega arith)

vwq_notify-first_example :
    Laws.NotifiedFirst 1 [] (Laws.waiting events) [] (vwq_notify events 1 0 two_pushes)
vwq_notify-first_example = Laws.vwq_notify-first events 1 two_pushes (omega arith)

-- Just before the clock wraps: item 1 wakes in 2 ticks, item 2 in 7.
abbrev late : TimedWaitQueue
late = record {
  time = 2 ^ 32 - 3;
  wait_q = record {
    before = [];
    rest = record { item = 1; wake_time = 2 ^ 32 - 1 } ∷ record { item = 2; wake_time = 4 } ∷ [];
  };
  ready_q = new_list;
}

late-IsValid : IsValid late
unfolding Timed.abs_wait_time
late-IsValid = record {
  now = omega arith;
  clocks = omega arith;
  asleep = omega arith;
  sorted = omega arith;
}

twq_enqueue-IsValid_example : IsValid (twq_enqueue late 9 1 two_pushes).1
twq_enqueue-IsValid_example =
    Enqueue.twq_enqueue-IsValid late 9 1 two_pushes (omega arith) late-IsValid

twq_enqueue-places_example :
    let (err, twq', mem') = twq_enqueue late 9 1 two_pushes in
    (◌≡◌ {A = ℕ} 1 late.time)
      × (waiting twq' ≡ waiting late)
      × (twq'.time ≡ late.time)
      × ((err ≡ success) × (ready twq' ≡ 9 ∷ []) ⊎ (err ≡ no_mem) × (ready twq' ≡ []))
    ⊎ (◌≢◌ {A = ℕ} 1 late.time)
      × Enqueue.Inserted late.time
          (record { item = 9; wake_time = 1 })
          []
          (waiting late)
          []
          (twq_enqueue late 9 1 two_pushes)
twq_enqueue-places_example = Enqueue.twq_enqueue-places late 9 1 two_pushes

twq_notify-wakes_example : Notify.Woken late 2 (twq_notify late 2 two_pushes)
twq_notify-wakes_example = Notify.twq_notify-wakes late 2 two_pushes (omega arith) late-IsValid

-- Item 1 wakes at time 2, past the wrap, and item 2 sleeps on.
notify_over_wrap : (twq_notify late 2 two_pushes).1.ready_q ≡ record { before = 1 ∷ []; rest = [] }
unfolding twq_notify Timed.abs_wait_time l_get_ptr l_get_len l_push_back l_pop_front
notify_over_wrap = refl
