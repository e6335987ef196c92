-- ===== src/Kernel/Process/Tests.antt =====
-- Processes at concrete inputs: the root 1, its child 2 and that one's child 3, and a zombie 4.
use fern_os.Prelude.{
  ℕ, zero, suc, ap, sym, ◌≡◌, ◌≢◌, ◌<◌, refl, true, false, none, [], ◌∷◌, arith, ◌%◌, ◌&&◌, not,
  ◌==◌, if◌then◌else◌,
}
use fern_os.Err.{success, state_mismatch}
use fern_os.Map.{mp_get}
use fern_os.ListT.{new_list}
use fern_os.Kernel.Thread.{exited, scheduled}
use fern_os.Kernel.Process.{
  Process, KernelState, set_proc, set_eax, set_bit, bit, returned, ks_signal_p,
}
use fern_os.Kernel.Process.Kept.{IsTree}
use fern_os.Kernel.Process.Ends.{EndsWell, ks_signal_p-EndsWell}
use fern_os.Kernel.Process.Threads.{ks_join_local_thread}
use fern_os.Kernel.Process.Threads.Joining.{IsTable, JoinOut, ks_join_local_thread-JoinOut}
use fern_os.Kernel.Process.Calls.{or_null}
use fern_os.Kernel.Process.Calls.{ks_signal}
use fern_os.WaitQueue.Timed.{abs_wait_time}
use fern_os.WaitQueue.Timed.Clock.{IsValid}
use fern_os.Kernel.Process.Signals.{IsQuiet, Sent, ks_signal_p-Sent}
use fern_os.Kernel.Process.Calls.{
  ks_wait_signal, ks_signal_clear, serve, take_signal, with_head, first_bit,
}
use fern_os.Kernel.Process.Calls.Runs.{Steps, done, step, sends, waits, clears, Steps-IsQuiet}
use fern_os.Kernel.Process.Threads.{ks_tick}
use fern_os.Kernel.Process.Threads.Tick.{Ticked, ks_tick-Ticked}
use fern_os.Kernel.Process.Zombie.{IsZombie, ks_signal-zombie}

abbrev child_of : ℕ → Process
child_of q = record {
  exited = false;
  exit_status = 1;
  pid = 0;
  parent = q;
  children = new_list;
  zombie_children = new_list;
  thread_table = [];
  join_queue = 0;
  main_thread = 0;
  sig_vec = λ i. false;
  sig_allow = 0;
  signal_queue = 0;
}

abbrev proc_at : ℕ → Process
proc_at (suc zero) = record (child_of 0) { children = record { before = 2 ∷ []; rest = [] } }
proc_at (suc (suc zero)) = record (child_of 1) {
  children = record { before = 3 ∷ []; rest = [] };
  zombie_children = record { before = 4 ∷ []; rest = [] };
}
proc_at (suc (suc (suc zero))) = child_of 2
proc_at (suc (suc (suc (suc zero)))) = record (child_of 2) { exited = true }
proc_at _ = child_of 0

-- Thread 8 of process 3 runs; nothing allows a signal.
abbrev state : KernelState
state = record {
  kernel = record {
    schedule = 8 ∷ [];
    threads = λ i. record { state = scheduled; wq = none; wait_ctx = 0 ∷ []; eax = success };
    queues = λ q. record { wait_q = new_list; ready_q = new_list };
    vectors = λ q. record { wait_q = new_list; ready_q = new_list };
    sleep_q = record { time = 0; wait_q = new_list; ready_q = new_list };
    mem = true ∷ true ∷ true ∷ [];
  };
  curr_tick = 0;
  thread_proc = λ t. 3;
  tid = λ t. 0;
  exit_ret_val = λ t. 0;
  user = λ p. record { directory = λ d. none; tables = λ t e. none; bytes = λ q o. 0 };
  procs = proc_at;
  proc_table = (0, 1) ∷ ((1, 2) ∷ ((2, 3) ∷ ((3, 4) ∷ [])));
  root_proc = 1;
}

-- How far a process is from the root.
abbrev depth : ℕ → ℕ
depth p = if p == 1 then 0 else if p == 2 then 1 else 2

root-lowest : (c : ℕ) → c ≢ 1 → depth 1 < depth c
root-lowest c h = ground (arith, h)

state-near : (p : ℕ) → p ≢ 1 → (state.procs p).parent ≢ 0 → depth (state.procs p).parent < depth p
state-near zero h h' = absurd (h' refl)
state-near (suc zero) h h' = absurd (h refl)
state-near (suc (suc zero)) h h' = omega arith
state-near (suc (suc (suc zero))) h h' = omega arith
state-near (suc (suc (suc (suc zero)))) h h' = omega arith
state-near (suc (suc (suc (suc (suc p))))) h h' = absurd (h' refl)

state-IsTree : IsTree 1 depth state
state-IsTree = (refl, state-near)

ks_signal_p-EndsWell_example : EndsWell 1 depth root-lowest (ks_signal_p 3 state 3 7)
ks_signal_p-EndsWell_example =
    ks_signal_p-EndsWell 1 depth root-lowest 3 state 3 7 state-IsTree (omega arith)

four-IsZombie : IsZombie state 4
four-IsZombie = (λ h. omega arith, ((λ h. omega arith), (refl, (refl, ((λ h. omega arith), tt)))))

ks_signal-zombie_example :
    (s' : KernelState) × (ks_signal 256 1 state 3 7 ≡ returned state_mismatch s')
unfolding mp_get
ks_signal-zombie_example =
    ks_signal-zombie 256 0 state 8 [] 3 4 7 refl (omega arith) refl four-IsZombie (omega arith) refl
      refl

-- Every process allows signal 7.
abbrev tolerant : KernelState
tolerant = record state { procs = λ i. record (proc_at i) { sig_allow = 128 } }

ks_signal_p-Sent_example : Sent tolerant 2 7 (ks_signal_p 1 tolerant 2 7)
ks_signal_p-Sent_example =
    ks_signal_p-Sent 0 tolerant 2 7 (λ h. omega arith) (omega arith) refl refl

-- Two threads sleep, until the ticks 1 and 9.
abbrev sleepers : KernelState
sleepers = record state {
  kernel = record (state.kernel) {
    sleep_q = record {
      time = 0;
      wait_q = record {
        before = [];
        rest = record { item = 5; wake_time = 1 } ∷ (record { item = 6; wake_time = 9 } ∷ []);
      };
      ready_q = new_list;
    };
  };
}

sleepers-IsValid : IsValid sleepers.kernel.sleep_q
unfolding abs_wait_time
sleepers-IsValid = record {
  now = omega arith;
  clocks = (omega arith, (omega arith, tt));
  asleep = (omega arith, (omega arith, tt));
  sorted = ((omega arith, tt), (tt, tt));
}

ks_tick-Ticked_example :
    (s' : KernelState) × Ticked sleepers s'
    × (ks_tick (λ s. (success, s)) sleepers
        ≡ (if 1 % 16 == 0 then (success, s') else (success, s')))
ks_tick-Ticked_example = ks_tick-Ticked (λ s. (success, s)) sleepers sleepers-IsValid refl

-- Signal 7 is pending for process 3; it is sent again, taken, and cleared.
abbrev pending : KernelState
pending = record tolerant {
  procs = λ i. record (proc_at i) { sig_allow = 128; sig_vec = λ j. j == 7 };
}

pending-IsQuiet : IsQuiet pending 3
pending-IsQuiet = (refl, λ i b h. refl)

-- The signal is taken by thread 8, and the bits 2 and 3 are cleared.
abbrev taken : KernelState
taken =
    set_eax
      (set_proc pending 3 (record (pending.procs 3) { sig_vec = set_bit (λ j. j == 7) 7 false })) 8
      success

abbrev cleared : KernelState
cleared =
    set_proc taken 3
      (record (taken.procs 3) { sig_vec = λ i. (taken.procs 3).sig_vec i && not (bit 12 i) })

run : Steps 3 pending cleared
unfolding ks_signal_p ks_wait_signal ks_signal_clear serve take_signal with_head first_bit
run = step (sends 0 7 (omega arith) refl refl) (
    step (waits 8 [] 128 0 refl refl refl (λ h. omega arith) refl)
      (step (clears 8 [] 12 refl refl refl) done))

Steps-IsQuiet_example : IsQuiet cleared 3
Steps-IsQuiet_example = Steps-IsQuiet 3 pending cleared (λ h. omega arith) run pending-IsQuiet

-- The thread 8 belongs to process 2, whose child 4 has exited.
abbrev reaper : KernelState
reaper = record state { thread_proc = λ t. 2 }

-- Process 3 has a second thread 9, which has exited.
abbrev id_of : ℕ → ℕ
id_of t = if t == 9 then 1 else 0

abbrev two_threads : KernelState
two_threads = record state {
  kernel = record (state.kernel) {
    threads = λ i. record {
      state = if i == 9 then exited else scheduled;
      wq = none;
      wait_ctx = 0 ∷ [];
      eax = success;
    };
  };
  tid = id_of;
  procs = λ i. record (proc_at i) { thread_table = (0, 8) ∷ ((1, 9) ∷ []) };
}

two_threads-IsTable : IsTable two_threads 3
unfolding mp_get
two_threads-IsTable zero thr h = (refl, sym (ap (λ o. id_of (or_null o)) h))
two_threads-IsTable (suc zero) thr h = (refl, sym (ap (λ o. id_of (or_null o)) h))
two_threads-IsTable (suc (suc tid)) thr h = absurd (ground (arith, h))

ks_join_local_thread-JoinOut_example :
    JoinOut (λ um t. um) two_threads 8 2 0 (ks_join_local_thread (λ um t. um) two_threads 2 0)
ks_join_local_thread-JoinOut_example =
    ks_join_local_thread-JoinOut (λ um t. um) two_threads 8 2 0 [] refl (λ h. omega arith)
      (λ h. omega arith) (λ h. omega arith) refl two_threads-IsTable
