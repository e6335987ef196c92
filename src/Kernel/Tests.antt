-- ===== src/Kernel/Tests.antt =====
-- The kernel's parts at concrete inputs: one running thread, a futex, and a pipe of four bytes.
use fern_os.Prelude.{
  ◌≡◌, ◌≢◌, ◌⊎◌, refl, true, false, none, some, [], ◌∷◌, arith, ◌==◌, if◌then◌else◌, take, ap,
}
use fern_os.Err.{success, no_mem, state_mismatch}
use fern_os.ListT.{new_list}
use fern_os.Map.{mp_get, mp_remove}
use fern_os.Kernel.Thread.{scheduled, Kernel, bwq_wake_all_threads}
use fern_os.Kernel.Thread.Waking.{WokenAll, bwq_wake_all_threads-all}
use fern_os.Kernel.UserMem.{UserMem, pd_get_underlying_p, mem_cpy_from_user, mem_cpy_to_user}
use fern_os.Kernel.UserMem.Bytewise.{reachable, peek, poke}
use fern_os.Kernel.UserMem.From.{mem_cpy_from_user-peek}
use fern_os.Kernel.UserMem.To.{mem_cpy_to_user-poke}
use fern_os.Kernel.Futex.{FutSystem, fut_wait, fut_deregister, set_map, dual_ret, word}
use fern_os.Kernel.Futex.Sleeping.{Slept, fut_wait-sleeps, fut_deregister-wakes}
use fern_os.Kernel.Pipe.{Pipe, write_bytes, read_bytes}
use fern_os.Kernel.Pipe.Content.{IsValid, contents}
use fern_os.Kernel.Pipe.RoundTrip.{read_bytes-write_bytes}
use fern_os.Kernel.Pipe.Writing.{Wrote, write_bytes-Wrote}
use fern_os.Kernel.Pipe.Reading.{ReadOut}
use fern_os.Kernel.Pipe.Draining.{read_bytes-ReadOut}

-- Thread 7 waits on queue 3, thread 1 runs.
abbrev kernel : Kernel
kernel = record {
  schedule = 1 ∷ [];
  threads = λ i. record { state = scheduled; wq = none; wait_ctx = []; eax = success };
  queues = λ q.
      if q == 3
      then record { wait_q = record { before = 7 ∷ []; rest = [] }; ready_q = new_list }
      else record { wait_q = new_list; ready_q = new_list };
  vectors = λ q. record { wait_q = new_list; ready_q = new_list };
  sleep_q = record { time = 0; wait_q = new_list; ready_q = new_list };
  mem = true ∷ true ∷ [];
}

bwq_wake_all_threads-all_example :
    WokenAll true state_mismatch 3 kernel (bwq_wake_all_threads 3 state_mismatch kernel)
bwq_wake_all_threads-all_example = bwq_wake_all_threads-all 3 state_mismatch kernel

-- A user with two pages, the second of which is not present.
abbrev user_mem : UserMem
user_mem = record {
  directory = λ d. if d == 0 then some 0 else none;
  tables = λ t e. if e == 1 then some 9 else none;
  bytes = λ p o. o;
}

mem_cpy_from_user-peek_example :
    let r = reachable user_mem 8190 6 in
    mem_cpy_from_user user_mem 8190 6 ≡ (if r == 6 then success else no_mem, peek user_mem 8190 r)
mem_cpy_from_user-peek_example = mem_cpy_from_user-peek user_mem 8190 6 (omega arith) (omega arith)

mem_cpy_to_user-poke_example :
    let r = reachable user_mem 8190 3 in
    mem_cpy_to_user user_mem 8190 (5 ∷ 6 ∷ 7 ∷ [])
    ≡ (if r == 3 then success else no_mem, r, poke user_mem 8190 (take r (5 ∷ 6 ∷ 7 ∷ [])))
mem_cpy_to_user-poke_example =
    mem_cpy_to_user-poke user_mem 8190 (5 ∷ 6 ∷ 7 ∷ []) (omega arith) (omega arith)

-- A pipe of four cells that holds one byte in its last cell, so that a write wraps.
abbrev pipe : Pipe
pipe = record {
  write_refs = 1;
  read_refs = 1;
  i = 2;
  j = 3;
  cap = 4;
  buf = 0 ∷ 0 ∷ 11 ∷ 0 ∷ [];
  w_wq = 4;
  r_wq = 3;
}

pipe-IsValid : IsValid pipe
pipe-IsValid = record { storage = refl; start_in = omega arith; end_in = omega arith }

write_bytes-Wrote_example : Wrote user_mem 4096 2 pipe (write_bytes user_mem pipe 4096 2)
write_bytes-Wrote_example =
    write_bytes-Wrote user_mem pipe 4096 2 pipe-IsValid (omega arith) (omega arith) (omega arith)

-- The same pipe after that write, from which two bytes are read round the end.
abbrev wrapped_pipe : Pipe
wrapped_pipe = record pipe { j = 1; buf = 1 ∷ 0 ∷ 11 ∷ 0 ∷ [] }

wrapped_pipe-IsValid : IsValid wrapped_pipe
wrapped_pipe-IsValid = record { storage = refl; start_in = omega arith; end_in = omega arith }

read_bytes-ReadOut_example :
    ReadOut user_mem 4100 3 wrapped_pipe (read_bytes user_mem wrapped_pipe 4100 3)
read_bytes-ReadOut_example =
    read_bytes-ReadOut user_mem wrapped_pipe 4100 3 wrapped_pipe-IsValid (omega arith) (omega arith)
      (omega arith)

-- Process 0 of thread 1 has a futex at 4096, whose queue is 3.
abbrev futexes : FutSystem
futexes = record {
  kernel = kernel;
  proc = λ i. 0;
  user = λ i. user_mem;
  fut_maps = λ i. some ((4096, some 3) ∷ []);
}

fut_deregister-wakes_example :
    let (err, s') = fut_deregister futexes ((4096, some 3) ∷ []) 4096 in
    WokenAll false state_mismatch 3 kernel (err, s'.kernel)
    × ((err ≡ success)
          × (s'.fut_maps
              ≡ (set_map futexes 0 (some (mp_remove ((4096, some 3) ∷ []) 4096))).fut_maps)
        ⊎ (err ≡ no_mem) × (s'.fut_maps ≡ futexes.fut_maps))
unfolding mp_get
fut_deregister-wakes_example =
    fut_deregister-wakes futexes ((4096, some 3) ∷ []) 4096 3 (omega arith) refl

can_read : (mem_cpy_from_user user_mem 4096 4).0 ≡ success
unfolding pd_get_underlying_p
can_read = ap (λ r. r.0) (mem_cpy_from_user-peek user_mem 4096 4 (omega arith) (omega arith))

-- Thread 1 expects the value that the futex has.
fut_wait-sleeps_example :
    let act_val = word (mem_cpy_from_user user_mem 4096 4).1 in
    let (err, s') = fut_wait futexes ((4096, some 3) ∷ []) 4096 50462976 in
    (err ≡ success)
    × ((act_val ≢ 50462976) × (s' ≡ (dual_ret futexes 1 success).1)
        ⊎ ((act_val ≡ 50462976) × Slept kernel 1 3 s'.kernel
            ⊎ (act_val ≡ 50462976)
              × (s'.kernel.schedule ≡ kernel.schedule)
              × (s'.kernel.queues 3 ≡ kernel.queues 3)
              × ((s'.kernel.threads 1).eax ≡ no_mem)))
unfolding mp_get
fut_wait-sleeps_example =
    fut_wait-sleeps futexes ((4096, some 3) ∷ []) 4096 50462976 3 (omega arith) refl can_read refl

-- An empty pipe whose indices stand near the end of its buffer, so that the copies wrap.
abbrev empty_pipe : Pipe
empty_pipe = record pipe { i = 3 }

empty_pipe-IsValid : IsValid empty_pipe
empty_pipe-IsValid = record { storage = refl; start_in = omega arith; end_in = omega arith }

all_there : (reachable user_mem 4096 3 ≡ 3) × (reachable user_mem 5000 3 ≡ 3)
unfolding pd_get_underlying_p
all_there = (refl, refl)

read_bytes-write_bytes_example :
    let (err, written, p1) = write_bytes user_mem empty_pipe 4096 3 in
    let (err', readden, p2, um') = read_bytes user_mem p1 5000 3 in
    (err ≡ success)
    × (written ≡ 3)
    × (err' ≡ success)
    × (readden ≡ 3)
    × (um' ≡ poke user_mem 5000 (peek user_mem 4096 3))
    × (contents p2 ≡ [])
    × IsValid p2
read_bytes-write_bytes_example =
    read_bytes-write_bytes user_mem empty_pipe 4096 5000 3 empty_pipe-IsValid refl (omega arith)
      (omega arith) (omega arith) all_there.0 (omega arith) (omega arith) all_there.1
