-- ===== src/Kernel/Pipe.antt =====
-- k_startup/src/plugin_pipe.c: pipes, the operations of their two handles, and their deletion.
pub mod Content
pub mod Writing
pub mod Reading
pub mod Draining
pub mod RoundTrip
use fern_os.Prelude.{
  ℕ, zero, suc, ◌+◌, ◌-◌, ◌/◌, ◌%◌, ◌^◌, min, Bool, true, false, ◌&&◌, ◌||◌, not, Option, none,
  some, List, [], ◌∷◌, ◌++◌, length, take, drop, blit, replicate, ltb, leb, ◌==◌, if◌then◌else◌,
}
use fern_os.Err.{Err, success, bad_args, no_mem, empty, state_mismatch, is_success, Mem, al_malloc}
use fern_os.WaitQueue.Basic.{BasicWaitQueue, new_basic_wait_queue, bwq_enqueue}
use fern_os.Kernel.Thread.{
  basic, waiting, Kernel, set_thread, set_queue, thread_detach, bwq_wake_all_threads,
}
use fern_os.Kernel.UserMem.{UserMem, mem_cpy_from_user, mem_cpy_to_user}

-- `KS_PIPE_TX_MAX_LEN`
abbrev pub tx_max_len : ℕ
tx_max_len = 2048

-- `pipe_t`. `buf` is the memory of the buffer; a queue is the number that stands for its address.
pub record Pipe : Type 0 where
  pub write_refs : ℕ
  pub read_refs : ℕ
  pub i : ℕ
  pub j : ℕ
  pub cap : ℕ
  pub buf : List ℕ
  pub w_wq : ℕ
  pub r_wq : ℕ

-- `new_pipe`, for an allocator that is not NULL: the addresses of the queues, what the fresh buffer
-- holds, and the answers of the allocator. A part that was allocated is given back when another
-- fails.
pub new_pipe : ℕ → ℕ → ℕ → ℕ → Mem → Option (Pipe × BasicWaitQueue × BasicWaitQueue) × Mem
new_pipe w_wq r_wq junk sig_cap mem =
    if sig_cap == 0
    then (none, mem)
    else let cap = (sig_cap + 1) % 2 ^ 32 in
      let (p, mem1) = al_malloc mem in
      let (buf, mem2) = al_malloc mem1 in
      let (w, mem3) = new_basic_wait_queue mem2 in
      let (r, mem4) = new_basic_wait_queue mem3 in
      if not p || not buf then (none, mem4) else elim w [
        | none ↦ (none, mem4)
        | some wq ↦ elim r [
          | none ↦ (none, mem4)
          | some rq ↦
              let fresh : Pipe = record {
                write_refs = 0;
                read_refs = 0;
                i = 0;
                j = 0;
                cap = cap;
                buf = replicate cap junk;
                w_wq = w_wq;
                r_wq = r_wq;
              } in
              (some (fresh, wq, rq), mem4)
        ]
      ]

-- `((pipe->j + 1) % pipe->cap) == pipe->i`
abbrev pub is_full : Pipe → Bool
is_full p = (p.j + 1) % p.cap == p.i

abbrev pub is_drained : Pipe → Bool
is_drained p = p.i == p.j

abbrev pub occupied_bytes : Pipe → ℕ
occupied_bytes p = if leb p.i p.j then p.j - p.i else (p.cap - p.i) + p.j

-- One copy into the buffer at `j`; `wrap` says whether `j` starts again at the end.
pub copy_in : UserMem → Pipe → ℕ → ℕ → Bool → Err × ℕ × Pipe
copy_in um p u_src amt wrap =
    let (err, input) = mem_cpy_from_user um u_src amt in
    let j = p.j + length input in
    (
      err,
      length input,
      record p { buf = blit p.buf p.j input; j = if wrap && (j == p.cap) then 0 else j },
    )

-- The second copy of `pipe_hs_write`, if the first one succeeded and something is left to write.
pub write_rest : UserMem → ℕ → ℕ → Err × ℕ × Pipe → Err × ℕ × Pipe
unfolding copy_in
write_rest um u_src bytes_to_write (err, written, p) =
    let (err', more, p') =
      copy_in um p ((u_src + written) % 2 ^ 32) (bytes_to_write - written) false in
    if is_success err && ltb 0 (bytes_to_write - written)
    then (err', written + more, p')
    else (err, written, p)

-- The two copies of `pipe_hs_write`: the error, `bytes_written` and the pipe.
pub write_bytes : UserMem → Pipe → ℕ → ℕ → Err × ℕ × Pipe
unfolding copy_in write_rest
write_bytes um p u_src bytes_to_write = write_rest um u_src bytes_to_write (
    if leb p.i p.j
    then copy_in um p u_src (min bytes_to_write (p.cap - p.j)) true
    else (success, 0, p))

-- One copy out of the buffer at `i`, and the two of `pipe_hs_read`.
pub copy_out : UserMem → Pipe → ℕ → ℕ → Bool → Err × ℕ × Pipe × UserMem
copy_out um p u_dest amt wrap =
    let (err, copied, um') = mem_cpy_to_user um u_dest (take amt (drop p.i p.buf)) in
    let i = p.i + copied in
    (err, copied, record p { i = if wrap && (i == p.cap) then 0 else i }, um')

pub read_rest : ℕ → ℕ → Err × ℕ × Pipe × UserMem → Err × ℕ × Pipe × UserMem
unfolding copy_out
read_rest u_dest bytes_to_read (err, readden, p, um) =
    let (err', more, p', um') =
      copy_out um p ((u_dest + readden) % 2 ^ 32) (bytes_to_read - readden) false in
    if is_success err && ltb 0 (bytes_to_read - readden)
    then (err', readden + more, p', um')
    else (err, readden, p, um)

pub read_bytes : UserMem → Pipe → ℕ → ℕ → Err × ℕ × Pipe × UserMem
unfolding copy_out read_rest
read_bytes um p u_dest bytes_to_read = read_rest u_dest bytes_to_read (
    if ltb p.j p.i
    then copy_out um p u_dest (min (p.cap - p.i) bytes_to_read) true
    else (success, 0, p, um))

-- A pipe and what its handles work on: the kernel's threads and queues, the process of each thread
-- and the memory of each process.
pub record PipeSystem : Type 0 where
  pub kernel : Kernel
  pub proc : ℕ → ℕ
  pub user : ℕ → UserMem
  pub pipe : Pipe

-- `ks->schedule.head`; a handle is used only by a running thread.
abbrev first : List ℕ → ℕ
first [] = 0
first (t ∷ ts) = t

abbrev pub current : PipeSystem → ℕ
current s = first s.kernel.schedule

-- `DUAL_RET(thr, err, FOS_E_SUCCESS)`
abbrev pub dual_ret : PipeSystem → ℕ → Err → Err × PipeSystem
dual_ret s t err = (
  success,
  record s { kernel = set_thread s.kernel t (record (s.kernel.threads t) { eax = err }) },
)

-- The running thread waits on a queue, or is told why it cannot.
pub wait_on : PipeSystem → ℕ → Err × PipeSystem
wait_on s q =
    let t = current s in
    let k = s.kernel in
    let (err, b, mem') = bwq_enqueue (k.queues q) t k.mem in
    let k' = record (set_queue k q b) { mem = mem' } in
    let k'' = thread_detach k' t in
    if is_success err
    then (
      success,
      record s {
        kernel = set_thread k'' t (record (k''.threads t) { wq = some (basic q); state = waiting });
      },
    )
    else dual_ret (record s { kernel = k' }) t err

pub pipe_hs_wait_write_ready : PipeSystem → Err × PipeSystem
unfolding wait_on
pipe_hs_wait_write_ready s =
    if s.pipe.read_refs == 0
    then dual_ret s (current s) empty
    else if is_full s.pipe
    then wait_on s s.pipe.w_wq
    else dual_ret s (current s) success

pub pipe_hs_wait_read_ready : PipeSystem → Err × PipeSystem
unfolding wait_on
pipe_hs_wait_read_ready s =
    if is_drained s.pipe
    then (if s.pipe.write_refs == 0 then dual_ret s (current s) empty else wait_on s s.pipe.r_wq)
    else dual_ret s (current s) success

abbrev pub set_user : PipeSystem → ℕ → UserMem → PipeSystem
set_user s pid um = record s { user = λ p. if p == pid then um else s.user p }

-- A `size_t` in memory.
abbrev pub size_bytes : ℕ → List ℕ
size_bytes n = (n % 256) ∷ (n / 256 % 256) ∷ (n / 65536 % 256) ∷ (n / 16777216 % 256) ∷ []

-- The end of a transfer: the number of bytes is written for the user, if it is asked for, and then
-- the error of the copies is passed on.
pub report : PipeSystem → ℕ → ℕ → ℕ → Err → Err × PipeSystem
report s t u_count n err =
    let pid = s.proc t in
    let (err', copied, um) = mem_cpy_to_user (s.user pid) u_count (size_bytes n) in
    let s' = set_user s pid um in
    if u_count == 0
    then dual_ret s t err
    else if is_success err'
    then dual_ret s' t err
    else dual_ret s' t err'

pub wake_if : Bool → ℕ → PipeSystem → Err × PipeSystem
wake_if b q s =
    let (err, k) = bwq_wake_all_threads q success s.kernel in
    if b then (err, record s { kernel = k }) else (success, s)

pub pipe_hs_write : PipeSystem → ℕ → ℕ → ℕ → Err × PipeSystem
unfolding write_bytes report wake_if
pipe_hs_write s u_src len u_written =
    let t = current s in
    let p = s.pipe in
    if u_src == 0 || len == 0
    then dual_ret s t bad_args
    else if p.read_refs == 0
    then dual_ret s t empty
    else if is_full p
    then dual_ret s t empty
    else let available_bytes = (p.cap - 1) - occupied_bytes p in
      let bytes_to_write = min len (min available_bytes tx_max_len) in
      let (err, written, p') = write_bytes (s.user (s.proc t)) p u_src bytes_to_write in
      let (err', s') = wake_if (is_drained p && ltb 0 written) p.r_wq (record s { pipe = p' }) in
      if is_success err' then report s' t u_written written err else (err', s')

pub pipe_hs_read : PipeSystem → ℕ → ℕ → ℕ → Err × PipeSystem
unfolding read_bytes report wake_if
pipe_hs_read s u_dest len u_readden =
    let t = current s in
    let p = s.pipe in
    if u_dest == 0 || len == 0
    then dual_ret s t bad_args
    else if is_drained p
    then dual_ret s t empty
    else let bytes_to_read = min len (min (occupied_bytes p) tx_max_len) in
      let (err, readden, p', um) = read_bytes (s.user (s.proc t)) p u_dest bytes_to_read in
      let (err', s') =
        wake_if (is_full p && ltb 0 readden) p.w_wq
          (set_user (record s { pipe = p' }) (s.proc t) um) in
      if is_success err' then report s' t u_readden readden err else (err', s')

-- The two kinds of handle, told apart by their implementation.
pub data End : Type 0 where
  writer reader : End

-- `copy_pipe_handle_state`: a copy of a handle counts.
pub copy_pipe_handle_state : End → PipeSystem → Err × PipeSystem
copy_pipe_handle_state end s =
    let (ok, mem') = al_malloc s.kernel.mem in
    let s' = record s { kernel = record s.kernel { mem = mem' } } in
    if not ok then (no_mem, s') else elim end [
      | writer ↦
          (success, record s' { pipe = record s.pipe { write_refs = s.pipe.write_refs + 1 } })
      | reader ↦ (success, record s' { pipe = record s.pipe { read_refs = s.pipe.read_refs + 1 } })
    ]

-- Wake both queues; an error of the first leaves the second alone.
pub wake_both : Err → Err → PipeSystem → Err × PipeSystem
wake_both w_status r_status s =
    let (err, k) = bwq_wake_all_threads s.pipe.w_wq w_status s.kernel in
    let (err', k') = bwq_wake_all_threads s.pipe.r_wq r_status k in
    if is_success err then (err', record s { kernel = k' }) else (err, record s { kernel = k })

-- A handle of one end goes.
abbrev pub drop_ref : End → Pipe → Pipe
drop_ref writer p = record p { write_refs = (p.write_refs + 2 ^ 32 - 1) % 2 ^ 32 }
drop_ref reader p = record p { read_refs = (p.read_refs + 2 ^ 32 - 1) % 2 ^ 32 }

-- When an end has no handle left, the threads that wait for it are told that nothing will come.
pub wake_gone : End → PipeSystem → Err × PipeSystem
unfolding wake_both
wake_gone writer s =
    if s.pipe.write_refs == 0 then wake_both state_mismatch empty s else (success, s)
wake_gone reader s =
    if s.pipe.read_refs == 0 then wake_both empty state_mismatch s else (success, s)

-- `delete_pipe_handle_state`; the Boolean says that the pipe is deleted.
pub delete_pipe_handle_state : End → PipeSystem → Err × Bool × PipeSystem
unfolding wake_gone
delete_pipe_handle_state end s =
    let p = s.pipe in
    let p' = drop_ref end p in
    let s' = record s { pipe = p' } in
    let (err, s'') = wake_gone end s' in
    if is_success err
    then (success, (p'.write_refs + p'.read_refs) % 2 ^ 32 == 0, s'')
    else (err, false, s'')
