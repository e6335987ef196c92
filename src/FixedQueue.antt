-- ===== src/FixedQueue.antt =====
-- s_data/src/fixed_queue.c: a cyclic buffer of fixed capacity, with write-over.
pub mod Window
pub mod Refine
mod Tests
use fern_os.Prelude.{
  ℕ, ◌+◌, ◌*◌, ◌/◌, ◌%◌, ◌^◌, Bool, true, false, Option, none, some, List, ◌||◌, not, get_elem?,
  set, replicate, ◌==◌, if◌then◌else◌,
}

-- `fixed_queue_t`. Cells are only moved, never looked into, so a cell is any number.
pub record FixedQueue : Type 0 where
  pub capacity : ℕ
  pub buffer : List ℕ
  pub start : ℕ
  pub end : ℕ
  pub empty : Bool

-- `size_t` arithmetic, on a 32-bit machine.
abbrev pub add_size : ℕ → ℕ → ℕ
add_size a b = (a + b) % 2 ^ 32

abbrev pub mul_size : ℕ → ℕ → ℕ
mul_size a b = (a * b) % 2 ^ 32

-- `new_fixed_queue`: the two Booleans are the results of the two `al_malloc` calls, and `junk` is
-- what the fresh buffer holds. It has as many whole cells as fit in the bytes asked for.
pub new_fixed_queue : Bool → Bool → ℕ → ℕ → ℕ → Option FixedQueue
new_fixed_queue fq_ok buffer_ok junk cs cap =
    if cs == 0 || cap == 0
    then none
    else if not fq_ok || not buffer_ok
    then none
    else some (record {
      capacity = cap;
      buffer = replicate (mul_size cs cap / cs) junk;
      start = 0;
      end = 0;
      empty = true;
    })

pub fq_is_empty : FixedQueue → Bool
fq_is_empty fq = fq.empty

-- `fq_enqueue`; `none` is a null `ele`.
pub fq_enqueue : FixedQueue → Option ℕ → Bool → Bool × FixedQueue
fq_enqueue fq none writeover = (false, fq)
fq_enqueue fq (some ele) writeover =
    if fq.empty
    then (true, record fq { buffer = set fq.buffer fq.end ele; empty = false })
    else let new_end = add_size fq.end 1 % fq.capacity in
      if new_end == fq.start
      then (if not writeover then (false, fq) else (
        true,
        record fq {
          buffer = set fq.buffer new_end ele;
          end = new_end;
          start = add_size fq.start 1 % fq.capacity;
        },
      ))
      else (true, record fq { buffer = set fq.buffer new_end ele; end = new_end })

-- `fq_poll`; the Boolean says that `dest` is not null, and the option is what is written there.
pub fq_poll : FixedQueue → Bool → Bool × Option ℕ × FixedQueue
fq_poll fq dest =
    if not dest || fq.empty
    then (false, none, fq)
    else let out = get_elem? fq.buffer fq.start in
      if fq.start == fq.end
      then (true, out, record fq { empty = true })
      else (true, out, record fq { start = add_size fq.start 1 % fq.capacity })
