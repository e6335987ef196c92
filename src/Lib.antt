-- ===== src/Lib.antt =====
-- FernOS is a small operating system: a kernel, user libraries and data structures shared by both.
-- This library models parts of it, written in C under src/ of the repository, and proves that they do
-- what their headers promise.
--
-- The parts and the files that model them:
--
-- Prelude, Prelude/Tests, Prelude/Lists, Prelude/Int: shared names, Boolean tests, lists measured by
-- native numbers, and int32_t arithmetic with its wrap-around.
--
-- Err: fernos_error_t of src/s_util/include/s_util/err.h. Allocation is the library's allocator, which
-- is not modelled: the outcomes of the coming calls of al_malloc are a list of Booleans, and the
-- theorems about code with such a list hold for each list, so for every pattern of failures.
--
-- FixedQueue: src/s_data/src/fixed_queue.c, a cyclic buffer with write-over. Window has the cells of a
-- cyclic buffer in order, which the pipe uses too. Refine relates each operation to a bounded list.
--
-- ListT: the interface of src/s_data/include/s_data/list.h as a list split where its iterator stands.
-- The nodes of list.c are not modelled.
--
-- Map: the contract of src/s_data/include/s_data/map.h for keys that are numbers, as an association
-- list. Hashing is not modelled.
--
-- Rand: src/s_util/src/rand.c, a shift register of 64 bits.
--
-- BlockDevice: src/s_block_device. BlockDevice itself has block_device_impl_t as a record of operations,
-- and IsDisk, the laws that block_device.h promises: a device is a function from sector numbers to
-- sectors. Mem is mem_block_device.c and Cached is cached_block_device.c, which wraps any device. Client
-- has sequences of calls. Bytes that an operation writes to `dest` are part of its result, and a number
-- of whole sectors is the length of a list. Allocation of the cache is a supply of answers without end;
-- the laws of the cache are for the supply that is always yes, where the two ways in which a failing one
-- breaks the cache are left out. Cached/Invariant says when a cache is sound; Slot, Piece, Ranges,
-- Overwrite and Flush take its operations one by one.
--
-- Fat32: src/s_block_device/src/fat32.c over any block device. The constant fields of fat32_device_t are
-- Layout, the others Fat32Device. Slots has the file allocation table as a function of the disk; Chain
-- has the calls that free and follow a chain and the queue of free slots, Resize the ones that make
-- chains and change their length, Data the one that reads and writes a part of a sector. Chain/Table says
-- when a list of slots is a chain. The loop that frees a chain runs on num_fat_slots + 2 rounds: each
-- round but the last two takes a slot out of use. The
-- theorems on free slots are for a partition at the start of the device whose table has a used slot in
-- its last sector, since fat32_populate_free_queue reads other sectors elsewhere. Not modelled:
-- init_fat32, parse_new_fat32_device, fat32_sync_fats, fat32_read_write, directories and paths.
--
-- WaitQueue: src/s_data/src/wait_queue.c. Basic, Vector and Timed are the three kinds of queue, each
-- with new, enqueue, notify, pop and remove; Remove is the loop that they share. The loops run on fuel,
-- one round for each waiting item and one to see the end, and their theorems show that this is enough.
-- A 32-bit clock that wraps is in Timed. Timed/Memory counts the
-- allocations of a notification, one for each item that becomes ready.
--
-- Mutex: src/u_concur/src/mutex.c. Each thread is at one of ten places of mut_lock and mut_unlock; a
-- step is one atomic access, and any thread may take the next one.
--
-- Geometry: intervals_overlap of src/s_util/src/misc.c, and gfx_clip and gfx_clip_with_buffer of
-- src/s_gfx/src/gfx.c.
--
-- Kernel/Thread: src/k_startup/src/thread.c: detaching and scheduling a thread and
-- bwq_wake_all_threads. The schedule is the list of the threads of its ring, the running one first. A
-- thread and a queue are numbers that stand for addresses, so that a queue has one state however many
-- pointers lead to it. wake_loop runs on fuel, one round for each ready item and one to see the end.
--
-- Kernel/UserMem: mem_cpy_from_user and mem_cpy_to_user of src/k_startup/src/page_helpers.c, with the
-- two-level translation of an address. Bytewise is the description byte by byte. Pages of the machine
-- that the kernel assigns to itself for a copy are not modelled, only what is read and written there.
-- The loops run on fuel, one round for each byte and one more; a round copies at least one byte. The
-- theorems leave out the last page of the address space, where the code's arithmetic wraps.
--
-- Kernel/Futex: src/k_startup/src/plugin_fut.c: the four commands and the hooks for fork, reset and
-- reap of a process. A futex map is an association list. A kernel error is the first component of a
-- result, an error for the user is in the thread's eax.
--
-- Kernel/Pipe: src/k_startup/src/plugin_pipe.c: pipes and the operations of their handles. The open
-- command is not modelled, since it is mostly about the handle table of the process.
--
-- Kernel/Process: processes, signals and the life of threads, of src/k_startup/src/state.c and process.c.
-- A process has the fields that these use; KernelState has the processes by their addresses. Signals and
-- exits call one another, so ks_signal_p runs on fuel, a round for each signal that is sent because of
-- another one: the rank of the process in the tree of processes and one more are enough (Kept, Ends).
-- Calls has the system calls of signals, exit and reap, Threads those of sleeping, exiting and joining
-- threads, and the tick. A call that returns an error shuts the system down; an error for the user is in
-- the thread's eax. The plugins' hooks, the deletion of handles and the pages of a stack that is given
-- back are parameters. Delivery, Signals and Calls/Waiting say what a signal and a wait do, Calls/Runs
-- what holds over any sequence of them, Calls/Reaping whom ks_reap_proc reaps, Calls/Reaped and
-- Calls/Told what becomes of the zombie and what the caller is told,
-- Zombie what a signal does to a process that has exited, Threads/Tick whom a tick wakes,
-- Threads/Rousing how they come back into the schedule,
-- Threads/Joining which thread is joined. A table of
-- ids is an association list, whose order is that of its iterator.
--
-- The kernel's parts build on one another: pipes and futexes block the running thread in a basic wait
-- queue, bwq_notify readies it, and waking puts it back into the schedule. The mutex is written against
-- the futex system calls, of which it assumes that a wait and a wake run without interruption.
--
-- Not modelled: devices and boot, which have no logic of their own; directories and paths of the file
-- system, the ATA disk, processes,
-- heaps, trees and hash maps, and the graphics stack beyond clipping.
pub mod Prelude
pub mod Err
pub mod FixedQueue
pub mod ListT
pub mod Map
pub mod Rand
pub mod BlockDevice
pub mod Fat32
pub mod WaitQueue
pub mod Mutex
pub mod Geometry
pub mod Kernel
