-- ===== src/Lib.antt =====
-- Verification of the checkpointing of process trees: the coordinator (xnd/coordinator), the pid
-- table that it shares with every process (xnd/virtual_id_table.h, xnd/pid), the wrappers by which a
-- process sees virtual pids only (xnd/pid/pid_wrappers.c), the suspension of its threads
-- (xnd/thread_info.c), its side of the connection (xnd/coordinator/xnd_coord_client.c), the table of
-- its open files (xnd/fd_table.c), and the file that its memory is written to and restored from
-- (xnd/writeckpt.c, xnd/readckpt.c, xnd/vm_checkpoint.c, xnd/vm_restore.c, xnd/ckptfile.c).
--
-- The parts. A computation is a tree of processes. Each connects to one coordinator, which hands out
-- virtual pids that survive a restart. A pid table maps virtual to real pids, in the coordinator and
-- in each process. On a checkpoint the coordinator suspends every process, releases them into their
-- checkpoints, collects the completions, writes a manifest and releases them again. On a restart it
-- waits for all peers and releases them together. In a process, the wrappers translate the pids of
-- each system call, asking the coordinator for what their own table does not hold. A thread of its
-- own waits for the coordinator, suspends the others by a signal, and writes the checkpoint while
-- they wait in a barrier. The checkpoint lists the regions of the address space, writes a header and
-- an entry for each region, and last the registers. A new process reads that file, maps each region
-- and fills it, and goes on from the registers.
--
-- The files:
-- - Pid/Table: the hash map of xnd/virtual_id_table.h as the list of its entries, the functions of
--   xnd/pid/pid_table_common.cpp by their names, and pid_table_init_pid_info,
--   pid_table_postrestart and pid_table_atfork_child of xnd/pid/pid_table.cpp.
-- - ProcList: the list of xnd/coordinator/proc_list.c as a sequence. The functions are named as
--   there, without `proc_list_`; proc_list_remove and proc_list_filter, which run a callback on the
--   coordinator's state, are in Coord/Message (`remove_found`) and Coord/Suspend.
-- - Coord/Base: the state, the messages and the exit of xnd/coordinator/xnd_coord.c; Coord/Connect:
--   launch, restart and fork; Coord/Message: queries and exits; Coord/Suspend: the suspension;
--   Coord/Barrier: the barriers; Coord/Checkpoint: coord_do_checkpoint; Coord/Serve:
--   coord_wait_for_connection, commands and coord_do_restart. Functions have the source's names.
-- - Peer/Base: the state of a thread in a wrapper, with unsafe_enter and unsafe_exit of
--   xnd/thread_info.h; Peer/Translate: the queries of xnd/coordinator/xnd_coord_client.c and the
--   translations of xnd/pid/pid_wrappers.c; Peer/Proc and Peer/Pid: the wrappers, named
--   `kill_hook` for `__kill_hook`; Peer/Agree: a process and the coordinator together.
-- - Thread/Base: the threads of xnd/thread_info.h and the lists of xnd/thread_info.c;
--   Thread/Suspend: what suspend_threads and wait_for_exiting_threads do with one thread;
--   Thread/Run: all the threads of a process and its checkpoint thread as a step relation. `Turn`
--   has the steps of a user thread (thread_start, the wrappers' unsafe_enter and unsafe_exit,
--   thread_exit, thread_sighandler with thread_barrier), `ckpt_work` those of ckpt_thread_work.
-- - Fd/Base: the table of xnd/fd_table.c, with the functions that xnd/wrappers/file_wrappers.c
--   calls; Fd/Wrappers: which of them each wrapper calls; Fd/Save: fd_table_save with file_save and
--   dir_save; Fd/Restore: fd_table_restore with file_restore and dir_restore;
--   Fd/SampleKernel: a system for the tests.
-- - Client: the other functions of xnd/coordinator/xnd_coord_client.c; Client/Fork: its fork handlers
--   and the end of the connection; Client/Agree: what they make of the coordinator's messages.
-- - Image/Base: the structures of a checkpoint file; Image/Vm: the calls of the Mach kernel as an
--   interface with laws; Image/Read: from restart of xnd/xnd_restart_internal.c down to the pages;
--   Image/Write: from xnd_checkpoint of xnd/xnd_lib.c down to the pages; Image/Format: the contents
--   of the file, described by themselves; Image/RoundTrip: both together; Image/Scan: the walks of
--   xnd/vm_checkpoint.c and xnd/vm_restore.c over the regions; Image/Samples, Image/SampleVm: a
--   kernel and a process for the tests.
-- - Files/Paths: xnd/util/path.c; Files/Names: the names, the parser and the manifest of
--   xnd/ckptfile.c.
-- - Leb128 and Leb128/Signed: the numbers of include/common/leb128.h.
--
-- State and effects. The coordinator's functions take and return its state with a log of what it
-- does to the world, and end in one of four ways (`Run`): they return, the coordinator exits, an
-- assertion fails, or a loop waits for more answers of the world than are given. A `World` holds the
-- answers during one pass: what can be written to, what arrives, who is alive, what select returns.
-- Loops take one world for each round, so that a list of worlds is both the schedule and the bound
-- on the rounds: a suspension asks in one round and is answered in the next, and a wait for the
-- sockets takes one round where they are all ready. The order of the sockets' traffic is that of the
-- worlds. An answer that is missing or short is an end of the receive; a process that is only silent,
-- for which the source would wait without end, has none. The kind of communication that
-- coord_collective_prepare is given, which chooses between two sets of sockets, is not an argument:
-- the sets are those of the world. In a process, `Outcome` has a third end for a lock or a state that only another thread can
-- change. Nothing is assumed of memory that the source does not initialise: messages and processes
-- start from an arbitrary one (`garbage`, `raw`).
--
-- Numbers. Pids and descriptors are their 32-bit patterns, so that -1 is 2 ^ 32 - 1; counters wrap
-- as in C. `IsValid` is the invariant of the coordinator: ids are handed out once, the table knows
-- each process of the list, and the size is the list's.
--
-- Assertions. xnd_assert of xnd/util/log.h is modelled as the default build has it, where a failed
-- assertion ends the process. A build without DEBUG and DEVELOPMENT drops the operands.
--
-- Threads. A step is one access to the shared state, or one section under a lock: one thread of a
-- scan is one step, and so is an arrival at the barrier. The list is a sequence whose part behind a
-- scan's place is kept apart. A thread may act at any time, take its signal at any time after it was
-- sent, and end at any time in its own code; pthread_kill answers ESRCH for those that have ended.
-- That suspend_threads sets the state and then clears threads_arrived is one step, so that a new
-- thread which counts itself between the two is not covered; and the first exchange of
-- thread_sighandler, from ST_SIGNALED, is the condition of its step (`interrupt` of `Turn`).
--
-- Files. A source is malloc'ed memory at an address, a slot holds an address or nothing, and what C
-- leaves undefined is an end of its own. The answers of malloc, lseek, fcntl and telldir are
-- arguments. A restore works on a `Kernel`: the calls on descriptors, what they are documented to do
-- (`IsLawful`), and that those which a restore makes do not fail (`Granting`): opening the paths of
-- its own sources, duplicating an open descriptor, and setting an open file to a saved offset. seekdir
-- sets the position of a stream, and may move the open file behind it. The manifest has 256 places
-- for pids, and what is written behind them is an end of its own, as is a join with an empty left
-- path. The loops that encode LEB128 have 10 rounds, since 64 bits have 10 groups of 7.
--
-- Image. A file is a list of bytes with a position. How a compiler lays out a structure is a pair of
-- functions (`Codec`) with the law that the second undoes the first. The address space is a type
-- with the kernel's calls (`Vm`) and what they are documented to do (`IsLawful`): a protection is
-- granted up to the region's maximum, and VM_PROT_COPY adds writing to the maximum. `restart` is given
-- what its first call, ckpt_vm_mark_regions, finds (`Walked`); Image/Scan has the walk itself, and
-- Image/Scan/Flat what it finds in an address space without submaps. The array of regions that a
-- checkpoint fills has 1023 places, and what the walk writes behind them is an end of its own. What
-- mach_vm_page_range_query says of a page, what a write takes and how much a read gives are
-- arguments. Magic numbers, uuids and registers are numbers. Memory does not change while it is
-- written, and addresses and sizes do not wrap. The loop of sys_readall has one round more than bytes
-- to read, which is enough since each round that goes on reads one at least. The walks over regions
-- take their rounds as an argument. Strings are lists of character codes without the closing zero.
--
-- Not modelled: in xnd/thread_info.c the threads after a restart and the fork handlers; the patches
-- of mapped images (xnd/segpatch.c, xnd/platform), compression, the directories and links of
-- checkpoints, xnd_path_find; fd_table_destroy, the wrappers of signals and of times, start-up and
-- sockets; in the coordinator, coord_wait_for_msg and the loop of coord_work; in the pid wrappers,
-- proc_pidinfo. The kernel, malloc and the success of file operations are arguments. Other threads of
-- a process do not act during a pid wrapper.
pub mod Prelude
pub mod Pid
pub mod ProcList
pub mod Coord
pub mod Peer
pub mod Thread
pub mod Fd
pub mod Leb128
pub mod Client
pub mod Image
pub mod Files
