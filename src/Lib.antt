-- ===== src/Lib.antt =====
-- A model of the Rustux kernel's core in Rust: its capabilities, its memory and object services, its
-- processes and its scheduler, with theorems on what they guarantee.
--
-- The parts, and the file of the repository that each follows:
--   Base            shared notation; lists as fixed arrays of optional slots (Base/Slots), Rust's
--                   results and panics (Base/Results), masks of bits (Base/Bits)
--   Object/Rights   src/object/handle.rs: rights masks and object types
--   Object/Handle   src/object/handle.rs: handles, and reference counts in a store of objects by
--                   address, so that handles can share an object
--   Object/HandleTable
--                   src/object/handle.rs: a process's table of 256 handles
--   Object/Event    src/object/event.rs: events, with their wait queues
--   Object/Channel  src/object/channel.rs: the endpoints of channels and their messages
--   Object/Timer    src/object/timer.rs: timers and their states
--   Object/Job      src/object/job.rs: jobs, with their processes and policies
--   Object/Vmo      src/object/vmo.rs: virtual memory objects, on the kernel's bytes and a source of pages
--                   (Object/Vmo/Pages) that the page allocator fills (Object/Vmo/Source)
--   Mm/Address      src/mm/pmm.rs: pages and addresses
--   Mm/Pmm          src/mm/pmm.rs: the physical page allocator; Mm/Pmm/Pages is one arena
--   Sync/Event      src/sync/event.rs: the event primitive under interleaved calls
--   Sync/WaitQueue  src/sync/wait_queue.rs: the ring of waiters and the queue around it
--   Process/Fd      src/syscall/fd.rs: a process's file descriptors
--   Process/Handles src/process/mod.rs: the handle table that a process object carries
--   Process/Table   src/process/table.rs: processes, PIDs, and the search for a runnable one
--   Sched/RoundRobin
--                   src/sched/round_robin.rs: the scheduler, on the process table
--   Sched/RunQueue  src/sched/state.rs: thread states, and the run queue with its five rings
--   Sched/Thread    src/sched/thread.rs: threads and their first stack frame
--   Sched/Scheduler src/sched/scheduler.rs: the scheduler of threads, on the run queue
--   Exec/Elf        src/exec/elf.rs: ELF headers, and the loading of segments into VMOs (Exec/Elf/Load)
--   Fs/Ramdisk      src/fs/ramdisk.rs and build.rs: the RAM disk and the image that the build writes
--   Fs/Vfs          src/fs/vfs.rs: the files that are opened on the RAM disk
--
-- The page allocator hands physical pages to the rest of the kernel. Events
-- wake the waiters of a wait queue, and a channel's endpoint signals its events. Handles carry
-- rights and live in handle tables; processes own descriptor tables and live in the process table;
-- the scheduler keeps a PID and calls the process table's search. Threads have a scheduler of their own,
-- over the run queue. The ELF loader makes a VMO for each segment and writes to it, and a VMO takes its
-- pages from the allocator. Files are opened on the RAM disk. Operations keep the source's names. A
-- method on `&mut self` takes the state last and returns the new state after its result;
-- `Result<_, &str>` is `Result Error`, with a constructor of `Error` for each message; a panic is
-- `panics` of `Outcome`. Rust's u32, u64 and usize are natural numbers with the wrap-around written
-- out where the source can reach it. A lock is held over each operation as in the source, so that
-- operations run one after the other.
--
-- Loops: `alloc_pid` has 257 rounds and `find_next_runnable` 256, since each round looks at another
-- slot (and one meets the limit); the search for free pages in a row has one round more than the arena
-- has pages, since each moves past a page in use; the wait queue's loop that makes room has 256, one
-- turn of the ring, and `wake_all` one more than there are entries. A run that needed more would give
-- `none`. The loops of a VMO's `read` and `write` and of the loader's zeros have a round for each byte,
-- since each round moves by at least one; the copy of a page has 16, one for each 256 bytes. In
-- `pmm_alloc_page` `none` is the endless loop that the source has there. The other loops
-- are recursions on the list or the number that they go through.
--
-- Not modelled: hardware access, inline assembly and the boot sequence, since there the code's
-- meaning is the machine's; address spaces, the process object, the heap and the system call layer,
-- which build on the parts here; setters and getters of one field, and printing, but for the loader's access to its
-- third segment.
pub mod Base
pub mod Object
pub mod Mm
pub mod Process
pub mod Sched
pub mod Sync
pub mod Exec
pub mod Fs
