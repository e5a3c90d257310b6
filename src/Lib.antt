-- ===== src/Lib.antt =====
-- A model of the C programs of this repository, with the theorems that make them correct.
--
-- The repository holds two variants of the teaching kernel xv6, in `XV6 Multilevel feedback queue` and
-- `XV6 Scheduler`, and a journaling service in `Metadata journaling service`.
--
-- - Mlfq is about kernel/proc.c of the multilevel feedback queue. Table is the array `qtable` with
--   `setupQueue`, the insertion of `enqueue` and `removeFromQueue`; Table.Repr says when the array
--   stands for three lists. Kernel is the process table with the scheduler's variables, Enqueue the
--   choice of a queue, Dispatch the priority boost of `scheduler` and `dequeue` (cut at the context switch),
--   Sleep `yield`, `sleep`, `wakeup` and `kill`, Life `allocproc` to `wait`, Trap the timer branches of
--   kernel/trap.c, Calls the added system calls. Invariant has one file for each group of operations, and
--   System puts them together as a step relation on the kernel, in which interrupts come between steps;
--   Dispatch.Interrupted is about an interrupt inside the boost.
-- - RoundRobin is about kernel/proc.c of the other variant: `scheduler` with its log, `yield` and the
--   system calls that were added to it (Fair, Log, Calls); Life is `allocproc` to `kill`, System
--   the kernel as a step relation, Inv its invariant, Safety and Killing what follows from it.
-- - Log is about kernel/log.c, which is the same in both kernels: what `commit` and recovery write to the
--   disk (Writes, Crash, Commit), what a crash leaves (Atomic), and the space that calls reserve (Space,
--   Calls).
-- - Pipe is about kernel/pipe.c of `XV6 Scheduler` (the other kernel reads the killed flag through a
--   function), Strings about kernel/string.c and Kalloc about kernel/kalloc.c, the same in both kernels.
-- - SleepLock is about kernel/sleeplock.c, the same in both kernels.
-- - Bcache is about kernel/bio.c, the same in both kernels: the list of buffers in the order of their last
--   use (Chain, Seek), its invariant (Inv), `bget` (Get) and `brelse` (Release).
-- - Fs is about kernel/fs.c of `XV6 Scheduler`, above the cache and the log: the free map (Bitmap, Alloc),
--   the blocks of a file with `bmap` and `itrunc` (Map, Owned, Trunc, Discard), `readi` and `writei`
--   (Content, Read, Write, ReadBack), the table of inodes (Inodes, Table) and `skipelem` (Path).
-- - Print is about kernel/printf.c and user/printf.c of `XV6 Scheduler`, Ulib about user/ulib.c: what is
--   printed (Numeral, Spec and Typed for the user's printer), and what is read back from it.
-- - Sh is about the parser of user/sh.c, the same in both kernels: Tokens is `peek` and `gettoken`, Shape
--   the commands that are built, Args and Stops the end of the parse, Show the text of a command, and
--   ReadBack and RoundTrip the parse of that text.
-- - Journal is about journal.c of the journaling service: Ring is the circular buffer, Pipeline the three
--   threads and `request_write`, one semaphore operation or one locked section at a time, in every
--   interleaving; Pipeline.Takes is about the requests that the threads take out of the buffers, which are
--   never cleared.
-- - Common has the names and lemmas that these share.
--
-- The kernels are modelled for one CPU. A spin lock is then held with interrupts off, so the code
-- under it is one step, and the locks themselves are left out. The code does not ensure this
-- everywhere: the priority boost and `dequeue` of Mlfq run with interrupts on and are one step each in
-- Mlfq.System, and `iput`, which lets go of its lock while it frees an inode, is one step in Fs. Page
-- tables, trap frames, open files and names are left out of the process table; whether memory can be
-- had, or a copy to or from user memory succeeds, is an argument. Numbers are natural numbers; a
-- uint64 that goes through an int, `nextpid`, the count of a buffer that `brelse` lowers, the uint
-- counters of pipes, the offsets of `readi` and `writei`, the count of `memmove` in user/ulib.c, and
-- the ints that are printed and read have their wrap-around written out. Pointers into memory are
-- addresses without wrap-around; a string that is only read is the list of its bytes. A pointer to a
-- process, to a buffer or to an inode in memory is its index. User memory (`copyin`, `copyout`) and
-- the block device are parameters or events in a trace. What a cached block holds is one number in
-- Bcache, as the cache only passes it on. In Fs the regions of the disk are apart, and each has the
-- type that the code casts its blocks to.
--
-- Loops are structural: over the rest of a table, of a list or of a count. Where the code has no such
-- bound, the model has one and a theorem says that it is enough: `strlen` looks at a given number of bytes,
-- `printint` has the 16 places of its buffer, the searches of `bget` follow as many links as there are
-- buffers, `readi` and `writei` have one round for each byte and one more, and so have the loops and the
-- recursion of the shell's parser for each byte of the line.
--
-- Not modelled: directories above `skipelem`, open files and their system calls, virtual memory, `exec`,
-- devices, start up, `runcmd` and `nulterminate` of the shell, and the other user programs; the simulated
-- block device and file system of the journaling service, which are its test.
pub mod Common
pub mod Mlfq
pub mod Journal
pub mod Log
pub mod RoundRobin
pub mod Pipe
pub mod Strings
pub mod Kalloc
pub mod SleepLock
pub mod Print
pub mod Ulib
pub mod Bcache
pub mod Fs
pub mod Sh
