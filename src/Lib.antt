-- ===== src/Lib.antt =====
-- The memory system of the OS/161 kernel of this repository: demand paging, page replacement and the
-- swap file (option projectc1), its processes, threads and open files, its program loader and its heap. All paths are below os161-base-2.0.2/kern, but for those
-- that begin with common, which are below os161-base-2.0.2.
--
-- The parts and the files that model them. Each function of the C code is the function of the same name,
-- in lower case; the statics of a C file are the fields of a record that its functions take and give back.
-- Common      helpers: `Result` (a kernel function gives a value or the reason why it does not return), C
--             arrays as functions with the loops over them, words of 8 and 32 bits, addresses
-- Spinlock    thread/spinlock.c: a lock is free, held by this processor, or by another
-- Coremap     vm/coremap.c and arch/mips/vm/ram.c: the frames; Search, Alloc, Free and Boot hold the proofs
-- PageTable   vm/pt.c: the inverted page table; Fifo is the specification as a queue per process, Lookup
--             and Aging the searches, Locked the operations under a free lock
-- Stats       vm/vm_stats.c: the counters
-- Tlb         vm/vm_tlb.c: the translation buffer with its 64 hardware entries; Victims, Flush
-- Machine     the state of all of these together, with physical memory, and what the vnode layer answers
-- Swap        vm/swapfile.c: the swap file; Slots, RoundTrip, Pressure
-- AddrSpace   vm/addrspace.c but for vm_fault: regions, kernel pages, the end of a process
-- Fault       vm_fault of vm/addrspace.c: Resident, Refused, Demand and Extents treat its branches. A fault
--             looks in the page table, then in the swap file, then loads the page from the program file or
--             zeroes it; frames come from Coremap or from a victim that Swap writes out; the entry goes to Tlb
-- Elf         syscall/loadelf.c and syscall/runprogram.c: the start of a program in a new process, with the
--             regions of AddrSpace; Segments has the loops over the program headers, Programs the whole
-- Kmalloc     vm/kmalloc.c: the heap of the kernel; Pages has the invariant of its pages, Refs the references to
--             them, Take and Return a block of a page, Fresh and Gone a page, Alloc and Free the calls
-- CopyInOut   vm/copyinout.c: the checks of the copies between kernel and user memory; Checks
-- Bitmap      lib/bitmap.c: bits for the allocation of storage, a word held as its eight bits
-- FreeBitmap  arch/mips/vm/free_bitmap.c: a state for each frame, with a search
-- ThreadList  thread/threadlist.c: a doubly linked list; Order has the sequence of threads that specifies it,
--             Queue the operations on it
-- Vnode       vfs/vnode.c: the references to a vnode
-- Files       syscall/file_syscalls.c: the open files of the system and the descriptors of the processes, which
--             `proc_file_table_copy` of proc/proc.c copies; References has the counts that must agree, Close,
--             Open and Copy the operations
-- Proc        proc/proc.c and syscall/proc_syscalls.c: processes, their numbers and their threads; Numbers is the
--             search for a free number, Table the numbers, Threads and Exit the life of a process
-- Thread      thread/thread.c: the run queue, switches and wait channels of one processor; Turns follows the run
--             queue, Wakes the wait channels, Sleeps the threads that can run
-- Synch       thread/synch.c: semaphores over Thread; Rounds has the single calls, Steps the relation of the steps
--             that a semaphore and the processor make over time, Wakeups what holds in every state so reached
-- Mem         common/libc/string: memcpy, memmove, bzero and memset, by words or bytes; Copy, Clear. `uiomove`
--             and Array copy with them
-- Str         the functions on strings of common/libc/string, and kstrdup of lib/misc.c; Length, Order, Search
-- Array       lib/array.c and include/array.h: resizeable arrays; Words has the pointers in memory, Grow the new
--             size, Entries the sequence that specifies an array, Slide, Room and Append the operations
-- Fork        sys_fork of syscall/proc_syscalls.c and thread_fork of thread/thread.c, which put Proc, Files, Thread
--             and AddrSpace together; Child has the new process, Denied what happens without memory for an address space
-- Migration   `thread_consider_migration` of thread/thread.c: the run queues of all processors; Victims has the threads
--             that are taken off, Shares and Rounds where they go, Balance the whole
-- Lookup      `getdevice` of vfs/vfslookup.c and `vfs_getcurdir` of vfs/vfscwd.c: where the translation of a path
--             starts; Refs has the references to vnodes (Vnode), Paths the loops, Starts the whole
-- Uio         lib/uio.c: the movement of data through a sequence of buffers; Bytes has where the bytes go, Left what is
--             left of the buffers, Rounds a round of the loop, Moves and Zeros the calls
-- Sample      a machine that the tests of several parts share
--
-- Locks are modelled for one processor: `spinlock_acquire` of a lock that this processor holds is the panic
-- of the source, one that another processor holds is `spinning`. Interleavings of processors are not
-- modelled; those of threads and interrupts on one processor are the steps of Synch, since a spinlock keeps
-- interrupts off.
--
-- Bounds: words wrap at 2 ^ 32 where the source computes on them; `position_fifo` and the frame indices, which
-- memory bounds far below 2 ^ 31, are natural numbers. The search for a free process number has 101 rounds
-- as fuel, one more than there are numbers, and ends within them; `uiomove` has two rounds for each buffer
-- and one more, and `uiomovezeros` one for each byte and one more, which is enough; the
-- functions on strings and paths have `rounds` rounds, which suffice if the string has fewer characters, and the loop for the
-- size of an array 34, which suffice for 2 ^ 31 entries; every other loop is a
-- recursion on its count.
--
-- Not modelled: the vnode layer, which is the record `Devices` of answers to reads and writes, and `Image`
-- for the loader; the success of `kmalloc` where it is called, and the pages that `alloc_kpages` gives
-- to Kmalloc, which are arguments; `tlb_probe`, an argument of `read_entry`; what an uninitialised variable or
-- fresh memory holds, an argument. The functions that only free memory (page_table_destroy,
-- coremap_destroy), messages, and the rest of the kernel (file
-- systems, devices, the start of the processors and their interrupts) are left out.
pub mod Common
pub mod Spinlock
pub mod Vnode
pub mod Files
pub mod Proc
pub mod Coremap
pub mod PageTable
pub mod Stats
pub mod Tlb
pub mod Machine
pub mod Swap
pub mod AddrSpace
pub mod Elf
pub mod CopyInOut
pub mod Sample
pub mod Fault
pub mod Mem
pub mod Str
pub mod Array
pub mod Uio
pub mod Kmalloc
pub mod Bitmap
pub mod FreeBitmap
pub mod ThreadList
pub mod Thread
pub mod Synch
pub mod Fork
pub mod Migration
pub mod Lookup
