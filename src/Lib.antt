-- ===== src/Lib.antt =====
-- Parts of the OS/161 kernel (os161-1.11/kern), with what makes them correct.
--
-- Base holds what the parts share: tests on numbers, lists measured by native numbers, indices that
-- wrap around (Base/Circular), and the outcome of a call (Base/Outcome): a value, an error number, a
-- panic (a failed assertion or a call of panic), a fault (behaviour that C leaves undefined, such as
-- a read outside an allocation) or a loop cut off by its fuel.
--
-- Queue is lib/queue.c. A record has the size, the two indices and the slots; q_grow and q_addtail
-- call one another, and depth 2 is enough, since the inner calls never grow. The doubling loop has
-- fuel 32, enough for every size that an int holds. Whether kmalloc finds memory is an argument.
-- Array is lib/array.c: a record with the two counts and the allocation, which may be absent. The loop
-- that finds the new size has fuel 32, enough for every size that an int holds. Array/Refine says
-- which list an array holds, and Array/Add and Array/Access are about the single calls.
-- Scheduler is thread/scheduler.c, over Queue. cpu_idle is a parameter, a function on the run queue,
-- since what becomes ready in it is up to the interrupts; its loop has fuel, one round more than
-- cpu_idle is called. The loop that drops all threads has as much fuel as the queue has slots.
-- Bitmap is lib/bitmap.c over a list of bytes; the loops count the bytes and bits that are left.
-- Swapfile is vm/swapfile.c: the entry table and its search, and the file as a parameter
-- (SwapDevice) with the laws of a file that keeps what is written. The search loop has fuel; from an
-- index above 0 the number of pages is enough, and from 0 it may run for ever.
-- Coremap is vm/coremap.c over a list of entries, one to a page of memory. SWAPFILE_ENABLED is not
-- defined anywhere, so the evicting branch of coremap_getpages is compiled out.
-- Pagetable is vm/pt.c, with alloc_kpages and free_kpages of vm/vm.c: a Machine has the coremap and the
-- words of memory. Pagetable/Words is about words and flags, Pagetable/Tables says when a page table is
-- well formed and which page it maps an address to, and Pagetable/Frame, Pagetable/Insert and
-- Pagetable/Place are about what a new table or page leaves as it was. Pagetable/Create, Pagetable/Walk
-- and Pagetable/Page are about the static functions; Pagetable/Mapped, Pagetable/Assign and
-- Pagetable/Permissions about the calls of the other files. The page tables meet the coremap through
-- Coremap/Fresh. pt_copy but for its test of overlap, pt_destroy and pt_notify_of_swap are not modelled.
-- Addrspace is the regions of vm/addrspace.c, and Vm is vm_fault with the TLB as a list; load_segment,
-- which reads the program's file, is a parameter of vm_fault.
-- Files is arch/mips/mips/syscall/open.c, close.c and readwrite.c: the file table of one process with its two
-- locks. The VFS layer is a parameter, with functions for vfs_open, vfs_close, VOP_READ and VOP_WRITE on a
-- state of its own; a handle is the number of an int's bits. Files/Open, Files/Close, Files/Transfer and
-- Files/Calls are about the single calls, Files/Sequence about sequences of them.
-- Process is the process table of arch/mips/mips/syscall/fork.c, exit.c and waitpid.c, over Files: an entry is
-- NULL, a process or a pointer to freed memory. process_lock is a flag; a wait for one's own lock never
-- ends. sys_waitpid is one step up to its sleep or its return, and sys__exit ends before thread_exit.
-- In sys_fork the errors of as_copy and thread_fork are arguments, and so is what other threads do
-- each time that it gives process_lock back (Process/Others says what they may do); the address space
-- and the trap frame are left out. Process/Start is sys_fork; Process/Create, Process/Exit, Process/Fork
-- (the copied file table) and Process/Restore are about the calls. sys_execv is not modelled.
-- Kheap is lib/kheap.c, the subpage allocator, over the Machine of Pagetable: a pageref is an index, the
-- fields of the pagerefs are functions on it, and the links of free blocks are words of memory.
-- Kheap/Subpage has the calls. The walks along the lists have fuel npagerefs, the number of pagerefs,
-- which is enough since a list has none twice. Kheap/Invariant says when the heap is consistent and which
-- blocks are in use; Kheap/Blocks, Kheap/Page and Kheap/Chain are about free lists, pages and lists of
-- pagerefs, Kheap/Refs and Kheap/Walk about the loops, Kheap/Take, Kheap/Grow and Kheap/Alloc about
-- kmalloc, and Kheap/Give, Kheap/Drop and Kheap/Free about kfree. In the other parts whether kmalloc
-- finds memory is an argument.
-- Uio is lib/copyinout.c and userprog/uio.c over the bytes of memory; which addresses fault for good is a
-- parameter. uiomove and uiomovezeros have as much fuel as bytes to move, since each round moves one or
-- more (Uio/Ended). Uio/Bytes and Uio/Copy are about copyin and copyout, Uio/Strings about the strings,
-- Uio/Move and Uio/Zeros about uiomove and uiomovezeros on kernel memory.
-- Synch is thread/synch.c. Interrupts are off between two sleeps of a thread, so a step of the model
-- is what one thread does up to its next sleep or return. A lock and a condition variable form one
-- System with the phase of each thread; the steps of the threads form the relation Step. Its queues
-- are plain lists, as Queue/Refine shows the ring buffer to be; whether q_addtail succeeds is an
-- argument, since the code ignores its result. Synch/Inv says when a system is consistent, Synch/Turns
-- and Synch/Steps are about the parts of a step, and Synch/Destroy about lock_destroy and cv_destroy.
-- Synch/Semaphore has sem_create, sem_destroy, P and V.
--
-- The functions of Swapfile and Coremap hold their lock from start to end, so each is one step;
-- kmalloc's result is an argument, and a freed allocation is dropped. Debug output is left out.
-- Not modelled: the device drivers and the machine-dependent startup, which drive hardware; the
-- test programs and user programs; the threads but for what locks
-- do to them, the linked list, and the file systems.
pub mod Base
pub mod Queue
pub mod Array
pub mod Scheduler
pub mod Bitmap
pub mod Swapfile
pub mod Coremap
pub mod Pagetable
pub mod Addrspace
pub mod Vm
pub mod Files
pub mod Process
pub mod Kheap
pub mod Uio
pub mod Synch
