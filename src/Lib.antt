-- ===== src/Lib.antt =====
-- alze-os, a small preemptive kernel for x86-64 in C: a model of its data structures, its
-- allocator of physical memory, its synchronisation, and its file layer.
--
-- The parts and how they interact. Every source file is under kernel/.
--   * Errno: the codes of kernel/errno.h that the other parts return.
--   * Bits: the word operations of the source (masks, set and clear, bsf, popcount) and their laws.
--   * IdPool: kernel/bitmap_alloc.h, 64 ids in one word. Vfs takes its file descriptors from it.
--   * RingBuf: kernel/ringbuf.h, a byte ring with free-running 32-bit indices. Klog, for
--     kernel/klog.c, keeps the last 4096 bytes of the log in one.
--   * Pmm: kernel/pmm.c and kernel/pmm.h, the buddy allocator. Pmm has the functions; Pmm.Chain
--     reads a free list off the links of the pages; Pmm.Buddy has the arithmetic of buddies;
--     Pmm.Blocks divides the page frames into blocks, which the state does not store; Pmm.Inv ties
--     the two together; Pmm.Split and Pmm.Alloc, Pmm.Join and Pmm.Free, Pmm.Counts, and Pmm.Refs are about
--     allocation, freeing, the counters, and the reference counts.
--   * Sync: kernel/waitqueue.c, with Sync.Semaphore (kernel/semaphore.c), Sync.Mutex
--     (kernel/mutex.c, priority inheritance), Sync.AdaptiveMutex (kernel/adaptive_mutex.h),
--     Sync.Kevent (kernel/kevent.h), Sync.RwLock (kernel/rwlock.h) and Sync.Spinlock
--     (kernel/spinlock.h, the ticket lock that the others stand on). MsgQueue, for
--     kernel/msgqueue.c, sleeps and wakes through Sync.
--   * Vma: kernel/vma.c, the sorted regions of an address space.
--   * Vfs: kernel/vfs.c, the table of devices and the file descriptors, for any state of the
--     devices; DevFs, for kernel/devfs.c, has the devices; Ramdisk, for kernel/ramdisk.c, has the
--     reads of the RAM disk.
--   * Strings: kernel/string.c, block moves, fills and comparisons, and the scans and searches of strings.
--   * WorkQueue: kernel/workqueue_def.c, deferred work.
--   * Ktimer: kernel/ktimer.c, the timer wheel.
--   * Sched: kernel/sched.c, the ready queues, the deadline queue, and schedule up to its context
--     switch. The calls of sched_add_ready that Sync records are its sched_add_ready.
--   * Kprintf: kernel/kprintf.c, formatted output. Kprintf has the loops that print, and
--     Kprintf.Format the arguments, the directives and the loop over a format; Kprintf.Homs shows
--     that the two printers of the source, which repeat each other, print the same characters;
--     Kprintf.Digits, Numbers and Spelling read them back; Kprintf.Sent is about the UART, the
--     console and Klog, Kprintf.Buffer about ksnprintf's buffer, Kprintf.RateLimit about
--     kprintf_rl_allow.
--   * Words: words of several bytes in a memory of bytes, low byte first.
--   * Kmalloc: kernel/kmalloc.c, the heap, over Pmm and a memory of bytes in which the slabs' headers
--     and the links of their free slots stand. Kmalloc has allocation, Kmalloc.Free the rest;
--     Kmalloc.Classes, Slabs, Setup and Delay are about the size classes, a slab, a new slab and the
--     quarantine; Kmalloc.Large and RoundTrip about blocks of whole pages and their way back to Pmm;
--     Kmalloc.Reuse about the test for a double free.
--   * Vmm: kernel/vmm.c, the page tables, whose frames come from Pmm. Vmm has the functions;
--     Vmm.Entries is about the fields of an entry; Vmm.Walk has the translation as a walk over levels,
--     and the tree that the tables form; Vmm.Create adds a table to it; Vmm.State has the consistent
--     states, Vmm.Next the next table, made if there is none, Vmm.Way the way from the root to a
--     table, Vmm.Write the effect of one entry; Vmm.Map, Unmap, Huge, Loop, Range and RangeHuge are
--     about the operations, Vmm.Count and Audit about vmm_dump_tables and vmm_audit_wx.
--   * MemPressure: kernel/mempressure.c, which reads the counts of Pmm.
--   * Base: numbers, tests, lists, and memory cells that all parts share.
--
-- How state and control correspond to the code. A struct is a record, an enum a data type, and a
-- pointer to an element of an array or to a task is its index, with none for NULL. A circular list
-- of list.h is the sequence of its entries, but the free lists of Pmm are kept as links in the
-- pages. Counters wrap as the source's types do. A function that runs under one spinlock from its
-- first access to its last is one step. A blocking call is cut at schedule: what it does before
-- is one round of its loop, and the step relations of Sync let rounds of any tasks follow each
-- other in any order. A failed assertion halts the machine, which is none in Pmm
-- and Vmm. A page table is known by its physical address; the direct map, through which the source
-- reaches it, and the flushes of the translation buffer are left out.
--
-- Loops. Those over lists and counts are recursions on them. find_block has as many rounds as
-- there are orders left, split and coalesce as there are orders between. workqueue_process has
-- fuel, since a work function may queue more work, and returns none when it is used up; the spin
-- of the adaptive mutex has the source's 100 rounds. format_loop has a round for each character
-- of the format and one more, and fill_digits 64, one for each bit: theorems show that both are
-- enough. The walks over the slabs of a class in Kmalloc have a round for each page frame and one
-- more, since no page holds two slabs. The loops over a range in Vmm have a round for each page that
-- the range begins, and that over the entries of a table 512.
--
-- Parameters: the operations of a device in Vfs, what a work function does to its queue, the bytes
-- that a device has ready, which memory stands behind the RAM disk, and the clock of Ktimer.
--
-- Not modelled: pmm_init and the printing functions; task creation and exit; vmm_init;
-- ext2; timer callbacks that start or cancel timers; the drivers and tables of the
-- processor, the interrupt controllers, the PCI and USB controllers, the console and start-up,
-- which are reads and writes of ports and device registers. That a critical section of a spinlock
-- is one step rests on the exclusion of the ticket lock.
pub mod Base
pub mod Bits
pub mod DevFs
pub mod Errno
pub mod IdPool
pub mod Klog
pub mod Kmalloc
pub mod Kprintf
pub mod Ktimer
pub mod MemPressure
pub mod MsgQueue
pub mod Pmm
pub mod Ramdisk
pub mod RingBuf
pub mod Sched
pub mod Strings
pub mod Sync
pub mod Vfs
pub mod Vma
pub mod Vmm
pub mod Words
pub mod WorkQueue
