-- ===== src/Lib.antt =====
-- A model of the kernel of Pintos with the extensions of uni-orion-os: the data structures and
-- the arithmetic of lib/kernel, blocks of memory and strings of lib, the scheduler and the
-- synchronization of threads, the block devices and interrupt queues of devices, the swap space
-- of vm, and the free map, the buffer cache, inodes, files, directories, path names and file
-- descriptors of filesys, each translated from the C source, with the theorems that make it
-- correct.
--
-- The parts and their files:
--   Base             shared names, lists over the native numbers, binary digits of words (Bits),
--                    signed integers and the C integer types (Int), and ASSERT and PANIC (Panic).
--   Strings          lib/string.c, with the ASSERTs on pointers into the memory: Blocks is about
--                    blocks of memory that may overlap, Searching about finding a string, Tokens
--                    about cutting off a token, Copying about `strlcpy` and `strlcat`.
--   Kernel.Bitmap    lib/kernel/bitmap.c: words of 32 bits and the operations on them. View reads a
--                    bitmap as a function from indices to Booleans; Ranges and Scan are
--                    about the operations on many bits in that view.
--   Kernel.FixedPoint  lib/kernel/fixed_point.c, with the wrap-around of `int64_t` and `int`.
--   Kernel.Lists     lib/kernel/list.c: a list is the sequence of its elements. Order has ordered lists
--                    and merging, Passes one pass of `list_sort`, Sorting its result.
--   Kernel.Hash      lib/kernel/hash.c: buckets as sequences. Sizes is about the number of buckets,
--                    Elements about lookups, Moving and Finding about `rehash`, Removing, Changes
--                    and Maps about the table as a finite map.
--   Threads.Mlfqs    threads/thread.c: the load average, `recent_cpu` and priorities.
--   Threads.Scheduler  threads/thread.c: the state `System`, the queues of ready threads and the
--                    switches between threads. Queues and Yielding are about who runs.
--   Threads.Priorities  threads/thread.c: changes of priority, and sleeping threads.
--   Threads.Synch    threads/synch.c over the scheduler and Kernel.Lists: semaphores and locks.
--   Devices.Block    devices/block.c: reads and writes of sectors, with their checks.
--   Devices.Intq     devices/intq.c over the scheduler and locks; Queue is about the
--                    ring as a queue of bytes.
--   Vm.Swap          vm/swap.c over Kernel.Bitmap and Devices.Block.
--   Filesys.FreeMap  filesys/free-map.c over Kernel.Bitmap; the file that keeps the map is an
--                    interface, the record MapFile.
--   Filesys.Cache    filesys/cache.c over Devices.Block, cut where the source takes `ss_lock`. Entries
--                    is about the choice of a victim, Clock about the rounds of its clock, Pins
--                    about two threads, ReadAhead about the list of sectors to read ahead. Coherence says which array of sectors a cache
--                    and its disk are together; WriteBack, Slots, Eviction, Refinement, Steps and Accesses
--                    follow one access through that view, History a sequence of them.
--   Filesys.Inode    filesys/inode.c over Filesys.Cache and Filesys.FreeMap. Contents gives the bytes
--                    of a file; Reading, Writing and Writes are about moving bytes, Encoding about
--                    the inode on the disk, Opening and Openers about the inodes in memory.
--   Filesys.File     filesys/file.c over Filesys.Inode.
--   Filesys.Directory  filesys/directory.c over Filesys.Inode: entries of 24 bytes, as the compiler
--                    lays out the struct. Entries is about the bytes of a directory, Fields about
--                    those of one entry, Lookups about the loops over them, Adding and
--                    Removing about two of the operations.
--   Filesys.Path     filesys/path.c on strings as lists of characters.
--   Filesys.Fd       filesys/fd.c on the list of links of the running process.
--
-- A function that may stop the kernel (ASSERT, PANIC, a fault) returns `Option`, with `none` for
-- the stop. ASSERTs that hold by the types of the model are left out: a string or a structure
-- that is an argument is there, so the pointer to it is not NULL. Left out are also the ASSERTs
-- on the interrupt level, and the one of `thread_current` that its thread runs, except in
-- `thread_yield`, `thread_exit` and `thread_unblock`. `none` is also a loop that runs out of its
-- fuel, which is said where the loop is. A function that switches threads goes on as if it had
-- run to its end; what the other threads do in between is no part of its step. Most loops are
-- recursions on the rounds that are left. Fuel is the number of elements and one more for
-- `list_sort`, since each pass leaves fewer descents, the length and one more for
-- `path_split_last`, of which each round takes a character, and 129 for the clock of `cache_lru`,
-- which is two rounds of it and is enough where an entry is absent or not pinned, the number
-- itself for the number of buckets, which falls in each round; `inode_read_at` and
-- `inode_write_at` have the size and one more, of which each round moves a byte, as have the
-- loops over a directory, of which each round passes an entry. The search for the end of the
-- string that `strlcat` extends takes its fuel as an argument. A function of the source keeps its
-- name, and what it changes through pointers or statics is an argument and a part of its result.
-- Sizes and indices are natural numbers; `% 2 ^ 32` is written out for the sizes of a
-- bitmap, the words of a hash, the value of a semaphore and the numbers of sectors.
--
-- Not modelled: path resolution in directories, frames and mappings, processes, memory
-- allocation and condition variables; drivers and interrupt stubs in assembly, the
-- boot code, user programs, the rest of the C library, printing, and the tests.
pub mod Base
pub mod Kernel
pub mod Devices
pub mod Strings
pub mod Threads
pub mod Vm
pub mod Filesys
