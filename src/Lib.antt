-- ===== src/Lib.antt =====
-- A verification of the core of crepOS (the "rock" kernel), a small x86-64 kernel in C++.
--
-- The kernel boots through stivale and builds, in this order, its physical memory manager, its
-- slab allocator and its page tables; on these stand a virtual file system with several back
-- ends, drivers, and a preemptive multicore scheduler. Every part keeps its state in the same
-- byte-addressed memory, often as bitmaps, and reports failure by the value -1.
--
-- - Base: the shared names: numbers, tests, lists.
-- - Word: 64-bit words and their signed reading (kernel/lib/types.hpp).
-- - Memory: the byte memory, memset, memcpy and the bitmap helpers (kernel/lib/memutils.hpp,
--   kernel/lib/memutils.cpp); Memory/Bits has the laws of single bits, Memory/Masks those of
--   masks, Memory/Shifts those of shifts, Memory/Blocks those of the copying loops, Memory/Bitmap
--   those of bitmaps.
-- - Memutils: rounding and powers of two (kernel/lib/memutils.hpp).
-- - Pmm: the physical memory manager (kernel/mm/pmm.cpp): `chunk_alloc` is `mem_chunk::alloc`,
--   `chunk_free` is `mem_chunk::free`, `alloc`, `calloc`, `free` and `init` are the functions of
--   the namespace. Pmm/FirstFit and Pmm/ChunkAlloc have the search, Pmm/Chain the chain of
--   chunks, Pmm/Free the way back, Pmm/Overrun a request at the end of a chunk, Pmm/Init the
--   boot, for any words that the constructor leaves unset in the new chunks.
-- - Vmm: page tables (kernel/mm/vmm.hpp, kernel/mm/vmm.cpp): a `Level` is a subclass of `pmle` by
--   its flags; Vmm/Tables has the memory of the tables and the supply of frames, Vmm/Walk the
--   two-argument constructors of `virtual_address` (`lookup4`, `lookup5`) and `unmap`, Vmm/Map
--   the method `map` and the operations of `pml4_table` and `pml5_table`. Vmm/Entries has the
--   laws of single entries, Vmm/Opens those of an entry that leads to a table, Vmm/Roundtrip maps
--   a page, looks it up and unmaps it.
-- - Mmap: the search for unmapped pages, `mmap` and `munmap` (kernel/mm/mmap.cpp) over an
--   interface `Heap` for its bitmap; Mmap/Search has the search, Mmap/Unending a mapping of no
--   pages.
-- - Slab: the object allocator (kernel/mm/slab.cpp); Slab/Moves has the methods of a cache,
--   Slab/Calls the functions of the namespace `kmm`, Slab/Objects the objects of one slab,
--   Slab/Chains the lists of slabs and caches.
-- - Sched: the scheduler (kernel/sched/scheduler.cpp); Sched/Choice has its two searches,
--   Sched/Entries the maps that they leave, Sched/Starving a task that is chosen in vain,
--   Sched/Create a new task, Sched/Switch a switch and the way back.
-- - Text: `lib::string` (kernel/lib/string.cpp); Text/Path has the cutting of a path into names
--   (kernel/fs/vfs.cpp), Text/Search the searches and the decimal numbers.
-- - Vfs: the nodes of the virtual file system (kernel/fs/vfs.hpp, kernel/fs/vfs.cpp): Vfs/Nodes
--   has the nodes and their operations (`node_ctor` is the constructor with a path), Vfs/Remove
--   and Vfs/Mount the removal of nodes and mounting, Vfs/Chain what a search finds, Vfs/Joined,
--   Vfs/Create and Vfs/Child what a new node changes, Vfs/Made the nodes of a path, Vfs/Lookup
--   their lookup, Vfs/Shared what comes of the one chain of all directories.
-- - Fd: the file descriptors (kernel/fs/fd.cpp): Fd/Table has the bitmap and the map of
--   descriptors, Fd/Open the constructor and `alloc_fd`, Fd/Calls the methods and the system
--   calls (`transfer` is `read` and `write`); Fd/Errors, Fd/Offsets, Fd/Indices and Fd/Creation
--   have what comes of them. The virtual calls of the file systems are a record of functions, and
--   so is what a descriptor reads as through the reference that `translate` leaves to a dead
--   temporary.
-- - Tty: the terminal (kernel/drivers/tty.hpp, kernel/drivers/tty.cpp): Tty/Screen has the two
--   frame buffers, Tty/Output the text, Tty/Keyboard the keyboard handler; Tty/Cursor and
--   Tty/Grid compare the text with a page of rows and columns, Tty/Keys has the key codes.
-- - Devfs: device files and partitions (kernel/fs/devfs.hpp, kernel/fs/devfs.cpp):
--   Devfs/Partitions has the tables, the nodes and `scan_partitions`, on the nodes of Vfs and the
--   numbers of Text; Devfs/Scan has what a scan adds, Devfs/Entries what an entry reaches. A walk
--   along a path runs on `path_fuel`, which is enough for every tree that is sound.
-- - Apic: the redirection tables of the interrupt controllers (kernel/int/apic.cpp): Apic/Routing
--   has the operations, over a record of what a read and a write of a register do; Apic/Table has
--   the entries after a write, where a register keeps what is written to it, Apic/Redirection
--   those after masking, unmasking and redirecting, Apic/Masking those after masking all.
-- - Nvme: the queues of an NVMe device (kernel/drivers/nvme/nvme.hpp,
--   kernel/drivers/nvme/nvme.cpp): Nvme/Queue has `send_cmd`, over a record of what the
--   controller does; its loop that waits runs on a count of looks, which is enough when the
--   controller answers within a bound. Nvme/Laps has the slots and phases of a ring, Nvme/Sync
--   one command, Nvme/Runs many.
-- - Ramfs: reading and writing files of the RAM file system (kernel/fs/ramfs.cpp); Ramfs/Copies
--   has what comes of them.
-- - Ext2: the allocation of blocks and inodes from the bitmaps of a block group
--   (kernel/fs/ext2/block.cpp); Ext2/Groups has what it leaves on the device. Ext2/Inode has the
--   block map of an inode, Ext2/Files its reading, writing and resizing, Ext2/Release the way
--   back (kernel/fs/ext2/inode.cpp, kernel/fs/ext2/ext2.cpp); Ext2/Reading, Ext2/Writing and
--   Ext2/BlockMap have what comes of them.
-- - Containers/Vector and Containers/Map: `lib::vector` and `lib::map` (kernel/lib/vector.hpp,
--   kernel/lib/map.hpp); Containers/Vector/Room compares the elements with the array behind them,
--   Containers/Map/Laws reads a map back.
-- - Tests: small runs, and each theorem applied.
--
-- A number stands for a machine word; where a word of the source can wrap, the model writes the
-- remainder out. Loop counters that index the pages of a chunk or the bytes of a block are not
-- wrapped: they stay below the size of what they run over. A function of memory is a function
-- from addresses to bytes, so a bitmap that is read past its end yields what lies behind it, as
-- in the source; the records of the chunks are kept apart from these bytes, so that a write past
-- a bitmap does not reach a chunk. Loops that end by a counter are recursions on the rounds left;
-- walks along linked slabs and caches and the calls of `mmap_alloc` to itself run on fuel, whose
-- end is a result of its own; the search of `mem_chunk::alloc` runs on fuel of one more than the
-- pages of the chunk, since every round moves on by a page or more and the last one only finds
-- the end.
--
-- Spin locks make each call one step; the order of calls is then a sequence. Not modelled: inline
-- assembly, the descriptor tables and interrupt stubs, the local interrupt controllers, the start
-- of the other cores, ACPI, PCI, the timers, the disk and USB drivers but for the NVMe queues,
-- whose work is port and memory-mapped access to hardware; the ELF loader; the directories of
-- ext2.
pub mod Apic
pub mod Base
pub mod Containers
pub mod Devfs
pub mod Ext2
pub mod Fd
pub mod Memory
pub mod Memutils
pub mod Mmap
pub mod Nvme
pub mod Pmm
pub mod Ramfs
pub mod Sched
pub mod Slab
pub mod Tests
pub mod Text
pub mod Tty
pub mod Vfs
pub mod Vmm
pub mod Word
