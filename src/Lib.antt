-- ===== src/Lib.antt =====
-- A kernel for x86-64, the parts of it that compute: memory, processes, system calls, files, the
-- disk and the network.
--
-- The boot loader puts the kernel's segments into place and jumps to it with a page table of its
-- own. The kernel builds its page table and descriptors, takes the firmware's memory map, hands
-- the memory to a buddy allocator, makes processes from it with page tables of their own,
-- schedules them in turn, serves their system calls, routes interrupts and looks for devices on
-- the PCI bus as the firmware's tables say, reads the partition table of a disk, and answers ARP
-- through a queue between the interrupt of the network card and a kernel thread.
--
-- Files, each with the code it is about (paths from the repository's root):
--   Base         names of the library, Boolean tests on native numbers, options, lists, words
--   Utils        include/lib/utils.h: log2, log2_ceil
--   Memory       lib/string.cpp: memset, memcpy, memmove, memcmp, strcmp, strlen
--   Endian       common/endian.cpp, include/common/endian.hpp: swap_endian, be, le
--   SmallVec     include/common/small_vec.hpp: SmallVec
--   SsQueue      include/common/kssq.hpp: SSQueue, the queue of pointers; Threads: its
--                producer and its consumer, step by step
--   Buddy        mm/page_alloc.cpp: Block, Bucket and BuddyAllocator
--   Pages        mm/page_alloc.cpp: kernel_page_alloc, physical_page_alloc, kmalloc and their inverses
--   Regions      mm/mm.cpp: dump_efi_info; mm/page_alloc.cpp: page_allocator_init
--   FixedBlock   include/mm/fixed_block_allocator.h: FixedBlockAllocator
--   Process      process.cpp, include/process.h: Process, create_process, schedule,
--                load_elf_from_buffer
--   Syscall      syscall.cpp: handle_syscall and the calls
--   Net          include/net/ethernet.hpp, include/net/ipv4.hpp, net/arp.cpp: the ARP driver
--   Bits         device/ahci.cpp, device/rtl8139.cpp: shifts and bitwise operators on words
--   MemFs        include/fs/mem_fs_node.hpp: MemFsFileNode, MemFsDirNode
--   Irq          irq.cpp, include/irq.hpp: setup_idt, Register, HandleInterrupt
--   Ahci         device/ahci.cpp: find_cmdslot, read, AHCIDevice::Read
--   Gpt          device/gpt.cpp, include/device/gpt.hpp: ListPrimaryPartitions
--   Acpi         device/efi.cpp: efi_table_init; device/rtl8139.cpp: ioapic_init
--   Mm           mm/mm.cpp, boot_page_table.c: the kernel's and the boot loader's page tables,
--                gdt_init, phy2virt, the counts of pages
--   Loader       boot_loader.c, elf.h: copy, LoadKernel
--   Serial       include/lib/serial_port.h: operator<< on numbers; boot_loader.c: puti;
--                include/lib/file_size.h; include/common/hexdump.hpp
--   Pci          device/pci.cpp, include/device/pci.h: bar_parse, Enumerate and its handler
--   Unwind       common/unwind.cpp: ValidRbp, Iterate
--   Rtl8139      device/rtl8139.cpp: crc32iso_hdlc, handle_rx, consume_rx, tx_async, irq; Sender:
--                TxEnqueue and kthread_entry, step by step
--
-- State is passed explicitly. A pointer to a block is its index in the array, a null pointer is
-- `none`, and a failed assertion, a panic or a null pointer followed makes the result `none`. So
-- does a store behind the end of a vector of fixed capacity, of the table of descriptors or of the
-- array of processes. Words wrap where the source's do (`add64`, `sub64`, `% 2 ^ w`). Clients of
-- the allocator take it as the record `PageSource` with the contract `Answers`, which
-- Buddy/Source.antt fills with the buddy allocator; the addresses that the linker fixes are the
-- records `Layout` and `EntryPoints`; std::map is the record `OrderedMap`, whose law says what the
-- source relies on, and the program's comparison is an argument of it. What a device answers is an
-- argument too: the registers that a read of the disk sees, the bytes in the ring of the network
-- card, what a store to the interrupt controller does. Where the members of the network card's
-- driver lie behind its array of buffers is a parameter, since the card's driver clears bytes
-- there.
--
-- A walk of page tables is the processor's, over physical memory in which the bytes of the table
-- lie at their frames; the place of the table in the image and of the image in memory are
-- parameters. A driver of a PCI device is a number, and what its Enumerate answers is a parameter.
--
-- Fuel: the printing of a number has 64 rounds, more than any number of 64 bits has digits; that
-- none is left over is part of its theorem. The walk over the frames of a stack has no end in the
-- source, and its fuel is an argument. `log2` has 64 rounds, one per bit of a word. Each call of
-- `alloc_block_size` inside itself goes up one level, so it has one unit for each level of the
-- tree and one more; a merge of two blocks goes on with their parent, whose index is smaller, so
-- it has one unit for each index below the block's and one more; each round of `schedule_loop`
-- goes on to the next slot, so it has one unit for each slot in use and one more. The wait for a
-- disk has no end in the source; its fuel is an argument, and any that is larger than the round in
-- which the disk answers is enough. The walk over the interrupt controllers' table has one unit
-- for each byte of it and one more: an entry that is not empty takes a byte at least.
--
-- Not modelled: the calls of the boot loader to the firmware, the assembly, the set-up of the disk
-- controller, the network card and the timer, and what only prints. Threads and interrupts are
-- modelled step by step where they meet: each access to a shared member of the queue of pointers,
-- and each turn of the network card's sending thread with the calls, the card and its interrupts
-- in between. The threads of processes that the scheduler switches between are not modelled. A
-- process stands in its slot by value, so the blocks of two processes are taken to be apart, and
-- the scheduler's look at the slot behind a full array finds it empty. The word that a system call
-- stores at the process's pointer is a result of the call; it is not applied to the process.
pub mod Base
pub mod Utils
pub mod Memory
pub mod Endian
pub mod SmallVec
pub mod SsQueue
pub mod Pages
pub mod Acpi
pub mod Buddy
pub mod FixedBlock
pub mod Regions
pub mod Net
pub mod Process
pub mod Syscall
pub mod Ahci
pub mod MemFs
pub mod Gpt
pub mod Irq
pub mod Bits
pub mod Rtl8139
pub mod Mm
pub mod Serial
pub mod Loader
pub mod Pci
pub mod Unwind
