-- ===== src/Lib.antt =====
-- CanBoot: a boot environment that runs scripts on bare metal. This library models its own file
-- system code with the POSIX surface above it, its partition tables, its scheduler, its input
-- devices, its TFTP client, its ISO 9660 reader, the files and the heap under its C library, and
-- two text codecs, and shows what makes them correct.
--
-- The program reaches a disk through `struct canboot_disk` (hal/include/hal/disk.h). The FAT32 code
-- (fs/fat32.c, fs/fat32.h) works on such a disk: it keeps one structure for a mounted volume, and
-- everything else on the disk itself. Above it stand the file system switch and the script
-- bindings. The partition code (fs/partition.c) works on a disk in the same way. The address
-- parsers and the codecs are functions on strings. Drivers push input events into a ring that
-- everything else polls.
--
-- Files and the code they model:
--   Common          names, C's tests, lists, little-endian fields of a buffer
--   Disk            hal/include/hal/disk.h: a block store, transfers, and the monad `Io` of
--                   functions that change the disk and may fail
--   Fat32           fs/fat32.c, canboot_fat32_open: the volume and its constants
--   Fat32/Table     fs/fat32.c: table entries, cluster transfers, chains (read_fat_entry,
--                   write_fat_entry, read_cluster, write_cluster, find_free_cluster, alloc_chain,
--                   free_chain)
--   Fat32/Names     fs/fat32.c: to_83, name_from_83, split_last
--   Fat32/Entry     fs/fat32.c: struct fat_dir, make_entry, entry_first_cluster
--   Fat32/Dir       fs/fat32.c: dir_find, dir_alloc_slot, dir_write_entry, dir_mark_deleted,
--                   dir_is_empty
--   Fat32/Path      fs/fat32.c: resolve_dir, resolve_entry and the canboot_fat32_* operations that
--                   take a path
--   Fat32/Root      fs/fat32.c: the canboot_fat32_* operations on the root directory, list_path
--   Fat32/Format    fs/fat32.c: canboot_fat32_format
--   Partition       fs/partition.c, fs/partition.h: partition tables (canboot_part_detect and list)
--   Partition/Checksum  crc32_buf
--   Partition/Write canboot_part_init_mbr, init_gpt, create, delete, resize
--   Encoding        cando_port/lib/encoding.c: the hex codec; Encoding/Base64 the other one
--   Inet            net/mbedtls_port/inet_pton.c: inet_pton and its two parsers
--   Input           hal/input/input_queue.c: the ring of input events and the drivers' pumps
--   Input/Getc      hal_input_getc; Input/Pointer the state of the mouse; Input/Characters what
--                   keys mean to a reader, said apart from the code
--   Input/Keyboard  hal/input/ps2.c: scan codes and mouse packets; Input/Ps2 the pump
--   Sched           rt/sched/sched.c: threads, run queue, wait queues, the switch
--   Sched/Threads   rt/sched/sched.c: creating, ending, yielding, preempting and starting CPUs
--   Sched/Calls     rt/sched/sched.c and rt/pthread_stub/pthread.c: the lock of the script VM,
--                   mutexes, condition variables and join
--   Sched/Steps     what may happen next, as a relation on states of all CPUs; Sched/Turns runs in
--                   which the threads of a CPU only yield
--   Tftp            net/tftp.c: canboot_tftp_get and its receive callback; Tftp/Stored its runs
--   Vfs             fs/vfs.c: the primary volume (detect_at, primary)
--   Vfs/Registry    hal/disk/disk.c: the table of disks
--   Vfs/Paths       fs/vfs.c: normalize and resolve
--   Vfs/Calls       fs/vfs.c: vfs_mkdir, vfs_rmdir, vfs_unlink, vfs_rename, vfs_list
--   Vfs/Posix       fs/vfs.c: mkdir, rmdir, unlink, rename, chdir, getcwd, stat
--   Vfs/Streams     fs/vfs.c: opendir, readdir, rewinddir
--   Iso             fs/iso9660.c: canboot_iso_open, canboot_iso_lookup, canboot_iso_read_file
--   Libc            rt/picolibc_port/syscalls.c: canboot_heap_init and sbrk; Libc/Files the open
--                   files behind open, read, lseek, fstat and close; Libc/Boot
--                   slurp_boot_file; Libc/Protected the memory that is in use
--   Iso/Matches     the records that canboot_iso_lookup is to find
--   Common/Int      C's signed numbers; Common/First the first element that gives a result
--   Tests           small volumes, images and states, and the theorems applied to them
--
-- State and results. A function of the C code that takes the volume and works on its disk is a
-- function `Volume → ... → Io A`, that is, from a disk to an `Outcome` and the disk it leaves.
-- `err` is -1; `fault` is a division by zero or an access outside an array; `out_of_fuel` is a loop
-- that had not ended. After a `fault` nothing is said of the state, and a sequence of POSIX calls
-- (Vfs/Programs) ends there. A driver is a store of blocks with two arbitrary functions that tell which
-- transfers fail. The file system does not overlap two calls, so that its static buffers are local.
--
-- The scheduler's state is one record. A thread that is switched out in the midst of a call keeps a
-- list of frames that say what the call has still to do. A step is a whole stretch of code that
-- runs with the lock g_sched held; `holder` is the CPU that has it, and the steps of different CPUs
-- come in any order. The size of the pool is 16.
--
-- The file system switch keeps the registered disks in its state and runs the FAT32 code on the one
-- that its search picked. The ext4 and NTFS drivers are records of arbitrary functions on a disk.
--
-- Bounds. Words wrap around where the C code can wrap. Loops along a cluster chain take fuel, one
-- round for each cluster and one more; the theorems about these loops state that this is enough.
-- The loops over the table, the slots of a cluster and the bytes of a name are structural. Waking
-- all threads of a queue takes 16 rounds. Loops that wait for the outside run over lists of what it
-- brings: the events of each poll for `hal_input_getc`, the datagrams and clock of each round for
-- `canboot_tftp_get`, the bytes of the port for the PS/2 pump. A block of an ISO directory takes at
-- most 2049 rounds, and the directory one for each block. The search for the heap takes one round
-- more than there are intervals in each entry of the memory map. An int32 of the pointer's state is
-- an integer, without wrap-around.
--
-- Not modelled: the other drivers, time stamps of entries beyond the zeros written, the libraries
-- for NTFS and ext4, the rest of networking, JIT code generation, boot and architecture code, saved
-- registers and stacks of threads, the source and raw code of an input event, and the script
-- bindings.
pub mod Common
pub mod Disk
pub mod Encoding
pub mod Partition
pub mod Fat32
pub mod Inet
pub mod Input
pub mod Sched
pub mod Tftp
pub mod Vfs
pub mod Iso
pub mod Libc
pub mod Tests
