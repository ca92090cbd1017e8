-- ===== src/Lib.antt =====
-- A verification library for the kernel of os_elephant, as of chapter_14_FileSystem, the last and
-- fullest of the chapter directories.
--
-- Parts, and the files that model them (paths from the repository's root):
--   Base         shared names: tests on numbers, lists, outcomes of a call, commands on a state.
--   Bitmap       chapter_14_FileSystem/lib/bitmap.c: bitmap_init, bitmap_scan_bit, bitmap_scan,
--                bitmap_set are init, scan_bit, scan, set. The bits are a memory from the bitmap's
--                first byte on, so that reads past its end are reads of what follows.
--   LinkedList   chapter_14_FileSystem/lib/list.c, function by function, on a memory of nodes.
--   Strings      chapter_14_FileSystem/lib/string.c, on a memory of bytes; addresses do not wrap.
--   Stdio        itoa of chapter_14_FileSystem/lib/c12b_stdio.c.
--   Pools        mem_pool_init, palloc and pfree of chapter_14_FileSystem/kernel/c12f_memory.c.
--   Vaddr        vaddr_get and vaddr_remove of the same file.
--   Paging       the page tables of the same file, with malloc_page, get_a_page, addr_v2p and
--                mfree_page: a frame from Pools under each page from Vaddr.
--   Thread       chapter_14_FileSystem/thread/c14c_thread.c and thread.h, the timer interrupt of
--                device/c13c_timer.c, and process_activate of user/c12e_process.c. The thread lists
--                are sequences, as LinkedList shows that lists are.
--   Sync         chapter_14_FileSystem/thread/c10b_sync.c. Each function is cut into the sections
--                that other threads can come between; Sync.Threads lets any number of threads run
--                them, be interrupted by the timer, yield, sleep and wake each other, in any order.
--   Ioqueue      chapter_14_FileSystem/device/c10f_ioqueue.c; its threads are those of Thread.
--   Keyboard     the interrupt handler of chapter_14_FileSystem/device/c10e_keyboard.c, which
--                puts characters into an Ioqueue. Keyboard.Keys describes apart from its code what
--                the bytes from the keyboard mean.
--   FileTable    free slots of the table of open files (chapter_14_FileSystem/fs/c14c_file.c) and the
--                descriptors of a process, with fd_local2global of fs/c14a_fs.c.
--   Ide          ide_read and ide_write of chapter_14_FileSystem/device/c13a_ide.c: a drive is its
--                bytes and whether it answers.
--   Fs           the structures of fs/inode.h, fs/super_block.h and device/ide.h and their bytes.
--   Inode        chapter_14_FileSystem/fs/c14c_inode.c: inodes on the disk and the open ones.
--   Blocks       the bitmaps of fs/c14c_file.c, and inode_release of fs/c14c_inode.c.
--   Files        file_read of chapter_14_FileSystem/fs/c14c_file.c.
--   Append       file_write of the same file: its blocks (Append.Extend to Append.Grow), then its
--                bytes and its inode (Append.Write to Append.Whole). Its buffer is a heap block of
--                512 bytes, so that Append.sync_inode ends in fault for an inode in two sectors.
--   Paths        path_parse and path_depth_count of chapter_14_FileSystem/fs/c14a_fs.c.
--   Sys          file_open and file_close of fs/c14c_file.c, and sys_close, sys_read, sys_write
--                and sys_lseek of fs/c14a_fs.c, on the state of all these modules together.
--   Dir          search_dir_entry, create_dir_entry and sync_dir_entry of fs/c14c_dir.c, and its
--                dir_read (Dir.Listing).
--
-- Conventions. A call is a command: it takes a state and gives a value and a state, or stops:
-- panic for ASSERT and PANIC, fault for an access through NULL or out of an array, unfinished
-- for fuel that ran out. Machine integers are natural numbers with the wrap-around written out.
-- Loops without a bound in the code (walks along a list, searches for the end of a string, itoa)
-- run on fuel: one unit more than there are elements, characters or binary digits is enough. The
-- loops of the disk driver, of file_read, of file_write and of path_depth_count have fuel of one
-- unit more than there are sectors, bytes or characters. A drive is a parameter: its bytes, and
-- whether it answers. A switch of threads ends a command, since the code after switch_to runs when
-- the thread is chosen again.
--
-- Not modelled: file_create, delete_dir_entry, dir_remove, search_file and the system calls on
-- them (fs), formatting and mounting, the scan for partitions in device/c13a_ide.c, the heap
-- (sys_malloc and sys_free of kernel/c12f_memory.c), system call stubs, the console, interrupt tables and descriptors, and all assembly code. The other chapter
-- directories hold earlier versions.
pub mod Base
pub mod Bitmap
pub mod LinkedList
pub mod Thread
pub mod Sync
pub mod Ioqueue
pub mod Keyboard
pub mod Strings
pub mod Pools
pub mod Stdio
pub mod Vaddr
pub mod FileTable
pub mod Ide
pub mod Fs
pub mod Inode
pub mod Blocks
pub mod Files
pub mod Dir
pub mod Sys
pub mod Paths
pub mod Append
pub mod Paging
