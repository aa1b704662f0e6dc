-- ===== src/Lib.antt =====
-- NiFAT32, a FAT32-like file system for embedded machines that keeps its metadata in several
-- copies, coded against single bit flips, behind two callbacks that read and write sectors.
--
-- The parts, from the device up:
--   Hamming    std/hamming.c: the code in which metadata is stored. Hamming.Buffer is the way of an
--              `unsigned int` through `nft32_pack_memory` to bytes on a little-endian machine.
--   Threading  std/threading.c: the read-write locks, one 32-bit word each. A loop is recursion on
--              the rounds it has left, REQUIRE_TIME in the two functions that take a lock; what other
--              threads do to the word between a load and a swap is an argument. The functions that
--              release have no bound in the code: their rounds are an argument.
--   State      the static variables of src/*.c as two records, what the locks protect (Core) and the
--              locks (Guard), with include/nft32/fatinfo.h and the callbacks (Driver). A Driver is any
--              pair of functions on any state of a device; IsDevice says that it keeps what it is
--              given. Operations take and return the State.
--   Disk       src/disk.c: the areas in use, the transfers over sectors under their locks.
--   Vote       the majority vote that src/fat.c and src/errors.c take over the copies of a value.
--   Checksum   std/checksum.c: the hash that the directory layer stores with names and entries.
--   Errors     src/errors.c: the ring of error codes on the device.
--   Fatmap     src/fatmap.c: the bitmap of free clusters. The search makes at most as many rounds as
--              there are places for the range, and has that much fuel.
--   Fat        src/fat.c: the table itself, with the cache `_fat` and the repair of its copies.
--   Cluster    src/cluster.c: the allocator, deallocation and the transfers of clusters. The
--              search of the allocator has fuel for all clusters, since each round moves on by one
--              at least; the walk along a chain has its rounds as an argument.
--   Layout     the packed structs of include/nft32/{entry,journal}.h, as records and as bytes.
--   Journal    src/journal.c: the copies of an entry on the device, the vote over their checksums,
--              the operations that are added and solved, the replay at start. The loop of the
--              replay has its rounds as fuel, one more than there are entries is enough; what an
--              uninitialised variable holds is an argument of the functions that read it.
--   Ecache     src/ecache.c: the red-black tree of name hashes, over nodes with pointers to parents and
--              children. The walks have fuel; as many rounds as nodes are enough for a search.
--   Entry      src/entry.c: the entries in the clusters of a directory. Entry has the walk along a
--              chain, which hands every entry to a function, Operations the search, the index and
--              the change of an entry, Growth entry_add, Removal entry_remove. A chain may be a
--              circle, so that the rounds are fuel; the trees of names are a parameter (Index),
--              which Entry.Cache fills with the functions of Ecache, as it does that of Content.
--   Content    src/ctable.c: the table of open files and directories. The trees that its entries
--              refer to are a parameter (Trees), the two functions that the table calls.
--   Strings    std/str.c: memory and strings, on lists of bytes.
--   Names      std/fatname.c: file names with eleven bytes on the disk, and paths.
--   Memory     std/mm.c: the built-in memory manager, as the chain of its blocks with their places
--              in the buffer. Merging has fuel for two passes, of which the second merges nothing.
--   Api        nifat32.c: the functions that a program calls, as steps on the modules above under
--              `_fs_api_lock`: Chains (a cluster more), Reading, Writing (with truncation), Paths,
--              Opening, Contents, Copies and Repairs. An answer of none is a walk that does not end
--              in the rounds given, or a null pointer that is followed. `_fs_data` is an argument.
--              A read or a write needs a round for each byte of its offset and size, and one more.
--   Boot       nifat32.c, NIFAT32_init and NIFAT32_repair_bootsectors, with the boot sector of
--              nifat32.h as a record and as its bytes; `_fs_data` is part of the state. The calls
--              that NIFAT32_init makes of itself have fuel: one for each copy of the boot sector that
--              is not correct, and one more.
--   Formatter  formatter/nifat32formatter.c: the program that makes a volume in a file, with
--              Formatter.Options (formatter/src/options.c) and Formatter.Files, the files that it
--              copies in. The calls of the host are a parameter (Posix), IsFile says what a file
--              keeps. The loop that computes the size of a table has fuel; it may have no end. Its
--              copies of the Hamming code and of the hash are those of Hamming and Checksum.
--   Unix       unix_nifat32.c: the two callbacks that read and write sectors of a file.
-- Base holds the tests, lists and words that they share, Tests the runs on a device in memory.
--
-- The calls go downwards: Cluster asks Fatmap for a place and Fat for its entry, Fat votes over the
-- copies that Disk reads and Hamming decodes, keeps Fatmap in step and reports failures to Errors,
-- which stores them through Disk again. Journal writes its entries through Disk and replays them
-- through Cluster; Entry adds them to Journal before it changes a directory. Api puts these together
-- for open content, and Boot sets them up from what Formatter wrote. Strings, Names and Memory stand by
-- themselves.
--
-- Integers are natural numbers with the wrap-around of the C type written out. The build is the
-- default one: locks, Hamming code, cache, bitmap and writing are on. Locks are taken by the thread
-- 0, as `get_thread_num()` gives by default, and each operation runs alone, except in
-- Threading.Exclusion and Disk.Areas, where the steps of several threads are put in any order. Log
-- output is left out, and an allocation is an argument that says whether it succeeds.
--
-- A size, or a number of clusters to reserve, that is negative is not modelled, and neither is the
-- build with NIFAT32_RO. The allocations of the mount are arguments.
--
-- Not modelled: std/logging.c, which only prints; the rest of unix_nifat32.c, a command line over the
-- functions of Api; the tests.
pub mod Base
pub mod Hamming
pub mod Vote
pub mod Checksum
pub mod Strings
pub mod Memory
pub mod Names
pub mod Threading
pub mod State
pub mod Layout
pub mod Journal
pub mod Ecache
pub mod Entry
pub mod Content
pub mod Disk
pub mod Errors
pub mod Fatmap
pub mod Fat
pub mod Cluster
pub mod Api
pub mod Boot
pub mod Formatter
pub mod Unix
pub mod Tests
