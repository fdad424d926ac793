-- ===== src/Lib.antt =====
-- The mangoo file store: a library of store-independent calls (src/lang/c/lib/mangoo.c), a store
-- that keeps files in a Berkeley DB B-tree (src/stores/dbfs), and a FUSE file system over the
-- library (src/apps/fuse/mangoofuse.c). A FUSE handler calls the library, the library calls through
-- the tables of functions that the store registers, and the store turns each call into records of
-- one B-tree: the file system information, one attribute record for each path, and the blocks of
-- the files' data.
--
-- How the code is read. A C function is a function of the same name in the monad M os: from a
-- world, which holds the database, struct dbfs_store's last_inode and counts of the allocated
-- structures, to an outcome. An outcome returns a value and a world, or is undefined behaviour, or
-- ends the process, or is still running when the fuel of a loop is used up. An int result is a
-- Code, whose success is 0; an out-parameter is one more result. A handle is passed by value and
-- given back by the functions that change it, since every open makes a structure of its own. Paths
-- and data are lists of bytes, numbers are natural numbers, and additions in size_t are written
-- modulo 2 ^ 64.
--
-- What is taken as a parameter (System): the calls of the Berkeley DB library, and malloc, realloc,
-- the clock and the user of the process. What is relied on of them is in System/Laws: IsStore, that
-- put, get and del are about one key; IsReliable, that the machine does not fail; IsOrdered, that a
-- cursor walks the keys in the order of dbfs_bt_compare; IsOpenable, that the database file opens;
-- HasMemory, that malloc does not fail. HasEnvironment (Fuse/Data) says that the environment opens.
-- The parameters of a theorem name the laws that it takes; IsReliable and HasMemory are meant where
-- it is said that the machine does not fail. Tests/Memory and Tests/Systems hold an implementation
-- in memory, with proofs of these laws.
--
-- The files. Types: src/lang/c/include/mangoo.h and src/stores/dbfs/dbfs.h. Compare and its child:
-- the comparison function of dir.c. Handle, with the life of a handle in Handle/Life, and Fsinfo:
-- fsinfo.c. Attr, Attr/Interface, and Attr/Resize on truncation: attr.c. Stream, Stream/Truncate
-- and Stream/Interface: stream.c, with the content of files, reads, writes, the round trip, two
-- handles, two files and the ends of files in the other children of Stream. Dir and Dir/Read:
-- dir.c, with the listing of a directory in Dir/Listing, Dir/Children, Dir/Visits and Dir/Readdir,
-- listings that the callback breaks off in Dir/Paging, and a key buffer that moves in Dir/Ends and
-- Dir/Dangling. Dbfs: dbfs.c, with what creating, mounting and deleting do in its children. Mkdbfs:
-- mkdbfs.c. Api and its children: mangoostore.h and mangoo.c. Fuse, Fuse/Directory and Fuse/Start:
-- mangoofuse.c, with the handlers over the dbfs store in Fuse/Attributes, Fuse/Data, Fuse/NewFile
-- and Fuse/Changes, a listing that takes several calls in Fuse/Fill, Fuse/Pages, Fuse/FirstPage,
-- Fuse/ReadPages and Fuse/LostName, and a store that mkdbfs has made in Fuse/NewStore. Samp and
-- Samp/Buffer: samp/sampread.c. Samp/Shell, with the C library's scanning and printing in
-- Samp/Scan: samp/myapp.c, whose offset is printed and read back in Samp/Number and Samp/Session,
-- and whose loop is in Samp/Forever and Samp/Repeated. Samp/Write: samp/sampwrite.c and
-- samp/writenew.c. System/Keeps: rules for invariants of the database under runs. Whole: the
-- invariant of the stored blocks, under one call after the other. Tests: the implementation in
-- memory, and the theorems at concrete inputs.
--
-- Bounds and fuel. The loops of dbfs_readwrite have their size as fuel, since every round moves a
-- byte; the loop of dbfs_truncateblocks, the walk of dbfs_readdir and the loop of the shell have
-- fuel of their own. Sizes of structures are those of a machine with 8-byte pointers. max_transfer,
-- 2 ^ 63, keeps the sums of an offset and a size from wrapping. An offset is not bounded in the
-- loops: as an off_t it stays below 2 ^ 63.
--
-- Not modelled: the messages, fuse_main (a parameter of main), the memory of the block buffers,
-- threads, and the sample programs concwrite.c, sampdir.c and oldmyapp.c.
pub mod Base
pub mod Types
pub mod System
pub mod Compare
pub mod Handle
pub mod Fsinfo
pub mod Attr
pub mod Samp
pub mod Stream
pub mod Dir
pub mod Dbfs
pub mod Mkdbfs
pub mod Api
pub mod Fuse
pub mod Tests
pub mod Whole
