-- ===== src/Lib.antt =====
-- VernisOS, a small operating system kernel in C: the parts of it whose logic does not depend on the
-- hardware, as functions on explicit states, and the theorems about them.
--
-- The program. A process reaches the kernel by system calls. The IPC part (kernel/ipc/ipc.c) keeps message
-- queues, byte channels and sockets named by a path, all of them built on the same static tables. The block
-- cache (kernel/fs/bcache.c) stands between the file systems and the disk driver: it takes over the pair of
-- functions by which sectors are read and written. The kernel log (kernel/log/klog.c) and the audit log
-- (kernel/security/auditlog.c) keep the newest entries in rings, which the shell prints. The sandbox
-- (kernel/security/sandbox.c) says which system calls and addresses a process may use, and the policy check
-- (kernel/security/policy_enforce.c) which shell commands a session may run. VernisFS (kernel/fs/vernisfs.c)
-- keeps files in runs of sectors behind a table of 32 entries, and reads and writes them by that pair of
-- functions, so through the block cache. The layer above (kernel/fs/vfs.c) sends a path to VernisFS, to a
-- read-only volume under /mnt or to a file of its own, as those of /proc and /dev. The user database
-- (kernel/security/userdb.c) loads its records from a file and lets users log in by the SHA-256 digest
-- (kernel/security/sha256.c) of their password. The module loader (kernel/module/module.c) keeps a table of
-- the modules in memory and calls their functions; shared libraries (kernel/module/dylib.c) are modules that
-- are read from a file.
--
-- Where what is. A C function has a definition of its own name, without the prefix `ipc_` in Ipc; a helper of
-- the model stands for a loop or a branch of the function that its comment names.
--   Prelude: lists over the native numbers, arrays with a search (Find), ring buffers (Rings), fixed-width
--     arithmetic (Words), bits (Bits), C strings (Strings) and numbers and strings as bytes (Bytes).
--   Ipc/State: the tables and types of include/ipc.h. Ipc/Queues: `queue_create` to `recv`; its children hold
--     the invariant (Inv), the pid cache (Find), the specification as boxes of messages (Office, View) and the
--     refinement (Refine, Send, Receive). Ipc/Channels: `channel_create` to `channel_close`, with the bytes of
--     a channel (Stream), the transfer (Transfer) and the use of slots (Slots). Ipc/Sockets: `usock_bind` to
--     `usock_close`. Ipc/Syscall: the dispatch, the joint invariant and the reachable states.
--   Sectors: a disk as an array of sectors, the view that the cache and VernisFS share.
--   Cache: the state and operations of bcache.c. Coherent, Slots, Lru, Steps and Sector lead from one slot to
--     one sector; Buffers, Sync, Start, Flags and Roundtrip have the operations as users see them.
--   Vernisfs: the structures, the search, reading and the metadata of vernisfs.c; Vernisfs/Files: the operations
--     that change the table. Disk has the promise of the disk functions (`Array`) and the data of a file,
--     Metadata the bytes of the superblock and the table, Names and Slots the search for an entry, Contents and
--     Write what a file holds and what a write makes of it; Roundtrip, Append and Delete have the operations as
--     users see them, and Cached fills the promise with the block cache.
--   Log: Klog and Audit have the state and operations of the two logs, Recent their common ring, Decimal the
--     printing of numbers, Newest and Denials the theorems.
--   Security: Sandbox has the state and operations of kernel/security/sandbox.c, Calls and Pointers its
--     theorems; Policy is kernel/security/policy_enforce.c. Sha256 is kernel/security/sha256.c, Padding the
--     digest as a function of the whole padded message, Digest their equality; Userdb is
--     kernel/security/userdb.c, Login and Records its theorems.
--   Modules: kernel/module/module.c; Modules/Dylib: kernel/module/dylib.c. Table has the invariant of the table
--     over all system calls, Libraries what opening, calling and closing a library do.
--   Kfs: kernel/fs/vfs.c, with the paths that it keeps for itself in Paths; Routes: where it sends a path.
-- A module Tests (in Security also Vectors) has runs and the theorems at concrete states.
--
-- How C is read. A static table is a list of its fixed length and a read out of range gives a default that no
-- code path uses; a pointer argument that may be null is an Option. Unsigned arithmetic that the source can
-- wrap is written with its modulus; -1 for no index is `none`. The two flag bits of a cache block are two
-- Booleans. The disk driver is a record of two functions on a state of its own, and a theorem that needs a
-- disk that works has the record `Works` as a hypothesis, which Cache/Tests fills with a disk made of a
-- function. The tables that the logs print and the serial line of `klog` are values; other text for the serial
-- port, as that of `auditlog_record`, is left out. The functions that read and write sectors (`vfs_disk_read_fn`,
-- `vfs_disk_write_fn`) are another such record, with the record `Array` of what VernisFS relies on.
--
-- Bounds. Loops are structural recursion on the list or on the number of rounds that is left. Fuel is in
-- `digits_rev`, 20 rounds, as a 64-bit number has at most 20 digits; in `read_chunks`, as many rounds as there
-- are sectors, as each takes at least one; and in `parse_users`, as many as the file has room for records.
--
-- Not modelled: the hardware (kernel/arch, boot, drivers), the shell, the Rust core, the Python tools, and for
-- now the drivers of FAT32 and ext2 and the adapters to AHCI and NVMe of vfs.c, the ATA driver at the head of
-- vernisfs.c, which is port I/O, the network, the bridge to the AI engine and the loader of
-- policies. The AI engine's answer to an access check is a parameter of Security/Policy; the
-- code of a module, the bytes of memory and the registry of the Rust core are parameters of Modules, and
-- the drivers of the volumes and the text of /proc of Kfs.
pub mod Prelude
pub mod Ipc
pub mod Log
pub mod Sectors
pub mod Cache
pub mod Security
pub mod Vernisfs
pub mod Modules
pub mod Kfs
