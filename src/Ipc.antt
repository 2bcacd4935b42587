-- ===== src/Ipc.antt =====
-- kernel/ipc/ipc.c: message queues, channels and path-named sockets of the kernel.
-- `State` holds the tables, `Queues`, `Channels` and `Sockets` the operations on each.
pub mod State
pub mod Queues
pub mod Channels
pub mod Sockets
pub mod Syscall
mod Tests
