-- ===== src/Log.antt =====
-- The two logs of the kernel, kernel/log/klog.c and kernel/security/auditlog.c: rings of the newest
-- entries, over one theory of such rings.
pub mod Recent
pub mod Decimal
pub mod Klog
pub mod Newest
pub mod Audit
pub mod Denials
mod Tests
