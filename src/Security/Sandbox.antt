-- ===== src/Security/Sandbox.antt =====
-- The sandbox: kernel/security/sandbox.c and include/sandbox.h. A null context is `none`. The process type
-- is a number, as the code has a last branch for a value that is none of the three.
use Prim.Native.Nat.{bit_and, bit_or}
use vernis_os.Prelude.{
  ℕ, ◌+◌, ◌-◌, ◌*◌, ◌/◌, ◌%◌, ◌^◌, List, Option, none, some, Bool, true, false, ◌||◌, ◌&&◌, not,
  ◌==◌, ltb, leb, if◌then◌else◌, get_or, set,
}
use vernis_os.Prelude.Words.{u32}

abbrev pub proc_type_kernel : ℕ
proc_type_kernel = 0

abbrev pub proc_type_system : ℕ
proc_type_system = 1

abbrev pub proc_type_user : ℕ
proc_type_user = 2

abbrev pub cap_ipc_both : ℕ
cap_ipc_both = 0x1000 + 0x2000

abbrev pub cap_module_both : ℕ
cap_module_both = 0x10000 + 0x20000

abbrev pub cap_module_execute : ℕ
cap_module_execute = 0x40000

abbrev pub cap_kernel_all : ℕ
cap_kernel_all = 0xFFFFFFFFFFFFFFFF

abbrev pub cap_system_default : ℕ
cap_system_default = 0x1 + 0x2 + 0x10 + 0x20 + 0x1000 + 0x2000 + 0x100000

abbrev pub cap_user_default : ℕ
cap_user_default = 0x1 + 0x10 + 0x1000 + 0x2000

-- A sum of different bits is their `|`.
abbrev pub system_allowed_mask : ℕ
system_allowed_mask =
    2 ^ 0 + 2 ^ 1 + 2 ^ 2 + 2 ^ 20 + 2 ^ 21 + 2 ^ 22 + 2 ^ 23 + 2 ^ 24 + 2 ^ 25 + 2 ^ 26 + 2 ^ 27

abbrev pub user_allowed_mask : ℕ
user_allowed_mask = 2 ^ 0 + 2 ^ 1 + 2 ^ 2 + 2 ^ 20 + 2 ^ 21 + 2 ^ 22

pub record UserMemoryLayout : Type 0 where
  pub user_base : ℕ
  pub user_size : ℕ
  pub stack_base : ℕ
  pub stack_size : ℕ
  pub heap_base : ℕ
  pub heap_size : ℕ

pub record SecurityContext : Type 0 where
  pub pid : ℕ
  pub proc_type : ℕ
  pub runtime_ring : ℕ
  pub capabilities : ℕ
  pub mem_layout : UserMemoryLayout
  pub cr3_value : ℕ
  pub max_memory : ℕ
  pub max_open_files : ℕ
  pub max_cpu_time : ℕ
  pub created_at : ℕ
  pub syscalls_made : ℕ
  pub capability_denials : ℕ

-- `(mask >> syscall_num) & 1`
unfoldable pub syscall_allowed_by_mask : ℕ → ℕ → Bool
syscall_allowed_by_mask syscall_num mask =
    if leb 64 syscall_num then false else mask / 2 ^ syscall_num % 2 == 1

unfoldable pub sandbox_has_capability : Option SecurityContext → ℕ → Bool
sandbox_has_capability none mask = false
sandbox_has_capability (some ctx) mask = bit_and ctx.capabilities mask == mask

-- The capabilities that the `switch` of `sandbox_check_syscall` asks for; a call without a case asks for
-- none.
unfoldable pub needed : ℕ → ℕ
needed n =
    if n == 20 || n == 21 || n == 22 || n == 26 || n == 27
    then cap_ipc_both
    else if n == 28 || n == 29
    then cap_module_both
    else if n == 31
    then cap_module_execute
    else 0

-- The call's process and number, as `sandbox_notify_deny` gets them.
pub record Denied : Type 0 where
  pub pid : ℕ
  pub syscall_num : ℕ

-- The answer, and what is reported as denied.
unfoldable pub answer : SecurityContext → ℕ → Bool → Bool × Option Denied
answer ctx n allowed =
    if allowed then (true, none) else (false, some (record { pid = ctx.pid; syscall_num = n }))

unfoldable pub sandbox_check_syscall : Option SecurityContext → ℕ → Bool × Option Denied
sandbox_check_syscall none n = (false, none)
sandbox_check_syscall (some ctx) n =
    if ctx.proc_type == proc_type_kernel
    then (true, none)
    else if not (needed n == 0) && not (sandbox_has_capability (some ctx) (needed n))
    then answer ctx n false
    else if ctx.proc_type == proc_type_system
    then answer ctx n (syscall_allowed_by_mask n system_allowed_mask)
    else if ctx.proc_type == proc_type_user
    then answer ctx n (syscall_allowed_by_mask n user_allowed_mask)
    else answer ctx n false

unfoldable pub sandbox_grant_capability : SecurityContext → ℕ → SecurityContext
sandbox_grant_capability ctx mask = record ctx { capabilities = bit_or ctx.capabilities mask }

-- `~cap` on 64 bits is the distance to all ones.
unfoldable pub sandbox_revoke_capability : SecurityContext → ℕ → SecurityContext
sandbox_revoke_capability ctx mask = record ctx {
  capabilities = bit_and ctx.capabilities (cap_kernel_all - mask);
}

-- The static pool of `sandbox_create_process`; `used` is `pool_idx`.
pub record Pool : Type 0 where
  pub used : ℕ
  pub contexts : List SecurityContext

-- The fields of a context that `sandbox_create_process` sets; a field that it leaves keeps what the pool's
-- entry `old` has.
unfoldable pub make_context : SecurityContext → ℕ → ℕ → SecurityContext
make_context old pid type = record old {
  pid = pid;
  proc_type = type;
  capability_denials = 0;
  syscalls_made = 0;
  capabilities =
      if type == proc_type_kernel
      then cap_kernel_all
      else if type == proc_type_system
      then cap_system_default
      else cap_user_default;
  runtime_ring = if type == proc_type_kernel then 0 else if type == proc_type_system then 2 else 3;
  max_memory = if type == proc_type_user then 512 * 1024 else 2 * 1024 * 1024;
  max_open_files = if type == proc_type_user then 32 else 256;
  max_cpu_time = if type == proc_type_user then 5000 else 0;
}

abbrev pub zero_context : SecurityContext
zero_context = record {
  pid = 0;
  proc_type = 0;
  runtime_ring = 0;
  capabilities = 0;
  mem_layout = record {
    user_base = 0;
    user_size = 0;
    stack_base = 0;
    stack_size = 0;
    heap_base = 0;
    heap_size = 0;
  };
  cr3_value = 0;
  max_memory = 0;
  max_open_files = 0;
  max_cpu_time = 0;
  created_at = 0;
  syscalls_made = 0;
  capability_denials = 0;
}

unfoldable pub sandbox_create_process : Pool → ℕ → Pool × Option SecurityContext
sandbox_create_process pool type =
    let ctx = make_context (get_or pool.contexts pool.used zero_context) pool.used type in
    if leb 16 pool.used
    then (pool, none)
    else (record { used = pool.used + 1; contexts = set pool.contexts pool.used ctx }, some ctx)

-- `uint32_t` arithmetic: a difference comes round below 0.
unfoldable pub sandbox_setup_user_memory : SecurityContext → ℕ → ℕ → SecurityContext
sandbox_setup_user_memory ctx base size =
    let stack = u32 (u32 (base + size) + (2 ^ 32 - 4096)) in
    record ctx {
      mem_layout = record {
        user_base = base;
        user_size = size;
        stack_base = stack;
        stack_size = 4096;
        heap_base = base;
        heap_size = u32 (stack + (2 ^ 32 - base));
      };
    }

-- `ptr` is the address, of which the code keeps 32 bits.
unfoldable pub sandbox_validate_user_pointer : Option SecurityContext → ℕ → ℕ → Bool
sandbox_validate_user_pointer none ptr size = true
sandbox_validate_user_pointer (some ctx) ptr size =
    let addr = u32 ptr in
    if ctx.proc_type == proc_type_kernel
    then true
    else not (
        ltb addr ctx.mem_layout.user_base
        || ltb (u32 (ctx.mem_layout.user_base + ctx.mem_layout.user_size)) (u32 (addr + size)))
