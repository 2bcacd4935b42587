-- ===== src/Security/Pointers.antt =====
-- Which pointers the sandbox accepts, and the ranges that come round.
use native.Mathlib.Nat.{mod-eq_of_lt}
use vernis_os.Prelude.{ℕ, ◌+◌, ◌-◌, ◌^◌, ◌≤◌, ◌<◌, ◌≡◌, ◌≢◌, refl, some, true, false, arith, ◌==◌}
use vernis_os.Prelude.Words.{u32}
use vernis_os.Security.Sandbox.{
  SecurityContext, proc_type_kernel, sandbox_validate_user_pointer, sandbox_setup_user_memory,
}

-- For a process other than the kernel, an address range and a region that both end below 4 GiB: the pointer
-- is accepted exactly if the range lies in the region.
pub validate_pointer_lem :
    (ctx : SecurityContext) (ptr size : ℕ)
    → ctx.proc_type ≢ proc_type_kernel
    → ptr + size < 2 ^ 32
    → ctx.mem_layout.user_base + ctx.mem_layout.user_size < 2 ^ 32
    → ((sandbox_validate_user_pointer (some ctx) ptr size ≡ true)
        → (ctx.mem_layout.user_base ≤ ptr)
          × (ptr + size ≤ ctx.mem_layout.user_base + ctx.mem_layout.user_size))
      × ((ctx.mem_layout.user_base ≤ ptr)
          → ptr + size ≤ ctx.mem_layout.user_base + ctx.mem_layout.user_size
          → sandbox_validate_user_pointer (some ctx) ptr size ≡ true)
unfolding sandbox_validate_user_pointer
validate_pointer_lem ctx ptr size user ends region =
    let other : (ctx.proc_type == proc_type_kernel) ≡ false = ground arith in
    let addr : u32 ptr ≡ ptr = mod-eq_of_lt (omega arith) in
    let last : u32 (ptr + size) ≡ ptr + size = mod-eq_of_lt ends in
    let limit : u32 (ctx.mem_layout.user_base + ctx.mem_layout.user_size)
        ≡ ctx.mem_layout.user_base + ctx.mem_layout.user_size =
      mod-eq_of_lt region in
    simp (other, addr, last, limit) (λ e. (ground arith, ground arith), λ le le2. ground arith)

-- A range from any address that is not 0, in the region or above it, to the end of the 32-bit space is accepted, whatever
-- the size of the region: the end comes round to 0.
pub validate_pointer_wraps :
    (ctx : SecurityContext) (ptr : ℕ)
    → ptr < 2 ^ 32
    → 0 < ptr
    → ctx.mem_layout.user_base ≤ ptr
    → sandbox_validate_user_pointer (some ctx) ptr (2 ^ 32 - ptr) ≡ true
unfolding sandbox_validate_user_pointer
validate_pointer_wraps ctx ptr fits pos above =
    let addr : u32 ptr ≡ ptr = mod-eq_of_lt fits in
    let round : u32 (ptr + (2 ^ 32 - ptr)) ≡ 0 = omega arith in ground (arith, addr, round)

-- A region of at least one page that ends below 4 GiB: heap and stack fill it, the heap first.
pub setup_user_memory_lem :
    (ctx : SecurityContext) (base size : ℕ)
    → 4096 ≤ size
    → base + size < 2 ^ 32
    → let m = (sandbox_setup_user_memory ctx base size).mem_layout in
      (m.heap_base ≡ base)
      × (m.heap_base + m.heap_size ≡ m.stack_base)
      × (m.stack_base + m.stack_size ≡ base + size)
unfolding sandbox_setup_user_memory
setup_user_memory_lem ctx base size page fits = (refl, omega arith, omega arith)
