-- ===== src/Security/Tests.antt =====
-- Runs of the security checks, and the theorems about them at concrete inputs.
use Prim.Native.Nat.{bit_and}
use vernis_os.Prelude.{
  none, ℕ, ◌+◌, ◌-◌, ◌^◌, ◌≤◌, ◌≡◌, refl, List, [], ◌∷◌, some, true, arith, ◌&&◌, ◌||◌, ◌==◌,
  if◌then◌else◌,
}
use vernis_os.Security.Sandbox.{
  SecurityContext, Pool, zero_context, make_context, proc_type_user, sandbox_create_process,
  sandbox_check_syscall, sandbox_setup_user_memory, sandbox_validate_user_pointer,
}
use vernis_os.Security.Calls.{user_calls, among, user_calls_lem, create_process-check_syscall}
use vernis_os.Security.Pointers.{validate_pointer_lem, validate_pointer_wraps}
use vernis_os.Security.Policy.{
  policy_check_command, required_level, word_len, full_command_len, policy_map_privilege,
}

-- A user process with 64 KiB at 1 MiB.
abbrev small_user : SecurityContext
small_user = sandbox_setup_user_memory (make_context zero_context 3 proc_type_user) 0x100000 0x10000

security_code : ℕ
unfolding make_context sandbox_setup_user_memory sandbox_create_process policy_check_command
    required_level word_len full_command_len policy_map_privilege
security_code = 0

small_user-type : small_user.proc_type ≡ 2
unfolding security_code
small_user-type = refl

small_user-base :
    (small_user.mem_layout.user_base ≡ 0x100000) × (small_user.mem_layout.user_size ≡ 0x10000)
unfolding security_code
small_user-base = (refl, refl)

user_calls_lem_example :
    (let both = bit_and small_user.capabilities 0x3000 == 0x3000 in
      let may = among (0 ∷ 1 ∷ 2 ∷ []) 21 || (among (20 ∷ 21 ∷ 22 ∷ []) 21 && both) in
      sandbox_check_syscall (some small_user) 21
      ≡ (may, if may then none else some (record { pid = small_user.pid; syscall_num = 21 })))
user_calls_lem_example = user_calls_lem small_user 21 small_user-type

abbrev fresh_pool : Pool
fresh_pool = record { used = 0; contexts = zero_context ∷ [] }

fresh_made :
    (sandbox_create_process fresh_pool proc_type_user).1
    ≡ some (make_context zero_context 0 proc_type_user)
unfolding security_code
fresh_made = refl

create_process-check_syscall_example :
    (sandbox_check_syscall (some (make_context zero_context 0 proc_type_user)) 28).0
    ≡ among user_calls 28
create_process-check_syscall_example =
    create_process-check_syscall fresh_pool (make_context zero_context 0 proc_type_user) 28
      fresh_made

validate_pointer_lem_example :
    ((sandbox_validate_user_pointer (some small_user) 0x100010 16 ≡ true)
      → (small_user.mem_layout.user_base ≤ 0x100010)
        × (0x100010 + 16 ≤ small_user.mem_layout.user_base + small_user.mem_layout.user_size))
    × ((small_user.mem_layout.user_base ≤ 0x100010)
        → 0x100010 + 16 ≤ small_user.mem_layout.user_base + small_user.mem_layout.user_size
        → sandbox_validate_user_pointer (some small_user) 0x100010 16 ≡ true)
validate_pointer_lem_example =
    validate_pointer_lem small_user 0x100010 16 (omega (arith, small_user-type)) (omega arith)
      (omega (arith, small_user-base))

validate_pointer_wraps_example :
    sandbox_validate_user_pointer (some small_user) 0xF0000000 (2 ^ 32 - 0xF0000000) ≡ true
validate_pointer_wraps_example =
    validate_pointer_wraps small_user 0xF0000000 (omega arith) (omega arith)
      (omega (arith, small_user-base))

-- Rules that want an administrator for "rm", and have nothing else.
abbrev rm_rule : List ℕ → ℕ → ℕ
rm_rule command n = if n == 2 then 1 else 255

abbrev rm_x : List ℕ
rm_x = b'r' ∷ b'm' ∷ b' ' ∷ b'x' ∷ []
