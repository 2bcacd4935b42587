-- ===== src/Security/Calls.antt =====
-- Which system calls a process may make.
use Prim.Native.Nat.{bit_and}
use vernis_os.Prelude.{
  ℕ, zero, suc, ◌<◌, ◌≡◌, refl, sym, ◌∙◌, ap, List, [], ◌∷◌, Option, none, some, Bool, true, false,
  inl, inr, ◌||◌, ◌&&◌, not, arith, ◌==◌, leb, Bool-cases, if◌then◌else◌, get_or,
}
use vernis_os.Security.Sandbox.{
  SecurityContext, Denied, Pool, syscall_allowed_by_mask, user_allowed_mask, system_allowed_mask,
  sandbox_has_capability, sandbox_check_syscall, answer, needed, cap_ipc_both, proc_type_user,
  proc_type_system, make_context, zero_context, sandbox_create_process,
}

unfoldable pub among : List ℕ → ℕ → Bool
among [] n = false
among (x ∷ xs) n = let rest = among xs n in n == x || rest

-- A test of all numbers below a bound, by evaluation.
all_below : ℕ → (ℕ → Bool) → Bool
all_below zero p = true
all_below (suc n) p = let rest = all_below n p in p n && rest

all_below_lem : (n : ℕ) (p : ℕ → Bool) (x : ℕ) → all_below n p ≡ true → x < n → p x ≡ true
unfolding all_below
all_below_lem zero p x h lt = absurd (omega arith)
all_below_lem (suc n) p x h lt = ground (arith, all_below_lem n p x)

same : Bool → Bool → Bool
same a b = if a then b else not b

same_lem : (a b : Bool) → same a b ≡ true → a ≡ b
unfolding same
same_lem true b h = sym h
same_lem false true h = h
same_lem false false h = refl

abbrev pub user_calls : List ℕ
user_calls = 0 ∷ 1 ∷ 2 ∷ 20 ∷ 21 ∷ 22 ∷ []

abbrev pub system_calls : List ℕ
system_calls = 0 ∷ 1 ∷ 2 ∷ 20 ∷ 21 ∷ 22 ∷ 23 ∷ 24 ∷ 25 ∷ 26 ∷ 27 ∷ []

user_table :
    all_below 64 (λ n. same (syscall_allowed_by_mask n user_allowed_mask) (among user_calls n))
    ≡ true
unfolding all_below same syscall_allowed_by_mask among
user_table = refl

system_table :
    all_below 64 (λ n. same (syscall_allowed_by_mask n system_allowed_mask) (among system_calls n))
    ≡ true
unfolding all_below same syscall_allowed_by_mask among
system_table = refl

user_mask_lem : (n : ℕ) → syscall_allowed_by_mask n user_allowed_mask ≡ among user_calls n
unfolding syscall_allowed_by_mask among
user_mask_lem n = elim (Bool-cases (leb 64 n)) [
  | inl large ↦ ground arith
  | inr small ↦ same_lem _ _ (all_below_lem 64 _ n user_table (ground arith))
]

system_mask_lem : (n : ℕ) → syscall_allowed_by_mask n system_allowed_mask ≡ among system_calls n
unfolding syscall_allowed_by_mask among
system_mask_lem n = elim (Bool-cases (leb 64 n)) [
  | inl large ↦ ground arith
  | inr small ↦ same_lem _ _ (all_below_lem 64 _ n system_table (ground arith))
]

needed_ipc : (n : ℕ) → among (20 ∷ 21 ∷ 22 ∷ 26 ∷ 27 ∷ []) n ≡ true → needed n ≡ cap_ipc_both
unfolding needed among
needed_ipc n e = ground arith

needed_none :
    (n : ℕ)
    → among (20 ∷ 21 ∷ 22 ∷ 26 ∷ 27 ∷ []) n ≡ false
    → among system_calls n ≡ true
    → needed n ≡ 0
unfolding needed among
needed_none n e ok = ground arith

user_within : (n : ℕ) → among user_calls n ≡ true → among system_calls n ≡ true
unfolding among
user_within n e = ground arith

-- What the code answers for a process type with the mask `mask`, once the kernel is excluded.
by_mask :
    (ctx : SecurityContext) (n : ℕ) (calls : List ℕ)
    → (among calls n ≡ true → among system_calls n ≡ true)
    → (if not (needed n == 0) && not (sandbox_has_capability (some ctx) (needed n))
        then answer ctx n false
        else answer ctx n (among calls n))
      ≡ answer ctx n (
          among calls n
          && (not (among (20 ∷ 21 ∷ 22 ∷ 26 ∷ 27 ∷ []) n)
              || sandbox_has_capability (some ctx) cap_ipc_both))
by_mask ctx n calls within = elim (Bool-cases (among calls n)) [
  | inr refused ↦ ground (arith, refused)
  | inl allowed ↦ elim (Bool-cases (among (20 ∷ 21 ∷ 22 ∷ 26 ∷ 27 ∷ []) n)) [
    | inl ipc ↦ simp (allowed, ipc, needed_ipc n ipc) (ground arith)
    | inr plain ↦ simp (allowed, plain, needed_none n plain (within allowed)) refl
  ]
]

answer_lem :
    (ctx : SecurityContext) (n : ℕ) (b : Bool)
    → answer ctx n b ≡ (b, if b then none else some (record { pid = ctx.pid; syscall_num = n }))
unfolding answer
answer_lem ctx n true = refl
answer_lem ctx n false = refl

-- The answer on every branch of a call that is allowed if `may` holds.
abbrev verdict : SecurityContext → ℕ → Bool → Bool × Option Denied
verdict ctx n may = (may, if may then none else some (record { pid = ctx.pid; syscall_num = n }))

has_ipc :
    (ctx : SecurityContext)
    → sandbox_has_capability (some ctx) cap_ipc_both ≡ (bit_and ctx.capabilities 0x3000 == 0x3000)
unfolding sandbox_has_capability
has_ipc ctx = refl

user_may :
    (n : ℕ) (h : Bool)
    → (among user_calls n && (not (among (20 ∷ 21 ∷ 22 ∷ 26 ∷ 27 ∷ []) n) || h))
      ≡ (among (0 ∷ 1 ∷ 2 ∷ []) n || (among (20 ∷ 21 ∷ 22 ∷ []) n && h))
unfolding among
user_may n h = ground arith

system_may :
    (n : ℕ) (h : Bool)
    → (among system_calls n && (not (among (20 ∷ 21 ∷ 22 ∷ 26 ∷ 27 ∷ []) n) || h))
      ≡ (among (0 ∷ 1 ∷ 2 ∷ 23 ∷ 24 ∷ 25 ∷ []) n || (among (20 ∷ 21 ∷ 22 ∷ 26 ∷ 27 ∷ []) n && h))
unfolding among
system_may n h = ground arith

-- A user process may make the calls 0 to 2, and 20 to 22 if it holds both IPC capabilities, and no other
-- call. A call that it may make is not reported; any other one is reported as denied, with the process and
-- the number of the call.
pub user_calls_lem :
    (ctx : SecurityContext) (n : ℕ)
    → ctx.proc_type ≡ proc_type_user
    → (let both = bit_and ctx.capabilities 0x3000 == 0x3000 in
        let may = among (0 ∷ 1 ∷ 2 ∷ []) n || (among (20 ∷ 21 ∷ 22 ∷ []) n && both) in
        sandbox_check_syscall (some ctx) n
        ≡ (may, if may then none else some (record { pid = ctx.pid; syscall_num = n })))
unfolding sandbox_check_syscall
user_calls_lem ctx n user =
    let h = sandbox_has_capability (some ctx) cap_ipc_both in
    simp (user, user_mask_lem n) (by_mask ctx n user_calls (user_within n))
    ∙ answer_lem ctx n _
    ∙ ap (verdict ctx n) (
        user_may n h
        ∙ ap (λ b. among (0 ∷ 1 ∷ 2 ∷ []) n || (among (20 ∷ 21 ∷ 22 ∷ []) n && b)) (has_ipc ctx))

-- A system service may make the calls 0 to 2 and 23 to 25, and 20 to 22, 26 and 27 if it holds both IPC
-- capabilities, and no other call; exactly the other calls are reported as denied.
pub system_calls_lem :
    (ctx : SecurityContext) (n : ℕ)
    → ctx.proc_type ≡ proc_type_system
    → (let both = bit_and ctx.capabilities 0x3000 == 0x3000 in
        let may =
          among (0 ∷ 1 ∷ 2 ∷ 23 ∷ 24 ∷ 25 ∷ []) n
          || (among (20 ∷ 21 ∷ 22 ∷ 26 ∷ 27 ∷ []) n && both) in
        sandbox_check_syscall (some ctx) n
        ≡ (may, if may then none else some (record { pid = ctx.pid; syscall_num = n })))
unfolding sandbox_check_syscall
system_calls_lem ctx n system =
    let h = sandbox_has_capability (some ctx) cap_ipc_both in
    simp (system, system_mask_lem n) (by_mask ctx n system_calls (λ e. e))
    ∙ answer_lem ctx n _
    ∙ ap (verdict ctx n) (
        system_may n h
        ∙ ap
            (λ b.
              among (0 ∷ 1 ∷ 2 ∷ 23 ∷ 24 ∷ 25 ∷ []) n
              || (among (20 ∷ 21 ∷ 22 ∷ 26 ∷ 27 ∷ []) n && b))
            (has_ipc ctx))

-- A new user context holds the IPC capabilities.
fresh_has :
    (old : SecurityContext) (pid : ℕ)
    → sandbox_has_capability (some (make_context old pid proc_type_user)) cap_ipc_both ≡ true
unfolding make_context sandbox_has_capability
fresh_has old pid = refl

fresh_user :
    (old : SecurityContext) (pid : ℕ)
    → (make_context old pid proc_type_user).proc_type ≡ proc_type_user
unfolding make_context
fresh_user old pid = refl

fresh_calls :
    (old : SecurityContext) (pid n : ℕ)
    → (sandbox_check_syscall (some (make_context old pid proc_type_user)) n).0 ≡ among user_calls n
fresh_calls old pid n =
    let ctx = make_context old pid proc_type_user in
    ap (λ a. a.0) (user_calls_lem ctx n (fresh_user old pid))
    ∙ sym (
        user_may n (sandbox_has_capability (some ctx) cap_ipc_both)
        ∙ ap (λ b. among (0 ∷ 1 ∷ 2 ∷ []) n || (among (20 ∷ 21 ∷ 22 ∷ []) n && b)) (has_ipc ctx))
    ∙ ground (arith, fresh_has old pid)

-- A user process fresh from the pool may make exactly the calls 0 to 2 and 20 to 22.
pub create_process-check_syscall :
    (pool : Pool) (ctx : SecurityContext) (n : ℕ)
    → (sandbox_create_process pool proc_type_user).1 ≡ some ctx
    → (sandbox_check_syscall (some ctx) n).0 ≡ among user_calls n
unfolding sandbox_create_process
create_process-check_syscall pool ctx n made = elim (Bool-cases (leb 16 pool.used)) [
  | inl exhausted ↦ absurd (ground (arith, exhausted, made))
  | inr room ↦
      let same_ctx : make_context (get_or pool.contexts pool.used zero_context) pool.used
            proc_type_user
          ≡ ctx =
        cc (rw room at made) in
      rw⁻¹ same_ctx (fresh_calls (get_or pool.contexts pool.used zero_context) pool.used n)
]
