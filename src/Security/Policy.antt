-- ===== src/Security/Policy.antt =====
-- The policy check of a shell command: kernel/security/policy_enforce.c. The rules stand in the AI engine,
-- whose answer `ai_kernel_engine_check_access` is a parameter: it gets the command and the number of bytes
-- to match, and gives the required level, 255 if it has no rule.
use vernis_os.Prelude.{
  ℕ, suc, ◌+◌, ◌≡◌, ◌≢◌, List, [], ◌∷◌, Option, none, some, Bool, true, false, arith, ◌==◌, ltb,
  leb, not, ◌&&◌, if◌then◌else◌, length, drop,
}

unfoldable pub policy_map_privilege : ℕ → ℕ
policy_map_privilege policy_priv =
    if policy_priv == 0
    then 0
    else if policy_priv == 1
    then 50
    else if policy_priv == 2
    then 100
    else 0

-- The loop to the next space: the number of bytes before it.
unfoldable pub word_len : List ℕ → ℕ
word_len [] = 0
word_len (c ∷ cs) = let rest = word_len cs in if c == b' ' then 0 else suc rest

abbrev pub command_len : List ℕ → ℕ
command_len command = word_len command

-- The length with a second word, if there is a space after the first.
unfoldable pub full_command_len : List ℕ → ℕ
full_command_len command =
    let first = word_len command in
    if ltb first (length command) then first + 1 + word_len (drop (first + 1) command) else first

module _ (check_access : List ℕ → ℕ → ℕ) where
  -- The level that the rules require: for two words first, then for one.
  unfoldable pub required_level : List ℕ → ℕ
  required_level command =
      let both = check_access command (full_command_len command) in
      if both == 255 && not (full_command_len command == command_len command)
      then check_access command (command_len command)
      else both

  unfoldable pub policy_check_command : Option (List ℕ) → ℕ → Bool
  policy_check_command none privilege = false
  policy_check_command (some command) privilege =
      let required = required_level command in
      if length command == 0
      then false
      else if required == 255
      then true
      else leb privilege (policy_map_privilege required)

  -- A command for which the rules require root, or a level that is unknown, is refused to all others.
  pub policy_check_command_root :
      (command : List ℕ) (privilege : ℕ)
      → privilege ≢ 0
      → required_level command ≢ 255
      → required_level command ≢ 1
      → required_level command ≢ 2
      → policy_check_command (some command) privilege ≡ false
  unfolding policy_check_command policy_map_privilege
  policy_check_command_root command privilege other ruled not_admin not_all = ground arith
