-- ===== src/Config/Args.antt =====
-- config/args.go: `ParseSelfUpdateArgs`, and the arguments with which ui2/upgrade.go starts the
-- updater. `strconv` is a parameter.
use good_link.Base.{
  List, some, ◌≡◌, ◌==◌, ◌||◌, true, none, ◌++◌, Bool, ◌∷◌, Option, ℕ, Bytes, if◌then◌else◌, false,
  [], refl,
}
use good_link.Net.{equal}

abbrev pub self_update_name : Bytes
self_update_name = b's' ∷ b'e' ∷ b'l' ∷ b'f' ∷ b'-' ∷ b'u' ∷ b'p' ∷ b'd' ∷ b'a' ∷ b't' ∷ b'e' ∷ []

abbrev pub zip_name : Bytes
zip_name = b'z' ∷ b'i' ∷ b'p' ∷ []

abbrev pub wait_pid_name : Bytes
wait_pid_name = b'w' ∷ b'a' ∷ b'i' ∷ b't' ∷ b'-' ∷ b'p' ∷ b'i' ∷ b'd' ∷ []

abbrev pub target_name : Bytes
target_name = b't' ∷ b'a' ∷ b'r' ∷ b'g' ∷ b'e' ∷ b't' ∷ []

abbrev pub two : Bytes → Bytes
two name = b'-' ∷ b'-' ∷ name

abbrev pub one : Bytes → Bytes
one name = b'-' ∷ name

abbrev pub with_value : Bytes → Bytes
with_value name = name ++ b'=' ∷ []

-- `strings.HasPrefix` and `strings.TrimPrefix` at once: what follows the prefix.
unfoldable pub cut_prefix : Bytes → Bytes → Option Bytes
cut_prefix [] s = some s
cut_prefix (c ∷ p) [] = none
cut_prefix (c ∷ p) (d ∷ s) = let rest = cut_prefix p s in if c == d then rest else none

-- The cases of the switch, in its order.
pub data Flag : Type 0 where
  self_update zip wait_pid target unknown : Flag
  zip_is wait_pid_is target_is : Bytes → Flag

abbrev is_flag : Bytes → Bytes → Bool
is_flag a name = equal a (two name) || equal a (one name)

abbrev value_of : Bytes → Bytes → Option Bytes
value_of a name = elim (cut_prefix (with_value (two name)) a) [
  | some v ↦ some v
  | none ↦ cut_prefix (with_value (one name)) a
]

abbrev flag_or : Bytes → Bytes → Flag → (Bytes → Flag) → Flag → Flag
flag_or a name bare valued next =
    if is_flag a name then bare else elim (value_of a name) [ some v ↦ valued v | none ↦ next ]

unfoldable pub classify : Bytes → Flag
unfolding equal cut_prefix
classify a =
    flag_or a self_update_name self_update (λ _. self_update)
      (flag_or a zip_name zip zip_is (
        flag_or a wait_pid_name wait_pid wait_pid_is
          (flag_or a target_name target target_is unknown)))

pub record SelfUpdate : Type 0 where
  pub zip_path : Bytes
  pub wait_pid : ℕ
  pub target : Bytes
  pub ok : Bool

-- `atoi` gives 0 beside an error.
module _ (atoi : Bytes → ℕ) where
  -- The loop over the arguments. A flag that wants a value takes the next argument, if any.
  unfoldable pub parse_args : SelfUpdate → List Bytes → SelfUpdate
  unfolding classify
  parse_args u [] = u
  parse_args u (a ∷ []) = elim (classify a) [
    | self_update ↦ record u { ok = true }
    | zip_is v ↦ record u { zip_path = v }
    | wait_pid_is v ↦ record u { wait_pid = atoi v }
    | target_is v ↦ record u { target = v }
    | _ ↦ u
  ]
  parse_args u (a ∷ b ∷ args) = elim (classify a) [
    | self_update ↦ parse_args (record u { ok = true }) (b ∷ args)
    | zip ↦ parse_args (record u { zip_path = b }) args
    | zip_is v ↦ parse_args (record u { zip_path = v }) (b ∷ args)
    | wait_pid ↦ parse_args (record u { wait_pid = atoi b }) args
    | wait_pid_is v ↦ parse_args (record u { wait_pid = atoi v }) (b ∷ args)
    | target ↦ parse_args (record u { target = b }) args
    | target_is v ↦ parse_args (record u { target = v }) (b ∷ args)
    | unknown ↦ parse_args u (b ∷ args)
  ]

  abbrev pub parse_self_update_args : List Bytes → SelfUpdate
  parse_self_update_args =
      parse_args (record { zip_path = []; wait_pid = 0; target = []; ok = false })

-- What the running program passes to the updater.
abbrev pub updater_args : (ℕ → Bytes) → Bytes → ℕ → Bytes → List Bytes
updater_args itoa zip_path pid exe =
    two self_update_name
    ∷ two zip_name
    ∷ zip_path
    ∷ two wait_pid_name
    ∷ itoa pid
    ∷ two target_name
    ∷ exe
    ∷ []

-- The updater reads the zip path, the process and the target that the running program passes to
-- it, where the number of the process survives the way through text.
parse_self_update_args-updater_args :
    (atoi : Bytes → ℕ) (itoa : ℕ → Bytes) (zip_path exe : Bytes) (pid : ℕ)
    → atoi (itoa pid) ≡ pid
    → parse_self_update_args atoi (updater_args itoa zip_path pid exe)
      ≡ record { zip_path = zip_path; wait_pid = pid; target = exe; ok = true }
unfolding parse_args
parse_self_update_args-updater_args atoi itoa zip_path exe pid h = rw h refl

abbrev pub joined : Bytes → Bytes → Bytes
joined name v = with_value (two name) ++ v

-- A flag with its value behind `=` is read as the flag with its value in the next argument.
pub parse_args-joined :
    (atoi : Bytes → ℕ) (u : SelfUpdate) (v : Bytes) (args : List Bytes)
    → (parse_args atoi u (joined zip_name v ∷ args) ≡ parse_args atoi u (two zip_name ∷ v ∷ args))
      × (parse_args atoi u (joined wait_pid_name v ∷ args)
          ≡ parse_args atoi u (two wait_pid_name ∷ v ∷ args))
      × (parse_args atoi u (joined target_name v ∷ args)
          ≡ parse_args atoi u (two target_name ∷ v ∷ args))
unfolding parse_args
parse_args-joined atoi u v [] = (refl, refl, refl)
parse_args-joined atoi u v (a ∷ args) = (refl, refl, refl)
