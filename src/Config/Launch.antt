-- ===== src/Config/Launch.antt =====
-- config/args.go: `parseBoolFlag` and `ParseUILaunchArgs`. `strconv.ParseBool` is a parameter.
use good_link.Base.{
  some, Bool, not, Option-cases, true, [], none, inr, ◌∷◌, Bytes, ◌++◌, inl, refl, ◌≡◌, All, false,
  List, Option, if◌then◌else◌,
}
use good_link.Net.{equal}
use good_link.Config.Args.{two, one, with_value, cut_prefix}

abbrev pub no_browser_name : Bytes
no_browser_name = b'n' ∷ b'o' ∷ b'-' ∷ b'b' ∷ b'r' ∷ b'o' ∷ b'w' ∷ b's' ∷ b'e' ∷ b'r' ∷ []

module _ (parse_bool : Bytes → Option Bool) where
  -- The value, where the argument is the flag and its value is a Boolean.
  unfoldable pub parse_bool_flag : Bytes → Bytes → Option Bool
  unfolding equal cut_prefix
  parse_bool_flag a name =
      if equal a (two name) then some true else elim (cut_prefix (with_value (two name)) a) [
        | some v ↦ parse_bool v
        | none ↦
            if equal a (one name)
            then some true
            else elim (cut_prefix (with_value (one name)) a) [ some v ↦ parse_bool v | none ↦ none ]
      ]

  -- The loop, from the value that `openBrowser` has.
  unfoldable pub launch_args : Bool → List Bytes → Bool × Bool
  launch_args open_browser [] = (open_browser, true)
  launch_args open_browser (a ∷ args) = elim (parse_bool_flag a no_browser_name) [
    | some v ↦ launch_args (not v) args
    | none ↦ (true, false)
  ]

  unfoldable pub parse_ui_launch_args : List Bytes → Bool × Bool
  unfolding launch_args
  parse_ui_launch_args [] = (true, false)
  parse_ui_launch_args (a ∷ args) = launch_args true (a ∷ args)

  abbrev pub IsNoBrowser : Bytes → Type 0
  IsNoBrowser a = (v : Bool) × (parse_bool_flag a no_browser_name ≡ some v)

  launch_args-refused :
      (start : Bool) (before after : List Bytes) (a : Bytes)
      → parse_bool_flag a no_browser_name ≡ none
      → launch_args start (before ++ a ∷ after) ≡ (true, false)
  unfolding launch_args
  launch_args-refused start [] after a h = rw (launch_args, h) refl
  launch_args-refused start (b ∷ before) after a h =
      elim (Option-cases (parse_bool_flag b no_browser_name)) [
        | inl other ↦ rw (launch_args, other) refl
        | inr (v, known) ↦ rw (launch_args, known) (launch_args-refused (not v) before after a h)
      ]

  launch_args-taken :
      (start v : Bool) (before : List Bytes) (a : Bytes)
      → All IsNoBrowser before
      → parse_bool_flag a no_browser_name ≡ some v
      → launch_args start (before ++ a ∷ []) ≡ (not v, true)
  unfolding launch_args
  launch_args-taken start v [] a h k = rw (launch_args, k) refl
  launch_args-taken start v (b ∷ before) a h k =
      rw (launch_args, h.0.1) (launch_args-taken (not h.0.0) v before a h.1 k)

  -- One argument that is not the flag, or whose value is no Boolean, wherever it stands, leaves
  -- the arguments to the common command line.
  parse_ui_launch_args-refused :
      (before after : List Bytes) (a : Bytes)
      → parse_bool_flag a no_browser_name ≡ none
      → parse_ui_launch_args (before ++ a ∷ after) ≡ (true, false)
  unfolding parse_ui_launch_args
  parse_ui_launch_args-refused [] after a h = launch_args-refused true [] after a h
  parse_ui_launch_args-refused (b ∷ before) after a h =
      launch_args-refused true (b ∷ before) after a h

  -- Where each argument is the flag, the interface starts, and the last one decides whether the
  -- browser opens.
  parse_ui_launch_args-taken :
      (v : Bool) (before : List Bytes) (a : Bytes)
      → All IsNoBrowser before
      → parse_bool_flag a no_browser_name ≡ some v
      → parse_ui_launch_args (before ++ a ∷ []) ≡ (not v, true)
  unfolding parse_ui_launch_args
  parse_ui_launch_args-taken v [] a h k = launch_args-taken true v [] a h k
  parse_ui_launch_args-taken v (b ∷ before) a h k = launch_args-taken true v (b ∷ before) a h k
