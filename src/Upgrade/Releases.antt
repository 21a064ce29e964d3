-- ===== src/Upgrade/Releases.antt =====
-- ui2/footer.go: the newest release, and when it is asked for.
use good_link.Base.{
  Option, [], true, Bytes, ◌≡◌, ltb, ◌+◌, ◌++◌, false, ◌-◌, suc, arith, some, not, ℕ, Bool, List,
  ◌∷◌, ◌==◌, none, if◌then◌else◌, ◌&&◌,
}
use good_link.Net.{equal}
use good_link.Config.Text.{trim_space, to_lower}

pub record Release : Type 0 where
  pub tag_name : Bytes
  pub body : Bytes
  -- The name and the address of each.
  pub assets : List (Bytes × Bytes)

pub record ReleaseInfo : Type 0 where
  pub latest : Bytes
  pub notes : Bytes
  pub url : Bytes

abbrev pub no_release : ReleaseInfo
no_release = record { latest = []; notes = []; url = [] }

-- `strings.TrimPrefix(tag, "v")`
abbrev pub without_v : Bytes → Bytes
without_v [] = []
without_v (c ∷ s) = if c == b'v' then s else c ∷ s

-- Names of assets are compared without regard to the case of ASCII letters. `base` is the address of
-- all downloads.
module _ (base zip_name : Bytes) where
  unfoldable pub find_asset : List (Bytes × Bytes) → Option Bytes
  find_asset [] = none
  find_asset ((name, url) ∷ as_left) =
      let rest = find_asset as_left in
      if equal (to_lower name) (to_lower zip_name) && not (equal url []) then some url else rest

  unfoldable pub find_asset_url : Release → Bytes
  find_asset_url r = elim (find_asset r.assets) [
    | some url ↦ url
    | none ↦ if equal r.tag_name [] then [] else base ++ (r.tag_name ++ b'/' ∷ zip_name)
  ]

  -- `storeUpgradeCache`: what is cached, and returned.
  unfoldable pub store_upgrade_cache : Release → ReleaseInfo
  store_upgrade_cache r = record {
    latest = without_v r.tag_name;
    notes = trim_space r.body;
    url = find_asset_url r;
  }

  -- `GetUpgradeInfo`, from what `fetchLatestRelease` gives and the cache: the cache then, and what
  -- is returned.
  unfoldable pub get_upgrade_info : Option Release → ReleaseInfo → ReleaseInfo × Option ReleaseInfo
  get_upgrade_info (some r) cached = (store_upgrade_cache r, some (store_upgrade_cache r))
  get_upgrade_info none cached = (cached, if equal cached.latest [] then none else some cached)

  -- `checkLatestVersion`: the cache then, whether an update is needed, and the version.
  unfoldable pub check_latest_version :
      (current : Bytes) → Option Release → ReleaseInfo → ReleaseInfo × Option (Bool × Bytes)
  check_latest_version current none cached = (cached, none)
  check_latest_version current (some r) cached =
      let info = store_upgrade_cache r in
      (info, some (not (equal info.latest []) && not (equal info.latest current), info.latest))

-- `upgradeChecking` and `upgradeCheckedAt`, in nanoseconds; `none` is the zero time.
pub record Checker : Type 0 where
  pub checking : Bool
  pub checked_at : Option ℕ

unfoldable pub checked_lately : (min_interval now : ℕ) → Option ℕ → Bool
checked_lately min_interval now none = false
checked_lately min_interval now (some t) = not (min_interval == 0) && ltb (now - t) min_interval

-- `runUpgradeCheck`, and whether a check is started; then what is deferred.
unfoldable pub run_upgrade_check : (min_interval now : ℕ) → Checker → Checker × Bool
run_upgrade_check min_interval now c =
    if c.checking
    then (c, false)
    else if checked_lately min_interval now c.checked_at
    then (c, false)
    else (record c { checking = true }, true)

unfoldable pub check_ends : (now : ℕ) → Checker → Checker
check_ends now c = record c { checking = false; checked_at = some now }

-- Events in the order of time, each after a pause: a check is asked for, or the one that runs ends.
pub data CheckEvent : Type 0 where
  asks : (pause min_interval : ℕ) → CheckEvent
  ends : (pause : ℕ) → CheckEvent

-- The checks that run, when the last one ended, and the clock; each start is counted as running.
pub record Checks : Type 0 where
  pub checker : Checker
  pub running : ℕ
  pub now : ℕ

unfoldable pub check_step : CheckEvent → Checks → Checks
check_step (asks pause min_interval) s =
    let now = s.now + pause in
    let r = run_upgrade_check min_interval now s.checker in
    record { checker = r.0; running = if r.1 then suc s.running else s.running; now = now }
check_step (ends pause) s =
    let now = s.now + pause in
    if s.running == 0
    then record s { now = now }
    else record { checker = check_ends now s.checker; running = s.running - 1; now = now }

unfoldable pub check_steps : List CheckEvent → Checks → Checks
check_steps [] s = s
check_steps (e ∷ es) s = check_steps es (check_step e s)

abbrev pub unchecked : Checks
unchecked = record {
  checker = record { checking = false; checked_at = none };
  running = 0;
  now = 0;
}

-- The flag says that one check runs, and no more.
abbrev IsOne : Checks → Type 0
IsOne s = s.running ≡ (if s.checker.checking then 1 else 0)

check_step-IsOne : (e : CheckEvent) (s : Checks) → IsOne s → IsOne (check_step e s)
unfolding check_step run_upgrade_check check_ends
check_step-IsOne (asks pause min_interval) s h = ground arith
check_step-IsOne (ends pause) s h = ground arith

check_steps-IsOne : (es : List CheckEvent) (s : Checks) → IsOne s → IsOne (check_steps es s)
unfolding check_steps
check_steps-IsOne [] s h = h
check_steps-IsOne (e ∷ es) s h = check_steps-IsOne es (check_step e s) (check_step-IsOne e s h)
