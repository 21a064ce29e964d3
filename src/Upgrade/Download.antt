-- ===== src/Upgrade/Download.antt =====
-- ui2/upgrade.go: the download of an update and what `HandleUpgradeApply` wants of it; the fields of
-- ui2/state.go that show it.
use good_link.Base.{
  leb, zero, suc, Option, ℤ, ◌&&◌, err, ◌-◌, ok, ◌*◌, Bytes, Bool, true, not, ◌+◌, ◌>>◌, fail_if,
  ◌/◌, ◌∷◌, if◌then◌else◌, Outcome, ◌==◌, false, [], List, none, ◌||◌, ℕ, ltb, some, negsuc, pos,
}
use good_link.Config.Args.{updater_args}

pub data DownloadError : Type 0 where
  no_dir : DownloadError
  bad_request : DownloadError
  no_answer : DownloadError
  bad_status : ℕ → DownloadError
  not_created : DownloadError
  cut_off : DownloadError
  not_closed : DownloadError
  not_moved : DownloadError

pub record UpgradeInfo : Type 0 where
  pub need : Bool
  pub latest : Bytes
  pub body : Bytes
  pub download_url : Bytes
  pub downloading : Bool
  pub percent : ℕ
  pub done : Bool
  pub error : Option DownloadError
  pub check_error : Bytes

-- The two tests of a percentage.
abbrev pub clamp : ℤ → ℕ
clamp (negsuc n) = 0
clamp (pos n) = if ltb 100 n then 100 else n

unfoldable pub set_upgrade_progress :
    Bool → ℤ → Bool → Option DownloadError → UpgradeInfo → UpgradeInfo
set_upgrade_progress downloading percent done error info = record info {
  downloading = downloading;
  percent = clamp percent;
  done = done;
  error = error;
}

unfoldable pub set_upgrade_info : Bool → (latest body url : Bytes) → UpgradeInfo → UpgradeInfo
set_upgrade_info need latest body url info = record info {
  need = need;
  latest = latest;
  check_error = [];
  body = elim body [ [] ↦ info.body | b ∷ bs ↦ b ∷ bs ];
  download_url = elim url [ [] ↦ info.download_url | b ∷ bs ↦ b ∷ bs ];
}

unfoldable pub set_upgrade_check_error : Bytes → UpgradeInfo → UpgradeInfo
set_upgrade_check_error msg info = record info { need = false; check_error = msg }

-- `progressWriter`; `total` is the length that the server tells, or a negative number.
pub record ProgressWriter : Type 0 where
  pub total : ℤ
  pub read : ℕ
  pub last_p : ℕ
  pub last_t : ℕ

abbrev pub percent_of : ℤ → ℕ → ℕ
percent_of (negsuc n) read = 0
percent_of (pos zero) read = 0
percent_of (pos (suc n)) read = if ltb 100 (read * 100 / suc n) then 100 else read * 100 / suc n

-- 200 milliseconds, in nanoseconds.
abbrev pub progress_pause : ℕ
progress_pause = 200000000

-- `Write` of `n` bytes at a time, and whether the progress is told.
unfoldable pub write_progress : (n now : ℕ) → ProgressWriter → ProgressWriter × Bool
write_progress n now w =
    let read = w.read + n in
    let pct = percent_of w.total read in
    let tell =
      not (pct == w.last_p)
      && (leb (w.last_p + 1) pct || pct == 100 || leb progress_pause (now - w.last_t)) in
    if tell
    then (record w { read = read; last_p = pct; last_t = now }, true)
    else (record w { read = read }, false)

-- Where the goroutine of a download is.
pub data Phase : Type 0 where
  resting : Phase
  launched : Phase
  copying : ProgressWriter → Phase
  placed : Phase
  ending : Phase

-- `fetched` has the paths to which downloads have renamed their files, the last one first; `none` of `zip_path`
-- is the empty path.
pub record Loader : Type 0 where
  pub info : UpgradeInfo
  pub zip_path : Option Bytes
  pub busy : Bool
  pub phase : Phase
  pub fetched : List Bytes

pub data LoadError : Type 0 where
  no_info : LoadError
  no_package : LoadError
  downloading_now : LoadError

-- `HandleUpgradeDownload`; `url` is what `GetUpgradeInfo` has found.
unfoldable pub handle_upgrade_download : (url : Option Bytes) → Loader → Loader × Option LoadError
handle_upgrade_download none s = (s, some no_info)
handle_upgrade_download (some []) s = (s, some no_package)
handle_upgrade_download (some (b ∷ bs)) s =
    if s.busy then (s, some downloading_now) else (record s { busy = true; phase = launched }, none)

abbrev pub no_bytes : ℤ → ProgressWriter
no_bytes total = record { total = total; read = 0; last_p = 0; last_t = 0 }

-- `runDownload` in pieces: the start, with the length that the answer will tell; an error, before a
-- byte is copied or later; the bytes as they come; the path, once the file is renamed; the end; and
-- what is deferred.
unfoldable pub begin_download : (total : ℤ) → Loader → Loader
begin_download total s = record s {
  info = set_upgrade_progress true (pos 0) false none s.info;
  phase = copying (no_bytes total);
}

unfoldable pub receive : (n now : ℕ) → ProgressWriter → Loader → Loader
receive n now w s =
    let r = write_progress n now w in
    record s {
      info = if r.1 then set_upgrade_progress true (pos (r.0).last_p) false none s.info else s.info;
      phase = copying r.0;
    }

unfoldable pub fail_download : DownloadError → ProgressWriter → Loader → Loader
fail_download e w s = record s {
  info = set_upgrade_progress false (pos w.last_p) false (some e) s.info;
  phase = ending;
}

unfoldable pub place_download : (dest : Bytes) → Loader → Loader
place_download dest s = record s {
  zip_path = some dest;
  phase = placed;
  fetched = dest ∷ s.fetched;
}

unfoldable pub end_download : Loader → Loader
end_download s = record s {
  info = set_upgrade_progress false (pos 100) true none s.info;
  phase = ending;
}

unfoldable pub release_loader : Loader → Loader
release_loader s = record s { busy = false; phase = resting }

pub data ApplyError : Type 0 where
  only_windows : ApplyError
  still_loading : ApplyError
  not_loaded : ApplyError
  package_gone : ApplyError

module _ (itoa : ℕ → Bytes) (there : Bytes → Bool) (pid : ℕ) (exe : Bytes) where
  -- The tests of the path, and the arguments of the updater.
  abbrev pub updater_of : Option Bytes → Outcome ApplyError (List Bytes)
  updater_of none = err not_loaded
  updater_of (some path) =
      fail_if (not (there path)) package_gone >> ok (updater_args itoa path pid exe)

  -- `HandleUpgradeApply` up to the start of the updater: `st` is what `snapshotUpgrade` has read,
  -- and `s` is the state when the path and the mark of a download are read, later.
  unfoldable pub handle_upgrade_apply :
      (is_windows : Bool) → (st : UpgradeInfo) → Loader → Outcome ApplyError (List Bytes)
  handle_upgrade_apply is_windows st s =
      fail_if (not is_windows) only_windows
      >> (fail_if s.busy still_loading
          >> (fail_if (not st.done) not_loaded >> updater_of s.zip_path))
