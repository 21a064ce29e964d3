-- ===== src/Upgrade/Loads.antt =====
-- ui2/upgrade.go: the download and the handlers in any order; the update that `HandleUpgradeApply`
-- starts.
use good_link.Base.{Option, ◌∷◌, none, false, [], ℕ, List, some, Bytes, Bool, ◌≡◌, true, ℤ}
use good_link.Upgrade.Download.{
  UpgradeInfo, DownloadError, ProgressWriter, Phase, resting, launched, copying, placed, ending,
  Loader, set_upgrade_info, set_upgrade_check_error, handle_upgrade_download, begin_download,
  receive, fail_download, place_download, end_download, release_loader,
}

abbrev pub no_upgrade : UpgradeInfo
no_upgrade = record {
  need = false;
  latest = [];
  body = [];
  download_url = [];
  downloading = false;
  percent = 0;
  done = false;
  error = none;
  check_error = [];
}

abbrev pub nothing_loaded : Loader
nothing_loaded = record {
  info = no_upgrade;
  zip_path = none;
  busy = false;
  phase = resting;
  fetched = [];
}

-- One handler, or one piece of the goroutine.
pub data LoaderStep : Loader → Loader → Type 0 where
  asks : (s : Loader) (url : Option Bytes) → LoaderStep s (handle_upgrade_download url s).0
  begins : (s : Loader) (total : ℤ) → s.phase ≡ launched → LoaderStep s (begin_download total s)
  receives :
      (s : Loader) (w : ProgressWriter) (n now : ℕ)
      → s.phase ≡ copying w
      → LoaderStep s (receive n now w s)
  fails :
      (s : Loader) (w : ProgressWriter) (e : DownloadError)
      → s.phase ≡ copying w
      → LoaderStep s (fail_download e w s)
  places :
      (s : Loader) (w : ProgressWriter) (dest : Bytes)
      → s.phase ≡ copying w
      → LoaderStep s (place_download dest s)
  ends : (s : Loader) → s.phase ≡ placed → LoaderStep s (end_download s)
  releases : (s : Loader) → s.phase ≡ ending → LoaderStep s (release_loader s)
  finds :
      (s : Loader) (need : Bool) (latest body url : Bytes)
      → LoaderStep s (record s { info = set_upgrade_info need latest body url s.info })
  misses :
      (s : Loader) (msg : Bytes)
      → LoaderStep s (record s { info = set_upgrade_check_error msg s.info })

pub data LoaderReach : Loader → Type 0 where
  start : LoaderReach nothing_loaded
  next : {s t : Loader} → LoaderReach s → LoaderStep s t → LoaderReach t

-- The steps from one state on.
pub data LoaderRun (s : Loader) : Loader → Type 0 where
  rest : LoaderRun s s
  goes : {t u : Loader} → LoaderRun s t → LoaderStep t u → LoaderRun s u

-- Where the download is shown as done, it is shown whole.
abbrev IsKept : Loader → Type 0
IsKept s = s.info.done ≡ true → s.info.percent ≡ 100

-- The path is that of the last file.
abbrev IsLast : Option Bytes → List Bytes → Type 0
IsLast none ps = ps ≡ []
IsLast (some p) [] = ⊥
IsLast (some p) (q ∷ qs) = p ≡ q

abbrev InPhase : Phase → Loader → Type 0
InPhase resting s = (s.busy ≡ false) × IsKept s
InPhase launched s = (s.busy ≡ true) × IsKept s
InPhase (copying w) s = (s.busy ≡ true) × (s.info.done ≡ false)
InPhase placed s = (s.busy ≡ true) × (s.info.done ≡ false)
InPhase ending s = (s.busy ≡ true) × IsKept s
