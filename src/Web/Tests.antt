-- ===== src/Web/Tests.antt =====
-- A request from this machine, and two entries of a log.
use good_link.Base.{List, none, some, Bytes, Option, ◌++◌, ◌≡◌, ◌∷◌, true, [], ◌↔◌}
use good_link.Net.{Ip, v4_in_v6_prefix}
use good_link.Web.{WebRequest, authorize, localhost, max_log_entries}
use good_link.Web.Access.{IsAllowed, authorize_iff}
use good_link.Web.Logs.{logged, last_entries, logged-IsNewest}

abbrev home_ip : Bytes → Option Ip
home_ip _ = some (v4_in_v6_prefix ++ 127 ∷ 0 ∷ 0 ∷ 1 ∷ [])

abbrev no_port : Bytes → Option (Bytes × Bytes)
no_port _ = none

abbrev visit : WebRequest
visit = record { remote_addr = 49 ∷ []; host = localhost; token = [] }

authorize_iff_example :
    (authorize home_ip no_port (7 ∷ []) visit ≡ true) ↔ IsAllowed home_ip no_port (7 ∷ []) visit
authorize_iff_example = authorize_iff home_ip no_port (7 ∷ []) visit

abbrev entries : List Bytes
entries = (1 ∷ []) ∷ (2 ∷ []) ∷ []

logged-IsNewest_example : logged [] entries ≡ last_entries max_log_entries entries
logged-IsNewest_example = logged-IsNewest entries
