-- ===== src/Proxy/Manager.antt =====
-- proxy/forward_mgr.go: `ForwardManager`, which keeps one listener for each forward rule. A runner
-- is known by a number, given when it is made; `live` has the runners that are not closed.
pub mod Builtin
pub mod Steps
pub mod Quic
pub mod Owned
pub mod Keys
pub mod Wanted
pub mod Reached
mod Tests
use good_link.Base.{
  ltb, Bool, suc, true, not, ◌+◌, ℕ, Option, [], ◌∷◌, ◌++◌, ◌/◌, ◌%◌, List, ◌||◌, Bytes, none,
  if◌then◌else◌, some, ◌==◌, false,
}
use good_link.Dict.{Dict, lookup, put}
use good_link.Net.{Ip, equal, ip_equal}

pub record ForwardRule : Type 0 where
  pub listen_addr : Bytes
  pub remote_ip : Ip
  pub remote_port : ℕ
  pub proto : ℕ

pub record Runner : Type 0 where
  pub id : ℕ
  pub remote_ip : Ip
  pub remote_port : ℕ
  pub quic : Option ℕ
  pub failed : Bool

pub record ForwardEntry : Type 0 where
  pub key : Bytes
  pub rule : ForwardRule
  pub runner : Runner

pub record Listeners : Type 0 where
  pub tried : ℕ
  pub live : List ℕ

pub record ForwardManager : Type 0 where
  pub entries : List ForwardEntry
  pub builtin : Option Runner
  pub quic : Option ℕ
  pub closed : Bool
  pub listeners : Listeners

-- `%d` of a byte.
abbrev decimal : ℕ → Bytes
decimal n =
    if ltb n 10
    then (48 + n) ∷ []
    else if ltb n 100
    then (48 + n / 10) ∷ (48 + n % 10) ∷ []
    else (48 + n / 100) ∷ (48 + n / 10 % 10) ∷ (48 + n % 10) ∷ []

unfoldable pub listen_key : ForwardRule → Bytes
listen_key rule = decimal rule.proto ++ 124 ∷ rule.listen_addr

-- The loop that fills `wanted`: of two rules with one key the later one stands.
unfoldable pub wanted_from : Dict ForwardRule → List ForwardRule → Dict ForwardRule
unfolding put listen_key
wanted_from m [] = m
wanted_from m (rule ∷ rules) = wanted_from (put (listen_key rule) rule m) rules

abbrev pub remove : ℕ → List ℕ → List ℕ
remove n [] = []
remove n (m ∷ ms) = let rest = remove n ms in if m == n then rest else m ∷ rest

abbrev pub close_runner : ℕ → Listeners → Listeners
close_runner id l = record l { live = remove id l.live }

-- `existing[key]`
unfoldable pub has_key : Bytes → List ForwardEntry → Bool
unfolding equal
has_key k [] = false
has_key k (e ∷ es) = let rest = has_key k es in if equal e.key k then true else rest

-- The target of a kept entry.
unfoldable pub retarget : ForwardRule → ForwardEntry → ForwardEntry
unfolding ip_equal
retarget rule e =
    if not (e.rule.remote_port == rule.remote_port)
      || not (ip_equal e.rule.remote_ip rule.remote_ip)
    then record e {
      rule = rule;
      runner = record (e.runner) { remote_ip = rule.remote_ip; remote_port = rule.remote_port };
    }
    else e

abbrev pub close_entries : List ForwardEntry → Listeners → Listeners
close_entries [] l = l
close_entries (e ∷ es) l = close_entries es (close_runner e.runner.id l)

-- `listens n rule`: whether the n-th listener that is asked for can be opened.
module _ (listens : ℕ → ForwardRule → Bool) where
  -- `newForwardRunner`, and `SetQuicConn` where there is a tunnel.
  unfoldable pub new_runner : ForwardRule → Option ℕ → Listeners → Option Runner × Listeners
  new_runner rule quic l =
      if listens l.tried rule
      then (
        some (record {
          id = l.tried;
          remote_ip = rule.remote_ip;
          remote_port = rule.remote_port;
          quic = elim quic [ none ↦ none | some c ↦ some c ];
          failed = false;
        }),
        record { tried = suc l.tried; live = l.tried ∷ l.live },
      )
      else (none, record l { tried = suc l.tried })

  -- The first loop of `Apply`: what is not wanted any more is closed.
  unfoldable pub close_unwanted : Dict ForwardRule → List ForwardEntry → Listeners → Listeners
  unfolding lookup
  close_unwanted wanted [] l = l
  close_unwanted wanted (e ∷ es) l =
      close_unwanted wanted es
        (elim (lookup e.key wanted) [ none ↦ close_runner e.runner.id l | some _ ↦ l ])

  -- The body of the second loop on a wanted entry.
  unfoldable pub keep_entry :
      Option ℕ → ForwardRule → ForwardEntry → Listeners → Option ForwardEntry × Listeners
  keep_entry quic rule e l =
      if e.runner.failed
      then (let (made, l') = new_runner rule quic (close_runner e.runner.id l) in
          (
            elim made [
              | none ↦ none
              | some runner ↦ some (record { key = e.key; rule = rule; runner = runner })
            ],
            l',
          ))
      else (some (retarget rule e), l)

  -- The second loop.
  unfoldable pub keep_entries :
      Dict ForwardRule → Option ℕ → List ForwardEntry → Listeners → List ForwardEntry × Listeners
  keep_entries wanted quic [] l = ([], l)
  keep_entries wanted quic (e ∷ es) l = elim (lookup e.key wanted) [
    | none ↦ keep_entries wanted quic es l
    | some rule ↦
        let (kept, l') = keep_entry quic rule e l in
        let (next, l'') = keep_entries wanted quic es l' in
        (elim kept [ none ↦ next | some k ↦ k ∷ next ], l'')
  ]

  -- The third loop, with what it has created. `false` stands for the error.
  unfoldable pub create_new :
      List ForwardEntry
      → Option ℕ
      → List (Bytes × ForwardRule)
      → List ForwardEntry
      → Listeners
      → Bool × List ForwardEntry × Listeners
  create_new existing quic [] created l = (true, created, l)
  create_new existing quic ((key, rule) ∷ wanted) created l =
      let skip = create_new existing quic wanted created l in
      let (made, l') = new_runner rule quic l in
      if has_key key existing then skip else elim made [
        | none ↦ (false, [], close_entries created l')
        | some runner ↦
            create_new existing quic wanted
              (created ++ record { key = key; rule = rule; runner = runner } ∷ []) l'
      ]

  -- `Apply`, and whether it returned nil.
  unfoldable pub apply : List ForwardRule → ForwardManager → Bool × ForwardManager
  apply rules m =
      if m.closed
      then (true, m)
      else (let wanted = wanted_from [] rules in
          let l = close_unwanted wanted m.entries m.listeners in
          let (kept, l') = keep_entries wanted m.quic m.entries l in
          let (fine, created, l'') = create_new m.entries m.quic wanted [] l' in
          (fine, record m { entries = kept ++ created; listeners = l'' }))

-- `setRunnerQuic`: `SetQuicConn`, or `ClearQuicConn` on nil.
abbrev pub set_runner_quic : Option ℕ → Runner → Runner
set_runner_quic none r = record r { quic = none }
set_runner_quic (some c) r = record r { quic = some c }

abbrev pub set_entries_quic : Option ℕ → List ForwardEntry → List ForwardEntry
set_entries_quic conn [] = []
set_entries_quic conn (e ∷ es) =
    record e { runner = set_runner_quic conn e.runner } ∷ set_entries_quic conn es

unfoldable pub set_quic : Option ℕ → ForwardManager → ForwardManager
set_quic conn m = if m.closed then m else record m {
  quic = conn;
  builtin = elim m.builtin [ none ↦ none | some r ↦ some (set_runner_quic conn r) ];
  entries = set_entries_quic conn m.entries;
}

unfoldable pub stop_builtin_proxy : ForwardManager → ForwardManager
stop_builtin_proxy m = elim m.builtin [
  | none ↦ m
  | some r ↦ record m { builtin = none; listeners = close_runner r.id m.listeners }
]

unfoldable pub close_manager : ForwardManager → ForwardManager
close_manager m =
    let l : Listeners = elim m.builtin [
      | none ↦ m.listeners
      | some r ↦ close_runner r.id m.listeners
    ] in
    record {
      entries = [];
      builtin = none;
      quic = none;
      closed = true;
      listeners = close_entries m.entries l;
    }
