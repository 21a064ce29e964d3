-- ===== src/Panel/Views.antt =====
-- ui2/state.go: what the browser is shown of a service.
use good_link.Base.{
  Option, true, ◌∷◌, ℕ, ℤ, Bytes, List, some, not, ◌++◌, Bool, false, ◌==◌, [], if◌then◌else◌,
  negsuc, pos, ap, refl, ◌∙◌, ◌≡◌, arith, sym,
}
use good_link.Config.Services.{local_proxy_allowed, UiForwardRule, tun_mode}
use good_link.Panel.Messages.{set_proxy_listen, proxy_deny_token, port_in_range}
use good_link.Panel.Edits.{mutate_service}
use good_link.Panel.Refused.{lookup-mutate_service}
use good_link.Panel.Services.{lookup_service, ServiceState, local_work}
use good_link.Net.{equal}
use good_link.Config.Text.{itoa, join_host_port, kcp_name, trim_space}
use good_link.Proxy.Header as Header

pub record ProxyInfo : Type 0 where
  pub socks : Bytes
  pub http : Bytes
  pub fallback : Bool
  pub denied : Bool

abbrev pub no_proxy : ProxyInfo
no_proxy = record { socks = []; http = []; fallback = false; denied = false }

abbrev pub socks_scheme : Bytes
socks_scheme = b's' ∷ b'o' ∷ b'c' ∷ b'k' ∷ b's' ∷ b'5' ∷ b':' ∷ b'/' ∷ b'/' ∷ []

abbrev pub http_scheme : Bytes
http_scheme = b'h' ∷ b't' ∷ b't' ∷ b'p' ∷ b':' ∷ b'/' ∷ b'/' ∷ []

unfoldable pub make_proxy_info : Bytes → ℕ → Bool → ProxyInfo
make_proxy_info host port fallback =
    let addr = join_host_port host (itoa port) in
    record {
      socks = socks_scheme ++ addr;
      http = http_scheme ++ addr;
      fallback = fallback;
      denied = false;
    }

-- The address, where there is one.
abbrev pub listening_info : Bytes → ℤ → ProxyInfo
listening_info [] port = no_proxy
listening_info (b ∷ host) (negsuc n) = no_proxy
listening_info (b ∷ host) (pos n) =
    if n == 0 then no_proxy else make_proxy_info (b ∷ host) n (not (n == Header.proxy_port))

unfoldable pub proxy_info_locked : ServiceState → ProxyInfo
proxy_info_locked s =
    if not (equal s.cfg.work_type local_work)
    then no_proxy
    else if s.proxy_denied
    then record no_proxy { denied = true }
    else listening_info s.proxy_host s.proxy_port

-- `serviceViewLocked` without the logs.
pub record ServiceView : Type 0 where
  pub id : Bytes
  pub name : Bytes
  pub work_type : Bytes
  pub tun_key : Bytes
  pub local_mode : Bytes
  pub transport : Bytes
  pub tun_ip : Bytes
  pub auto_start : Bool
  pub allow_local_proxy : Bool
  pub forward_rules : List UiForwardRule
  pub status : ℕ
  pub proxy : ProxyInfo

unfoldable pub service_view_locked : ServiceState → ServiceView
service_view_locked s = record {
  id = s.cfg.id;
  name = s.cfg.name;
  work_type = s.cfg.work_type;
  tun_key = s.cfg.tun_key;
  local_mode = if equal s.cfg.local_mode [] then tun_mode else s.cfg.local_mode;
  transport = if equal s.cfg.transport [] then kcp_name else s.cfg.transport;
  tun_ip = s.cfg.tun_ip;
  auto_start = s.cfg.auto_start;
  allow_local_proxy = local_proxy_allowed s.cfg;
  forward_rules = s.cfg.forward_rules;
  status = s.status;
  proxy = proxy_info_locked s;
}

-- The services that the browser is shown.
unfoldable pub snapshot_services : List ServiceState → List ServiceView
snapshot_services [] = []
snapshot_services (s ∷ ss) = service_view_locked s ∷ snapshot_services ss

abbrev heard : Bytes → ℕ → ServiceState → ServiceState
heard host n s = record s { proxy_host = host; proxy_port = pos n; proxy_denied = false }

-- What the browser is shown of a proxy that listens.
abbrev pub shown_at : Bytes → ℕ → ProxyInfo
shown_at addr n = record {
  socks = socks_scheme ++ addr;
  http = http_scheme ++ addr;
  fallback = not (n == Header.proxy_port);
  denied = false;
}

proxy_info_locked-heard :
    (b : ℕ) (host : Bytes) (n : ℕ) (s : ServiceState)
    → equal s.cfg.work_type local_work ≡ true
    → (n == 0) ≡ false
    → proxy_info_locked (heard (b ∷ host) n s) ≡ shown_at (join_host_port (b ∷ host) (itoa n)) n
unfolding proxy_info_locked make_proxy_info
proxy_info_locked-heard b host n s works some_port = simp (works, some_port) refl

module _ (split_host_port : Bytes → Option (Bytes × Bytes)) (atoi : Bytes → Option ℤ) where
  set_proxy_listen-heard :
      (id host addr : Bytes) (n : ℕ) (ss : List ServiceState)
      → split_host_port (join_host_port host (itoa n)) ≡ some (host, itoa n)
      → atoi (itoa n) ≡ some (pos n)
      → trim_space addr ≡ join_host_port host (itoa n)
      → equal (join_host_port host (itoa n)) proxy_deny_token ≡ false
      → port_in_range (pos n) ≡ true
      → set_proxy_listen split_host_port atoi id addr ss ≡ mutate_service id (heard host n) ss
  unfolding set_proxy_listen
  set_proxy_listen-heard id host addr n ss split read trimmed other fits =
      rw (set_proxy_listen, trimmed, other, split, read, fits) refl

  -- Where the child of a local service reports an address with a host and a port that is not 0,
  -- and `net.SplitHostPort` and `strconv.Atoi` read that address and that port back: the
  -- browser is shown the address that was reported, once for each protocol, and as a fallback
  -- exactly where the port is not the usual one.
  pub reports-AreShown :
      (id addr : Bytes) (b : ℕ) (host : Bytes) (n : ℕ) (ss : List ServiceState) (s : ServiceState)
      → split_host_port (join_host_port (b ∷ host) (itoa n)) ≡ some (b ∷ host, itoa n)
      → atoi (itoa n) ≡ some (pos n)
      → lookup_service id ss ≡ some s
      → equal s.cfg.work_type local_work ≡ true
      → trim_space addr ≡ join_host_port (b ∷ host) (itoa n)
      → equal (join_host_port (b ∷ host) (itoa n)) proxy_deny_token ≡ false
      → port_in_range (pos n) ≡ true
      → (t : ServiceState) × (lookup_service id (set_proxy_listen split_host_port atoi id addr ss)
          ≡ some t)
        × ((service_view_locked t).proxy ≡ shown_at (trim_space addr) n)
  unfolding service_view_locked
  reports-AreShown id addr b host n ss s split read there works trimmed other fits =
      let set = set_proxy_listen-heard id (b ∷ host) addr n ss split read trimmed other fits in
      let some_port : (n == 0) ≡ false = ground arith in
      (
        heard (b ∷ host) n s,
        ap (lookup_service id) set ∙ lookup-mutate_service id (heard (b ∷ host) n) ss there refl,
        proxy_info_locked-heard b host n s works some_port
            ∙ ap (λ (a : Bytes). shown_at a n) (sym trimmed),
      )
