-- ===== src/Proxy/Serve/Tests.antt =====
-- The theorems on the listeners at short runs.
use good_link.Base.{false, some, List, ◌≡◌, arith, true, ◌∷◌, refl, []}
use good_link.Dict.{lookup}
use good_link.Net.{to4}
use good_link.Proxy.Sessions.{UdpFwdSession, UdpClient, open_stream}
use good_link.Proxy.Header.{head}
use good_link.Proxy.Serve.{Accepted, conn, error, ServeError, serve, Datagram, serve_datagram}
use good_link.Proxy.Serve.Retries.{attended, serve-IsMild}
use good_link.Proxy.Serve.Datagrams.{serve_datagram-lookup}

abbrev busy : ServeError
busy = record { is_net = true; temporary = true; timeout = false }

abbrev accepts : List Accepted
accepts = conn 1 true ∷ error busy ∷ error busy ∷ conn 2 false ∷ error busy ∷ []

serve-IsMild_example : ((serve 0 accepts).1 ≡ false) × (attended (serve 0 accepts).0 ≡ 1 ∷ 2 ∷ [])
serve-IsMild_example =
    serve-IsMild 0 accepts (refl, omega arith, (refl, omega arith, (refl, omega arith, tt)))

abbrev client : UdpClient
client = record { sessions = []; sweeping = false; closing = [] }

abbrev query : Datagram
query = record {
  size = 40;
  tunnel_ready = true;
  key = 49 ∷ [];
  opening = record {
    tunnel_ready = true;
    opened = some 6;
    remote_ip = 10 ∷ 0 ∷ 0 ∷ 1 ∷ [];
    remote_port = 53;
    written = true;
  };
  now = 100;
  written = true;
}

serve_datagram-lookup_example :
    (s : UdpFwdSession) × ((serve_datagram query client).0 ≡ some s)
    × (lookup (49 ∷ []) (serve_datagram query client).1.sessions
        ≡ some (record s { last_used = 100 }))
unfolding open_stream to4
serve_datagram-lookup_example =
    serve_datagram-lookup query 6 (head 1 (10 ∷ 0 ∷ 0 ∷ 1 ∷ []) 53) client tt (omega arith) refl
      refl refl
