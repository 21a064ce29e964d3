-- ===== src/Stun/Exchange.antt =====
-- A request, the server's handler, and the client's reading of the answer.
use good_link.Base.{
  ◌⊎◌, ◌>>=◌, some, ◌<◌, Bytes, ok, ℕ, take, length, none, false, slice, ◌≡◌, drop, take-length, [],
  >>=-eq-ok, refl, ◌∷◌, arith, ◌∙◌,
}
use good_link.Wire.{uint16}
use good_link.Net.{UdpAddr, to4, equal}
use good_link.Stun.Message.{build_binding_response, magic_cookie_bytes}
use good_link.Stun.Client.{get_stun_ip_port2, binding_request}
use good_link.Stun.RoundTrip.{changed_ipv4, get_stun_ip_port2-build_binding_response}
use good_link.Stun.Server.{StunServer, track, handle_stun_request, handle_packet}

-- The handler on a client's request: it answers, and notes the request in the table.
handle_packet-binding_request :
    (s : StunServer) (port : ℕ) (remote : UdpAddr) (tid changed : Bytes) (now : ℕ)
    → length tid ≡ 12
    → handle_packet s port remote (binding_request tid) changed now ≡ (do
      response ← build_binding_response remote tid changed
      ok (record {
        server = (track s port remote tid now).0;
        nat = (track s port remote tid now).1;
        reply = some response;
      }))
unfolding handle_packet handle_stun_request slice uint16 equal
handle_packet-binding_request s port remote tid changed now size =
    let whole = rw size at (take-length tid) in rw size (rw whole)

-- A packet that is too short, or that lacks the magic cookie, changes nothing and gets no answer.
handle_packet_ignored :
    (s : StunServer) (port : ℕ) (remote : UdpAddr) (packet changed : Bytes) (now : ℕ)
    → (length packet < 20) ⊎ (equal (take 4 (drop 4 packet)) magic_cookie_bytes ≡ false)
    → handle_packet s port remote packet changed now
      ≡ ok (record { server = s; nat = none; reply = none })
unfolding handle_packet handle_stun_request slice uint16
handle_packet_ignored s port remote [] changed now h = refl
handle_packet_ignored s port remote (a ∷ []) changed now h = refl
handle_packet_ignored s port remote (a ∷ b ∷ packet) changed now h = ground arith

-- A client behind an IPv4 address sends a request, and the server handles it: there is an answer,
-- the client reads from it the address and the port that the server saw and the changed address
-- that the server wrote, and the server has noted the request.
pub exchange :
    (s : StunServer) (port : ℕ) (remote : UdpAddr) (ip4 tid change_ip : Bytes) (change_port now : ℕ)
    → to4 remote.ip ≡ some ip4
    → remote.port < 65536
    → length tid ≡ 12
    → length change_ip ≡ 4
    → change_port < 65536
    → (response : Bytes) × (handle_packet s port remote
          (binding_request tid)
          (changed_ipv4 change_port change_ip)
          now
        ≡ ok (record {
          server = (track s port remote tid now).0;
          nat = (track s port remote tid now).1;
          reply = some response;
        }))
      × (get_stun_ip_port2 (binding_request tid) response magic_cookie_bytes tid
          ≡ ok (record {
            wan_ip = ip4;
            wan_port = remote.port;
            change_ip = change_ip;
            change_port = change_port;
          }))
exchange s port remote ip4 tid cip cp now is4 short size csize cshort =
    let changed = changed_ipv4 cp cip in
    let (response, built, read) =
      >>=-eq-ok (build_binding_response remote tid changed)
        (λ m. get_stun_ip_port2 (binding_request tid) m magic_cookie_bytes tid)
        (get_stun_ip_port2-build_binding_response remote ip4 tid cip cp is4 short size csize
          cshort) in
    (
      response,
      handle_packet-binding_request s port remote tid changed now size ∙ rw built refl,
      read,
    )
