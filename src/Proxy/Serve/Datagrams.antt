-- ===== src/Proxy/Serve/Datagrams.antt =====
-- What becomes of one datagram, and that the sessions stay sound.
use good_link.Proxy.Sessions.Touch.{lookup-touch}
use good_link.Base.{
  Bytes, ℕ, some, ◌∙◌, inl, refl, inr, ◌≡◌, true, arith, false, Option-cases, ◌==◌, ◌<◌,
}
use good_link.Dict.{lookup, lookup-put}
use good_link.Net.{equal_iff}
use good_link.Proxy.Sessions.{UdpFwdSession, UdpClient, Opening, session, open_stream, store}
use good_link.Proxy.Sessions.Table.{IsKeyed, admit-cases}
use good_link.Proxy.Serve.{Datagram, new_session, serve_datagram, admit}

lookup-store :
    (k : Bytes) (s : UdpFwdSession) (p : UdpClient) → lookup k (store k s p).sessions ≡ some s
unfolding store
lookup-store k s p = lookup-put k k s p.sessions ∙ rw ((equal_iff k k).1 refl) refl

-- Where the stream opens, `newSession` returns the session that the table then has for the client.
new_session-lookup :
    (k : Bytes) (o : Opening) (now stream : ℕ) (bytes : Bytes) (p : UdpClient)
    → IsKeyed p.sessions
    → open_stream o ≡ session stream bytes
    → (s : UdpFwdSession) × ((new_session k o now p).0 ≡ some s)
      × (lookup k (new_session k o now p).1.sessions ≡ some s)
unfolding new_session
new_session-lookup k o now stream bytes p h r =
    let fresh : UdpFwdSession = record { stream = stream; created_at = now; last_used = now } in
    elim (admit-cases k fresh p h) [
      | inl (w, there, a) ↦ (w, rw (new_session, r, a) refl, rw (new_session, r, a) (rw a there))
      | inr (inl (absent, room, a)) ↦ (
        fresh,
        rw (new_session, r, a) refl,
        rw (new_session, r, a) (rw a (lookup-store k fresh p)),
      )
      | inr (inr (absent, j, v, here, oldest, a)) ↦ (
        fresh,
        rw (new_session, r, a) refl,
        rw (new_session, r, a) (lookup-store k fresh (admit k fresh p).0),
      )
    ]

-- A datagram with bytes in it, from any client, with the tunnel ready, a stream that opens and a
-- write that succeeds: it is written to the session that the table then has for that client, with
-- the time of the write noted.
pub serve_datagram-lookup :
    (d : Datagram) (stream : ℕ) (bytes : Bytes) (p : UdpClient)
    → IsKeyed p.sessions
    → 0 < d.size
    → d.tunnel_ready ≡ true
    → open_stream d.opening ≡ session stream bytes
    → d.written ≡ true
    → (s : UdpFwdSession) × ((serve_datagram d p).0 ≡ some s)
      × (lookup d.key (serve_datagram d p).1.sessions ≡ some (record s { last_used = d.now }))
unfolding serve_datagram
serve_datagram-lookup d stream bytes p h big ready opens sent =
    let full : (d.size == 0) ≡ false = ground arith in
    elim (Option-cases (lookup d.key p.sessions)) [
      | inr (s, there) ↦ (
        s,
        rw (serve_datagram, full, ready, there) refl,
        rw (serve_datagram, full, ready, there)
            (rw sent (lookup-touch d.key d.now s p.sessions there)),
      )
      | inl absent ↦
          let (s, made, found) = new_session-lookup d.key d.opening d.now stream bytes p h opens in
          (
            s,
            rw (serve_datagram, full, ready, absent) (rw made refl),
            rw (serve_datagram, full, ready, absent)
                (rw made (
                  rw sent (
                    lookup-touch d.key d.now s (new_session d.key d.opening d.now p).1.sessions
                      found))),
          )
    ]
