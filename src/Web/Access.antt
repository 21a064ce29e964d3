-- ===== src/Web/Access.antt =====
-- ui2/server.go: `authorize` against what it promises.
use good_link.Base.{
  ◌≢◌, true, [], ◌↔◌, Bytes, ◌≡◌, Option, arith, ◌⊎◌, none, ◌∷◌, inl, ==_iff, ap, Bool-cases, some,
  Option-cases, ◌∙◌, refl, inr,
}
use good_link.Net.{Ip, equal, equal_iff, to4, ip_equal}
use good_link.Config.Text.{trim_space, to_lower}
use good_link.Web.{
  starts_127, is_loopback, ipv6_loopback, localhost, WebRequest, loopback_text, host_of,
  is_local_host_header, authorize,
}

module _ (parse_ip : Bytes → Option Ip) (split_host_port : Bytes → Option (Bytes × Bytes)) where
  -- A text that is an address of this machine: 127.x.x.x, or ::1.
  abbrev IsLoopback : Bytes → Type 0
  IsLoopback s =
      (ip : Ip) × (parse_ip s ≡ some ip)
      × (((rest : Bytes) × (to4 ip ≡ some (127 ∷ rest)))
          ⊎ ((to4 ip ≡ none) × (ip_equal ip ipv6_loopback ≡ true)))

  -- The host of an address is what is before its port, or all of it where there is no port.
  abbrev IsHostOf : (addr host : Bytes) → Type 0
  IsHostOf addr host =
      ((port : Bytes) × (split_host_port addr ≡ some (host, port)))
      ⊎ ((split_host_port addr ≡ none) × (host ≡ addr))

  abbrev IsNearby : WebRequest → Type 0
  IsNearby r = (host : Bytes) × IsHostOf r.remote_addr host × IsLoopback host

  abbrev IsNamed : WebRequest → Type 0
  IsNamed r =
      (host : Bytes) × IsHostOf r.host host
      × ((to_lower (trim_space host) ≡ localhost) ⊎ IsLoopback (to_lower (trim_space host)))

  -- From this machine, under a name of this machine; or from elsewhere, with the token that is set.
  abbrev pub IsAllowed : Bytes → WebRequest → Type 0
  IsAllowed ui_token r =
      (IsNearby r × IsNamed r) ⊎ ((¬ IsNearby r) × (ui_token ≢ []) × (r.token ≡ ui_token))

  host_of-IsHostOf : (addr : Bytes) → IsHostOf addr (host_of parse_ip split_host_port addr)
  unfolding host_of
  host_of-IsHostOf addr = elim (Option-cases (split_host_port addr)) [
    | inl whole ↦ inr (whole, simp (host_of, whole) refl)
    | inr ((host, port), e) ↦ inl (port, simp (host_of, e) refl)
  ]

  IsHostOf-host_of :
      (addr host : Bytes) → IsHostOf addr host → host ≡ host_of parse_ip split_host_port addr
  unfolding host_of
  IsHostOf-host_of addr host (inl (port, e)) = simp (host_of, e) refl
  IsHostOf-host_of addr host (inr (whole, same)) = simp (host_of, whole) same

  starts_127_iff : (ip : Ip) → starts_127 ip ≡ true → (rest : Bytes) × (ip ≡ 127 ∷ rest)
  starts_127_iff [] h = absurd (cc h)
  starts_127_iff (b ∷ rest) h = (rest, ap (λ x. x ∷ rest) ((==_iff b 127).0 h))

  loopback_text-IsLoopback :
      (s : Bytes) → loopback_text parse_ip split_host_port s ≡ true → IsLoopback s
  unfolding loopback_text is_loopback
  loopback_text-IsLoopback s h = elim (Option-cases (parse_ip s)) [
    | inl bad ↦ absurd (cc (simp (loopback_text, bad) at h))
    | inr (ip, e) ↦ elim (Option-cases (to4 ip)) [
      | inl long ↦ (ip, e, inr (long, simp (loopback_text, is_loopback, e, long) at h))
      | inr (ip4, short) ↦
          let (rest, is) = starts_127_iff ip4 (simp (loopback_text, is_loopback, e, short) at h) in
          (ip, e, inl (rest, short ∙ ap some is))
    ]
  ]

  IsLoopback-loopback_text :
      (s : Bytes) → IsLoopback s → loopback_text parse_ip split_host_port s ≡ true
  unfolding loopback_text is_loopback
  IsLoopback-loopback_text s (ip, e, inl (rest, short)) =
      simp (loopback_text, is_loopback, e, short) refl
  IsLoopback-loopback_text s (ip, e, inr (long, same)) =
      simp (loopback_text, is_loopback, e, long) same

  loopback_text-IsNearby :
      (r : WebRequest)
      → (loopback_text parse_ip split_host_port (host_of parse_ip split_host_port r.remote_addr)
          ≡ true)
        ↔ IsNearby r
  loopback_text-IsNearby r = (
    λ h. (
      host_of parse_ip split_host_port r.remote_addr,
      host_of-IsHostOf r.remote_addr,
      loopback_text-IsLoopback _ h,
    ),
    λ (host, is_host, near).
        rw (IsHostOf-host_of r.remote_addr host is_host) at (IsLoopback-loopback_text host near),
  )

  IsNamed-is_local_host_header :
      (r : WebRequest) (given : Bytes)
      → given ≡ host_of parse_ip split_host_port r.host
      → (to_lower (trim_space given) ≡ localhost) ⊎ IsLoopback (to_lower (trim_space given))
      → is_local_host_header parse_ip split_host_port r.host ≡ true
  unfolding is_local_host_header
  IsNamed-is_local_host_header r given e named =
      let h = to_lower (trim_space (host_of parse_ip split_host_port r.host)) in
      elim (Bool-cases (equal h localhost)) [
        | inl same ↦ simp (is_local_host_header, same) refl
        | inr other ↦ elim (rw e at named) [
          | inl same ↦ absurd (ground (arith, equal_iff h localhost, same, other))
          | inr near ↦ simp (is_local_host_header, other) (IsLoopback-loopback_text h near)
        ]
      ]

  is_local_host_header-IsNamed :
      (r : WebRequest) → (is_local_host_header parse_ip split_host_port r.host ≡ true) ↔ IsNamed r
  unfolding is_local_host_header
  is_local_host_header-IsNamed r =
      let host = host_of parse_ip split_host_port r.host in
      let h = to_lower (trim_space host) in
      (
        λ local. (
          host,
          host_of-IsHostOf r.host,
          elim (Bool-cases (equal h localhost)) [
            | inl same ↦ inl ((equal_iff h localhost).0 same)
            | inr other ↦
                inr (loopback_text-IsLoopback h (simp (is_local_host_header, other) at local))
          ],
        ),
        λ (given, is_host, named).
            IsNamed-is_local_host_header r given (IsHostOf-host_of r.host given is_host) named,
      )

  -- A request is let through exactly where the host of its address reads as 127.x.x.x or ::1
  -- and the host of its host header, trimmed and lowered, is localhost or reads as such an
  -- address; or where the host of its address does not read so, and it has the token that is
  -- set, which is not empty.
  pub authorize_iff :
      (ui_token : Bytes) (r : WebRequest)
      → (authorize parse_ip split_host_port ui_token r ≡ true) ↔ IsAllowed ui_token r
  unfolding authorize
  authorize_iff ui_token r = ground (
    arith,
    equal_iff ui_token [],
    equal_iff r.token ui_token,
    loopback_text-IsNearby r,
    is_local_host_header-IsNamed r,
  )
