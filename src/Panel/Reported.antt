-- ===== src/Panel/Reported.antt =====
-- What the child reports, read by the interface: pro/log.go against ui2/start.go.
use good_link.Base.{
  false, [], inr, none, ◌∙◌, zero, ℕ, ltb, inl, All, ◌/◌, refl, some, Bool-cases, ◌+◌, suc, ◌∷◌,
  arith, ltb→lt, Bytes, ap, ◌<◌, ◌++◌, ◌≡◌, ◌%◌, Option, true, ℤ, pos, drop,
}
use good_link.Net.{equal}
use good_link.Panel.Messages.{
  tag_status_prefix, tag_proxy_prefix, update_start_button_statue, report_proxy_addr, known_status,
  parse_proxy_message, parse_status_message, behind_prefix, after_tag,
}
use good_link.Config.Text.{trim_space, trim_left, trim_right, itoa, digits_of, is_space, contains}

abbrev IsDigit : ℕ → Type 0
IsDigit c = (47 < c) × (c < 58)

All-append : (P : ℕ → Type 0) (s t : Bytes) → All P s → All P t → All P (s ++ t)
All-append P [] t h k = k
All-append P (c ∷ s) t h k = (h.0, All-append P s t h.1 k)

digits_of-All : (fuel n : ℕ) → All IsDigit (digits_of fuel n)
unfolding digits_of
digits_of-All zero n = tt
digits_of-All (suc fuel) n = elim (Bool-cases (ltb n 10)) [
  | inl small ↦ rw (digits_of, small) ((omega arith, omega (arith, ltb→lt n 10 small)), tt)
  | inr large ↦
      rw (digits_of, large)
        (All-append IsDigit (digits_of fuel (n / 10)) ((48 + n % 10) ∷ [])
          (digits_of-All fuel (n / 10)) ((omega arith, omega arith), tt))
]

itoa-All : (n : ℕ) → All IsDigit (itoa n)
unfolding itoa
itoa-All n = digits_of-All (suc n) n

trim_left-digits : (s : Bytes) → All IsDigit s → trim_left s ≡ s
unfolding trim_left is_space
trim_left-digits [] h = refl
trim_left-digits (c ∷ s) h = let d = h.0 in ground arith

trim_right-digits : (s : Bytes) → All IsDigit s → trim_right s ≡ s
unfolding trim_right is_space
trim_right-digits [] h = refl
trim_right-digits (c ∷ s) h = let d = h.0 in ground (arith, trim_right-digits s h.1)

trim_space-itoa : (n : ℕ) → trim_space (itoa n) ≡ itoa n
unfolding trim_space
trim_space-itoa n =
    ap trim_right (trim_left-digits (itoa n) (itoa-All n)) ∙ trim_right-digits (itoa n) (itoa-All n)

contains-append :
    (c : ℕ) (s t : Bytes)
    → contains c s ≡ false
    → contains c t ≡ false
    → contains c (s ++ t) ≡ false
unfolding contains
contains-append c [] t h k = k
contains-append c (d ∷ s) t h k = ground (arith, contains-append c s t)

contains-digits : (s : Bytes) → All IsDigit s → contains b'[' s ≡ false
unfolding contains
contains-digits [] h = refl
contains-digits (c ∷ s) h = let d = h.0 in ground (arith, contains-digits s h.1)

behind_prefix_lem : (p s : Bytes) → behind_prefix p (p ++ s) ≡ some s
unfolding behind_prefix
behind_prefix_lem [] s = refl
behind_prefix_lem (b ∷ p) s = ground (arith, behind_prefix_lem p s)

after_tag-none : (b : ℕ) (p s : Bytes) → contains b s ≡ false → after_tag (b ∷ p) s ≡ none
unfolding after_tag behind_prefix contains
after_tag-none b p [] h = refl
after_tag-none b p (c ∷ s) h = ground (arith, after_tag-none b p s)

-- The tag is passed over only where its first character is met.
after_tag-stamp :
    (b : ℕ) (p stamp s : Bytes)
    → contains b stamp ≡ false
    → after_tag (b ∷ p) (stamp ++ s) ≡ after_tag (b ∷ p) s
unfolding after_tag behind_prefix contains
after_tag-stamp b p [] s h = refl
after_tag-stamp b p (c ∷ stamp) s h = ground (arith, after_tag-stamp b p stamp s)

after_tag_here : (b : ℕ) (p s : Bytes) → after_tag (b ∷ p) ((b ∷ p) ++ s) ≡ some s
unfolding after_tag
after_tag_here b p s = rw (after_tag, behind_prefix_lem (b ∷ p) s) refl

abbrev proxy_tail : Bytes
proxy_tail = drop 1 tag_proxy_prefix

abbrev status_tail : Bytes
status_tail = drop 1 tag_status_prefix

-- The tags differ behind their first characters.
tag_passed :
    (s : Bytes)
    → contains b'[' s ≡ false
    → after_tag tag_proxy_prefix (tag_status_prefix ++ s) ≡ none
unfolding after_tag behind_prefix contains
tag_passed s h = ground (arith, after_tag-none b'[' proxy_tail s)

-- The line of a status has no tag of the proxy.
status_line-no_proxy :
    (stamp : Bytes) (n : ℕ)
    → contains b'[' stamp ≡ false
    → after_tag tag_proxy_prefix (stamp ++ (tag_status_prefix ++ itoa n)) ≡ none
status_line-no_proxy stamp n h =
    let rest = contains-digits (itoa n) (itoa-All n) in
    after_tag-stamp b'[' proxy_tail stamp (tag_status_prefix ++ itoa n) h ∙ tag_passed (itoa n) rest

status_line-status :
    (stamp : Bytes) (n : ℕ)
    → contains b'[' stamp ≡ false
    → after_tag tag_status_prefix (stamp ++ (tag_status_prefix ++ itoa n)) ≡ some (itoa n)
status_line-status stamp n h =
    after_tag-stamp b'[' status_tail stamp (tag_status_prefix ++ itoa n) h
    ∙ after_tag_here b'[' status_tail (itoa n)

parse_proxy_message-none :
    (line : Bytes) → after_tag tag_proxy_prefix line ≡ none → parse_proxy_message line ≡ none
unfolding parse_proxy_message
parse_proxy_message-none line h = rw (parse_proxy_message, h) refl

parse_proxy_message-some :
    (line rest : Bytes)
    → after_tag tag_proxy_prefix line ≡ some rest
    → equal (trim_space rest) [] ≡ false
    → parse_proxy_message line ≡ some (trim_space rest)
unfolding parse_proxy_message
parse_proxy_message-some line rest h filled = rw (parse_proxy_message, h, filled) refl

module _ (split_host_port : Bytes → Option (Bytes × Bytes)) (atoi : Bytes → Option ℤ)
    (atoi-itoa : (n : ℕ) → atoi (itoa n) ≡ some (pos n)) where
  parse_status_message-some :
      (line : Bytes) (n : ℕ)
      → after_tag tag_status_prefix line ≡ some (itoa n)
      → known_status n ≡ true
      → parse_status_message split_host_port atoi line ≡ some n
  unfolding parse_status_message
  parse_status_message-some line n h fits =
      rw (parse_status_message, h, trim_space-itoa n, atoi-itoa n, fits) refl

  -- Where `strconv` reads the numbers that it prints, and the time in front of a line has no
  -- bracket: the interface reads from a line of the child the status that the child printed, or
  -- the address of the proxy, and takes no line of a status for one of the proxy.
  pub reports-AreRead :
      (stamp : Bytes)
      → contains b'[' stamp ≡ false
      → ((n : ℕ)
          → known_status n ≡ true
          → (parse_proxy_message (update_start_button_statue stamp n) ≡ none)
            × (parse_status_message split_host_port atoi (update_start_button_statue stamp n)
                ≡ some n))
        × ((addr : Bytes)
            → equal (trim_space addr) [] ≡ false
            → parse_proxy_message (report_proxy_addr stamp addr) ≡ some (trim_space addr))
  unfolding update_start_button_statue report_proxy_addr
  reports-AreRead stamp h = (
    λ n fits. (
      parse_proxy_message-none (stamp ++ (tag_status_prefix ++ itoa n))
          (status_line-no_proxy stamp n h),
      parse_status_message-some (stamp ++ (tag_status_prefix ++ itoa n)) n
          (status_line-status stamp n h) fits,
    ),
    λ addr filled.
        parse_proxy_message-some (stamp ++ (tag_proxy_prefix ++ addr)) addr
          (after_tag-stamp b'[' proxy_tail stamp (tag_proxy_prefix ++ addr) h
            ∙ after_tag_here b'[' proxy_tail addr)
          filled,
  )
