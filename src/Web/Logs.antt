-- ===== src/Web/Logs.antt =====
-- ui2/log.go: the log keeps the newest entries.
use good_link.Base.{
  drop, ◌≤◌, inl, length-drop, ℕ, [], ltb, ◌++◌, inr, List, length, zero, Bytes, refl, suc,
  length-append, ◌≡◌, arith, ◌-◌, Bool-cases, ◌∷◌, ltb→lt, append_assoc, sym, ap, append-nil, ◌∙◌,
}
use good_link.Web.{append_limited, append_ring, max_log_entries}

-- The last entries of a list, that many at most.
abbrev pub last_entries : ℕ → List Bytes → List Bytes
last_entries limit xs = drop (length xs - limit) xs

-- Entry after entry, from a log that is given.
abbrev pub logged : List Bytes → List Bytes → List Bytes
logged entries [] = entries
logged entries (x ∷ xs) = logged (append_ring entries x) xs

drop-append : (k : ℕ) (xs ys : List Bytes) → k ≤ length xs → drop k (xs ++ ys) ≡ drop k xs ++ ys
drop-append zero xs ys h = refl
drop-append (suc k) [] ys h = absurd (omega arith)
drop-append (suc k) (x ∷ xs) ys h = drop-append k xs ys (omega arith)

drop-suc : (k : ℕ) (xs : List Bytes) → drop 1 (drop k xs) ≡ drop (suc k) xs
drop-suc zero xs = refl
drop-suc (suc k) [] = refl
drop-suc (suc k) (x ∷ xs) = drop-suc k xs

append_limited-last :
    (limit : ℕ) (xs : List Bytes) (x : Bytes)
    → append_limited limit (last_entries limit xs) x ≡ last_entries limit (xs ++ x ∷ [])
unfolding append_limited
append_limited-last limit xs x =
    let total = length-append xs (x ∷ []) in
    let kept = length-drop (length xs - limit) xs in
    let longer = length-append (drop (length xs - limit) xs) (x ∷ []) in
    elim (Bool-cases (ltb limit (length (drop (length xs - limit) xs ++ x ∷ [])))) [
      | inl full ↦
          let over = ltb→lt limit (length (drop (length xs - limit) xs ++ x ∷ [])) full in
          let one : length (drop (length xs - limit) xs ++ x ∷ []) - limit ≡ 1 =
            omega (arith, kept, longer, over) in
          let next : suc (length xs - limit) ≡ length (xs ++ x ∷ []) - limit =
            omega (arith, total, kept, longer, over) in
          rw (append_limited, full, one)
            (ap (drop 1) (sym (drop-append (length xs - limit) xs (x ∷ []) (omega arith)))
              ∙ drop-suc (length xs - limit) (xs ++ x ∷ [])
              ∙ ap (λ (n : ℕ). drop n (xs ++ x ∷ [])) next)
      | inr fits ↦
          let under : length (drop (length xs - limit) xs ++ x ∷ []) ≤ limit = ground arith in
          let none_over : length xs - limit ≡ length (xs ++ x ∷ []) - limit =
            omega (arith, total, kept, longer, under) in
          rw (append_limited, fits)
            (sym (drop-append (length xs - limit) xs (x ∷ []) (omega arith))
              ∙ ap (λ (n : ℕ). drop n (xs ++ x ∷ [])) none_over)
    ]

logged-last :
    (xs ys : List Bytes)
    → logged (last_entries max_log_entries xs) ys ≡ last_entries max_log_entries (xs ++ ys)
unfolding append_ring
logged-last xs [] = ap (last_entries max_log_entries) (sym (append-nil xs))
logged-last xs (y ∷ ys) =
    ap (λ (e : List Bytes). logged e ys) (append_limited-last max_log_entries xs y)
    ∙ logged-last (xs ++ y ∷ []) ys
    ∙ ap (last_entries max_log_entries) (append_assoc xs (y ∷ []) ys)

-- However many entries are appended to an empty log, it holds the last five hundred of them in
-- order, and all of them where they are not more.
pub logged-IsNewest : (ys : List Bytes) → logged [] ys ≡ last_entries max_log_entries ys
logged-IsNewest ys = logged-last [] ys
