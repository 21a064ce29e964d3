-- ===== src/Proxy/Serve/Retries.antt =====
-- How long `Serve` goes on through errors.
use good_link.Base.{false, ◌≤◌, List, ◌∷◌, ◌<◌, [], ℕ, ◌≡◌, All, true, ap, refl, suc, arith}
use good_link.Proxy.Serve.{
  retry_serve_error, serve_backoff, Accepted, conn, error, Served, sleep, handle, reject, serve,
  max_serve_failures, serve_retry_base, serve_retry_max,
}

-- The connections that came, and those that were handled or rejected.
abbrev pub arrived : List Accepted → List ℕ
arrived [] = []
arrived (conn c _ ∷ rest) = c ∷ arrived rest
arrived (error _ ∷ rest) = arrived rest

abbrev pub attended : List Served → List ℕ
attended [] = []
attended (sleep _ ∷ rest) = attended rest
attended (handle c ∷ rest) = c ∷ attended rest
attended (reject c ∷ rest) = c ∷ attended rest

-- Each error can be retried, and no more than ten stand in a row; `n` came just before.
abbrev pub IsMild : ℕ → List Accepted → Type 0
IsMild n [] = Unit
IsMild n (conn _ _ ∷ rest) = IsMild 0 rest
IsMild n (error e ∷ rest) =
    (retry_serve_error e ≡ true) × (suc n ≤ max_serve_failures) × IsMild (suc n) rest

-- Errors that can be retried, no more than ten in a row, do not stop the loop, and each
-- connection that came is handled or rejected, in order.
pub serve-IsMild :
    (n : ℕ) (xs : List Accepted)
    → IsMild n xs
    → ((serve n xs).1 ≡ false) × (attended (serve n xs).0 ≡ arrived xs)
unfolding serve
serve-IsMild n [] h = (refl, refl)
serve-IsMild n (conn c true ∷ rest) h =
    let (on, all) = serve-IsMild 0 rest h in (on, ap (◌∷◌ c) all)
serve-IsMild n (conn c false ∷ rest) h =
    let (on, all) = serve-IsMild 0 rest h in (on, ap (◌∷◌ c) all)
serve-IsMild n (error e ∷ rest) h = let (on, all) = serve-IsMild (suc n) rest h.2 in ground arith

-- As long as the loop has not returned, that is what it has met: a permanent error, or the
-- eleventh in a row, stops it.
serve_stopped : (n : ℕ) (xs : List Accepted) → (serve n xs).1 ≡ false → IsMild n xs
unfolding serve
serve_stopped n [] h = tt
serve_stopped n (conn c ready ∷ rest) h = serve_stopped 0 rest h
serve_stopped n (error e ∷ rest) h = ground (arith, serve_stopped (suc n) rest)

abbrev pub IsBounded : Served → Type 0
IsBounded (sleep d) = (serve_retry_base ≤ d) × (d ≤ serve_retry_max)
IsBounded (handle _) = Unit
IsBounded (reject _) = Unit

serve_backoff_lem : (n : ℕ) → 0 < n → n ≤ max_serve_failures → IsBounded (sleep (serve_backoff n))
serve_backoff_lem n l h = ground arith

-- Between two tries the loop waits 50 milliseconds at least and a second at most.
serve-IsBounded : (n : ℕ) (xs : List Accepted) → All IsBounded (serve n xs).0
unfolding serve
serve-IsBounded n [] = tt
serve-IsBounded n (conn c true ∷ rest) = (tt, serve-IsBounded 0 rest)
serve-IsBounded n (conn c false ∷ rest) = (tt, serve-IsBounded 0 rest)
serve-IsBounded n (error e ∷ rest) =
    ground (arith, serve-IsBounded (suc n) rest, serve_backoff_lem (suc n))
