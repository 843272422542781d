-- ===== src/Retry/Tests.antt =====
-- Runs of the retry loop on an operation that follows a script.
use rust_api.Prelude.{ℕ, String, ◌≡◌, refl, ◌⊎◌, inl, inr, List, [], ◌∷◌, arith}
use rust_api.Retry.{value, retry_with_backoff, delays, retry_recovers}

abbrev script : List (ℕ ⊎ String) → (ℕ ⊎ String) × List (ℕ ⊎ String)
script [] = (inr "done", [])
script (x ∷ xs) = (x, xs)

busy_once :
    retry_with_backoff script 3 100 (inr "busy" ∷ inl 7 ∷ inl 8 ∷ [])
    ≡ (value 7, delays script 100 0 1, inl 8 ∷ [])
busy_once =
    retry_recovers script ("busy" ∷ []) 3 100 (inr "busy" ∷ inl 7 ∷ inl 8 ∷ []) (inl 7 ∷ inl 8 ∷ [])
      7 (refl, refl) refl (omega arith)
