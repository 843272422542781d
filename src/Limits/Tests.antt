-- ===== src/Limits/Tests.antt =====
-- limits.rs: a limiter whose numbers are whole.
use rust_api.Limits.Bounded.{calls-IsBounded, calls}
use rust_api.Limits.Spared.{take-spares, IsColdest}
use rust_api.Prelude.{
  leb, ◌==◌, ltb, if◌then◌else◌, eq_iff, ◌-◌, ◌+◌, ◌^◌, ◌≤◌, ◌/◌, ◌*◌, String, ℕ, length, none,
  List, ◌⊎◌, [], ◌∷◌, ◌≡◌,
}
use rust_api.Prelude.Maps.{lookup}
use rust_api.Limits.{TokenBucket, Floating, max_tracked_peers, take, new}

whole : Floating ℕ
whole = record {
  from_u32 = λ n. n;
  as_secs = λ n. n / 10 ^ 9;
  add = λ a b. a + b;
  sub = λ a b. a - b;
  mul = λ a b. a * b;
  div = λ a b. a / b;
  min = λ a b. if ltb b a then b else a;
  is_eq = λ a b. a == b;
  is_ge = λ a b. leb b a;
}

abbrev requests : List (String × ℕ × ℕ)
requests = ("a", 0, 1) ∷ ("b", 2, 3) ∷ ("a", 700 * 10 ^ 9, 700 * 10 ^ 9) ∷ []

calls-IsBounded_example : length (calls whole requests (new whole 3 60)).buckets ≤ 4096
unfolding max_tracked_peers
calls-IsBounded_example = calls-IsBounded whole 3 60 requests

abbrev one_peer : TokenBucket ℕ
one_peer = calls whole (("a", 0, 1) ∷ []) (new whole 3 60)

take-spares_example :
    (lookup "a" (take whole "b" 5 one_peer).1.buckets ≡ lookup "a" one_peer.buckets)
    ⊎ ((lookup "b" one_peer.buckets ≡ none)
        × (lookup "a" (take whole "b" 5 one_peer).1.buckets ≡ none)
        × IsColdest "a" one_peer.buckets)
take-spares_example =
    take-spares whole "b" "a" 5 one_peer (calls-IsBounded whole 3 60 (("a", 0, 1) ∷ []))
      (λ h. absurd (cc ((eq_iff "b" "a").1 h)))
