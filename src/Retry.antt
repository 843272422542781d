-- ===== src/Retry.antt =====
-- retry.rs: calling something that may fail a bounded number of times, with growing delays.
mod Tests
use rust_api.Prelude.{
  ℕ, zero, suc, ◌+◌, ◌-◌, ◌*◌, ◌/◌, ◌%◌, ◌^◌, ◌≤◌, ◌<◌, String, ◌≡◌, refl, sym, ap, ◌∙◌, subst, ◌≢◌,
  ◌↔◌, ◌⊎◌, inl, inr, Bool, true, false, not, ◌&&◌, ◌||◌, Option, none, some, List, [], ◌∷◌, ◌++◌,
  map, arith, str_eq, eq_iff, ltb, leb, ◌==◌, if◌then◌else◌, Bool-cases, Option-cases, length, take,
  All, count, ℤ, pos, negsuc, ltb_ℤ, leb_ℤ, ◌≤ℤ◌, ◌<ℤ◌, ◌-ℤ◌,
}

-- `Duration::MAX` in nanoseconds.
abbrev duration_max : ℕ
duration_max = 18446744073709551615999999999

-- `Duration::saturating_mul`.
saturating_mul : ℕ → ℕ → ℕ
saturating_mul d n = if leb (d * n) duration_max then d * n else duration_max

-- The exponent stops at 31.
pub delay : ℕ → ℕ → ℕ
unfolding saturating_mul
delay base_delay attempt = saturating_mul base_delay (2 ^ (if leb attempt 31 then attempt else 31))

-- What the loop comes to; without an attempt it panics.
pub data Outcome (T E : Type 0) : Type 0 where
  value : T → Outcome T E
  failure : E → Outcome T E
  panics : Outcome T E

-- `call` is the operation that is tried: each call answers a value or an error.
module _ {S T E : Type 0} (call : S → (T ⊎ E) × S) where
  last_error : Option E → Outcome T E
  last_error none = panics
  last_error (some e) = failure e

  -- The delay after a failed attempt, if another one follows.
  sleep : ℕ → ℕ → ℕ → List ℕ → List ℕ
  unfolding delay
  sleep attempts base_delay attempt later =
      if ltb (attempt + 1) attempts then delay base_delay attempt ∷ later else later

  -- The loop from an attempt on, with the number of attempts left: its outcome, the delays slept and
  -- the state in the end.
  attempts_from : ℕ → ℕ → ℕ → ℕ → Option E → S → Outcome T E × List ℕ × S
  unfolding sleep last_error
  attempts_from zero attempts base_delay attempt last s = (last_error last, [], s)
  attempts_from (suc left) attempts base_delay attempt last s = elim (call s).0 [
    | inl v ↦ (value v, [], (call s).1)
    | inr e ↦
        let (out, slept, s') =
          attempts_from left attempts base_delay (attempt + 1) (some e) (call s).1 in
        (out, sleep attempts base_delay attempt slept, s')
  ]

  pub retry_with_backoff : ℕ → ℕ → S → Outcome T E × List ℕ × S
  unfolding attempts_from
  retry_with_backoff attempts base_delay s = attempts_from attempts attempts base_delay 0 none s

  -- From the one state to the other every call fails, with these errors.
  abbrev pub Failing : List E → S → S → Type 0
  Failing [] s s' = s ≡ s'
  Failing (e ∷ es) s s' = ((call s).0 ≡ inr e) × Failing es (call s).1 s'

  -- The delays after `n` attempts from the given one on.
  pub delays : ℕ → ℕ → ℕ → List ℕ
  delays base_delay attempt zero = []
  delays base_delay attempt (suc n) = delay base_delay attempt ∷ delays base_delay (attempt + 1) n

  recovers_from :
      (es : List E) (left attempts base_delay attempt : ℕ) (last : Option E) (s s' : S) (v : T)
      → attempt + left ≡ attempts
      → Failing es s s'
      → (call s').0 ≡ inl v
      → length es < left
      → attempts_from left attempts base_delay attempt last s
        ≡ (value v, delays base_delay attempt (length es), (call s').1)
  unfolding attempts_from sleep delays
  recovers_from es zero attempts base_delay attempt last s s' v a f w l = absurd (omega (arith, l))
  recovers_from [] (suc left) attempts base_delay attempt last s s' v a f w l =
      rw f (rw (w, attempts_from) refl)
  recovers_from (e ∷ es) (suc left) attempts base_delay attempt last s s' v a (x, f) w l =
      let later =
        recovers_from es left attempts base_delay (attempt + 1) (some e) (call s).1 s' v
          (omega (arith, a)) f w (omega (arith, l)) in
      let more : ltb (attempt + 1) attempts ≡ true = ground (arith, a, l) in
      rw (x, attempts_from) (rw (later, sleep) (rw more refl))

  -- If the first calls fail and the next one succeeds within the allowed attempts, its value is
  -- answered, after one delay for each failure, and nothing is called again.
  pub retry_recovers :
      (es : List E) (attempts base_delay : ℕ) (s s' : S) (v : T)
      → Failing es s s'
      → (call s').0 ≡ inl v
      → length es < attempts
      → retry_with_backoff attempts base_delay s
        ≡ (value v, delays base_delay 0 (length es), (call s').1)
  unfolding retry_with_backoff
  retry_recovers es attempts base_delay s s' v f w l =
      recovers_from es attempts attempts base_delay 0 none s s' v (omega arith) f w l

  exhausts_from :
      (es : List E) (e : E) (attempts base_delay attempt : ℕ) (last : Option E) (s s' : S)
      → attempt + suc (length es) ≡ attempts
      → Failing (es ++ e ∷ []) s s'
      → attempts_from (suc (length es)) attempts base_delay attempt last s
        ≡ (failure e, delays base_delay attempt (length es), s')
  unfolding attempts_from sleep delays last_error
  exhausts_from [] e attempts base_delay attempt last s s' a (x, f) =
      let no_more : ltb (attempt + 1) attempts ≡ false = ground (arith, a) in
      rw (x, attempts_from) (rw (no_more, f) refl)
  exhausts_from (d ∷ es) e attempts base_delay attempt last s s' a (x, f) =
      let later =
        exhausts_from es e attempts base_delay (attempt + 1) (some d) (call s).1 s'
          (omega (arith, a)) f in
      let more : ltb (attempt + 1) attempts ≡ true = ground (arith, a) in
      rw (x, attempts_from) (rw (later, sleep) (rw more refl))

  -- If as many calls fail as attempts are allowed, the last error is answered, with no delay after
  -- the last failure.
  pub retry_exhausts :
      (es : List E) (e : E) (base_delay : ℕ) (s s' : S)
      → Failing (es ++ e ∷ []) s s'
      → retry_with_backoff (suc (length es)) base_delay s
        ≡ (failure e, delays base_delay 0 (length es), s')
  unfolding retry_with_backoff
  retry_exhausts es e base_delay s s' f =
      exhausts_from es e (suc (length es)) base_delay 0 none s s' (omega arith) f
