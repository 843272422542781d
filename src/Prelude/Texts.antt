-- ===== src/Prelude/Texts.antt =====
-- Texts with a colon in them.
use Prim.Native.Char.{Char, char}
use mathlib.Core.Logic.{inl, inr}
use text.Mathlib.Text.{◌==◌ as str_eq}
use text.Mathlib.TextEquality.{eq_iff}
use mathlib.Core.Bool.{Bool, true, false, ◌||◌}
use native.Mathlib.Omega.{arith}
use text.Mathlib.TextLemmas.{nil-append, cons-append}
use Prim.Native.String.{String, ◌∷◌ as ◌∷ˢ◌, [] as []ˢ, ◌++◌ as ◌++ˢ◌}
use mathlib.Core.Path.{◌≡◌, refl, ap, ◌∙◌, sym}
use rust_api.Prelude.Tests.{if◌then◌else◌, Bool-cases}

unfoldable pub is_colon : Char → Bool
is_colon c = str_eq (c ∷ˢ "") ":"

-- No colon is in the text.
unfoldable pub has_colon : String → Bool
has_colon []ˢ = false
has_colon (c ∷ˢ s) = is_colon c || has_colon s

-- The two sides of a `split_once(':')`, where there is a colon.
unfoldable pub before_colon : String → String
before_colon []ˢ = ""
before_colon (c ∷ˢ s) = let rest = before_colon s in if is_colon c then "" else c ∷ˢ rest

unfoldable pub after_colon : String → String
after_colon []ˢ = ""
after_colon (c ∷ˢ s) = let rest = after_colon s in if is_colon c then s else rest

pub colon-append : (t : String) → (":" ++ˢ t) ≡ char 58 tt ∷ˢ t
colon-append t = cons-append (char 58 tt) "" t ∙ ap (λ r. char 58 tt ∷ˢ r) (nil-append t)

pub before_colon_plain : (s : String) → has_colon s ≡ false → before_colon s ≡ s
unfolding has_colon before_colon
before_colon_plain []ˢ h = refl
before_colon_plain (c ∷ˢ s) h = elim (Bool-cases (is_colon c)) [
  | inl e ↦ absurd (ground arith)
  | inr e ↦ rw (e, before_colon_plain s (ground arith)) refl
]

pub before_colon-append :
    (s t : String) → has_colon s ≡ false → before_colon (s ++ˢ (":" ++ˢ t)) ≡ s
unfolding has_colon before_colon is_colon
before_colon-append []ˢ t h = rw (nil-append (":" ++ˢ t), colon-append t) refl
before_colon-append (c ∷ˢ s) t h = elim (Bool-cases (is_colon c)) [
  | inl e ↦ absurd (ground arith)
  | inr e ↦ rw (cons-append c s (":" ++ˢ t), e, before_colon-append s t (ground arith)) refl
]

pub after_colon-append : (s t : String) → has_colon s ≡ false → after_colon (s ++ˢ (":" ++ˢ t)) ≡ t
unfolding has_colon after_colon is_colon
after_colon-append []ˢ t h = rw (nil-append (":" ++ˢ t), colon-append t) refl
after_colon-append (c ∷ˢ s) t h = elim (Bool-cases (is_colon c)) [
  | inl e ↦ absurd (ground arith)
  | inr e ↦ rw (cons-append c s (":" ++ˢ t), e, after_colon-append s t (ground arith)) refl
]

colon-join : (c : Char) (t : String) → is_colon c ≡ true → ("" ++ˢ (":" ++ˢ t)) ≡ c ∷ˢ t
unfolding is_colon
colon-join c t e =
    let same : (c ∷ˢ "") ≡ ":" = (eq_iff (c ∷ˢ "") ":").0 e in
    nil-append (":" ++ˢ t)
    ∙ (ap (λ x. x ++ˢ t) (sym same) ∙ (cons-append c "" t ∙ ap (λ r. c ∷ˢ r) (nil-append t)))

-- A text with a colon is its two sides with a colon between.
pub sides-append :
    (s t : String)
    → before_colon (s ++ˢ (":" ++ˢ t)) ++ˢ (":" ++ˢ after_colon (s ++ˢ (":" ++ˢ t)))
      ≡ s ++ˢ (":" ++ˢ t)
unfolding before_colon after_colon is_colon
sides-append []ˢ t = rw (nil-append (":" ++ˢ t), colon-append t) (colon-join (char 58 tt) t refl)
sides-append (c ∷ˢ s) t = elim (Bool-cases (is_colon c)) [
  | inl e ↦ rw (cons-append c s (":" ++ˢ t), e) (colon-join c (s ++ˢ (":" ++ˢ t)) e)
  | inr e ↦
      rw (cons-append c s (":" ++ˢ t), e)
        (cons-append c (before_colon (s ++ˢ (":" ++ˢ t))) (":" ++ˢ after_colon (s ++ˢ (":" ++ˢ t)))
          ∙ ap (λ r. c ∷ˢ r) (sides-append s t))
]
