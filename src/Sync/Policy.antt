-- ===== src/Sync/Policy.antt =====
-- policy/: what the replication asks of the access policy, and the parts of a row's object.
use Prim.Native.Char.{Char, code}
use text.Mathlib.TextLemmas.{nil-append, cons-append}
use Prim.Native.String.{◌∷◌ as ◌∷ˢ◌, [] as []ˢ, ◌++◌ as ◌++ˢ◌}
use rust_api.Prelude.{
  ℕ, ◌+◌, String, ◌≡◌, refl, ap, ◌≢◌, inl, inr, Bool, true, false, ◌&&◌, ◌||◌, Option, none, some,
  List, arith, str_eq, eq_iff, leb, ◌==◌, if◌then◌else◌, Bool-cases,
}
use rust_api.Prelude.Texts.{
  has_colon, is_colon, colon-append, before_colon, after_colon, sides-append,
}
use rust_api.Fs.{Result, ok, err}
use rust_api.Fs.Access.{Row}

-- The policy as one replay finds it (`Authorizer`, over crate `casbin`): whether a subject may read an
-- object, the groups a subject is a direct member of, the object and the action of a subject's rules, and
-- the names of all groups.
pub record Policy : Type 0 where
  pub authorize : String → String → Result Bool
  pub get_groups_of_user : String → List String
  pub rules_for_subject : String → List (String × String)
  pub group_names : List String

answer_or_false : Result Bool → Bool
answer_or_false (ok b) = b
answer_or_false (err e) = false

-- The object of a row.
unfoldable pub row_object : String → String → String
row_object row_type row_id = row_type ++ˢ (":" ++ˢ row_id)

-- `authorize_row(…, Action::Read).await.unwrap_or(false)`: the policy is asked with the row's object.
unfoldable pub granted : Policy → String → Row → Bool
unfolding answer_or_false row_object
granted p sub (row_type, row_id) = answer_or_false (p.authorize sub (row_object row_type row_id))

-- A row is granted as the row that its marker's key has.
pub granted-key :
    (p : Policy) (sub row_type row_id : String)
    → granted p sub
        (before_colon (row_type ++ˢ (":" ++ˢ row_id)), after_colon (row_type ++ˢ (":" ++ˢ row_id)))
      ≡ granted p sub (row_type, row_id)
unfolding granted row_object
granted-key p sub row_type row_id =
    ap (λ o. answer_or_false (p.authorize sub o)) (sides-append row_type row_id)

-- `split_once(':')`: what is before the first colon, and what is after it.
cons_left : Char → Option (String × String) → Option (String × String)
cons_left c none = none
cons_left c (some (s, t)) = some (c ∷ˢ s, t)

split_once : String → Option (String × String)
unfolding cons_left
split_once []ˢ = none
split_once (c ∷ˢ s) =
    let rest = split_once s in if is_colon c then some ("", s) else cons_left c rest

is_empty : String → Bool
is_empty s = str_eq s ""

unless_empty : Option (String × String) → Option Row
unfolding is_empty
unless_empty none = none
unless_empty (some (ty, rid)) = if is_empty ty || is_empty rid then none else some (ty, rid)

unfoldable pub split_row_obj : String → Option Row
unfolding split_once unless_empty
split_row_obj obj = unless_empty (split_once obj)

to_ascii_lowercase : ℕ → ℕ
to_ascii_lowercase c = if leb 65 c && leb c 90 then c + 32 else c

-- `eq_ignore_ascii_case`.
unfoldable pub eq_ignore_ascii_case : String → String → Bool
unfolding to_ascii_lowercase
eq_ignore_ascii_case []ˢ []ˢ = true
eq_ignore_ascii_case []ˢ (d ∷ˢ t) = false
eq_ignore_ascii_case (c ∷ˢ s) []ˢ = false
eq_ignore_ascii_case (c ∷ˢ s) (d ∷ˢ t) =
    to_ascii_lowercase (code c) == to_ascii_lowercase (code d) && eq_ignore_ascii_case s t

split_once-append :
    (s t : String) → has_colon s ≡ false → split_once (s ++ˢ (":" ++ˢ t)) ≡ some (s, t)
unfolding has_colon is_colon split_once cons_left
split_once-append []ˢ t h = rw (nil-append (":" ++ˢ t), colon-append t) refl
split_once-append (c ∷ˢ s) t h = elim (Bool-cases (is_colon c)) [
  | inl e ↦ absurd (ground arith)
  | inr e ↦ rw (cons-append c s (":" ++ˢ t), e, split_once-append s t (ground arith)) refl
]

-- A row's object splits into the row's type and id, when neither is empty and no colon is in the type.
pub split_row_obj-row_object :
    (row_type row_id : String)
    → has_colon row_type ≡ false
    → row_type ≢ ""
    → row_id ≢ ""
    → split_row_obj (row_object row_type row_id) ≡ some (row_type, row_id)
unfolding split_row_obj row_object unless_empty is_empty
split_row_obj-row_object row_type row_id h n m =
    rw (split_once-append row_type row_id h) ground (arith, eq_iff row_type "", eq_iff row_id "")
