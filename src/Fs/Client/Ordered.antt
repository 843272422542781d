-- ===== src/Fs/Client/Ordered.antt =====
-- fs/object_store.rs: the etags of a completion against the parts.
use rust_api.Fs.Client.{check_part, ordered}
use rust_api.Fs.{ok, err, Result}
use mathlib.Core.List.{append_assoc}
use rust_api.Prelude.{
  none, Option, ◌∙◌, str_eq, Bool-cases, inr, inl, eq_iff, arith, suc, ap, some, subst, [], ◌<◌,
  ◌+◌, length, ◌≡◌, ◌∷◌, All, ◌++◌, List, String, ℕ, refl,
}
use rust_api.Prelude.Maps.{OrderedMap, get, insert}

-- The parts from an index on are these, one after the other.
abbrev pub Matches : ℕ → List String → OrderedMap String → Type 0
Matches i [] parts = Unit {0}
Matches i (etag ∷ etags) parts = (get i parts ≡ some etag) × Matches (i + 1) etags parts

pub Matches-ordered :
    (i : ℕ) (etags : List String) (parts : OrderedMap String)
    → Matches i etags parts
    → ordered i etags parts ≡ ok etags
unfolding ordered check_part
Matches-ordered i [] parts h = refl
Matches-ordered i (etag ∷ etags) parts h =
    let rest = Matches-ordered (i + 1) etags parts h.1 in
    rw (ordered, h.0, rest, (eq_iff etag etag).1 refl) refl

check_part-ok :
    (etag : String) (found : Option String) (rest : Result (List String)) (ids : List String)
    → check_part etag found rest ≡ ok ids
    → (found ≡ some etag) × ((tail : List String) × (rest ≡ ok tail) × (ids ≡ etag ∷ tail))
unfolding check_part
check_part-ok etag none rest ids h = absurd (cc h)
check_part-ok etag (some part) (err e) ids h = elim (Bool-cases (str_eq part etag)) [
  | inr x ↦ absurd (cc (rw x at h))
  | inl x ↦ absurd (cc (rw x at h))
]
check_part-ok etag (some part) (ok tail) ids h = elim (Bool-cases (str_eq part etag)) [
  | inr x ↦ absurd (cc (rw x at h))
  | inl x ↦ let same = (eq_iff part etag).0 x in (ap some same, (tail, refl, cc (rw x at h, same)))
]

-- Whatever is answered is what was given, and it matches.
pub ordered-Matches :
    (i : ℕ) (etags : List String) (parts : OrderedMap String) (ids : List String)
    → ordered i etags parts ≡ ok ids
    → (ids ≡ etags) × Matches i etags parts
unfolding ordered
ordered-Matches i [] parts ids h = (cc h, tt)
ordered-Matches i (etag ∷ etags) parts ids h =
    let (found, (tail, rest, whole)) =
      check_part-ok etag (get i parts) (ordered (i + 1) etags parts) ids h in
    let (same, m) = ordered-Matches (i + 1) etags parts tail rest in
    (whole ∙ ap (etag ∷◌) same, (found, m))

-- The parts, numbered from an index on.
unfoldable pub enumerate : ℕ → List String → OrderedMap String
enumerate i [] = []
enumerate i (e ∷ es) = (i, e) ∷ enumerate (i + 1) es

abbrev pub Below : ℕ → OrderedMap String → Type 0
Below i m = All (λ (kv : ℕ × String). kv.0 < i) m

pub insert_last :
    (i : ℕ) (v : String) (m : OrderedMap String) → Below i m → insert i v m ≡ m ++ ((i, v) ∷ [])
unfolding insert
insert_last i v [] h = refl
insert_last i v ((j, w) ∷ m) h = ground (arith, h, insert_last i v m h.1)

pub Below-last :
    (i : ℕ) (v : String) (m : OrderedMap String) → Below i m → Below (i + 1) (m ++ ((i, v) ∷ []))
Below-last i v [] h = (omega arith, tt)
Below-last i v ((j, w) ∷ m) h = (omega (arith, h.0), Below-last i v m h.1)

get-last :
    (i : ℕ) (v : String) (m rest : OrderedMap String)
    → Below i m
    → get i (m ++ (i, v) ∷ rest) ≡ some v
unfolding get
get-last i v [] rest h = ground arith
get-last i v ((j, w) ∷ m) rest h = ground (arith, h, get-last i v m rest h.1)

pub Matches-enumerate :
    (i : ℕ) (es : List String) (m : OrderedMap String)
    → Below i m
    → Matches i es (m ++ enumerate i es)
unfolding enumerate
Matches-enumerate i [] m h = tt
Matches-enumerate i (e ∷ es) m h = (
  get-last i e m (enumerate (i + 1) es) h,
  subst (Matches (i + 1) es) (append_assoc m ((i, e) ∷ []) (enumerate (i + 1) es))
      (Matches-enumerate (i + 1) es (m ++ (i, e) ∷ []) (Below-last i e m h)),
)

pub length-enumerate : (i : ℕ) (es : List String) → length (enumerate i es) ≡ length es
unfolding enumerate
length-enumerate i [] = refl
length-enumerate i (e ∷ es) = ap suc (length-enumerate (i + 1) es)
