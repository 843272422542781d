-- ===== src/Fs/Access.antt =====
-- fs/mod.rs: who may read a file, and which bytes of it a range names.
use rust_api.Prelude.{
  ℕ, ◌≤◌, String, ◌≡◌, refl, ap, ◌↔◌, ◌⊎◌, inl, inr, Bool, true, false, Option, none, some, List,
  [], ◌∷◌, arith, str_eq, eq_iff, leb, if◌then◌else◌,
}
use rust_api.Fs.{Result, ok, err, forbidden, not_found, FsError}
use rust_api.Records.{FileRecord}

-- The type and the id of a row that a file is attached to.
abbrev pub Row : Type 0
Row = String × String

-- The loop over the rows: `authorize` is what the policy answers for a row, and an error of it is a
-- refusal.
any_granted : (Row → Result Bool) → List Row → Bool
any_granted authorize [] = false
any_granted authorize (r ∷ rows) = elim (authorize r) [
  | err e ↦ any_granted authorize rows
  | ok granted ↦ if granted then true else any_granted authorize rows
]

granted_by_rows : (Row → Result Bool) → String → FileRecord → List Row → Bool
unfolding any_granted
granted_by_rows authorize caller_sub rec [] = str_eq rec.owner_sub caller_sub
granted_by_rows authorize caller_sub rec (r ∷ rows) = any_granted authorize (r ∷ rows)

-- After the file is found.
access_found : Result (List Row) → (Row → Result Bool) → String → FileRecord → Result Bool
unfolding granted_by_rows
access_found (err e) authorize caller_sub rec = err e
access_found (ok rows) authorize caller_sub rec = ok (granted_by_rows authorize caller_sub rec rows)

-- `can_access`, from what the store answers for the file and for its rows.
unfoldable pub can_access :
    Result (Option FileRecord) → Result (List Row) → (Row → Result Bool) → String → Result Bool
unfolding access_found
can_access (err e) rows authorize caller_sub = err e
can_access (ok none) rows authorize caller_sub = err (not_found "file not found")
can_access (ok (some rec)) rows authorize caller_sub = access_found rows authorize caller_sub rec

-- `get_object_range` up to the object store: the file's record and the range that is read. The store
-- answers `file` when the access is checked, and `again` when the record is read.
clamp : ℕ → ℕ → FileRecord → FileRecord × ℕ × ℕ
clamp start end_ rec =
    let first = if leb start rec.size then start else rec.size in
    let last = if leb end_ rec.size then end_ else rec.size in
    (rec, first, if leb first last then last else first)

range_of : ℕ → ℕ → Result (Option FileRecord) → Result (FileRecord × ℕ × ℕ)
unfolding clamp
range_of start end_ (err e) = err e
range_of start end_ (ok none) = err (not_found "file not found")
range_of start end_ (ok (some rec)) = ok (clamp start end_ rec)

range_if : Result Bool → Result (FileRecord × ℕ × ℕ) → Result (FileRecord × ℕ × ℕ)
range_if (err e) r = err e
range_if (ok false) r = err forbidden
range_if (ok true) r = r

unfoldable pub get_object_range :
    Result (Option FileRecord)
    → Result (List Row)
    → (Row → Result Bool)
    → Result (Option FileRecord)
    → String
    → ℕ
    → ℕ
    → Result (FileRecord × ℕ × ℕ)
unfolding can_access range_if range_of
get_object_range file rows authorize again caller_sub start end_ =
    range_if (can_access file rows authorize caller_sub) (range_of start end_ again)

-- The policy grants one of the rows.
abbrev pub SomeGranted : (Row → Result Bool) → List Row → Type 0
SomeGranted authorize [] = ⊥
SomeGranted authorize (r ∷ rows) = (authorize r ≡ ok true) ⊎ SomeGranted authorize rows

pub Result-cases :
    (x : Result Bool) → (x ≡ ok true) ⊎ ((x ≡ ok false) ⊎ ((e : FsError) × (x ≡ err e)))
Result-cases (err e) = inr (inr (e, refl))
Result-cases (ok true) = inl refl
Result-cases (ok false) = inr (inl refl)

any_granted-SomeGranted :
    (authorize : Row → Result Bool) (rows : List Row)
    → any_granted authorize rows ≡ true
    → SomeGranted authorize rows
unfolding any_granted
any_granted-SomeGranted authorize [] h = absurd (cc)
any_granted-SomeGranted authorize (r ∷ rows) h = elim (Result-cases (authorize r)) [
  | inl w ↦ inl w
  | inr (inl w) ↦ inr (any_granted-SomeGranted authorize rows (rw (w, any_granted) at h))
  | inr (inr (e, w)) ↦ inr (any_granted-SomeGranted authorize rows (rw (w, any_granted) at h))
]

SomeGranted-any_granted :
    (authorize : Row → Result Bool) (rows : List Row)
    → SomeGranted authorize rows
    → any_granted authorize rows ≡ true
unfolding any_granted
SomeGranted-any_granted authorize [] h = absurd h
SomeGranted-any_granted authorize (r ∷ rows) (inl w) = rw (w, any_granted) refl
SomeGranted-any_granted authorize (r ∷ rows) (inr g) = elim (Result-cases (authorize r)) [
  | inl w ↦ rw (w, any_granted) refl
  | inr (inl w) ↦ rw (w, any_granted) (SomeGranted-any_granted authorize rows g)
  | inr (inr (e, w)) ↦ rw (w, any_granted) (SomeGranted-any_granted authorize rows g)
]

-- A file that is attached to no row is its owner's alone; one that is attached is for those to whom
-- the policy grants one of its rows, and not for the owner as such.
pub can_access_iff :
    (rec : FileRecord) (rows : List Row) (authorize : Row → Result Bool) (caller_sub : String)
    → (can_access (ok (some rec)) (ok rows) authorize caller_sub ≡ ok true)
      ↔ (((rows ≡ []) × (rec.owner_sub ≡ caller_sub)) ⊎ SomeGranted authorize rows)
unfolding can_access access_found granted_by_rows
can_access_iff rec [] authorize caller_sub = (
  λ h. ground (arith, eq_iff rec.owner_sub caller_sub),
  λ h. ground (arith, eq_iff rec.owner_sub caller_sub),
)
can_access_iff rec (r ∷ rows) authorize caller_sub = (
  λ h. inr (any_granted-SomeGranted authorize (r ∷ rows) (cc)),
  λ h. elim h [
    | inl (e, o) ↦ absurd (cc)
    | inr g ↦ ap ok (SomeGranted-any_granted authorize (r ∷ rows) g)
  ],
)

range_if_ok :
    (b : Result Bool) (r : Result (FileRecord × ℕ × ℕ)) (x : FileRecord × ℕ × ℕ)
    → range_if b r ≡ ok x
    → (b ≡ ok true) × (r ≡ ok x)
unfolding range_if
range_if_ok (err e) r x h = absurd (cc)
range_if_ok (ok false) r x h = absurd (cc)
range_if_ok (ok true) r x h = (refl, h)

range_of_ok :
    (start end_ : ℕ) (again : Result (Option FileRecord)) (rec : FileRecord) (first last : ℕ)
    → range_of start end_ again ≡ ok (rec, first, last)
    → (again ≡ ok (some rec)) × ((first ≤ last) × (last ≤ rec.size))
unfolding range_of clamp
range_of_ok start end_ (err e) rec first last h = absurd (cc)
range_of_ok start end_ (ok none) rec first last h = absurd (cc)
range_of_ok start end_ (ok (some r)) rec first last h = (ground (arith, h), ground (arith, h))

-- A range is read only where the access is granted, and lies within the file: its start is not past
-- its end, and its end not past the file's.
pub get_object_range_granted :
    (file : Result (Option FileRecord)) (rows : Result (List Row)) (authorize : Row → Result Bool)
    (again : Result (Option FileRecord)) (caller_sub : String) (start end_ : ℕ) (rec : FileRecord)
    (first last : ℕ)
    → get_object_range file rows authorize again caller_sub start end_ ≡ ok (rec, first, last)
    → (can_access file rows authorize caller_sub ≡ ok true)
      × (again ≡ ok (some rec))
      × (first ≤ last)
      × (last ≤ rec.size)
unfolding get_object_range
get_object_range_granted file rows authorize again caller_sub start end_ rec first last h =
    let (granted, found) =
      range_if_ok (can_access file rows authorize caller_sub) (range_of start end_ again)
        (rec, first, last) h in
    let (same, bounds) = range_of_ok start end_ again rec first last found in
    (granted, same, bounds.0, bounds.1)
