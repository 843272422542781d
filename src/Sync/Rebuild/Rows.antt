-- ===== src/Sync/Rebuild/Rows.antt =====
-- sync/snapshot.rs, copy_filtered: the rows that a copied file is attached to.
use rust_api.Fs.Store.Refs.{same_rel→eq}
use rust_api.Prelude.{
  All, subst, String, ◌≡◌, refl, ◌∙◌, inl, inr, Bool, true, false, ◌&&◌, ◌||◌, List, [], ◌∷◌, arith,
  str_eq, eq_iff, Bool-cases,
}
use rust_api.Fs.{ok}
use rust_api.Prelude.Texts.{
  has_colon, before_colon, before_colon_plain, before_colon-append, after_colon-append,
}
use rust_api.Fs.Access.{Row}
use rust_api.Fs.Store.{
  Rel, Tables, has_rel, same_rel, rows_of, add_marker, attach, transact, transact_with,
}
use rust_api.Sync.Policy.{Policy, granted}
use rust_api.Sync.Replica.{on_replica, visible}
use rust_api.Sync.Replica.Quiet.{quiet}
use rust_api.Sync.Replica.Matches.{has_rel-add_marker, files-add_marker}
use rust_api.Sync.Rebuild.{attach_rows}

unfoldable pub add_rows : String → List Row → Tables → Tables
add_rows f [] u = u
add_rows f ((ty, rid) ∷ rows) u = add_rows f rows (add_marker (ty, rid, f) u).1

-- No colon is in the types and the ids of the rows: each is read back from its marker as it is.
abbrev pub ArePlain : List Row → Type 0
ArePlain rows = All (λ (r : Row). (has_colon r.0 ≡ false) × (has_colon r.1 ≡ false)) rows

abbrev pub HasPlain : List Rel → Type 0
HasPlain rels = All (λ (r : Rel). (has_colon r.0 ≡ false) × (has_colon r.1 ≡ false)) rels

pub rows_of-ArePlain : (f : String) (rels : List Rel) → HasPlain rels → ArePlain (rows_of f rels)
unfolding rows_of
rows_of-ArePlain f [] h = tt
rows_of-ArePlain f ((a, b, c) ∷ rels) ((m, n), h) = elim (Bool-cases (str_eq c f)) [
  | inr e ↦ rw e (rows_of-ArePlain f rels h)
  | inl e ↦ rw (e, before_colon_plain b n) ((m, n), rows_of-ArePlain f rels h)
]

pub visible-ArePlain :
    (p : Policy) (sub : String) (rows : List Row) → ArePlain rows → ArePlain (visible p sub rows)
unfolding visible
visible-ArePlain p sub [] h = tt
visible-ArePlain p sub (r ∷ rows) h = elim (Bool-cases (granted p sub r)) [
  | inl e ↦ rw e (h.0, visible-ArePlain p sub rows h.1)
  | inr e ↦ rw e (visible-ArePlain p sub rows h.1)
]

pub attach_rows-quiet :
    (f : String) (rows : List Row) (t u : Tables)
    → ArePlain rows
    → attach_rows f rows (quiet t u) ≡ (ok tt, quiet t (add_rows f rows u))
unfolding attach_rows add_rows on_replica attach transact transact_with
attach_rows-quiet f [] t u h = refl
attach_rows-quiet f ((ty, rid) ∷ rows) t u ((m, n), h) =
    rw (before_colon-append ty rid m, after_colon-append ty rid m)
      (attach_rows-quiet f rows t (add_marker (ty, rid, f) u).1 h)

pub add_rows-files :
    (f : String) (rows : List Row) (u : Tables) → (add_rows f rows u).files ≡ u.files
unfolding add_rows
add_rows-files f [] u = refl
add_rows-files f ((ty, rid) ∷ rows) u =
    add_rows-files f rows (add_marker (ty, rid, f) u).1 ∙ files-add_marker (ty, rid, f) u

unfoldable pub has_row : String → String → List Row → Bool
has_row x y [] = false
has_row x y ((a, b) ∷ rows) = str_eq a x && str_eq b y || has_row x y rows

pub has_rel-add_rows :
    (f x y z : String) (rows : List Row) (u : Tables)
    → has_rel (x, y, z) (add_rows f rows u).rels
      ≡ (str_eq f z && has_row x y rows || has_rel (x, y, z) u.rels)
unfolding add_rows has_row same_rel
has_rel-add_rows f x y z [] u = ground arith
has_rel-add_rows f x y z ((a, b) ∷ rows) u =
    rw (has_rel-add_rows f x y z rows (add_marker (a, b, f) u).1, has_rel-add_marker x y z a b f u)
      (ground arith)

pub granted-same :
    (p : Policy) (sub a b x y : String)
    → (str_eq a x && str_eq b y) ≡ true
    → granted p sub (a, b) ≡ granted p sub (x, y)
granted-same p sub a b x y h =
    let e : a ≡ x = ground (arith, eq_iff a x, h) in
    let f : b ≡ y = ground (arith, eq_iff b y, h) in rw (e, f) refl

pub has_row-visible :
    (p : Policy) (sub f x y : String) (rels : List Rel)
    → HasPlain rels
    → has_row x y (visible p sub (rows_of f rels))
      ≡ (has_rel (x, y, f) rels && granted p sub (x, y))
unfolding has_row visible rows_of has_rel same_rel
has_row-visible p sub f x y [] h = refl
has_row-visible p sub f x y ((a, b, c) ∷ rels) ((_, n), h) =
    let rest = has_row-visible p sub f x y rels h in
    let back = before_colon_plain b n in
    elim (Bool-cases (str_eq c f)) [
      | inr e ↦ rw (e, rest) ground arith
      | inl e ↦ elim (Bool-cases (str_eq a x && str_eq b y)) [
        | inl q ↦
            let same = granted-same p sub a b x y q in
            elim (Bool-cases (granted p sub (a, b))) [
              | inl g ↦ rw (e, back, g, rest) ground (arith, same)
              | inr g ↦ rw (e, back, g, rest) ground (arith, same)
            ]
        | inr q ↦ elim (Bool-cases (granted p sub (a, b))) [
          | inl g ↦ rw (e, back, g, rest) ground arith
          | inr g ↦ rw (e, back, g, rest) ground arith
        ]
      ]
    ]

-- A marker that is there is read back as it is.
pub HasPlain-back :
    (x y z : String) (rels : List Rel)
    → HasPlain rels
    → has_rel (x, y, z) rels ≡ true
    → before_colon y ≡ y
unfolding has_rel
HasPlain-back x y z [] plain h = absurd (cc)
HasPlain-back x y z (r ∷ rels) ((m, n), plain) h = elim (Bool-cases (same_rel r (x, y, z))) [
  | inl e ↦
      before_colon_plain y
        (subst (λ (q : Rel). has_colon q.1 ≡ false) (same_rel→eq r (x, y, z) e) n)
  | inr e ↦ HasPlain-back x y z rels plain (rw e at h)
]
