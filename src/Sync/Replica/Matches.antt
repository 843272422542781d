-- ===== src/Sync/Replica/Matches.antt =====
-- sync/snapshot.rs, apply_op and resync_file: when a replica holds what its user may see.
use rust_api.Prelude.Texts.{before_colon}
use rust_api.Prelude.{
  String, ◌≡◌, refl, sym, subst, inl, inr, Bool, true, false, ◌&&◌, ◌||◌, Option, none, some, List,
  [], ◌∷◌, str_eq, eq_iff, if◌then◌else◌, Bool-cases,
}
use rust_api.Prelude.Maps.{lookup}
use rust_api.Records.{FileRecord}
use rust_api.Fs.Store.{Rel, Tables, has_rel, same_rel, rows_of, add_marker}
use rust_api.Fs.Store.Refs.{same_rel→eq}
use rust_api.Sync.Policy.{Policy, granted}
use rust_api.Sync.Replica.{is_some_row, visible}
use rust_api.Sync.Replica.Safe.{may_read}

unfoldable pub is_there : Option FileRecord → Bool
is_there none = false
is_there (some rec) = true

module _ (p : Policy) (sub : String) where
  -- What the user's replica is to hold of the master: the records of the files that the user may read,
  -- and the markers, by the parts of their keys, of files to rows that the user may read.
  unfoldable pub shown_file : Tables → String → Option FileRecord
  shown_file t id = if may_read p sub t id then lookup id t.files else none

  unfoldable pub shown_rel : Tables → String → String → String → Bool
  unfolding is_there
  shown_rel t ty rid f =
      has_rel (ty, rid, f) t.rels && (granted p sub (ty, rid) && is_there (lookup f t.files))

  abbrev pub Matches : Tables → Tables → Type 0
  Matches t u =
      ((id : String) → lookup id u.files ≡ shown_file t id)
      × ((ty rid f : String) → has_rel (ty, rid, f) u.rels ≡ shown_rel t ty rid f)

pub has_rel-add_marker :
    (a b c ty rid f : String) (t : Tables)
    → has_rel (a, b, c) (add_marker (ty, rid, f) t).1.rels
      ≡ (same_rel (ty, rid, f) (a, b, c) || has_rel (a, b, c) t.rels)
unfolding add_marker has_rel
has_rel-add_marker a b c ty rid f t = elim (Bool-cases (has_rel (ty, rid, f) t.rels)) [
  | inr e ↦ rw e refl
  | inl e ↦ elim (Bool-cases (same_rel (ty, rid, f) (a, b, c))) [
    | inl s ↦
        rw (e, s) (subst (λ r. has_rel r t.rels ≡ true) (same_rel→eq (ty, rid, f) (a, b, c) s) e)
    | inr s ↦ rw (e, s) refl
  ]
]

pub files-add_marker : (r : Rel) (t : Tables) → (add_marker r t).1.files ≡ t.files
unfolding add_marker
files-add_marker (ty, rid, f) t = elim (Bool-cases (has_rel (ty, rid, f) t.rels)) [
  | inl e ↦ rw e refl
  | inr e ↦ rw e refl
]

pub rows_of-add_marker :
    (ty rid f id : String) (t : Tables)
    → str_eq f id ≡ false
    → rows_of id (add_marker (ty, rid, f) t).1.rels ≡ rows_of id t.rels
unfolding add_marker rows_of
rows_of-add_marker ty rid f id t n = elim (Bool-cases (has_rel (ty, rid, f) t.rels)) [
  | inl e ↦ rw e refl
  | inr e ↦ rw (e, n) refl
]

-- A row that is granted and whose id is read back whole is among the visible rows of a file with its
-- marker.
pub has_rel-visible :
    (p : Policy) (sub ty rid f : String) (rels : List Rel)
    → before_colon rid ≡ rid
    → has_rel (ty, rid, f) rels ≡ true
    → granted p sub (ty, rid) ≡ true
    → is_some_row (visible p sub (rows_of f rels)) ≡ true
unfolding has_rel rows_of visible is_some_row same_rel
has_rel-visible p sub ty rid f [] back h g = absurd (cc)
has_rel-visible p sub ty rid f ((a, b, c) ∷ rels) back h g =
    elim (Bool-cases (same_rel (a, b, c) (ty, rid, f))) [
      | inl s ↦
          let o = same_rel→eq (a, b, c) (ty, rid, f) s in
          subst (λ r. is_some_row (visible p sub (rows_of f (r ∷ rels))) ≡ true) (sym o)
            (rw ((eq_iff f f).1 refl, back, g) refl)
      | inr s ↦
          let k = has_rel-visible p sub ty rid f rels back (rw s at h) g in
          elim (Bool-cases (str_eq c f)) [
            | inr e ↦ rw e k
            | inl e ↦ elim (Bool-cases (granted p sub (a, before_colon b))) [
              | inl q ↦ rw (e, q) refl
              | inr q ↦ rw (e, q) k
            ]
          ]
    ]
