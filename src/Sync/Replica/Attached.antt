-- ===== src/Sync/Replica/Attached.antt =====
-- sync/snapshot.rs, apply_op: an attachment brought into a replica that holds what its user may see.
use rust_api.Prelude.Texts.{before_colon}
use rust_api.Prelude.{
  String, ◌≡◌, refl, ap, ◌∙◌, subst, inl, inr, Bool, true, false, ◌&&◌, ◌||◌, Option, none, some,
  List, ◌∷◌, arith, str_eq, eq_iff, if◌then◌else◌, Bool-cases, ℤ,
}
use rust_api.Prelude.Maps.{lookup, lookup-put}
use rust_api.Records.{FileRecord}
use rust_api.Fs.Access.{Row}
use rust_api.Fs.Store.{Rel, Tables, has_rel, same_rel, rows_of, put_file, add_marker}
use rust_api.Fs.Store.Refs.{same_rel→eq, same_rel_refl}
use rust_api.Sync.Policy.{Policy, granted}
use rust_api.Sync.Replica.{is_some_row, visible}
use rust_api.Sync.Replica.Safe.{may_read, may_read_found}
use rust_api.Sync.Replica.Quiet.{attached_to}
use rust_api.Sync.Replica.Matches.{
  is_there, shown_file, shown_rel, Matches, has_rel-add_marker, files-add_marker,
  rows_of-add_marker, has_rel-visible,
}

module _ (p : Policy) (sub : String) where
  pub may_read-granted :
      (ty rid f : String) (rec : FileRecord) (t : Tables)
      → lookup f t.files ≡ some rec
      → before_colon rid ≡ rid
      → has_rel (ty, rid, f) t.rels ≡ true
      → granted p sub (ty, rid) ≡ true
      → may_read p sub t f ≡ true
  unfolding may_read may_read_found
  may_read-granted ty rid f rec t e back h g =
      rw (e, has_rel-visible p sub ty rid f t.rels back h g)
        (elim (Bool-cases (str_eq rec.owner_sub sub)) [ inl o ↦ rw o refl | inr o ↦ rw o refl ])

  may_read-add_marker :
      (ty rid f id : String) (t : Tables)
      → str_eq f id ≡ false
      → may_read p sub (add_marker (ty, rid, f) t).1 id ≡ may_read p sub t id
  unfolding may_read
  may_read-add_marker ty rid f id t n =
      rw (files-add_marker (ty, rid, f) t, rows_of-add_marker ty rid f id t n) refl

  may_read_found_mono :
      (r : Row) (rows : List Row) (found : Option FileRecord)
      → may_read_found p sub rows found ≡ true
      → may_read_found p sub (r ∷ rows) found ≡ true
  unfolding may_read_found visible is_some_row
  may_read_found_mono r rows none m = m
  may_read_found_mono r rows (some rec) m = elim (Bool-cases (granted p sub r)) [
    | inl g ↦
        rw g
          (elim (Bool-cases (str_eq rec.owner_sub sub)) [ inl o ↦ rw o refl | inr o ↦ rw o refl ])
    | inr g ↦ rw g m
  ]

  -- A row more is not a file less.
  may_read_mono :
      (ty rid f : String) (t : Tables)
      → may_read p sub t f ≡ true
      → may_read p sub (add_marker (ty, rid, f) t).1 f ≡ true
  unfolding may_read add_marker rows_of
  may_read_mono ty rid f t m = elim (Bool-cases (has_rel (ty, rid, f) t.rels)) [
    | inl e ↦ rw e m
    | inr e ↦
        rw (e, (eq_iff f f).1 refl)
          (may_read_found_mono (ty, before_colon rid) (rows_of f t.rels) (lookup f t.files) m)
  ]

  may_read-before :
      (ty rid f : String) (t : Tables)
      → may_read p sub (add_marker (ty, rid, f) t).1 f ≡ false
      → may_read p sub t f ≡ false
  may_read-before ty rid f t b = elim (Bool-cases (may_read p sub t f)) [
    | inr e ↦ e
    | inl e ↦ absurd (let n = may_read_mono ty rid f t e in cc)
  ]

  pub shown_file-hidden :
      (t : Tables) (f : String) → may_read p sub t f ≡ false → shown_file p sub t f ≡ none
  unfolding shown_file
  shown_file-hidden t f b = rw b refl

  module _ (now : ℤ) (ty rid f : String) (rec : FileRecord) where
    lookup-attached_to :
        (b : Bool) (u : Tables) (id : String)
        → rec.id ≡ f
        → lookup id (attached_to p sub now ty rid f rec b u).files
          ≡ (if b && str_eq f id then some rec else lookup id u.files)
    unfolding attached_to put_file
    lookup-attached_to false u id k = refl
    lookup-attached_to true u id k = elim (Bool-cases (granted p sub (ty, rid))) [
      | inl g ↦
          rw
            (g, files-add_marker (ty, rid, f) (put_file rec u), lookup-put rec.id id rec u.files, k)
            refl
      | inr g ↦ rw (g, lookup-put rec.id id rec u.files, k) refl
    ]

    has_rel-attached_to :
        (b : Bool) (u : Tables) (x y z : String)
        → has_rel (x, y, z) (attached_to p sub now ty rid f rec b u).rels ≡ (
            (b && (granted p sub (ty, rid) && same_rel (ty, rid, f) (x, y, z)))
            || has_rel (x, y, z) u.rels)
    unfolding attached_to put_file
    has_rel-attached_to false u x y z = refl
    has_rel-attached_to true u x y z = elim (Bool-cases (granted p sub (ty, rid))) [
      | inl g ↦ rw (g, has_rel-add_marker x y z ty rid f (put_file rec u)) refl
      | inr g ↦ rw g refl
    ]

    pub attached_to-files :
        (t u : Tables)
        → rec.id ≡ f
        → lookup f t.files ≡ some rec
        → Matches p sub t u
        → (id : String)
        → lookup id
            (attached_to p sub now ty rid f rec
              (may_read p sub (add_marker (ty, rid, f) t).1 f)
              u).files
          ≡ shown_file p sub (add_marker (ty, rid, f) t).1 id
    unfolding shown_file
    attached_to-files t u k e m id =
        rw
          (
            lookup-attached_to (may_read p sub (add_marker (ty, rid, f) t).1 f) u id k,
            files-add_marker (ty, rid, f) t,
          )
          (elim (Bool-cases (str_eq f id)) [
            | inr n ↦
                rw (n, may_read-add_marker ty rid f id t n)
                  (elim (Bool-cases (may_read p sub (add_marker (ty, rid, f) t).1 f)) [
                    | inl b ↦ rw b (m.0 id)
                    | inr b ↦ rw b (m.0 id)
                  ])
            | inl n ↦
                let same = (eq_iff f id).0 n in
                rw (n, ← same)
                  (elim (Bool-cases (may_read p sub (add_marker (ty, rid, f) t).1 f)) [
                    | inl b ↦ rw (b, e) refl
                    | inr b ↦ rw b (m.0 f ∙ shown_file-hidden t f (may_read-before ty rid f t b))
                  ])
          ])

    -- The marker itself.
    attached_to-rel :
        (t u : Tables)
        → lookup f t.files ≡ some rec
        → before_colon rid ≡ rid
        → Matches p sub t u
        → has_rel
            (ty, rid, f)
            (attached_to p sub now ty rid f rec
              (may_read p sub (add_marker (ty, rid, f) t).1 f)
              u).rels
          ≡ shown_rel p sub (add_marker (ty, rid, f) t).1 ty rid f
    unfolding shown_rel is_there
    attached_to-rel t u e back m =
        let there : has_rel (ty, rid, f) (add_marker (ty, rid, f) t).1.rels ≡ true =
          rw (has_rel-add_marker ty rid f ty rid f t, same_rel_refl (ty, rid, f)) refl in
        let found = files-add_marker (ty, rid, f) t in
        let before = m.1 ty rid f in
        rw
          (
            has_rel-attached_to (may_read p sub (add_marker (ty, rid, f) t).1 f) u ty rid f,
            there,
            found,
            e,
            same_rel_refl (ty, rid, f),
          )
          (elim (Bool-cases (granted p sub (ty, rid))) [
            | inl g ↦
                rw
                  (
                    may_read-granted ty rid f rec (add_marker (ty, rid, f) t).1
                        (ap (lookup f) found ∙ e) back there g,
                    g,
                  )
                  refl
            | inr g ↦ ground (arith, before, g)
          ])

    pub attached_to-rels :
        (t u : Tables)
        → lookup f t.files ≡ some rec
        → before_colon rid ≡ rid
        → Matches p sub t u
        → (x y z : String)
        → has_rel
            (x, y, z)
            (attached_to p sub now ty rid f rec
              (may_read p sub (add_marker (ty, rid, f) t).1 f)
              u).rels
          ≡ shown_rel p sub (add_marker (ty, rid, f) t).1 x y z
    unfolding shown_rel
    attached_to-rels t u e back m x y z = elim (Bool-cases (same_rel (ty, rid, f) (x, y, z))) [
      | inl s ↦
          subst
            (λ (r : Rel).
              has_rel r
                (attached_to p sub now ty rid f rec (may_read p sub (add_marker (ty, rid, f) t).1 f)
                  u).rels
              ≡ shown_rel p sub (add_marker (ty, rid, f) t).1 r.0 r.1 r.2)
            (same_rel→eq (ty, rid, f) (x, y, z) s) (attached_to-rel t u e back m)
      | inr s ↦
          let before = m.1 x y z in
          rw
            (
              has_rel-attached_to (may_read p sub (add_marker (ty, rid, f) t).1 f) u x y z,
              has_rel-add_marker x y z ty rid f t,
              files-add_marker (ty, rid, f) t,
              s,
            )
            ground (arith, before)
    ]
