-- ===== src/Sync/Replica/Resynced.antt =====
-- sync/snapshot.rs, resync_file: what a replica holds of a file after it is brought up to date.
use rust_api.Prelude.{
  ap, arith, [], ◌∷◌, List, subst, String, ◌≡◌, refl, sym, ◌∙◌, inl, inr, Bool, true, false, ◌&&◌,
  Option, none, some, str_eq, eq_iff, Bool-cases, ℤ,
}
use rust_api.Prelude.Maps.{lookup, put, lookup-put, lookup-remove}
use rust_api.Records.{FileRecord}
use rust_api.Fs.{ok}
use rust_api.Fs.Store.{
  rel_key, Rel, Tables, delete_rel, same_rel, has_rel, put_file, remove_file, remove_marker,
}
use rust_api.Fs.Store.Refs.{IsOnce, same_rel_refl, same_rel→eq}
use rust_api.Fs.Store.Agreed.{has_rel-delete_same}
use rust_api.Sync.Policy.{granted-key, Policy, granted}
use rust_api.Sync.Replica.{resync_file}
use rust_api.Sync.Replica.Safe.{may_read, IsKeyed}
use rust_api.Sync.Replica.Quiet.{quiet, resynced, resync_file-quiet}
use rust_api.Sync.Replica.Matches.{shown_file, has_rel-add_marker, files-add_marker}
use rust_api.Sync.Replica.Attached.{shown_file-hidden}
use rust_api.Sync.Replica.Followed.{
  remove_marker-files, shown_file-visible, shown_file-absent, has_rel-dropped, may_read-absent,
}

-- A marker of another file is another marker.
other_rel : (a b f x y z : String) → str_eq f z ≡ false → same_rel (a, b, f) (x, y, z) ≡ false
unfolding same_rel
other_rel a b f x y z n = ground (arith, n)

has_rel-delete_other :
    (a b f x y z : String) (rels : List Rel)
    → str_eq f z ≡ false
    → has_rel (x, y, z) (delete_rel (a, b, f) rels) ≡ has_rel (x, y, z) rels
unfolding has_rel delete_rel
has_rel-delete_other a b f x y z [] n = refl
has_rel-delete_other a b f x y z (r ∷ rels) n = elim (Bool-cases (same_rel r (a, b, f))) [
  | inr e ↦ rw (e, has_rel-delete_other a b f x y z rels n) refl
  | inl e ↦
      let other : same_rel r (x, y, z) ≡ false =
        subst (λ q. same_rel q (x, y, z) ≡ false) (sym (same_rel→eq r (a, b, f) e))
          (other_rel a b f x y z n) in
      rw (e, other) refl
]

has_rel-removed :
    (now : ℤ) (a b f x y z : String) (u : Tables)
    → str_eq f z ≡ false
    → has_rel (x, y, z) (remove_marker now (a, b, f) u).1.rels ≡ has_rel (x, y, z) u.rels
unfolding remove_marker
has_rel-removed now a b f x y z u n = elim (Bool-cases (has_rel (a, b, f) u.rels)) [
  | inl e ↦ rw e (has_rel-delete_other a b f x y z u.rels n)
  | inr e ↦ rw e refl
]

module _ (p : Policy) (sub : String) (now : ℤ) (ty rid f : String) where
  resynced-file :
      (found : Option FileRecord) (b : Bool) (t u : Tables)
      → IsKeyed t
      → lookup f t.files ≡ found
      → may_read p sub t f ≡ b
      → lookup f (resynced p sub now ty rid f found b u).files ≡ shown_file p sub t f
  unfolding resynced remove_file put_file
  resynced-file none b t u k e m =
      rw (lookup-remove f f u.files, (eq_iff f f).1 refl) (sym (shown_file-absent p sub t f e))
  resynced-file (some rec) false t u k e m =
      rw (lookup-remove f f u.files, (eq_iff f f).1 refl) (sym (shown_file-hidden p sub t f m))
  resynced-file (some rec) true t u k e m = elim (Bool-cases (granted p sub (ty, rid))) [
    | inl g ↦ rw (g, files-add_marker (ty, rid, f) (put_file rec u)) (saved ∙ sym there)
    | inr g ↦
        rw (g, remove_marker-files p sub now (ty, rid, f) (put_file rec u)) (saved ∙ sym there)
  ]
    where
      there : shown_file p sub t f ≡ some rec
      there = shown_file-visible p sub t f m ∙ e

      saved : lookup f (put rec.id rec u.files) ≡ some rec
      saved = rw (lookup-put rec.id f rec u.files, k f rec e, (eq_iff f f).1 refl) refl

  resynced-others :
      (found : Option FileRecord) (b : Bool) (t u : Tables) (id : String)
      → IsKeyed t
      → lookup f t.files ≡ found
      → str_eq f id ≡ false
      → lookup id (resynced p sub now ty rid f found b u).files ≡ lookup id u.files
  unfolding resynced remove_file put_file
  resynced-others none b t u id k e n = rw (lookup-remove f id u.files, n) refl
  resynced-others (some rec) false t u id k e n = rw (lookup-remove f id u.files, n) refl
  resynced-others (some rec) true t u id k e n = elim (Bool-cases (granted p sub (ty, rid))) [
    | inl g ↦
        rw
          (
            g,
            files-add_marker (ty, rid, f) (put_file rec u),
            lookup-put rec.id id rec u.files,
            k f rec e,
            n,
          )
          refl
    | inr g ↦
        rw
          (
            g,
            remove_marker-files p sub now (ty, rid, f) (put_file rec u),
            lookup-put rec.id id rec u.files,
            k f rec e,
            n,
          )
          refl
  ]

  removed-rel :
      (u : Tables)
      → IsOnce u.rels
      → has_rel (ty, rid, f) (remove_marker now (ty, rid, f) u).1.rels ≡ false
  unfolding remove_marker
  removed-rel u o = elim (Bool-cases (has_rel (ty, rid, f) u.rels)) [
    | inl e ↦ rw e (has_rel-delete_same (ty, rid, f) u.rels o)
    | inr e ↦ rw (e, e) refl
  ]

  resynced-rel :
      (found : Option FileRecord) (b : Bool) (t u : Tables)
      → IsOnce u.rels
      → lookup f t.files ≡ found
      → may_read p sub t f ≡ b
      → has_rel (ty, rid, f) (resynced p sub now ty rid f found b u).rels
        ≡ (may_read p sub t f && granted p sub (ty, rid))
  unfolding resynced remove_file put_file
  resynced-rel none b t u o e m =
      rw (has_rel-dropped f ty rid f u.rels, (eq_iff f f).1 refl, may_read-absent p sub t f e) refl
  resynced-rel (some rec) false t u o e m =
      rw (has_rel-dropped f ty rid f u.rels, (eq_iff f f).1 refl, m) refl
  resynced-rel (some rec) true t u o e m = elim (Bool-cases (granted p sub (ty, rid))) [
    | inl g ↦
        rw (g, m, has_rel-add_marker ty rid f ty rid f (put_file rec u), same_rel_refl (ty, rid, f))
          refl
    | inr g ↦ rw (g, m, removed-rel (put_file rec u) o) refl
  ]

  resynced-other_rels :
      (found : Option FileRecord) (b : Bool) (t u : Tables) (x y z : String)
      → str_eq f z ≡ false
      → has_rel (x, y, z) (resynced p sub now ty rid f found b u).rels ≡ has_rel (x, y, z) u.rels
  unfolding resynced remove_file put_file
  resynced-other_rels none b t u x y z n = rw (has_rel-dropped f x y z u.rels, n) refl
  resynced-other_rels (some rec) false t u x y z n = rw (has_rel-dropped f x y z u.rels, n) refl
  resynced-other_rels (some rec) true t u x y z n = elim (Bool-cases (granted p sub (ty, rid))) [
    | inl g ↦
        rw (g, has_rel-add_marker x y z ty rid f (put_file rec u), other_rel ty rid f x y z n) refl
    | inr g ↦ rw g (has_rel-removed now ty rid f x y z (put_file rec u) n)
  ]

-- When no call fails, the master keeps each record under its own id and the replica has no marker
-- twice, then after `resync_file` the replica holds the file's record exactly when the user may read
-- the file, has the row's marker exactly when the user may read the row besides, and holds of every
-- other file the record and the markers that it held.
pub resync_file_lem :
    (p : Policy) (sub : String) (now : ℤ) (ty rid f : String) (t u : Tables)
    → IsKeyed t
    → IsOnce u.rels
    → let r = resync_file p sub now ty rid f (quiet t u) in
      (r.0 ≡ ok tt)
      × (lookup f r.1.replica.tables.files ≡ shown_file p sub t f)
      × (has_rel (rel_key ty rid f) r.1.replica.tables.rels
          ≡ (may_read p sub t f && granted p sub (ty, rid)))
      × ((id : String)
          → str_eq f id ≡ false
          → lookup id r.1.replica.tables.files ≡ lookup id u.files)
      × ((x y id : String)
          → str_eq f id ≡ false
          → has_rel (x, y, id) r.1.replica.tables.rels ≡ has_rel (x, y, id) u.rels)
resync_file_lem p sub now ty rid f t u k o =
    let a = (rel_key ty rid f).0 in
    let b = (rel_key ty rid f).1 in
    let found = lookup f t.files in
    let readable = may_read p sub t f in
    rw (resync_file-quiet p sub now ty rid f t u) (
      refl,
      resynced-file p sub now a b f found readable t u k refl refl,
      resynced-rel p sub now a b f found readable t u o refl refl
          ∙ ap (λ g. may_read p sub t f && g) (granted-key p sub ty rid),
      λ id n. resynced-others p sub now a b f found readable t u id k refl n,
      λ x y id n. resynced-other_rels p sub now a b f found readable t u x y id n,
    )
