-- ===== src/Sync/Replica/Followed.antt =====
-- sync/snapshot.rs, apply_op: a replica that follows the changes of the service, one by one.
use rust_api.Fs.Store.Refs.{rows_of-has_rel}
use rust_api.Prelude.Texts.{before_colon_plain, after_colon-append, before_colon, has_colon}
use rust_api.Prelude.{
  Option-cases, some, String, ◌≡◌, refl, ap, ◌∙◌, subst, inl, inr, Bool, true, false, not, ◌&&◌,
  none, some, List, [], ◌∷◌, arith, str_eq, eq_iff, if◌then◌else◌, Bool-cases, ℤ,
}
use rust_api.Prelude.Maps.{lookup, lookup-put, lookup-remove}
use rust_api.Records.{
  group_delete, group_remove, group_add, policy_rule_remove, policy_rule_add, policy_remove,
  policy_add, file_delete, file_create, FileRecord, WalOp,
}
use rust_api.Fs.{ok}
use rust_api.Fs.Store.{
  rel_key, Rel, Tables, has_rel, same_rel, drop_rels, rows_of, put_file, remove_file, add_marker,
  remove_marker,
}
use rust_api.Sync.Policy.{Policy}
use rust_api.Sync.Replica.{applied, apply_op}
use rust_api.Sync.Replica.Safe.{may_read, may_read_found, IsKeyed}
use rust_api.Sync.Replica.Quiet.{quiet, attach-quiet, create-quiet, delete-quiet, detach-quiet}
use rust_api.Fs.Store.{has_rel}
use rust_api.Sync.Replica.Matches.{files-add_marker, is_there, shown_file, shown_rel, Matches}
use rust_api.Sync.Replica.Attached.{shown_file-hidden, attached_to-files, attached_to-rels}

-- What the service commits before it logs a change.
unfoldable pub commit : WalOp → Tables → Tables
commit (file_create rec) t = put_file rec t
commit (file_delete f) t = remove_file f t
commit (WalOp.attach ty rid f) t = (add_marker (rel_key ty rid f) t).1
commit op t = t

-- A new file has an id that is not in use; an attachment is of a file that is there, to a row without a
-- colon in its type and id, which is thus read back from its marker as it is.
abbrev pub Fits : WalOp → Tables → Type 0
Fits (file_create rec) t = (lookup rec.id t.files ≡ none) × (rows_of rec.id t.rels ≡ [])
Fits (file_delete f) t = Unit {0}
Fits (WalOp.attach ty rid f) t =
    ((rec : FileRecord) × (lookup f t.files ≡ some rec))
    × (has_colon ty ≡ false)
    × (has_colon rid ≡ false)
Fits op t = ⊥

rows_of-drop_rels :
    (f id : String) (rels : List Rel)
    → str_eq f id ≡ false
    → rows_of id (drop_rels f rels) ≡ rows_of id rels
unfolding rows_of drop_rels
rows_of-drop_rels f id [] n = refl
rows_of-drop_rels f id ((a, b, c) ∷ rels) n =
    ground (arith, eq_iff c f, eq_iff c id, eq_iff f id, rows_of-drop_rels f id rels n)

pub has_rel-dropped :
    (f x y z : String) (rels : List Rel)
    → has_rel (x, y, z) (drop_rels f rels) ≡ (not (str_eq f z) && has_rel (x, y, z) rels)
unfolding has_rel same_rel drop_rels
has_rel-dropped f x y z [] = ground arith
has_rel-dropped f x y z ((a, b, c) ∷ rels) =
    ground (arith, eq_iff c f, eq_iff c z, eq_iff f z, has_rel-dropped f x y z rels)

lookup-created :
    (rec : FileRecord) (u : Tables) (id : String)
    → str_eq rec.id id ≡ false
    → (b : Bool) → lookup id (if b then put_file rec u else u).files ≡ lookup id u.files
unfolding put_file
lookup-created rec u id n false = refl
lookup-created rec u id n true = rw (lookup-put rec.id id rec u.files, n) refl

has_rel-created :
    (rec : FileRecord) (u : Tables) (x y z : String) (b : Bool)
    → has_rel (x, y, z) (if b then put_file rec u else u).rels ≡ has_rel (x, y, z) u.rels
unfolding put_file
has_rel-created rec u x y z false = refl
has_rel-created rec u x y z true = refl

reads_back :
    (ty rid : String)
    → has_colon ty ≡ false
    → has_colon rid ≡ false
    → before_colon (rel_key ty rid "").1 ≡ (rel_key ty rid "").1
reads_back ty rid m n = rw (after_colon-append ty rid m) (before_colon_plain rid n)

module _ (p : Policy) (sub : String) where
  remove_file-Matches :
      (f : String) (t u : Tables)
      → Matches p sub t u
      → Matches p sub (remove_file f t) (remove_file f u)
  unfolding remove_file shown_file shown_rel may_read may_read_found is_there
  remove_file-Matches f t u m = (
    λ id.
        rw (lookup-remove f id u.files, lookup-remove f id t.files)
          (elim (Bool-cases (str_eq f id)) [
            | inl n ↦ rw n refl
            | inr n ↦ rw (n, rows_of-drop_rels f id t.rels n) (m.0 id)
          ]),
    λ x y z.
        rw
          (
            has_rel-dropped f x y z u.rels,
            has_rel-dropped f x y z t.rels,
            m.1 x y z,
            lookup-remove f z t.files,
          )
          (elim (Bool-cases (str_eq f z)) [ inl n ↦ rw n refl | inr n ↦ rw n refl ]),
  )

  pub shown_file-absent :
      (t : Tables) (id : String) → lookup id t.files ≡ none → shown_file p sub t id ≡ none
  unfolding shown_file
  shown_file-absent t id e = elim (Bool-cases (may_read p sub t id)) [
    | inl b ↦ rw (b, e) refl
    | inr b ↦ rw b refl
  ]

  created-shown :
      (rec : FileRecord) (t u : Tables)
      → lookup rec.id t.files ≡ none
      → Matches p sub t u
      → lookup rec.id (if may_read p sub (put_file rec t) rec.id then put_file rec u else u).files
        ≡ shown_file p sub (put_file rec t) rec.id
  unfolding shown_file put_file
  created-shown rec t u e m = elim (Bool-cases (may_read p sub (put_file rec t) rec.id)) [
    | inl b ↦
        rw
          (
            b,
            lookup-put rec.id rec.id rec u.files,
            lookup-put rec.id rec.id rec t.files,
            (eq_iff rec.id rec.id).1 refl,
          )
          refl
    | inr b ↦ rw b (m.0 rec.id ∙ shown_file-absent t rec.id e)
  ]

  put_file-Matches :
      (rec : FileRecord) (t u : Tables)
      → lookup rec.id t.files ≡ none
      → rows_of rec.id t.rels ≡ []
      → Matches p sub t u
      → Matches p sub
          (put_file rec t)
          (if may_read p sub (put_file rec t) rec.id then put_file rec u else u)
  unfolding put_file shown_file shown_rel may_read may_read_found is_there
  put_file-Matches rec t u e r m = (
    λ id. elim (Bool-cases (str_eq rec.id id)) [
      | inr n ↦ rw (lookup-put rec.id id rec t.files, n) (lookup-created rec u id n _ ∙ m.0 id)
      | inl n ↦
          subst
            (λ i.
              lookup i (if may_read p sub (put_file rec t) rec.id then put_file rec u else u).files
              ≡ shown_file p sub (put_file rec t) i)
            ((eq_iff rec.id id).0 n) (created-shown rec t u e m)
    ],
    λ x y z.
        let before = m.1 x y z in
        rw
          (
            has_rel-created rec u x y z (may_read p sub (put_file rec t) rec.id),
            lookup-put rec.id z rec t.files,
          )
          (elim (Bool-cases (str_eq rec.id z)) [
            | inr n ↦ rw n before
            | inl n ↦
                let none_there =
                  rows_of-has_rel x y z t.rels
                    (subst (λ i. rows_of i t.rels ≡ []) ((eq_iff rec.id z).0 n) r) in
                rw (n, none_there) (before ∙ (rw none_there refl))
          ]),
  )

  -- For the creation of a file under a new id with no rows, the removal of one, and the attachment of a
  -- file that is there to a row without a colon in its type and id: when no call fails, the master keeps
  -- each record under its own id, and the replica holds exactly the files and markers that its user may see, it does so
  -- again after the change is committed and then brought in.
  pub apply_op-Matches :
      (now : ℤ) (op : WalOp) (t u : Tables)
      → IsKeyed t
      → Fits op t
      → Matches p sub t u
      → let r = apply_op p sub now op (quiet (commit op t) u) in
        (r.0 ≡ ok applied) × Matches p sub (commit op t) r.1.replica.tables
  unfolding commit
  apply_op-Matches now (file_create rec) t u k (e, r) m =
      rw (create-quiet p sub now rec (put_file rec t) u) (refl, put_file-Matches rec t u e r m)
  apply_op-Matches now (file_delete f) t u k x m =
      rw (delete-quiet p sub now f (remove_file f t) u) (refl, remove_file-Matches f t u m)
  apply_op-Matches now (WalOp.attach ty rid f) t u k ((rec, e), plain_ty, plain_id) m =
      let there = ap (lookup f) (files-add_marker (rel_key ty rid f) t) ∙ e in
      let a = (rel_key ty rid f).0 in
      let b = (rel_key ty rid f).1 in
      rw (attach-quiet p sub now ty rid f rec (add_marker (rel_key ty rid f) t).1 u there) (
        refl,
        (
          attached_to-files p sub now a b f rec t u (k f rec e) e m,
          attached_to-rels p sub now a b f rec t u e (reads_back ty rid plain_ty plain_id) m,
        ),
      )
  apply_op-Matches now (WalOp.detach ty rid f) t u k x m = absurd x
  apply_op-Matches now (policy_add obj) t u k x m = absurd x
  apply_op-Matches now (policy_remove obj) t u k x m = absurd x
  apply_op-Matches now (policy_rule_add s obj act) t u k x m = absurd x
  apply_op-Matches now (policy_rule_remove s obj act) t u k x m = absurd x
  apply_op-Matches now (group_add user group) t u k x m = absurd x
  apply_op-Matches now (group_remove user group) t u k x m = absurd x
  apply_op-Matches now (group_delete group) t u k x m = absurd x

  pub remove_marker-files :
      (now : ℤ) (r : Rel) (t : Tables) → (remove_marker now r t).1.files ≡ t.files
  unfolding remove_marker
  remove_marker-files now (ty, rid, f) t = elim (Bool-cases (has_rel (ty, rid, f) t.rels)) [
    | inl e ↦ rw e refl
    | inr e ↦ rw e refl
  ]

  pub shown_file-visible :
      (t : Tables) (f : String)
      → may_read p sub t f ≡ true
      → shown_file p sub t f ≡ lookup f t.files
  unfolding shown_file
  shown_file-visible t f e = rw e refl

  pub may_read-absent :
      (t : Tables) (f : String) → lookup f t.files ≡ none → may_read p sub t f ≡ false
  unfolding may_read may_read_found
  may_read-absent t f e = rw e refl

  detached-files :
      (now : ℤ) (ty rid f : String) (t u : Tables)
      → (apply_op p sub now (WalOp.detach ty rid f) (quiet t u)).1.replica.tables.files ≡ u.files
  detached-files now ty rid f t u =
      rw (detach-quiet p sub now ty rid f t u) (remove_marker-files now (rel_key ty rid f) u)

  -- When a committed detachment takes the last row away that let the user read a file, and no call
  -- fails, the change brought into a replica that held exactly what the user might see leaves the record
  -- of the file there, which the user may no longer see: the replica should hold none under its id.
  pub detach-stays :
      (now : ℤ) (ty rid f : String) (t u : Tables)
      → Matches p sub t u
      → may_read p sub t f ≡ true
      → may_read p sub (remove_marker now (rel_key ty rid f) t).1 f ≡ false
      → let t' = (remove_marker now (rel_key ty rid f) t).1 in
        let after = (apply_op p sub now (WalOp.detach ty rid f) (quiet t' u)).1.replica.tables in
        ((rec : FileRecord) × (lookup f t'.files ≡ some rec)
          × (lookup f after.files ≡ some rec)
          × (shown_file p sub t' f ≡ none))
        × (¬ Matches p sub t' after)
  detach-stays now ty rid f t u m before after =
      let t' = (remove_marker now (rel_key ty rid f) t).1 in
      let hidden = shown_file-hidden p sub t' f after in
      let left = ap (lookup f) (detached-files now ty rid f t' u) in
      let master = ap (lookup f) (remove_marker-files now (rel_key ty rid f) t) in
      elim (Option-cases (lookup f t.files)) [
        | inl n ↦ let no = may_read-absent t f n in absurd (cc)
        | inr (rec, e) ↦
            let stays = left ∙ (m.0 f ∙ (shown_file-visible t f before ∙ e)) in
            (
              (rec, master ∙ e, stays, hidden),
              λ n. let gone = n.0 f ∙ hidden in absurd (cc (stays, gone)),
            )
      ]
