-- ===== src/Sync/Rebuild/Copied.antt =====
-- sync/snapshot.rs, copy_filtered: the copy holds exactly what the user may see.
use rust_api.Prelude.{
  String, ◌≡◌, refl, sym, ap, ◌∙◌, subst, inl, inr, Bool, true, false, ◌&&◌, ◌||◌, none, some, List,
  [], ◌∷◌, arith, str_eq, eq_iff, ltb, if◌then◌else◌, Bool-cases, length,
}
use rust_api.Prelude.Maps.{lookup, lookup-put}
use rust_api.Records.{FileRecord}
use rust_api.Fs.{ok}
use rust_api.Fs.Access.{Row}
use rust_api.Fs.Store.{
  Tables, RefInfo, has_rel, rows_of, put_file, get_ref_info, ref_info, save_file, read, write,
  transact, transact_with, rows_for_file,
}
use rust_api.Sync.Policy.{Policy, granted}
use rust_api.Sync.Groups.{member}
use rust_api.Sync.Replica.{on_master, on_replica, is_some_row, visible, visible_rows}
use rust_api.Sync.Replica.Safe.{may_read, may_read_found}
use rust_api.Sync.Replica.Quiet.{quiet}
use rust_api.Sync.Replica.Matches.{is_there, shown_file, shown_rel}
use rust_api.Sync.Replica.Attached.{shown_file-hidden, may_read-granted}
use rust_api.Sync.Replica.Followed.{shown_file-visible}
use rust_api.Sync.Rebuild.{copy_counted, copy_visible, copy_record}
use rust_api.Sync.Rebuild.Rows.{
  HasPlain-back, rows_of-ArePlain, visible-ArePlain, HasPlain, ArePlain, add_rows,
  attach_rows-quiet, add_rows-files, has_rel-add_rows, has_row-visible,
}

no_more : (b c d : Bool) → ((b && (false && c)) || d) ≡ d
no_more false c d = refl
no_more true c d = refl

nowhere :
    (m n h g : Bool)
    → (h && g) ≡ false
    → ((m && (h && g)) || (n && (h && (g && true)))) ≡ (h && (g && true))
nowhere false false h g e = ground arith
nowhere false true h g e = ground arith
nowhere true false h g e = ground arith
nowhere true true h g e = ground arith

module _ (p : Policy) (sub : String) (t : Tables) where
  unfoldable pub copied : FileRecord → Tables → Tables
  copied rec u =
      if may_read p sub t rec.id
      then add_rows rec.id (visible p sub (rows_of rec.id t.rels)) (put_file rec u)
      else u

  copy_counted-quiet :
      (rec : FileRecord) (rows : List Row) (info : RefInfo) (u : Tables)
      → info.count ≡ length rows
      → ArePlain rows
      → copy_counted rec (visible p sub rows) info (quiet t u)
        ≡ (ok tt, quiet t (add_rows rec.id (visible p sub rows) u))
  unfolding copy_counted add_rows visible
  copy_counted-quiet rec [] info u n h = elim (Bool-cases (ltb 0 info.count)) [
    | inl b ↦ rw b (attach_rows-quiet rec.id [] t u tt)
    | inr b ↦ rw b refl
  ]
  copy_counted-quiet rec (r ∷ rows) info u n h =
      let some_row : ltb 0 info.count ≡ true = ground arith in
      rw some_row (
        attach_rows-quiet rec.id (visible p sub (r ∷ rows)) t u
          (visible-ArePlain p sub (r ∷ rows) h))

  copy_visible-quiet :
      (rec : FileRecord) (u : Tables)
      → (ref_info rec.id t).count ≡ length (rows_of rec.id t.rels)
      → HasPlain t.rels
      → let rows = visible p sub (rows_of rec.id t.rels) in
        copy_visible sub rec rows (quiet t u) ≡ (
          ok tt,
          quiet t (
              if str_eq rec.owner_sub sub || is_some_row rows
              then add_rows rec.id rows (put_file rec u)
              else u),
        )
  unfolding copy_visible on_replica on_master save_file get_ref_info read write transact
      transact_with
  copy_visible-quiet rec u n h =
      let counted =
        copy_counted-quiet rec (rows_of rec.id t.rels) (ref_info rec.id t) (put_file rec u) n
          (rows_of-ArePlain rec.id t.rels h) in
      elim (Bool-cases (str_eq rec.owner_sub sub)) [
        | inl o ↦ rw o counted
        | inr o ↦ elim (Bool-cases (is_some_row (visible p sub (rows_of rec.id t.rels)))) [
          | inl s ↦ rw (o, s) counted
          | inr s ↦ rw (o, s) refl
        ]
      ]

  pub copy_record-quiet :
      (rec : FileRecord) (u : Tables)
      → (ref_info rec.id t).count ≡ length (rows_of rec.id t.rels)
      → HasPlain t.rels
      → lookup rec.id t.files ≡ some rec
      → copy_record p sub rec (quiet t u) ≡ (ok tt, quiet t (copied rec u))
  unfolding copy_record copied may_read may_read_found visible_rows on_master rows_for_file read
      transact transact_with
  copy_record-quiet rec u n h e = rw (copy_visible-quiet rec u n h, e) refl

  -- The files that are copied so far are the ones in `ids`.
  abbrev pub Holds : List String → Tables → Type 0
  Holds ids u =
      ((id : String) → lookup id u.files ≡ (if member id ids then shown_file p sub t id else none))
      × ((x y z : String) → has_rel (x, y, z) u.rels ≡ (member z ids && shown_rel p sub t x y z))

  lookup-copied :
      (rec : FileRecord) (u : Tables) (id : String)
      → lookup id (copied rec u).files
        ≡ (if may_read p sub t rec.id && str_eq rec.id id then some rec else lookup id u.files)
  unfolding copied put_file
  lookup-copied rec u id = elim (Bool-cases (may_read p sub t rec.id)) [
    | inr b ↦ rw b refl
    | inl b ↦
        rw
          (
            b,
            add_rows-files rec.id (visible p sub (rows_of rec.id t.rels)) (put_file rec u),
            lookup-put rec.id id rec u.files,
          )
          refl
  ]

  has_rel-copied :
      (rec : FileRecord) (u : Tables) (x y z : String)
      → HasPlain t.rels
      → has_rel (x, y, z) (copied rec u).rels ≡ (
          (may_read p sub t rec.id
            && (str_eq rec.id z && (has_rel (x, y, rec.id) t.rels && granted p sub (x, y))))
          || has_rel (x, y, z) u.rels)
  unfolding copied put_file
  has_rel-copied rec u x y z plain = elim (Bool-cases (may_read p sub t rec.id)) [
    | inr b ↦ rw b refl
    | inl b ↦
        rw
          (
            b,
            has_rel-add_rows rec.id x y z (visible p sub (rows_of rec.id t.rels)) (put_file rec u),
            has_row-visible p sub rec.id x y t.rels plain,
          )
          refl
  ]

  copied-file :
      (rec : FileRecord) (ids : List String) (u : Tables)
      → lookup rec.id t.files ≡ some rec
      → Holds ids u
      → lookup rec.id (copied rec u).files ≡ shown_file p sub t rec.id
  copied-file rec ids u e h =
      let before = h.0 rec.id in
      let same : str_eq rec.id rec.id ≡ true = (eq_iff rec.id rec.id).1 refl in
      elim (Bool-cases (may_read p sub t rec.id)) [
        | inl b ↦
            rw (lookup-copied rec u rec.id, b, same) (sym (shown_file-visible p sub t rec.id b ∙ e))
        | inr b ↦
            rw (lookup-copied rec u rec.id, b, shown_file-hidden p sub t rec.id b)
              (elim (Bool-cases (member rec.id ids)) [
                | inl m ↦ before ∙ rw (m, shown_file-hidden p sub t rec.id b) refl
                | inr m ↦ before ∙ rw m refl
              ])
      ]

  pub copied-files :
      (rec : FileRecord) (ids : List String) (u : Tables)
      → lookup rec.id t.files ≡ some rec
      → Holds ids u
      → (id : String)
      → lookup id (copied rec u).files
        ≡ (if member id (rec.id ∷ ids) then shown_file p sub t id else none)
  unfolding member
  copied-files rec ids u e h id = elim (Bool-cases (str_eq rec.id id)) [
    | inl n ↦ rw n (
        subst (λ i. lookup i (copied rec u).files ≡ shown_file p sub t i) ((eq_iff rec.id id).0 n)
          (copied-file rec ids u e h))
    | inr n ↦
        rw (lookup-copied rec u id, n)
          (elim (Bool-cases (may_read p sub t rec.id)) [
            | inl b ↦ rw b (h.0 id)
            | inr b ↦ rw b (h.0 id)
          ])
  ]

  copied-rel :
      (rec : FileRecord) (ids : List String) (u : Tables)
      → lookup rec.id t.files ≡ some rec
      → HasPlain t.rels
      → Holds ids u
      → (x y : String) → has_rel (x, y, rec.id) (copied rec u).rels ≡ shown_rel p sub t x y rec.id
  unfolding shown_rel is_there
  copied-rel rec ids u e plain h x y =
      let before = h.1 x y rec.id in
      let same : str_eq rec.id rec.id ≡ true = (eq_iff rec.id rec.id).1 refl in
      elim (Bool-cases (has_rel (x, y, rec.id) t.rels && granted p sub (x, y))) [
        | inl b ↦
            let m =
              may_read-granted p sub x y rec.id rec t e
                (HasPlain-back x y rec.id t.rels plain (ground arith)) (ground arith)
                (ground arith) in
            rw (has_rel-copied rec u x y rec.id plain, m, same, e) ground arith
        | inr b ↦ rw (has_rel-copied rec u x y rec.id plain, same, before, e) (nowhere _ _ _ _ b)
      ]

  pub copied-rels :
      (rec : FileRecord) (ids : List String) (u : Tables)
      → lookup rec.id t.files ≡ some rec
      → HasPlain t.rels
      → Holds ids u
      → (x y z : String)
      → has_rel (x, y, z) (copied rec u).rels ≡ (member z (rec.id ∷ ids) && shown_rel p sub t x y z)
  unfolding member
  copied-rels rec ids u e plain h x y z = elim (Bool-cases (str_eq rec.id z)) [
    | inl n ↦ rw n (
        subst (λ i. has_rel (x, y, i) (copied rec u).rels ≡ shown_rel p sub t x y i)
          ((eq_iff rec.id z).0 n) (copied-rel rec ids u e plain h x y))
    | inr n ↦
        has_rel-copied rec u x y z plain
        ∙ (ap
              (λ b.
                (may_read p sub t rec.id
                  && (b && (has_rel (x, y, rec.id) t.rels && granted p sub (x, y))))
                || has_rel (x, y, z) u.rels)
              n
            ∙ (no_more (may_read p sub t rec.id)
                  (has_rel (x, y, rec.id) t.rels && granted p sub (x, y)) (has_rel (x, y, z) u.rels)
                ∙ (h.1 x y z ∙ ap (λ b. (b || member z ids) && shown_rel p sub t x y z) (sym n))))
  ]
