-- ===== src/Fs/Engine/Announced/Requests.antt =====
-- fs/mod.rs: every request but the cancellation and the sweep announces what it commits.
use rust_api.Fs.Model.{validate, InitRequest}
use rust_api.Fs.Access.{can_access, Row}
use rust_api.Fs.Engine.Blind.{
  merge_record-Triple, record_upload-Triple, create_if-Triple, peek, IsBlind,
}
use rust_api.Fs.Engine.Uploads.{merged, new_session, Staged, merge_found, merge_part, init_upload}
use rust_api.Records.{WalOp, file_delete, FileRecord}
use rust_api.Fs.Engine.Announced.{announce-Triple, IsAnnounced, Announced}
use rust_api.Fs.Upload.{UploadSession}
use rust_api.Fs.Objects.{IsStorage, S3Client}
use rust_api.Fs.Engine.{
  get_session, may_delete, erase_file, delete_file, delete_allowed, delete_found, find_file, answer,
  fail, attach, on_tables, E, save_session, detach, attach_found,
}
use rust_api.Fs.{ok, Result, FsError}
use rust_api.Fs.Store.{
  rel_key, rows_of, ref_info, remove_file, has_rel, Rel, add_marker, remove_marker, Tables, ◌>>=◌,
  pure,
}
use rust_api.Prelude.Maps.{lookup-remove, lookup, lookup-put, put}
use rust_api.Prelude.{
  if◌then◌else◌, true, false, none, arith, length, leb, inr, ◌==◌, not, inl, some, str_eq,
  Bool-cases, Option, ◌≡◌, ℤ, String, Bool, refl,
}
use rust_api.Fs.Engine.Ends.{
  Triple-if, Triple-objects, Triple-answer, Triple-fail, Triple-call, Triple-bind, Triple-pure,
  Triple,
}

-- What leaves the files, or takes one away.
abbrev FilesShrink : (Tables → Tables) → Type 0
FilesShrink g =
    (t : Tables) (id : String) (rec : FileRecord)
    → lookup id (g t).files ≡ some rec
    → lookup id t.files ≡ some rec

module _ {S : Type 0} where
  -- Whatever fails, a file without a session has been announced.
  abbrev pub Keeping : {A : Type 0} → E S A → Type 0
  Keeping m = Triple Announced Announced (λ a. Announced) m

  Keeping-then :
      {A B : Type 0} (m : E S A) (f : A → E S B)
      → Keeping m
      → ((a : A) → Keeping (f a))
      → Keeping (m >>= f)
  Keeping-then m f h k = Triple-bind Announced Announced (λ a. Announced) (λ a. Announced) m f h k

  Keeping-answer : {A : Type 0} (x : Result A) → Keeping (answer x)
  Keeping-answer x =
      Triple-answer Announced Announced (λ a. Announced) x (λ r t p. p) (λ a r t p. p)

  Keeping-pure : {A : Type 0} (a : A) → Keeping (pure a)
  Keeping-pure a = Triple-pure Announced Announced (λ a. Announced) a (λ r t p. p)

  Keeping-fail : {A : Type 0} (e : FsError) → Keeping {A = A} (fail e)
  Keeping-fail e = Triple-fail Announced Announced (λ a. Announced) e (λ r t p. p)

  Keeping-if :
      {A : Type 0} (b : Bool) (m n : E S A) → Keeping m → Keeping n → Keeping (if b then m else n)
  Keeping-if b m n h k = Triple-if Announced Announced (λ a. Announced) b m n (λ e. h) (λ e. k)

  Keeping-tables :
      {A : Type 0} (g : Tables → A × Tables) → FilesShrink (λ t. (g t).1) → Keeping (on_tables g)
  unfolding on_tables
  Keeping-tables g k =
      Triple-call Announced Announced (λ a. Announced) _
        (λ r t p.
          let q : IsAnnounced (record r { tables = (g r.tables).1 }) =
            λ j rec h. p j rec (k r.tables j rec h) in
          (p, q, q))

  Keeping-read : {A : Type 0} (f : Tables → A) → Keeping (on_tables (λ t. (f t, t)))
  Keeping-read f = Keeping-tables (λ t. (f t, t)) (λ t id rec h. h)

  Keeping-save_session : (s : UploadSession) → Keeping (save_session s)
  unfolding save_session
  Keeping-save_session s =
      Triple-call Announced Announced (λ a. Announced) _
        (λ r t p.
          let q : IsAnnounced (record r { sessions = put s.id s r.sessions }) = λ j rec h.
            elim (Bool-cases (str_eq s.id j)) [
              | inl e ↦ inl (s, rw (lookup-put s.id j s r.sessions, e) refl)
              | inr e ↦ elim (p j rec h) [
                | inl (u, x) ↦ inl (u, rw (lookup-put s.id j s r.sessions, e) x)
                | inr x ↦ inr x
              ]
            ] in
          (p, q, q))

  attach_found-Keeping : (x : Rel) (f : Option FileRecord) → Keeping (attach_found x f)
  unfolding attach_found add_marker
  attach_found-Keeping (ty, rid, f) none = Keeping-fail _
  attach_found-Keeping (ty, rid, f) (some rec) =
      Keeping-then _ _
        (Keeping-tables (add_marker (rel_key ty rid f)) (λ t id rec' h.
          elim (Bool-cases (has_rel (rel_key ty rid f) t.rels)) [
            | inl e ↦ rw e at h
            | inr e ↦ rw e at h
          ]))
        (λ n. Keeping-then _ _ (announce-Triple (WalOp.attach ty rid f)) (λ a. Keeping-pure n))

  pub attach-Keeping : (allowed : Result (Unit {0})) (x : Rel) → Keeping (attach allowed x)
  unfolding attach find_file
  attach-Keeping allowed (ty, rid, f) = Keeping-then _ _ (Keeping-answer allowed) (λ a.
      Keeping-then _ _ (Keeping-read (λ t. lookup f t.files))
        (λ found. attach_found-Keeping (ty, rid, f) found))

  pub detach-Keeping :
      (allowed : Result (Unit {0})) (now : ℤ) (x : Rel) → Keeping (detach allowed now x)
  unfolding detach remove_marker
  detach-Keeping allowed now (ty, rid, f) = Keeping-then _ _ (Keeping-answer allowed) (λ a.
      Keeping-then _ _
        (Keeping-tables (remove_marker now (rel_key ty rid f)) (λ t id rec' h.
          elim (Bool-cases (has_rel (rel_key ty rid f) t.rels)) [
            | inl e ↦ rw e at h
            | inr e ↦ rw e at h
          ]))
        (λ n. Keeping-then _ _ (announce-Triple (WalOp.detach ty rid f)) (λ b. Keeping-pure n)))

module _ {S : Type 0} (s3 : S3Client S) (laws : IsStorage s3) where
  Announced-IsBlind : IsBlind s3 laws Announced
  Announced-IsBlind r ms t u k p = p

  delete_allowed-Keeping :
      (id : String) (rec : FileRecord) (b : Bool) → Keeping (delete_allowed s3 id rec b)
  unfolding delete_allowed erase_file remove_file
  delete_allowed-Keeping id rec false = Keeping-fail _
  delete_allowed-Keeping id rec true = Keeping-then _ _ (announce-Triple (file_delete id)) (λ a.
      Keeping-then _ _
        (Keeping-tables (λ t. (tt, remove_file id t))
          (λ t j rec' h. ground (arith, lookup-remove id j t.files, h)))
        (λ b.
          Triple-objects Announced Announced (λ a. Announced) (s3.delete_object rec.s3_key)
            (λ r t p. (p, λ a h. p))))

  delete_found-Keeping :
      (authorize : Row → Result Bool) (caller id : String) (f : Option FileRecord)
      → Keeping (delete_found s3 authorize caller id f)
  unfolding delete_found may_delete find_file
  delete_found-Keeping authorize caller id none = Keeping-fail _
  delete_found-Keeping authorize caller id (some rec) =
      Keeping-then _ _ (Keeping-read (ref_info id)) (λ info.
        Keeping-then _ _
          (Keeping-if (info.count == 0) _ _ (Keeping-pure (str_eq rec.owner_sub caller)) (
            Keeping-then _ _ (Keeping-read (λ t. lookup id t.files)) (λ found.
              Keeping-then _ _ (Keeping-read (λ t. rows_of id t.rels))
                (λ rows. Keeping-answer (can_access (ok found) (ok rows) authorize caller)))))
          (λ allowed. delete_allowed-Keeping id rec allowed))

  pub delete_file-Keeping :
      (authorize : Row → Result Bool) (caller id : String)
      → Keeping (delete_file s3 authorize caller id)
  unfolding delete_file find_file
  delete_file-Keeping authorize caller id =
      Keeping-then _ _ (Keeping-read (λ t. lookup id t.files))
        (λ found. delete_found-Keeping authorize caller id found)

  pub init_upload-Keeping :
      (bucket : String) (req : InitRequest) (id : String) (now : ℤ) (owner : String)
      → Keeping (init_upload s3 bucket req id now owner)
  unfolding init_upload
  init_upload-Keeping bucket req id now owner =
      Keeping-then _ _ (Keeping-answer (validate req)) (λ a.
        Keeping-then _ _
          (create_if-Triple s3 laws Announced Announced-IsBlind req.file_total_parts id)
          (λ u. Keeping-then _ _ (Keeping-save_session (new_session req id now owner u)) (λ b.
            Keeping-then _ _
              (record_upload-Triple s3 laws Announced Announced-IsBlind bucket
                (new_session req id now owner u) u)
              (λ c. Keeping-pure id))))

  merge_found-Keeping : (p : Staged) (u : Option UploadSession) → Keeping {S = S} (merge_found p u)
  unfolding merge_found
  merge_found-Keeping p none = Keeping-fail _
  merge_found-Keeping p (some s) =
      Keeping-if (not (str_eq s.owner_sub p.caller)) _ _ (Keeping-fail _) (
        Keeping-if (leb (length s.etags) p.slot) _ _ (Keeping-fail _) (
          Keeping-then _ _
            (merge_record-Triple s3 laws Announced Announced-IsBlind p.slot p.etag p.upload_id)
            (λ a. Keeping-save_session (merged p.slot p.etag p.checksum s))))

  pub merge_part-Keeping : (p : Staged) → Keeping {S = S} (merge_part p)
  unfolding merge_part get_session
  merge_part-Keeping p =
      Keeping-then _ _ (peek s3 laws Announced Announced-IsBlind (λ r. lookup p.file_id r.sessions))
        (merge_found-Keeping p)
