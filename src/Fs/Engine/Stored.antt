-- ===== src/Fs/Engine/Stored.antt =====
-- fs/mod.rs: no request but a deletion or a sweep leaves a committed file without its bytes.
pub mod Requests
pub mod Completed
pub mod Reached
use rust_api.Fs.Engine.Complete.{any_missing}
use rust_api.Fs.Engine.Staging.{InPlace, IsPlaced}
use rust_api.Records.{WalOp, FileRecord}
use rust_api.Fs.Engine.Blind.{peek, IsBlind}
use rust_api.Fs.Upload.{UploadSession}
use rust_api.Fs.Engine.Uploads.{Staged}
use rust_api.Fs.Engine.{
  call, remove_session, on_tables, get_session, save_session, save_file, announce, delete_session,
  Rows,
}
use rust_api.Fs.Objects.{Keeps, IsStorage, S3Client}
use rust_api.Fs.Store.{put_file, ◌>>=◌, ◌>>◌, resume, pure}
use rust_api.Prelude.Maps.{lookup, lookup-put, lookup-remove, put}
use rust_api.Prelude.{
  [], eq_iff, inr, sym, arith, subst, inl, All-mono, ◌∷◌, str_eq, true, Bool-cases, false, some,
  ◌≡◌, All, String, List, refl, if◌then◌else◌,
}
use rust_api.Fs.Engine.Ends.{Triple-bind, Triple-call, Triple}

module _ {S : Type 0} (s3 : S3Client S) (laws : IsStorage s3) where
  open s3 use {holds}

  -- The object of every file record is there, and that of every single-part session whose part is.
  pub record IsStored (r : Rows) (t : S) : Type 0 where
    pub of_file :
        (id : String) (rec : FileRecord)
        → lookup id r.tables.files ≡ some rec
        → holds rec.s3_key t ≡ true
    pub of_session :
        (id : String) (s : UploadSession)
        → lookup id r.sessions ≡ some s
        → any_missing s.etags ≡ false
        → InPlace s3 laws s t

  module _ (staged : List Staged) where
    -- So is that of every part that waits to be merged.
    abbrev pub Good : Rows → S → Type 0
    Good r t = IsStored r t × All (λ p. IsPlaced s3 laws p.file_id r t) staged

    -- Rows that are gone, and objects that are new, do no harm.
    pub Good-shrinks :
        (r r' : Rows) (t t' : S)
        → ((id : String) (rec : FileRecord)
            → lookup id r'.tables.files ≡ some rec
            → lookup id r.tables.files ≡ some rec)
        → ((id : String) (s : UploadSession)
            → lookup id r'.sessions ≡ some s
            → lookup id r.sessions ≡ some s)
        → Keeps s3 t t'
        → Good r t
        → Good r' t'
    Good-shrinks r r' t t' f g k (h, ps) = (
      record {
        of_file = λ id rec q. k rec.s3_key (h.of_file id rec (f id rec q));
        of_session = λ id s q m one. k s.s3_key (h.of_session id s (g id s q) m one);
      },
      All-mono (λ p. IsPlaced s3 laws p.file_id r t) (λ p. IsPlaced s3 laws p.file_id r' t') staged
          (λ p i s q one. k s.s3_key (i s (g p.file_id s q) one)) ps,
    )

    pub Good-IsBlind : IsBlind s3 laws Good
    Good-IsBlind r ms t u k p =
        Good-shrinks r (record r { multiparts = ms }) t u (λ id rec h. h) (λ id s h. h) k p

    pub Good-call :
        {A : Type 0} (g : Rows → A × Rows)
        → ((r : Rows) (id : String) (rec : FileRecord)
            → lookup id (g r).1.tables.files ≡ some rec
            → lookup id r.tables.files ≡ some rec)
        → ((r : Rows) (id : String) (s : UploadSession)
            → lookup id (g r).1.sessions ≡ some s
            → lookup id r.sessions ≡ some s)
        → Triple Good Good (λ a. Good) (call g)
    Good-call g f h =
        Triple-call Good Good (λ a. Good) g
          (λ r t p. let q = Good-shrinks r (g r).1 t t (f r) (h r) (λ k x. x) p in (p, q, q))

    -- What a session that is saved must satisfy.
    abbrev pub Savable : UploadSession → Rows → S → Type 0
    Savable s r t =
        Good r t
        × ((any_missing s.etags ≡ false → InPlace s3 laws s t)
            × All (λ p. p.file_id ≡ s.id → InPlace s3 laws s t) staged)

    IsPlaced-put :
        (s : UploadSession) (ps : List Staged) (r : Rows) (t : S)
        → All (λ p. IsPlaced s3 laws p.file_id r t) ps
        → All (λ p. p.file_id ≡ s.id → InPlace s3 laws s t) ps
        → All (λ p. IsPlaced s3 laws p.file_id (record r { sessions = put s.id s r.sessions }) t) ps
    IsPlaced-put s [] r t i h = tt
    IsPlaced-put s (p ∷ ps) r t i h = (
      λ s' q. elim (Bool-cases (str_eq s.id p.file_id)) [
        | inl e ↦
            let same : s ≡ s' = cc (rw (lookup-put s.id p.file_id s r.sessions, e) at q) in
            subst (λ x. InPlace s3 laws x t) same (h.0 (sym ((eq_iff s.id p.file_id).0 e)))
        | inr e ↦ i.0 s' (rw (lookup-put s.id p.file_id s r.sessions, e) at q)
      ],
      IsPlaced-put s ps r t i.1 h.1,
    )

    pub save_session-Good :
        (s : UploadSession) → Triple (Savable s) Good (λ a. Good) (save_session s)
    unfolding save_session
    save_session-Good s =
        Triple-call Good (Savable s) (λ a. Good) _
          (λ r t p.
            let q : Good (record r { sessions = put s.id s r.sessions }) t = (
              record {
                of_file = p.0.0.of_file;
                of_session = λ id s' q m one. elim (Bool-cases (str_eq s.id id)) [
                  | inl e ↦
                      let same : s ≡ s' = cc (rw (lookup-put s.id id s r.sessions, e) at q) in
                      subst (λ x. any_missing x.etags ≡ false → InPlace s3 laws x t) same p.1.0 m
                        one
                  | inr e ↦
                      p.0.0.of_session id s' (rw (lookup-put s.id id s r.sessions, e) at q) m one
                ];
              },
              IsPlaced-put s staged r t p.0.1 p.1.1,
            ) in
            (p.0, q, q))

    pub delete_session-Good : (id : String) → Triple Good Good (λ a. Good) (delete_session id)
    unfolding delete_session get_session remove_session
    delete_session-Good id =
        Triple-bind Good Good (λ a. Good) (λ a. Good) _ _
          (peek s3 laws Good Good-IsBlind (λ r. lookup id r.sessions))
          (λ u.
            Good-call (λ r. (tt, remove_session id u r)) (λ r j rec h. h)
              (λ r j s h. ground (arith, lookup-remove id j r.sessions, h)))

    pub announce-Good : (op : WalOp) → Triple Good Good (λ a. Good) (announce op)
    unfolding announce
    announce-Good op = Good-call _ (λ r j rec h. h) (λ r j s h. h)

    pub save_file-Good :
        (rec : FileRecord)
        → Triple (λ r t. Good r t × (holds rec.s3_key t ≡ true)) Good (λ a. Good) (save_file rec)
    unfolding save_file put_file on_tables
    save_file-Good rec =
        Triple-call Good (λ r t. Good r t × (holds rec.s3_key t ≡ true)) (λ a. Good) _
          (λ r t p.
            let q : Good (record r { tables = put_file rec r.tables }) t = (
              record {
                of_file = λ id rec' h. elim (Bool-cases (str_eq rec.id id)) [
                  | inl e ↦
                      let same : rec ≡ rec' =
                        cc (rw (lookup-put rec.id id rec r.tables.files, e) at h) in
                      subst (λ x. holds x.s3_key t ≡ true) same p.1
                  | inr e ↦
                      p.0.0.of_file id rec' (rw (lookup-put rec.id id rec r.tables.files, e) at h)
                ];
                of_session = p.0.0.of_session;
              },
              p.0.1,
            ) in
            (p.0, q, q))
