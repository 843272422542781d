-- ===== src/Fs/Engine/Blind.antt =====
-- fs/mod.rs: the parts of a request that change no row but the multipart records, and delete nothing.
use rust_api.Prelude.Maps.{put, lookup, remove, Dict}
use rust_api.Prelude.{
  ◌∷◌, [], inl, inr, List, ==_iff, none, ◌==◌, some, Option, true, String, ◌⊎◌, ℕ, ◌≡◌,
}
use rust_api.Fs.{ok}
use rust_api.Fs.Upload.{UploadSession}
use rust_api.Fs.Engine.Ends.{
  Triple-fail, Triple-pure, Triple-if, Triple-bind, Triple-objects, Triple-call, Triple,
}
use rust_api.Fs.{◌≡◌, Result}
use rust_api.Fs.Engine.Uploads.{
  new_multipart, object_key, backend_id, ensure_multipart, merge_record, restore, merge_parts,
  record_upload, create_if,
}
use rust_api.Prelude.Maps.{Dict}
use rust_api.Fs.Engine.Complete.{
  clone_etags, abort_upload, finish_bytes, abort_found, first_there, finish_multipart,
}
use rust_api.Fs.Engine.{on_objects, save_multipart, load_multipart, delete_multipart, call, Rows}
use rust_api.Fs.Objects.{Keeps, PersistedMultipart, IsStorage, S3Client}

module _ {S : Type 0} (s3 : S3Client S) (laws : IsStorage s3) (P : Rows → S → Type 0) where
  open s3 use {holds, backend_upload_id}

  -- What does not look at the multipart records, and stays true as objects are added.
  abbrev pub IsBlind : Type 0
  IsBlind =
      (r : Rows) (ms : Dict PersistedMultipart) (s t : S)
      → Keeps s3 s t
      → P r s
      → P (record r { multiparts = ms }) t

  module _ (blind : IsBlind) where
    -- A read that tells nothing.
    pub peek : {A : Type 0} (f : Rows → A) → Triple P P (λ a. P) (call (λ r. (f r, r)))
    peek f = Triple-call P P (λ a. P) (λ r. (f r, r)) (λ r s p. (p, p, p))

    pub multiparts-Triple :
        (f : Rows → Dict PersistedMultipart)
        → Triple P P (λ a. P) (call (λ r. (tt, record r { multiparts = f r })))
    multiparts-Triple f =
        Triple-call P P (λ a. P) _ (λ r s p. let q = blind r (f r) s s (λ k h. h) p in (p, q, q))

    pub objects-Triple :
        {A : Type 0} (op : S → Result A × S)
        → ((s : S) → Keeps s3 s (op s).1)
        → Triple P P (λ a. P) (on_objects op)
    objects-Triple op k =
        Triple-objects P P (λ a. P) op
          (λ r s p. let q = blind r r.multiparts s (op s).1 (k s) p in (q, λ a h. q))

    restore-Triple : (m : Option PersistedMultipart) → Triple P P (λ a. P) (restore s3 m)
    unfolding restore
    restore-Triple none = Triple-fail P P (λ a. P) _ (λ r s p. p)
    restore-Triple (some m) = objects-Triple _ (λ s. laws.restore_keeps m s)

    pub ensure_multipart-Triple : (u : String) → Triple P P (λ a. P) (ensure_multipart s3 u)
    unfolding ensure_multipart load_multipart
    ensure_multipart-Triple u =
        Triple-bind P P (λ a. P) (λ a. P) _ _ (peek (λ r. lookup u r.multiparts)) restore-Triple

    save_multipart-Triple : (m : PersistedMultipart) → Triple P P (λ a. P) (save_multipart m)
    unfolding save_multipart
    save_multipart-Triple m = multiparts-Triple (λ r. put m.upload_id m r.multiparts)

    merge_parts-Triple :
        (slot : ℕ) (etag : String) (m : Option PersistedMultipart)
        → Triple P P (λ a. P) (merge_parts slot etag m)
    unfolding merge_parts
    merge_parts-Triple slot etag none = Triple-pure P P (λ a. P) tt (λ r s p. p)
    merge_parts-Triple slot etag (some m) = save_multipart-Triple _

    pub merge_record-Triple :
        (slot : ℕ) (etag : String) (u : Option String)
        → Triple P P (λ a. P) (merge_record slot etag u)
    unfolding merge_record load_multipart
    merge_record-Triple slot etag none = Triple-pure P P (λ a. P) tt (λ r s p. p)
    merge_record-Triple slot etag (some u) =
        Triple-bind P P (λ a. P) (λ a. P) _ _ (peek (λ r. lookup u r.multiparts))
          (merge_parts-Triple slot etag)

    pub create_if-Triple : (n : ℕ) (id : String) → Triple P P (λ a. P) (create_if s3 n id)
    unfolding create_if
    create_if-Triple n id =
        Triple-if P P (λ a. P) (n == 1) _ _ (λ e. Triple-pure P P (λ a. P) none (λ r s p. p))
          (λ e.
            Triple-bind P P (λ a. P) (λ a. P) _ _
              (objects-Triple _ (λ s. laws.create_keeps (object_key id) s))
              (λ u. Triple-pure P P (λ a. P) (some u) (λ r s p. p)))

    backend_id-Triple : (b : Option String) → Triple P P (λ a. P) (backend_id b)
    unfolding backend_id
    backend_id-Triple none = Triple-fail P P (λ a. P) _ (λ r s p. p)
    backend_id-Triple (some b) = Triple-pure P P (λ a. P) b (λ r s p. p)

    pub record_upload-Triple :
        (bucket : String) (s : UploadSession) (u : Option String)
        → Triple P P (λ a. P) (record_upload s3 bucket s u)
    unfolding record_upload
    record_upload-Triple bucket s none = Triple-pure P P (λ a. P) tt (λ r t p. p)
    record_upload-Triple bucket s (some u) =
        Triple-bind P P (λ a. P) (λ a. P) _ _
          (objects-Triple (λ t. (ok (backend_upload_id u t).0, (backend_upload_id u t).1))
            (λ t. laws.id_keeps u t))
          (λ found.
            Triple-bind P P (λ a. P) (λ a. P) _ _ (backend_id-Triple found)
              (λ b. save_multipart-Triple (new_multipart bucket s u b)))

    abort_found-Triple :
        (s : UploadSession) (u : String) (m : Option PersistedMultipart)
        → Triple P P (λ a. P) (abort_found s3 s u m)
    unfolding abort_found
    abort_found-Triple s u none = Triple-pure P P (λ a. P) tt (λ r t p. p)
    abort_found-Triple s u (some m) =
        Triple-bind P P (λ a. P) (λ a. P) _ _ (ensure_multipart-Triple u)
          (λ a. objects-Triple _ (λ t. laws.abort_keeps s.s3_key u t))

    -- The abortion of a session that has a multipart upload.
    pub abort_upload-Triple :
        (s : UploadSession) (u : String) → Triple P P (λ a. P) (abort_upload s3 s (some u))
    unfolding abort_upload load_multipart
    abort_upload-Triple s u =
        Triple-bind P P (λ a. P) (λ a. P) _ _ (peek (λ r. lookup u r.multiparts))
          (abort_found-Triple s u)

    -- A single part is all there is, or else the object was put together.
    abbrev pub IsFinished : UploadSession → Rows → S → Type 0
    IsFinished s r t = P r t × ((s.file_total_parts ≡ 1) ⊎ (holds s.s3_key t ≡ true))

    finish_multipart-Triple :
        (s : UploadSession) (es : Option (List String)) (u : Option String)
        → Triple P P (λ a. IsFinished s) (finish_multipart s3 s es u)
    unfolding finish_multipart delete_multipart
    finish_multipart-Triple s none u = Triple-fail P P (λ a. IsFinished s) _ (λ r t p. p)
    finish_multipart-Triple s (some es) none = Triple-fail P P (λ a. IsFinished s) _ (λ r t p. p)
    finish_multipart-Triple s (some es) (some u) =
        Triple-bind P P (λ a. P) (λ a. IsFinished s) _ _ (ensure_multipart-Triple u)
          (λ a.
            Triple-bind P P (λ a. IsFinished s) (λ a. IsFinished s) _ _
              (Triple-objects P P (λ a. IsFinished s) _
                (λ r t p.
                  let q = blind r r.multiparts t _ (laws.complete_keeps s.s3_key u es t) p in
                  (q, λ b h. (q, inr (laws.complete_holds s.s3_key u es t h)))))
              (λ b.
                Triple-call P (IsFinished s) (λ a. IsFinished s) _
                  (λ r t p.
                    let q = blind r (remove u r.multiparts) t t (λ k h. h) p.0 in
                    (p.0, q, (q, p.1)))))

    first_there-Triple :
        (s : UploadSession) (es : List (Option String))
        → s.file_total_parts ≡ 1
        → Triple P P (λ a. IsFinished s) (first_there es)
    unfolding first_there
    first_there-Triple s [] e = Triple-fail P P (λ a. IsFinished s) _ (λ r t p. p)
    first_there-Triple s (none ∷ es) e = Triple-fail P P (λ a. IsFinished s) _ (λ r t p. p)
    first_there-Triple s (some x ∷ es) e =
        Triple-pure P P (λ a. IsFinished s) tt (λ r t p. (p, inl e))

    pub finish_bytes-Triple :
        (s : UploadSession) → Triple P P (λ a. IsFinished s) (finish_bytes s3 s)
    unfolding finish_bytes
    finish_bytes-Triple s =
        Triple-if P P (λ a. IsFinished s) (s.file_total_parts == 1) _ _
          (λ e. first_there-Triple s s.etags ((==_iff s.file_total_parts 1).0 e))
          (λ e. finish_multipart-Triple s (clone_etags s.etags) s.s3_upload_id)
