-- ===== src/Fs/Engine/Staging.antt =====
-- fs/mod.rs, upload_part: the first half puts the bytes in place and changes no row.
use rust_api.Fs.{Result}
use rust_api.Fs.Engine.Uploads.{stage_found, stage_multipart, stage_part, Staged, stage_bytes}
use rust_api.Fs.Engine.Blind.{objects-Triple, ensure_multipart-Triple, IsBlind}
use rust_api.Fs.Engine.{on_objects, get_session, Rows}
use rust_api.Fs.Upload.{receive, Chunk, UploadSession}
use rust_api.Fs.Objects.{IsStorage, S3Client}
use rust_api.Prelude.{
  ◌+◌, none, ◌==◌, ◌≢◌, arith, subst, ℕ, List, some, Option, true, ◌≡◌, String, refl,
}
use rust_api.Fs.Store.{◌>>◌, pure}
use rust_api.Prelude.Maps.{lookup}
use rust_api.Fs.Engine.Ends.{
  Triple-pure, Triple-call, Triple-weaken, Triple-objects, Triple-answer, Triple-bind, Triple-fail,
  Triple-if, Triple,
}

module _ {S : Type 0} (s3 : S3Client S) (laws : IsStorage s3) where
  open s3 use {holds, put_object, upload_part}

  -- The only part of a session is in place.
  abbrev pub InPlace : UploadSession → S → Type 0
  InPlace s t = s.file_total_parts ≡ 1 → holds s.s3_key t ≡ true

  -- What a staged part promises of the session under its id.
  abbrev pub IsPlaced : String → Rows → S → Type 0
  IsPlaced id r t = (s : UploadSession) → lookup id r.sessions ≡ some s → InPlace s t

  module _ (P : Rows → S → Type 0) (blind : IsBlind s3 laws P) (id : String) where
    abbrev Placed : Staged → Rows → S → Type 0
    Placed p r t = P r t × ((p.file_id ≡ id) × IsPlaced id r t)

    module _ (s : UploadSession) where
      abbrev Found : Rows → S → Type 0
      Found r t = P r t × (lookup id r.sessions ≡ some s)

      Found-IsBlind : IsBlind s3 laws Found
      Found-IsBlind r ms t u k f = (blind r ms t u k f.0, f.1)

      Found-Placed :
          (p : Staged) (r : Rows) (t : S) → p.file_id ≡ id → Found r t → InPlace s t → Placed p r t
      Found-Placed p r t e f h =
          (f.0, (e, λ s' q. let same : s ≡ s' = cc in subst (λ x. InPlace x t) same h))

      stage_multipart-Triple :
          (u : Option String) (p : Staged) (i : ℕ) (bytes : List ℕ)
          → s.file_total_parts ≢ 1
          → p.file_id ≡ id
          → Triple Found P Placed (stage_multipart s3 s u p i bytes)
      unfolding stage_multipart
      stage_multipart-Triple none p i bytes n e = Triple-fail P Found Placed _ (λ r t f. f.0)
      stage_multipart-Triple (some u) p i bytes n e =
          Triple-weaken Found Found P Placed Placed _
            (Triple-bind Found Found (λ a. Found) Placed _ _
              (ensure_multipart-Triple s3 laws Found Found-IsBlind u)
              (λ a.
                Triple-bind Found Found (λ a. Found) Placed _ _
                  (objects-Triple s3 laws Found Found-IsBlind _
                    (λ t. laws.upload_keeps s.s3_key u (i + 1) bytes p.checksum t))
                  (λ etag.
                    Triple-pure Found Found Placed (record p { upload_id = some u; etag = etag })
                      (λ r t f.
                        Found-Placed (record p { upload_id = some u; etag = etag }) r t e f
                          (λ one. absurd (n one))))))
            (λ r t f. f.0) (λ q r t f. f)

      put-Triple :
          (p : Staged) (bytes : List ℕ)
          → p.file_id ≡ id
          → Triple Found P Placed (do on_objects (put_object s.s3_key bytes p.checksum); pure p)
      put-Triple p bytes e =
          Triple-bind P Found (λ a r t. Found r t × (holds s.s3_key t ≡ true)) Placed _ _
            (Triple-objects P Found (λ a r t. Found r t × (holds s.s3_key t ≡ true)) _
              (λ r t f.
                let q =
                  Found-IsBlind r r.multiparts t _ (laws.put_keeps s.s3_key bytes p.checksum t) f in
                (q.0, λ a h. (q, laws.put_holds s.s3_key bytes p.checksum t h))))
            (λ a.
              Triple-pure P (λ r t. Found r t × (holds s.s3_key t ≡ true)) Placed p
                (λ r t f. Found-Placed p r t e f.0 (λ one. f.1)))

      stage_bytes-Triple :
          (p : Staged) (i : ℕ) (bytes : List ℕ)
          → p.file_id ≡ id
          → Triple Found P Placed (stage_bytes s3 s p i bytes)
      unfolding stage_bytes
      stage_bytes-Triple p i bytes e =
          Triple-if P Found Placed (s.file_total_parts == 1) _ _ (λ one. put-Triple p bytes e)
            (λ more.
              stage_multipart-Triple s.s3_upload_id p i bytes (λ one. ground (arith, one, more)) e)

    abbrev Known : Option UploadSession → Rows → S → Type 0
    Known u r t = P r t × (lookup id r.sessions ≡ u)

    stage_found-Triple :
        (p : Staged) (i : ℕ) (declared : Option ℕ) (body : List (Result Chunk))
        (u : Option UploadSession)
        → p.file_id ≡ id
        → Triple (Known u) P Placed (stage_found s3 p i declared body u)
    unfolding stage_found
    stage_found-Triple p i declared body none e = Triple-fail P (Known none) Placed _ (λ r t k. k.0)
    stage_found-Triple p i declared body (some s) e =
        Triple-bind P (Known (some s)) (λ a. Found s) Placed _ _
          (Triple-answer P (Known (some s)) (λ a. Found s)
            (receive (some s) p.caller i declared body) (λ r t k. k.0) (λ a r t k. k))
          (λ bytes. stage_bytes-Triple s p i bytes e)

    -- The first half leaves what is blind to it as it was, and a single part in place.
    pub stage_part-Triple :
        (i : ℕ) (body : List (Result Chunk)) (declared : Option ℕ) (checksum : Option String)
        (caller : String)
        → Triple P P
            (λ p r t. P r t × ((p.file_id ≡ id) × IsPlaced id r t))
            (stage_part s3 id i body declared checksum caller)
    unfolding stage_part get_session
    stage_part-Triple i body declared checksum caller =
        Triple-bind P P Known Placed _ _
          (Triple-call P P Known (λ r. (lookup id r.sessions, r)) (λ r t p. (p, p, (p, refl))))
          (λ u.
            stage_found-Triple
              (record {
                file_id = id;
                slot = i;
                upload_id = none;
                etag = "put";
                checksum = checksum;
                caller = caller;
              })
              i declared body u refl)
