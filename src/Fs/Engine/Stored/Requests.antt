-- ===== src/Fs/Engine/Stored/Requests.antt =====
-- fs/mod.rs: each request but a deletion or a sweep leaves the bytes of the committed files in place.
use rust_api.Fs.Model.{validate, InitRequest}
use rust_api.Fs.Engine.Stored.{save_session-Good, Good-IsBlind, Savable, Good}
use rust_api.Fs.Engine.Staging.{IsPlaced, InPlace}
use rust_api.Fs.{FsError}
use rust_api.Fs.Engine.Blind.{record_upload-Triple, create_if-Triple, merge_record-Triple, IsBlind}
use rust_api.Fs.Upload.{UploadSession}
use rust_api.Fs.Engine.{save_session, get_session, fail, E, Rows}
use rust_api.Fs.Engine.Uploads.{
  merge_record, merge_part, part_slots, new_session, init_upload, merged, merge_found, Staged,
}
use rust_api.Fs.Engine.Actions.{nth}
use rust_api.Fs.Objects.{IsStorage, S3Client}
use rust_api.Fs.Engine.Complete.{any_missing}
use rust_api.Fs.Store.{◌>>=◌, ◌>>◌, pure}
use rust_api.Prelude.Maps.{lookup}
use rust_api.Prelude.{
  none, length, leb, zero, str_eq, [], suc, subst, not, arith, ℤ, ◌∷◌, ◌≢◌, String, true, some, All,
  Option, List, ◌≡◌, ℕ, refl,
}
use rust_api.Fs.Engine.Ends.{
  Triple-answer, Triple-weaken, Triple-call, Triple-if, Triple-fail, Triple-bind, Triple-pure,
  Triple,
}

-- A session at its start has no part.
any_missing-part_slots : (n : ℕ) → n ≡ 1 → any_missing (part_slots n) ≡ true
unfolding any_missing
any_missing-part_slots zero e = absurd (omega arith)
any_missing-part_slots (suc n) e = refl

All-nth :
    (P : Staged → Type 0) (n : ℕ) (ps : List Staged) (p : Staged)
    → All P ps
    → nth n ps ≡ some p
    → P p
unfolding nth
All-nth P n [] p h e = absurd (cc)
All-nth P zero (q ∷ ps) p h e = let same : q ≡ p = cc in subst P same h.0
All-nth P (suc n) (q ∷ ps) p h e = All-nth P n ps p h.1 e

module _ {S : Type 0} (s3 : S3Client S) (laws : IsStorage s3) (staged : List Staged) where
  -- The invariant, for the parts that wait to be merged.
  abbrev pub G : Rows → S → Type 0
  G = Good s3 laws staged

  abbrev pub Keeping : {A : Type 0} → E S A → Type 0
  Keeping m = Triple G G (λ a. G) m

  pub Keeping-then :
      {A B : Type 0} (m : E S A) (f : A → E S B)
      → Keeping m
      → ((a : A) → Keeping (f a))
      → Keeping (m >>= f)
  Keeping-then m f h k = Triple-bind G G (λ a. G) (λ a. G) m f h k

  pub Keeping-pure : {A : Type 0} (a : A) → Keeping (pure a)
  Keeping-pure a = Triple-pure G G (λ a. G) a (λ r t p. p)

  pub Keeping-fail : {A : Type 0} (e : FsError) → Keeping {A = A} (fail e)
  Keeping-fail e = Triple-fail G G (λ a. G) e (λ r t p. p)

  pub blind : IsBlind s3 laws G
  blind = Good-IsBlind s3 laws staged

  session_new :
      (ps : List Staged) (s : UploadSession) (t : S)
      → All (λ p. p.file_id ≢ s.id) ps
      → All (λ p. p.file_id ≡ s.id → InPlace s3 laws s t) ps
  session_new [] s t h = tt
  session_new (p ∷ ps) s t h = (λ e. absurd (h.0 e), session_new ps s t h.1)

  new_session-Savable :
      (req : InitRequest) (id : String) (now : ℤ) (owner : String) (u : Option String) (r : Rows)
      (t : S)
      → All (λ p. p.file_id ≢ id) staged
      → G r t
      → Savable s3 laws staged (new_session req id now owner u) r t
  unfolding new_session
  new_session-Savable req id now owner u r t h g = (
    g,
    (
      λ m one. absurd (cc (any_missing-part_slots req.file_total_parts one)),
      session_new staged (new_session req id now owner u) t h,
    ),
  )

  -- A session that may be saved, from what is known.
  saving :
      (s : UploadSession) (P : Rows → S → Type 0)
      → ((r : Rows) (t : S) → P r t → Savable s3 laws staged s r t)
      → Triple P G (λ a. G) (save_session s)
  saving s P h = record {
    ends = λ w p. (save_session-Good s3 laws staged s).ends w (h w.rows w.objects p);
  }

  -- The id of a new session is none that a staged part has.
  pub init_upload-Good :
      (bucket : String) (req : InitRequest) (id : String) (now : ℤ) (owner : String)
      → All (λ p. p.file_id ≢ id) staged
      → Keeping (init_upload s3 bucket req id now owner)
  unfolding init_upload
  init_upload-Good bucket req id now owner h =
      Keeping-then _ _ (Triple-answer G G (λ a. G) (validate req) (λ r t p. p) (λ a r t p. p)) (λ a.
        Keeping-then _ _ (create_if-Triple s3 laws G blind req.file_total_parts id) (λ u.
          Keeping-then _ _
            (saving (new_session req id now owner u) G
              (λ r t g. new_session-Savable req id now owner u r t h g))
            (λ b.
              Keeping-then _ _
                (record_upload-Triple s3 laws G blind bucket (new_session req id now owner u) u)
                (λ c. Keeping-pure id))))

  -- The part is in place, if it is the only one of the session.
  Ready : Option UploadSession → Rows → S → Type 0
  Ready u r t = G r t × ((s : UploadSession) → u ≡ some s → InPlace s3 laws s t)

  merged-Savable :
      (slot : ℕ) (etag : String) (checksum : Option String) (s : UploadSession) (ps : List Staged)
      (t : S)
      → InPlace s3 laws s t
      → All (λ p. p.file_id ≡ s.id → InPlace s3 laws (merged slot etag checksum s) t) ps
  unfolding merged
  merged-Savable slot etag checksum s [] t h = tt
  merged-Savable slot etag checksum s (p ∷ ps) t h =
      (λ e. h, merged-Savable slot etag checksum s ps t h)

  Ready-IsBlind : (s : UploadSession) → IsBlind s3 laws (λ r t. G r t × InPlace s3 laws s t)
  Ready-IsBlind s r ms t u k p = (blind r ms t u k p.0, λ one. k s.s3_key (p.1 one))

  merge-Ready :
      (p : Staged) (s : UploadSession)
      → Triple
          (Ready (some s))
          G
          (λ a. G)
          (do
            merge_record p.slot p.etag p.upload_id
            save_session (merged p.slot p.etag p.checksum s))
  unfolding Ready merged
  merge-Ready p s =
      let R : Rows → S → Type 0 = λ r t. G r t × InPlace s3 laws s t in
      Triple-bind G (Ready (some s)) (λ a. R) (λ a. G) _ _
        (record {
          ends = λ w h.
              (Triple-weaken R R G (λ a. R) (λ a. R) _
                  (merge_record-Triple s3 laws R (Ready-IsBlind s) p.slot p.etag p.upload_id)
                  (λ r t q. q.0) (λ a r t q. q)).ends
                w (h.0, h.1 s refl);
        })
        (λ a.
          saving (merged p.slot p.etag p.checksum s) R
            (λ r t h. (h.0, (λ m. h.1, merged-Savable p.slot p.etag p.checksum s staged t h.1))))

  merge_found-Good :
      (p : Staged) (u : Option UploadSession) → Triple (Ready u) G (λ a. G) (merge_found p u)
  unfolding merge_found Ready
  merge_found-Good p none = Triple-fail G (Ready none) (λ a. G) _ (λ r t h. h.0)
  merge_found-Good p (some s) =
      Triple-if G (Ready (some s)) (λ a. G) (not (str_eq s.owner_sub p.caller)) _ _
        (λ e. Triple-fail G (Ready (some s)) (λ a. G) _ (λ r t h. h.0))
        (λ e.
          Triple-if G (Ready (some s)) (λ a. G) (leb (length s.etags) p.slot) _ _
            (λ e'. Triple-fail G (Ready (some s)) (λ a. G) _ (λ r t h. h.0))
            (λ e'. merge-Ready p s))

  pub merge_part-Good : (p : Staged) (n : ℕ) → nth n staged ≡ some p → Keeping (merge_part p)
  unfolding merge_part get_session Ready
  merge_part-Good p n e =
      Triple-bind G G Ready (λ a. G) _ _
        (Triple-call G G Ready (λ r. (lookup p.file_id r.sessions, r))
          (λ r t g.
            (g, g, (g, λ s q. All-nth (λ x. IsPlaced s3 laws x.file_id r t) n staged p g.1 e s q))))
        (merge_found-Good p)
