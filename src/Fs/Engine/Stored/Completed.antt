-- ===== src/Fs/Engine/Stored/Completed.antt =====
-- fs/mod.rs: completion, cancellation and the relations to rows leave the bytes of the committed files
-- in place.
use rust_api.Records.{file_create, WalOp, FileRecord}
use rust_api.Fs.Engine.Staging.{InPlace}
use rust_api.Fs.Engine.Blind.{finish_bytes-Triple, abort_upload-Triple, peek, IsFinished, IsBlind}
use rust_api.Fs.Engine.Stored.Requests.{Keeping-then, Keeping-pure, blind, Keeping-fail}
use rust_api.Fs.Engine.Stored.{delete_session-Good, save_file-Good, announce-Good, Good-call, Good}
use rust_api.Fs.Upload.{UploadSession}
use rust_api.Fs.Engine.{
  get_session, answer, find_file, Rows, attach, on_tables, detach, attach_found,
}
use rust_api.Fs.{Result}
use rust_api.Fs.Engine.Complete.{
  new_record, finish_bytes, abort_upload, any_missing, CompleteRequest, abort_session_upload,
  cancel_found, complete_session, cancel_multipart, cancel_upload, announce_again, commit,
  complete_upload, complete_found,
}
use rust_api.Fs.Engine.Uploads.{Staged}
use rust_api.Fs.Objects.{IsStorage, S3Client}
use rust_api.Fs.Store.{rel_key, Rel, Tables, remove_marker, add_marker, ◌>>◌}
use rust_api.Prelude.Maps.{lookup}
use rust_api.Prelude.{
  none, str_eq, sym, inr, not, false, arith, inl, subst, true, some, ℤ, ◌≡◌, String, Option, List,
  refl,
}
use rust_api.Fs.Engine.Ends.{
  Triple-weaken, Triple-fail, Triple-call, Triple-bind, Triple-if, Triple-answer, Triple,
}

module _ {S : Type 0} (s3 : S3Client S) (laws : IsStorage s3) where
  open s3 use {holds}

  module _ (staged : List Staged) where
    abbrev I : Rows → S → Type 0
    I = Good s3 laws staged

    commit-Good :
        (id : String) (rec : FileRecord)
        → Triple (λ r t. I r t × (holds rec.s3_key t ≡ true)) I (λ a. I) (commit id rec)
    unfolding commit
    commit-Good id rec =
        Triple-bind I (λ r t. I r t × (holds rec.s3_key t ≡ true)) (λ a. I) (λ a. I) _ _
          (save_file-Good s3 laws staged rec)
          (λ a.
            Keeping-then s3 laws staged _ _ (announce-Good s3 laws staged (file_create rec))
              (λ b. delete_session-Good s3 laws staged id))

    -- The parts of the session that the completion has read are all in place.
    abbrev Whole : UploadSession → Rows → S → Type 0
    Whole s r t = I r t × InPlace s3 laws s t

    Whole-IsBlind : (s : UploadSession) → IsBlind s3 laws (Whole s)
    Whole-IsBlind s r ms t u k p =
        (blind s3 laws staged r ms t u k p.0, λ one. k s.s3_key (p.1 one))

    finished :
        (s : UploadSession) (r : Rows) (t : S)
        → IsFinished s3 laws (Whole s) (Whole-IsBlind s) s r t
        → I r t × (holds s.s3_key t ≡ true)
    finished s r t (w, inl one) = (w.0, w.1 one)
    finished s r t (w, inr h) = (w.0, h)

    -- What is known of the session that was read.
    abbrev Has : Option UploadSession → Rows → S → Type 0
    Has u r t =
        I r t
        × ((s : UploadSession) → u ≡ some s → any_missing s.etags ≡ false → InPlace s3 laws s t)

    finish_whole :
        (id : String) (req : CompleteRequest) (now : ℤ) (s : UploadSession)
        → any_missing s.etags ≡ false
        → Triple
            (Has (some s))
            I
            (λ a. I)
            (do finish_bytes s3 s; commit id (new_record id req now s))
    unfolding new_record
    finish_whole id req now s m =
        Triple-bind I (Has (some s)) (λ a r t. I r t × (holds s.s3_key t ≡ true)) (λ a. I) _ _
          (record {
            ends = λ w h.
                (Triple-weaken (Whole s) (Whole s) I
                    (λ a. IsFinished s3 laws (Whole s) (Whole-IsBlind s) s)
                    (λ a r t. I r t × (holds s.s3_key t ≡ true)) _
                    (finish_bytes-Triple s3 laws (Whole s) (Whole-IsBlind s) s) (λ r t q. q.0)
                    (λ a r t q. finished s r t q)).ends
                  w (h.0, h.1 s refl m);
          })
          (λ a. commit-Good id (new_record id req now s))

    complete_session-Good :
        (id : String) (req : CompleteRequest) (now : ℤ) (caller : String) (s : UploadSession)
        → Triple (Has (some s)) I (λ a. I) (complete_session s3 id req now caller s)
    unfolding complete_session
    complete_session-Good id req now caller s =
        Triple-if I (Has (some s)) (λ a. I) (not (str_eq s.owner_sub caller)) _ _
          (λ e. Triple-fail I (Has (some s)) (λ a. I) _ (λ r t h. h.0))
          (λ e.
            Triple-if I (Has (some s)) (λ a. I) (any_missing s.etags) _ _
              (λ e'. Triple-fail I (Has (some s)) (λ a. I) _ (λ r t h. h.0))
              (λ e'. finish_whole id req now s e'))

    announce_again-Good :
        (id : String) (rec : FileRecord) (u : Option UploadSession)
        → Triple I I (λ a. I) (announce_again id rec u)
    unfolding announce_again
    announce_again-Good id rec none = Keeping-pure s3 laws staged tt
    announce_again-Good id rec (some s) =
        Keeping-then s3 laws staged _ _ (announce-Good s3 laws staged (file_create rec))
          (λ b. delete_session-Good s3 laws staged id)

    complete_found-Good :
        (id : String) (req : CompleteRequest) (now : ℤ) (caller : String) (f : Option FileRecord)
        (u : Option UploadSession)
        → Triple (Has u) I (λ a. I) (complete_found s3 id req now caller f u)
    unfolding complete_found
    complete_found-Good id req now caller (some rec) u =
        Triple-if I (Has u) (λ a. I) (not (str_eq rec.owner_sub caller)) _ _
          (λ e. Triple-fail I (Has u) (λ a. I) _ (λ r t h. h.0))
          (λ e. record { ends = λ w h. (announce_again-Good id rec u).ends w h.0 })
    complete_found-Good id req now caller none none =
        Triple-fail I (Has none) (λ a. I) _ (λ r t h. h.0)
    complete_found-Good id req now caller none (some s) = complete_session-Good id req now caller s

    pub complete_upload-Good :
        (id : String) (req : CompleteRequest) (now : ℤ) (caller : String)
        → Triple I I (λ a. I) (complete_upload s3 id req now caller)
    unfolding complete_upload find_file get_session on_tables
    complete_upload-Good id req now caller =
        Keeping-then s3 laws staged _ _
          (peek s3 laws I (blind s3 laws staged) (λ r. lookup id r.tables.files))
          (λ f.
            Triple-bind I I Has (λ a. I) _ _
              (Triple-call I I Has (λ r. (lookup id r.sessions, r))
                (λ r t g. (g, g, (g, λ s q m. g.0.of_session id s q m))))
              (λ u. complete_found-Good id req now caller f u))

    cancel_multipart-Good :
        (s : UploadSession) (u : Option String)
        → s.s3_upload_id ≡ u
        → Triple I I (λ a. I) (cancel_multipart s3 s u)
    unfolding cancel_multipart abort_session_upload
    cancel_multipart-Good s none e = Keeping-pure s3 laws staged tt
    cancel_multipart-Good s (some u) e =
        subst (λ x. Triple I I (λ a. I) (abort_upload s3 s x)) (sym e)
          (abort_upload-Triple s3 laws I (blind s3 laws staged) s u)

    cancel_found-Good :
        (id caller : String) (u : Option UploadSession)
        → Triple I I (λ a. I) (cancel_found s3 id caller u)
    unfolding cancel_found
    cancel_found-Good id caller none = Keeping-fail s3 laws staged _
    cancel_found-Good id caller (some s) =
        Triple-if I I (λ a. I) (not (str_eq s.owner_sub caller)) _ _
          (λ e. Keeping-fail s3 laws staged _)
          (λ e.
            Keeping-then s3 laws staged _ _ (cancel_multipart-Good s s.s3_upload_id refl)
              (λ a. delete_session-Good s3 laws staged id))

    pub cancel_upload-Good : (id caller : String) → Triple I I (λ a. I) (cancel_upload s3 id caller)
    unfolding cancel_upload get_session
    cancel_upload-Good id caller =
        Keeping-then s3 laws staged _ _
          (peek s3 laws I (blind s3 laws staged) (λ r. lookup id r.sessions))
          (λ u. cancel_found-Good id caller u)

    Good-tables :
        {A : Type 0} (g : Tables → A × Tables)
        → ((t : Tables) → (g t).1.files ≡ t.files)
        → Triple I I (λ a. I) (on_tables g)
    unfolding on_tables
    Good-tables g k =
        Good-call s3 laws staged _
          (λ r id rec h. subst (λ fs. lookup id fs ≡ some rec) (k r.tables) h) (λ r id s h. h)

    Good-answer : {A : Type 0} (x : Result A) → Triple I I (λ a. I) (answer x)
    Good-answer x = Triple-answer I I (λ a. I) x (λ r t p. p) (λ a r t p. p)

    attach_found-Good : (x : Rel) (f : Option FileRecord) → Triple I I (λ a. I) (attach_found x f)
    unfolding attach_found add_marker
    attach_found-Good (ty, rid, f) none = Keeping-fail s3 laws staged _
    attach_found-Good (ty, rid, f) (some rec) =
        Keeping-then s3 laws staged _ _
          (Good-tables (add_marker (rel_key ty rid f)) (λ t. ground arith))
          (λ n.
            Keeping-then s3 laws staged _ _ (announce-Good s3 laws staged (WalOp.attach ty rid f))
              (λ a. Keeping-pure s3 laws staged n))

    pub attach-Good :
        (allowed : Result (Unit {0})) (x : Rel) → Triple I I (λ a. I) (attach allowed x)
    unfolding attach find_file
    attach-Good allowed (ty, rid, f) = Keeping-then s3 laws staged _ _ (Good-answer allowed) (λ a.
        Keeping-then s3 laws staged _ _ (Good-tables (λ t. (lookup f t.files, t)) (λ t. refl))
          (λ found. attach_found-Good (ty, rid, f) found))

    pub detach-Good :
        (allowed : Result (Unit {0})) (now : ℤ) (x : Rel)
        → Triple I I (λ a. I) (detach allowed now x)
    unfolding detach remove_marker
    detach-Good allowed now (ty, rid, f) =
        Keeping-then s3 laws staged _ _ (Good-answer allowed) (λ a.
          Keeping-then s3 laws staged _ _
            (Good-tables (remove_marker now (rel_key ty rid f)) (λ t. ground arith))
            (λ n.
              Keeping-then s3 laws staged _ _ (announce-Good s3 laws staged (WalOp.detach ty rid f))
                (λ b. Keeping-pure s3 laws staged n)))
