-- ===== src/Fs/Client/Tests.antt =====
-- fs/object_store.rs: runs of the multipart uploads, over a backend that keeps what it completed.
use rust_api.Fs.Store.{◌>>◌}
use mathlib.Core.Path.{refl}
use rust_api.Fs.Client.Uploaded.{complete_multipart_upload-put_all, put_all}
use rust_api.Fs.Objects.{PersistedMultipart}
use rust_api.Prelude.{eq_iff, pos, ◌≡◌, false, String, ◌∷◌, [], ℕ, List}
use rust_api.Fs.Client.Restored.{complete_multipart_upload-restore_multipart, restored, Completes}
use rust_api.Fs.Client.{
  restore_multipart, path_of, from_answer, backend_other, complete_multipart_upload, refused,
  on_backend, Answer, upload_part, create_multipart_upload, answered, MultipartStore,
  ObjectStoreClient,
}

-- The etags of each completion, in order.
abbrev Completed : Type 0
Completed = List (List String)

-- A part's etag tells its length; an empty part is refused.
named : List ℕ → Answer String
named [] = refused (backend_other "empty")
named (b ∷ []) = answered "one"
named (b ∷ bs) = answered "more"

memory : MultipartStore Completed
unfolding named
memory = record {
  path_from = λ p. p;
  create_multipart = λ p s. (answered "backend", s);
  put_part = λ p u i body s. (named body, s);
  complete_multipart = λ p u etags s. (answered tt, etags ∷ s);
  abort_multipart = λ p u s. (answered tt, s);
}

abbrev empty : ObjectStoreClient Completed
empty = record { states = []; is_memory = false; backend = [] }

abbrev kept : PersistedMultipart
kept = record {
  upload_id = "alias";
  bucket = "b";
  key = "k";
  s3_upload_id = "backend";
  parts = (0, "one") ∷ (1, "more") ∷ [];
  created_at = pos 0;
}

complete_multipart_upload-restore_multipart_example :
    Completes memory (restored memory kept empty) ("one" ∷ "more" ∷ []) [] (
      (do
        restore_multipart memory kept
        complete_multipart_upload memory "b" "k" "alias" ("one" ∷ "more" ∷ []))
        empty)
complete_multipart_upload-restore_multipart_example =
    complete_multipart_upload-restore_multipart memory kept ("one" ∷ "more" ∷ []) empty
      (λ h. absurd (cc ((eq_iff "b" "").1 h))) (λ h. absurd (cc ((eq_iff "k" "").1 h)))

abbrev after : ObjectStoreClient Completed
after =
    (put_all memory "b" "k" "u" 0 ((7 ∷ []) ∷ (8 ∷ 9 ∷ []) ∷ [])
      (create_multipart_upload memory "u" "b" "k" empty).1).1

complete_multipart_upload-put_all_example :
    ((complete_multipart_upload memory "b" "k" "u" ("one" ∷ "more" ∷ []) after).0
      ≡ from_answer
          (memory.complete_multipart
            (path_of memory "b" "k" empty)
            "backend"
            ("one" ∷ "more" ∷ [])
            after.backend).0)
    × ((complete_multipart_upload memory "b" "k" "u" ("one" ∷ "more" ∷ []) after).1.backend
        ≡ (memory.complete_multipart
            (path_of memory "b" "k" empty)
            "backend"
            ("one" ∷ "more" ∷ [])
            after.backend).1)
unfolding memory named put_all create_multipart_upload upload_part on_backend
complete_multipart_upload-put_all_example =
    complete_multipart_upload-put_all memory "u" "b" "k" "backend" ((7 ∷ []) ∷ (8 ∷ 9 ∷ []) ∷ [])
      ("one" ∷ "more" ∷ []) empty after refl refl
