-- ===== src/Fs/Client/Uploaded.antt =====
-- fs/object_store.rs: a multipart upload from its creation to its completion.
use rust_api.Fs.Client.Restored.{completed_kept, found_again, is_other-same, outcome-cases}
use rust_api.Fs.{Result, ok, err, FsError}
use rust_api.Fs.Client.Ordered.{
  Matches-enumerate, length-enumerate, Below-last, insert_last, Below, enumerate,
}
use rust_api.Prelude.{
  ◌∙◌, sym, arith, ◌-◌, ap, refl, false, ltb, inr, inl, ◌⊎◌, some, ◌≡◌, [], ◌+◌, ◌∷◌, ◌++◌, List, ℕ,
  String,
}
use rust_api.Fs.Client.{
  complete_multipart_upload, answered, path_of, create_multipart_upload, from_answer,
  ObjectStoreClient, set_state, keep_part, C, on_backend, put_found, find_state, upload_part,
  MultipartState, MultipartStore,
}
use rust_api.Fs.Store.{◌>>=◌, resume, pure}
use rust_api.Prelude.Maps.{lookup}
use mathlib.Core.List.{append_assoc, append-nil}

resume-ok {ℓ κ ν} :
    {A : Type ℓ} {D : Type κ} {S : Type ν} (f : A → S → Result D × S) (r : Result A × S) (d : D)
    → (resume f r).0 ≡ ok d
    → (a : A) × (r.0 ≡ ok a) × (resume f r ≡ f a r.1)
resume-ok f (ok a, s) d h = (a, refl, refl)
resume-ok f (err e, s) d h = absurd (cc h)

ok-injective {ℓ} : {A : Type ℓ} (a b : A) → ok a ≡ ok b → a ≡ b
ok-injective a b h = cc h

module _ {B : Type 0} (store : MultipartStore B) where
  open store use {create_multipart, put_part, complete_multipart}

  -- The parts of an upload, one after the other; what is answered is each part's etag.
  unfoldable pub put_all : String → String → String → ℕ → List (List ℕ) → C B (List String)
  put_all bucket key u i [] = pure []
  put_all bucket key u i (body ∷ bodies) = do
    etag ← upload_part store bucket key u (i + 1) body
    etags ← put_all bucket key u (i + 1) bodies
    pure (etag ∷ etags)

  pub extend : MultipartState → ℕ → List String → MultipartState
  extend state i etags = record state { parts = state.parts ++ enumerate i etags }

  from_one : (i : ℕ) → (ltb (i + 1) 1 ≡ false) × (i + 1 - 1 ≡ i)
  from_one i = (ground arith, omega arith)

  upload_part-put_found :
      (u bucket key : String) (i : ℕ) (body : List ℕ) (c : ObjectStoreClient B)
      → upload_part store bucket key u (i + 1) body c
        ≡ put_found store bucket key u i body (lookup u c.states) c
  unfolding upload_part find_state
  upload_part-put_found u bucket key i body c =
      let (late, index) = from_one i in rw (late, index) refl

  -- What one part leaves: an error, or the part's etag, kept under the part's index.
  abbrev pub Keeps : String → MultipartState → ℕ → Result String × ObjectStoreClient B → Type 0
  Keeps u state i out =
      ((e : FsError) × (out.0 ≡ err e))
      ⊎ ((etag : String) × (out.0 ≡ ok etag)
          × (lookup u out.1.states ≡ some (extend state i (etag ∷ []))))

  put_found-Keeps :
      (u : String) (state : MultipartState) (i : ℕ) (body : List ℕ) (c : ObjectStoreClient B)
      → lookup u c.states ≡ some state
      → Below i state.parts
      → Keeps u state i (put_found store state.bucket state.key u i body (some state) c)
  unfolding find_state put_found on_backend keep_part set_state extend enumerate
  put_found-Keeps u state i body c h below =
      elim (outcome-cases (from_answer (put_part state.path state.id i body c.backend).0)) [
        | inl (e, q) ↦ inl (e, rw (is_other-same store state, q) refl)
        | inr (etag, q) ↦ inr (
          etag,
          rw (is_other-same store state, q, h) refl,
          rw (is_other-same store state, q, h, insert_last i etag state.parts below)
              (found_again store u (extend state i (etag ∷ [])) c),
        )
      ]

  upload_part-Keeps :
      (u : String) (state : MultipartState) (i : ℕ) (body : List ℕ) (c : ObjectStoreClient B)
      → lookup u c.states ≡ some state
      → Below i state.parts
      → Keeps u state i (upload_part store state.bucket state.key u (i + 1) body c)
  upload_part-Keeps u state i body c h below =
      rw (upload_part-put_found u state.bucket state.key i body c, h)
        (put_found-Keeps u state i body c h below)

  kept-ok :
      (u : String) (state : MultipartState) (i : ℕ) (out : Result String × ObjectStoreClient B)
      (etag : String)
      → Keeps u state i out
      → out.0 ≡ ok etag
      → lookup u out.1.states ≡ some (extend state i (etag ∷ []))
  kept-ok u state i out etag (inl (e, p)) q = absurd (cc (p, q))
  kept-ok u state i out etag (inr (x, p, k)) q =
      k ∙ ap (λ e. some (extend state i (e ∷ []))) (ok-injective x etag (sym p ∙ q))

  extend-extend :
      (state : MultipartState) (i : ℕ) (etag : String) (etags : List String)
      → extend (extend state i (etag ∷ [])) (i + 1) etags ≡ extend state i (etag ∷ etags)
  unfolding extend enumerate
  extend-extend state i etag etags =
      ap (λ parts. record state { parts = parts })
        (append_assoc state.parts ((i, etag) ∷ []) (enumerate (i + 1) etags))

  collect : String → String → String → ℕ → List (List ℕ) → String → C B (List String)
  collect bucket key u i bodies etag = do etags ← put_all bucket key u i bodies; pure (etag ∷ etags)

  untouched :
      (state : MultipartState) (i : ℕ) (etags : List String)
      → ok [] ≡ ok etags
      → state ≡ extend state i etags
  unfolding extend enumerate
  untouched state i [] done =
      ap (λ parts. record state { parts = parts }) (sym (append-nil state.parts))
  untouched state i (etag ∷ etags) done = absurd (cc done)

  put_all-keeps :
      (u : String) (state : MultipartState) (i : ℕ) (bodies : List (List ℕ))
      (c : ObjectStoreClient B) (etags : List String)
      → lookup u c.states ≡ some state
      → Below i state.parts
      → (put_all state.bucket state.key u i bodies c).0 ≡ ok etags
      → lookup u (put_all state.bucket state.key u i bodies c).1.states
        ≡ some (extend state i etags)
  unfolding put_all collect extend enumerate
  put_all-keeps u state i [] c etags h below done = h ∙ ap some (untouched state i etags done)
  put_all-keeps u state i (body ∷ bodies) c etags h below done =
      let (etag, q, next) =
        resume-ok (collect state.bucket state.key u (i + 1) bodies)
          (upload_part store state.bucket state.key u (i + 1) body c) etags done in
      let c1 = (upload_part store state.bucket state.key u (i + 1) body c).1 in
      let (rest, q2, next2) =
        resume-ok (λ etags. pure (etag ∷ etags))
          (put_all state.bucket state.key u (i + 1) bodies c1) etags
          (sym (ap (λ r. r.0) next) ∙ done) in
      let kept =
        kept-ok u state i (upload_part store state.bucket state.key u (i + 1) body c) etag
          (upload_part-Keeps u state i body c h below) q in
      let ih =
        put_all-keeps u (extend state i (etag ∷ [])) (i + 1) bodies c1 rest kept
          (Below-last i etag state.parts below) q2 in
      let same = ok-injective (etag ∷ rest) etags (sym (ap (λ r. r.0) (next ∙ next2)) ∙ done) in
      ap (λ r. lookup u r.1.states) (next ∙ next2)
      ∙ ih
      ∙ ap some (extend-extend state i etag rest ∙ ap (extend state i) same)

  created : String → String → String → ObjectStoreClient B → MultipartState
  created bucket key id c = record {
    bucket = bucket;
    key = key;
    path = path_of store bucket key c;
    id = id;
    parts = [];
  }

  create-keeps :
      (u bucket key id : String) (c : ObjectStoreClient B)
      → (create_multipart (path_of store bucket key c) c.backend).0 ≡ answered id
      → lookup u (create_multipart_upload store u bucket key c).1.states
        ≡ some (created bucket key id c)
  unfolding create_multipart_upload on_backend set_state created
  create-keeps u bucket key id c made = rw made (found_again store u (created bucket key id c) c)

  -- An upload that the backend creates, whose parts are put one after the other from the first on and
  -- each answered, is completed with the answered etags: the backend's completion is called with the
  -- created path and id and exactly these etags, in order, and its answer is what is answered.
  pub complete_multipart_upload-put_all :
      (u bucket key id : String) (bodies : List (List ℕ)) (etags : List String)
      (c c2 : ObjectStoreClient B)
      → (create_multipart (path_of store bucket key c) c.backend).0 ≡ answered id
      → put_all bucket key u 0 bodies (create_multipart_upload store u bucket key c).1
        ≡ (ok etags, c2)
      → ((complete_multipart_upload store bucket key u etags c2).0
          ≡ from_answer (complete_multipart (path_of store bucket key c) id etags c2.backend).0)
        × ((complete_multipart_upload store bucket key u etags c2).1.backend
            ≡ (complete_multipart (path_of store bucket key c) id etags c2.backend).1)
  unfolding created extend
  complete_multipart_upload-put_all u bucket key id bodies etags c c2 made uploaded =
      let state = created bucket key id c in
      let kept =
        put_all-keeps u state 0 bodies (create_multipart_upload store u bucket key c).1 etags
          (create-keeps u bucket key id c made) tt (ap (λ r. r.0) uploaded) in
      let found = sym (ap (λ r. lookup u r.1.states) uploaded) ∙ kept in
      elim (completed_kept store u (extend state 0 etags) etags c2 found) [
        | inl (fits, answer, left) ↦ (answer, left)
        | inr (misfit, e, left) ↦
            absurd (misfit (sym (length-enumerate 0 etags), Matches-enumerate 0 etags [] tt))
      ]
