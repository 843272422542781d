-- ===== src/Fs/Client/Restored.antt =====
-- fs/object_store.rs: a restored multipart upload and its completion.
use rust_api.Fs.Objects.{PersistedMultipart}
use rust_api.Fs.Client.Ordered.{ordered-Matches, Matches-ordered, Matches}
use rust_api.Prelude.Maps.{lookup, put, remove, lookup-put, OrderedMap}
use rust_api.Fs.{ok, internal, err, FsError, Result}
use rust_api.Prelude.{
  str_eq, ◌≢◌, arith, inr, inl, ◌==◌, ◌⊎◌, Bool-cases, some, length, refl, eq_iff, false, String,
  ◌≡◌, List,
}
use rust_api.Fs.Client.{
  set_state, complete_multipart_upload, take_state, path_of, restore_multipart, ordered,
  from_answer, ObjectStoreClient, on_backend, is_other, complete_taken, complete_ordered,
  MultipartState, MultipartStore,
}
use rust_api.Fs.Store.{◌>>◌}

pub outcome-cases {ℓ} :
    {A : Type ℓ} (x : Result A) → ((e : FsError) × (x ≡ err e)) ⊎ ((a : A) × (x ≡ ok a))
outcome-cases (err e) = inl (e, refl)
outcome-cases (ok a) = inr (a, refl)

module _ {B : Type 0} (store : MultipartStore B) where
  open store use {complete_multipart}

  -- The etags are the parts, one for one.
  abbrev pub Fits : List String → OrderedMap String → Type 0
  Fits etags parts = (length etags ≡ length parts) × Matches 0 etags parts

  -- Either the backend is given exactly the etags, or it is left alone.
  abbrev pub Completes :
      MultipartState → List String → B → Result (Unit {0}) × ObjectStoreClient B → Type 0
  Completes state etags b out =
      (Fits etags state.parts
        × (out.0 ≡ from_answer (complete_multipart state.path state.id etags b).0)
        × (out.1.backend ≡ (complete_multipart state.path state.id etags b).1))
      ⊎ ((¬ (Fits etags state.parts)) × ((e : FsError) × (out.0 ≡ err e)) × (out.1.backend ≡ b))

  pub is_other-same : (state : MultipartState) → is_other state.bucket state.key state ≡ false
  unfolding is_other
  is_other-same state =
      rw ((eq_iff state.bucket state.bucket).1 refl, (eq_iff state.key state.key).1 refl) refl

  pub complete_ordered-either :
      (state : MultipartState) (etags : List String) (c : ObjectStoreClient B)
      → length etags ≡ length state.parts
      → Completes state etags c.backend
          (complete_ordered store state (ordered 0 etags state.parts) c)
  unfolding complete_ordered on_backend
  complete_ordered-either state etags c same = elim (outcome-cases (ordered 0 etags state.parts)) [
    | inl (e, q) ↦
        inr (λ fits. cc (q, Matches-ordered 0 etags state.parts fits.1), (e, rw q refl), rw q refl)
    | inr (ids, q) ↦
        let (whole, m) = ordered-Matches 0 etags state.parts ids q in
        inl ((same, m), rw (q, whole) refl, rw (q, whole) refl)
  ]

  complete_taken-either :
      (state : MultipartState) (etags : List String) (c : ObjectStoreClient B)
      → Completes state etags c.backend
          (complete_taken store state.bucket state.key etags (some state) c)
  unfolding complete_taken
  complete_taken-either state etags c = elim (Bool-cases (length etags == length state.parts)) [
    | inl x ↦
        rw (is_other-same state, x) (complete_ordered-either state etags c (ground (arith, x)))
    | inr x ↦
        rw (is_other-same state, x)
          (inr (λ fits. ground (arith, x, fits.0), (internal "etag count", refl), refl))
  ]

  pub found_again :
      (u : String) (state : MultipartState) (c : ObjectStoreClient B)
      → lookup u (put u state c.states) ≡ some state
  found_again u state c = rw (lookup-put u u state c.states, (eq_iff u u).1 refl) refl

  pub completed_kept :
      (u : String) (state : MultipartState) (etags : List String) (c : ObjectStoreClient B)
      → lookup u c.states ≡ some state
      → Completes state etags c.backend
          (complete_multipart_upload store state.bucket state.key u etags c)
  unfolding complete_multipart_upload take_state
  completed_kept u state etags c h =
      rw h (complete_taken-either state etags (record c { states = remove u c.states }))

  pub restored : PersistedMultipart → ObjectStoreClient B → MultipartState
  unfolding path_of
  restored m c = record {
    bucket = m.bucket;
    key = m.key;
    path = path_of store m.bucket m.key c;
    id = m.s3_upload_id;
    parts = m.parts;
  }

  differs : (a b : String) → a ≢ b → str_eq a b ≡ false
  differs a b h = elim (Bool-cases (str_eq a b)) [
    | inl x ↦ absurd (h ((eq_iff a b).0 x))
    | inr x ↦ x
  ]

  -- After a multipart record with a bucket and a key is restored, a completion under its alias gives
  -- the backend exactly the etags, in order, where they are the record's parts one for one, and
  -- answers what the backend answers; otherwise it answers an error and leaves the backend alone.
  pub complete_multipart_upload-restore_multipart :
      (m : PersistedMultipart) (etags : List String) (c : ObjectStoreClient B)
      → m.bucket ≢ ""
      → m.key ≢ ""
      → Completes (restored m c) etags c.backend (
          (do
            restore_multipart store m
            complete_multipart_upload store m.bucket m.key m.upload_id etags)
            c)
  unfolding restore_multipart restored set_state
  complete_multipart_upload-restore_multipart m etags c b k =
      rw (differs m.bucket "" b, differs m.key "" k)
        (completed_kept m.upload_id (restored m c) etags (set_state m.upload_id (restored m c) c).1
          (found_again m.upload_id (restored m c) c))
