-- ===== src/Fs/Engine/Covered.antt =====
-- fs/mod.rs, merge_part: the multipart record is written before the session.
pub mod Merged
use rust_api.Fs.Objects.{PersistedMultipart}
use rust_api.Fs.Engine.{load_multipart, get_session, save_multipart, World, save_session, Rows}
use rust_api.Fs.Engine.Uploads.{
  set, merge_record, merge_found, Staged, merge_parts, merged, merge_part,
}
use rust_api.Fs.Upload.{UploadSession}
use rust_api.Fs.Store.{◌>>=◌, ◌>>◌, resume, pure}
use rust_api.Prelude.Maps.{insert, put, lookup, lookup-put, get, get-insert}
use rust_api.Prelude.{
  ◌==◌, length, leb, Bool-cases, ap, sym, inr, zero, not, arith, subst, [], true, eq_iff, suc, inl,
  str_eq, ◌⊎◌, ◌∷◌, some, none, ◌≡◌, Option, ℕ, List, String, refl, if◌then◌else◌,
}
use rust_api.Fs.Engine.Ends.{
  Triple-if, Triple-fail, Triple-bind, Ends-holds, Triple-pure, Triple-call, Triple,
}

abbrev pub get_elem? {ℓ} : {A : Type ℓ} → List A → ℕ → Option A
get_elem? [] i = none
get_elem? (x ∷ xs) zero = some x
get_elem? (x ∷ xs) (suc i) = get_elem? xs i

pub get_elem?-set :
    (xs : List (Option String)) (i j : ℕ) (v : Option String) (y : Option String)
    → get_elem? (set xs i v) j ≡ some y
    → (i ≡ j) ⊎ (get_elem? xs j ≡ some y)
get_elem?-set [] i j v y h = absurd (cc)
get_elem?-set (x ∷ xs) zero zero v y h = inl refl
get_elem?-set (x ∷ xs) zero (suc j) v y h = inr h
get_elem?-set (x ∷ xs) (suc i) zero v y h = inr h
get_elem?-set (x ∷ xs) (suc i) (suc j) v y h = elim (get_elem?-set xs i j v y h) [
  | inl e ↦ inl (ap suc e)
  | inr e ↦ inr e
]

-- The record has a part under the index.
abbrev pub HasPart : ℕ → PersistedMultipart → Type 0
HasPart i m = (e : String) × (get i m.parts ≡ some e)

-- Each part that the session has, the record has too; both rows are kept under their own ids.
abbrev pub IsCovered : String → String → Rows → Type 0
IsCovered id u r =
    ((s : UploadSession) → lookup id r.sessions ≡ some s → s.id ≡ id)
    × (((m : PersistedMultipart) → lookup u r.multiparts ≡ some m → m.upload_id ≡ u)
        × ((s : UploadSession) (m : PersistedMultipart) (i : ℕ) (e : String)
            → lookup id r.sessions ≡ some s
            → lookup u r.multiparts ≡ some m
            → get_elem? s.etags i ≡ some (some e)
            → HasPart i m))

insert-HasPart :
    (i j : ℕ) (v : String) (m : PersistedMultipart)
    → (i ≡ j) ⊎ HasPart j m
    → HasPart j (record m { parts = insert i v m.parts })
insert-HasPart i j v m (inl e) = (v, ground (arith, get-insert i j v m.parts))
insert-HasPart i j v m (inr (w, h)) = elim (Bool-cases (i == j)) [
  | inl e ↦ (v, rw (get-insert i j v m.parts, e) refl)
  | inr e ↦ (w, rw (get-insert i j v m.parts, e) h)
]

module _ (id u : String) where
  pub put_part-IsCovered :
      (i : ℕ) (v : String) (m : PersistedMultipart) (r : Rows)
      → lookup u r.multiparts ≡ some m
      → IsCovered id u r
      → IsCovered id u (record r {
        multiparts = put m.upload_id (record m { parts = insert i v m.parts }) r.multiparts;
      })
  put_part-IsCovered i v m r h c =
      let key : m.upload_id ≡ u = c.1.0 m h in
      let new : PersistedMultipart = record m { parts = insert i v m.parts } in
      let found : (str_eq m.upload_id u) ≡ true = (eq_iff m.upload_id u).1 key in
      (
        c.0,
        (
          λ m' q.
              let same : record m { parts = insert i v m.parts } ≡ m' = cc (
                rw
                  (
                    lookup-put m.upload_id u (record m { parts = insert i v m.parts }) r.multiparts,
                    found,
                  )
                  at q) in
              subst (λ (x : PersistedMultipart). x.upload_id ≡ u) same key,
          λ s m' j e hs q g.
              let same : record m { parts = insert i v m.parts } ≡ m' = cc (
                rw
                  (
                    lookup-put m.upload_id u (record m { parts = insert i v m.parts }) r.multiparts,
                    found,
                  )
                  at q) in
              subst (HasPart j) same (insert-HasPart i j v m (inr (c.1.1 s m j e hs h g))),
        ),
      )

  pub put_part-HasPart :
      (i : ℕ) (v : String) (m : PersistedMultipart) (r : Rows)
      → m.upload_id ≡ u
      → (m' : PersistedMultipart)
      → lookup u (put m.upload_id (record m { parts = insert i v m.parts }) r.multiparts) ≡ some m'
      → HasPart i m'
  put_part-HasPart i v m r key m' q =
      let same : record m { parts = insert i v m.parts } ≡ m' = cc (
        rw
          (
            lookup-put m.upload_id u (record m { parts = insert i v m.parts }) r.multiparts,
            (eq_iff m.upload_id u).1 key,
          )
          at q) in
      subst (HasPart i) same (insert-HasPart i i v m (inl refl))
