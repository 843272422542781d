-- ===== src/Fs/Engine/Spared.antt =====
-- fs/gc.rs: what a sweep leaves alone, whatever calls fail.
pub mod Swept
use rust_api.Fs.Upload.{UploadSession}
use rust_api.Fs.Engine.Blind.{peek, abort_upload-Triple, IsBlind}
use rust_api.Fs.Engine.Complete.{abort_upload, abort_session_upload}
use rust_api.Fs.Engine.{remove_session, on_objects, get_session, E, delete_session, World, Rows}
use rust_api.Records.{FileRecord}
use rust_api.Fs.Objects.{IsStorage, S3Client}
use rust_api.Fs.Engine.Sweep.{
  is_expired, is_past, attempt, sweep_session, sweep_found, sweep_gone, sweep_sessions, values,
  file_keys, age_from, has_key,
}
use rust_api.Fs.Store.{ref_info, RefInfo, ◌>>=◌, ◌>>◌, resume, pure}
use rust_api.Prelude.Maps.{Dict, lookup, lookup-remove}
use rust_api.Prelude.{
  eq_iff, sym, subst, str_eq, Bool-cases, inr, [], arith, ◌+◌, inl, ◌∷◌, ◌⊎◌, none, ◌++◌, false,
  some, ◌||◌, true, ◌≢◌, not, ◌≡◌, Option, List, ◌==◌, String, ℤ, refl, if◌then◌else◌,
}
use rust_api.Fs.Engine.Ends.{
  Triple-call, Triple-objects, Triple-attempt, Triple-if, Triple-bind, Triple-pure, Triple,
}

-- The file has references, or the last one went less than a day ago.
abbrev pub IsNeeded : ℤ → RefInfo → Type 0
IsNeeded now i =
    ((i.count == 0) ≡ false) ⊎ ((t : ℤ) × ((i.orphan_since ≡ some t) × (is_past now t ≡ false)))

-- A needed file is none that the sweep takes.
pub needed_kept :
    (now : ℤ) (i : RefInfo) (f : FileRecord)
    → IsNeeded now i
    → (not (i.count == 0) || not (is_past now (age_from i f))) ≡ true
unfolding age_from
needed_kept now i f (inl e) = rw e refl
needed_kept now i f (inr (t, (e, p))) = elim (Bool-cases (i.count == 0)) [
  | inl z ↦ rw (z, e, p) refl
  | inr z ↦ rw z refl
]

pub has_key-append :
    (k : String) (xs ys : List String) → has_key k ys ≡ true → has_key k (xs ++ ys) ≡ true
unfolding has_key
has_key-append k [] ys h = h
has_key-append k (x ∷ xs) ys h = ground (arith, has_key-append k xs ys h)

pub has_key-file_keys :
    (id : String) (rec : FileRecord) (m : Dict FileRecord)
    → lookup id m ≡ some rec
    → has_key rec.s3_key (file_keys (values m)) ≡ true
unfolding has_key file_keys values lookup
has_key-file_keys id rec [] h = absurd (cc)
has_key-file_keys id rec ((j, f) ∷ m) h = elim (Bool-cases (str_eq j id)) [
  | inl e ↦
      let same : f ≡ rec = cc (rw e at h) in
      subst (λ x. has_key rec.s3_key (x.s3_key ∷ file_keys (values m)) ≡ true) (sym same)
        (rw ((eq_iff rec.s3_key rec.s3_key).1 refl) refl)
  | inr e ↦ let rest = has_key-file_keys id rec m (rw e at h) in ground (arith, rest)
]

module _ {S : Type 0} (s3 : S3Client S) (laws : IsStorage s3) (now : ℤ) (id : String)
    (rec : FileRecord) (info : RefInfo) (needed : IsNeeded now info) where
  open s3 use {holds, delete_object, list_keys}

  -- The file is as it was and its object is there, and no expired session has its key.
  abbrev pub Spared : Rows → S → Type 0
  Spared r t =
      (lookup id r.tables.files ≡ some rec)
      × ((ref_info id r.tables ≡ info)
          × ((holds rec.s3_key t ≡ true)
              × ((j : String) (s : UploadSession)
                  → lookup j r.sessions ≡ some s
                  → is_expired now s ≡ true
                  → s.s3_key ≢ rec.s3_key)))

  pub Spared-then :
      {A B : Type 0} (m : E S A) (f : A → E S B)
      → Triple Spared Spared (λ a. Spared) m
      → ((a : A) → Triple Spared Spared (λ a. Spared) (f a))
      → Triple Spared Spared (λ a. Spared) (m >>= f)
  Spared-then m f h k = Triple-bind Spared Spared (λ a. Spared) (λ a. Spared) m f h k

  pub Spared-pure : {A : Type 0} (a : A) → Triple Spared Spared (λ a. Spared) (pure {S = World S} a)
  Spared-pure a = Triple-pure Spared Spared (λ a. Spared) a (λ r t p. p)

  pub attempt-Spared :
      {A : Type 0} (P : Rows → S → Type 0) (m : E S A)
      → Triple P Spared (λ a. Spared) m
      → Triple P Spared (λ a. Spared) (attempt m)
  attempt-Spared P m h =
      Triple-attempt Spared P (λ a. Spared) (λ a. Spared) m h (λ r t p. p) (λ a r t p. p)

  pub Spared-IsBlind : IsBlind s3 laws Spared
  Spared-IsBlind r ms t u k p = (p.0, (p.1.0, (k rec.s3_key p.1.1.0, p.1.1.1)))

  -- The deletion of another object.
  pub delete_object-Spared :
      (k : String)
      → k ≢ rec.s3_key
      → Triple Spared Spared (λ a. Spared) (on_objects (delete_object k))
  delete_object-Spared k n =
      Triple-objects Spared Spared (λ a. Spared) (delete_object k)
        (λ r t p.
          let q : Spared r (delete_object k t).1 =
            (p.0, (p.1.0, (laws.delete_keeps k rec.s3_key t n p.1.1.0, p.1.1.1))) in
          (q, λ a h. q))

  abort-Spared :
      (s : UploadSession) (u : Option String)
      → s.s3_key ≢ rec.s3_key
      → Triple Spared Spared (λ a. Spared) (abort_upload s3 s u)
  unfolding abort_upload
  abort-Spared s none n = delete_object-Spared s.s3_key n
  abort-Spared s (some u) n = abort_upload-Triple s3 laws Spared Spared-IsBlind s u

  delete_session-Spared : (j : String) → Triple Spared Spared (λ a. Spared) (delete_session j)
  unfolding delete_session get_session remove_session
  delete_session-Spared j =
      Spared-then _ _ (peek s3 laws Spared Spared-IsBlind (λ r. lookup j r.sessions)) (λ u.
        Triple-call Spared Spared (λ a. Spared) (λ r. (tt, remove_session j u r))
          (λ r t p.
            let q : Spared (remove_session j u r) t = (
              p.0,
              (
                p.1.0,
                (
                  p.1.1.0,
                  λ i s h e. p.1.1.1 i s (ground (arith, lookup-remove j i r.sessions, h)) e,
                ),
              ),
            ) in
            (p, q, q)))

  sweep_gone-Spared :
      (j : String) (g : Option (Unit {0})) → Triple Spared Spared (λ a. Spared) (sweep_gone j g)
  unfolding sweep_gone
  sweep_gone-Spared j none = Spared-pure 0
  sweep_gone-Spared j (some x) = Spared-then _ _ (delete_session-Spared j) (λ a. Spared-pure 1)

  abbrev Read : String → Option UploadSession → Rows → S → Type 0
  Read j u r t = Spared r t × (lookup j r.sessions ≡ u)

  sweep_expired-Spared :
      (j : String) (s : UploadSession)
      → is_expired now s ≡ true
      → Triple
          (Read j (some s))
          Spared
          (λ a. Spared)
          (do gone ← attempt (abort_session_upload s3 s); sweep_gone s.id gone)
  unfolding abort_session_upload
  sweep_expired-Spared j s e = record {
    ends = λ w p.
        (Spared-then _ _
            (attempt-Spared Spared _ (abort-Spared s s.s3_upload_id (p.0.1.1.1 j s p.1 e)))
            (λ g. sweep_gone-Spared s.id g)).ends
          w p.0;
  }

  sweep_found-Spared :
      (j : String) (u : Option UploadSession)
      → Triple (Read j u) Spared (λ a. Spared) (sweep_found s3 now u)
  unfolding sweep_found
  sweep_found-Spared j none = Triple-pure Spared (Read j none) (λ a. Spared) 0 (λ r t p. p.0)
  sweep_found-Spared j (some s) =
      Triple-if Spared (Read j (some s)) (λ a. Spared) (not (is_expired now s)) _ _
        (λ e. Triple-pure Spared (Read j (some s)) (λ a. Spared) 0 (λ r t p. p.0))
        (λ e. sweep_expired-Spared j s (ground (arith, e)))

  sweep_session-Spared : (j : String) → Triple Spared Spared (λ a. Spared) (sweep_session s3 now j)
  unfolding sweep_session get_session
  sweep_session-Spared j =
      Triple-bind Spared Spared (Read j) (λ a. Spared) _ _
        (Triple-call Spared Spared (Read j) (λ r. (lookup j r.sessions, r))
          (λ r t p. (p, p, (p, refl))))
        (sweep_found-Spared j)

  pub sweep_sessions-Spared :
      (ss : List UploadSession) → Triple Spared Spared (λ a. Spared) (sweep_sessions s3 now ss)
  unfolding sweep_sessions
  sweep_sessions-Spared [] = Spared-pure 0
  sweep_sessions-Spared (s ∷ ss) =
      Spared-then _ _ (sweep_session-Spared s.id)
        (λ n. Spared-then _ _ (sweep_sessions-Spared ss) (λ m. Spared-pure (n + m)))
