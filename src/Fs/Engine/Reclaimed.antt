-- ===== src/Fs/Engine/Reclaimed.antt =====
-- fs/gc.rs, the session pass of a sweep: when nothing fails, every expired session goes.
use rust_api.Fs.Engine.Uploads.{restore, ensure_multipart}
use rust_api.Fs.{ok}
use rust_api.Fs.Engine.Lost.{calm}
use rust_api.Fs.Engine.Complete.{gone_is_done, abort_session_upload, abort_found, abort_upload}
use rust_api.Fs.Upload.{UploadSession}
use rust_api.Fs.Objects.{PersistedMultipart, S3Client}
use rust_api.Fs.Engine.Sweep.{
  sweep_sessions, sweep_session, sweep_found, sweep_gone, is_expired, attempted, attempt, values,
}
use rust_api.Fs.Engine.{
  get_session, delete_session, call_with, on_objects, load_multipart, call, remove_session, Rows, E,
}
use rust_api.Fs.Store.{◌>>=◌, resume, pure}
use rust_api.Prelude.Maps.{Dict, lookup, lookup-remove}
use rust_api.Prelude.{
  if◌then◌else◌, not, ◌+◌, ℕ, arith, eq_iff, sym, [], subst, inr, inl, none, ◌||◌, str_eq, ◌∷◌,
  Bool-cases, true, Option, ◌∙◌, false, ap, Bool, some, ℤ, ◌≡◌, List, String, refl,
}

-- Every session is kept under its own id.
abbrev pub IsKeyed : Dict UploadSession → Type 0
IsKeyed m = (k : String) (s : UploadSession) → lookup k m ≡ some s → s.id ≡ k

-- Some session of the list has the id.
has_id : String → List UploadSession → Bool
has_id k [] = false
has_id k (s ∷ ss) = str_eq s.id k || has_id k ss

has_id-values :
    (k : String) (s : UploadSession) (m : Dict UploadSession)
    → s.id ≡ k
    → lookup k m ≡ some s
    → has_id k (values m) ≡ true
unfolding has_id values lookup
has_id-values k s [] i h = absurd (cc)
has_id-values k s ((j, u) ∷ m) i h = elim (Bool-cases (str_eq j k)) [
  | inl e ↦
      let same : u ≡ s = cc (rw e at h) in
      subst (λ x. (str_eq x.id k || has_id k (values m)) ≡ true) (sym same)
        (rw ((eq_iff s.id k).1 i) refl)
  | inr e ↦ let rest = has_id-values k s m i (rw e at h) in ground (arith, rest)
]

module _ {S : Type 0} where
  -- A run from a calm engine is answered and leaves a calm engine.
  record Runs {A : Type 0} (m : E S A) (r : Rows) (t : S) (Q : A → Rows → Type 0) : Type 0 where
    value : A
    rows' : Rows
    objects' : S
    runs : m (calm r t) ≡ (ok value, calm rows' objects')
    holds : Q value rows'

  Runs-bind :
      {A B : Type 0} (m : E S A) (f : A → E S B) (r : Rows) (t : S) (Q : A → Rows → Type 0)
      (R : B → Rows → Type 0)
      → Runs m r t Q
      → ((a : A) (r' : Rows) (t' : S) → Q a r' → Runs (f a) r' t' R)
      → Runs (m >>= f) r t R
  Runs-bind m f r t Q R h k =
      let n = k h.value h.rows' h.objects' h.holds in
      record {
        value = n.value;
        rows' = n.rows';
        objects' = n.objects';
        runs = ap (resume f) h.runs ∙ n.runs;
        holds = n.holds;
      }

-- Nothing that a sweep of sessions asks of the storage fails.
pub record IsReliable {S : Type 0} (s3 : S3Client S) : Type 0 where
  pub deletes_ok : (k : String) (t : S) → (s3.delete_object k t).0 ≡ ok tt
  pub aborts_ok : (k u : String) (t : S) → (s3.abort_multipart_upload k u t).0 ≡ ok tt
  pub restores_ok : (m : PersistedMultipart) (t : S) → (s3.restore_multipart m t).0 ≡ ok tt

module _ {S : Type 0} (s3 : S3Client S) (reliable : IsReliable s3) (now : ℤ) where
  abort_found-Runs :
      (s : UploadSession) (u : String) (o : Option PersistedMultipart) (r : Rows) (t : S)
      → lookup u r.multiparts ≡ o
      → Runs (abort_found s3 s u o) r t (λ a r'. r' ≡ r)
  unfolding abort_found ensure_multipart load_multipart restore on_objects gone_is_done call
      call_with
  abort_found-Runs s u none r t e = record {
    value = tt;
    rows' = r;
    objects' = t;
    runs = refl;
    holds = refl;
  }
  abort_found-Runs s u (some m) r t e = record {
    value = tt;
    rows' = r;
    objects' = (s3.abort_multipart_upload s.s3_key u (s3.restore_multipart m t).1).1;
    runs =
        rw (e, reliable.restores_ok m t, reliable.aborts_ok s.s3_key u (s3.restore_multipart m t).1)
          refl;
    holds = refl;
  }

  abort_upload-Runs :
      (s : UploadSession) (u : Option String) (r : Rows) (t : S)
      → Runs (abort_upload s3 s u) r t (λ a r'. r' ≡ r)
  unfolding abort_upload load_multipart on_objects call call_with
  abort_upload-Runs s none r t = record {
    value = tt;
    rows' = r;
    objects' = (s3.delete_object s.s3_key t).1;
    runs = rw (reliable.deletes_ok s.s3_key t) refl;
    holds = refl;
  }
  abort_upload-Runs s (some u) r t =
      let h = abort_found-Runs s u (lookup u r.multiparts) r t refl in
      record {
        value = h.value;
        rows' = h.rows';
        objects' = h.objects';
        runs = h.runs;
        holds = h.holds;
      }

  -- What a pass over some of the ids leaves of the sessions.
  abbrev Left : Rows → List UploadSession → Rows → Type 0
  Left r ss r' =
      (k : String) (s : UploadSession)
      → lookup k r'.sessions ≡ some s
      → (lookup k r.sessions ≡ some s) × (has_id k ss ≡ true → is_expired now s ≡ false)

  abbrev LeftOne : Rows → String → Rows → Type 0
  LeftOne r j r' =
      (k : String) (s : UploadSession)
      → lookup k r'.sessions ≡ some s
      → (lookup k r.sessions ≡ some s) × (j ≡ k → is_expired now s ≡ false)

  gone-LeftOne :
      (j : String) (u : Option UploadSession) (r : Rows) → LeftOne r j (remove_session j u r)
  unfolding remove_session
  gone-LeftOne j u r k s h = elim (Bool-cases (str_eq j k)) [
    | inl e ↦ absurd (cc (rw (lookup-remove j k r.sessions, e) at h))
    | inr e ↦ (rw (lookup-remove j k r.sessions, e) at h, λ x. absurd (cc ((eq_iff j k).1 x)))
  ]

  sweep_expired-Runs :
      (j : String) (s : UploadSession) (r : Rows) (t : S)
      → s.id ≡ j
      → Runs
          (do gone ← attempt (abort_session_upload s3 s); sweep_gone s.id gone)
          r
          t
          (λ a r'. LeftOne r j r')
  unfolding attempt attempted abort_session_upload sweep_gone delete_session get_session call
      call_with
  sweep_expired-Runs j s r t i =
      let h = abort_upload-Runs s s.s3_upload_id r t in
      record {
        value = 1;
        rows' = remove_session s.id (lookup s.id r.sessions) r;
        objects' = h.objects';
        runs = rw (h.runs, h.holds) refl;
        holds = rw i (gone-LeftOne j (lookup j r.sessions) r);
      }

  Runs-kept :
      {A : Type 0} (a : A) (j : String) (r : Rows) (t : S)
      → ((s : UploadSession) → lookup j r.sessions ≡ some s → is_expired now s ≡ false)
      → Runs (pure a) r t (λ b r'. LeftOne r j r')
  Runs-kept a j r t h = record {
    value = a;
    rows' = r;
    objects' = t;
    runs = refl;
    holds = λ k s e. (e, λ x. h s (rw x e));
  }

  Runs-if :
      {A : Type 0} (b : Bool) (m n : E S A) (r : Rows) (t : S) (Q : A → Rows → Type 0)
      → (b ≡ true → Runs m r t Q)
      → (b ≡ false → Runs n r t Q)
      → Runs (if b then m else n) r t Q
  Runs-if true m n r t Q h k = h refl
  Runs-if false m n r t Q h k = k refl

  sweep_found-Runs :
      (j : String) (u : Option UploadSession) (r : Rows) (t : S)
      → IsKeyed r.sessions
      → lookup j r.sessions ≡ u
      → Runs (sweep_found s3 now u) r t (λ a r'. LeftOne r j r')
  unfolding sweep_found
  sweep_found-Runs j none r t keyed e = Runs-kept 0 j r t (λ s h. absurd (cc))
  sweep_found-Runs j (some s) r t keyed e =
      Runs-if (not (is_expired now s)) _ _ r t (λ a r'. LeftOne r j r')
        (λ x. Runs-kept 0 j r t (λ s' h.
          let same : s ≡ s' = cc in subst (λ y. is_expired now y ≡ false) same (ground (arith, x))))
        (λ x. sweep_expired-Runs j s r t (keyed j s e))

  sweep_session-Runs :
      (j : String) (r : Rows) (t : S)
      → IsKeyed r.sessions
      → Runs (sweep_session s3 now j) r t (λ a r'. LeftOne r j r')
  unfolding sweep_session get_session call call_with
  sweep_session-Runs j r t keyed =
      let h = sweep_found-Runs j (lookup j r.sessions) r t keyed refl in
      record {
        value = h.value;
        rows' = h.rows';
        objects' = h.objects';
        runs = h.runs;
        holds = h.holds;
      }

  Left-step :
      (s : UploadSession) (ss : List UploadSession) (r r' r'' : Rows)
      → LeftOne r s.id r'
      → Left r' ss r''
      → Left r (s ∷ ss) r''
  unfolding has_id
  Left-step s ss r r' r'' one rest k u h =
      let later = rest k u h in
      let first = one k u later.0 in
      (
        first.0,
        λ x. elim (Bool-cases (str_eq s.id k)) [
          | inl e ↦ first.1 ((eq_iff s.id k).0 e)
          | inr e ↦ later.1 (rw e at x)
        ],
      )

  sweep_sessions-Runs :
      (ss : List UploadSession) (r : Rows) (t : S)
      → IsKeyed r.sessions
      → Runs (sweep_sessions s3 now ss) r t (λ a r'. Left r ss r')
  unfolding sweep_sessions has_id
  sweep_sessions-Runs [] r t keyed = record {
    value = 0;
    rows' = r;
    objects' = t;
    runs = refl;
    holds = λ k s h. (h, λ x. absurd (cc));
  }
  sweep_sessions-Runs (s ∷ ss) r t keyed =
      Runs-bind _ _ r t (λ a r'. LeftOne r s.id r') (λ a r'. Left r (s ∷ ss) r')
        (sweep_session-Runs s.id r t keyed)
        (λ n r' t' one.
          Runs-bind _ _ r' t' (λ a r''. Left r' ss r'') (λ a r''. Left r (s ∷ ss) r'')
            (sweep_sessions-Runs ss r' t' (λ k u h. keyed k u (one k u h).0))
            (λ m r'' t'' rest. record {
              value = n + m;
              rows' = r'';
              objects' = t'';
              runs = refl;
              holds = Left-step s ss r r' r'' one rest;
            }))

  -- When no call of the engine fails and nothing the storage is asked for does, the session pass is
  -- answered, and no session that is left is expired.
  pub sweep_sessions-reclaims :
      (r : Rows) (t : S)
      → IsKeyed r.sessions
      → ((n : ℕ) × ((sweep_sessions s3 now (values r.sessions) (calm r t)).0 ≡ ok n))
        × ((k : String) (s : UploadSession)
            → lookup k (sweep_sessions s3 now (values r.sessions) (calm r t)).1.rows.sessions
              ≡ some s
            → is_expired now s ≡ false)
  sweep_sessions-reclaims r t keyed =
      let h = sweep_sessions-Runs (values r.sessions) r t keyed in
      (
        (h.value, ap (λ x. x.0) h.runs),
        λ k s e.
            let left = h.holds k s (rw h.runs at e) in
            left.1 (has_id-values k s r.sessions (keyed k s left.0) left.0),
      )
