-- ===== src/Fs/Engine/Covered/Merged.antt =====
-- fs/mod.rs, merge_part: whatever fails, the record is short of no part that the session has.
use rust_api.Fs.Objects.{PersistedMultipart}
use rust_api.Fs.Engine.{load_multipart, get_session, save_multipart, World, save_session, Rows}
use rust_api.Fs.Engine.Uploads.{
  set, merge_record, merge_found, Staged, merge_parts, merged, merge_part,
}
use rust_api.Fs.Upload.{UploadSession}
use rust_api.Prelude.Maps.{put, lookup, lookup-put}
use rust_api.Prelude.{
  length, leb, sym, inr, not, subst, eq_iff, inl, str_eq, some, none, ◌≡◌, Option, ℕ, String, refl,
}
use rust_api.Fs.Engine.Ends.{
  Triple-if, Triple-fail, Triple-bind, Ends-holds, Triple-pure, Triple-call, Triple,
}
use rust_api.Fs.Engine.Covered.{
  put_part-IsCovered, put_part-HasPart, get_elem?-set, get_elem?, HasPart, IsCovered,
}

module _ {S : Type 0} (id u : String) where
  abbrev I : Rows → S → Type 0
  I r t = IsCovered id u r

  -- The session that was read, and that its record has the new part.
  abbrev With : UploadSession → ℕ → Rows → S → Type 0
  With s i r t =
      IsCovered id u r
      × ((lookup id r.sessions ≡ some s)
          × ((m : PersistedMultipart) → lookup u r.multiparts ≡ some m → HasPart i m))

  abbrev Loaded : UploadSession → Option PersistedMultipart → Rows → S → Type 0
  Loaded s o r t =
      IsCovered id u r × ((lookup id r.sessions ≡ some s) × (lookup u r.multiparts ≡ o))

  merge_parts-With :
      (s : UploadSession) (i : ℕ) (v : String) (o : Option PersistedMultipart)
      → Triple (Loaded s o) I (λ a. With s i) (merge_parts i v o)
  unfolding merge_parts save_multipart
  merge_parts-With s i v none =
      Triple-pure I (Loaded s none) (λ a. With s i) tt (λ r t p. (p.0, (p.1.0, λ m h. absurd (cc))))
  merge_parts-With s i v (some m) =
      Triple-call I (Loaded s (some m)) (λ a. With s i) _
        (λ r t p.
          let q = put_part-IsCovered id u i v m r p.1.1 p.0 in
          (p.0, q, (q, (p.1.0, put_part-HasPart id u i v m r (p.0.1.0 m p.1.1)))))

  abbrev Read : Option UploadSession → Rows → S → Type 0
  Read o r t = IsCovered id u r × (lookup id r.sessions ≡ o)

  merge_record-With :
      (s : UploadSession) (i : ℕ) (v : String)
      → Triple (Read (some s)) I (λ a. With s i) (merge_record i v (some u))
  unfolding merge_record load_multipart
  merge_record-With s i v =
      Triple-bind I (Read (some s)) (Loaded s) (λ a. With s i) _ _
        (Triple-call I (Read (some s)) (Loaded s) (λ r. (lookup u r.multiparts, r))
          (λ r t p. (p.0, p.0, (p.0, (p.1, refl)))))
        (λ o. merge_parts-With s i v o)

  merged-IsCovered :
      (s : UploadSession) (i : ℕ) (v : String) (c : Option String) (r : Rows) (t : S)
      → With s i r t
      → IsCovered id u (record r { sessions = put s.id (merged i v c s) r.sessions })
  unfolding merged
  merged-IsCovered s i v c r t (k, (h, part)) =
      let key : s.id ≡ id = k.0 s h in
      let look : lookup id (put s.id (merged i v c s) r.sessions) ≡ some (merged i v c s) =
        rw (lookup-put s.id id (merged i v c s) r.sessions, (eq_iff s.id id).1 key) refl in
      (
        λ s' q.
            let same : merged i v c s ≡ s' = cc in
            subst (λ (x : UploadSession). x.id ≡ id) same key,
        (
          k.1.0,
          λ s' m j e q hm g.
              let same : merged i v c s ≡ s' = cc in
              let g' : get_elem? (set s.etags i (some v)) j ≡ some (some e) =
                subst (λ (x : UploadSession). get_elem? x.etags j ≡ some (some e)) (sym same) g in
              elim (get_elem?-set s.etags i j (some v) (some e) g') [
                | inl x ↦ subst (λ n. HasPart n m) x (part m hm)
                | inr x ↦ k.1.1 s m j e h hm x
              ],
        ),
      )

  save_merged :
      (s : UploadSession) (i : ℕ) (v : String) (c : Option String)
      → Triple (With s i) I (λ a. I) (save_session (merged i v c s))
  unfolding save_session merged
  save_merged s i v c =
      Triple-call I (With s i) (λ a. I) _
        (λ r t p. let q = merged-IsCovered s i v c r t p in (p.0, q, q))

  merge_found-I :
      (p : Staged) (o : Option UploadSession)
      → p.upload_id ≡ some u
      → Triple (Read o) I (λ a. I) (merge_found p o)
  unfolding merge_found
  merge_found-I p none e = Triple-fail I (Read none) (λ a. I) _ (λ r t k. k.0)
  merge_found-I p (some s) e =
      Triple-if I (Read (some s)) (λ a. I) (not (str_eq s.owner_sub p.caller)) _ _
        (λ x. Triple-fail I (Read (some s)) (λ a. I) _ (λ r t k. k.0))
        (λ x.
          Triple-if I (Read (some s)) (λ a. I) (leb (length s.etags) p.slot) _ _
            (λ y. Triple-fail I (Read (some s)) (λ a. I) _ (λ r t k. k.0))
            (λ y.
              Triple-bind I (Read (some s)) (λ a. With s p.slot) (λ a. I) _ _
                (subst
                  (λ o.
                    Triple (Read (some s)) I (λ a. With s p.slot) (merge_record p.slot p.etag o))
                  (sym e) (merge_record-With s p.slot p.etag))
                (λ a. save_merged s p.slot p.etag p.checksum)))

  merge_part-I :
      (p : Staged) → p.file_id ≡ id → p.upload_id ≡ some u → Triple I I (λ a. I) (merge_part p)
  unfolding merge_part get_session
  merge_part-I p f e =
      Triple-bind I I Read (λ a. I) _ _
        (Triple-call I I Read (λ r. (lookup p.file_id r.sessions, r))
          (λ r t k.
            (k, k, (k, subst (λ j. lookup j r.sessions ≡ lookup p.file_id r.sessions) f refl))))
        (λ o. merge_found-I p o e)

  -- Whatever call fails, after a part of the upload is merged every part that the session has is in the
  -- multipart record, if both rows are kept under their own ids and it was so before.
  pub merge_part-IsCovered :
      (p : Staged) (w : World S)
      → p.file_id ≡ id
      → p.upload_id ≡ some u
      → IsCovered id u w.rows
      → IsCovered id u (merge_part p w).1.rows
  merge_part-IsCovered p w f e h =
      Ends-holds I (λ a. I) (merge_part p w) (λ a r t q. q) ((merge_part-I p f e).ends w h)
