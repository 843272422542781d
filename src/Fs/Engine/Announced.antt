-- ===== src/Fs/Engine/Announced.antt =====
-- fs/mod.rs: a committed file is announced before its session goes.
pub mod Requests
pub mod Completed
use rust_api.Fs.Engine.Ends.{Triple, Triple-call, Triple-bind, Triple-pure}
use rust_api.Fs.Upload.{UploadSession}
use rust_api.Records.{file_create, FileRecord, WalOp}
use rust_api.Fs.Engine.{
  on_tables, get_session, save_file, delete_session, announce, remove_session, Rows,
}
use rust_api.Fs.Engine.Complete.{announce_again, commit}
use rust_api.Prelude.{
  refl, ◌∙◌, sym, none, eq_iff, arith, subst, inr, inl, str_eq, [], ◌⊎◌, Bool-cases, some, ◌≡◌, ◌∷◌,
  Option, List, String,
}
use rust_api.Fs.Store.{put_file, ◌>>=◌, ◌>>◌, resume, pure}
use rust_api.Prelude.Maps.{lookup, lookup-put, lookup-remove, remove, put, Dict}

-- The feed has taken the operation in.
abbrev pub InFeed : WalOp → List WalOp → Type 0
InFeed op [] = ⊥
InFeed op (x ∷ xs) = (x ≡ op) ⊎ InFeed op xs

-- A file without a session has been announced.
abbrev pub IsAnnounced : Rows → Type 0
IsAnnounced r =
    (id : String) (rec : FileRecord)
    → lookup id r.tables.files ≡ some rec
    → ((s : UploadSession) × (lookup id r.sessions ≡ some s)) ⊎ InFeed (file_create rec) r.feed

module _ {S : Type 0} where
  abbrev pub Announced : Rows → S → Type 0
  Announced r t = IsAnnounced r

  -- What is known of the file and of its session.
  abbrev pub Knows : String → Option FileRecord → Option UploadSession → Rows → S → Type 0
  Knows id f u r t = IsAnnounced r × ((lookup id r.tables.files ≡ f) × (lookup id r.sessions ≡ u))

  -- The creation of the file is in the feed.
  abbrev pub Told : String → FileRecord → Rows → S → Type 0
  Told id rec r t =
      IsAnnounced r × ((lookup id r.tables.files ≡ some rec) × InFeed (file_create rec) r.feed)

  pub remove_session-IsAnnounced :
      (id : String) (rec : FileRecord) (u : Option UploadSession) (r : Rows) (t : S)
      → Told id rec r t
      → Told id rec (remove_session id u r) t
  unfolding remove_session
  remove_session-IsAnnounced id rec u r t (i, (f, told)) = (
    λ j rec' h. elim (Bool-cases (str_eq id j)) [
      | inl e ↦
          inr
            (subst (λ x. InFeed (file_create x) r.feed) (ground (arith, eq_iff id j, f, h, e)) told)
      | inr e ↦ elim (i j rec' h) [
        | inl (s, q) ↦ inl (s, rw (lookup-remove id j r.sessions, e) q)
        | inr q ↦ inr q
      ]
    ],
    (f, told),
  )

  delete_session-Told :
      (id : String) (rec : FileRecord)
      → Triple (Told id rec) Announced (λ a. Told id rec) (delete_session id)
  unfolding delete_session get_session
  delete_session-Told id rec =
      Triple-bind Announced (Told id rec) (λ a. Told id rec) (λ a. Told id rec) _ _
        (Triple-call Announced (Told id rec) (λ a. Told id rec) (λ r. (lookup id r.sessions, r))
          (λ r t p. (p.0, p.0, p)))
        (λ u.
          Triple-call Announced (Told id rec) (λ a. Told id rec) (λ r. (tt, remove_session id u r))
            (λ r t p. let q = remove_session-IsAnnounced id rec u r t p in (p.0, q.0, q)))

  -- An operation more in the feed.
  pub announce-Triple : (op : WalOp) → Triple Announced Announced (λ a. Announced) (announce op)
  unfolding announce
  announce-Triple op =
      Triple-call Announced Announced (λ a. Announced) _
        (λ r t p.
          let q : IsAnnounced (record r { feed = op ∷ r.feed }) =
            λ j rec h. elim (p j rec h) [ inl s ↦ inl s | inr i ↦ inr (inr i) ] in
          (p, q, q))

  -- The creation of a file that is committed.
  pub tell-Triple :
      (id : String) (rec : FileRecord) (u : Option UploadSession)
      → Triple (Knows id (some rec) u) Announced (λ a. Told id rec) (announce (file_create rec))
  unfolding announce
  tell-Triple id rec u =
      Triple-call Announced (Knows id (some rec) u) (λ a. Told id rec) _
        (λ r t p.
          let q : IsAnnounced (record r { feed = file_create rec ∷ r.feed }) =
            λ j rec' h. elim (p.0 j rec' h) [ inl s ↦ inl s | inr i ↦ inr (inr i) ] in
          (p.0, q, (q, (p.1.0, inl refl))))

  pub announce_again-Triple :
      (id : String) (rec : FileRecord) (u : Option UploadSession)
      → Triple (Knows id (some rec) u) Announced (λ a. Told id rec) (announce_again id rec u)
  unfolding announce_again
  announce_again-Triple id rec none =
      Triple-pure Announced (Knows id (some rec) none) (λ a. Told id rec) tt
        (λ r t p. (p.0, (p.1.0, elim (p.0 id rec p.1.0) [ inl (s, q) ↦ absurd (cc) | inr i ↦ i ])))
  announce_again-Triple id rec (some u) =
      Triple-bind Announced (Knows id (some rec) (some u)) (λ a. Told id rec) (λ a. Told id rec) _ _
        (tell-Triple id rec (some u)) (λ a. delete_session-Told id rec)

  save_file-Triple :
      (id : String) (rec : FileRecord) (u : UploadSession)
      → rec.id ≡ id
      → Triple
          (Knows id none (some u))
          Announced
          (λ a. Knows id (some rec) (some u))
          (save_file rec)
  unfolding save_file put_file on_tables
  save_file-Triple id rec u e =
      Triple-call Announced (Knows id none (some u)) (λ a. Knows id (some rec) (some u)) _
        (λ r t p.
          let q : IsAnnounced (record r { tables = put_file rec r.tables }) = λ j rec' h.
            elim (Bool-cases (str_eq rec.id j)) [
              | inl x ↦ inl (
                u,
                subst (λ k. lookup k r.sessions ≡ some u) (sym e ∙ (eq_iff rec.id j).0 x) p.1.1,
              )
              | inr x ↦ p.0 j rec' (rw (lookup-put rec.id j rec r.tables.files, x) at h)
            ] in
          (
            p.0,
            q,
            (q, (rw (lookup-put rec.id id rec r.tables.files, (eq_iff rec.id id).1 e) refl, p.1.1)),
          ))

  pub commit-Triple :
      (id : String) (rec : FileRecord) (u : UploadSession)
      → rec.id ≡ id
      → Triple (Knows id none (some u)) Announced (λ a. Told id rec) (commit id rec)
  unfolding commit
  commit-Triple id rec u e =
      Triple-bind Announced (Knows id none (some u)) (λ a. Knows id (some rec) (some u))
        (λ a. Told id rec) _ _ (save_file-Triple id rec u e)
        (λ a.
          Triple-bind Announced (Knows id (some rec) (some u)) (λ a. Told id rec) (λ a. Told id rec)
            _ _ (tell-Triple id rec (some u)) (λ b. delete_session-Told id rec))
