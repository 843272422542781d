-- ===== src/Fs/Engine/Announced/Completed.antt =====
-- fs/mod.rs, complete_upload: a completion that is answered has announced the file, and no order of
-- requests without a cancellation or a sweep leaves a file that is neither announced nor can be.
use rust_api.Fs.Engine.Blind.{finish_bytes-Triple, IsFinished}
use rust_api.Fs.Engine.Staging.{IsPlaced, stage_part-Triple}
use rust_api.Fs.Upload.{UploadSession}
use rust_api.Fs.Engine.Announced.Requests.{
  delete_file-Keeping, detach-Keeping, attach-Keeping, merge_part-Keeping, init_upload-Keeping,
  Keeping,
}
use rust_api.Records.{file_create, FileRecord}
use rust_api.Fs.Engine.Uploads.{stage_part, merge_part, Staged}
use rust_api.Fs.{err, ok, Result}
use rust_api.Fs.Engine.{on_tables, get_session, World, find_file, E, Rows}
use rust_api.Fs.Engine.Complete.{
  any_missing, new_record, CompleteRequest, complete_upload, complete_session, complete_found,
}
use rust_api.Fs.Engine.Actions.{
  sweeps, cancels, deletes, nth, detaches, attaches, completes, started, merges, stages, Server,
  merge_nth, inits, stored, acts, act, no_rows, Action,
}
use rust_api.Fs.Objects.{IsStorage, S3Client}
use rust_api.Fs.Engine.Announced.{
  commit-Triple, announce_again-Triple, InFeed, Knows, Announced, Told, IsAnnounced,
}
use rust_api.Fs.Store.{Fault}
use rust_api.Prelude.Maps.{lookup}
use rust_api.Prelude.{
  false, str_eq, not, none, [], ◌∷◌, some, ◌≡◌, ℤ, All, true, String, List, Bool, Option, refl,
}
use rust_api.Fs.Engine.Ends.{
  Ends-holds, Triple-fail, Triple-if, Triple-call, Triple-bind, Triple-weaken, Ends, Triple,
}

-- Whether the request is none of those that may drop a session before its file is announced.
abbrev pub announces : Action → Bool
announces (inits bucket req id now owner) = true
announces (stages id i body declared checksum caller) = true
announces (merges n) = true
announces (completes id req now caller) = true
announces (attaches allowed x) = true
announces (detaches allowed now x) = true
announces (deletes authorize caller id) = true
announces (cancels id caller) = false
announces (sweeps now) = false

no_rows-IsAnnounced : IsAnnounced no_rows
unfolding lookup
no_rows-IsAnnounced id rec h = absurd (cc)

module _ {S : Type 0} (s3 : S3Client S) (laws : IsStorage s3) where
  complete_session-Told :
      (id : String) (req : CompleteRequest) (now : ℤ) (caller : String) (s : UploadSession)
      → Triple
          (Knows id none (some s))
          Announced
          (λ a. Told id (new_record id req now s))
          (complete_session s3 id req now caller s)
  unfolding complete_session
  complete_session-Told id req now caller s =
      let K : Rows → S → Type 0 = Knows id none (some s) in
      let T : Unit {0} → Rows → S → Type 0 = λ a. Told id (new_record id req now s) in
      Triple-if Announced K T (not (str_eq s.owner_sub caller)) _ _
        (λ e. Triple-fail Announced K T _ (λ r t k. k.0))
        (λ e.
          Triple-if Announced K T (any_missing s.etags) _ _
            (λ e'. Triple-fail Announced K T _ (λ r t k. k.0))
            (λ e'.
              Triple-bind Announced K (λ a. K) T _ _
                (Triple-weaken K K Announced (λ a. IsFinished s3 laws K (λ r ms t u q k. k) s)
                  (λ a. K) _ (finish_bytes-Triple s3 laws K (λ r ms t u q k. k) s) (λ r t k. k.0)
                  (λ a r t k. k.0))
                (λ a. commit-Triple id (new_record id req now s) s refl)))

  -- The file of the request is in the feed.
  abbrev pub Complete : String → Rows → S → Type 0
  Complete id r t = (rec : FileRecord) × Told id rec r t

  Told-Complete :
      (id : String) (rec : FileRecord) (K : Rows → S → Type 0) (m : E S (Unit {0}))
      → Triple K Announced (λ a. Told id rec) m
      → Triple K Announced (λ a. Complete id) m
  Told-Complete id rec K m h =
      Triple-weaken Announced K Announced (λ a. Told id rec) (λ a. Complete id) m h (λ r t p. p)
        (λ a r t p. (rec, p))

  complete_found-Complete :
      (id : String) (req : CompleteRequest) (now : ℤ) (caller : String) (f : Option FileRecord)
      (u : Option UploadSession)
      → Triple (Knows id f u) Announced (λ a. Complete id) (complete_found s3 id req now caller f u)
  unfolding complete_found
  complete_found-Complete id req now caller (some rec) u =
      Triple-if Announced (Knows id (some rec) u) (λ a. Complete id)
        (not (str_eq rec.owner_sub caller)) _ _
        (λ e. Triple-fail Announced (Knows id (some rec) u) (λ a. Complete id) _ (λ r t k. k.0))
        (λ e. Told-Complete id rec (Knows id (some rec) u) _ (announce_again-Triple id rec u))
  complete_found-Complete id req now caller none none =
      Triple-fail Announced (Knows id none none) (λ a. Complete id) _ (λ r t k. k.0)
  complete_found-Complete id req now caller none (some s) =
      Told-Complete id (new_record id req now s) (Knows id none (some s)) _
        (complete_session-Told id req now caller s)

  complete_upload-Complete :
      (id : String) (req : CompleteRequest) (now : ℤ) (caller : String)
      → Triple Announced Announced (λ a. Complete id) (complete_upload s3 id req now caller)
  unfolding complete_upload find_file get_session on_tables
  complete_upload-Complete id req now caller =
      let F : Option FileRecord → Rows → S → Type 0 =
        λ f r t. IsAnnounced r × (lookup id r.tables.files ≡ f) in
      Triple-bind Announced Announced F (λ a. Complete id) _ _
        (Triple-call Announced Announced F _ (λ r t p. (p, p, (p, refl))))
        (λ f.
          Triple-bind Announced (F f) (λ u. Knows id f u) (λ a. Complete id) _ _
            (Triple-call Announced (F f) (λ u. Knows id f u) _
              (λ r t p. (p.0, p.0, (p.0, (p.1, refl)))))
            (λ u. complete_found-Complete id req now caller f u))

  ended :
      {A : Type 0} (m : E S A) (w : World S)
      → Keeping m
      → IsAnnounced w.rows
      → IsAnnounced (m w).1.rows
  ended m w k p = Ends-holds Announced (λ a. Announced) (m w) (λ a r t q. q) (k.ends w p)

  stored-world : (v : Server S) (x : Result Staged × World S) → (stored v x).world ≡ x.1
  unfolding stored
  stored-world v (ok p, w) = refl
  stored-world v (err e, w) = refl

  merge_nth-IsAnnounced :
      (p : Option Staged) (w : World S) → IsAnnounced w.rows → IsAnnounced (merge_nth p w).rows
  unfolding merge_nth
  merge_nth-IsAnnounced none w h = h
  merge_nth-IsAnnounced (some p) w h = ended (merge_part p) w (merge_part-Keeping s3 laws p) h

  act-IsAnnounced :
      (a : Action) (v : Server S)
      → announces a ≡ true
      → IsAnnounced v.world.rows
      → IsAnnounced (act s3 a v).world.rows
  unfolding act
  act-IsAnnounced (inits bucket req id now owner) v h p =
      ended _ v.world (init_upload-Keeping s3 laws bucket req id now owner) p
  act-IsAnnounced (stages id i body declared checksum caller) v h p =
      rw (stored-world v (stage_part s3 id i body declared checksum caller v.world)) (
        Ends-holds Announced (λ q r t. IsAnnounced r × ((q.file_id ≡ id) × IsPlaced s3 laws id r t))
          (stage_part s3 id i body declared checksum caller v.world) (λ a r t q. q.0)
          ((stage_part-Triple s3 laws Announced (λ r ms t u k q. q) id i body declared checksum
              caller).ends
            v.world p))
  act-IsAnnounced (merges n) v h p = merge_nth-IsAnnounced (nth n v.staged) v.world p
  act-IsAnnounced (completes id req now caller) v h p =
      Ends-holds Announced (λ a. Complete id) (complete_upload s3 id req now caller v.world)
        (λ a r t q. q.1.0) ((complete_upload-Complete id req now caller).ends v.world p)
  act-IsAnnounced (attaches allowed x) v h p = ended _ v.world (attach-Keeping allowed x) p
  act-IsAnnounced (detaches allowed now x) v h p = ended _ v.world (detach-Keeping allowed now x) p
  act-IsAnnounced (deletes authorize caller id) v h p =
      ended _ v.world (delete_file-Keeping s3 laws authorize caller id) p
  act-IsAnnounced (cancels id caller) v h p = absurd (cc)
  act-IsAnnounced (sweeps now) v h p = absurd (cc)

  acts-IsAnnounced :
      (requests : List Action) (v : Server S)
      → All (λ a. announces a ≡ true) requests
      → IsAnnounced v.world.rows
      → IsAnnounced (acts s3 requests v).world.rows
  unfolding acts
  acts-IsAnnounced [] v h p = p
  acts-IsAnnounced (a ∷ rest) v h p =
      acts-IsAnnounced rest (act s3 a v) h.1 (act-IsAnnounced a v h.0 p)

  completed :
      (id : String) (x : Result (Unit {0}) × World S)
      → Ends Announced (λ a. Complete id) x
      → x.0 ≡ ok tt
      → (rec : FileRecord) × (lookup id x.1.rows.tables.files ≡ some rec)
        × InFeed (file_create rec) x.1.rows.feed
  completed id (ok a, w) e h = (e.0, e.1.1.0, e.1.1.1)
  completed id (err x, w) e h = absurd (cc)

  -- On a server that has run any requests but cancellations and sweeps, whatever calls failed, a
  -- completion that is answered has its file's record committed and its creation in the feed.
  pub complete_upload-announced :
      (requests : List Action) (s : S) (fs : List Fault) (id : String) (req : CompleteRequest)
      (now : ℤ) (caller : String)
      → All (λ a. announces a ≡ true) requests
      → (complete_upload s3 id req now caller (acts s3 requests (started s fs)).world).0 ≡ ok tt
      → (rec : FileRecord) × (lookup id
            (complete_upload s3 id req now caller
              (acts s3 requests (started s fs)).world).1.rows.tables.files
          ≡ some rec)
        × InFeed
            (file_create rec)
            (complete_upload s3 id req now caller
              (acts s3 requests (started s fs)).world).1.rows.feed
  complete_upload-announced requests s fs id req now caller h e =
      completed id _
        ((complete_upload-Complete id req now caller).ends (acts s3 requests (started s fs)).world
          (acts-IsAnnounced requests (started s fs) h no_rows-IsAnnounced))
        e
