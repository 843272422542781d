-- ===== src/Fs/Engine/Stored/Reached.antt =====
-- fs/mod.rs: any order of requests without a deletion or a sweep leaves the bytes of the committed files
-- in place.
use rust_api.Fs.Engine.Stored.Completed.{
  detach-Good, attach-Good, cancel_upload-Good, complete_upload-Good,
}
use rust_api.Fs.Engine.Staging.{IsPlaced, stage_part-Triple}
use rust_api.Fs.Engine.{World}
use rust_api.Fs.Engine.Stored.Requests.{merge_part-Good, init_upload-Good}
use rust_api.Records.{FileRecord}
use rust_api.Fs.{err, ok, Result}
use rust_api.Fs.Engine.Uploads.{merge_part, stage_part, Staged}
use rust_api.Fs.Engine.Stored.{Good-IsBlind, Good}
use rust_api.Fs.Store.{Fault}
use rust_api.Fs.Engine.Actions.{
  sweeps, deletes, detaches, attaches, cancels, started, completes, nth, merges, no_rows, stages,
  act, merge_nth, stored, acts, inits, Server, Action,
}
use rust_api.Fs.Objects.{IsStorage, S3Client}
use rust_api.Prelude.Maps.{lookup}
use rust_api.Prelude.{
  false, sym, subst, none, All-append, some, ◌≢◌, true, ℕ, ◌∷◌, All, ◌≡◌, [], String, List, Bool,
  Option, refl,
}
use rust_api.Fs.Engine.Ends.{Ends-holds, Ends}

-- Whether the request is none of those that delete objects on purpose.
abbrev pub keeps_bytes : Action → Bool
keeps_bytes (inits bucket req id now owner) = true
keeps_bytes (stages id i body declared checksum caller) = true
keeps_bytes (merges n) = true
keeps_bytes (completes id req now caller) = true
keeps_bytes (cancels id caller) = true
keeps_bytes (attaches allowed x) = true
keeps_bytes (detaches allowed now x) = true
keeps_bytes (deletes authorize caller id) = false
keeps_bytes (sweeps now) = false

-- The id of a new session is one that no staged part has: it is a new uuid.
abbrev pub IsNew : Action → List Staged → Type 0
IsNew (inits bucket req id now owner) ps = All (λ p. p.file_id ≢ id) ps
IsNew (stages id i body declared checksum caller) ps = Unit {0}
IsNew (merges n) ps = Unit {0}
IsNew (completes id req now caller) ps = Unit {0}
IsNew (cancels id caller) ps = Unit {0}
IsNew (attaches allowed x) ps = Unit {0}
IsNew (detaches allowed now x) ps = Unit {0}
IsNew (deletes authorize caller id) ps = Unit {0}
IsNew (sweeps now) ps = Unit {0}

module _ {S : Type 0} (s3 : S3Client S) where
  -- None of the requests deletes objects, and each new session has a new id.
  abbrev pub Proper : List Action → Server S → Type 0
  Proper [] v = Unit {0}
  Proper (a ∷ rest) v = (keeps_bytes a ≡ true) × (IsNew a v.staged × Proper rest (act s3 a v))

  module _ (laws : IsStorage s3) where
    abbrev Safe : Server S → Type 0
    Safe v = Good s3 laws v.staged v.world.rows v.world.objects

    kept :
        {A : Type 0} (ps : List Staged) (x : Result A × World S)
        → Ends (Good s3 laws ps) (λ a. Good s3 laws ps) x
        → Good s3 laws ps x.1.rows x.1.objects
    kept ps x e = Ends-holds (Good s3 laws ps) (λ a. Good s3 laws ps) x (λ a r t q. q) e

    stored-Safe :
        (v : Server S) (id : String) (x : Result Staged × World S)
        → Ends
            (Good s3 laws v.staged)
            (λ p r t. Good s3 laws v.staged r t × ((p.file_id ≡ id) × IsPlaced s3 laws id r t))
            x
        → Safe (stored v x)
    unfolding stored
    stored-Safe v id (ok p, w) e = (
      e.0.0,
      All-append (λ q. IsPlaced s3 laws q.file_id w.rows w.objects) v.staged (p ∷ []) e.0.1
          (subst (λ i. IsPlaced s3 laws i w.rows w.objects) (sym e.1.0) e.1.1, tt),
    )
    stored-Safe v id (err x, w) e = e

    merge_nth-Safe :
        (v : Server S) (n : ℕ) (p : Option Staged)
        → nth n v.staged ≡ p
        → Safe v
        → Good s3 laws v.staged (merge_nth p v.world).rows (merge_nth p v.world).objects
    unfolding merge_nth
    merge_nth-Safe v n none e h = h
    merge_nth-Safe v n (some p) e h =
        kept v.staged (merge_part p v.world)
          ((merge_part-Good s3 laws v.staged p n e).ends v.world h)

    act-Safe :
        (a : Action) (v : Server S)
        → keeps_bytes a ≡ true
        → IsNew a v.staged
        → Safe v
        → Safe (act s3 a v)
    unfolding act
    act-Safe (inits bucket req id now owner) v k n h =
        kept v.staged _
          ((init_upload-Good s3 laws v.staged bucket req id now owner n).ends v.world h)
    act-Safe (stages id i body declared checksum caller) v k n h =
        stored-Safe v id (stage_part s3 id i body declared checksum caller v.world) (
          (stage_part-Triple s3 laws (Good s3 laws v.staged) (Good-IsBlind s3 laws v.staged) id i
              body declared checksum caller).ends
            v.world h)
    act-Safe (merges n) v k u h = merge_nth-Safe v n (nth n v.staged) refl h
    act-Safe (completes id req now caller) v k n h =
        kept v.staged _ ((complete_upload-Good s3 laws v.staged id req now caller).ends v.world h)
    act-Safe (cancels id caller) v k n h =
        kept v.staged _ ((cancel_upload-Good s3 laws v.staged id caller).ends v.world h)
    act-Safe (attaches allowed x) v k n h =
        kept v.staged _ ((attach-Good s3 laws v.staged allowed x).ends v.world h)
    act-Safe (detaches allowed now x) v k n h =
        kept v.staged _ ((detach-Good s3 laws v.staged allowed now x).ends v.world h)
    act-Safe (deletes authorize caller id) v k n h = absurd (cc)
    act-Safe (sweeps now) v k n h = absurd (cc)

    acts-Safe : (rs : List Action) (v : Server S) → Proper rs v → Safe v → Safe (acts s3 rs v)
    unfolding acts
    acts-Safe [] v p h = h
    acts-Safe (a ∷ rest) v p h = acts-Safe rest (act s3 a v) p.1.1 (act-Safe a v p.0 p.1.0 h)

    no_rows-Good : (t : S) → Good s3 laws [] no_rows t
    unfolding lookup
    no_rows-Good t =
        (record { of_file = λ id rec h. absurd (cc); of_session = λ id s h. absurd (cc) }, tt)

    -- After any requests that neither delete files nor sweep, in any order, a part's two halves apart,
    -- and whatever calls fail, the object of every committed file is there.
    pub acts-bytes :
        (rs : List Action) (t : S) (fs : List Fault) (id : String) (rec : FileRecord)
        → Proper rs (started t fs)
        → lookup id (acts s3 rs (started t fs)).world.rows.tables.files ≡ some rec
        → s3.holds rec.s3_key (acts s3 rs (started t fs)).world.objects ≡ true
    acts-bytes rs t fs id rec p h =
        (acts-Safe rs (started t fs) p (no_rows-Good t)).0.of_file id rec h
