-- ===== src/Sync/Rebuild/Rebuilt.antt =====
-- sync/snapshot.rs, copy_filtered: a copy onto an empty store, over the whole walk.
use rust_api.Sync.Rebuild.Rows.{HasPlain}
use rust_api.Prelude.{
  String, ◌≡◌, refl, ◌∙◌, subst, inl, inr, true, none, some, List, [], ◌∷◌, map, arith, Bool-cases,
  Option-cases, length,
}
use rust_api.Prelude.Maps.{lookup}
use rust_api.Records.{FileRecord}
use rust_api.Fs.{Result, ok}
use rust_api.Fs.Store.{Tables, ref_info, rows_of, has_rel}
use rust_api.Sync.Policy.{Policy}
use rust_api.Sync.Groups.{member}
use rust_api.Sync.Groups.Count.{member-here, member-there, member-cons}
use rust_api.Sync.Replica.Quiet.{quiet}
use rust_api.Sync.Replica.Matches.{is_there, shown_rel, Matches}
use rust_api.Sync.Replica.Followed.{shown_file-absent}
use rust_api.Sync.Replay.{answer}
use rust_api.Sync.Rebuild.{FileScan, copy_filtered, copy_next}
use rust_api.Sync.Rebuild.Copied.{copied, copy_record-quiet, copied-files, copied-rels, Holds}

-- What the walk answers for these records: each of them, and the end.
unfoldable pub walk : List FileRecord → List (Result FileScan)
walk [] = ok (record { found = none; undecodable = [] }) ∷ []
walk (rec ∷ recs) = ok (record { found = some rec; undecodable = [] }) ∷ walk recs

abbrev pub ids_of : List FileRecord → List String
ids_of recs = map (λ rec. rec.id) recs

abbrev pub fresh : Tables
fresh = record { files = []; rels = []; refs = []; applied = none }

-- The ids, last first.
abbrev seen : List FileRecord → List String → List String
seen [] ids = ids
seen (rec ∷ recs) ids = seen recs (rec.id ∷ ids)

seen-old :
    (x : String) (recs : List FileRecord) (ids : List String)
    → member x ids ≡ true
    → member x (seen recs ids) ≡ true
seen-old x [] ids h = h
seen-old x (rec ∷ recs) ids h = seen-old x recs (rec.id ∷ ids) (member-there x rec.id ids h)

seen-all :
    (x : String) (recs : List FileRecord) (ids : List String)
    → member x (ids_of recs) ≡ true
    → member x (seen recs ids) ≡ true
unfolding member
seen-all x [] ids h = absurd (cc)
seen-all x (rec ∷ recs) ids h = elim (member-cons x rec.id (ids_of recs) h) [
  | inl same ↦
      seen-old x recs (rec.id ∷ ids)
        (subst (λ y. member y (rec.id ∷ ids) ≡ true) same (member-here rec.id ids))
  | inr later ↦ seen-all x recs (rec.id ∷ ids) later
]

module _ (p : Policy) (sub : String) (t : Tables) where
  -- The counts are right, and the records are those of the master.
  abbrev pub Walked : List FileRecord → Type 0
  Walked [] = Unit {0}
  Walked (rec ∷ recs) =
      ((lookup rec.id t.files ≡ some rec)
        × ((ref_info rec.id t).count ≡ length (rows_of rec.id t.rels)))
      × Walked recs

  copy_filtered-Holds :
      (recs : List FileRecord) (ids : List String) (u : Tables)
      → Walked recs
      → HasPlain t.rels
      → Holds p sub t ids u
      → (v : Tables) × (copy_filtered p sub (walk recs) [] (quiet t u) ≡ (ok [], quiet t v))
        × Holds p sub t (seen recs ids) v
  unfolding copy_filtered walk copy_next answer
  copy_filtered-Holds [] ids u w plain h = (u, refl, h)
  copy_filtered-Holds (rec ∷ recs) ids u w plain h =
      let (v, e, k) =
        copy_filtered-Holds recs (rec.id ∷ ids) (copied p sub t rec u) w.1 plain
          (copied-files p sub t rec ids u w.0.0 h, copied-rels p sub t rec ids u w.0.0 plain h) in
      (v, rw (copy_record-quiet p sub t rec u w.0.1 plain w.0.0, e) refl, k)

  all-Matches :
      (ids : List String) (u : Tables)
      → ((id : String) (rec : FileRecord) → lookup id t.files ≡ some rec → member id ids ≡ true)
      → Holds p sub t ids u
      → Matches p sub t u
  unfolding shown_rel is_there
  all-Matches ids u k h = (
    λ id. elim (Option-cases (lookup id t.files)) [
      | inr (rec, e) ↦ h.0 id ∙ rw (k id rec e) refl
      | inl e ↦ elim (Bool-cases (member id ids)) [
        | inl m ↦ h.0 id ∙ rw m refl
        | inr m ↦ h.0 id ∙ rw (m, shown_file-absent p sub t id e) refl
      ]
    ],
    λ x y z. elim (Option-cases (lookup z t.files)) [
      | inr (rec, e) ↦ h.1 x y z ∙ rw (k z rec e) refl
      | inl e ↦ h.1 x y z ∙ rw e ground arith
    ],
  )

  -- When no call fails, no row is undecodable, no colon is in the type or the id of an attached row, the
  -- walk meets exactly the files of the master, and their reference counts are the numbers of their rows,
  -- then the copy onto an empty store passes no key over and holds exactly the files and markers that the user may see.
  pub copy_filtered-Matches :
      (recs : List FileRecord)
      → Walked recs
      → HasPlain t.rels
      → ((id : String) (rec : FileRecord)
          → lookup id t.files ≡ some rec
          → member id (ids_of recs) ≡ true)
      → let r = copy_filtered p sub (walk recs) [] (quiet t fresh) in
        (r.0 ≡ ok []) × Matches p sub t r.1.replica.tables
  unfolding member has_rel lookup
  copy_filtered-Matches recs w plain k =
      let (v, e, h) = copy_filtered-Holds recs [] fresh w plain (λ id. refl, λ x y z. refl) in
      rw e (refl, all-Matches (seen recs []) v (λ id rec f. seen-all id recs [] (k id rec f)) h)
