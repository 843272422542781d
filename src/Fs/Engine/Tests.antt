-- ===== src/Fs/Engine/Tests.antt =====
-- fs/mod.rs and fs/gc.rs: runs of the engine, over a storage that is a list of keys.
use rust_api.Fs.Engine.Announced.Completed.{complete_upload-announced}
use rust_api.Fs.Engine.Spared.Swept.{sweep_once-spares}
use rust_api.Fs.Engine.Covered.Merged.{merge_part-IsCovered}
use rust_api.Fs.Engine.Announced.{InFeed}
use rust_api.Fs.Engine.Lost.{cancel-complete_unannounced, cancelled, sweep_session-loses, calm}
use rust_api.Fs.Engine.Stored.Reached.{acts-bytes}
use rust_api.Fs.Engine.Uploads.{merge_part, Staged}
use rust_api.Fs.Engine.Covered.{get_elem?, IsCovered}
use rust_api.Fs.Engine.{Rows}
use rust_api.Records.{file_create, FileRecord}
use rust_api.Fs.Upload.{UploadSession, Chunk}
use rust_api.Fs.{internal, ok, Result}
use rust_api.Fs.Objects.{IsStorage, S3Client, ListedKey}
use rust_api.Fs.Store.{ref_info, fails, passes, Fault}
use rust_api.Fs.Engine.Complete.{complete_upload, cancel_upload, CompleteRequest}
use rust_api.Fs.Engine.Reclaimed.{sweep_sessions-reclaims, IsKeyed, IsReliable}
use rust_api.Fs.Engine.Actions.{
  no_rows, Server, completes, merges, stages, inits, started, Action, acts,
}
use rust_api.Fs.Model.{InitRequest}
use rust_api.Fs.Engine.Sweep.{
  sweep_once, sweep_sessions, values, sweep_session, is_expired, has_key,
}
use rust_api.Prelude.{
  zero, inr, ◌∙◌, subst, suc, inl, sym, Bool-cases, Option, ap, ◌≢◌, ℕ, true, none, some, false,
  eq_iff, [], str_eq, arith, pos, ◌≡◌, ◌∷◌, List, String, refl, if◌then◌else◌,
}
use rust_api.Prelude.Maps.{lookup}

abbrev Keys : Type 0
Keys = List String

drop_key : String → Keys → Keys
drop_key k [] = []
drop_key k (j ∷ js) = let rest = drop_key k js in if str_eq j k then rest else j ∷ rest

listing : Keys → List ListedKey
listing [] = []
listing (k ∷ ks) = record { key = k; last_modified = pos 0 } ∷ listing ks

-- Every operation is acknowledged.
memory : S3Client Keys
unfolding drop_key listing has_key
memory = record {
  create_multipart_upload = λ k s. (ok "upload", s);
  upload_part = λ k u n b c s. (ok "etag", s);
  complete_multipart_upload = λ k u es s. (ok tt, k ∷ s);
  abort_multipart_upload = λ k u s. (ok tt, s);
  backend_upload_id = λ u s. (some "backend", s);
  restore_multipart = λ m s. (ok tt, s);
  put_object = λ k b c s. (ok tt, k ∷ s);
  delete_object = λ k s. (ok tt, drop_key k s);
  list_keys = λ p s. (ok (listing s), s);
  holds = has_key;
}

has_key-drop_key :
    (k j : String) (s : Keys)
    → has_key j (drop_key k s) ≡ (if str_eq k j then false else has_key j s)
unfolding has_key drop_key
has_key-drop_key k j [] = ground arith
has_key-drop_key k j (x ∷ s) =
    ground (arith, eq_iff k j, eq_iff x k, eq_iff x j, has_key-drop_key k j s)

memory-IsStorage : IsStorage memory
unfolding memory has_key
memory-IsStorage = record {
  create_keeps = λ k s j h. h;
  upload_keeps = λ k u n b c s j h. h;
  complete_keeps = λ k u es s j h. ground (arith, h);
  abort_keeps = λ k u s j h. h;
  id_keeps = λ u s j h. h;
  restore_keeps = λ m s j h. h;
  put_keeps = λ k b c s j h. ground (arith, h);
  list_keeps = λ p s j h. h;
  delete_keeps = λ k j s n h. ground (arith, has_key-drop_key k j s, eq_iff k j, h);
  put_holds = λ k b c s h. ground (arith, eq_iff k k);
  complete_holds = λ k u es s h. ground (arith, eq_iff k k);
  delete_removes = λ k s h. ground (arith, has_key-drop_key k k s, eq_iff k k);
}

memory-IsReliable : IsReliable memory
unfolding memory
memory-IsReliable = record {
  deletes_ok = λ k t. refl;
  aborts_ok = λ k u t. refl;
  restores_ok = λ m t. refl;
}

abbrev three_bytes : List (Result Chunk)
three_bytes = ok (1 ∷ 2 ∷ 3 ∷ []) ∷ []

abbrev small : InitRequest
small = record { file_size = 3; part_size = 3; file_total_parts = 1 }

abbrev named : CompleteRequest
named = record { name = "a.txt"; mimetype = "text/plain" }

-- One part, up to its merge.
abbrev uploads_one : List Action
uploads_one =
    inits "bucket" small "f" (pos 100) "alice"
    ∷ stages "f" 0 three_bytes none none "alice"
    ∷ merges 0
    ∷ []

-- The announcement of the first completion fails.
abbrev after_failures : List Fault
after_failures =
    passes ∷ passes ∷ passes ∷ passes ∷ passes ∷ passes ∷ passes ∷ fails (internal "feed") ∷ []

abbrev with_failure : List Action
with_failure =
    inits "bucket" small "f" (pos 100) "alice"
    ∷ stages "f" 0 three_bytes none none "alice"
    ∷ merges 0
    ∷ completes "f" named (pos 200) "alice"
    ∷ []

abbrev half_done : Server Keys
half_done = acts memory with_failure (started [] after_failures)

abbrev the_file : FileRecord
the_file = record {
  id = "f";
  name = "a.txt";
  mimetype = "text/plain";
  size = 3;
  s3_key = "files/f";
  owner_sub = "alice";
  created_at = pos 200;
}

abbrev the_session : UploadSession
the_session = record {
  id = "f";
  file_size = 3;
  part_size = 3;
  file_total_parts = 1;
  s3_upload_id = none;
  s3_key = "files/f";
  owner_sub = "alice";
  created_at = pos 100;
  etags = some "put" ∷ [];
  checksums = none ∷ [];
}

-- The record is committed, the session is still there, and nothing is announced.
half_done_lem :
    (half_done.world.rows.feed ≡ [])
    × (lookup "f" half_done.world.rows.tables.files ≡ some the_file)
    × (lookup "f" half_done.world.rows.sessions ≡ some the_session)
    × (half_done.world.objects ≡ "files/f" ∷ [])
unfolding acts memory lookup
half_done_lem = (refl, refl, refl, refl)

cancel-complete_unannounced_example :
    let r = half_done.world.rows in
    ((cancel_upload memory "f" "alice" (calm r [])).0 ≡ ok tt)
    × ((complete_upload memory "f" named (pos 300) "alice" (cancelled memory "f" "alice" r [])).0
        ≡ ok tt)
    × ((complete_upload memory "f" named
          (pos 300)
          "alice"
          (cancelled memory "f" "alice" r [])).1.rows.feed
        ≡ r.feed)
cancel-complete_unannounced_example =
    cancel-complete_unannounced memory "f" "alice" the_file the_session named (pos 300)
      half_done.world.rows [] half_done_lem.1 half_done_lem.2 refl refl refl

sweep_session-loses_example :
    (lookup "f"
        (sweep_session memory
          (pos 100000)
          "f"
          (calm half_done.world.rows half_done.world.objects)).1.rows.tables.files
      ≡ some the_file)
    × (has_key "files/f"
          (sweep_session memory
            (pos 100000)
            "f"
            (calm half_done.world.rows half_done.world.objects)).1.objects
        ≡ false)
unfolding memory is_expired
sweep_session-loses_example =
    sweep_session-loses memory memory-IsStorage (pos 100000) "f" "f" the_file the_session
      half_done.world.rows half_done.world.objects half_done_lem.2 refl refl half_done_lem.1 refl
      refl

complete_upload-announced_example :
    (rec : FileRecord) × (lookup "f"
        (complete_upload memory "f" named
          (pos 200)
          "alice"
          (acts memory with_failure (started [] after_failures)).world).1.rows.tables.files
      ≡ some rec)
    × InFeed
        (file_create rec)
        (complete_upload memory "f" named
          (pos 200)
          "alice"
          (acts memory with_failure (started [] after_failures)).world).1.rows.feed
unfolding acts memory complete_upload lookup
complete_upload-announced_example =
    complete_upload-announced memory memory-IsStorage with_failure [] after_failures "f" named
      (pos 200) "alice" (refl, (refl, (refl, (refl, tt)))) refl

acts-bytes_example :
    has_key "files/f" (acts memory with_failure (started [] after_failures)).world.objects ≡ true
unfolding memory
acts-bytes_example =
    acts-bytes memory memory-IsStorage with_failure [] after_failures "f" the_file
      (refl, ((tt), (refl, (tt, (refl, (tt, (refl, (tt, tt)))))))) half_done_lem.1

-- An attached file, and an expired session of another.
abbrev attached_rows : Rows
attached_rows = record {
  tables = record {
    files = ("f", the_file) ∷ [];
    rels = ("note", "1", "f") ∷ [];
    refs = ("f", record { count = 1; orphan_since = none }) ∷ [];
    applied = none;
  };
  sessions = ("g", record the_session { id = "g"; s3_key = "files/g" }) ∷ [];
  multiparts = [];
  torn_sessions = [];
  torn_files = [];
  feed = [];
}

other_key :
    (j : String) (s : UploadSession)
    → lookup j attached_rows.sessions ≡ some s
    → is_expired (pos 100000) s ≡ true
    → s.s3_key ≢ "files/f"
unfolding lookup
other_key j s h e k = elim (Bool-cases (str_eq "g" j)) [
  | inl x ↦
      let same : record the_session { id = "g"; s3_key = "files/g" } ≡ s = cc (rw x at h) in
      absurd (cc ((eq_iff "files/g" "files/f").1 (ap (λ (y : UploadSession). y.s3_key) same ∙ k)))
  | inr x ↦ absurd (cc (rw x at h))
]

attached_rows-IsKeyed : IsKeyed attached_rows.sessions
unfolding lookup
attached_rows-IsKeyed k s h = elim (Bool-cases (str_eq "g" k)) [
  | inl x ↦
      let same : record the_session { id = "g"; s3_key = "files/g" } ≡ s = cc (rw x at h) in
      ap (λ (y : UploadSession). y.id) (sym same) ∙ (eq_iff "g" k).0 x
  | inr x ↦ absurd (cc (rw x at h))
]

sweep_once-spares_example :
    let w = sweep_once memory (pos 100000) (record {
      rows = attached_rows;
      faults = passes ∷ passes ∷ fails (internal "store") ∷ [];
      objects = "files/f" ∷ "files/g" ∷ [];
    }) in
    (lookup "f" w.1.rows.tables.files ≡ some the_file)
    × (ref_info "f" w.1.rows.tables ≡ record { count = 1; orphan_since = none })
    × (has_key "files/f" w.1.objects ≡ true)
unfolding memory lookup ref_info has_key values
sweep_once-spares_example =
    sweep_once-spares memory memory-IsStorage (pos 100000) "f" the_file
      (record { count = 1; orphan_since = none }) (inl refl)
      (record {
        rows = attached_rows;
        faults = passes ∷ passes ∷ fails (internal "store") ∷ [];
        objects = "files/f" ∷ "files/g" ∷ [];
      })
      refl refl refl other_key ((λ n. absurd (n refl)), tt)

sweep_sessions-reclaims_example :
    ((n : ℕ) × ((sweep_sessions memory
          (pos 100000)
          (values attached_rows.sessions)
          (calm attached_rows ("files/g" ∷ []))).0
        ≡ ok n))
    × ((k : String) (s : UploadSession)
        → lookup k
            (sweep_sessions memory
              (pos 100000)
              (values attached_rows.sessions)
              (calm attached_rows ("files/g" ∷ []))).1.rows.sessions
          ≡ some s
        → is_expired (pos 100000) s ≡ false)
sweep_sessions-reclaims_example =
    sweep_sessions-reclaims memory memory-IsReliable (pos 100000) attached_rows ("files/g" ∷ [])
      attached_rows-IsKeyed

abbrev two_parts : UploadSession
two_parts = record {
  id = "f";
  file_size = 2048;
  part_size = 1024;
  file_total_parts = 2;
  s3_upload_id = some "u";
  s3_key = "files/f";
  owner_sub = "alice";
  created_at = pos 100;
  etags = none ∷ none ∷ [];
  checksums = none ∷ none ∷ [];
}

abbrev two_rows : Rows
two_rows = record {
  tables = no_rows.tables;
  sessions = ("f", two_parts) ∷ [];
  multiparts =
      (
        "u",
        record {
          upload_id = "u";
          bucket = "bucket";
          key = "files/f";
          s3_upload_id = "backend";
          parts = [];
          created_at = pos 100;
        },
      )
      ∷ [];
  torn_sessions = [];
  torn_files = [];
  feed = [];
}

abbrev second_part : Staged
second_part = record {
  file_id = "f";
  slot = 1;
  upload_id = some "u";
  etag = "e";
  checksum = none;
  caller = "alice";
}

the_two : (s : UploadSession) → lookup "f" two_rows.sessions ≡ some s → two_parts ≡ s
unfolding lookup
the_two s h = cc

nothing_there :
    (i : ℕ) (e : String)
    → ◌≡◌ {A = Option (Option String)} (get_elem? (none ∷ none ∷ []) i) (some (some e))
    → ⊥
nothing_there zero e h = cc
nothing_there (suc zero) e h = cc
nothing_there (suc (suc i)) e h = cc

abbrev no_keys : Keys
no_keys = []

two_rows-IsCovered : IsCovered "f" "u" two_rows
unfolding lookup
two_rows-IsCovered = (
  λ s h. ap (λ (y : UploadSession). y.id) (sym (the_two s h)),
  (
    λ m h. let same : (lookup "u" two_rows.multiparts) ≡ some m = h in ground (arith, same),
    λ s m i e h q g. absurd (
        nothing_there i e (
          subst (λ (y : UploadSession). get_elem? y.etags i ≡ some (some e)) (sym (the_two s h))
            g)),
  ),
)

merge_part-IsCovered_example :
    IsCovered "f" "u"
      (merge_part second_part (record {
        rows = two_rows;
        faults = passes ∷ passes ∷ passes ∷ fails (internal "store") ∷ [];
        objects = no_keys;
      })).1.rows
merge_part-IsCovered_example =
    merge_part-IsCovered "f" "u" second_part
      (record {
        rows = two_rows;
        faults = passes ∷ passes ∷ passes ∷ fails (internal "store") ∷ [];
        objects = no_keys;
      })
      refl refl two_rows-IsCovered
