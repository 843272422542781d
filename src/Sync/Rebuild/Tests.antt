-- ===== src/Sync/Rebuild/Tests.antt =====
-- Runs of sync/snapshot.rs, copy_filtered.
use rust_api.Prelude.Texts.{is_colon, has_colon}
use rust_api.Prelude.{String, ◌≡◌, refl, true, ◌&&◌, none, some, [], ◌∷◌, arith, str_eq, pos}
use rust_api.Prelude.Maps.{lookup}
use rust_api.Records.{FileRecord}
use rust_api.Fs.{ok}
use rust_api.Fs.Store.{Tables, ref_info, or_default, rows_of}
use rust_api.Sync.Policy.{Policy}
use rust_api.Sync.Groups.{member}
use rust_api.Sync.Replica.Quiet.{quiet}
use rust_api.Sync.Replica.Matches.{Matches}
use rust_api.Sync.Rebuild.{copy_filtered}
use rust_api.Sync.Rebuild.Rebuilt.{walk, ids_of, fresh, copy_filtered-Matches}

-- Ann may read note 1.
abbrev policy : Policy
policy = record {
  authorize = λ sub obj. ok (str_eq sub "ann" && str_eq obj "note:1");
  get_groups_of_user = λ s. [];
  rules_for_subject = λ s. [];
  group_names = [];
}

abbrev file_of : String → FileRecord
file_of id = record {
  id = id;
  name = "a.txt";
  mimetype = "text/plain";
  size = 1;
  s3_key = "k";
  owner_sub = "bob";
  created_at = pos 0;
}

-- Two files, of which one is attached to note 1.
abbrev two_files : Tables
two_files = record {
  files = ("f", file_of "f") ∷ ("g", file_of "g") ∷ [];
  rels = ("note", "1", "f") ∷ [];
  refs = ("f", record { count = 1; orphan_since = none }) ∷ [];
  applied = none;
}

two_files-all :
    (id : String) (rec : FileRecord)
    → lookup id two_files.files ≡ some rec
    → member id (ids_of (file_of "f" ∷ file_of "g" ∷ [])) ≡ true
unfolding lookup member
two_files-all id rec h = ground (arith, h)

copy_filtered-Matches_example :
    let r =
      copy_filtered policy "ann"
        (walk (file_of "f" ∷ file_of "g" ∷ []))
        []
        (quiet two_files fresh) in
    (r.0 ≡ ok []) × Matches policy "ann" two_files r.1.replica.tables
unfolding lookup ref_info or_default rows_of has_colon is_colon
copy_filtered-Matches_example =
    copy_filtered-Matches policy "ann" two_files (file_of "f" ∷ file_of "g" ∷ [])
      ((refl, refl), ((refl, refl), tt)) ((refl, refl), tt) two_files-all
