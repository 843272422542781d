-- ===== src/Fs/Store/Tests.antt =====
-- Runs of fs/store.rs.
use rust_api.Fs.Store.Cut.{attach-rows_for_file}
use rust_api.Prelude.{◌≡◌, refl, none, List, [], ◌∷◌, pos}
use Prim.Native.String.{◌++◌ as ◌++ˢ◌}
use rust_api.Prelude.Texts.{has_colon, is_colon}
use rust_api.Fs.{ok, FsError, store}
use rust_api.Fs.Store.{rows_for_file, attach, ◌>>◌, has_rel, rows_of, Tables, passes, lost}
use rust_api.Fs.Store.Runs.{run_calls, Call, attaches, detaches}
use rust_api.Fs.Store.Agreed.{run_calls_again}

abbrev offline : FsError
offline = store "offline"

abbrev some_calls : List Call
some_calls =
    attaches "note" "1" "f" ∷ attaches "note" "2" "f" ∷ detaches (pos 5) "note" "1" "f" ∷ []

abbrev one_marker : Tables
one_marker = record {
  files = [];
  rels = ("note", "1", "f") ∷ [];
  refs = ("f", record { count = 1; orphan_since = none }) ∷ [];
  applied = none;
}

run_calls_again_example :
    run_calls
      (detaches (pos 5) "note" "1" "f" ∷ detaches (pos 5) "note" "1" "f" ∷ [])
      (record { tables = one_marker; faults = lost offline ∷ passes ∷ [] })
    ≡ run_calls
        (detaches (pos 5) "note" "1" "f" ∷ [])
        (record { tables = one_marker; faults = passes ∷ [] })
unfolding has_rel
run_calls_again_example =
    run_calls_again (detaches (pos 5) "note" "1" "f") offline [] one_marker (refl, tt)

abbrev no_tables : Tables
no_tables = record { files = []; rels = []; refs = []; applied = none }

attach-rows_for_file_example :
    ((do attach "note" ("a" ++ˢ (":" ++ˢ "b")) "f"; rows_for_file "f")
      (record { tables = no_tables; faults = [] })).0
    ≡ ok (("note", "a") ∷ [])
unfolding has_colon is_colon rows_of
attach-rows_for_file_example = attach-rows_for_file "note" "a" "b" "f" no_tables refl refl refl
