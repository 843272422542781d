-- ===== src/Fs/Engine/Actions.antt =====
-- fs/mod.rs: the requests that the engine serves, in any order, the two halves of a part's upload apart.
use rust_api.Fs.Engine.Sweep.{sweep_once}
use rust_api.Fs.Access.{Row}
use rust_api.Fs.Engine.Complete.{CompleteRequest, cancel_upload, complete_upload}
use rust_api.Fs.Upload.{Chunk}
use rust_api.Fs.Model.{InitRequest}
use rust_api.Fs.{err, ok, Result}
use rust_api.Fs.Objects.{S3Client}
use rust_api.Fs.Engine.Uploads.{stage_part, init_upload, Staged, merge_part}
use rust_api.Prelude.{Bool, zero, ◌++◌, suc, ℤ, some, none, Option, ◌∷◌, [], ℕ, String, List}
use rust_api.Fs.Engine.{delete_file, detach, attach, World, Rows}
use rust_api.Fs.Store.{Rel, Fault}

pub record Server (S : Type 0) : Type 0 where
  pub world : World S
  -- The parts whose first half is done; each may be merged at any later time.
  pub staged : List Staged

pub data Action : Type 0 where
  inits : String → InitRequest → String → ℤ → String → Action
  stages : String → ℕ → List (Result Chunk) → Option ℕ → Option String → String → Action
  merges : ℕ → Action
  completes : String → CompleteRequest → ℤ → String → Action
  cancels : String → String → Action
  attaches : Result (Unit {0}) → Rel → Action
  detaches : Result (Unit {0}) → ℤ → Rel → Action
  deletes : (Row → Result Bool) → String → String → Action
  sweeps : ℤ → Action

unfoldable pub nth : ℕ → List Staged → Option Staged
nth n [] = none
nth zero (p ∷ ps) = some p
nth (suc n) (p ∷ ps) = nth n ps

module _ {S : Type 0} where
  -- A part that was staged waits for its second half.
  unfoldable pub stored : Server S → Result Staged × World S → Server S
  stored v (ok p, w) = record { world = w; staged = v.staged ++ (p ∷ []) }
  stored v (err e, w) = record { world = w; staged = v.staged }

  unfoldable pub merge_nth : Option Staged → World S → World S
  unfolding merge_part
  merge_nth none w = w
  merge_nth (some p) w = (merge_part p w).1

module _ {S : Type 0} (s3 : S3Client S) where
  -- What a request leaves; its answer is dropped.
  unfoldable pub act : Action → Server S → Server S
  unfolding init_upload stage_part stored nth merge_nth complete_upload cancel_upload attach detach
      delete_file sweep_once
  act (inits bucket req id now owner) v = record v {
    world = (init_upload s3 bucket req id now owner v.world).1;
  }
  act (stages id i body declared checksum caller) v =
      stored v (stage_part s3 id i body declared checksum caller v.world)
  act (merges n) v = record v { world = merge_nth (nth n v.staged) v.world }
  act (completes id req now caller) v = record v {
    world = (complete_upload s3 id req now caller v.world).1;
  }
  act (cancels id caller) v = record v { world = (cancel_upload s3 id caller v.world).1 }
  act (attaches allowed rel) v = record v { world = (attach allowed rel v.world).1 }
  act (detaches allowed now rel) v = record v { world = (detach allowed now rel v.world).1 }
  act (deletes authorize caller id) v = record v {
    world = (delete_file s3 authorize caller id v.world).1;
  }
  act (sweeps now) v = record v { world = (sweep_once s3 now v.world).1 }

  unfoldable pub acts : List Action → Server S → Server S
  unfolding act
  acts [] v = v
  acts (a ∷ rest) v = acts rest (act a v)

abbrev pub no_rows : Rows
no_rows = record {
  tables = record { files = []; rels = []; refs = []; applied = none };
  sessions = [];
  multiparts = [];
  torn_sessions = [];
  torn_files = [];
  feed = [];
}

-- A server at its start, with the objects and the failures to come.
abbrev pub started : {S : Type 0} → S → List Fault → Server S
started s fs = record { world = record { rows = no_rows; faults = fs; objects = s }; staged = [] }
