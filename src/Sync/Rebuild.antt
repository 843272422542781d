-- ===== src/Sync/Rebuild.antt =====
-- sync/snapshot.rs, copy_filtered: the copy of what a user may see that a full rebuild starts from.
pub mod Rows
pub mod Copied
pub mod Rebuilt
mod Tests
use rust_api.Prelude.{
  ℕ, zero, suc, ◌+◌, ◌-◌, ◌*◌, ◌/◌, ◌%◌, ◌^◌, ◌≤◌, ◌<◌, String, ◌≡◌, refl, sym, ap, ◌∙◌, subst, ◌≢◌,
  ◌↔◌, ◌⊎◌, inl, inr, Bool, true, false, not, ◌&&◌, ◌||◌, Option, none, some, List, [], ◌∷◌, ◌++◌,
  map, arith, str_eq, eq_iff, ltb, leb, ◌==◌, if◌then◌else◌, Bool-cases, Option-cases, length, take,
  All, count, ℤ, pos, negsuc, ltb_ℤ, leb_ℤ, ◌≤ℤ◌, ◌<ℤ◌, ◌-ℤ◌,
}
use rust_api.Records.{FileRecord}
use rust_api.Fs.{Result, ok, err}
use rust_api.Fs.Access.{Row}
use rust_api.Fs.Store.{Tables, RefInfo, get_ref_info, save_file, attach, ◌>>=◌, ◌>>◌, resume, pure}
use rust_api.Sync.Policy.{Policy}
use rust_api.Sync.Replica.{World, W, on_master, on_replica, is_some_row, visible_rows}
use rust_api.Sync.Replay.{answer}

-- `FileScan`: the next record of the walk over the master, and the keys passed over.
pub record FileScan : Type 0 where
  pub found : Option FileRecord
  pub undecodable : List String

unfoldable pub attach_rows : String → List Row → W (Unit {0})
attach_rows file_id [] = pure tt
attach_rows file_id ((ty, rid) ∷ rows) = do
  on_replica (attach ty rid file_id)
  attach_rows file_id rows

unfoldable pub copy_counted : FileRecord → List Row → RefInfo → W (Unit {0})
copy_counted rec rows info = if ltb 0 info.count then attach_rows rec.id rows else pure tt

unfoldable pub copy_visible : String → FileRecord → List Row → W (Unit {0})
copy_visible sub rec rows =
    if not (str_eq rec.owner_sub sub) && not (is_some_row rows) then pure tt else (do
      on_replica (save_file rec)
      info ← on_master (get_ref_info rec.id)
      copy_counted rec rows info)

unfoldable pub copy_record : Policy → String → FileRecord → W (Unit {0})
copy_record p sub rec = do rows ← visible_rows p sub rec.id; copy_visible sub rec rows

unfoldable pub copy_next :
    W (List String) → List String → Option FileRecord → Policy → String → W (List String)
copy_next next passed none p sub = pure passed
copy_next next passed (some rec) p sub = do copy_record p sub rec; next

-- `scans` is what the walk answers, call by call, up to its end; the keys passed over are the answer.
unfoldable pub copy_filtered :
    Policy → String → List (Result FileScan) → List String → W (List String)
copy_filtered p sub [] passed = pure passed
copy_filtered p sub (scan ∷ scans) passed = do
  s ← answer scan
  copy_next (copy_filtered p sub scans (passed ++ s.undecodable)) (passed ++ s.undecodable) s.found
      p sub
