-- ===== src/Sync/Replica.antt =====
-- sync/snapshot.rs, apply_op and below: the changes of the log brought into a user's replica.
pub mod Safe
pub mod Calls
pub mod Granted
pub mod Quiet
pub mod Matches
pub mod Attached
pub mod Followed
pub mod Resynced
use Prim.Native.String.{compare}
use Prim.Native.Nat.{Ordering}
use rust_api.Prelude.{
  ℕ, zero, suc, ◌+◌, ◌-◌, ◌*◌, ◌/◌, ◌%◌, ◌^◌, ◌≤◌, ◌<◌, String, ◌≡◌, refl, sym, ap, ◌∙◌, subst, ◌≢◌,
  ◌↔◌, ◌⊎◌, inl, inr, Bool, true, false, not, ◌&&◌, ◌||◌, Option, none, some, List, [], ◌∷◌, ◌++◌,
  map, arith, str_eq, eq_iff, ltb, leb, ◌==◌, if◌then◌else◌, Bool-cases, Option-cases, length, take,
  All, count, ℤ, pos, negsuc, ltb_ℤ, leb_ℤ, ◌≤ℤ◌, ◌<ℤ◌, ◌-ℤ◌,
}
use rust_api.Records.{
  group_delete, group_remove, group_add, policy_rule_remove, policy_rule_add, policy_remove,
  policy_add, file_delete, file_create, FileRecord, WalOp, WalEntry,
}
use rust_api.Fs.{Result, ok, err, FsError}
use rust_api.Fs.Access.{Row}
use rust_api.Fs.Store.{
  Disk, Tables, M, ◌>>=◌, ◌>>◌, resume, pure, get_file, rows_for_file, files_for_row, save_file,
  delete_file, attach, detach, write, read,
}
use rust_api.Sync.Policy.{Policy, granted, split_row_obj, eq_ignore_ascii_case}
use rust_api.Sync.Groups.{implicit_groups, member}

-- The store of the service and the replica's, each with its own faults.
pub record World : Type 0 where
  pub master : Disk
  pub replica : Disk

abbrev pub W {ℓ} : Type ℓ → Type ℓ
W A = World → Result A × World

unfoldable pub on_master {ℓ} : {A : Type ℓ} → M A → W A
on_master m w = let (a, d) = m w.master in (a, record w { master = d })

unfoldable pub on_replica {ℓ} : {A : Type ℓ} → M A → W A
on_replica m w = let (a, d) = m w.replica in (a, record w { replica = d })

pub data ApplyOutcome : Type 0 where
  applied : ApplyOutcome
  needs_full_rebuild : ApplyOutcome

unfoldable pub visible : Policy → String → List Row → List Row
visible p sub [] = []
visible p sub (r ∷ rows) =
    let rest = visible p sub rows in if granted p sub r then r ∷ rest else rest

unfoldable pub visible_rows : Policy → String → String → W (List Row)
visible_rows p sub file_id = do rows ← on_master (rows_for_file file_id); pure (visible p sub rows)

unfoldable pub is_some_row : List Row → Bool
is_some_row [] = false
is_some_row (r ∷ rows) = true

unfoldable pub readable_found : Policy → String → String → Option FileRecord → W Bool
readable_found p sub file_id none = pure false
readable_found p sub file_id (some rec) =
    if str_eq rec.owner_sub sub
    then pure true
    else (do rows ← visible_rows p sub file_id; pure (is_some_row rows))

unfoldable pub can_read : Policy → String → String → W Bool
can_read p sub file_id = do found ← on_master (get_file file_id); readable_found p sub file_id found

-- A row into the rows in order, each once (`BTreeSet`).
order_rows : Row → Row → Ordering
order_rows (a, b) (c, d) = elim (compare a c) [
  | Ordering.lt ↦ Ordering.lt
  | Ordering.eq ↦ compare b d
  | Ordering.gt ↦ Ordering.gt
]

unfoldable insert_row : Row → List Row → List Row
insert_row r [] = r ∷ []
insert_row r (s ∷ rows) = elim (order_rows r s) [
  | Ordering.lt ↦ r ∷ s ∷ rows
  | Ordering.eq ↦ s ∷ rows
  | Ordering.gt ↦ s ∷ insert_row r rows
]

pub insert_obj : Option Row → List Row → List Row
insert_obj none rows = rows
insert_obj (some r) rows = insert_row r rows

unfoldable pub read_rows : List (String × String) → List Row → List Row
read_rows [] rows = rows
read_rows ((obj, act) ∷ rules) rows =
    read_rows rules
      (if eq_ignore_ascii_case act "read" then insert_obj (split_row_obj obj) rows else rows)

unfoldable pub rows_of_subjects : Policy → List String → List Row → List Row
rows_of_subjects p [] rows = rows
rows_of_subjects p (s ∷ subjects) rows =
    rows_of_subjects p subjects (read_rows (p.rules_for_subject s) rows)

unfoldable pub read_rows_for_group : Policy → String → List Row
read_rows_for_group p group = rows_of_subjects p (group ∷ implicit_groups p group) []

-- The operations of one replica: the policy, the user and the clock of a run.
module _ (p : Policy) (sub : String) (now : ℤ) where
  -- The file is there and may be read.
  unfoldable pub resync_readable : String → String → FileRecord → String → W (Unit {0})
  resync_readable row_type row_id rec file_id = do
    on_replica (save_file rec)
    if granted p sub (row_type, row_id)
        then (do on_replica (attach row_type row_id file_id); pure tt)
        else (do on_replica (detach now row_type row_id file_id); pure tt)

  unfoldable pub resync_found : String → String → String → Option FileRecord → W (Unit {0})
  resync_found row_type row_id file_id none = on_replica (delete_file file_id)
  resync_found row_type row_id file_id (some rec) = do
    readable ← can_read p sub file_id
    if readable
        then resync_readable row_type row_id rec file_id
        else on_replica (delete_file file_id)

  unfoldable pub resync_file : String → String → String → W (Unit {0})
  resync_file row_type row_id file_id = do
    found ← on_master (get_file file_id)
    resync_found row_type row_id file_id found

  unfoldable pub resync_files : String → String → List String → W (Unit {0})
  resync_files row_type row_id [] = pure tt
  resync_files row_type row_id (f ∷ files) = do
    resync_file row_type row_id f
    resync_files row_type row_id files

  -- The bound is `MAX_POLICY_REPLAY_FILES`.
  unfoldable pub resync_row : String → String → List String → ℕ → W ApplyOutcome → W ApplyOutcome
  resync_row row_type row_id files total next =
      if ltb 1000 total
      then pure needs_full_rebuild
      else (do resync_files row_type row_id files; next)

  unfoldable pub apply_rule_row : String → Option Row → W ApplyOutcome
  apply_rule_row rule_sub none = pure applied
  apply_rule_row rule_sub (some (row_type, row_id)) =
      if not (str_eq rule_sub sub || member rule_sub (implicit_groups p sub))
      then pure applied
      else (do
        files ← on_master (files_for_row row_type row_id)
        resync_row row_type row_id files (length files) (pure applied))

  unfoldable pub apply_rule_op : String → String → String → W ApplyOutcome
  apply_rule_op rule_sub obj act =
      if not (eq_ignore_ascii_case act "read")
      then pure applied
      else apply_rule_row rule_sub (split_row_obj obj)

  -- The loop over the rows: `total` files were counted so far.
  unfoldable pub resync_rows : ℕ → List Row → W ApplyOutcome
  resync_rows total [] = pure applied
  resync_rows total ((row_type, row_id) ∷ rows) = do
    files ← on_master (files_for_row row_type row_id)
    resync_row row_type row_id files (total + length files)
        (resync_rows (total + length files) rows)

  unfoldable pub apply_membership_op : String → String → W ApplyOutcome
  apply_membership_op user group =
      if not (str_eq user sub) then pure applied else resync_rows 0 (read_rows_for_group p group)

  unfoldable pub resync_group : List Row → W ApplyOutcome
  resync_group [] = pure applied
  resync_group (r ∷ rows) = resync_rows 0 (r ∷ rows)

  unfoldable pub apply_group_delete : String → W ApplyOutcome
  apply_group_delete group = resync_group (read_rows_for_group p group)

  unfoldable pub apply_create : FileRecord → Bool → W ApplyOutcome
  apply_create rec readable =
      if readable then (do on_replica (save_file rec); pure applied) else pure applied

  unfoldable pub apply_attach : String → String → String → FileRecord → Bool → W ApplyOutcome
  apply_attach row_type row_id file_id rec readable =
      if readable
      then (do
        on_replica (save_file rec)
        if granted p sub (row_type, row_id)
            then (do on_replica (attach row_type row_id file_id); pure applied)
            else pure applied)
      else pure applied

  unfoldable pub apply_attach_found : String → String → String → Option FileRecord → W ApplyOutcome
  apply_attach_found row_type row_id file_id none = pure applied
  apply_attach_found row_type row_id file_id (some rec) = do
    readable ← can_read p sub file_id
    apply_attach row_type row_id file_id rec readable

  unfoldable pub apply_op : WalOp → W ApplyOutcome
  apply_op (file_create rec) = do readable ← can_read p sub rec.id; apply_create rec readable
  apply_op (file_delete file_id) = do on_replica (delete_file file_id); pure applied
  apply_op (WalOp.attach row_type row_id file_id) = do
    found ← on_master (get_file file_id)
    apply_attach_found row_type row_id file_id found
  apply_op (WalOp.detach row_type row_id file_id) = do
    on_replica (detach now row_type row_id file_id)
    pure applied
  apply_op (policy_add obj) = pure needs_full_rebuild
  apply_op (policy_remove obj) = pure needs_full_rebuild
  apply_op (policy_rule_add rule_sub obj act) = apply_rule_op rule_sub obj act
  apply_op (policy_rule_remove rule_sub obj act) = apply_rule_op rule_sub obj act
  apply_op (group_add user group) = apply_membership_op user group
  apply_op (group_remove user group) = apply_membership_op user group
  apply_op (group_delete group) = apply_group_delete group

  -- The loop of `replay`: it ends at the first change that cannot be brought in by steps.
  unfoldable pub apply_after : W ApplyOutcome → ApplyOutcome → W ApplyOutcome
  apply_after next needs_full_rebuild = pure needs_full_rebuild
  apply_after next applied = next

  unfoldable pub apply_ops : List WalEntry → W ApplyOutcome
  apply_ops [] = pure applied
  apply_ops (e ∷ entries) = do o ← apply_op e.op; apply_after (apply_ops entries) o
