-- ===== src/Sync/Replay/Tests.antt =====
-- Runs of sync/snapshot.rs.
use rust_api.Sync.Groups.Count.{Covers}
use rust_api.Prelude.{
  subst, ℕ, String, ◌≡◌, refl, ◌↔◌, inl, inr, Bool, true, false, ◌&&◌, none, some, List, [], ◌∷◌,
  arith, str_eq, eq_iff, if◌then◌else◌, Bool-cases, pos,
}
use rust_api.Prelude.Maps.{lookup}
use rust_api.Prelude.Texts.{after_colon, has_colon, is_colon}
use rust_api.Fs.Store.Refs.{same_rel→eq}
use rust_api.Records.{file_delete, FileRecord, WalOp, WalEntry}
use rust_api.Fs.{Result, ok, store}
use rust_api.Fs.Store.{
  transact, transact_with, read, write, delete_file, Tables, passes, fails, has_rel, same_rel, Rel,
  rel_key, delete_rel, rows_of, remove_marker,
}
use rust_api.Sync.Policy.{Policy, granted, split_row_obj, row_object, split_row_obj-row_object}
use rust_api.Sync.Groups.{member, implicit_groups, Within}
use rust_api.Sync.Groups.Found.{implicit_groups_iff}
use rust_api.Sync.Replica.{
  apply_after, apply_ops, on_replica, World, resync_file, apply_op, applied, visible, is_some_row,
}
use rust_api.Sync.Replica.Safe.{Grows, IsKeyed, may_read, may_read_found}
use rust_api.Sync.Replica.Quiet.{quiet}
use rust_api.Sync.Replica.Matches.{shown_file, shown_rel, Matches, is_there}
use rust_api.Sync.Replica.Followed.{commit, apply_op-Matches, detach-stays}
use rust_api.Sync.Replica.Resynced.{resync_file_lem}
use rust_api.Sync.Replay.{
  set_applied, answer, is_legacy_policy_mark, any_legacy, replay_done, replay_entries, replay_from,
  load_applied, replay, advance, Node,
}
use rust_api.Sync.Replay.Granted.{replay-Grows}
use rust_api.Sync.Replay.Advanced.{replay-advanced}
use rust_api.Sync.Replay.Claims.{Claims, advance-Claims}

split_row_obj-row_object_example : split_row_obj (row_object "note" "1") ≡ some ("note", "1")
unfolding has_colon is_colon
split_row_obj-row_object_example =
    split_row_obj-row_object "note" "1" refl (λ e. let h = (eq_iff "note" "").1 e in cc)
      (λ e. let h = (eq_iff "1" "").1 e in cc)

-- Ann may read note 1, and is a member of the readers, who are staff.
abbrev reads : String → String → Result Bool
reads sub obj = ok (str_eq sub "ann" && str_eq obj "note:1")

abbrev groups : String → List String
groups name =
    if str_eq name "ann" then "readers" ∷ [] else if str_eq name "readers" then "staff" ∷ [] else []

abbrev policy : Policy
policy = record {
  authorize = reads;
  get_groups_of_user = groups;
  rules_for_subject = λ s. [];
  group_names = "readers" ∷ "staff" ∷ [];
}

groups-Covers : (h : String) → Covers policy.group_names (policy.get_groups_of_user h)
unfolding member
groups-Covers h g m = ground (arith, eq_iff h "ann", eq_iff h "readers")

implicit_groups_iff_example :
    (member "staff" (implicit_groups policy "ann") ≡ true)
    ↔ Within policy.get_groups_of_user "ann" "staff"
implicit_groups_iff_example = implicit_groups_iff policy "ann" "staff" groups-Covers

abbrev a_file : FileRecord
a_file = record {
  id = "f";
  name = "f";
  mimetype = "text/plain";
  size = 1;
  s3_key = "k";
  owner_sub = "bob";
  created_at = pos 0;
}

abbrev bare : Tables
bare = record { files = ("f", a_file) ∷ []; rels = []; refs = []; applied = none }

abbrev attached_one : Tables
attached_one = record {
  files = ("f", a_file) ∷ [];
  rels = ("note", "1", "f") ∷ [];
  refs = [];
  applied = none;
}

bare-IsKeyed : IsKeyed bare
unfolding lookup
bare-IsKeyed id rec h = ground (arith, eq_iff "f" id, h)

nobody : Tables
nobody = record { files = []; rels = []; refs = []; applied = some 1 }

bare-Matches : Matches policy "ann" bare nobody
unfolding nobody shown_file shown_rel may_read may_read_found is_there has_rel rows_of lookup
    visible is_some_row
bare-Matches = (
  λ id. elim (Bool-cases (str_eq "f" id)) [ inl e ↦ rw e refl | inr e ↦ rw e refl ],
  λ ty rid f. refl,
)

apply_op-Matches_example :
    let r =
      apply_op policy "ann"
        (pos 9)
        (WalOp.attach "note" "1" "f")
        (quiet (commit (WalOp.attach "note" "1" "f") bare) nobody) in
    (r.0 ≡ ok applied)
    × Matches policy "ann" (commit (WalOp.attach "note" "1" "f") bare) r.1.replica.tables
unfolding lookup has_colon is_colon
apply_op-Matches_example =
    apply_op-Matches policy "ann" (pos 9) (WalOp.attach "note" "1" "f") bare nobody bare-IsKeyed
      ((a_file, refl), refl, refl) bare-Matches

attached_one-Matches : Matches policy "ann" attached_one attached_one
unfolding shown_file shown_rel may_read may_read_found is_there has_rel same_rel rows_of lookup
    visible granted is_some_row is_colon
attached_one-Matches = (
  λ id. elim (Bool-cases (str_eq "f" id)) [ inl e ↦ rw e refl | inr e ↦ rw e refl ],
  λ ty rid f. elim (Bool-cases (same_rel ("note", "1", "f") (ty, rid, f))) [
    | inl e ↦
        subst
          (λ (r : Rel).
            has_rel r attached_one.rels ≡ shown_rel policy "ann" attached_one r.0 r.1 r.2)
          (same_rel→eq ("note", "1", "f") (ty, rid, f) e) refl
    | inr e ↦ rw e refl
  ],
)

detach-stays_example :
    let t' = (remove_marker (pos 9) (rel_key "note" "1" "f") attached_one).1 in
    let after =
      (apply_op policy "ann"
        (pos 9)
        (WalOp.detach "note" "1" "f")
        (quiet t' attached_one)).1.replica.tables in
    ((rec : FileRecord) × (lookup "f" t'.files ≡ some rec)
      × (lookup "f" after.files ≡ some rec)
      × (shown_file policy "ann" t' "f" ≡ none))
    × (¬ Matches policy "ann" t' after)
unfolding may_read may_read_found remove_marker has_rel same_rel delete_rel rows_of lookup visible
    granted is_some_row is_colon after_colon
detach-stays_example =
    detach-stays policy "ann" (pos 9) "note" "1" "f" attached_one attached_one attached_one-Matches
      refl refl

resync_file_lem_example :
    let r = resync_file policy "ann" (pos 9) "note" "1" "f" (quiet bare attached_one) in
    (r.0 ≡ ok tt)
    × (lookup "f" r.1.replica.tables.files ≡ shown_file policy "ann" bare "f")
    × (has_rel (rel_key "note" "1" "f") r.1.replica.tables.rels
        ≡ (may_read policy "ann" bare "f" && granted policy "ann" ("note", "1")))
    × ((id : String)
        → str_eq "f" id ≡ false
        → lookup id r.1.replica.tables.files ≡ lookup id attached_one.files)
    × ((x y id : String)
        → str_eq "f" id ≡ false
        → has_rel (x, y, id) r.1.replica.tables.rels ≡ has_rel (x, y, id) attached_one.rels)
unfolding has_rel
resync_file_lem_example =
    resync_file_lem policy "ann" (pos 9) "note" "1" "f" bare attached_one bare-IsKeyed (refl, tt)

-- The log has a removal that the replica is behind, and the second call of the replica fails.
abbrev log : ℕ → ℕ → Result (List WalEntry)
log from to = ok (record { seq = 2; op = file_delete "f"; ts = pos 0 } ∷ [])

abbrev failing : World
failing = record {
  master = record { tables = bare; faults = [] };
  replica = record {
    tables = record attached_one { applied = some 1 };
    faults = passes ∷ fails (store "offline") ∷ [];
  };
}

replay-Grows_example :
    Grows policy "ann" failing.master.tables 2 failing.replica.tables
      (replay policy "ann" (pos 9) log (ok tt) 2 failing).1.replica.tables
replay-Grows_example = replay-Grows policy "ann" (pos 9) log (ok tt) 2 failing bare-IsKeyed

abbrev behind : World
behind = quiet bare (record attached_one { applied = some 1 })

abbrev two : ℕ
two = 2

replay-advanced_example :
    (two ≡ 2)
    × ((replay policy "ann" (pos 9) log (ok tt) 2 behind).1.replica.tables.applied ≡ some 2)
unfolding replay replay_from replay_entries replay_done any_legacy is_legacy_policy_mark answer
    set_applied load_applied read write transact transact_with on_replica apply_ops apply_op
    apply_after delete_file
replay-advanced_example = replay-advanced policy "ann" (pos 9) log (ok tt) 2 behind 2 refl

abbrev node : Node
node = record { world = failing; builds = record { inflight = []; jobs = []; open_ = true } }

advance-Claims_example :
    Claims "ann" 2 node.builds (advance policy "ann" (pos 9) log (ok tt) (ok 2) node).1.builds
advance-Claims_example = advance-Claims policy "ann" (pos 9) log (ok tt) 2 node
