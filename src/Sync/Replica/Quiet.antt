-- ===== src/Sync/Replica/Quiet.antt =====
-- sync/snapshot.rs, apply_op: the operations when no call fails.
use rust_api.Prelude.{
  String, ◌≡◌, refl, inl, inr, Bool, true, false, Option, none, some, [], str_eq, if◌then◌else◌,
  Bool-cases, ℤ,
}
use rust_api.Prelude.Maps.{lookup}
use rust_api.Records.{file_create, file_delete, FileRecord, WalOp}
use rust_api.Fs.{ok}
use rust_api.Fs.Store.{
  rel_key, Tables, transact, transact_with, read, write, rows_of, put_file, remove_file, add_marker,
  remove_marker, get_file, rows_for_file, save_file, delete_file, attach, detach,
}
use rust_api.Sync.Policy.{granted-key, Policy, granted}
use rust_api.Sync.Replica.{
  World, on_master, on_replica, visible_rows, can_read, readable_found, resync_readable,
  resync_found, resync_file, apply_create, apply_attach, apply_attach_found, apply_op, applied,
}
use rust_api.Sync.Replica.Safe.{may_read, may_read_found}

-- A master and a replica no call of which fails.
abbrev pub quiet : Tables → Tables → World
quiet t u = record {
  master = record { tables = t; faults = [] };
  replica = record { tables = u; faults = [] };
}

module _ (p : Policy) (sub : String) where
  readable_found-quiet :
      (id : String) (t u : Tables) (found : Option FileRecord)
      → readable_found p sub id found (quiet t u)
        ≡ (ok (may_read_found p sub (rows_of id t.rels) found), quiet t u)
  unfolding readable_found may_read_found visible_rows on_master rows_for_file read transact
      transact_with
  readable_found-quiet id t u none = refl
  readable_found-quiet id t u (some rec) = elim (Bool-cases (str_eq rec.owner_sub sub)) [
    | inl e ↦ rw e refl
    | inr e ↦ rw e refl
  ]

  can_read-quiet :
      (id : String) (t u : Tables)
      → can_read p sub id (quiet t u) ≡ (ok (may_read p sub t id), quiet t u)
  unfolding can_read on_master get_file read transact transact_with may_read
  can_read-quiet id t u = readable_found-quiet id t u (lookup id t.files)

  module _ (now : ℤ) where
    -- What the replica is after the attachment of a row to a file that is there.
    unfoldable pub attached_to : String → String → String → FileRecord → Bool → Tables → Tables
    attached_to ty rid f rec readable u =
        if readable
        then (if granted p sub (ty, rid)
            then (add_marker (ty, rid, f) (put_file rec u)).1
            else put_file rec u)
        else u

    apply_attach-quiet :
        (ty rid f : String) (rec : FileRecord) (b : Bool) (t u : Tables)
        → apply_attach p sub now ty rid f rec b (quiet t u)
          ≡ (ok applied, quiet t (attached_to (rel_key ty rid f).0 (rel_key ty rid f).1 f rec b u))
    unfolding apply_attach attached_to on_replica save_file attach write transact transact_with
    apply_attach-quiet ty rid f rec false t u = refl
    apply_attach-quiet ty rid f rec true t u = elim (Bool-cases (granted p sub (ty, rid))) [
      | inl e ↦ rw (granted-key p sub ty rid, e) refl
      | inr e ↦ rw (granted-key p sub ty rid, e) refl
    ]

    pub attach-quiet :
        (ty rid f : String) (rec : FileRecord) (t u : Tables)
        → lookup f t.files ≡ some rec
        → apply_op p sub now (WalOp.attach ty rid f) (quiet t u) ≡ (
          ok applied,
          quiet t
              (attached_to (rel_key ty rid f).0 (rel_key ty rid f).1 f rec (may_read p sub t f) u),
        )
    unfolding apply_op on_master get_file read transact transact_with apply_attach_found
    attach-quiet ty rid f rec t u e =
        rw (e, can_read-quiet f t u) (apply_attach-quiet ty rid f rec (may_read p sub t f) t u)

    pub create-quiet :
        (rec : FileRecord) (t u : Tables)
        → apply_op p sub now (file_create rec) (quiet t u)
          ≡ (ok applied, quiet t (if may_read p sub t rec.id then put_file rec u else u))
    unfolding apply_op apply_create on_replica save_file write transact transact_with
    create-quiet rec t u = elim (Bool-cases (may_read p sub t rec.id)) [
      | inl e ↦ rw (can_read-quiet rec.id t u, e) refl
      | inr e ↦ rw (can_read-quiet rec.id t u, e) refl
    ]

    pub delete-quiet :
        (f : String) (t u : Tables)
        → apply_op p sub now (file_delete f) (quiet t u) ≡ (ok applied, quiet t (remove_file f u))
    unfolding apply_op on_replica delete_file write transact transact_with
    delete-quiet f t u = refl

    pub detach-quiet :
        (ty rid f : String) (t u : Tables)
        → apply_op p sub now (WalOp.detach ty rid f) (quiet t u)
          ≡ (ok applied, quiet t (remove_marker now (rel_key ty rid f) u).1)
    unfolding apply_op on_replica detach transact transact_with
    detach-quiet ty rid f t u = refl

    -- What the replica is after a file is brought up to date for a row of it.
    unfoldable pub resynced : String → String → String → Option FileRecord → Bool → Tables → Tables
    resynced ty rid f none readable u = remove_file f u
    resynced ty rid f (some rec) false u = remove_file f u
    resynced ty rid f (some rec) true u =
        if granted p sub (ty, rid)
        then (add_marker (ty, rid, f) (put_file rec u)).1
        else (remove_marker now (ty, rid, f) (put_file rec u)).1

    resync_found-quiet :
        (ty rid f : String) (found : Option FileRecord) (t u : Tables)
        → resync_found p sub now ty rid f found (quiet t u) ≡ (
          ok tt,
          quiet t
              (resynced (rel_key ty rid f).0 (rel_key ty rid f).1 f found (may_read p sub t f) u),
        )
    unfolding resync_found resync_readable resynced on_replica save_file delete_file attach detach
        write transact transact_with
    resync_found-quiet ty rid f none t u = refl
    resync_found-quiet ty rid f (some rec) t u = elim (Bool-cases (may_read p sub t f)) [
      | inr e ↦ rw (can_read-quiet f t u, e) refl
      | inl e ↦ elim (Bool-cases (granted p sub (ty, rid))) [
        | inl g ↦ rw (can_read-quiet f t u, e, granted-key p sub ty rid, g) refl
        | inr g ↦ rw (can_read-quiet f t u, e, granted-key p sub ty rid, g) refl
      ]
    ]

    pub resync_file-quiet :
        (ty rid f : String) (t u : Tables)
        → resync_file p sub now ty rid f (quiet t u) ≡ (
          ok tt,
          quiet t (
              resynced
                (rel_key ty rid f).0
                (rel_key ty rid f).1
                f
                (lookup f t.files)
                (may_read p sub t f)
                u),
        )
    unfolding resync_file on_master get_file read transact transact_with
    resync_file-quiet ty rid f t u = resync_found-quiet ty rid f (lookup f t.files) t u
