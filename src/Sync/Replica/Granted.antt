-- ===== src/Sync/Replica/Granted.antt =====
-- sync/snapshot.rs, apply_op: each operation brings in only what the user may read.
use rust_api.Sync.Groups.{implicit_groups, member}
use rust_api.Prelude.{
  ℕ, ◌+◌, String, ◌≡◌, sym, subst, true, not, ◌||◌, Option, none, some, List, [], ◌∷◌, str_eq, ltb,
  length, ℤ,
}
use rust_api.Prelude.Maps.{lookup}
use rust_api.Records.{
  group_delete, group_remove, group_add, policy_rule_remove, policy_rule_add, policy_remove,
  policy_add, file_delete, file_create, FileRecord, WalOp, WalEntry,
}
use rust_api.Fs.Access.{Row}
use rust_api.Fs.Store.{rel_key, Tables, pure, files_of, get_file, files_for_row, detach}
use rust_api.Sync.Policy.{split_row_obj, eq_ignore_ascii_case, Policy, granted}
use rust_api.Sync.Replica.{
  read_rows_for_group, needs_full_rebuild, ApplyOutcome, applied, on_replica, W, resync_readable,
  resync_found, resync_file, resync_files, resync_row, resync_rows, resync_group, apply_rule_row,
  apply_rule_op, apply_membership_op, apply_group_delete, apply_create, apply_attach,
  apply_attach_found, apply_op, apply_after, apply_ops,
}
use rust_api.Sync.Replica.Safe.{
  may_read, IsKeyed, Safe-if, Safe-bind, Safe-read, Safe-write, remove_marker-Grows,
}
use rust_api.Sync.Replica.Calls.{
  Harmless, Harmless-then, Harmless-pure, can_read-Safe, save_file-Harmless, delete_file-Harmless,
  attach-Harmless,
}

module _ (p : Policy) (sub : String) (master : Tables) (head : ℕ) (now : ℤ) where
  detach-Harmless :
      (ty rid f : String) → Harmless p sub master head (on_replica (detach now ty rid f))
  unfolding detach
  detach-Harmless ty rid f =
      Safe-write p sub master head _ (λ t.
        remove_marker-Grows p sub master head now (rel_key ty rid f).0 (rel_key ty rid f).1 f t)

  resync_readable-Harmless :
      (ty rid : String) (rec : FileRecord) (f : String)
      → may_read p sub master rec.id ≡ true
      → Harmless p sub master head (resync_readable p sub now ty rid rec f)
  unfolding resync_readable
  resync_readable-Harmless ty rid rec f m =
      Harmless-then p sub master head _ _ (save_file-Harmless p sub master head rec m) (
        Safe-if p sub master head (granted p sub (ty, rid)) _ _ _
          (λ g.
            Harmless-then p sub master head _ _ (attach-Harmless p sub master head ty rid f g)
              (Harmless-pure p sub master head tt))
          (λ g.
            Harmless-then p sub master head _ _ (detach-Harmless ty rid f)
              (Harmless-pure p sub master head tt)))

  module _ (keyed : IsKeyed master) where
    resync_found-Harmless :
        (ty rid f : String) (found : Option FileRecord)
        → found ≡ lookup f master.files
        → Harmless p sub master head (resync_found p sub now ty rid f found)
    unfolding resync_found
    resync_found-Harmless ty rid f none q = delete_file-Harmless p sub master head f
    resync_found-Harmless ty rid f (some rec) q =
        Safe-bind p sub master head _ _ _ _ (can_read-Safe p sub master head f) (λ b m.
          Safe-if p sub master head b _ _ _
            (λ e.
              resync_readable-Harmless ty rid rec f
                (subst (λ i. may_read p sub master i ≡ true) (sym (keyed f rec (sym q))) (m e)))
            (λ e. delete_file-Harmless p sub master head f))

    resync_file-Harmless :
        (ty rid f : String) → Harmless p sub master head (resync_file p sub now ty rid f)
    unfolding resync_file get_file
    resync_file-Harmless ty rid f =
        Safe-bind p sub master head _ _ _ _ (Safe-read p sub master head (λ t. lookup f t.files))
          (λ found q. resync_found-Harmless ty rid f found q)

    resync_files-Harmless :
        (ty rid : String) (files : List String)
        → Harmless p sub master head (resync_files p sub now ty rid files)
    unfolding resync_files
    resync_files-Harmless ty rid [] = Harmless-pure p sub master head tt
    resync_files-Harmless ty rid (f ∷ files) =
        Harmless-then p sub master head _ _ (resync_file-Harmless ty rid f)
          (resync_files-Harmless ty rid files)

    resync_row-Harmless :
        (ty rid : String) (files : List String) (total : ℕ) (next : W ApplyOutcome)
        → Harmless p sub master head next
        → Harmless p sub master head (resync_row p sub now ty rid files total next)
    unfolding resync_row
    resync_row-Harmless ty rid files total next h =
        Safe-if p sub master head (ltb 1000 total) _ _ _
          (λ e. Harmless-pure p sub master head needs_full_rebuild)
          (λ e. Harmless-then p sub master head _ _ (resync_files-Harmless ty rid files) h)

    apply_rule_row-Harmless :
        (s : String) (row : Option Row)
        → Harmless p sub master head (apply_rule_row p sub now s row)
    unfolding apply_rule_row files_for_row
    apply_rule_row-Harmless s none = Harmless-pure p sub master head applied
    apply_rule_row-Harmless s (some (ty, rid)) =
        Safe-if p sub master head (not (str_eq s sub || member s (implicit_groups p sub))) _ _ _
          (λ e. Harmless-pure p sub master head applied)
          (λ e.
            Safe-bind p sub master head _ _ _ _
              (Safe-read p sub master head
                (λ t. files_of (rel_key ty rid "").0 (rel_key ty rid "").1 t.rels))
              (λ files q.
                resync_row-Harmless ty rid files (length files) (pure applied)
                  (Harmless-pure p sub master head applied)))

    apply_rule_op-Harmless :
        (s obj act : String) → Harmless p sub master head (apply_rule_op p sub now s obj act)
    unfolding apply_rule_op
    apply_rule_op-Harmless s obj act =
        Safe-if p sub master head (not (eq_ignore_ascii_case act "read")) _ _ _
          (λ e. Harmless-pure p sub master head applied)
          (λ e. apply_rule_row-Harmless s (split_row_obj obj))

    resync_rows-Harmless :
        (total : ℕ) (rows : List Row)
        → Harmless p sub master head (resync_rows p sub now total rows)
    unfolding resync_rows files_for_row
    resync_rows-Harmless total [] = Harmless-pure p sub master head applied
    resync_rows-Harmless total ((ty, rid) ∷ rows) =
        Safe-bind p sub master head _ _ _ _
          (Safe-read p sub master head
            (λ t. files_of (rel_key ty rid "").0 (rel_key ty rid "").1 t.rels))
          (λ files q.
            resync_row-Harmless ty rid files (total + length files) _
              (resync_rows-Harmless (total + length files) rows))

    resync_group-Harmless :
        (rows : List Row) → Harmless p sub master head (resync_group p sub now rows)
    unfolding resync_group
    resync_group-Harmless [] = Harmless-pure p sub master head applied
    resync_group-Harmless (r ∷ rows) = resync_rows-Harmless 0 (r ∷ rows)

    apply_membership_op-Harmless :
        (user group : String)
        → Harmless p sub master head (apply_membership_op p sub now user group)
    unfolding apply_membership_op
    apply_membership_op-Harmless user group =
        Safe-if p sub master head (not (str_eq user sub)) _ _ _
          (λ e. Harmless-pure p sub master head applied)
          (λ e. resync_rows-Harmless 0 (read_rows_for_group p group))

    apply_attach-Harmless :
        (ty rid f : String) (found : Option FileRecord)
        → found ≡ lookup f master.files
        → Harmless p sub master head (apply_attach_found p sub now ty rid f found)
    unfolding apply_attach_found apply_attach
    apply_attach-Harmless ty rid f none q = Harmless-pure p sub master head applied
    apply_attach-Harmless ty rid f (some rec) q =
        Safe-bind p sub master head _ _ _ _ (can_read-Safe p sub master head f) (λ b m.
          Safe-if p sub master head b _ _ _
            (λ e.
              Harmless-then p sub master head _ _
                (save_file-Harmless p sub master head rec
                  (subst (λ i. may_read p sub master i ≡ true) (sym (keyed f rec (sym q))) (m e)))
                (Safe-if p sub master head (granted p sub (ty, rid)) _ _ _
                  (λ g.
                    Harmless-then p sub master head _ _
                      (attach-Harmless p sub master head ty rid f g)
                      (Harmless-pure p sub master head applied))
                  (λ g. Harmless-pure p sub master head applied)))
            (λ e. Harmless-pure p sub master head applied))

    apply_op-Harmless : (op : WalOp) → Harmless p sub master head (apply_op p sub now op)
    unfolding apply_op apply_create get_file apply_group_delete
    apply_op-Harmless (file_create rec) =
        Safe-bind p sub master head _ _ _ _ (can_read-Safe p sub master head rec.id) (λ b m.
          Safe-if p sub master head b _ _ _
            (λ e.
              Harmless-then p sub master head _ _ (save_file-Harmless p sub master head rec (m e))
                (Harmless-pure p sub master head applied))
            (λ e. Harmless-pure p sub master head applied))
    apply_op-Harmless (file_delete f) =
        Harmless-then p sub master head _ _ (delete_file-Harmless p sub master head f)
          (Harmless-pure p sub master head applied)
    apply_op-Harmless (WalOp.attach ty rid f) =
        Safe-bind p sub master head _ _ _ _ (Safe-read p sub master head (λ t. lookup f t.files))
          (λ found q. apply_attach-Harmless ty rid f found q)
    apply_op-Harmless (WalOp.detach ty rid f) =
        Harmless-then p sub master head _ _ (detach-Harmless ty rid f)
          (Harmless-pure p sub master head applied)
    apply_op-Harmless (policy_add obj) = Harmless-pure p sub master head needs_full_rebuild
    apply_op-Harmless (policy_remove obj) = Harmless-pure p sub master head needs_full_rebuild
    apply_op-Harmless (policy_rule_add s obj act) = apply_rule_op-Harmless s obj act
    apply_op-Harmless (policy_rule_remove s obj act) = apply_rule_op-Harmless s obj act
    apply_op-Harmless (group_add user group) = apply_membership_op-Harmless user group
    apply_op-Harmless (group_remove user group) = apply_membership_op-Harmless user group
    apply_op-Harmless (group_delete group) = resync_group-Harmless (read_rows_for_group p group)

    apply_after-Harmless :
        (next : W ApplyOutcome) (o : ApplyOutcome)
        → Harmless p sub master head next
        → Harmless p sub master head (apply_after p sub now next o)
    unfolding apply_after
    apply_after-Harmless next needs_full_rebuild h =
        Harmless-pure p sub master head needs_full_rebuild
    apply_after-Harmless next applied h = h

    pub apply_ops-Harmless :
        (entries : List WalEntry) → Harmless p sub master head (apply_ops p sub now entries)
    unfolding apply_ops
    apply_ops-Harmless [] = Harmless-pure p sub master head applied
    apply_ops-Harmless (e ∷ entries) =
        Safe-bind p sub master head _ _ _ _ (apply_op-Harmless e.op)
          (λ o q. apply_after-Harmless (apply_ops p sub now entries) o (apply_ops-Harmless entries))
