-- ===== src/Sync/Replica/Calls.antt =====
-- sync/snapshot.rs: the reads of the master, and each call of the replica, by what they bring in.
use rust_api.Prelude.{◌∙◌, ℕ, String, ◌≡◌, refl, ap, true, false, Option, none, some, str_eq}
use rust_api.Prelude.Maps.{lookup}
use rust_api.Records.{FileRecord}
use rust_api.Fs.Store.{
  rel_key, Tables, ◌>>◌, pure, write, rows_of, get_file, rows_for_file, save_file, delete_file,
  attach,
}
use rust_api.Sync.Policy.{granted-key, Policy, granted}
use rust_api.Sync.Replica.{on_replica, W, visible, visible_rows, can_read, readable_found}
use rust_api.Sync.Replica.Safe.{
  may_read, may_read_found, Safe-if, Safe, Safe-pure, Safe-bind, Safe-read, Safe-write,
  put_file-Grows, remove_file-Grows, add_marker-Grows,
}

module _ (p : Policy) (sub : String) (master : Tables) (head : ℕ) where
  -- Whatever is answered.
  abbrev pub Harmless : {A : Type 0} → W A → Type 0
  Harmless m = Safe p sub master head m (λ a. Unit {0})

  pub Harmless-then :
      {A B : Type 0} (m : W A) (n : W B) → Harmless m → Harmless n → Harmless (m >> n)
  Harmless-then m n h k = Safe-bind p sub master head m (λ a. n) _ _ h (λ a q. k)

  pub Harmless-pure : {A : Type 0} (a : A) → Harmless (pure a)
  Harmless-pure a = Safe-pure p sub master head a _ tt

  pub visible_rows-Safe :
      (id : String)
      → Safe p sub master head
          (visible_rows p sub id)
          (λ rows. rows ≡ visible p sub (rows_of id master.rels))
  unfolding visible_rows rows_for_file
  visible_rows-Safe id =
      Safe-bind p sub master head _ _ _ _ (Safe-read p sub master head (λ t. rows_of id t.rels))
        (λ rows q. Safe-pure p sub master head _ _ (ap (visible p sub) q))

  pub readable_found-Safe :
      (id : String) (found : Option FileRecord)
      → Safe p sub master head
          (readable_found p sub id found)
          (λ b. b ≡ true → may_read_found p sub (rows_of id master.rels) found ≡ true)
  unfolding readable_found may_read_found
  readable_found-Safe id none = Safe-pure p sub master head false _ (λ e. absurd (cc))
  readable_found-Safe id (some rec) =
      Safe-if p sub master head (str_eq rec.owner_sub sub) _ _ _
        (λ e. Safe-pure p sub master head true _ (λ _. rw e refl))
        (λ e.
          Safe-bind p sub master head _ _ _ _ (visible_rows-Safe id)
            (λ rows same. Safe-pure p sub master head _ _ (λ q. rw (e, ← same, q) refl)))

  pub can_read-Safe :
      (id : String)
      → Safe p sub master head (can_read p sub id) (λ b. b ≡ true → may_read p sub master id ≡ true)
  unfolding can_read get_file may_read
  can_read-Safe id =
      Safe-bind p sub master head _ _ _ _ (Safe-read p sub master head (λ t. lookup id t.files))
        (λ found q. rw (← q) (readable_found-Safe id found))

  pub save_file-Harmless :
      (rec : FileRecord)
      → may_read p sub master rec.id ≡ true
      → Harmless (on_replica (save_file rec))
  unfolding save_file write
  save_file-Harmless rec m =
      Safe-write p sub master head _ (λ t. put_file-Grows p sub master head rec t m)

  pub delete_file-Harmless : (id : String) → Harmless (on_replica (delete_file id))
  unfolding delete_file write
  delete_file-Harmless id =
      Safe-write p sub master head _ (λ t. remove_file-Grows p sub master head id t)

  pub attach-Harmless :
      (ty rid f : String) → granted p sub (ty, rid) ≡ true → Harmless (on_replica (attach ty rid f))
  unfolding attach
  attach-Harmless ty rid f m = Safe-write p sub master head _ (λ t.
      add_marker-Grows p sub master head (rel_key ty rid f).0 (rel_key ty rid f).1 f t
        (granted-key p sub ty rid ∙ m))
