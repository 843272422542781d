-- ===== src/Fs/Store/Agreed.antt =====
-- fs/store.rs: what holds after any calls that change the store, whatever becomes of each of them.
use rust_api.Fs.{FsError}
use rust_api.Prelude.{
  String, ◌≡◌, refl, ap, subst, inl, inr, false, none, List, [], ◌∷◌, arith, Bool-cases, ℤ,
}
use rust_api.Prelude.Maps.{put-put, remove-remove}
use rust_api.Fs.Store.{
  rel_key, passes, lost, transact_with, transact, write, detach, attach, same_rel, delete_file,
  Disk, save_file, has_rel, Tables, Rel, Fault, put_file, remove_file, add_marker, remove_marker,
  delete_rel, drop_rels,
}
use rust_api.Fs.Store.Refs.{same_rel→eq, same_rel_refl, IsOnce}
use rust_api.Fs.Store.Runs.{detaches, attaches, deletes, saves, Call, effect, run_call, run_calls}

-- A store with no file in it.
abbrev pub empty : List Fault → Disk
empty fs = record {
  tables = record { files = []; rels = []; refs = []; applied = none };
  faults = fs;
}

pub has_rel-delete_same :
    (r : Rel) (rels : List Rel) → IsOnce rels → has_rel r (delete_rel r rels) ≡ false
unfolding has_rel delete_rel
has_rel-delete_same r [] h = refl
has_rel-delete_same r (x ∷ rels) h = elim (Bool-cases (same_rel x r)) [
  | inl e ↦ rw (e) (subst (λ y. has_rel y rels ≡ false) (same_rel→eq x r e) h.0)
  | inr e ↦ rw (e, e) (has_rel-delete_same r rels h.1)
]

drop_rels_twice :
    (id : String) (rels : List Rel) → drop_rels id (drop_rels id rels) ≡ drop_rels id rels
unfolding drop_rels
drop_rels_twice id [] = refl
drop_rels_twice id ((a, b, c) ∷ rels) = ground (arith, drop_rels_twice id rels)

add_marker_twice : (r : Rel) (t : Tables) → (add_marker r (add_marker r t).1).1 ≡ (add_marker r t).1
unfolding add_marker has_rel
add_marker_twice (a, b, c) t = elim (Bool-cases (has_rel (a, b, c) t.rels)) [
  | inl e ↦ rw (e, e) refl
  | inr e ↦ rw (e, same_rel_refl (a, b, c)) refl
]

remove_marker_twice :
    (now : ℤ) (r : Rel) (t : Tables)
    → IsOnce t.rels
    → (remove_marker now r (remove_marker now r t).1).1 ≡ (remove_marker now r t).1
unfolding remove_marker
remove_marker_twice now (a, b, c) t h = elim (Bool-cases (has_rel (a, b, c) t.rels)) [
  | inl e ↦ rw (e, has_rel-delete_same (a, b, c) t.rels h) refl
  | inr e ↦ rw (e, e) refl
]

effect_twice : (c : Call) (t : Tables) → IsOnce t.rels → effect c (effect c t) ≡ effect c t
unfolding effect put_file remove_file
effect_twice (saves rec) t h = rw (put-put rec.id rec t.files) refl
effect_twice (deletes id) t h =
    rw (remove-remove id t.files, remove-remove id t.refs, drop_rels_twice id t.rels) refl
effect_twice (attaches ty rid f) t h = add_marker_twice (rel_key ty rid f) t
effect_twice (detaches now ty rid f) t h = remove_marker_twice now (rel_key ty rid f) t h

with_tables : List Fault → Tables → Disk
with_tables fs t = record { tables = t; faults = fs }

-- A call that was done but lost its answer may be made again: the store, which holds no marker twice, is
-- then as after a single call that passed.
pub run_calls_again :
    (c : Call) (e : FsError) (fs : List Fault) (t : Tables)
    → IsOnce t.rels
    → run_calls (c ∷ c ∷ []) (record { tables = t; faults = lost e ∷ passes ∷ fs })
      ≡ run_calls (c ∷ []) (record { tables = t; faults = passes ∷ fs })
unfolding with_tables run_calls run_call save_file delete_file attach detach write transact
    transact_with effect
run_calls_again (saves rec) e fs t h = ap (with_tables fs) (effect_twice (saves rec) t h)
run_calls_again (deletes id) e fs t h = ap (with_tables fs) (effect_twice (deletes id) t h)
run_calls_again (attaches ty rid f) e fs t h =
    ap (with_tables fs) (effect_twice (attaches ty rid f) t h)
run_calls_again (detaches now ty rid f) e fs t h =
    ap (with_tables fs) (effect_twice (detaches now ty rid f) t h)
