-- ===== src/Fs/Store/Runs.antt =====
-- fs/store.rs: any calls that change the store, and that the counts stay right.
use rust_api.Prelude.{
  ℕ, ◌+◌, ◌^◌, ◌≤◌, ◌<◌, String, ◌≡◌, ◌⊎◌, inl, inr, List, [], ◌∷◌, arith, Bool-cases, length, ℤ,
}
use rust_api.Records.{FileRecord}
use rust_api.Fs.Store.Calls.{transact-done}
use rust_api.Fs.Store.{
  rel_key, Rel, Tables, Disk, has_rel, ref_info, save_file, delete_file, remove_file, put_file,
  add_marker, remove_marker, attach, detach, write,
}
use rust_api.Fs.Store.Refs.{
  IsCounted, delete_rel-IsOnce, remove_file-IsCounted, add_marker-Agrees, remove_marker-Agrees,
  markers-length, delete_rel-length, drop_rels-length,
}

-- A call that changes the store.
pub data Call : Type 0 where
  saves : FileRecord → Call
  deletes : String → Call
  attaches : String → String → String → Call
  detaches : ℤ → String → String → String → Call

unfoldable pub effect : Call → Tables → Tables
unfolding put_file remove_file add_marker remove_marker
effect (saves rec) t = put_file rec t
effect (deletes id) t = remove_file id t
effect (attaches ty rid f) t = (add_marker (rel_key ty rid f) t).1
effect (detaches now ty rid f) t = (remove_marker now (rel_key ty rid f) t).1

-- The call as the program makes it; its answer is dropped, an error too.
unfoldable pub run_call : Call → Disk → Disk
unfolding save_file delete_file attach detach
run_call (saves rec) d = (save_file rec d).1
run_call (deletes id) d = (delete_file id d).1
run_call (attaches ty rid f) d = (attach ty rid f d).1
run_call (detaches now ty rid f) d = (detach now ty rid f d).1

unfoldable pub run_calls : List Call → Disk → Disk
run_calls [] d = d
run_calls (c ∷ cs) d = run_calls cs (run_call c d)

add_marker-IsCounted :
    (r : Rel) (t : Tables) → IsCounted t → length t.rels + 1 < 2 ^ 32 → IsCounted (add_marker r t).1
unfolding add_marker
add_marker-IsCounted (ty, rid, g) t h b = record {
  once = elim (Bool-cases (has_rel (ty, rid, g) t.rels)) [
    | inl e ↦ rw e h.once
    | inr e ↦ rw e (e, h.once)
  ];
  agrees = λ f.
      let m = markers-length f t.rels in add_marker-Agrees ty rid g f t (h.agrees f) (omega arith);
}

remove_marker-IsCounted :
    (now : ℤ) (r : Rel) (t : Tables) → IsCounted t → IsCounted (remove_marker now r t).1
unfolding remove_marker
remove_marker-IsCounted now (ty, rid, g) t h = record {
  once = elim (Bool-cases (has_rel (ty, rid, g) t.rels)) [
    | inl e ↦ rw e (delete_rel-IsOnce (ty, rid, g) t.rels h.once)
    | inr e ↦ rw e h.once
  ];
  agrees = λ f. remove_marker-Agrees now ty rid g f t (h.agrees f);
}

-- What the invariant of a run is: counted, and at most `n` markers.
abbrev Holds : ℕ → Tables → Type 0
Holds n t = IsCounted t × (length t.rels ≤ n)

effect-Holds :
    (c : Call) (n : ℕ) (t : Tables) → n + 1 < 2 ^ 32 → Holds n t → Holds (n + 1) (effect c t)
unfolding effect add_marker remove_marker put_file remove_file ref_info
effect-Holds (saves rec) n t b (h, l) = (record { once = h.once; agrees = h.agrees }, omega arith)
effect-Holds (deletes id) n t b (h, l) =
    (remove_file-IsCounted id t h, let m = drop_rels-length id t.rels in omega arith)
effect-Holds (attaches ty rid f) n t b (h, l) =
    (add_marker-IsCounted (rel_key ty rid f) t h (omega arith), ground arith)
effect-Holds (detaches now ty rid f) n t b (h, l) = (
  remove_marker-IsCounted now (rel_key ty rid f) t h,
  let m = delete_rel-length (rel_key ty rid f) t.rels in ground (arith, m),
)

run_call-effect :
    (c : Call) (d : Disk)
    → ((run_call c d).tables ≡ d.tables) ⊎ ((run_call c d).tables ≡ effect c d.tables)
unfolding run_call effect save_file delete_file attach detach write
run_call-effect (saves rec) d = transact-done _ d
run_call-effect (deletes id) d = transact-done _ d
run_call-effect (attaches ty rid f) d = transact-done _ d
run_call-effect (detaches now ty rid f) d = transact-done _ d

pub run_calls-Holds :
    (cs : List Call) (n : ℕ) (d : Disk)
    → n + length cs < 2 ^ 32
    → Holds n d.tables
    → IsCounted (run_calls cs d).tables
unfolding run_calls
run_calls-Holds [] n d b h = h.0
run_calls-Holds (c ∷ cs) n d b h =
    run_calls-Holds cs (n + 1) (run_call c d) (omega arith) (elim (run_call-effect c d) [
      | inl e ↦ rw e (h.0, omega arith)
      | inr e ↦ rw e (effect-Holds c n d.tables (omega arith) h)
    ])
