-- ===== src/Sync/Replay/Granted.antt =====
-- sync/snapshot.rs, replay: it brings in only what the user may read, whatever calls fail.
use rust_api.Prelude.{
  inr, ℕ, ◌+◌, String, refl, inl, ◌||◌, Option, none, some, List, ltb, ◌==◌, length, ℤ,
}
use rust_api.Records.{WalEntry}
use rust_api.Fs.{Result}
use rust_api.Fs.Store.{Tables, read, write}
use rust_api.Sync.Policy.{Policy}
use rust_api.Sync.Replica.{World, ApplyOutcome, applied, needs_full_rebuild}
use rust_api.Sync.Replica.Safe.{IsKeyed, Grows, Grows-refl, Safe-bind, Safe-if, Safe-write}
use rust_api.Sync.Replica.Calls.{Harmless, Harmless-then, Harmless-pure}
use rust_api.Sync.Replica.Granted.{apply_ops-Harmless}
use rust_api.Sync.Replay.{
  any_legacy, advanced, needs_rebuild, answer, load_applied, set_applied, replay_done,
  replay_entries, replay_from, replay,
}

module _ (p : Policy) (sub : String) (now : ℤ) (range : ℕ → ℕ → Result (List WalEntry))
    (opened : Result (Unit {0})) (master : Tables) (head : ℕ) where
  answer-Harmless : {A : Type 0} (r : Result A) → Harmless p sub master head (answer r)
  unfolding answer
  answer-Harmless r w e = (e, (Grows-refl p sub master head w.replica.tables, λ a h. tt))

  set_applied-Grows : (t : Tables) → Grows p sub master head t (set_applied head t)
  unfolding set_applied
  set_applied-Grows t = (λ id rec h. inl h, λ ty rid f h. inl h, inr refl)

  replay_done-Harmless :
      (o : ApplyOutcome) → Harmless p sub master head (replay_done p sub now range opened head o)
  unfolding replay_done write
  replay_done-Harmless needs_full_rebuild = Harmless-pure p sub master head needs_rebuild
  replay_done-Harmless applied =
      Harmless-then p sub master head _ _ (Safe-write p sub master head _ (set_applied-Grows))
        (Harmless-pure p sub master head (advanced head))

  module _ (keyed : IsKeyed master) where
    replay_entries-Harmless :
        (entries : List WalEntry)
        → Harmless p sub master head (replay_entries p sub now range opened head entries)
    unfolding replay_entries
    replay_entries-Harmless entries =
        Safe-if p sub master head (ltb 1000 (length entries) || any_legacy entries) _ _ _
          (λ e. Harmless-pure p sub master head needs_rebuild)
          (λ e. Harmless-then p sub master head _ _ (answer-Harmless opened) (
            Safe-bind p sub master head _ _ _ _
              (apply_ops-Harmless p sub master head now keyed entries)
              (λ o q. replay_done-Harmless o)))

    replay_from-Harmless :
        (at : Option ℕ) → Harmless p sub master head (replay_from p sub now range opened head at)
    unfolding replay_from
    replay_from-Harmless none = Harmless-pure p sub master head needs_rebuild
    replay_from-Harmless (some at) =
        Safe-if p sub master head (ltb head at) _ _ _
          (λ e. Harmless-pure p sub master head needs_rebuild)
          (λ e.
            Safe-if p sub master head (at == head) _ _ _
              (λ f. Harmless-pure p sub master head (advanced at))
              (λ f.
                Safe-bind p sub master head _ _ _ _ (answer-Harmless (range (at + 1) head))
                  (λ entries q. replay_entries-Harmless entries)))

    replay-Harmless : Harmless p sub master head (replay p sub now range opened head)
    unfolding replay load_applied read
    replay-Harmless =
        Safe-bind p sub master head _ _ _ _
          (Safe-write p sub master head _ (λ t. Grows-refl p sub master head t))
          (λ at q. replay_from-Harmless at)

-- When the master keeps each record under its own id, a replay adds no file to the replica but one that
-- the user owns or may read one of the rows of that `rows_for_file` lists for it, and no marker but one
-- of a row that the user may read, and it leaves the replica's applied number or sets it to the head, whatever the log answers, whatever call of
-- either store fails, and whatever the replay comes to.
pub replay-Grows :
    (p : Policy) (sub : String) (now : ℤ) (range : ℕ → ℕ → Result (List WalEntry))
    (opened : Result (Unit {0})) (head : ℕ) (w : World)
    → IsKeyed w.master.tables
    → Grows p sub w.master.tables head w.replica.tables
        (replay p sub now range opened head w).1.replica.tables
replay-Grows p sub now range opened head w keyed =
    (replay-Harmless p sub now range opened w.master.tables head keyed w refl).1.0
