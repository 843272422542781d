-- ===== src/Sync/Replay/Advanced.antt =====
-- sync/snapshot.rs, replay: what it means that a replica is advanced.
use rust_api.Prelude.{
  ℕ, ◌+◌, String, ◌≡◌, refl, sym, ap, ◌∙◌, Bool, true, false, ◌||◌, Option, none, some, List, arith,
  ltb, ◌==◌, if◌then◌else◌, length, ℤ,
}
use rust_api.Records.{WalEntry}
use rust_api.Fs.{Result, ok, err}
use rust_api.Fs.Store.{resume, ◌>>=◌, ◌>>◌, pure, read, write}
use rust_api.Fs.Store.Calls.{transact-answer, transact-committed}
use rust_api.Sync.Policy.{Policy}
use rust_api.Sync.Replica.{
  World, W, on_replica, ApplyOutcome, applied, needs_full_rebuild, apply_ops,
}
use rust_api.Sync.Replay.{
  any_legacy, ReplayOutcome, advanced, needs_rebuild, answer, load_applied, set_applied,
  replay_done, replay_entries, replay_from, replay,
}

-- An answer that the replica is advanced tells of the head, and that the replica's number is the head's.
abbrev Tells : ℕ → Result ReplayOutcome × World → Type 0
Tells head r =
    (seq : ℕ) → r.0 ≡ ok (advanced seq) → (seq ≡ head) × (r.1.replica.tables.applied ≡ some head)

Tells-resume :
    {A : Type 0} (head : ℕ) (f : A → W ReplayOutcome) (r : Result A) (w : World)
    → ((a : A) → r ≡ ok a → Tells head (f a w))
    → Tells head (resume f (r, w))
Tells-resume head f (err e) w k = λ seq h. absurd (cc)
Tells-resume head f (ok a) w k = k a refl

Tells-bind :
    {A : Type 0} (head : ℕ) (m : W A) (f : A → W ReplayOutcome) (w : World)
    → ((a : A) → (m w).0 ≡ ok a → Tells head (f a (m w).1))
    → Tells head ((m >>= f) w)
Tells-bind head m f w k = Tells-resume head f (m w).0 (m w).1 k

Tells-if :
    (head : ℕ) (b : Bool) (m n : W ReplayOutcome) (w : World)
    → (b ≡ true → Tells head (m w))
    → (b ≡ false → Tells head (n w))
    → Tells head ((if b then m else n) w)
Tells-if head true m n w h k = h refl
Tells-if head false m n w h k = k refl

Tells-rebuild : (head : ℕ) (w : World) → Tells head (pure needs_rebuild w)
Tells-rebuild head w seq h = absurd (cc)

module _ (p : Policy) (sub : String) (now : ℤ) (range : ℕ → ℕ → Result (List WalEntry))
    (opened : Result (Unit {0})) (head : ℕ) where
  replay_done-Tells :
      (o : ApplyOutcome) (w : World) → Tells head (replay_done p sub now range opened head o w)
  unfolding replay_done on_replica write set_applied
  replay_done-Tells needs_full_rebuild w = Tells-rebuild head w
  replay_done-Tells applied w =
      Tells-bind head (on_replica (write (set_applied head))) (λ _. pure (advanced head)) w
        (λ a e seq h. (
          cc,
          ap (λ t. t.applied) (transact-committed (λ t. (tt, set_applied head t)) w.replica a e),
        ))

  replay_entries-Tells :
      (entries : List WalEntry) (w : World)
      → Tells head (replay_entries p sub now range opened head entries w)
  unfolding replay_entries
  replay_entries-Tells entries w =
      Tells-if head (ltb 1000 (length entries) || any_legacy entries) _ (answer opened >> rest) w
        (λ e. Tells-rebuild head w)
        (λ e.
          Tells-bind head (answer opened) (λ _. rest) w
            (λ u q.
              Tells-bind head (apply_ops p sub now entries)
                (replay_done p sub now range opened head) _ (λ o r. replay_done-Tells o _)))
    where
      rest : W ReplayOutcome
      rest = apply_ops p sub now entries >>= replay_done p sub now range opened head

  replay_from-Tells :
      (at : Option ℕ) (w : World)
      → at ≡ w.replica.tables.applied
      → Tells head (replay_from p sub now range opened head at w)
  unfolding replay_from
  replay_from-Tells none w q = Tells-rebuild head w
  replay_from-Tells (some at) w q =
      Tells-if head (ltb head at) _ _ w (λ e. Tells-rebuild head w)
        (λ e.
          Tells-if head (at == head) _ _ w
            (λ f seq h. let same : at ≡ head = ground arith in (cc, sym q ∙ ap some same))
            (λ f.
              Tells-bind head (answer (range (at + 1) head))
                (replay_entries p sub now range opened head) w
                (λ entries r. replay_entries-Tells entries _)))

  -- When a replay says that the replica is advanced to a number, the number is the head's, and it is
  -- what the replica has stored, whatever calls failed.
  pub replay-advanced :
      (w : World) (seq : ℕ)
      → (replay p sub now range opened head w).0 ≡ ok (advanced seq)
      → (seq ≡ head) × ((replay p sub now range opened head w).1.replica.tables.applied ≡ some head)
  unfolding replay on_replica load_applied read
  replay-advanced w = Tells-resume head (replay_from p sub now range opened head) _ _ (λ at e.
      replay_from-Tells at _ (
        transact-answer (λ t. (t.applied, t)) w.replica at e
        ∙ ap (λ t. t.applied) (sym (transact-committed (λ t. (t.applied, t)) w.replica at e))))
