-- ===== src/Sync/Replay/Claims.antt =====
-- sync/snapshot.rs, advance: what becomes of the claim of a build.
use rust_api.Prelude.{
  ℕ, String, ◌≡◌, refl, sym, subst, ◌⊎◌, inl, inr, true, false, Option, none, some, List, [], ◌∷◌,
  ◌++◌, arith, eq_iff, ◌==◌, Bool-cases, ℤ,
}
use rust_api.Records.{WalEntry}
use rust_api.Fs.{Result, ok, err, is_fencing_loss}
use rust_api.Sync.Policy.{Policy}
use rust_api.Sync.Groups.{member}
use rust_api.Sync.Replica.{World, on_replica}
use rust_api.Sync.Replay.{
  ReplayOutcome, advanced, needs_rebuild, BuildQueue, Node, AdvanceOutcome, claim, release,
  remove_name, dispatch, load_applied, replay, reload, advance_replayed, advance_claimed,
  advance_loaded, advance,
}

-- The queue is as it was, or one user more is claimed, for whom a job was sent last.
abbrev pub Claims : String → ℕ → BuildQueue → BuildQueue → Type 0
Claims sub head q r =
    ((r.inflight ≡ q.inflight) × (r.jobs ≡ q.jobs))
    ⊎ ((member sub q.inflight ≡ false)
        × (r.inflight ≡ sub ∷ q.inflight)
        × (r.jobs ≡ q.jobs ++ (record { sub = sub; head = head } ∷ [])))

remove_name-absent : (x : String) (ys : List String) → member x ys ≡ false → remove_name x ys ≡ ys
unfolding remove_name member
remove_name-absent x [] h = refl
remove_name-absent x (y ∷ ys) h = ground (arith, remove_name-absent x ys)

-- A claim that is dropped leaves no trace.
release-claimed :
    (sub : String) (q : BuildQueue)
    → member sub q.inflight ≡ false
    → (release sub (record q { inflight = sub ∷ q.inflight })).inflight ≡ q.inflight
unfolding release remove_name
release-claimed sub q h = rw ((eq_iff sub sub).1 refl) (remove_name-absent sub q.inflight h)

claim-new :
    (sub : String) (q : BuildQueue)
    → member sub q.inflight ≡ false
    → claim sub q ≡ (true, record q { inflight = sub ∷ q.inflight })
unfolding claim
claim-new sub q m = rw m refl

module _ (p : Policy) (sub : String) (now : ℤ) (range : ℕ → ℕ → Result (List WalEntry))
    (opened : Result (Unit {0})) (head : ℕ) where
  reload-builds :
      (f : Result (Option ℕ) → Result AdvanceOutcome) (w : World) (q : BuildQueue)
      → (reload p sub now range opened head f w q).1.builds ≡ q
  unfolding reload on_replica
  reload-builds f w q = refl

  advance_replayed-Claims :
      (r : Result ReplayOutcome) (w : World) (q : BuildQueue)
      → member sub q.inflight ≡ false
      → Claims sub head q
          (advance_replayed p sub now range opened head r w
            (record q { inflight = sub ∷ q.inflight })).1.builds
  unfolding advance_replayed dispatch reload on_replica release
  advance_replayed-Claims (ok (advanced seq)) w q h = inl (release-claimed sub q h, refl)
  advance_replayed-Claims (ok needs_rebuild) w q h = elim (Bool-cases q.open_) [
    | inl o ↦ rw o (inr (h, refl, refl))
    | inr o ↦ rw o (inl (release-claimed sub q h, refl))
  ]
  advance_replayed-Claims (err e) w q h = elim (Bool-cases (is_fencing_loss e)) [
    | inl o ↦ rw o (inl (release-claimed sub q h, refl))
    | inr o ↦ rw o (inl (release-claimed sub q h, refl))
  ]

  advance_claimed-Claims :
      (at : Option ℕ) (w : World) (q : BuildQueue)
      → Claims sub head q (advance_claimed p sub now range opened head at w (claim sub q)).1.builds
  unfolding advance_claimed claim
  advance_claimed-Claims at w q = elim (Bool-cases (member sub q.inflight)) [
    | inl m ↦ rw m (inl (refl, refl))
    | inr m ↦
        let r = replay p sub now range opened head w in
        subst (λ c. Claims sub head q (advance_claimed p sub now range opened head at w c).1.builds)
          (sym (claim-new sub q m)) (advance_replayed-Claims r.0 r.1 q m)
  ]

  advance_loaded-Claims :
      (at : Result (Option ℕ)) (w : World) (q : BuildQueue)
      → Claims sub head q (advance_loaded p sub now range opened head at w q).1.builds
  unfolding advance_loaded
  advance_loaded-Claims (err e) w q = inl (refl, refl)
  advance_loaded-Claims (ok none) w q = advance_claimed-Claims none w q
  advance_loaded-Claims (ok (some at)) w q = elim (Bool-cases (at == head)) [
    | inl e ↦ rw e (inl (refl, refl))
    | inr e ↦ rw e (advance_claimed-Claims (some at) w q)
  ]

-- Whatever call fails once the log has told its head, `advance` leaves the claims and the jobs of the
-- build queue as they were, or it claims the user, who had no claim before, and sends one job for the
-- user last; so no claim is left without a job.
pub advance-Claims :
    (p : Policy) (sub : String) (now : ℤ) (range : ℕ → ℕ → Result (List WalEntry))
    (opened : Result (Unit {0})) (head : ℕ) (n : Node)
    → Claims sub head n.builds (advance p sub now range opened (ok head) n).1.builds
unfolding advance on_replica
advance-Claims p sub now range opened head n =
    let r = on_replica load_applied n.world in
    advance_loaded-Claims p sub now range opened head r.0 r.1 n.builds
