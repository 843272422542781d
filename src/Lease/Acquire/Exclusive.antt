-- ===== src/Lease/Acquire/Exclusive.antt =====
-- lease.rs: of two processes that race for one lease, at most one acquires it.
use rust_api.Lease.Acquire.Facts.{
  cannot_match, fetch_keeps, fetched_object, after_read-Sound, write_takes, write_keeps, Holds,
  stored_some, IsAcquired, Sound,
}
use rust_api.Lease.{io, is_live_at}
use rust_api.Lease.Acquire.{
  taking_over, after_read, fetch, refused, absent, reading, fetched, confirming, acquired,
  write_record, fetch_error, FetchResult, after_confirm, after_claim, after_take_over, claiming,
  step, Phase, Claim,
}
use rust_api.Lease.Store.{
  matching, already_exists, precondition, put_failed, Allowed, PutError, create, PutMode, StoreLaws,
  ObjectStore,
}
use rust_api.Prelude.{String, ◌≡◌, refl, Bool, true, false, Option, none, some, List, [], ◌∷◌}

module _ (o : ObjectStore) (laws : StoreLaws o) (path prefix : String) where
  open o use {Bytes, Version, State, to_vec, from_slice, get_opts, put_opts, object}

  -- The state of two processes that race for the lease under `path`.
  pub record IsExclusive (c d : Claim) (p q : Phase o) (s : State) : Type 0 where
    pub sound : Sound o path c p
    pub sound' : Sound o path d q
    pub holds : IsAcquired o p → Holds o path c.mine s
    pub holds' : IsAcquired o q → Holds o path d.mine s
    pub exclusive : IsAcquired o p → ¬ IsAcquired o q

  module _ (c d : Claim) (live : is_live_at d.mine c.now ≡ true) where
    -- A write by the first process leaves the second one's lease alone, and takes the lease only
    -- where the second one has none.
    write_case :
        (m : PutMode Version) (q : Phase o) (s : State)
        → (IsAcquired o q → Holds o path d.mine s)
        → (IsAcquired o q → ¬ Allowed m (object path s))
        → (IsAcquired o q → Holds o path d.mine (write_record o path c.mine m s).1)
          × ((write_record o path c.mine m s).0 ≡ none
              → Holds o path c.mine (write_record o path c.mine m s).1 × (¬ IsAcquired o q))
    write_case m q s held forbidden = (
      λ a. write_keeps o laws path prefix path c.mine d.mine m s (held a) (forbidden a),
      λ e.
          let (allowed, mine) = write_takes o laws path prefix path c.mine m s e in
          (mine, λ a. forbidden a allowed),
    )

    -- A write that does not succeed leaves the first process without the lease.
    after_write :
        (p q : Phase o) (s : State)
        → Sound o path c p
        → Sound o path d q
        → ¬ IsAcquired o p
        → (IsAcquired o q → Holds o path d.mine s)
        → IsExclusive c d p q s
    after_write p q s sp sq free kept = record {
      sound = sp;
      sound' = sq;
      holds = λ a. absurd (free a);
      holds' = kept;
      exclusive = λ a. absurd (free a);
    }

    after_success :
        (q : Phase o) (s : State)
        → Sound o path d q
        → (IsAcquired o q → Holds o path d.mine s)
        → Holds o path c.mine s × (¬ IsAcquired o q)
        → IsExclusive c d acquired q s
    after_success q s sq kept (mine, free) = record {
      sound = tt;
      sound' = sq;
      holds = λ _. mine;
      holds' = kept;
      exclusive = λ _. free;
    }

    claim_case :
        (e : Option PutError) (q : Phase o) (s : State)
        → Sound o path d q
        → (IsAcquired o q → Holds o path d.mine s)
        → (e ≡ none → Holds o path c.mine s × (¬ IsAcquired o q))
        → IsExclusive c d (after_claim o path prefix e) q s
    unfolding after_claim
    claim_case none q s sq kept won = after_success q s sq kept (won refl)
    claim_case (some e) q s sq kept won = after_write reading q s tt sq (λ x. x) kept

    take_over_case :
        (e : Option PutError) (q : Phase o) (s : State)
        → Sound o path d q
        → (IsAcquired o q → Holds o path d.mine s)
        → (e ≡ none → Holds o path c.mine s × (¬ IsAcquired o q))
        → IsExclusive c d (after_take_over o path prefix c e) q s
    unfolding after_take_over
    take_over_case none q s sq kept won = after_success q s sq kept (won refl)
    take_over_case (some precondition) q s sq kept won =
        after_write confirming q s tt sq (λ x. x) kept
    take_over_case (some already_exists) q s sq kept won =
        after_write (refused (io prefix)) q s tt sq (λ x. x) kept
    take_over_case (some (put_failed e)) q s sq kept won =
        after_write (refused (io prefix)) q s tt sq (λ x. x) kept

    confirm_free :
        (r : FetchResult o)
        → Sound o path c (after_confirm o path prefix c r)
          × (¬ IsAcquired o (after_confirm o path prefix c r))
    unfolding after_confirm
    confirm_free absent = (tt, λ x. x)
    confirm_free (fetch_error e) = (tt, λ x. x)
    confirm_free (fetched f) = (tt, λ x. x)

    step-IsExclusive :
        (p q : Phase o) (s : State)
        → IsExclusive c d p q s
        → IsExclusive c d (step o path prefix c p s).0 q (step o path prefix c p s).1
    unfolding step
    step-IsExclusive claiming q s h =
        let (kept, won) =
          write_case create q s h.holds'
            (λ a. stored_some o laws path prefix path d.mine s (h.holds' a)) in
        claim_case (write_record o path c.mine create s).0 q (write_record o path c.mine create s).1
          h.sound' kept won
    step-IsExclusive reading q s h =
        let r = (fetch o path prefix s).0 in
        let (sp, free) =
          after_read-Sound o laws path prefix c r s
            (λ f e. fetched_object o laws path prefix c s f e) in
        after_write (after_read o path prefix c r) q (fetch o path prefix s).1 sp h.sound' free
          (λ a. fetch_keeps o laws path prefix path prefix d.mine s (h.holds' a))
    step-IsExclusive (taking_over f) q s h =
        let m : PutMode Version = matching f.version in
        let (kept, won) =
          write_case m q s h.holds'
            (λ a. cannot_match o laws path prefix c d f s live h.sound (h.holds' a)) in
        take_over_case (write_record o path c.mine m s).0 q (write_record o path c.mine m s).1
          h.sound' kept won
    step-IsExclusive confirming q s h =
        let r = (fetch o path prefix s).0 in
        let (sp, free) = confirm_free r in
        after_write (after_confirm o path prefix c r) q (fetch o path prefix s).1 sp h.sound' free
          (λ a. fetch_keeps o laws path prefix path prefix d.mine s (h.holds' a))
    step-IsExclusive acquired q s h = h
    step-IsExclusive (refused e) q s h = h

  -- The two processes take turns as the schedule says: `true` is a step of the first.
  unfoldable pub race :
      Claim → Claim → List Bool → Phase o × Phase o × State → Phase o × Phase o × State
  race c d [] st = st
  race c d (true ∷ turns) (p, q, s) =
      let (p', s') = step o path prefix c p s in race c d turns (p', q, s')
  race c d (false ∷ turns) (p, q, s) =
      let (q', s') = step o path prefix d q s in race c d turns (p, q', s')

  swapped :
      (c d : Claim) (p q : Phase o) (s : State) → IsExclusive c d p q s → IsExclusive d c q p s
  swapped c d p q s h = record {
    sound = h.sound';
    sound' = h.sound;
    holds = h.holds';
    holds' = h.holds;
    exclusive = λ a b. h.exclusive b a;
  }

  module _ (c d : Claim) (live : is_live_at d.mine c.now ≡ true)
      (live' : is_live_at c.mine d.now ≡ true) where
    race-IsExclusive :
        (turns : List Bool) (p q : Phase o) (s : State)
        → IsExclusive c d p q s
        → let (p', q', s') = race c d turns (p, q, s) in IsExclusive c d p' q' s'
    unfolding race
    race-IsExclusive [] p q s h = h
    race-IsExclusive (true ∷ turns) p q s h =
        race-IsExclusive turns (step o path prefix c p s).0 q (step o path prefix c p s).1
          (step-IsExclusive c d live p q s h)
    race-IsExclusive (false ∷ turns) p q s h =
        race-IsExclusive turns p (step o path prefix d q s).0 (step o path prefix d q s).1 (
          swapped d c (step o path prefix d q s).0 p (step o path prefix d q s).1
            (step-IsExclusive d c live' q p s (swapped c d p q s h)))

    -- However the store calls of two acquiring processes interleave, from any store and with any
    -- failures, they do not both acquire the lease, if each one's record is live by the other's clock.
    pub race_exclusive :
        (turns : List Bool) (s : State)
        → IsAcquired o (race c d turns (claiming, claiming, s)).0
        → ¬ IsAcquired o (race c d turns (claiming, claiming, s)).1
    race_exclusive turns s =
        (race-IsExclusive turns claiming claiming s (record {
          sound = tt;
          sound' = tt;
          holds = λ a. absurd a;
          holds' = λ a. absurd a;
          exclusive = λ a. absurd a;
        })).exclusive
