-- ===== src/Fs/Store/Calls.antt =====
-- fs/store.rs: what a transaction leaves, whatever becomes of it.
use rust_api.Prelude.{◌≡◌, refl, ◌⊎◌, inl, inr, List, [], ◌∷◌}
use rust_api.Fs.{ok}
use rust_api.Fs.Store.{Tables, Fault, passes, fails, lost, Disk, transact, transact_with}

transact_with-done {ℓ} :
    {A : Type ℓ} (g : Tables → A × Tables) (fs : List Fault) (t : Tables)
    → ((transact_with g fs t).1.tables ≡ t) ⊎ ((transact_with g fs t).1.tables ≡ (g t).1)
unfolding transact_with
transact_with-done g [] t = inr refl
transact_with-done g (passes ∷ fs) t = inr refl
transact_with-done g (fails e ∷ fs) t = inl refl
transact_with-done g (lost e ∷ fs) t = inr refl

-- A transaction is done or not done, whatever becomes of it.
pub transact-done {ℓ} :
    {A : Type ℓ} (g : Tables → A × Tables) (d : Disk)
    → ((transact g d).1.tables ≡ d.tables) ⊎ ((transact g d).1.tables ≡ (g d.tables).1)
unfolding transact
transact-done g d = transact_with-done g d.faults d.tables

transact_with-answer {ℓ} :
    {A : Type ℓ} (g : Tables → A × Tables) (fs : List Fault) (t : Tables) (a : A)
    → (transact_with g fs t).0 ≡ ok a
    → a ≡ (g t).0
unfolding transact_with
transact_with-answer g [] t a h = cc
transact_with-answer g (passes ∷ fs) t a h = cc
transact_with-answer g (fails e ∷ fs) t a h = absurd (cc)
transact_with-answer g (lost e ∷ fs) t a h = absurd (cc)

-- An answer is that of the transaction.
pub transact-answer {ℓ} :
    {A : Type ℓ} (g : Tables → A × Tables) (d : Disk) (a : A)
    → (transact g d).0 ≡ ok a
    → a ≡ (g d.tables).0
unfolding transact
transact-answer g d a h = transact_with-answer g d.faults d.tables a h

transact_with-committed {ℓ} :
    {A : Type ℓ} (g : Tables → A × Tables) (fs : List Fault) (t : Tables) (a : A)
    → (transact_with g fs t).0 ≡ ok a
    → (transact_with g fs t).1.tables ≡ (g t).1
unfolding transact_with
transact_with-committed g [] t a h = refl
transact_with-committed g (passes ∷ fs) t a h = refl
transact_with-committed g (fails e ∷ fs) t a h = absurd (cc)
transact_with-committed g (lost e ∷ fs) t a h = refl

-- A transaction that answers is committed.
pub transact-committed {ℓ} :
    {A : Type ℓ} (g : Tables → A × Tables) (d : Disk) (a : A)
    → (transact g d).0 ≡ ok a
    → (transact g d).1.tables ≡ (g d.tables).1
unfolding transact
transact-committed g d a h = transact_with-committed g d.faults d.tables a h
