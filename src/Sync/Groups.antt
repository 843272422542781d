-- ===== src/Sync/Groups.antt =====
-- sync/snapshot.rs, implicit_groups: the groups that a subject is a member of, directly or not.
pub mod Count
pub mod Found
use rust_api.Prelude.{
  ℕ, zero, suc, ◌+◌, ◌≤◌, ◌<◌, String, ◌≡◌, refl, sym, subst, ◌↔◌, ◌⊎◌, inl, inr, Bool, true, false,
  ◌||◌, List, [], ◌∷◌, arith, str_eq, eq_iff, if◌then◌else◌, Bool-cases, length,
}
use rust_api.Sync.Policy.{Policy}

unfoldable pub member : String → List String → Bool
member x [] = false
member x (y ∷ ys) = str_eq y x || member x ys

-- `for g in …`: a group not found before is found now and joins the frontier.
unfoldable visit : List String → List String × List String → List String × List String
unfolding member
visit [] (frontier, found) = (frontier, found)
visit (g ∷ gs) (frontier, found) =
    visit gs (if member g found then (frontier, found) else (g ∷ frontier, g ∷ found))

-- The loop, of at most so many rounds: the frontier's head is popped.
unfoldable closure : (String → List String) → ℕ → List String × List String → List String
unfolding visit
closure groups_of zero (frontier, found) = found
closure groups_of (suc n) ([], found) = found
closure groups_of (suc n) (name ∷ frontier, found) =
    closure groups_of n (visit (groups_of name) (frontier, found))

-- Every round but the first takes a group that no other round takes.
unfoldable pub implicit_groups : Policy → String → List String
unfolding closure
implicit_groups p sub = closure p.get_groups_of_user (2 + length p.group_names) (sub ∷ [], [])

-- A group the subject is in, directly or through others.
pub data Within (groups_of : String → List String) (sub : String) : String → Type 0 where
  direct : (g : String) → member g (groups_of sub) ≡ true → Within groups_of sub g
  through :
      (h g : String)
      → Within groups_of sub h
      → member g (groups_of h) ≡ true
      → Within groups_of sub g
