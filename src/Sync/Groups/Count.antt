-- ===== src/Sync/Groups/Count.antt =====
-- sync/snapshot.rs, implicit_groups: how much of the search is left.
use rust_api.Prelude.{
  ℕ, suc, ◌+◌, ◌≤◌, String, ◌≡◌, refl, ◌⊎◌, inl, inr, true, false, List, [], ◌∷◌, arith, str_eq,
  eq_iff, if◌then◌else◌, Bool-cases, length,
}
use rust_api.Sync.Groups.{member, visit}

-- The names that are not yet found.
unfoldable pub missing : List String → List String → ℕ
missing [] found = 0
missing (g ∷ names) found = (if member g found then 0 else 1) + missing names found

missing-cons_le :
    (x : String) (names found : List String) → missing names (x ∷ found) ≤ missing names found
unfolding missing member
missing-cons_le x [] found = ground arith
missing-cons_le x (g ∷ names) found = ground (arith, missing-cons_le x names found)

missing-cons :
    (x : String) (names found : List String)
    → member x names ≡ true
    → member x found ≡ false
    → suc (missing names (x ∷ found)) ≤ missing names found
unfolding missing member
missing-cons x [] found h n = absurd (cc)
missing-cons x (g ∷ names) found h n =
    ground
      (arith, eq_iff g x, eq_iff x g, missing-cons x names found, missing-cons_le x names found)

pub missing-length : (names found : List String) → missing names found ≤ length names
unfolding missing
missing-length [] found = ground arith
missing-length (g ∷ names) found = ground (arith, missing-length names found)

-- All members of the one list are members of the other.
abbrev pub Covers : List String → List String → Type 0
Covers names gs = (g : String) → member g gs ≡ true → member g names ≡ true

pub member-cons :
    (x y : String) (ys : List String) → member x (y ∷ ys) ≡ true → (y ≡ x) ⊎ (member x ys ≡ true)
unfolding member
member-cons x y ys h = elim (Bool-cases (str_eq y x)) [
  | inl e ↦ inl ((eq_iff y x).0 e)
  | inr e ↦ inr (ground (arith))
]

pub member-here : (x : String) (ys : List String) → member x (x ∷ ys) ≡ true
unfolding member
member-here x ys = rw ((eq_iff x x).1 refl) refl

pub member-there : (x y : String) (ys : List String) → member x ys ≡ true → member x (y ∷ ys) ≡ true
unfolding member
member-there x y ys h = ground (arith)

pub visit-seen :
    (g : String) (gs frontier found : List String)
    → member g found ≡ true
    → visit (g ∷ gs) (frontier, found) ≡ visit gs (frontier, found)
unfolding visit
visit-seen g gs frontier found e = rw e refl

pub visit-new :
    (g : String) (gs frontier found : List String)
    → member g found ≡ false
    → visit (g ∷ gs) (frontier, found) ≡ visit gs (g ∷ frontier, g ∷ found)
unfolding visit
visit-new g gs frontier found e = rw e refl

-- What is left of the loop: the names not found, and the frontier.
abbrev pub left : List String → List String × List String → ℕ
left names s = missing names s.1 + length s.0

pub visit-left :
    (names gs frontier found : List String)
    → Covers names gs
    → left names (visit gs (frontier, found)) ≤ left names (frontier, found)
unfolding visit
visit-left names [] frontier found c = omega arith
visit-left names (g ∷ gs) frontier found c =
    let c' : Covers names gs = λ x m. c x (member-there x g gs m) in
    elim (Bool-cases (member g found)) [
      | inl e ↦ rw (visit-seen g gs frontier found e) (visit-left names gs frontier found c')
      | inr e ↦ rw (visit-new g gs frontier found e) (
          let m = missing-cons g names found (c g (member-here g gs)) e in
          let v = visit-left names gs (g ∷ frontier) (g ∷ found) c' in omega arith)
    ]
