-- ===== src/Sync/Groups/Found.antt =====
-- sync/snapshot.rs, implicit_groups: what the search finds.
use rust_api.Prelude.{
  ℕ, zero, suc, ◌+◌, ◌<◌, String, ◌≡◌, refl, sym, subst, ◌↔◌, ◌⊎◌, inl, inr, true, List, [], ◌∷◌,
  arith, eq_iff, Bool-cases, length,
}
use rust_api.Sync.Policy.{Policy}
use rust_api.Sync.Groups.{member, visit, closure, implicit_groups, Within, direct, through}
use rust_api.Sync.Groups.Count.{
  member-cons, member-here, member-there, visit-seen, visit-new, left, visit-left, missing-length,
  Covers,
}

module _ (groups_of : String → List String) (sub : String) where
  -- The subject, or found.
  abbrev Seen : List String → String → Type 0
  Seen found h = (h ≡ sub) ⊎ (member h found ≡ true)

  -- Whoever is seen waits in the frontier or has all its groups found, but for the groups that are
  -- still to be visited for `name`.
  abbrev Pending : String → List String → List String × List String → Type 0
  Pending name gs s =
      (h : String)
      → Seen s.1 h
      → (member h s.0 ≡ true)
        ⊎ ((g : String)
            → member g (groups_of h) ≡ true
            → (member g s.1 ≡ true) ⊎ ((h ≡ name) × (member g gs ≡ true)))

  Pending-seen :
      (name g : String) (gs frontier found : List String)
      → member g found ≡ true
      → Pending name (g ∷ gs) (frontier, found)
      → Pending name gs (frontier, found)
  Pending-seen name g gs frontier found e k h s = elim (k h s) [
    | inl w ↦ inl w
    | inr d ↦ inr (λ x m. elim (d x m) [
      | inl f ↦ inl f
      | inr (q, f) ↦ elim (member-cons x g gs f) [
        | inl same ↦ inl (subst (λ y. member y found ≡ true) same e)
        | inr rest ↦ inr (q, rest)
      ]
    ])
  ]

  Pending-old :
      (name g h : String) (gs frontier found : List String)
      → Pending name (g ∷ gs) (frontier, found)
      → Seen found h
      → (member h (g ∷ frontier) ≡ true)
        ⊎ ((x : String)
            → member x (groups_of h) ≡ true
            → (member x (g ∷ found) ≡ true) ⊎ ((h ≡ name) × (member x gs ≡ true)))
  Pending-old name g h gs frontier found k s = elim (k h s) [
    | inl w ↦ inl (member-there h g frontier w)
    | inr d ↦ inr (λ x m. elim (d x m) [
      | inl f ↦ inl (member-there x g found f)
      | inr (q, f) ↦ elim (member-cons x g gs f) [
        | inl same ↦ inl (subst (λ y. member y (g ∷ found) ≡ true) same (member-here g found))
        | inr rest ↦ inr (q, rest)
      ]
    ])
  ]

  Pending-new :
      (name g : String) (gs frontier found : List String)
      → Pending name (g ∷ gs) (frontier, found)
      → Pending name gs (g ∷ frontier, g ∷ found)
  Pending-new name g gs frontier found k h (inl q) =
      Pending-old name g h gs frontier found k (inl q)
  Pending-new name g gs frontier found k h (inr m) = elim (member-cons h g found m) [
    | inl same ↦ inl (subst (λ y. member y (g ∷ frontier) ≡ true) same (member-here g frontier))
    | inr old ↦ Pending-old name g h gs frontier found k (inr old)
  ]

  visit-Pending :
      (name : String) (gs frontier found : List String)
      → Pending name gs (frontier, found)
      → Pending name [] (visit gs (frontier, found))
  unfolding visit
  visit-Pending name [] frontier found k = k
  visit-Pending name (g ∷ gs) frontier found k = elim (Bool-cases (member g found)) [
    | inl e ↦
        subst (Pending name []) (sym (visit-seen g gs frontier found e))
          (visit-Pending name gs frontier found (Pending-seen name g gs frontier found e k))
    | inr e ↦
        subst (Pending name []) (sym (visit-new g gs frontier found e)) (
          visit-Pending name gs (g ∷ frontier) (g ∷ found) (Pending-new name g gs frontier found k))
  ]

  pop-Pending :
      (name : String) (frontier found : List String)
      → Pending name [] (name ∷ frontier, found)
      → Pending name (groups_of name) (frontier, found)
  unfolding member
  pop-Pending name frontier found k h s = elim (k h s) [
    | inr d ↦ inr (λ x m. elim (d x m) [ inl f ↦ inl f | inr (q, f) ↦ absurd (ground arith) ])
    | inl w ↦ elim (member-cons h name frontier w) [
      | inr old ↦ inl old
      | inl same ↦
          inr (λ x m. inr (sym same, subst (λ y. member x (groups_of y) ≡ true) (sym same) m))
    ]
  ]

  -- Only groups of the subject are found, and only they and the subject wait.
  abbrev Sound : List String × List String → Type 0
  Sound s =
      ((g : String) → member g s.1 ≡ true → Within groups_of sub g)
      × ((h : String) → member h s.0 ≡ true → (h ≡ sub) ⊎ Within groups_of sub h)

  visit-Sound :
      (gs frontier found : List String)
      → ((g : String) → member g gs ≡ true → Within groups_of sub g)
      → Sound (frontier, found)
      → Sound (visit gs (frontier, found))
  unfolding visit
  visit-Sound [] frontier found w s = s
  visit-Sound (g ∷ gs) frontier found w s = elim (Bool-cases (member g found)) [
    | inl e ↦
        subst Sound (sym (visit-seen g gs frontier found e))
          (visit-Sound gs frontier found (λ x m. w x (member-there x g gs m)) s)
    | inr e ↦ subst Sound (sym (visit-new g gs frontier found e)) (
        visit-Sound gs (g ∷ frontier) (g ∷ found) (λ x m. w x (member-there x g gs m))
          (
            λ x m. elim (member-cons x g found m) [
              | inl same ↦ subst (Within groups_of sub) same (w g (member-here g gs))
              | inr old ↦ s.0 x old
            ],
            λ x m. elim (member-cons x g frontier m) [
              | inl same ↦ inr (subst (Within groups_of sub) same (w g (member-here g gs)))
              | inr old ↦ s.1 x old
            ],
          ))
  ]

  renamed-Pending :
      (name other : String) (s : List String × List String) → Pending name [] s → Pending other [] s
  unfolding member
  renamed-Pending name other s k h m = elim (k h m) [
    | inl w ↦ inl w
    | inr d ↦ inr (λ x i. elim (d x i) [ inl f ↦ inl f | inr (q, f) ↦ absurd (ground arith) ])
  ]

  Within-all :
      (found : List String) {g : String}
      → Pending sub [] ([], found)
      → Within groups_of sub g
      → member g found ≡ true
  unfolding member
  Within-all found k (direct g m) = elim (k sub (inl refl)) [
    | inl w ↦ absurd (ground arith)
    | inr d ↦ elim (d g m) [ inl f ↦ f | inr (q, f) ↦ absurd (ground arith) ]
  ]
  Within-all found k (through h g w m) = elim (k h (inr (Within-all found k w))) [
    | inl w ↦ absurd (ground arith)
    | inr d ↦ elim (d g m) [ inl f ↦ f | inr (q, f) ↦ absurd (ground arith) ]
  ]

  pop-Sound :
      (name : String) (frontier found : List String)
      → Sound (name ∷ frontier, found)
      → Sound (visit (groups_of name) (frontier, found))
  pop-Sound name frontier found s =
      visit-Sound (groups_of name) frontier found
        (λ g m. elim (s.1 name (member-here name frontier)) [
          | inl q ↦ direct g (subst (λ y. member g (groups_of y) ≡ true) q m)
          | inr w ↦ through name g w m
        ])
        (s.0, λ x m. s.1 x (member-there x name frontier m))

  closure_iff :
      (names : List String) (n : ℕ) (frontier found : List String)
      → ((h : String) → Covers names (groups_of h))
      → left names (frontier, found) < n
      → Pending sub [] (frontier, found)
      → Sound (frontier, found)
      → (g : String)
      → (member g (closure groups_of n (frontier, found)) ≡ true) ↔ Within groups_of sub g
  unfolding closure
  closure_iff names zero frontier found c b k s g = absurd (omega arith)
  closure_iff names (suc n) [] found c b k s g = (s.0 g, Within-all found k)
  closure_iff names (suc n) (name ∷ frontier) found c b k s g =
      let v = visit-left names (groups_of name) frontier found (c name) in
      let t = visit (groups_of name) (frontier, found) in
      closure_iff names n t.0 t.1 c (omega arith)
        (renamed-Pending name sub t (
          visit-Pending name (groups_of name) frontier found (
            pop-Pending name frontier found (renamed-Pending sub name (name ∷ frontier, found) k))))
        (pop-Sound name frontier found s) g

-- When all groups of the policy are among its group names, the search finds exactly the groups that the
-- subject is in, directly or through others, and its rounds are enough.
pub implicit_groups_iff :
    (p : Policy) (sub g : String)
    → ((h : String) → Covers p.group_names (p.get_groups_of_user h))
    → (member g (implicit_groups p sub) ≡ true) ↔ Within p.get_groups_of_user sub g
unfolding implicit_groups member
implicit_groups_iff p sub g c =
    let m = missing-length p.group_names [] in
    closure_iff p.get_groups_of_user sub p.group_names (2 + length p.group_names) (sub ∷ []) [] c
      (omega arith)
      (λ h s. elim s [
        | inl q ↦ inl (ground (arith, eq_iff sub h, q))
        | inr f ↦ absurd (ground arith)
      ])
      ((λ x m. absurd (ground arith)), (λ x m. inl (ground (arith, eq_iff sub x)))) g
