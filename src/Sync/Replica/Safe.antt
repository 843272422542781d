-- ===== src/Sync/Replica/Safe.antt =====
-- sync/snapshot.rs, apply_op: what a change may bring into a replica, whatever calls fail.
use rust_api.Sync.Replica.{visible, World, is_some_row, on_replica, W, on_master}
use rust_api.Prelude.{
  ℕ, String, ◌≡◌, refl, sym, ap, ◌∙◌, subst, ◌⊎◌, inl, inr, Bool, true, false, ◌||◌, Option, none,
  some, List, str_eq, eq_iff, if◌then◌else◌, Bool-cases, ℤ,
}
use rust_api.Prelude.Maps.{lookup, lookup-put, lookup-remove}
use rust_api.Records.{FileRecord}
use rust_api.Fs.{Result, ok, err}
use rust_api.Fs.Access.{Row}
use rust_api.Fs.Store.Calls.{transact-done, transact-answer}
use rust_api.Fs.Store.Refs.{has_rel-drop_rels, has_rel-delete_rel, same_rel→eq}
use rust_api.Fs.Store.{
  Tables, resume, ◌>>=◌, pure, transact, read, has_rel, same_rel, rows_of, put_file, remove_file,
  add_marker, remove_marker,
}
use rust_api.Sync.Policy.{Policy, granted}

-- The user may read the file: it is in the master, and the user owns it or may read one of its rows, as
-- `rows_for_file` reads them back from their markers.
unfoldable pub may_read_found : Policy → String → List Row → Option FileRecord → Bool
may_read_found p sub rows none = false
may_read_found p sub rows (some rec) = str_eq rec.owner_sub sub || is_some_row (visible p sub rows)

unfoldable pub may_read : Policy → String → Tables → String → Bool
may_read p sub t id = may_read_found p sub (rows_of id t.rels) (lookup id t.files)

-- A record is kept under its own id.
abbrev pub IsKeyed : Tables → Type 0
IsKeyed t = (id : String) (rec : FileRecord) → lookup id t.files ≡ some rec → rec.id ≡ id

module _ (p : Policy) (sub : String) (master : Tables) (head : ℕ) where
  -- No file and no marker is new in a replica but a file that the user may read and a marker of a row
  -- that the user may read; a marker is given by the parts of its key, which come to the row's object.
  abbrev pub Grows : Tables → Tables → Type 0
  Grows t u =
      ((id : String) (rec : FileRecord)
        → lookup id u.files ≡ some rec
        → (lookup id t.files ≡ some rec) ⊎ (may_read p sub master id ≡ true))
      × ((ty rid f : String)
          → has_rel (ty, rid, f) u.rels ≡ true
          → (has_rel (ty, rid, f) t.rels ≡ true) ⊎ (granted p sub (ty, rid) ≡ true))
      × ((u.applied ≡ t.applied) ⊎ (u.applied ≡ some head))

  pub Grows-refl : (t : Tables) → Grows t t
  Grows-refl t = (λ id rec h. inl h, λ ty rid f h. inl h, inl refl)

  pub Grows-trans : (t u v : Tables) → Grows t u → Grows u v → Grows t v
  Grows-trans t u v g h = (
    λ id rec e. elim (h.0 id rec e) [ inl f ↦ g.0 id rec f | inr f ↦ inr f ],
    λ ty rid f e. elim (h.1 ty rid f e) [ inl x ↦ g.1 ty rid f x | inr x ↦ inr x ],
    elim h.2 [ inl x ↦ elim g.2 [ inl y ↦ inl (x ∙ y) | inr y ↦ inr (x ∙ y) ] | inr x ↦ inr x ],
  )

  -- Whatever becomes of the calls of `m`, the master is left alone, the replica grows only so, and what
  -- `m` answers satisfies `Q`.
  abbrev pub Safe {ℓ} : {A : Type 0} → W A → (A → Type ℓ) → Type ℓ
  Safe {A = A} m Q =
      (w : World)
      → w.master.tables ≡ master
      → ((m w).1.master.tables ≡ master)
        × (Grows w.replica.tables (m w).1.replica.tables × ((a : A) → (m w).0 ≡ ok a → Q a))

  pub Safe-pure {ℓ} : {A : Type 0} (a : A) (Q : A → Type ℓ) → Q a → Safe (pure a) Q
  Safe-pure a Q q w e = (e, (Grows-refl w.replica.tables, λ b h. subst Q (cc) q))

  -- From what `m` leaves.
  pub Safe-resume {ℓ κ} :
      {A B : Type 0} (f : A → W B) (Q : A → Type ℓ) (R : B → Type κ) (t : Tables) (r : Result A)
      (w : World)
      → ((a : A) → Q a → Safe (f a) R)
      → w.master.tables ≡ master
      → Grows t w.replica.tables
      → ((a : A) → r ≡ ok a → Q a)
      → ((resume f (r, w)).1.master.tables ≡ master)
        × (Grows t (resume f (r, w)).1.replica.tables
            × ((b : B) → (resume f (r, w)).0 ≡ ok b → R b))
  Safe-resume f Q R t (err x) w k e g q = (e, (g, λ b h. absurd (cc)))
  Safe-resume f Q R t (ok a) w k e g q =
      let s = k a (q a refl) w e in
      (s.0, (Grows-trans t w.replica.tables (f a w).1.replica.tables g s.1.0, s.1.1))

  pub Safe-bind {ℓ κ} :
      {A B : Type 0} (m : W A) (f : A → W B) (Q : A → Type ℓ) (R : B → Type κ)
      → Safe m Q
      → ((a : A) → Q a → Safe (f a) R)
      → Safe (m >>= f) R
  Safe-bind m f Q R s k w e =
      let h = s w e in Safe-resume f Q R w.replica.tables (m w).0 (m w).1 k h.0 h.1.0 h.1.1

  pub Safe-if {ℓ} :
      {A : Type 0} (b : Bool) (m n : W A) (Q : A → Type ℓ)
      → (b ≡ true → Safe m Q)
      → (b ≡ false → Safe n Q)
      → Safe (if b then m else n) Q
  Safe-if true m n Q h k = h refl
  Safe-if false m n Q h k = k refl

  pub Safe-read : {A : Type 0} (f : Tables → A) → Safe (on_master (read f)) (λ a. a ≡ f master)
  unfolding on_master read
  Safe-read f w e = (
    elim (transact-done (λ t. (f t, t)) w.master) [ inl d ↦ d ∙ e | inr d ↦ d ∙ e ],
    (Grows-refl w.replica.tables, λ a h. transact-answer (λ t. (f t, t)) w.master a h ∙ ap f e),
  )

  pub Safe-write :
      {A : Type 0} (g : Tables → A × Tables)
      → ((t : Tables) → Grows t (g t).1)
      → Safe (on_replica (transact g)) (λ a. Unit {0})
  unfolding on_replica
  Safe-write g k w e = (
    e,
    (
      elim (transact-done g w.replica) [
        | inl d ↦ subst (Grows w.replica.tables) (sym d) (Grows-refl w.replica.tables)
        | inr d ↦ subst (Grows w.replica.tables) (sym d) (k w.replica.tables)
      ],
      λ a h. tt,
    ),
  )

  pub put_file-Grows :
      (rec : FileRecord) (t : Tables)
      → may_read p sub master rec.id ≡ true
      → Grows t (put_file rec t)
  unfolding put_file
  put_file-Grows rec t m = (
    λ id r h. elim (Bool-cases (str_eq rec.id id)) [
      | inl e ↦ inr (subst (λ i. may_read p sub master i ≡ true) ((eq_iff rec.id id).0 e) m)
      | inr e ↦ inl (rw (lookup-put rec.id id rec t.files, e) at h)
    ],
    λ ty rid f h. inl h,
    inl refl,
  )

  pub remove_file-Grows : (id : String) (t : Tables) → Grows t (remove_file id t)
  unfolding remove_file
  remove_file-Grows id t = (
    λ i r h. elim (Bool-cases (str_eq id i)) [
      | inl e ↦ absurd (let h' = rw (lookup-remove id i t.files, e) at h in cc)
      | inr e ↦ inl (rw (lookup-remove id i t.files, e) at h)
    ],
    λ ty rid f h. inl elim (Bool-cases (has_rel (ty, rid, f) t.rels)) [
      | inl e ↦ e
      | inr e ↦ absurd (let n = has_rel-drop_rels (ty, rid, f) id t.rels e in cc)
    ],
    inl refl,
  )

  pub add_marker-Grows :
      (ty rid f : String) (t : Tables)
      → granted p sub (ty, rid) ≡ true
      → Grows t (add_marker (ty, rid, f) t).1
  unfolding add_marker
  add_marker-Grows ty rid f t m = elim (Bool-cases (has_rel (ty, rid, f) t.rels)) [
    | inl e ↦ rw e (Grows-refl t)
    | inr e ↦ rw e (
      λ id r h. inl h,
      λ a b c h. elim (Bool-cases (same_rel (ty, rid, f) (a, b, c))) [
        | inl q ↦
            let o = same_rel→eq (ty, rid, f) (a, b, c) q in
            inr (subst (λ r. granted p sub (r.0, r.1) ≡ true) o m)
        | inr q ↦ inl (rw (has_rel, q) at h)
      ],
      inl refl,
    )
  ]

  pub remove_marker-Grows :
      (now : ℤ) (ty rid f : String) (t : Tables) → Grows t (remove_marker now (ty, rid, f) t).1
  unfolding remove_marker
  remove_marker-Grows now ty rid f t = elim (Bool-cases (has_rel (ty, rid, f) t.rels)) [
    | inl e ↦ rw e (
      λ id r h. inl h,
      λ a b c h. inl (elim (Bool-cases (has_rel (a, b, c) t.rels)) [
        | inl q ↦ q
        | inr q ↦ absurd (let n = has_rel-delete_rel (a, b, c) (ty, rid, f) t.rels q in cc)
      ]),
      inl refl,
    )
    | inr e ↦ rw e (Grows-refl t)
  ]
