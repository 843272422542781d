-- ===== src/Fs/Engine/Ends.antt =====
-- fs/mod.rs: what a run of the engine establishes, however many of its calls fail.
use rust_api.Fs.Engine.Sweep.{attempted, attempt}
use rust_api.Fs.Engine.{answer, fail, call_with, World, on_objects, call, E, Rows}
use rust_api.Prelude.{
  ◌≡◌, refl, Bool, true, false, List, [], ◌∷◌, if◌then◌else◌, Option, some, none,
}
use rust_api.Fs.{FsError, Result, ok, err}
use rust_api.Fs.Store.{pure, Fault, resume, ◌>>=◌, passes, fails, lost}

module _ {S : Type 0} where
  -- `I` where the run fails, `Q` of what it answers where it does not.
  abbrev pub Ends {ℓ} :
      {A : Type 0} → (Rows → S → Type ℓ) → (A → Rows → S → Type ℓ) → Result A × World S → Type ℓ
  Ends I Q (ok a, w) = Q a w.rows w.objects
  Ends I Q (err e, w) = I w.rows w.objects

  -- From any state that satisfies `P`, whatever becomes of the calls.
  pub record Triple {ℓ} {A : Type 0} (P I : Rows → S → Type ℓ) (Q : A → Rows → S → Type ℓ)
      (m : E S A) : Type ℓ where
    pub ends : (w : World S) → P w.rows w.objects → Ends I Q (m w)

  module _ {ℓ} (I : Rows → S → Type ℓ) where
    pub Ends-resume :
        {A B : Type 0} (Q : A → Rows → S → Type ℓ) (R : B → Rows → S → Type ℓ) (f : A → E S B)
        (x : Result A × World S)
        → Ends I Q x
        → ((a : A) → Triple (Q a) I R (f a))
        → Ends I R (resume f x)
    Ends-resume Q R f (ok a, w) q k = (k a).ends w q
    Ends-resume Q R f (err e, w) q k = q

    pub Triple-bind :
        {A B : Type 0} (P : Rows → S → Type ℓ) (Q : A → Rows → S → Type ℓ)
        (R : B → Rows → S → Type ℓ) (m : E S A) (f : A → E S B)
        → Triple P I Q m
        → ((a : A) → Triple (Q a) I R (f a))
        → Triple P I R (m >>= f)
    Triple-bind P Q R m f h k = record { ends = λ w p. Ends-resume Q R f (m w) (h.ends w p) k }

    call_with-Ends :
        {A : Type 0} (Q : A → Rows → S → Type ℓ) (g : Rows → A × Rows) (fs : List Fault) (r : Rows)
        (s : S)
        → I r s
        → I (g r).1 s
        → Q (g r).0 (g r).1 s
        → Ends I Q (call_with g fs r s)
    unfolding call_with
    call_with-Ends Q g [] r s i j q = q
    call_with-Ends Q g (passes ∷ fs) r s i j q = q
    call_with-Ends Q g (fails e ∷ fs) r s i j q = i
    call_with-Ends Q g (lost e ∷ fs) r s i j q = j

    pub Triple-call :
        {A : Type 0} (P : Rows → S → Type ℓ) (Q : A → Rows → S → Type ℓ) (g : Rows → A × Rows)
        → ((r : Rows) (s : S) → P r s → I r s × I (g r).1 s × Q (g r).0 (g r).1 s)
        → Triple P I Q (call g)
    unfolding call
    Triple-call P Q g h = record {
      ends = λ w p.
          let (i, j, q) = h w.rows w.objects p in
          call_with-Ends Q g w.faults w.rows w.objects i j q;
    }

    objects-Ends :
        {A : Type 0} (Q : A → Rows → S → Type ℓ) (x : Result A) (w : World S)
        → I w.rows w.objects
        → ((a : A) → x ≡ ok a → Q a w.rows w.objects)
        → Ends I Q (x, w)
    objects-Ends Q (ok a) w i q = q a refl
    objects-Ends Q (err e) w i q = i

    pub Triple-objects :
        {A : Type 0} (P : Rows → S → Type ℓ) (Q : A → Rows → S → Type ℓ) (op : S → Result A × S)
        → ((r : Rows) (s : S) → P r s → I r (op s).1 × ((a : A) → (op s).0 ≡ ok a → Q a r (op s).1))
        → Triple P I Q (on_objects op)
    unfolding on_objects
    Triple-objects P Q op h = record {
      ends = λ w p.
          let (i, q) = h w.rows w.objects p in
          objects-Ends Q (op w.objects).0 (record w { objects = (op w.objects).1 }) i q;
    }

    answer-Ends :
        {A : Type 0} (Q : A → Rows → S → Type ℓ) (x : Result A) (w : World S)
        → I w.rows w.objects
        → ((a : A) → Q a w.rows w.objects)
        → Ends I Q (x, w)
    answer-Ends Q (ok a) w i q = q a
    answer-Ends Q (err e) w i q = i

    pub Triple-answer :
        {A : Type 0} (P : Rows → S → Type ℓ) (Q : A → Rows → S → Type ℓ) (x : Result A)
        → ((r : Rows) (s : S) → P r s → I r s)
        → ((a : A) (r : Rows) (s : S) → P r s → Q a r s)
        → Triple P I Q (answer x)
    Triple-answer P Q x h k = record {
      ends = λ w p. answer-Ends Q x w (h w.rows w.objects p) (λ a. k a w.rows w.objects p);
    }

    pub Triple-pure :
        {A : Type 0} (P : Rows → S → Type ℓ) (Q : A → Rows → S → Type ℓ) (a : A)
        → ((r : Rows) (s : S) → P r s → Q a r s)
        → Triple P I Q (pure a)
    Triple-pure P Q a h = record { ends = λ w p. h w.rows w.objects p }

    pub Triple-fail :
        {A : Type 0} (P : Rows → S → Type ℓ) (Q : A → Rows → S → Type ℓ) (e : FsError)
        → ((r : Rows) (s : S) → P r s → I r s)
        → Triple P I Q (fail e)
    Triple-fail P Q e h = record { ends = λ w p. h w.rows w.objects p }

    pub Triple-if :
        {A : Type 0} (P : Rows → S → Type ℓ) (Q : A → Rows → S → Type ℓ) (b : Bool) (m n : E S A)
        → (b ≡ true → Triple P I Q m)
        → (b ≡ false → Triple P I Q n)
        → Triple P I Q (if b then m else n)
    Triple-if P Q true m n h k = h refl
    Triple-if P Q false m n h k = k refl

    attempted-Ends :
        {A : Type 0} (Q : A → Rows → S → Type ℓ) (R : Option A → Rows → S → Type ℓ)
        (x : Result A × World S)
        → Ends I Q x
        → ((r : Rows) (s : S) → I r s → R none r s)
        → ((a : A) (r : Rows) (s : S) → Q a r s → R (some a) r s)
        → Ends I R (attempted x)
    unfolding attempted
    attempted-Ends Q R (ok a, w) q h k = k a w.rows w.objects q
    attempted-Ends Q R (err e, w) q h k = h w.rows w.objects q

    pub Triple-attempt :
        {A : Type 0} (P : Rows → S → Type ℓ) (Q : A → Rows → S → Type ℓ)
        (R : Option A → Rows → S → Type ℓ) (m : E S A)
        → Triple P I Q m
        → ((r : Rows) (s : S) → I r s → R none r s)
        → ((a : A) (r : Rows) (s : S) → Q a r s → R (some a) r s)
        → Triple P I R (attempt m)
    unfolding attempt
    Triple-attempt P Q R m t h k = record {
      ends = λ w p. attempted-Ends Q R (m w) (t.ends w p) h k;
    }

    weakened :
        {A : Type 0} (J : Rows → S → Type ℓ) (Q R : A → Rows → S → Type ℓ) (x : Result A × World S)
        → Ends I Q x
        → ((r : Rows) (s : S) → I r s → J r s)
        → ((a : A) (r : Rows) (s : S) → Q a r s → R a r s)
        → Ends J R x
    weakened J Q R (ok a, w) q h k = k a w.rows w.objects q
    weakened J Q R (err e, w) q h k = h w.rows w.objects q

    pub Triple-weaken :
        {A : Type 0} (P J : Rows → S → Type ℓ) (Q R : A → Rows → S → Type ℓ) (m : E S A)
        → Triple P I Q m
        → ((r : Rows) (s : S) → I r s → J r s)
        → ((a : A) (r : Rows) (s : S) → Q a r s → R a r s)
        → Triple P J R m
    Triple-weaken P J Q R m t h k = record { ends = λ w p. weakened J Q R (m w) (t.ends w p) h k }

    -- A run that keeps what it is given, whether it fails or not.
    pub Ends-holds :
        {A : Type 0} (Q : A → Rows → S → Type ℓ) (x : Result A × World S)
        → ((a : A) (r : Rows) (s : S) → Q a r s → I r s)
        → Ends I Q x
        → I x.1.rows x.1.objects
    Ends-holds Q (ok a, w) h e = h a w.rows w.objects e
    Ends-holds Q (err x, w) h e = e
