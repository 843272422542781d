-- ===== src/Fs/Pages.antt =====
-- fs/store.rs: `KvPages`, a walk over a store that holds one page at a time.
mod Tests
use rust_api.Prelude.{
  ℕ, zero, suc, ◌≤◌, ◌<◌, ◌≡◌, refl, sym, ap, ◌∙◌, Bool, true, false, Option, none, some, List, [],
  ◌∷◌, ◌++◌, arith, if◌then◌else◌, length, take,
}
use mathlib.Core.List.{append_assoc}
use rust_api.Fs.{Result, ok, err}
use rust_api.Sync.Keys.{Key, key_eq, key_eq_iff}
use rust_api.Sync.Merge.{KeyValue}

abbrev pub scan_page : ℕ
scan_page = 512

pub record KvPages : Type 0 where
  pub cursor : Option Key
  pub buffer : List KeyValue
  pub exhausted : Bool

pub new : KvPages
new = record { cursor = none; buffer = []; exhausted = false }

-- The key of the last entry.
last_key : List KeyValue → Option Key
last_key [] = none
last_key (kv ∷ []) = some kv.key
last_key (kv ∷ x ∷ kvs) = last_key (x ∷ kvs)

-- The entry that the walk resumed at is dropped.
drop_resumed : Option Key → List KeyValue → List KeyValue
unfolding key_eq
drop_resumed none page = page
drop_resumed (some resume) [] = []
drop_resumed (some resume) (kv ∷ page) = if key_eq kv.key resume then page else kv ∷ page

serve : KvPages → List KeyValue → Result (Option KeyValue) × KvPages
unfolding last_key
serve p [] = (ok none, record p { exhausted = true })
serve p (kv ∷ page) = (ok (some kv), record p { cursor = last_key (kv ∷ page); buffer = page })

served : KvPages → Result (List KeyValue) → Result (Option KeyValue) × KvPages
unfolding serve drop_resumed
served p (err e) = (err e, p)
served p (ok page) = serve p (drop_resumed p.cursor page)

-- What an answer adds to the entries that later calls visit.
visit : Result (Option KeyValue) → List KeyValue → List KeyValue
visit (err e) later = []
visit (ok none) later = []
visit (ok (some kv)) later = kv ∷ later

-- `gets_bytes` of the store (crate `oxkv`) with the limit, ascending: a page from the key on, or from
-- the first.
module _ (gets_bytes : ℕ → Option Key → Result (List KeyValue)) where
  next_from : List KeyValue → KvPages → Result (Option KeyValue) × KvPages
  unfolding served
  next_from [] p = if p.exhausted then (ok none, p) else served p (gets_bytes scan_page p.cursor)
  next_from (kv ∷ kvs) p = (ok (some kv), record p { buffer = kvs })

  pub next : KvPages → Result (Option KeyValue) × KvPages
  unfolding next_from
  next p = next_from p.buffer p

  -- The entries that a walk visits in at most `n` calls.
  pub walk : ℕ → KvPages → List KeyValue
  unfolding visit
  walk zero p = []
  walk (suc n) p = visit (next p).0 (walk n (next p).1)

take_rest : (n : ℕ) (xs : List KeyValue) → (aft : List KeyValue) × (xs ≡ take n xs ++ aft)
take_rest zero xs = (xs, refl)
take_rest (suc n) [] = ([], refl)
take_rest (suc n) (x ∷ xs) = let (aft, e) = take_rest n xs in (aft, ap (λ l. x ∷ l) e)

take_rest_empty :
    (n : ℕ) (xs : List KeyValue) → take (suc n) xs ≡ [] → (take_rest (suc n) xs).0 ≡ []
unfolding take_rest
take_rest_empty n [] h = refl
take_rest_empty n (x ∷ xs) h = absurd (cc)

ends :
    (x : KeyValue) (xs : List KeyValue)
    → (pre : List KeyValue) × (z : KeyValue) × (x ∷ xs ≡ pre ++ z ∷ [])
      × (last_key (x ∷ xs) ≡ some z.key)
unfolding last_key
ends x [] = ([], x, refl, refl)
ends x (y ∷ xs) = let (pre, z, e, l) = ends y xs in (x ∷ pre, z, ap (λ k. x ∷ k) e, l)

-- What the store documents, for the entries `all` in order: a first page is the first entries, and a
-- page from a key that is there is the entries from that key on.
module _ (gets_bytes : ℕ → Option Key → Result (List KeyValue)) (all : List KeyValue)
    (first_page : (n : ℕ) → gets_bytes n none ≡ ok (take n all))
    (page_from : (n : ℕ) (pre : List KeyValue) (kv : KeyValue) (aft : List KeyValue)
      → all ≡ pre ++ kv ∷ aft
      → gets_bytes n (some kv.key) ≡ ok (take n (kv ∷ aft))) where
  -- A walk of so many calls visits all that is left, from anywhere within.
  Visits : ℕ → Type 0
  Visits n =
      (pre : List KeyValue) (kv : KeyValue) (aft buffer : List KeyValue)
      → all ≡ pre ++ kv ∷ aft
      → length (buffer ++ aft) < n
      → walk gets_bytes n (record { cursor = some kv.key; buffer = buffer; exhausted = false })
        ≡ buffer ++ aft

  joined :
      (pre mid : List KeyValue) (y : KeyValue) (ys : List KeyValue) (z : KeyValue)
      (aft : List KeyValue)
      → y ∷ ys ≡ mid ++ z ∷ []
      → pre ++ ((y ∷ ys) ++ aft) ≡ (pre ++ mid) ++ z ∷ aft
  joined pre mid y ys z aft q =
      ap (λ l. pre ++ (l ++ aft)) q
      ∙ ap (λ l. pre ++ l) (append_assoc mid (z ∷ []) aft)
      ∙ sym (append_assoc pre mid (z ∷ aft))

  walk-serve :
      (n : ℕ) (ih : Visits n) (c : Option Key) (pre page aft : List KeyValue)
      → all ≡ pre ++ (page ++ aft)
      → (page ≡ [] → aft ≡ [])
      → length (page ++ aft) ≤ n
      → (let r = serve (record { cursor = c; buffer = []; exhausted = false }) page in
          visit r.0 (walk gets_bytes n r.1))
        ≡ page ++ aft
  unfolding serve visit Visits
  walk-serve n ih c pre [] aft e h l = sym (h refl)
  walk-serve n ih c pre (y ∷ ys) aft e h l =
      let (mid, z, q, k) = ends y ys in
      rw k (
        ap (λ xs. y ∷ xs)
          (ih (pre ++ mid) z aft ys (e ∙ joined pre mid y ys z aft q) (omega (arith, l))))

  walk-Visits : (n : ℕ) → Visits n
  unfolding Visits walk next next_from served drop_resumed visit
  walk-Visits zero pre kv aft buffer e l = absurd (omega (arith, l))
  walk-Visits (suc n) pre kv aft (x ∷ buffer) e l =
      ap (λ xs. x ∷ xs) (walk-Visits n pre kv aft buffer e (omega (arith, l)))
  walk-Visits (suc n) pre kv aft [] e l =
      let (rest, q) = take_rest 511 aft in
      rw (page_from 512 pre kv aft e, (key_eq_iff kv.key kv.key).1 refl)
        (walk-serve n (walk-Visits n) (some kv.key) (pre ++ kv ∷ []) (take 511 aft) rest
            (e
              ∙ ap (λ xs. pre ++ kv ∷ xs) q
              ∙ sym (append_assoc pre (kv ∷ []) (take 511 aft ++ rest)))
            (take_rest_empty 510 aft) (omega (arith, l, ap length q))
          ∙ sym q)

  -- A walk from the start visits every entry of the store once and in order, whatever the number of
  -- pages, if it makes a call more than there are entries.
  pub walk_all : (n : ℕ) → length all < n → walk gets_bytes n new ≡ all
  unfolding walk next next_from served drop_resumed visit new
  walk_all zero l = absurd (omega (arith, l))
  walk_all (suc n) l =
      let (rest, q) = take_rest 512 all in
      rw (first_page 512) (
        walk-serve n (walk-Visits n) none [] (take 512 all) rest q (take_rest_empty 511 all)
          (omega (arith, l, ap length q))
        ∙ sym q)
