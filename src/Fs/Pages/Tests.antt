-- ===== src/Fs/Pages/Tests.antt =====
-- A walk over a store of two entries.
use rust_api.Prelude.{
  ℕ, ◌≡◌, refl, Option, none, some, List, [], ◌∷◌, ◌++◌, arith, if◌then◌else◌, take,
}
use rust_api.Fs.{Result, ok}
use rust_api.Sync.Keys.{Key, key_eq}
use rust_api.Sync.Merge.{KeyValue}
use rust_api.Fs.Pages.{walk, new, walk_all}

abbrev one : KeyValue
one = record { key = b'a' ∷ []; value = 1 ∷ [] }

-- The entries from a key on.
from : Key → List KeyValue → List KeyValue
from k [] = []
from k (kv ∷ kvs) = if key_eq kv.key k then kv ∷ kvs else from k kvs

gets : ℕ → Option Key → Result (List KeyValue)
gets n none = ok (take n (one ∷ []))
gets n (some k) = ok (take n (from k (one ∷ [])))

page_from :
    (n : ℕ) (pre : List KeyValue) (kv : KeyValue) (aft : List KeyValue)
    → one ∷ [] ≡ pre ++ kv ∷ aft
    → gets n (some kv.key) ≡ ok (take n (kv ∷ aft))
unfolding gets from key_eq
page_from n [] kv aft e =
    let same : one ≡ kv = cc in let none_after : [] ≡ aft = cc in rw (← same, ← none_after) refl
page_from n (x ∷ []) kv aft e = absurd (cc)
page_from n (x ∷ y ∷ pre) kv aft e = absurd (cc)

walk_all_example : walk gets 2 new ≡ one ∷ []
unfolding gets
walk_all_example = walk_all gets (one ∷ []) (λ n. refl) page_from 2 (omega arith)
