-- ===== src/Sync/Merge/Tests.antt =====
-- Runs of the merge join of sync/snapshot.rs on small stores.
use rust_api.Sync.Merge.Lost.{merge_loses, merge_leaks}
use rust_api.Sync.Keys.{cmp_lt_ne, cmp}
use rust_api.Sync.Merge.{delete, find, commit, stage, merge, KeyValue}
use rust_api.Prelude.{◌≡◌, refl, sym, none, some, [], ◌∷◌}

abbrev row_a : KeyValue
row_a = record { key = b'a' ∷ []; value = 1 ∷ [] }

abbrev row_b : KeyValue
row_b = record { key = b'b' ∷ []; value = 2 ∷ [] }

abbrev row_c : KeyValue
row_c = record { key = b'c' ∷ []; value = 4 ∷ [] }

-- The live replica has `a`, which is desired no longer; the desired `b` is lost with it.
merge_revoked : merge (row_b ∷ []) (row_a ∷ []) ≡ delete row_a.key ∷ []
unfolding merge stage cmp
merge_revoked = refl

merge_loses_example :
    commit (merge (row_b ∷ row_c ∷ []) (row_a ∷ row_b ∷ [])) (find (row_a ∷ row_b ∷ [])) row_b.key
    ≡ none
unfolding cmp
merge_loses_example =
    merge_loses row_b row_a (row_c ∷ []) (row_b ∷ []) ((refl, tt), (tt, tt)) ((refl, tt), (tt, tt))
      refl

merge_leaks_example :
    commit (merge (row_a ∷ row_c ∷ []) (row_b ∷ [])) (find (row_b ∷ [])) row_b.key
    ≡ some row_b.value
unfolding cmp
merge_leaks_example =
    merge_leaks row_a row_b (row_c ∷ []) [] ((refl, tt), (tt, tt)) (tt, tt) refl
      (cmp_lt_ne _ _ refl, ((λ e. cmp_lt_ne row_b.key row_c.key refl (sym e)), tt))
