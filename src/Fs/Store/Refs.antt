-- ===== src/Fs/Store/Refs.antt =====
-- fs/store.rs: the reference counts agree with the relation markers, whatever calls fail.
use rust_api.Prelude.{
  saturating_add_u32, ℕ, ◌+◌, ◌^◌, ◌≤◌, ◌<◌, String, ◌≡◌, refl, ◌⊎◌, inl, inr, true, false, none,
  List, [], ◌∷◌, arith, str_eq, eq_iff, if◌then◌else◌, Bool-cases, length, ℤ,
}
use rust_api.Prelude.Maps.{put, lookup-put, lookup-remove}
use rust_api.Fs.Store.{
  rows_of, RefInfo, Rel, Tables, same_rel, has_rel, delete_rel, ref_info, or_default, drop_rels,
  remove_file, attached, detached, add_marker, remove_marker,
}

-- How many markers a file has.
unfoldable pub markers : String → List Rel → ℕ
markers f [] = 0
markers f ((ty, rid, g) ∷ rels) = (if str_eq g f then 1 else 0) + markers f rels

-- No marker is there twice.
abbrev pub IsOnce : List Rel → Type 0
IsOnce [] = Unit {0}
IsOnce (r ∷ rels) = (has_rel r rels ≡ false) × IsOnce rels

-- A file's count is the number of its markers, and only a file without any has an orphan time.
abbrev pub Agrees : String → Tables → Type 0
Agrees f t =
    ((ref_info f t).count ≡ markers f t.rels)
    × (((ref_info f t).orphan_since ≡ none) ⊎ ((ref_info f t).count ≡ 0))

pub record IsCounted (t : Tables) : Type 0 where
  pub once : IsOnce t.rels
  pub agrees : (f : String) → Agrees f t

pub same_rel_refl : (r : Rel) → same_rel r r ≡ true
unfolding same_rel
same_rel_refl (a, b, c) = ground (arith, eq_iff a a, eq_iff b b, eq_iff c c)

pub same_rel→eq : (r x : Rel) → same_rel r x ≡ true → r ≡ x
unfolding same_rel
same_rel→eq (a, b, c) (x, y, z) h = ground (arith, eq_iff a x, eq_iff b y, eq_iff c z)

markers-delete_rel :
    (f ty rid g : String) (rels : List Rel)
    → has_rel (ty, rid, g) rels ≡ true
    → markers f (delete_rel (ty, rid, g) rels) + (if str_eq g f then 1 else 0) ≡ markers f rels
unfolding markers delete_rel has_rel same_rel
markers-delete_rel f ty rid g [] h = absurd (cc)
markers-delete_rel f ty rid g ((a, b, c) ∷ rels) h = ground (
  arith,
  eq_iff a ty,
  eq_iff b rid,
  eq_iff c g,
  eq_iff c f,
  eq_iff g f,
  markers-delete_rel f ty rid g rels,
)

markers-drop_rels :
    (f id : String) (rels : List Rel)
    → markers f (drop_rels id rels) ≡ (if str_eq id f then 0 else markers f rels)
unfolding markers drop_rels
markers-drop_rels f id [] = ground arith
markers-drop_rels f id ((a, b, c) ∷ rels) =
    ground (arith, eq_iff c id, eq_iff c f, eq_iff id f, markers-drop_rels f id rels)

pub has_rel-delete_rel :
    (x r : Rel) (rels : List Rel) → has_rel x rels ≡ false → has_rel x (delete_rel r rels) ≡ false
unfolding has_rel delete_rel
has_rel-delete_rel x r [] h = refl
has_rel-delete_rel x r (y ∷ rels) h = ground (arith, has_rel-delete_rel x r rels)

pub delete_rel-IsOnce : (r : Rel) (rels : List Rel) → IsOnce rels → IsOnce (delete_rel r rels)
unfolding delete_rel
delete_rel-IsOnce r [] h = tt
delete_rel-IsOnce r (y ∷ rels) h = elim (Bool-cases (same_rel y r)) [
  | inl e ↦ rw e h.1
  | inr e ↦ rw e (has_rel-delete_rel y r rels h.0, delete_rel-IsOnce r rels h.1)
]

pub has_rel-drop_rels :
    (x : Rel) (id : String) (rels : List Rel)
    → has_rel x rels ≡ false
    → has_rel x (drop_rels id rels) ≡ false
unfolding has_rel drop_rels
has_rel-drop_rels x id [] h = refl
has_rel-drop_rels x id ((a, b, c) ∷ rels) h = ground (arith, has_rel-drop_rels x id rels)

drop_rels-IsOnce : (id : String) (rels : List Rel) → IsOnce rels → IsOnce (drop_rels id rels)
unfolding drop_rels
drop_rels-IsOnce id [] h = tt
drop_rels-IsOnce id ((a, b, c) ∷ rels) h = elim (Bool-cases (str_eq c id)) [
  | inl e ↦ rw e (drop_rels-IsOnce id rels h.1)
  | inr e ↦ rw e (has_rel-drop_rels (a, b, c) id rels h.0, drop_rels-IsOnce id rels h.1)
]

pub remove_file-IsCounted : (id : String) (t : Tables) → IsCounted t → IsCounted (remove_file id t)
unfolding remove_file ref_info or_default
remove_file-IsCounted id t h = record {
  once = drop_rels-IsOnce id t.rels h.once;
  agrees = λ f.
      ground
        (arith, eq_iff id f, h.agrees f, lookup-remove id f t.refs, markers-drop_rels f id t.rels);
}

markers-add :
    (ty rid g f : String) (rels : List Rel)
    → markers f ((ty, rid, g) ∷ rels) ≡ (if str_eq g f then 1 else 0) + markers f rels
unfolding markers
markers-add ty rid g f rels = refl

ref_info-put :
    (g f : String) (i : RefInfo) (t : Tables) (rels : List Rel)
    → ref_info f (record t { rels = rels; refs = put g i t.refs })
      ≡ (if str_eq g f then i else ref_info f t)
unfolding ref_info or_default
ref_info-put g f i t rels = elim (Bool-cases (str_eq g f)) [
  | inl e ↦ rw (lookup-put g f i t.refs, e) refl
  | inr e ↦ rw (lookup-put g f i t.refs, e) refl
]

pub add_marker-Agrees :
    (ty rid g f : String) (t : Tables)
    → Agrees f t
    → markers f t.rels + 1 < 2 ^ 32
    → Agrees f (add_marker (ty, rid, g) t).1
unfolding add_marker attached saturating_add_u32
add_marker-Agrees ty rid g f t a b = elim (Bool-cases (has_rel (ty, rid, g) t.rels)) [
  | inl e ↦ rw e a
  | inr e ↦
      rw
        (
          e,
          ref_info-put g f (attached (ref_info g t)) t ((ty, rid, g) ∷ t.rels),
          markers-add ty rid g f t.rels,
        )
        ground (arith, eq_iff g f, a)
]

pub remove_marker-Agrees :
    (now : ℤ) (ty rid g f : String) (t : Tables)
    → Agrees f t
    → Agrees f (remove_marker now (ty, rid, g) t).1
unfolding remove_marker detached
remove_marker-Agrees now ty rid g f t a = elim (Bool-cases (has_rel (ty, rid, g) t.rels)) [
  | inr e ↦ rw e a
  | inl e ↦
      let m = markers-delete_rel f ty rid g t.rels e in
      rw (e, ref_info-put g f (detached now (ref_info g t)) t (delete_rel (ty, rid, g) t.rels))
        ground (arith, eq_iff g f, a, m)
]

pub markers-rows : (f : String) (rels : List Rel) → length (rows_of f rels) ≡ markers f rels
unfolding markers rows_of
markers-rows f [] = refl
markers-rows f ((a, b, c) ∷ rels) = ground (arith, markers-rows f rels)

pub markers-length : (f : String) (rels : List Rel) → markers f rels ≤ length rels
unfolding markers
markers-length f [] = ground arith
markers-length f ((a, b, c) ∷ rels) = ground (arith, markers-length f rels)

pub delete_rel-length : (r : Rel) (rels : List Rel) → length (delete_rel r rels) ≤ length rels
unfolding delete_rel
delete_rel-length r [] = ground arith
delete_rel-length r (x ∷ rels) = ground (arith, delete_rel-length r rels)

pub drop_rels-length : (id : String) (rels : List Rel) → length (drop_rels id rels) ≤ length rels
unfolding drop_rels
drop_rels-length id [] = ground arith
drop_rels-length id ((a, b, c) ∷ rels) = ground (arith, drop_rels-length id rels)

-- A file without rows has no marker.
pub rows_of-has_rel :
    (x y z : String) (rels : List Rel) → rows_of z rels ≡ [] → has_rel (x, y, z) rels ≡ false
unfolding has_rel same_rel rows_of
rows_of-has_rel x y z [] e = refl
rows_of-has_rel x y z ((a, b, c) ∷ rels) e = elim (Bool-cases (str_eq c z)) [
  | inl q ↦ absurd (let e' = rw q at e in cc)
  | inr q ↦ let k = rows_of-has_rel x y z rels (rw q at e) in ground (arith, k)
]
