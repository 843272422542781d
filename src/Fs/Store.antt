-- ===== src/Fs/Store.antt =====
-- fs/store.rs and fs/relation.rs: the file records, the relations of files to rows and their
-- reference counts, kept in a key-value store whose calls may fail.
pub mod Calls
pub mod Refs
pub mod Runs
pub mod Agreed
pub mod Cut
mod Tests
use rust_api.Prelude.{
  saturating_add_u32, ℕ, zero, suc, ◌+◌, ◌-◌, ◌*◌, ◌/◌, ◌%◌, ◌^◌, ◌≤◌, ◌<◌, String, ◌≡◌, refl, sym,
  ap, ◌∙◌, subst, ◌≢◌, ◌↔◌, ◌⊎◌, inl, inr, Bool, true, false, not, ◌&&◌, ◌||◌, Option, none, some,
  List, [], ◌∷◌, ◌++◌, map, arith, str_eq, eq_iff, ltb, leb, ◌==◌, if◌then◌else◌, Bool-cases,
  Option-cases, length, take, All, count, ℤ, pos, negsuc, ltb_ℤ, leb_ℤ, ◌≤ℤ◌, ◌<ℤ◌, ◌-ℤ◌,
}
use Prim.Native.String.{◌++◌ as ◌++ˢ◌}
use rust_api.Prelude.Texts.{before_colon, after_colon}
use rust_api.Prelude.Maps.{Dict, lookup, put, remove}
use rust_api.Fs.{Result, ok, err, FsError}
use rust_api.Fs.Access.{Row}
use rust_api.Records.{FileRecord}

pub record RefInfo : Type 0 where
  pub count : ℕ
  pub orphan_since : Option ℤ

-- The key of a relation marker, `fs:rel:{type}:{id}:{file}`: what is before its first colon, what
-- follows, and the file's id. A file's id is a UUID that the service makes, without a colon; so a key has
-- it after its last colon, and two keys are the same only if the three parts are. A row's type and id are
-- a caller's and may hold colons.
abbrev pub Rel : Type 0
Rel = String × String × String

-- What is committed, key family by key family: `fs:files:…:meta`, `fs:rel:…`, `fs:files:…:refs` and,
-- in a replica, `sync:applied`. Values decode. `rels` is a set of keys, in an order of no meaning.
pub record Tables : Type 0 where
  pub files : Dict FileRecord
  pub rels : List Rel
  pub refs : Dict RefInfo
  pub applied : Option ℕ

-- What the store makes of a call: it passes, it fails with nothing done, or it is done but its answer
-- is lost.
pub data Fault : Type 0 where
  passes : Fault
  fails lost : FsError → Fault

-- A store, and what it will make of the next calls; after these all calls pass.
pub record Disk : Type 0 where
  pub tables : Tables
  pub faults : List Fault

abbrev pub M {ℓ} : Type ℓ → Type ℓ
M A = Disk → Result A × Disk

-- The operators of any state that calls change.
module _ {ℓ κ ι} {S : Type ι} {A : Type ℓ} {B : Type κ} where
  abbrev pub resume : (A → S → Result B × S) → Result A × S → Result B × S
  resume f (ok a, s) = f a s
  resume f (err e, s) = (err e, s)

  infixl 5 ◌>>=◌ ◌>>◌
  abbrev pub ◌>>=◌ : (S → Result A × S) → (A → S → Result B × S) → S → Result B × S
  ◌>>=◌ m f s = resume f (m s)

  abbrev pub ◌>>◌ : (S → Result A × S) → (S → Result B × S) → S → Result B × S
  ◌>>◌ m k s = resume (λ _. k) (m s)

abbrev pub pure {ℓ κ} : {A : Type ℓ} {S : Type κ} → A → S → Result A × S
pure a s = (ok a, s)

-- A transaction under the lock: where any call of it fails, it is rolled back as a whole.
unfoldable pub transact_with {ℓ} :
    {A : Type ℓ} → (Tables → A × Tables) → List Fault → Tables → Result A × Disk
transact_with g [] t = let (a, t') = g t in (ok a, record { tables = t'; faults = [] })
transact_with g (passes ∷ fs) t = let (a, t') = g t in (ok a, record { tables = t'; faults = fs })
transact_with g (fails e ∷ fs) t = (err e, record { tables = t; faults = fs })
transact_with g (lost e ∷ fs) t = let (a, t') = g t in (err e, record { tables = t'; faults = fs })

unfoldable pub transact {ℓ} : {A : Type ℓ} → (Tables → A × Tables) → M A
unfolding transact_with
transact g d = transact_with g d.faults d.tables

unfoldable pub read {ℓ} : {A : Type ℓ} → (Tables → A) → M A
unfolding transact
read f = transact (λ t. (f t, t))

unfoldable pub write : (Tables → Tables) → M (Unit {0})
unfolding transact
write g = transact (λ t. (tt, g t))

-- `rel_key`
abbrev pub rel_key : String → String → String → Rel
rel_key row_type row_id file_id = (
  before_colon (row_type ++ˢ (":" ++ˢ row_id)),
  after_colon (row_type ++ˢ (":" ++ˢ row_id)),
  file_id,
)

unfoldable pub same_rel : Rel → Rel → Bool
same_rel (a, b, c) (x, y, z) = str_eq a x && (str_eq b y && str_eq c z)

unfoldable pub has_rel : Rel → List Rel → Bool
unfolding same_rel
has_rel r [] = false
has_rel r (x ∷ xs) = same_rel x r || has_rel r xs

-- A key is there at most once.
unfoldable pub delete_rel : Rel → List Rel → List Rel
unfolding same_rel
delete_rel r [] = []
delete_rel r (x ∷ xs) = if same_rel x r then xs else x ∷ delete_rel r xs

unfoldable pub or_default : Option RefInfo → RefInfo
or_default none = record { count = 0; orphan_since = none }
or_default (some i) = i

-- `read_ref_info` and `get_ref_info`: an absent entry means "never attached".
unfoldable pub ref_info : String → Tables → RefInfo
unfolding or_default lookup
ref_info file_id t = or_default (lookup file_id t.refs)

unfoldable pub get_ref_info : String → M RefInfo
unfolding ref_info read
get_ref_info file_id = read (ref_info file_id)

unfoldable pub get_file : String → M (Option FileRecord)
unfolding read lookup
get_file id = read (λ t. lookup id t.files)

unfoldable pub put_file : FileRecord → Tables → Tables
unfolding put
put_file rec t = record t { files = put rec.id rec t.files }

unfoldable pub save_file : FileRecord → M (Unit {0})
unfolding put_file write
save_file rec = write (put_file rec)

-- Every marker whose key ends in the file's id goes too.
unfoldable pub drop_rels : String → List Rel → List Rel
drop_rels id [] = []
drop_rels id ((ty, rid, f) ∷ rels) =
    let rest = drop_rels id rels in if str_eq f id then rest else (ty, rid, f) ∷ rest

unfoldable pub remove_file : String → Tables → Tables
unfolding drop_rels remove
remove_file id t = record t {
  files = remove id t.files;
  rels = drop_rels id t.rels;
  refs = remove id t.refs;
}

unfoldable pub delete_file : String → M (Unit {0})
unfolding remove_file write
delete_file id = write (remove_file id)

attached : RefInfo → RefInfo
attached i = record { count = saturating_add_u32 i.count 1; orphan_since = none }

unfoldable pub add_marker : Rel → Tables → ℕ × Tables
unfolding has_rel ref_info attached put
add_marker (ty, rid, f) t = if has_rel (ty, rid, f) t.rels then ((ref_info f t).count, t) else (
  (attached (ref_info f t)).count,
  record t { rels = (ty, rid, f) ∷ t.rels; refs = put f (attached (ref_info f t)) t.refs },
)

-- `attach`: the count after it.
unfoldable pub attach : String → String → String → M ℕ
unfolding add_marker transact
attach row_type row_id file_id = transact (add_marker (rel_key row_type row_id file_id))

detached : ℤ → RefInfo → RefInfo
detached now i = record {
  count = i.count - 1;
  orphan_since = if i.count - 1 == 0 then some now else i.orphan_since;
}

unfoldable pub remove_marker : ℤ → Rel → Tables → ℕ × Tables
unfolding has_rel delete_rel ref_info detached put
remove_marker now (ty, rid, f) t =
    if has_rel (ty, rid, f) t.rels
    then (
      (detached now (ref_info f t)).count,
      record t {
        rels = delete_rel (ty, rid, f) t.rels;
        refs = put f (detached now (ref_info f t)) t.refs;
      },
    )
    else ((ref_info f t).count, t)

unfoldable pub detach : ℤ → String → String → String → M ℕ
unfolding remove_marker transact
detach now row_type row_id file_id = transact (remove_marker now (rel_key row_type row_id file_id))

-- A row is read back from a key: its id ends at the next colon.
unfoldable pub rows_of : String → List Rel → List Row
unfolding before_colon
rows_of id [] = []
rows_of id ((ty, rid, f) ∷ rels) =
    let rest = rows_of id rels in if str_eq f id then (ty, before_colon rid) ∷ rest else rest

unfoldable pub rows_for_file : String → M (List Row)
unfolding rows_of read
rows_for_file id = read (λ t. rows_of id t.rels)

-- The files of the row with this type and id in a key: what follows the prefix of the row is without a
-- colon, and so all of the file's id, only if the parts before are the row's.
unfoldable pub files_of : String → String → List Rel → List String
files_of ty rid [] = []
files_of ty rid ((a, b, f) ∷ rels) =
    let rest = files_of ty rid rels in if str_eq a ty && str_eq b rid then f ∷ rest else rest

-- Each file once, since a key is there at most once.
unfoldable pub files_for_row : String → String → M (List String)
unfolding files_of read
files_for_row row_type row_id =
    read (λ t. files_of (rel_key row_type row_id "").0 (rel_key row_type row_id "").1 t.rels)
