-- ===== src/Fs/Store/Cut.antt =====
-- fs/store.rs, rows_for_file: a row whose id has a colon.
use rust_api.Fs.Store.Refs.{rows_of-has_rel}
use rust_api.Prelude.Texts.{after_colon-append, before_colon-append, has_colon}
use Prim.Native.String.{◌++◌ as ◌++ˢ◌}
use rust_api.Fs.Store.{
  rel_key, Tables, rows_of, add_marker, transact_with, transact, read, rows_for_file, attach, ◌>>◌,
}
use rust_api.Prelude.{eq_iff, false, ◌≡◌, String, [], ◌∷◌, refl}
use rust_api.Fs.{ok}

-- A file without rows that is attached to a row whose id has a colon is listed with another row, the one
-- whose id ends at that colon, when no call fails and no colon is in the row's type.
pub attach-rows_for_file :
    (ty r s f : String) (t : Tables)
    → has_colon ty ≡ false
    → has_colon r ≡ false
    → rows_of f t.rels ≡ []
    → ((do attach ty (r ++ˢ (":" ++ˢ s)) f; rows_for_file f) (record { tables = t; faults = [] })).0
      ≡ ok ((ty, r) ∷ [])
unfolding attach rows_for_file read transact transact_with add_marker rows_of
attach-rows_for_file ty r s f t plain_ty plain_id bare =
    let id = r ++ˢ (":" ++ˢ s) in
    let new = rows_of-has_rel (rel_key ty id f).0 (rel_key ty id f).1 f t.rels bare in
    rw
      (
        new,
        (eq_iff f f).1 refl,
        before_colon-append ty id plain_ty,
        after_colon-append ty id plain_ty,
        before_colon-append r s plain_id,
        bare,
      )
      refl
