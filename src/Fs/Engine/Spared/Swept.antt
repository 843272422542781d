-- ===== src/Fs/Engine/Spared/Swept.antt =====
-- fs/gc.rs, sweep_once: a needed file is left alone by the passes over files and over objects.
use rust_api.Fs.Engine.Blind.{objects-Triple}
use rust_api.Fs.Upload.{UploadSession}
use rust_api.Fs.Engine.{on_objects, erase_file, World, on_tables, Rows, announce}
use rust_api.Fs.Engine.Sweep.{
  is_expired, session_keys, listed, age_from, is_complete, is_past, file_keys, sweep_sessions,
  has_key, list_files, values, list_sessions, attempt, sweep_counted, sweep_files, sweep_row,
  sweep_key, sweep_once, counted_key, sweep_told, sweep_bytes, sweep_file, live_keys, sweep_keys,
}
use rust_api.Fs.Engine.Spared.{
  needed_kept, has_key-append, Spared-IsBlind, delete_object-Spared, sweep_sessions-Spared,
  attempt-Spared, has_key-file_keys, Spared-then, Spared, Spared-pure, IsNeeded,
}
use rust_api.Records.{file_delete, WalOp, FileRecord}
use rust_api.Fs.Objects.{ListedKey, IsStorage, S3Client}
use rust_api.Fs.Store.{ref_info, remove_file, RefInfo, ◌>>=◌, pure}
use rust_api.Prelude.Maps.{lookup, lookup-remove}
use rust_api.Prelude.{
  inr, eq_iff, inl, Bool-cases, sym, [], false, subst, ◌+◌, str_eq, true, ◌||◌, none, ◌∷◌, ◌==◌,
  Bool, ◌≡◌, All, some, ◌≢◌, List, Option, not, String, ℤ, refl,
}
use rust_api.Fs.Engine.Ends.{
  Ends-holds, Triple-attempt, Triple-call, Triple-if, Triple-bind, Triple-pure, Triple,
}

module _ {S : Type 0} (s3 : S3Client S) (laws : IsStorage s3) (now : ℤ) (id : String)
    (rec : FileRecord) (info : RefInfo) (needed : IsNeeded now info) where
  open s3 use {holds, delete_object, list_keys}

  abbrev I : Rows → S → Type 0
  I = Spared s3 laws now id rec info needed

  -- Another file has another object.
  abbrev pub IsApart : FileRecord → Type 0
  IsApart f = f.id ≢ id → f.s3_key ≢ rec.s3_key

  pure_ : {A : Type 0} (a : A) → Triple I I (λ a. I) (pure {S = World S} a)
  pure_ a = Spared-pure s3 laws now id rec info needed a

  announce-Spared : (op : WalOp) → Triple I I (λ a. I) (announce op)
  unfolding announce
  announce-Spared op = Triple-call I I (λ a. I) _ (λ r t p. (p, p, p))

  erase_file-Spared : (j : String) → j ≢ id → Triple I I (λ a. I) (erase_file j)
  unfolding erase_file on_tables remove_file ref_info
  erase_file-Spared j n =
      Triple-call I I (λ a. I) _
        (λ r t p.
          let other : str_eq j id ≡ false = elim (Bool-cases (str_eq j id)) [
            | inl e ↦ absurd (n ((eq_iff j id).0 e))
            | inr e ↦ e
          ] in
          let q : I (record r { tables = remove_file j r.tables }) t = (
            rw (lookup-remove j id r.tables.files, other) p.0,
            (rw (lookup-remove j id r.tables.refs, other) p.1.0, p.1.1),
          ) in
          (p, q, q))

  sweep_row-Spared :
      (j : String) (g : Option (Unit {0})) → j ≢ id → Triple I I (λ a. I) (sweep_row j g)
  unfolding sweep_row
  sweep_row-Spared j none n = pure_ 0
  sweep_row-Spared j (some x) n =
      Spared-then s3 laws now id rec info needed _ _ (erase_file-Spared j n) (λ a. pure_ 1)

  sweep_told-Spared :
      (j : String) (g : Option (Unit {0})) → j ≢ id → Triple I I (λ a. I) (sweep_told j g)
  unfolding sweep_told
  sweep_told-Spared j none n = pure_ 0
  sweep_told-Spared j (some x) n =
      Spared-then s3 laws now id rec info needed _ _
        (attempt-Spared s3 laws now id rec info needed I _ (announce-Spared (file_delete j)))
        (λ g. sweep_row-Spared j g n)

  sweep_other :
      (f : FileRecord)
      → f.id ≢ id
      → f.s3_key ≢ rec.s3_key
      → Triple I I
          (λ a. I)
          (do gone ← attempt (on_objects (delete_object f.s3_key)); sweep_told f.id gone)
  sweep_other f n k =
      Spared-then s3 laws now id rec info needed _ _
        (attempt-Spared s3 laws now id rec info needed I _
          (delete_object-Spared s3 laws now id rec info needed f.s3_key k))
        (λ g. sweep_told-Spared f.id g n)

  -- The counts that were read, if they were.
  abbrev Counted : FileRecord → Option RefInfo → Rows → S → Type 0
  Counted f o r t = I r t × ((i : RefInfo) → o ≡ some i → f.id ≡ id → i ≡ info)

  sweep_due :
      (f : FileRecord) (i : RefInfo)
      → (not (i.count == 0) || not (is_past now (age_from i f))) ≡ false
      → IsApart f
      → Triple
          (Counted f (some i))
          I
          (λ a. I)
          (do gone ← attempt (on_objects (delete_object f.s3_key)); sweep_told f.id gone)
  sweep_due f i due apart = record {
    ends = λ w p.
        let n : f.id ≢ id = λ e.
          let same : i ≡ info = p.1 i refl e in
          absurd (cc (needed_kept now i f (subst (IsNeeded now) (sym same) needed))) in
        (sweep_other f n (apart n)).ends w p.0;
  }

  sweep_counted-Spared :
      (f : FileRecord) (o : Option RefInfo)
      → IsApart f
      → Triple (Counted f o) I (λ a. I) (sweep_counted s3 now f o)
  unfolding sweep_counted
  sweep_counted-Spared f none apart = Triple-pure I (Counted f none) (λ a. I) 0 (λ r t p. p.0)
  sweep_counted-Spared f (some i) apart =
      Triple-if I (Counted f (some i)) (λ a. I)
        (not (i.count == 0) || not (is_past now (age_from i f))) _ _
        (λ e. Triple-pure I (Counted f (some i)) (λ a. I) 0 (λ r t p. p.0))
        (λ e. sweep_due f i e apart)

  read_count :
      (f : FileRecord)
      → Triple I I (λ o. Counted f o) (attempt (on_tables (λ t. (ref_info f.id t, t))))
  unfolding on_tables
  read_count f =
      Triple-attempt I I (λ i r t. I r t × (f.id ≡ id → i ≡ info)) (λ o. Counted f o) _
        (Triple-call I I (λ i r t. I r t × (f.id ≡ id → i ≡ info)) _
          (λ r t p. (p, p, (p, λ e. subst (λ j. ref_info j r.tables ≡ info) (sym e) p.1.0))))
        (λ r t p. (p, λ i e. absurd (cc)))
        (λ i r t p. (p.0, λ j e x. let same : i ≡ j = cc in subst (λ y. y ≡ info) same (p.1 x)))

  sweep_file-Spared : (f : FileRecord) → IsApart f → Triple I I (λ a. I) (sweep_file s3 now f)
  unfolding sweep_file
  sweep_file-Spared f apart =
      Triple-bind I I (λ o. Counted f o) (λ a. I) _ _ (read_count f)
        (λ o. sweep_counted-Spared f o apart)

  sweep_files-Spared :
      (fs : List FileRecord) → All IsApart fs → Triple I I (λ a. I) (sweep_files s3 now fs)
  unfolding sweep_files
  sweep_files-Spared [] h = pure_ 0
  sweep_files-Spared (f ∷ fs) h =
      Spared-then s3 laws now id rec info needed _ _ (sweep_file-Spared f h.0) (λ n.
        Spared-then s3 laws now id rec info needed _ _ (sweep_files-Spared fs h.1)
          (λ m. pure_ (n + m)))

  counted_key-Spared : (g : Option (Unit {0})) → Triple I I (λ a. I) (counted_key {S = S} g)
  unfolding counted_key
  counted_key-Spared none = pure_ 0
  counted_key-Spared (some x) = pure_ 1

  sweep_key-Spared :
      (live : List String) (e : ListedKey)
      → has_key rec.s3_key live ≡ true
      → Triple I I (λ a. I) (sweep_key s3 now live e)
  unfolding sweep_key
  sweep_key-Spared live e h =
      Triple-if I I (λ a. I) (has_key e.key live || not (is_past now e.last_modified)) _ _
        (λ x. pure_ 0)
        (λ x.
          Spared-then s3 laws now id rec info needed _ _
            (attempt-Spared s3 laws now id rec info needed I _ (
              delete_object-Spared s3 laws now id rec info needed e.key
                (λ same. absurd (cc (subst (λ k. has_key k live ≡ true) (sym same) h)))))
            (λ g. counted_key-Spared g))

  sweep_keys-Spared :
      (live : List String) (es : List ListedKey)
      → has_key rec.s3_key live ≡ true
      → Triple I I (λ a. I) (sweep_keys s3 now live es)
  unfolding sweep_keys
  sweep_keys-Spared live [] h = pure_ 0
  sweep_keys-Spared live (e ∷ es) h =
      Spared-then s3 laws now id rec info needed _ _ (sweep_key-Spared live e h) (λ n.
        Spared-then s3 laws now id rec info needed _ _ (sweep_keys-Spared live es h)
          (λ m. pure_ (n + m)))

  sweep_bytes-Spared :
      (complete : Bool) (live : List String)
      → has_key rec.s3_key live ≡ true
      → Triple I I (λ a. I) (sweep_bytes s3 now complete live)
  unfolding sweep_bytes
  sweep_bytes-Spared complete live h =
      Triple-if I I (λ a. I) (not complete) _ _ (λ e. pure_ 0)
        (λ e.
          Spared-then s3 laws now id rec info needed _ _
            (attempt-Spared s3 laws now id rec info needed I _ (
              objects-Triple s3 laws I (Spared-IsBlind s3 laws now id rec info needed)
                (list_keys "files/") (λ t. laws.list_keeps "files/" t)))
            (λ found. sweep_keys-Spared live (listed found) h))

  -- At the start, other files have other objects.
  abbrev Start : Rows → S → Type 0
  Start r t = I r t × All IsApart (values r.tables.files)

  abbrev Listed : List FileRecord × List String → Rows → S → Type 0
  Listed fs r t = I r t × (All IsApart fs.0 × (has_key rec.s3_key (file_keys fs.0) ≡ true))

  sweep-Listed :
      (ss : List UploadSession × List String) (fs : List FileRecord × List String)
      → Triple
          (Listed fs)
          I
          (λ a. I)
          (do
            a ← sweep_sessions s3 now ss.0
            b ← sweep_files s3 now fs.0
            c ← sweep_bytes s3 now (is_complete ss.1 fs.1) (live_keys ss.0 fs.0)
            pure (a + b + c))
  unfolding live_keys
  sweep-Listed ss fs = record {
    ends = λ w p.
        (Spared-then s3 laws now id rec info needed _ _
            (sweep_sessions-Spared s3 laws now id rec info needed ss.0)
            (λ a.
              Spared-then s3 laws now id rec info needed _ _ (sweep_files-Spared fs.0 p.1.0) (λ b.
                Spared-then s3 laws now id rec info needed _ _
                  (sweep_bytes-Spared (is_complete ss.1 fs.1) (live_keys ss.0 fs.0)
                    (has_key-append rec.s3_key (session_keys ss.0) (file_keys fs.0) p.1.1))
                  (λ c. pure_ (a + b + c))))).ends
          w p.0;
  }

  sweep_once-Spared : Triple Start I (λ a. I) (sweep_once s3 now)
  unfolding sweep_once list_sessions list_files
  sweep_once-Spared =
      Triple-bind I Start (λ ss. Start) (λ a. I) _ _
        (Triple-call I Start (λ ss. Start) _ (λ r t p. (p.0, p.0, p)))
        (λ ss.
          Triple-bind I Start Listed (λ a. I) _ _
            (Triple-call I Start Listed _
              (λ r t p. (p.0, p.0, (p.0, (p.1, has_key-file_keys id rec r.tables.files p.0.0)))))
            (sweep-Listed ss))

  -- Whatever fails, a sweep leaves a file alone that is there and needed, its count and its object, if no
  -- expired session has the object's key and every other file has another.
  pub sweep_once-spares :
      (w : World S)
      → lookup id w.rows.tables.files ≡ some rec
      → ref_info id w.rows.tables ≡ info
      → holds rec.s3_key w.objects ≡ true
      → ((j : String) (s : UploadSession)
          → lookup j w.rows.sessions ≡ some s
          → is_expired now s ≡ true
          → s.s3_key ≢ rec.s3_key)
      → All IsApart (values w.rows.tables.files)
      → (lookup id (sweep_once s3 now w).1.rows.tables.files ≡ some rec)
        × (ref_info id (sweep_once s3 now w).1.rows.tables ≡ info)
        × (holds rec.s3_key (sweep_once s3 now w).1.objects ≡ true)
  sweep_once-spares w f i h e apart =
      let end_ =
        Ends-holds I (λ a. I) (sweep_once s3 now w) (λ a r t q. q)
          (sweep_once-Spared.ends w ((f, (i, (h, e))), apart)) in
      (end_.0, end_.1.0, end_.1.1.0)
