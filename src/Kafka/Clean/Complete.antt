-- ===== src/Kafka/Clean/Complete.antt =====
-- What a cleaning promises where it reports no error, and the attribute that it clears.
use mathlib.Core.Path.{subst}
use mongoctl.Prelude.{
  ◌%◌, ◌==◌, pure, ℕ, ◌-◌, List, [], ◌∷◌, ◌++◌, ◌≡◌, refl, sym, ap, ◌∙◌, arith, Option, none, some,
  Bool, true, false, Bytes, if◌then◌else◌, Outcome, ok, err, panic, Error, append-nil, ◌⊎◌, ◌≢◌,
  ◌/◌, All, inl, inr, Bool-cases, ==_iff,
}
use mongoctl.Kafka.Clean.{
  Entry, FileSystem, is_deleted_name, Cleaning, removed, keep_first, writable, visit_file, visit,
  visit_all, cleaned, walked, clean_kraft_deleted_files, clear_read_only_windows, is_target,
}
use mongoctl.Kafka.Clean.Deleted.{appended}

-- The paths of the files to delete, in the order of the walk.
unfoldable pub all_targets : List Entry → List Bytes
unfolding is_target
all_targets [] = []
all_targets (d ∷ ds) = let rest = all_targets ds in if is_target d then d.path ∷ rest else rest

module _ {W : Type 0} (f : FileSystem W)
    (sure : (path : Bytes) (w : W) → (f.remove path w).0 ≢ panic) where
  -- An entry is visited without an error.
  record IsClear (c : Cleaning W) (d : Entry) (c' : Cleaning W) : Type 0 where
    was_clear : c.first_err ≡ none
    read : d.walk_err ≡ none
    added : c'.deleted ≡ (if is_target d then c.deleted ++ (d.path ∷ []) else c.deleted)

  keep_first-none : (o : Option Error) (e : Error) → keep_first o e ≢ none
  keep_first-none none e = cc
  keep_first-none (some x) e = cc

  removed-unreported :
      (path : Bytes) (x : Outcome (Unit {0}) × W) (c : Cleaning W)
      → x.0 ≢ panic
      → (removed path x c).first_err ≡ none
      → (c.first_err ≡ none) × ((removed path x c).deleted ≡ c.deleted ++ (path ∷ []))
  removed-unreported path (ok _, w) c n h = (h, refl)
  removed-unreported path (err e, w) c n h = absurd (keep_first-none c.first_err e h)
  removed-unreported path (panic, w) c n h = absurd (n refl)

  passed :
      (d : Entry) (c : Cleaning W)
      → (d.is_dir ≡ true) ⊎ (is_deleted_name d.name ≡ false)
      → (visit_file f d c ≡ c) × (is_target d ≡ false)
  unfolding visit_file is_target
  passed d c (inl dir) = (rw dir refl, ground (arith, dir))
  passed d c (inr kept) = (rw kept (if_same d.is_dir), ground (arith, kept))
    where
      if_same : (b : Bool) → (if b then c else c) ≡ c
      if_same true = refl
      if_same false = refl

  taken :
      (d : Entry) (c : Cleaning W)
      → d.walk_err ≡ none
      → d.is_dir ≡ false
      → is_deleted_name d.name ≡ true
      → (visit_file f d c ≡ removed d.path (f.remove d.path (writable f d.path c.world)) c)
        × (is_target d ≡ true)
  unfolding visit_file is_target
  taken d c same file gone = (rw (file, gone) refl, rw (same, file, gone) refl)

  passed-IsClear :
      (d : Entry) (c : Cleaning W)
      → d.walk_err ≡ none
      → (visit_file f d c).first_err ≡ none
      → (d.is_dir ≡ true) ⊎ (is_deleted_name d.name ≡ false)
      → IsClear c d (visit_file f d c)
  passed-IsClear d c same h out =
      let (stays, off) = passed d c out in
      record {
        was_clear = sym (ap (λ (k : Cleaning W). k.first_err) stays) ∙ h;
        read = same;
        added = rw off (ap (λ (k : Cleaning W). k.deleted) stays);
      }

  taken-IsClear :
      (d : Entry) (c : Cleaning W)
      → d.walk_err ≡ none
      → (visit_file f d c).first_err ≡ none
      → d.is_dir ≡ false
      → is_deleted_name d.name ≡ true
      → IsClear c d (visit_file f d c)
  taken-IsClear d c same h file gone =
      let v = writable f d.path c.world in
      let (goes, on) = taken d c same file gone in
      let (clear, paths) =
        removed-unreported d.path (f.remove d.path v) c (sure d.path v)
          (sym (ap (λ (k : Cleaning W). k.first_err) goes) ∙ h) in
      record {
        was_clear = clear;
        read = same;
        added = rw on (ap (λ (k : Cleaning W). k.deleted) goes ∙ paths);
      }

  visit-IsClear :
      (o : Option Error) (d : Entry) (c : Cleaning W)
      → d.walk_err ≡ o
      → (visit f o d c).first_err ≡ none
      → IsClear c d (visit f o d c)
  unfolding visit
  visit-IsClear (some e) d c same h = absurd (keep_first-none c.first_err e h)
  visit-IsClear none d c same h = elim (Bool-cases d.is_dir) [
    | inl dir ↦ passed-IsClear d c same h (inl dir)
    | inr file ↦ elim (Bool-cases (is_deleted_name d.name)) [
      | inl gone ↦ taken-IsClear d c same h file gone
      | inr kept ↦ passed-IsClear d c same h (inr kept)
    ]
  ]

  visit_all-unreported :
      (ds : List Entry) (c : Cleaning W)
      → (visit_all f ds c).first_err ≡ none
      → (c.first_err ≡ none)
        × All (λ (d : Entry). d.walk_err ≡ none) ds
        × ((visit_all f ds c).deleted ≡ c.deleted ++ all_targets ds)
  unfolding visit_all all_targets
  visit_all-unreported [] c h = (h, tt, sym (append-nil c.deleted))
  visit_all-unreported (d ∷ ds) c h =
      let (clear, readable, same) = visit_all-unreported ds (visit f d.walk_err d c) h in
      let v = visit-IsClear d.walk_err d c refl clear in
      (
        v.was_clear,
        (v.read, readable),
        same
            ∙ ap (λ l. l ++ all_targets ds) v.added
            ∙ appended (is_target d) c.deleted d.path (all_targets ds),
      )

  -- A cleaning that reports no error has read every entry of the walk, and the paths that it gives
  -- back are those of the targets, where no removal panics.
  pub unreported_targets :
      (meta_dir : Bytes) (w w1 w2 : W) (ds : List Entry)
      → f.stat meta_dir w ≡ (ok true, w1)
      → f.walk meta_dir w1 ≡ (ds, w2)
      → (clean_kraft_deleted_files f meta_dir w).0.1 ≡ none
      → All (λ (d : Entry). d.walk_err ≡ none) ds
        × ((clean_kraft_deleted_files f meta_dir w).0.0 ≡ all_targets ds)
  unfolding clean_kraft_deleted_files walked cleaned
  unreported_targets meta_dir w w1 w2 ds s v h =
      let ran : clean_kraft_deleted_files f meta_dir w ≡ cleaned f (ds, w2) = rw (s, v) refl in
      let (_, readable, paths) =
        visit_all-unreported ds (record { deleted = []; first_err = none; world = w2 })
          (sym (ap (λ (r : (List Bytes × Option Error) × W). r.0.1) ran) ∙ h) in
      (readable, ap (λ (r : (List Bytes × Option Error) × W). r.0.0) ran ∙ paths)

module _ {W : Type 0} (f : FileSystem W)
    -- Attributes that were set are read.
    (read_back : (path : Bytes) (attrs : ℕ) (w w' : W)
      → f.set_file_attributes path attrs w ≡ (ok tt, w')
      → (f.get_file_attributes path w').0 ≡ ok attrs) where
  -- Where `clearReadOnlyWindows` succeeds on a file, the file is read back with the attribute
  -- READONLY off and all others as they were, where a reading leaves the attributes as they are.
  pub clear_read_only_windows_lem :
      (path : Bytes) (attrs : ℕ) (w w1 w' : W)
      → f.get_file_attributes path w ≡ (ok attrs, w1)
      → (f.get_file_attributes path w1).0 ≡ ok attrs
      → clear_read_only_windows f path w ≡ (ok tt, w')
      → (now : ℕ) × ((f.get_file_attributes path w').0 ≡ ok now)
        × (now % 2 ≡ 0)
        × (now / 2 ≡ attrs / 2)
  unfolding clear_read_only_windows
  clear_read_only_windows_lem path attrs w w1 w' got again cleared = by_path (f.utf16_ptr path) refl
    where
      Cleared : Type 0
      Cleared =
          (now : ℕ) × ((f.get_file_attributes path w').0 ≡ ok now)
          × (now % 2 ≡ 0)
          × (now / 2 ≡ attrs / 2)

      by_bit :
          (b : Bool)
          → (attrs % 2 == 0) ≡ b
          → (if b then pure tt else f.set_file_attributes path (attrs - attrs % 2)) w1 ≡ (ok tt, w')
          → Cleared
      by_bit true e h =
          let same : w1 ≡ w' = ap (λ (r : Outcome (Unit {0}) × W). r.1) h in
          let even = (==_iff (attrs % 2) 0).0 e in
          (
            attrs,
            subst (λ (v : W). (f.get_file_attributes path v).0 ≡ ok attrs) same again,
            even,
            refl,
          )
      by_bit false e h = (attrs - attrs % 2, read_back path _ w1 w' h, omega arith, omega arith)

      by_path : (r : Outcome (Unit {0})) → f.utf16_ptr path ≡ r → Cleared
      by_path (ok _) e = by_bit (attrs % 2 == 0) refl (rw (e, got) at cleared)
      by_path (err x) e = absurd (cc (ap (λ (r : Outcome (Unit {0}) × W). r.0) (rw e at cleared)))
      by_path panic e = absurd (cc (ap (λ (r : Outcome (Unit {0}) × W). r.0) (rw e at cleared)))
