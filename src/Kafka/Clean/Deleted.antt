-- ===== src/Kafka/Clean/Deleted.antt =====
-- The files that a cleaning deletes.
use mongoctl.Prelude.{
  List, [], ◌∷◌, ◌++◌, ◌≡◌, refl, sym, ap, ◌∙◌, arith, Bool, true, false, ◌&&◌, Bytes,
  if◌then◌else◌, Outcome, ok, err, panic, append_assoc, append-nil,
}
use mongoctl.Kafka.Clean.{
  Entry, FileSystem, is_target, Cleaning, removed, writable, visit, visit_all,
  clean_kraft_deleted_files,
}

is_ok : Outcome (Unit {0}) → Bool
is_ok (ok _) = true
is_ok _ = false

-- The paths of the files to delete whose removal succeeds.
unfoldable pub targets : (Bytes → Outcome (Unit {0})) → List Entry → List Bytes
unfolding is_target is_ok
targets verdict [] = []
targets verdict (d ∷ ds) =
    let rest = targets verdict ds in
    if is_target d && is_ok (verdict d.path) then d.path ∷ rest else rest

pub appended :
    (b : Bool) (xs : List Bytes) (p : Bytes) (rest : List Bytes)
    → (if b then xs ++ (p ∷ []) else xs) ++ rest ≡ xs ++ (if b then p ∷ rest else rest)
appended true xs p rest = append_assoc xs (p ∷ []) rest
appended false xs p rest = refl

module _ {W : Type 0} (f : FileSystem W) (verdict : Bytes → Outcome (Unit {0})) where
  removed-deleted :
      (path : Bytes) (x : Outcome (Unit {0}) × W) (c : Cleaning W)
      → x.0 ≡ verdict path
      → (removed path x c).deleted
        ≡ (if is_ok (verdict path) then c.deleted ++ (path ∷ []) else c.deleted)
  unfolding is_ok
  removed-deleted path (ok _, w) c e = rw (sym e) refl
  removed-deleted path (err x, w) c e = rw (sym e) refl
  removed-deleted path (panic, w) c e = rw (sym e) refl

  visit-deleted :
      (d : Entry) (c : Cleaning W)
      → ((path : Bytes) (w : W) → (f.remove path w).0 ≡ verdict path)
      → (visit f d.walk_err d c).deleted
        ≡ (if is_target d && is_ok (verdict d.path) then c.deleted ++ (d.path ∷ []) else c.deleted)
  unfolding visit is_target
  visit-deleted d c h =
      let x = f.remove d.path (writable f d.path c.world) in
      ground (arith, removed-deleted d.path x c (h d.path (writable f d.path c.world)))

  visit_all-deleted :
      (ds : List Entry) (c : Cleaning W)
      → ((path : Bytes) (w : W) → (f.remove path w).0 ≡ verdict path)
      → (visit_all f ds c).deleted ≡ c.deleted ++ targets verdict ds
  unfolding visit_all targets
  visit_all-deleted [] c h = sym (append-nil c.deleted)
  visit_all-deleted (d ∷ ds) c h =
      let p = visit-deleted d c h in
      visit_all-deleted ds (visit f d.walk_err d c) h
      ∙ ap (λ z. z ++ targets verdict ds) p
      ∙ appended (is_target d && is_ok (verdict d.path)) c.deleted d.path (targets verdict ds)

  -- In a directory the deleted paths are those of the visited files with a name that ends in
  -- ".deleted" in any case and whose removal succeeds, in the order of the walk, where that
  -- success depends on the path alone. Directories and entries that the walk could not read are
  -- passed over.
  pub clean_deletes :
      (meta_dir : Bytes) (w w1 w2 : W) (ds : List Entry)
      → ((path : Bytes) (v : W) → (f.remove path v).0 ≡ verdict path)
      → f.stat meta_dir w ≡ (ok true, w1)
      → f.walk meta_dir w1 ≡ (ds, w2)
      → (clean_kraft_deleted_files f meta_dir w).0.0 ≡ targets verdict ds
  unfolding clean_kraft_deleted_files
  clean_deletes meta_dir w w1 w2 ds h s v = rw (s, v) (visit_all-deleted ds _ h)
