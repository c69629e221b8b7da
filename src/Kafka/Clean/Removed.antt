-- ===== src/Kafka/Clean/Removed.antt =====
-- What is gone after a cleaning that reports no error.
use mongoctl.Prelude.{
  ℕ, List, [], ◌∷◌, ◌≡◌, ◌≢◌, refl, sym, Option, none, some, Bool, true, false, Bytes, Outcome, ok,
  err, panic, Error, All, All-append, not, if◌then◌else◌, pure, ◌%◌, ◌==◌, ◌-◌, ◌>>=◌, bind_with,
}
use mathlib.Core.Path.{subst}
use mongoctl.Kafka.Clean.{
  Entry, FileSystem, Cleaning, removed, writable, visit_file, visit, visit_all, cleaned, walked,
  clean_kraft_deleted_files, is_deleted_name, clear_read_only_windows,
}
use mongoctl.Kafka.Clean.Complete.{unreported_targets}
use mongoctl.Kafka.Clean.Names.{Removable, all_targets-Removable}

-- A removal without an error leaves no file at the path, none panics, and neither a removal nor a
-- call on attributes brings a file back.
pub record IsRemoving {W : Type 0} (f : FileSystem W) (Gone : W → Bytes → Type 0) : Type 0 where
  pub sure : (path : Bytes) (w : W) → (f.remove path w).0 ≢ panic
  pub removes : (path : Bytes) (w w' : W) → f.remove path w ≡ (ok tt, w') → Gone w' path
  pub remove_keeps : (path p : Bytes) (w : W) → Gone w p → Gone (f.remove path w).1 p
  pub get_keeps : (path p : Bytes) (w : W) → Gone w p → Gone (f.get_file_attributes path w).1 p
  pub set_keeps :
      (path p : Bytes) (attrs : ℕ) (w : W)
      → Gone w p
      → Gone (f.set_file_attributes path attrs w).1 p

All-map :
    {P Q : Bytes → Type 0} → ((p : Bytes) → P p → Q p) → (ps : List Bytes) → All P ps → All Q ps
All-map f [] h = tt
All-map f (p ∷ ps) (x, h) = (f p x, All-map f ps h)

module _ {W : Type 0} (f : FileSystem W) (Gone : W → Bytes → Type 0) (law : IsRemoving f Gone) where
  AllGone : Cleaning W → Type 0
  AllGone c = All (Gone c.world) c.deleted

  cleared_keeps : (path p : Bytes) (w : W) → Gone w p → Gone (clear_read_only_windows f path w).1 p
  unfolding clear_read_only_windows
  cleared_keeps path p w g = by_path (f.utf16_ptr path)
    where
      by_bit :
          (b : Bool) (attrs : ℕ) (w' : W)
          → Gone w' p
          → Gone ((if b then pure tt else f.set_file_attributes path attrs) w').1 p
      by_bit true attrs w' h = h
      by_bit false attrs w' h = law.set_keeps path p attrs w' h

      by_attrs :
          (r : Outcome ℕ) (w' : W)
          → Gone w' p
          → Gone
              (bind_with r
                (λ attrs.
                  if attrs % 2 == 0
                  then pure tt
                  else f.set_file_attributes path (attrs - attrs % 2))
                w').1
              p
      by_attrs (ok attrs) w' h = by_bit (attrs % 2 == 0) (attrs - attrs % 2) w' h
      by_attrs (err e) w' h = h
      by_attrs panic w' h = h

      by_path :
          (r : Outcome (Unit {0}))
          → Gone
              (bind_with r
                (λ _. f.get_file_attributes path >>= λ attrs.
                  if attrs % 2 == 0
                  then pure tt
                  else f.set_file_attributes path (attrs - attrs % 2))
                w).1
              p
      by_path (ok _) =
          by_attrs (f.get_file_attributes path w).0 (f.get_file_attributes path w).1
            (law.get_keeps path p w g)
      by_path (err e) = g
      by_path panic = g

  writable_keeps : (path p : Bytes) (w : W) → Gone w p → Gone (writable f path w) p
  unfolding writable
  writable_keeps path p w g = by_system f.windows
    where
      by_system : (b : Bool) → Gone (if b then (clear_read_only_windows f path w).1 else w) p
      by_system true = cleared_keeps path p w g
      by_system false = g

  removed-AllGone :
      (path : Bytes) (x : Outcome (Unit {0}) × W) (c : Cleaning W)
      → All (Gone x.1) c.deleted
      → (x.0 ≡ ok tt → Gone x.1 path)
      → AllGone (removed path x c)
  unfolding AllGone
  removed-AllGone path (ok _, w) c h gone =
      All-append (Gone w) c.deleted (path ∷ []) h (gone refl, tt)
  removed-AllGone path (err e, w) c h gone = h
  removed-AllGone path (panic, w) c h gone = h

  file-AllGone : (d : Entry) (c : Cleaning W) → AllGone c → AllGone (visit_file f d c)
  unfolding visit_file AllGone
  file-AllGone d c h = by_kind d.is_dir (is_deleted_name d.name)
    where
      v : W
      v = writable f d.path c.world

      kept : All (Gone (f.remove d.path v).1) c.deleted
      kept =
          All-map (λ p g. law.remove_keeps d.path p v (writable_keeps d.path p c.world g)) c.deleted
            h

      by_kind :
          (dir named : Bool)
          → AllGone
              (if dir then c else if not named then c else removed d.path (f.remove d.path v) c)
      by_kind true named = h
      by_kind false false = h
      by_kind false true =
          removed-AllGone d.path (f.remove d.path v) c kept
            (λ e. law.removes d.path v (f.remove d.path v).1 (λ i. (e i, (f.remove d.path v).1)))

  visit-AllGone :
      (o : Option Error) (d : Entry) (c : Cleaning W) → AllGone c → AllGone (visit f o d c)
  unfolding visit AllGone
  visit-AllGone (some e) d c h = h
  visit-AllGone none d c h = file-AllGone d c h

  visit_all-AllGone : (ds : List Entry) (c : Cleaning W) → AllGone c → AllGone (visit_all f ds c)
  unfolding visit_all
  visit_all-AllGone [] c h = h
  visit_all-AllGone (d ∷ ds) c h =
      visit_all-AllGone ds (visit f d.walk_err d c) (visit-AllGone d.walk_err d c h)

  -- Where a directory is walked and no error is reported, the deleted paths are, in the order of the
  -- walk, those of the files with a name that ends in ".deleted" in any case, and no others; and no
  -- file is left at any of them.
  pub cleaned_or_reported :
      (meta_dir : Bytes) (w w1 w2 : W) (ds : List Entry)
      → f.stat meta_dir w ≡ (ok true, w1)
      → f.walk meta_dir w1 ≡ (ds, w2)
      → (clean_kraft_deleted_files f meta_dir w).0.1 ≡ none
      → Removable ds (clean_kraft_deleted_files f meta_dir w).0.0
        × All
            (Gone (clean_kraft_deleted_files f meta_dir w).1)
            (clean_kraft_deleted_files f meta_dir w).0.0
  unfolding clean_kraft_deleted_files walked cleaned AllGone
  cleaned_or_reported meta_dir w w1 w2 ds s v h =
      let (readable, paths) = unreported_targets f law.sure meta_dir w w1 w2 ds s v h in
      (
        subst (Removable ds) (sym paths) (all_targets-Removable ds readable),
        rw (s, v) (visit_all-AllGone ds (record { deleted = []; first_err = none; world = w2 }) tt),
      )
