-- ===== src/Kafka/Clean.antt =====
-- internal/replset/kafkautil/kafkautil.go: `CleanKRaftDeletedFiles` on the entries that
-- `filepath.WalkDir` visits.
pub mod Deleted
pub mod Complete
pub mod Names
pub mod Removed
use mongoctl.Prelude.{
  ◌%◌, ◌==◌, ◌>>=◌, pure, ℕ, ◌-◌, ◌+◌, List, [], ◌∷◌, ◌++◌, map, ◌≡◌, refl, sym, ap, ◌∙◌, arith,
  Option, none, some, Bool, true, false, not, ◌&&◌, Bytes, codes, str_eq, if◌then◌else◌, Outcome,
  ok, err, panic, Error, failure, Io, leb, length, drop, append_assoc, append-nil,
}
use mongoctl.Text.Parts.{to_lower}

pub record Entry : Type 0 where
  pub path : Bytes
  pub name : Bytes
  pub is_dir : Bool
  pub walk_err : Option Error

pub record FileSystem (W : Type 0) : Type 0 where
  pub windows : Bool
  -- `syscall.UTF16PtrFromString`, which refuses a byte of zero, and the attributes of a file on
  -- Windows, by the path that it converts.
  pub utf16_ptr : Bytes → Outcome (Unit {0})
  pub get_file_attributes : Bytes → Io W ℕ
  pub set_file_attributes : Bytes → ℕ → Io W Unit
  pub remove : Bytes → Io W Unit
  -- Is the path a directory?
  pub stat : Bytes → Io W Bool
  pub walk : Bytes → W → List Entry × W

unfoldable pub has_suffix : Bytes → Bytes → Bool
has_suffix s suffix =
    leb (length suffix) (length s) && str_eq (drop (length s - length suffix) s) suffix

unfoldable pub is_deleted_name : Bytes → Bool
is_deleted_name name =
    let lower = map to_lower name in
    not (
      not (has_suffix lower (codes ".deleted"))
      && not (has_suffix lower (codes ".checkpoint.deleted")))

pub record Cleaning (W : Type 0) : Type 0 where
  pub deleted : List Bytes
  pub first_err : Option Error
  pub world : W

abbrev pub keep_first : Option Error → Error → Option Error
keep_first none e = some e
keep_first (some d) e = some d

module _ {W : Type 0} where
  -- An error stands for the one that wraps it.
  abbrev pub removed : Bytes → Outcome (Unit {0}) × W → Cleaning W → Cleaning W
  removed path (ok _, w) c = record c { deleted = c.deleted ++ (path ∷ []); world = w }
  removed path (err e, w) c = record c { first_err = keep_first c.first_err e; world = w }
  removed path (panic, w) c = record c { world = w }

-- A file with the name of a deleted one, which the walk could read.
pub is_target : Entry → Bool
is_target d = elim d.walk_err [ none ↦ not d.is_dir && is_deleted_name d.name | some e ↦ false ]

module _ {W : Type 0} (f : FileSystem W) where
  -- FILE_ATTRIBUTE_READONLY is 1, so `attrs &^ syscall.FILE_ATTRIBUTE_READONLY` is the even number
  -- at or below the attributes.
  unfoldable pub clear_read_only_windows : Bytes → Io W Unit
  clear_read_only_windows path = do
    _ ← λ w. (f.utf16_ptr path, w)
    attrs ← f.get_file_attributes path
    if attrs % 2 == 0 then pure tt else f.set_file_attributes path (attrs - attrs % 2)

  -- The result of the call is dropped.
  pub writable : Bytes → W → W
  unfolding clear_read_only_windows
  writable path w = if f.windows then (clear_read_only_windows path w).1 else w

  pub visit_file : Entry → Cleaning W → Cleaning W
  unfolding writable
  visit_file d c =
      if d.is_dir
      then c
      else if not (is_deleted_name d.name)
      then c
      else removed d.path (f.remove d.path (writable d.path c.world)) c

  pub visit : Option Error → Entry → Cleaning W → Cleaning W
  unfolding visit_file
  visit (some e) d c = record c { first_err = keep_first c.first_err e }
  visit none d c = visit_file d c

  unfoldable pub visit_all : List Entry → Cleaning W → Cleaning W
  unfolding visit
  visit_all [] c = c
  visit_all (d ∷ ds) c = visit_all ds (visit d.walk_err d c)

  pub cleaned : List Entry × W → (List Bytes × Option Error) × W
  unfolding visit_all
  cleaned (entries, w) =
      let c = visit_all entries (record { deleted = []; first_err = none; world = w }) in
      ((c.deleted, c.first_err), c.world)

  pub walked : Outcome Bool × W → Bytes → (List Bytes × Option Error) × W
  unfolding cleaned
  walked (ok true, w) meta_dir = cleaned (f.walk meta_dir w)
  walked (ok false, w) meta_dir =
      (([], some (failure (codes "metaDir is not a directory: " ++ meta_dir))), w)
  walked (err e, w) meta_dir = (([], some e), w)
  walked (panic, w) meta_dir = (([], none), w)

  -- The paths deleted and the first error; the state of the file system is left behind.
  unfoldable pub clean_kraft_deleted_files : Bytes → W → (List Bytes × Option Error) × W
  unfolding walked
  clean_kraft_deleted_files meta_dir w = walked (f.stat meta_dir w) meta_dir
