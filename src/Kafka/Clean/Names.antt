-- ===== src/Kafka/Clean/Names.antt =====
-- The names of the files that a cleaning is to delete.
use mongoctl.Prelude.{
  ℕ, zero, suc, ◌+◌, ◌-◌, List, [], ◌∷◌, ◌++◌, map, ◌≡◌, refl, sym, ap, ◌∙◌, arith, none, true,
  false, Bytes, codes, leb, length, length-append, take, drop, str_eq_self, str_eq→≡, All, ◌⊎◌, inl,
  inr, Bool-cases, append_assoc,
}
use mongoctl.Text.Parts.{to_lower}
use mongoctl.Kafka.Clean.{Entry, has_suffix, is_deleted_name, is_target}
use mongoctl.Kafka.Clean.Complete.{all_targets}

-- A name that ends in ".deleted", in any case.
abbrev pub IsDeletedName : Bytes → Type 0
IsDeletedName name = (stem : Bytes) × (map to_lower name ≡ stem ++ codes ".deleted")

-- The paths of the files with such a name, in order, of the entries of a walk.
pub data Removable : List Entry → List Bytes → Type 0 where
  end : Removable [] []
  file :
      {ds : List Entry} {paths : List Bytes} (d : Entry)
      → d.is_dir ≡ false
      → IsDeletedName d.name
      → Removable ds paths
      → Removable (d ∷ ds) (d.path ∷ paths)
  other :
      {ds : List Entry} {paths : List Bytes} (d : Entry)
      → (d.is_dir ≡ true) ⊎ (¬ IsDeletedName d.name)
      → Removable ds paths
      → Removable (d ∷ ds) paths

take-drop : (n : ℕ) (s : Bytes) → take n s ++ drop n s ≡ s
take-drop zero s = refl
take-drop (suc n) [] = refl
take-drop (suc n) (x ∷ s) = ap (λ t. x ∷ t) (take-drop n s)

drop_append : (s t : Bytes) → drop (length s) (s ++ t) ≡ t
drop_append [] t = refl
drop_append (x ∷ s) t = drop_append s t

suffix_stem :
    (s suffix : Bytes) → has_suffix s suffix ≡ true → (stem : Bytes) × (s ≡ stem ++ suffix)
unfolding has_suffix
suffix_stem s suffix h =
    let n = length s - length suffix in
    let same : drop n s ≡ suffix = str_eq→≡ _ _ (ground (arith, h)) in
    (take n s, sym (take-drop n s) ∙ ap (λ t. take n s ++ t) same)

has_suffix-append : (stem suffix : Bytes) → has_suffix (stem ++ suffix) suffix ≡ true
unfolding has_suffix
has_suffix-append stem suffix =
    let n : length (stem ++ suffix) ≡ length stem + length suffix = length-append stem suffix in
    let cut : length (stem ++ suffix) - length suffix ≡ length stem = omega (arith, n) in
    let long : leb (length suffix) (length (stem ++ suffix)) ≡ true = ground (arith, n) in
    rw (long, cut, drop_append stem suffix) (str_eq_self suffix)

deleted-IsDeletedName : (name : Bytes) → is_deleted_name name ≡ true → IsDeletedName name
unfolding is_deleted_name
deleted-IsDeletedName name h =
    elim (Bool-cases (has_suffix (map to_lower name) (codes ".deleted"))) [
      | inl y ↦ suffix_stem (map to_lower name) (codes ".deleted") y
      | inr n ↦
          let (stem, same) =
            suffix_stem (map to_lower name) (codes ".checkpoint.deleted") (ground (arith, h, n)) in
          (
            stem ++ codes ".checkpoint",
            same ∙ sym (append_assoc stem (codes ".checkpoint") (codes ".deleted")),
          )
    ]

IsDeletedName-deleted : (name : Bytes) → IsDeletedName name → is_deleted_name name ≡ true
unfolding is_deleted_name
IsDeletedName-deleted name (stem, same) =
    let ends : has_suffix (map to_lower name) (codes ".deleted") ≡ true =
      ap (λ (s : Bytes). has_suffix s (codes ".deleted")) same
      ∙ has_suffix-append stem (codes ".deleted") in
    rw ends refl

target_of :
    (d : Entry)
    → d.walk_err ≡ none
    → ((is_target d ≡ true) × (d.is_dir ≡ false) × IsDeletedName d.name)
      ⊎ ((is_target d ≡ false) × ((d.is_dir ≡ true) ⊎ (¬ IsDeletedName d.name)))
unfolding is_target
target_of d readable = elim (Bool-cases d.is_dir) [
  | inl dir ↦ inr (rw (readable, dir) refl, inl dir)
  | inr f ↦ elim (Bool-cases (is_deleted_name d.name)) [
    | inl y ↦ inl (rw (readable, f, y) refl, f, deleted-IsDeletedName d.name y)
    | inr n ↦
        inr (rw (readable, f, n) refl, inr (λ named. cc (n, IsDeletedName-deleted d.name named)))
  ]
]

pub all_targets-Removable :
    (ds : List Entry) → All (λ (d : Entry). d.walk_err ≡ none) ds → Removable ds (all_targets ds)
unfolding all_targets
all_targets-Removable [] h = Removable.end
all_targets-Removable (d ∷ ds) (readable, h) = elim (target_of d readable) [
  | inl (on, is_file, named) ↦ rw on (Removable.file d is_file named (all_targets-Removable ds h))
  | inr (off, out) ↦ rw off (Removable.other d out (all_targets-Removable ds h))
]
