-- ===== src/Store/Counting.antt =====
-- `CountUploads` of internal/store/store.go when no call of the operating system fails: how many
-- directories the disk has right below the uploads directory.
use zarf_api.Prelude.{
  ℕ, suc, ◌≡◌, refl, ◌∙◌, Bool, true, false, not, ◌&&◌, Option, none, some, List, [], ◌∷◌, Text,
  Map, lookup, ◌==◌, nat_eq, list_eq, list_beq_iff, arith, sort, insert_sorted, text_leb,
  if◌then◌else◌,
}
use zarf_api.Os.{FilePath, Node, dir, file, World, ok}
use zarf_api.Os.Calm.{read_dir_there}
use zarf_api.Os.Files.{entries, entry_name}
use zarf_api.Store.{Store}
use zarf_api.Store.Uploads.{count_dirs, count_uploads}

-- `filepath.Dir` of what is no root
abbrev pub parent : FilePath → FilePath
parent [] = []
parent (c ∷ []) = []
parent (c ∷ e ∷ p) = c ∷ parent (e ∷ p)

abbrev pub is_directory : Node → Bool
is_directory dir = true
is_directory (file c) = false

-- the directories of the disk whose parent is `d`
unfoldable pub directories : FilePath → Map FilePath Node → ℕ
directories d [] = 0
directories d ((p, n) ∷ fs) =
    let others = directories d fs in
    if not (p == []) && (parent p == d && is_directory n) then suc others else others

abbrev is_there : Option Text → Bool
is_there none = false
is_there (some n) = true

entry_name-parent : (d p : FilePath) → is_there (entry_name d p) ≡ (not (p == []) && parent p == d)
entry_name-parent [] [] = refl
entry_name-parent [] (n ∷ []) = refl
entry_name-parent [] (n ∷ m ∷ p) = refl
entry_name-parent (c ∷ d) [] = refl
entry_name-parent (c ∷ []) (e ∷ []) = ground arith
entry_name-parent (c ∷ x ∷ d) (e ∷ []) = ground arith
entry_name-parent (c ∷ d) (e ∷ f ∷ p) =
    ground (arith, entry_name-parent d (f ∷ p), list_beq_iff c e, list_beq_iff e c)

count_dirs-entries :
    (d : FilePath) (fs : Map FilePath Node) → count_dirs (entries d fs) ≡ directories d fs
unfolding count_dirs entries directories
count_dirs-entries d [] = refl
count_dirs-entries d ((p, dir) ∷ fs) =
    ground (arith, entry_name-parent d p, count_dirs-entries d fs)
count_dirs-entries d ((p, file c) ∷ fs) =
    ground (arith, entry_name-parent d p, count_dirs-entries d fs)

module _ (before : Text × Bool → Text × Bool → Bool) where
  count_dirs-insert_sorted :
      (e : Text × Bool) (es : List (Text × Bool))
      → count_dirs (insert_sorted before e es) ≡ count_dirs (e ∷ es)
  unfolding count_dirs insert_sorted
  count_dirs-insert_sorted e [] = refl
  count_dirs-insert_sorted e (x ∷ es) = ground (arith, count_dirs-insert_sorted e es)

  count_dirs-sort : (es : List (Text × Bool)) → count_dirs (sort before es) ≡ count_dirs es
  unfolding count_dirs sort
  count_dirs-sort [] = refl
  count_dirs-sort (e ∷ es) =
      count_dirs-insert_sorted e (sort before es) ∙ ground (arith, count_dirs-sort es)

pub count_uploads_lem :
    (s : Store) (w : World)
    → w.faults ≡ []
    → lookup s.uploads_dir w.fs ≡ some dir
    → count_uploads s w ≡ (ok (directories s.uploads_dir w.fs), w)
unfolding count_uploads
count_uploads_lem s w calm rooted =
    rw
      (
        read_dir_there w calm s.uploads_dir rooted,
        count_dirs-sort (λ a b. text_leb a.0 b.0) (entries s.uploads_dir w.fs),
        count_dirs-entries s.uploads_dir w.fs,
      )
      refl
