-- ===== src/Os/Calm.antt =====
-- The calls of package os when none fails: one equation for each way that a call can go.
use zarf_api.Prelude.{
  sort, text_leb, list_beq_iff, true, ℕ, ◌≡◌, ◌≢◌, none, some, List, [], ◌∷◌, ◌++◌, Text, Map,
  lookup, insert, delete, nat_eq, list_eq, arith, inl, inr, Option-cases, if◌then◌else◌,
}
use zarf_api.Records.{fs_not_exist, io}
use zarf_api.Os.{FilePath, Content, bytes, Node, dir, file, World, ok, err}
use zarf_api.Os.Paths.{parent}
use zarf_api.Os.Files.{
  read_dir, entries, below, Reader, stat, read_file, write_file, rename, remove, remove_all, prune,
  create_temp, pick, temp_name, copy_into, write,
}

module _ (w : World) (calm : w.faults ≡ []) where
  pub stat_present : (p : FilePath) (n : Node) → lookup p w.fs ≡ some n → stat p w ≡ (ok n, w)
  unfolding stat
  stat_present p n h = ground arith

  pub stat_absent : (p : FilePath) → lookup p w.fs ≡ none → stat p w ≡ (err fs_not_exist, w)
  unfolding stat
  stat_absent p h = ground arith

  pub read_file_present :
      (p : FilePath) (c : Content) → lookup p w.fs ≡ some (file c) → read_file p w ≡ (ok c, w)
  unfolding read_file
  read_file_present p c h = ground arith

  pub read_dir_there :
      (d : FilePath)
      → lookup d w.fs ≡ some dir
      → read_dir d w ≡ (ok (sort (λ a b. text_leb a.0 b.0) (entries d w.fs)), w)
  unfolding read_dir
  read_dir_there d h = ground arith

  pub read_file_absent :
      (p : FilePath) → lookup p w.fs ≡ none → read_file p w ≡ (err fs_not_exist, w)
  unfolding read_file
  read_file_absent p h = ground arith

  pub read_file_same : (p : FilePath) → (read_file p w).1 ≡ w
  unfolding read_file
  read_file_same p = ground arith

  pub write_file_there :
      (p : FilePath) (c : Content)
      → lookup (parent p) w.fs ≡ some dir
      → lookup p w.fs ≢ some dir
      → write_file p c w ≡ (ok tt, write (insert p (file c) w.fs) w)
  unfolding write_file
  write_file_there p c d h = ground arith

  pub rename_there :
      (p q : FilePath) (c : Content)
      → lookup p w.fs ≡ some (file c)
      → lookup (parent q) w.fs ≡ some dir
      → lookup q w.fs ≢ some dir
      → rename p q w ≡ (ok tt, write (insert q (file c) (delete p w.fs)) w)
  unfolding rename
  rename_there p q c h d n = ground arith

  pub remove_present :
      (p : FilePath) (c : Content)
      → lookup p w.fs ≡ some (file c)
      → remove p w ≡ (ok tt, write (delete p w.fs) w)
  unfolding remove
  remove_present p c h = ground arith

  pub remove_absent : (p : FilePath) → lookup p w.fs ≡ none → remove p w ≡ (err fs_not_exist, w)
  unfolding remove
  remove_absent p h = ground arith

  pub remove_all_there : (p : FilePath) → remove_all p w ≡ (ok tt, write (prune p w.fs) w)
  unfolding remove_all
  remove_all_there p = ground arith

  pub copy_lem :
      (p : FilePath) (old : Text) (r : Reader)
      → copy_into p old r w ≡ (
        if r.broken then err io else ok tt,
        write (insert p (file (bytes (old ++ r.payload))) w.fs) w,
      )
  unfolding copy_into
  copy_lem p old r = ground arith

  pub create_temp_free :
      (d p : FilePath) (prefix suffix : Text)
      → lookup d w.fs ≡ some dir
      → pick d prefix suffix w.temps w.fs ≡ some p
      → create_temp d prefix suffix w ≡ (ok p, write (insert p (file (bytes [])) w.fs) w)
  unfolding create_temp
  create_temp_free d p prefix suffix h k = ground arith

-- `os.CreateTemp` never takes a name that is in use.
pub pick_free :
    (d p : FilePath) (prefix suffix : Text) (rs : List ℕ) (fs : Map FilePath Node)
    → pick d prefix suffix rs fs ≡ some p
    → lookup p fs ≡ none
unfolding pick
pick_free d p prefix suffix [] fs h = cc
pick_free d p prefix suffix (r ∷ rs) fs h = ground (arith, pick_free d p prefix suffix rs fs)

pub pick_name :
    (d p : FilePath) (prefix suffix : Text) (rs : List ℕ) (fs : Map FilePath Node)
    → pick d prefix suffix rs fs ≡ some p
    → (r : ℕ) × (p ≡ temp_name d prefix suffix r)
unfolding pick
pick_name d p prefix suffix [] fs h = cc
pick_name d p prefix suffix (r ∷ rs) fs h =
    elim (Option-cases (lookup (temp_name d prefix suffix r) fs)) [
      | inl free ↦ (r, ground (arith, free))
      | inr (n, taken) ↦ pick_name d p prefix suffix rs fs (ground (arith, taken))
    ]

-- `os.RemoveAll` takes away the paths below its argument, and no other.
pub lookup-prune :
    (p q : FilePath) (fs : Map FilePath Node)
    → lookup p (prune q fs) ≡ (if below p q then none else lookup p fs)
unfolding prune lookup
lookup-prune p q [] = ground arith
lookup-prune p q ((k, n) ∷ fs) = ground (arith, lookup-prune p q fs, list_beq_iff k p)

pub below-append : (p q : FilePath) → below (p ++ q) p ≡ true
below-append [] q = ground arith
below-append (c ∷ p) q = ground (arith, below-append p q, list_beq_iff c c)
