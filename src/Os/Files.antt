-- ===== src/Os/Files.antt =====
-- The calls of package os that the store makes, one function each, with the errors that it tells
-- apart. Each meets one fault.
use zarf_api.Prelude.{
  ℕ, suc, Bool, true, false, not, ◌&&◌, Option, none, some, List, [], ◌∷◌, ◌++◌, Text, Map, ◌==◌,
  nat_eq, list_eq, lookup, insert, delete, sort, text_leb, decimal, if◌then◌else◌,
}
use zarf_api.Records.{fs_not_exist, io}
use zarf_api.Os.{
  FilePath, Content, bytes, Node, dir, file, World, ok, err, Io, pure, raise, ◌>>◌, call, meet,
}
use zarf_api.Os.Paths.{parent}

abbrev pub write : Map FilePath Node → World → World
write fs w = record w { fs = fs }

abbrev pub is_dir_node : Option Node → Bool
is_dir_node (some dir) = true
is_dir_node _ = false

abbrev is_dir : World → FilePath → Bool
is_dir w p = is_dir_node (lookup p w.fs)

-- `os.Stat`
abbrev found : Option Node → Io Node
found none = raise fs_not_exist
found (some n) = pure n

unfoldable pub stat : FilePath → Io Node
stat p = call λ w. found (lookup p w.fs) w

-- `os.ReadFile`, `os.Open` with a read of the whole file
abbrev contents : Option Node → Io Content
contents none = raise fs_not_exist
contents (some dir) = raise io
contents (some (file c)) = pure c

unfoldable pub read_file : FilePath → Io Content
read_file p = call λ w. contents (lookup p w.fs) w

-- `os.WriteFile`: the directory must be there; a torn write leaves the file empty
abbrev put : FilePath → Content → Io (Unit {0})
put p c w =
    if is_dir w (parent p)
    then (if is_dir w p then (err io, w) else (ok tt, write (insert p (file c) w.fs) w))
    else (err fs_not_exist, w)

unfoldable pub write_file : FilePath → Content → Io (Unit {0})
write_file p c w = meet w.faults (put p c) (do put p (bytes []); raise io) w

-- `os.Rename` of a file
abbrev move : FilePath → FilePath → Option Node → Io (Unit {0})
move p q (some (file c)) w =
    if is_dir w (parent q) && not (is_dir w q)
    then (ok tt, write (insert q (file c) (delete p w.fs)) w)
    else (err io, w)
move p q _ w = (err io, w)

unfoldable pub rename : FilePath → FilePath → Io (Unit {0})
rename p q = call λ w. move p q (lookup p w.fs) w

-- `os.Remove` of a file; a directory is not removed, as the store's directories are not empty
abbrev unlink : FilePath → Option Node → Io (Unit {0})
unlink p none w = (err fs_not_exist, w)
unlink p (some dir) w = (err io, w)
unlink p (some (file c)) w = (ok tt, write (delete p w.fs) w)

unfoldable pub remove : FilePath → Io (Unit {0})
remove p = call λ w. unlink p (lookup p w.fs) w

-- Is `p` the path `q` or below it?
abbrev pub below : FilePath → FilePath → Bool
below p [] = true
below [] (d ∷ q) = false
below (c ∷ p) (d ∷ q) = c == d && below p q

-- `os.RemoveAll`
unfoldable pub prune : FilePath → Map FilePath Node → Map FilePath Node
prune q [] = []
prune q ((p, n) ∷ fs) = let rest = prune q fs in if below p q then rest else (p, n) ∷ rest

unfoldable pub remove_all : FilePath → Io (Unit {0})
unfolding prune
remove_all p = call λ w. (ok tt, write (prune p w.fs) w)

-- `os.MkdirAll`: every directory on the way from `base`
unfoldable pub make_dirs : FilePath → FilePath → Map FilePath Node → Option (Map FilePath Node)
make_dirs base [] fs = some fs
make_dirs base (c ∷ p) fs =
    let next = base ++ c ∷ [] in
    elim (lookup next fs) [
      | none ↦ make_dirs next p (insert next dir fs)
      | some dir ↦ make_dirs next p fs
      | some (file _) ↦ none
    ]

abbrev made : Option (Map FilePath Node) → Io (Unit {0})
made none w = (err io, w)
made (some fs) w = (ok tt, write fs w)

unfoldable pub mkdir_all : FilePath → Io (Unit {0})
unfolding make_dirs
mkdir_all p = call λ w. made (make_dirs [] p w.fs) w

-- `os.CreateTemp(dir, prefix + "*" + suffix)`: an empty file under the first random name that is free
abbrev pub temp_name : FilePath → Text → Text → ℕ → FilePath
temp_name d prefix suffix r = d ++ (prefix ++ decimal r ++ suffix) ∷ []

unfoldable pub pick : FilePath → Text → Text → List ℕ → Map FilePath Node → Option FilePath
pick d prefix suffix [] fs = none
pick d prefix suffix (r ∷ rs) fs =
    let rest = pick d prefix suffix rs fs in
    elim (lookup (temp_name d prefix suffix r) fs) [
      | none ↦ some (temp_name d prefix suffix r)
      | some _ ↦ rest
    ]

abbrev created : Option FilePath → Io FilePath
created none w = (err io, w)
created (some p) w = (ok p, write (insert p (file (bytes [])) w.fs) w)

unfoldable pub create_temp : FilePath → Text → Text → Io FilePath
unfolding pick
create_temp d prefix suffix =
    call λ w. if is_dir w d then created (pick d prefix suffix w.temps w.fs) w else (err io, w)

-- `os.ReadDir`: the entries of a directory with a mark for directories, sorted by name
abbrev pub entry_name : FilePath → FilePath → Option Text
entry_name [] (name ∷ []) = some name
entry_name (c ∷ d) (e ∷ p) = if c == e then entry_name d p else none
entry_name _ _ = none

unfoldable pub entries : FilePath → Map FilePath Node → List (Text × Bool)
entries d [] = []
entries d ((p, n) ∷ fs) =
    let rest = entries d fs in
    elim (entry_name d p) [ none ↦ rest | some name ↦ (name, is_dir_node (some n)) ∷ rest ]

unfoldable pub read_dir : FilePath → Io (List (Text × Bool))
unfolding entries sort
read_dir d = call λ w.
    if is_dir w d then (ok (sort (λ a b. text_leb a.0 b.0) (entries d w.fs)), w) else (err io, w)

-- A request body or a chunk: the bytes that arrive, and whether the stream then breaks.
pub record Reader : Type 0 where
  pub payload : Text
  pub broken : Bool

-- `io.Copy(tmp, r)` onto the end of the file, then `Close`; the number of bytes is their `length`
unfoldable pub copy_into : FilePath → Text → Reader → Io (Unit {0})
copy_into p old r w =
    meet w.faults
      (λ w. (
        if r.broken then err io else ok tt,
        write (insert p (file (bytes (old ++ r.payload))) w.fs) w,
      ))
      (raise io) w

-- `time.Now().UTC()`; the clock does not go back
unfoldable pub now : Io ℕ
now w = (ok w.clock, record w { clock = suc w.clock })

-- `rand.Read` into eight bytes
abbrev eight : List ℕ → Io Text
eight (a ∷ b ∷ c ∷ d ∷ e ∷ f ∷ g ∷ h ∷ rest) w =
    (ok (a ∷ b ∷ c ∷ d ∷ e ∷ f ∷ g ∷ h ∷ []), record w { entropy = rest })
eight _ w = (err io, w)

unfoldable pub rand_read : Io Text
rand_read w = eight w.entropy w
