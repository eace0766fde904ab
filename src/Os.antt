-- ===== src/Os.antt =====
-- The parts of Go's standard library that the store calls: the file system of package os, paths,
-- time.Now and rand.Read, over an explicit world.
-- A path is absolute and clean: the list of its components. `faults` says, call by call, which
-- calls of the operating system fail; when the list is used up none does.
pub mod Files
pub mod Paths
pub mod Calm
pub mod Dirs
use zarf_api.Prelude.{
  ℕ, zero, suc, ◌+◌, Bool, true, false, ◌&&◌, Option, none, some, List, [], ◌∷◌, ◌++◌, map, Text,
  Map, ◌==◌, nat_eq, list_eq, lookup, insert, delete, sort, text_leb, if◌then◌else◌,
}
use zarf_api.Records.{Package, Upload, Error, fs_not_exist, io}

abbrev pub FilePath : Type 0
FilePath = List Text

-- What a file holds: bytes, or a JSON document of package encoding/json, which reads back as the
-- value that it was written from.
pub data Content : Type 0 where
  bytes : Text → Content
  package_doc : Package → Content
  upload_doc : Upload → Content

pub data Node : Type 0 where
  dir : Node
  file : Content → Node

-- A refused call changes nothing. A torn write leaves an empty file behind.
pub data Fault : Type 0 where
  fine refused torn : Fault

pub record World : Type 0 where
  pub fs : Map FilePath Node
  pub faults : List Fault
  pub clock : ℕ
  pub entropy : List ℕ  -- of rand.Read
  pub temps : List ℕ  -- of os.CreateTemp

pub data Result {ℓ} (A : Type ℓ) : Type ℓ where
  ok : A → Result A
  err : Error → Result A

abbrev pub Io : Type 0 → Type 0
Io A = World → Result A × World

abbrev pub pure : {A : Type 0} → A → Io A
pure a w = (ok a, w)

abbrev pub raise : {A : Type 0} → Error → Io A
raise e w = (err e, w)

abbrev pub continue : {A B : Type 0} → Result A → (A → Io B) → World → Result B × World
continue (ok a) f w = f a w
continue (err e) f w = (err e, w)

infixl 5 ◌>>=◌ ◌>>◌
abbrev pub ◌>>=◌ : {A B : Type 0} → Io A → (A → Io B) → Io B
◌>>=◌ m f w = let (r, w') = m w in continue r f w'

abbrev pub ◌>>◌ : {B : Type 0} → Io (Unit {0}) → Io B → Io B
m >> k = m >>= λ _. k

-- The outcome of `m` as a value, for the code that looks at `err`.
abbrev pub attempt : {A : Type 0} → Io A → Io (Result A)
attempt m w = let (r, w') = m w in (ok r, w')

-- `defer`: `cleanup` runs whatever the outcome of `m`, and its own outcome is dropped.
abbrev pub finally : {A B : Type 0} → Io A → Io B → Io A
finally m cleanup w = let (r, w') = m w in (r, (cleanup w').1)

-- One call of the operating system: it meets the next fault of the list.
abbrev pub meet : {A : Type 0} → List Fault → Io A → Io A → Io A
meet [] m broken w = m w
meet (fine ∷ faults) m broken w = m (record w { faults = faults })
meet (refused ∷ faults) m broken w = (err io, record w { faults = faults })
meet (torn ∷ faults) m broken w = broken (record w { faults = faults })

abbrev pub call : {A : Type 0} → Io A → Io A
call m w = meet w.faults m (raise io) w
