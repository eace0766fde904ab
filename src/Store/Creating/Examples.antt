-- ===== src/Store/Creating/Examples.antt =====
-- A session that is opened on a disk without one.
use zarf_api.Prelude.{◌≡◌, ◌≢◌, refl, some, [], ◌∷◌, Text, lit, lookup, nat_eq, list_eq, arith}
use zarf_api.Os.{FilePath, Node, World, dir, ok}
use zarf_api.Os.Dirs.{Clear}
use zarf_api.Os.Paths.{join}
use zarf_api.Store.Uploads.{hex, session_dir, session_file, chunks_dir, create_upload, get_upload}
use zarf_api.Store.Chunks.{IsOpen}
use zarf_api.Store.Examples.{store}
use zarf_api.Store.Creating.{session_of, create_upload_lem}

abbrev random : Text
random = 0x01 ∷ 0x23 ∷ 0x45 ∷ 0x67 ∷ 0x89 ∷ 0xab ∷ 0xcd ∷ 0xef ∷ []

abbrev disk : World
disk = record {
  fs = (lit "u" ∷ [], dir) ∷ [];
  faults = [];
  clock = 4;
  entropy = random;
  temps = [];
}

way : Clear disk.fs [] (chunks_dir store (hex random))
unfolding hex session_dir join lookup
way = ((λ d h. cc), ((λ d h. cc), ((λ d h. cc), tt)))

no_session : lookup (session_file store (hex random)) disk.fs ≢ some dir
unfolding hex session_dir join lookup
no_session h = cc

create_upload_lem_example :
    let u = session_of (lit "b.tar") [] disk random in
    let out = create_upload store (lit "b.tar") [] disk in
    (out.0 ≡ ok u)
    × IsOpen store (hex random) u out.1
    × (get_upload store (hex random) out.1 ≡ (ok u, out.1))
    × ((p : FilePath) (n : Node)
        → session_file store (hex random) ≢ p
        → lookup p disk.fs ≡ some n
        → lookup p out.1.fs ≡ some n)
create_upload_lem_example =
    create_upload_lem store (lit "b.tar") [] disk refl random [] refl (omega arith) refl way
      no_session
