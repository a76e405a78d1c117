-- ===== src/Logarea.antt =====
-- pkg/logarea/v1alpha: `Upload` and `Download` of logarea.go, on a file system without symbolic
-- links. A location is the list of names from the file up to the root.
pub mod Uploads
pub mod Retention
pub mod Gone
pub mod Tests
use etos_api.Prelude.{
  ℕ, ◌-◌, ◌≡◌, ◌<◌, ◌&&◌, Bool, true, false, Option, none, some, List, [], ◌∷◌, ◌++◌, Text, codes,
  text_eq, split, length, init_of, last_or, is_empty, ltb, if◌then◌else◌,
}

pub data Node : Type 0 where
  directory : Node
  file : Text → Node

abbrev pub Location : Type 0
Location = List Text

unfoldable pub same_location : Location → Location → Bool
same_location [] [] = true
same_location (a ∷ r) (b ∷ s) = let rest = same_location r s in if text_eq a b then rest else false
same_location [] (b ∷ s) = false
same_location (a ∷ r) [] = false

abbrev pub FileSystem : Type 0
FileSystem = List (Location × Node)

abbrev pub entry : Location → FileSystem → Option Node
entry r [] = none
entry r ((s, n) ∷ fs) = let rest = entry r fs in if same_location s r then some n else rest

-- The root is a directory.
unfoldable pub node_at : Location → FileSystem → Option Node
node_at [] fs = some directory
node_at (a ∷ r) fs = entry (a ∷ r) fs

abbrev pub parent : Location → Location
parent [] = []
parent (a ∷ r) = r

-- The location that a name of a path leads to.
unfoldable pub push : Location → Text → Location
push r name =
    if is_empty name
    then r
    else if text_eq name (codes ".")
    then r
    else if text_eq name (codes "..")
    then parent r
    else name ∷ r

-- `os.MkdirAll`, for one of the directories of its path; `none` is an error.
abbrev pub ensured : Location → FileSystem → Option Node → Option FileSystem
ensured r fs none = some ((r, directory) ∷ fs)
ensured r fs (some directory) = some fs
ensured r fs (some (file t)) = none

unfoldable pub ensure : Location → FileSystem → Option FileSystem
ensure r fs = ensured r fs (node_at r fs)

abbrev pub and_then : Option FileSystem → (FileSystem → Option FileSystem) → Option FileSystem
and_then none next = none
and_then (some fs) next = next fs

unfoldable pub make_dirs : Location → List Text → FileSystem → Option FileSystem
make_dirs r [] fs = some fs
make_dirs r (name ∷ names) fs = and_then (ensure (push r name) fs) (make_dirs (push r name) names)

-- What `os.MkdirAll` leaves, also where it fails.
abbrev pub onward : FileSystem → (FileSystem → FileSystem) → Option FileSystem → FileSystem
onward fs next none = fs
onward fs next (some later) = next later

unfoldable pub dirs_left : Location → List Text → FileSystem → FileSystem
dirs_left r [] fs = fs
dirs_left r (name ∷ names) fs = onward fs (dirs_left (push r name) names) (ensure (push r name) fs)

-- The location that names lead to.
unfoldable pub walk : Location → List Text → Location
walk r [] = r
walk r (name ∷ names) = walk (push r name) names

-- `os.Create` with the bytes that are then copied to the file; `none` is an error.
abbrev pub created : Location → Text → FileSystem → Option Node → Option FileSystem
created r t fs (some directory) = none
created r t fs (some (file old)) = some ((r, file t) ∷ fs)
created r t fs none = some ((r, file t) ∷ fs)

unfoldable pub create : Location → Text → FileSystem → Option FileSystem
create r t fs = created r t fs (node_at r fs)

pub data Stat : Type 0 where
  found : Node → Stat
  not_exist : Stat
  not_directory : Stat

abbrev pub seen : Option Node → Stat
seen none = not_exist
seen (some n) = found n

abbrev pub through : Stat → Option Node → Stat
through next none = not_exist
through next (some (file t)) = not_directory
through next (some directory) = next

-- `os.Stat`.
unfoldable pub stat : Location → List Text → FileSystem → Stat
stat r [] fs = seen (node_at r fs)
stat r (name ∷ names) fs = through (stat (push r name) names fs) (node_at r fs)

-- `strings.Join([]string{uploadPath, path}, "/")`, and its parts.
abbrev pub full_path : Text → Text → Text
full_path upload_path path = upload_path ++ b'/' ∷ path

abbrev pub directories_of : List Text → List Text
directories_of [] = []
directories_of (part ∷ parts) = init_of part parts

abbrev pub file_of : List Text → Text
file_of [] = []
file_of (part ∷ parts) = last_or part parts

-- The body of an upload: the bytes that can be read, and whether reading fails after them.
pub record Body : Type 0 where
  pub bytes : Text
  pub fails : Bool

abbrev pub copied : Body → FileSystem → Option FileSystem → ℕ × FileSystem
copied body fs none = (500, fs)
copied body fs (some later) = (if body.fails then 500 else 200, later)

abbrev pub in_directory : Location → Text → Body → FileSystem → Option FileSystem → ℕ × FileSystem
in_directory r name body old none = (500, old)
in_directory r name body old (some fs) = copied body fs (create (push r name) body.bytes fs)

abbrev pub upload_parts : List Text → Body → FileSystem → ℕ × FileSystem
upload_parts parts body fs =
    in_directory (walk [] (directories_of parts)) (file_of parts) body
      (dirs_left [] (directories_of parts) fs) (make_dirs [] (directories_of parts) fs)

-- `Upload`.
unfoldable pub upload : Text → Text → Body → FileSystem → ℕ × FileSystem
upload upload_path [] body fs = (400, fs)
upload upload_path (c ∷ path) body fs =
    upload_parts (split b'/' (full_path upload_path (c ∷ path))) body fs

-- `Download`: a status, the name and the bytes of a file, or a directory that is served as a listing.
pub data Downloaded : Type 0 where
  refused : ℕ → Downloaded
  served : Text → Text → Downloaded
  listing : Downloaded

abbrev pub by_stat : Text → Stat → Downloaded
by_stat name (found (file t)) = served name t
by_stat name (found directory) = listing
by_stat name not_exist = refused 404
by_stat name not_directory = refused 500

abbrev pub download_parts : List Text → FileSystem → Downloaded
download_parts parts fs = by_stat (file_of parts) (stat [] parts fs)

unfoldable pub download : Text → Text → FileSystem → Downloaded
download upload_path [] fs = refused 400
download upload_path (c ∷ path) fs =
    download_parts (split b'/' (full_path upload_path (c ∷ path))) fs
