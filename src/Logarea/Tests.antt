-- ===== src/Logarea/Tests.antt =====
-- The log area on a small file system.
use etos_api.Prelude.{◌≡◌, refl, false, some, List, [], ◌∷◌, codes, text_eq, split}
use etos_api.Logarea.{
  directory, file, FileSystem, same_location, node_at, push, ensure, make_dirs, dirs_left, walk,
  create, Body, upload, download, served, full_path, file_of,
}
use etos_api.Logarea.Uploads.{upload-download}
use etos_api.Logarea.Retention.{Entry}

abbrev body : Body
body = record { bytes = codes "log"; fails = false }

abbrev used : FileSystem
used = (codes "a" ∷ codes "up" ∷ [], file (codes "old")) ∷ (codes "up" ∷ [], directory) ∷ []

upload-download_example :
    download (codes "/up") (codes "run/b") (upload (codes "/up") (codes "run/b") body used).1
    ≡ served (file_of (split b'/' (full_path (codes "/up") (codes "run/b")))) (codes "log")
unfolding upload make_dirs dirs_left ensure create node_at same_location push walk split text_eq
upload-download_example = upload-download (codes "/up") (codes "run/b") body used refl

-- A path with two dots leaves the upload directory.
outside :
    node_at (codes "b" ∷ []) (upload (codes "/up") (codes "../b") body used).1
    ≡ some (file (codes "log"))
unfolding upload make_dirs dirs_left ensure create node_at same_location push walk split text_eq
outside = refl

-- A file that stands where a directory is needed.
blocked : (upload (codes "/up") (codes "a/b") body used).0 ≡ 500
unfolding upload make_dirs dirs_left ensure create node_at same_location push walk split text_eq
blocked = refl

-- Two runs in the upload directory, one of which has not changed for more than 100.
abbrev two_runs : FileSystem
two_runs =
    (codes "log" ∷ codes "new" ∷ codes "up" ∷ [], file (codes "kept"))
    ∷ (codes "new" ∷ codes "up" ∷ [], directory)
    ∷ (codes "log" ∷ codes "old" ∷ codes "up" ∷ [], file (codes "lost"))
    ∷ (codes "old" ∷ codes "up" ∷ [], directory)
    ∷ (codes "up" ∷ [], directory)
    ∷ []

abbrev runs : List Entry
runs =
    record { name = codes "new"; modified = some 950; survives = λ r. false }
    ∷ record { name = codes "old"; modified = some 800; survives = λ r. false }
    ∷ []

abbrev cleaned : FileSystem
cleaned =
    (codes "log" ∷ codes "new" ∷ codes "up" ∷ [], file (codes "kept"))
    ∷ (codes "new" ∷ codes "up" ∷ [], directory)
    ∷ (codes "up" ∷ [], directory)
    ∷ []
