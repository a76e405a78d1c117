-- ===== src/Logarea/Uploads.antt =====
-- `Upload` and then `Download` of pkg/logarea/v1alpha/logarea.go.
use etos_api.Prelude.{
  inl, inr, Bool-cases, ◌≡◌, ◌≢◌, refl, sym, ap, ◌∙◌, arith, true, Option, none, some, List, [],
  ◌∷◌, ◌++◌, Text, text_eq_refl, text_eq_iff, split, init_of, last_or, init_of-append-last_or,
}
use mathlib.Core.Path.{subst}
use etos_api.Prelude.Split.{split-ne-nil}
use etos_api.Logarea.{
  Node, directory, file, Location, FileSystem, same_location, node_at, push, ensured, ensure,
  and_then, make_dirs, dirs_left, walk, created, create, found, seen, through, stat, full_path,
  file_of, Body, copied, in_directory, upload_parts, upload, served, by_stat, download_parts,
  download,
}

same_location_refl : (r : Location) → same_location r r ≡ true
unfolding same_location
same_location_refl [] = refl
same_location_refl (a ∷ r) = ground (arith, text_eq_refl a, same_location_refl r)

pub same_location_eq : (r s : Location) → same_location r s ≡ true → r ≡ s
unfolding same_location
same_location_eq [] [] h = refl
same_location_eq (a ∷ r) (b ∷ s) h = ground (arith, text_eq_iff a b, same_location_eq r s)
same_location_eq [] (b ∷ s) h = absurd (cc (h))
same_location_eq (a ∷ r) [] h = absurd (cc (h))

-- Directories stay.
abbrev Keeps : FileSystem → FileSystem → Type 0
Keeps fs later = (r : Location) → node_at r fs ≡ some directory → node_at r later ≡ some directory

directory-Keeps : (r : Location) (fs : FileSystem) → Keeps fs ((r, directory) ∷ fs)
unfolding node_at
directory-Keeps r fs [] h = refl
directory-Keeps r fs (a ∷ s) h = ground (arith, h)

file-Keeps :
    (r : Location) (t : Text) (fs : FileSystem)
    → node_at r fs ≢ some directory
    → Keeps fs ((r, file t) ∷ fs)
unfolding node_at
file-Keeps r t fs other [] h = refl
file-Keeps r t fs other (a ∷ s) h = elim (Bool-cases (same_location r (a ∷ s))) [
  | inl same ↦
      absurd (
        other
          (subst (λ x. node_at x fs ≡ some directory) (sym (same_location_eq r (a ∷ s) same)) h))
  | inr different ↦ ground (arith, different, h)
]

made-directory : (r : Location) (fs : FileSystem) → node_at r ((r, directory) ∷ fs) ≡ some directory
unfolding node_at
made-directory [] fs = refl
made-directory (a ∷ r) fs = ground (arith, same_location_refl (a ∷ r))

made-file :
    (r : Location) (t : Text) (fs : FileSystem)
    → node_at r fs ≢ some directory
    → node_at r ((r, file t) ∷ fs) ≡ some (file t)
unfolding node_at
made-file [] t fs other = absurd (other refl)
made-file (a ∷ r) t fs other = ground (arith, same_location_refl (a ∷ r))

ensured-Keeps :
    (r : Location) (fs later : FileSystem) (n : Option Node)
    → node_at r fs ≡ n
    → ensured r fs n ≡ some later
    → Keeps fs later × (node_at r later ≡ some directory)
ensured-Keeps r fs later none e h =
    subst (λ x. Keeps fs x × (node_at r x ≡ some directory)) (cc (h))
      (directory-Keeps r fs, made-directory r fs)
ensured-Keeps r fs later (some directory) e h =
    subst (λ x. Keeps fs x × (node_at r x ≡ some directory)) (cc (h)) ((λ s k. k), e)
ensured-Keeps r fs later (some (file t)) e h = absurd (cc (h))

ensure-Keeps :
    (r : Location) (fs later : FileSystem)
    → ensure r fs ≡ some later
    → Keeps fs later × (node_at r later ≡ some directory)
unfolding ensure
ensure-Keeps r fs later h = ensured-Keeps r fs later (node_at r fs) refl h

and_then-some :
    (o : Option FileSystem) (next : FileSystem → Option FileSystem) (later : FileSystem)
    → and_then o next ≡ some later
    → (fs : FileSystem) × (o ≡ some fs) × (next fs ≡ some later)
and_then-some none next later h = absurd (cc (h))
and_then-some (some fs) next later h = (fs, refl, h)

make_dirs-Keeps :
    (r : Location) (names : List Text) (fs later : FileSystem)
    → make_dirs r names fs ≡ some later
    → Keeps fs later
unfolding make_dirs
make_dirs-Keeps r [] fs later h = subst (Keeps fs) (cc (h)) (λ s k. k)
make_dirs-Keeps r (name ∷ names) fs later h =
    let (mid, made, rest) = and_then-some (ensure (push r name) fs) _ later h in
    λ s k.
      make_dirs-Keeps (push r name) names mid later rest s
        ((ensure-Keeps (push r name) fs mid made).0 s k)

-- Names whose directories were made lead on to the file behind them.
stat_of_make_dirs :
    (r : Location) (names : List Text) (name : Text) (fs later last : FileSystem)
    → make_dirs r names fs ≡ some later
    → node_at r fs ≡ some directory
    → Keeps later last
    → stat r (names ++ name ∷ []) last ≡ seen (node_at (push (walk r names) name) last)
unfolding make_dirs stat walk
stat_of_make_dirs r [] name fs later last h at keeps =
    ap (through (seen (node_at (push r name) last)))
      (keeps r (subst (λ x. node_at r x ≡ some directory) (cc (h)) at))
stat_of_make_dirs r (dir ∷ names) name fs later last h at keeps =
    let (mid, made, rest) = and_then-some (ensure (push r dir) fs) _ later h in
    ap (through (stat (push r dir) (names ++ name ∷ []) last))
      (keeps r (make_dirs-Keeps r (dir ∷ names) fs later (unfold make_dirs in h) r at))
    ∙ stat_of_make_dirs (push r dir) names name mid later last rest
        (ensure-Keeps (push r dir) fs mid made).1 keeps

created-file :
    (r : Location) (t : Text) (fs later : FileSystem) (n : Option Node)
    → node_at r fs ≡ n
    → created r t fs n ≡ some later
    → Keeps fs later × (node_at r later ≡ some (file t))
created-file r t fs later none e h =
    subst (λ x. Keeps fs x × (node_at r x ≡ some (file t))) (cc (h))
      (file-Keeps r t fs (λ d. cc (e, d)), made-file r t fs (λ d. cc (e, d)))
created-file r t fs later (some directory) e h = absurd (cc (h))
created-file r t fs later (some (file old)) e h =
    subst (λ x. Keeps fs x × (node_at r x ≡ some (file t))) (cc (h))
      (file-Keeps r t fs (λ d. cc (e, d)), made-file r t fs (λ d. cc (e, d)))

copied-file :
    (r : Location) (body : Body) (old fs : FileSystem) (o : Option FileSystem)
    → o ≡ create r body.bytes fs
    → (copied body old o).0 ≡ 200
    → Keeps fs (copied body old o).1 × (node_at r (copied body old o).1 ≡ some (file body.bytes))
unfolding create
copied-file r body old fs none e h = absurd (omega (arith, h))
copied-file r body old fs (some later) e h =
    created-file r body.bytes fs later (node_at r fs) refl (sym e)

in_directory-seen :
    (names : List Text) (name : Text) (body : Body) (fs old : FileSystem) (o : Option FileSystem)
    → o ≡ make_dirs [] names fs
    → (in_directory (walk [] names) name body old o).0 ≡ 200
    → stat [] (names ++ name ∷ []) (in_directory (walk [] names) name body old o).1
      ≡ found (file body.bytes)
in_directory-seen names name body fs old none e h = absurd (omega (arith, h))
in_directory-seen names name body fs old (some later) e h =
    let (keeps, made) = copied-file (push (walk [] names) name) body later later _ refl h in
    stat_of_make_dirs [] names name fs later _ (sym e) (unfold node_at in refl) keeps ∙ ap seen made

upload_parts-served :
    (parts : List Text) (body : Body) (fs : FileSystem)
    → parts ≢ []
    → (upload_parts parts body fs).0 ≡ 200
    → download_parts parts (upload_parts parts body fs).1 ≡ served (file_of parts) body.bytes
upload_parts-served [] body fs some_part h = absurd (some_part refl)
upload_parts-served (part ∷ parts) body fs some_part h =
    ap
      (λ names.
        by_stat (last_or part parts) (stat [] names (upload_parts (part ∷ parts) body fs).1))
      (sym (init_of-append-last_or part parts))
    ∙ ap (by_stat (last_or part parts)) (
        in_directory-seen (init_of part parts) (last_or part parts) body fs
          (dirs_left [] (init_of part parts) fs) _ refl h)

-- A file that was uploaded with 200 is downloaded again under the same path with the bytes that were
-- sent, under the name behind the last slash; whatever was there before.
pub upload-download :
    (upload_path path : Text) (body : Body) (fs : FileSystem)
    → (upload upload_path path body fs).0 ≡ 200
    → download upload_path path (upload upload_path path body fs).1
      ≡ served (file_of (split b'/' (full_path upload_path path))) body.bytes
unfolding upload download
upload-download upload_path [] body fs h = absurd (omega (arith, h))
upload-download upload_path (c ∷ path) body fs h =
    upload_parts-served (split b'/' (full_path upload_path (c ∷ path))) body fs
      (split-ne-nil b'/' (full_path upload_path (c ∷ path))) h
