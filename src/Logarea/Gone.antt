-- ===== src/Logarea/Gone.antt =====
-- What is below an entry that a cleanup of pkg/logarea/v1alpha/retention.go removes.
use etos_api.Prelude.{
  ℕ, ◌≡◌, ◌≢◌, refl, sym, ap, ◌∙◌, inl, inr, ◌⊎◌, Bool, true, false, Option, none, some, List, [],
  ◌∷◌, Text, split,
}
use etos_api.Logarea.{
  Node, file, directory, Location, same_location, FileSystem, entry, node_at, push, Stat, found,
  not_exist, not_directory, seen, through, stat, served, download, by_stat, full_path, file_of,
}
use etos_api.Logarea.Retention.{
  Entry, expired, is_under, remove_all, remove_each, cleanup, visits, entry-remove_none,
  entry-remove_under,
}

-- Some element has the property.
abbrev pub Some {ℓ} : {A : Type ℓ} → (A → Type 0) → List A → Type 0
Some P [] = ⊥
Some P (x ∷ xs) = P x ⊎ Some P xs

-- The location lies below the entry, of which a removal leaves nothing.
abbrev pub IsLost : Location → Location → Entry → Type 0
IsLost upload r e = (is_under (e.name ∷ upload) r ≡ true) × (e.survives ≡ (λ (l : Location). false))

remove_each-none :
    (upload r : Location) (es : List Entry) (fs : FileSystem)
    → entry r fs ≡ none
    → entry r (remove_each upload es fs) ≡ none
unfolding remove_each
remove_each-none upload r [] fs h = h
remove_each-none upload r (e ∷ es) fs h =
    remove_each-none upload r es (remove_all (e.name ∷ upload) e.survives fs)
      (entry-remove_none (e.name ∷ upload) e.survives r fs h)

entry-remove_each :
    (upload r : Location) (es : List Entry) (fs : FileSystem)
    → Some (IsLost upload r) es
    → entry r (remove_each upload es fs) ≡ none
unfolding remove_each
entry-remove_each upload r [] fs h = elim h [ ]
entry-remove_each upload r (e ∷ es) fs (inl (under, all)) =
    remove_each-none upload r es (remove_all (e.name ∷ upload) e.survives fs) (
      ap (λ (f : Location → Bool). entry r (remove_all (e.name ∷ upload) f fs)) all
      ∙ entry-remove_under (e.name ∷ upload) r fs under)
entry-remove_each upload r (e ∷ es) fs (inr later) =
    entry-remove_each upload r es (remove_all (e.name ∷ upload) e.survives fs) later

-- The root lies below no entry.
root_apart : (upload : Location) (es : List Entry) → Some (IsLost upload []) es → ⊥
unfolding is_under same_location
root_apart upload [] h = elim h [ ]
root_apart upload (e ∷ es) (inl (under, all)) = cc (under)
root_apart upload (e ∷ es) (inr later) = root_apart upload es later

node_at-remove_lost :
    (upload r : Location) (es : List Entry) (fs : FileSystem)
    → Some (IsLost upload r) es
    → node_at r (remove_each upload es fs) ≡ none
unfolding node_at
node_at-remove_lost upload [] es fs h = elim (root_apart upload es h) [ ]
node_at-remove_lost upload (a ∷ r) es fs h = entry-remove_each upload (a ∷ r) es fs h

through-found :
    (s : Stat) (o : Option Node) (n : Node) → through s o ≡ found n → (s ≡ found n) × (o ≢ none)
through-found s none n h = absurd (cc (h))
through-found s (some (file t)) n h = absurd (cc (h))
through-found s (some directory) n h = (h, λ e. cc (e))

-- What is found has all that its path leads through.
stat-found :
    (r : Location) (names : List Text) (fs : FileSystem) (n : Node)
    → stat r names fs ≡ found n
    → Some (λ (l : Location). node_at l fs ≡ none) (visits r names)
    → ⊥
unfolding stat
stat-found r [] fs n h (inl missing) = cc (sym (ap seen missing) ∙ h)
stat-found r [] fs n h (inr later) = elim later [ ]
stat-found r (name ∷ names) fs n h (inl missing) =
    (through-found (stat (push r name) names fs) (node_at r fs) n h).1 missing
stat-found r (name ∷ names) fs n h (inr later) =
    stat-found (push r name) names fs n
      (through-found (stat (push r name) names fs) (node_at r fs) n h).0 later

Some-map :
    {P Q : Location → Type 0} (rs : List Location)
    → ((r : Location) → P r → Q r)
    → Some P rs
    → Some Q rs
Some-map [] f h = h
Some-map (r ∷ rs) f (inl h) = inl (f r h)
Some-map (r ∷ rs) f (inr h) = inr (Some-map rs f h)

by_stat-served :
    (name : Text) (s : Stat) {file_name t : Text}
    → by_stat name s ≡ served file_name t
    → (n : Node) × (s ≡ found n)
by_stat-served name (found n) h = (n, refl)
by_stat-served name not_exist h = absurd (cc (h))
by_stat-served name not_directory h = absurd (cc (h))

-- A file below an expired entry of the upload directory, however new the file is, is not served behind a
-- cleanup that removes the entry.
pub cleanup-ne-served :
    (now retention : ℕ) (upload : Location) (es : List Entry) (fs later : FileSystem)
    (upload_path path file_name t : Text)
    → cleanup now retention upload (some es) fs ≡ some later
    → Some
        (λ (r : Location). Some (IsLost upload r) (expired now retention es))
        (visits [] (split b'/' (full_path upload_path path)))
    → download upload_path path later ≢ served file_name t
unfolding cleanup download
cleanup-ne-served now retention upload es fs later upload_path [] file_name t h lost e = cc (e)
cleanup-ne-served now retention upload es fs later upload_path (c ∷ path) file_name t h lost e =
    let parts : List Text = split b'/' (full_path upload_path (c ∷ path)) in
    let removed : remove_each upload (expired now retention es) fs ≡ later = cc (h) in
    let (n, f) = by_stat-served (file_of parts) (stat [] parts later) e in
    stat-found [] parts later n f (
      Some-map (visits [] parts)
        (λ r p.
          ap (node_at r) (sym removed)
          ∙ node_at-remove_lost upload r (expired now retention es) fs p)
        lost)
