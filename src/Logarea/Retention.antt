-- ===== src/Logarea/Retention.antt =====
-- pkg/logarea/v1alpha/retention.go: the removal of what has not changed for long. Only the entries of
-- the upload directory are looked at, each with all that is below it.
use etos_api.Prelude.{
  ℕ, ◌+◌, ◌≡◌, refl, sym, ap, ◌∙◌, inl, inr, Bool, true, false, not, ◌&&◌, ◌||◌, Option, none, some,
  List, [], ◌∷◌, Text, ltb, All, if◌then◌else◌, Bool-cases,
}
use etos_api.Logarea.Uploads.{same_location_eq}
use etos_api.Logarea.{Location, same_location, FileSystem, entry, push}

-- An entry of the upload directory: its name, the time of its last change unless `Info` fails, and
-- what `RemoveAll` leaves of it, which is nothing if it succeeds.
pub record Entry : Type 0 where
  pub name : Text
  pub modified : Option ℕ
  pub survives : Location → Bool

-- `time.Since(info.ModTime()) > retention`, at the time `now`.
abbrev pub older_than : ℕ → ℕ → Option ℕ → Bool
older_than now retention none = false
older_than now retention (some modified) = ltb (modified + retention) now

-- The first loop of `cleanup`.
unfoldable pub expired : ℕ → ℕ → List Entry → List Entry
expired now retention [] = []
expired now retention (e ∷ es) =
    let rest = expired now retention es in
    if older_than now retention e.modified then e ∷ rest else rest

unfoldable pub is_under : Location → Location → Bool
is_under base [] = same_location base []
is_under base (a ∷ r) = same_location base (a ∷ r) || is_under base r

-- `os.RemoveAll`.
unfoldable pub remove_all : Location → (Location → Bool) → FileSystem → FileSystem
remove_all base survives [] = []
remove_all base survives ((r, n) ∷ fs) =
    let rest = remove_all base survives fs in
    if is_under base r && not (survives r) then rest else (r, n) ∷ rest

-- The second loop of `cleanup`.
unfoldable pub remove_each : Location → List Entry → FileSystem → FileSystem
unfolding remove_all
remove_each upload [] fs = fs
remove_each upload (e ∷ es) fs = remove_each upload es (remove_all (e.name ∷ upload) e.survives fs)

-- `cleanup`: the process ends, by `none`, if the upload directory cannot be read.
unfoldable pub cleanup : ℕ → ℕ → Location → Option (List Entry) → FileSystem → Option FileSystem
unfolding expired remove_each
cleanup now retention upload none fs = none
cleanup now retention upload (some es) fs = some (remove_each upload (expired now retention es) fs)

-- The case of the `select` in `run` that is taken: the timer at a time, with what `ReadDir` gives.
pub data Choice : Type 0 where
  quit : Choice
  timer : ℕ → Option (List Entry) → Choice

abbrev pub and_on : (FileSystem → Option FileSystem) → Option FileSystem → Option FileSystem
and_on next none = none
and_on next (some fs) = next fs

-- `run`, without the uploads that come between the cleanups.
unfoldable pub run : ℕ → Location → List Choice → FileSystem → Option FileSystem
unfolding cleanup
run retention upload [] fs = some fs
run retention upload (quit ∷ choices) fs = some fs
run retention upload (timer now es ∷ choices) fs =
    and_on (run retention upload choices) (cleanup now retention upload es fs)

-- The locations that `os.Stat` looks at.
abbrev pub visits : Location → List Text → List Location
visits r [] = r ∷ []
visits r (name ∷ names) = r ∷ visits (push r name) names

-- The location lies below no entry that is removed.
abbrev pub IsApart : Location → List Entry → Location → Type 0
IsApart upload es r = All (λ (e : Entry). is_under (e.name ∷ upload) r ≡ false) es

module _ (base : Location) (survives : Location → Bool) where
  -- What is not there is not there behind a removal.
  pub entry-remove_none :
      (r : Location) (fs : FileSystem)
      → entry r fs ≡ none
      → entry r (remove_all base survives fs) ≡ none
  unfolding remove_all
  entry-remove_none r [] h = refl
  entry-remove_none r ((s, n) ∷ fs) h = elim (Bool-cases (same_location s r)) [
    | inl same ↦ absurd (some_there same)
    | inr other ↦
        let rest : entry r fs ≡ none =
          sym (ap (λ (b : Bool). if b then some n else entry r fs) other) ∙ h in
        elim (Bool-cases (is_under base s && not (survives s))) [
          | inl removed ↦ rw removed (entry-remove_none r fs rest)
          | inr kept ↦ rw (kept, other) (entry-remove_none r fs rest)
        ]
  ]
    where
      some_there : same_location s r ≡ true → ⊥
      some_there same = cc (sym (ap (λ (b : Bool). if b then some n else entry r fs) same) ∙ h)

-- A removal that succeeds leaves nothing below the entry.
pub entry-remove_under :
    (base r : Location) (fs : FileSystem)
    → is_under base r ≡ true
    → entry r (remove_all base (λ s. false) fs) ≡ none
unfolding remove_all
entry-remove_under base r [] h = refl
entry-remove_under base r ((s, n) ∷ fs) h = elim (Bool-cases (is_under base s)) [
  | inl removed ↦ rw removed (entry-remove_under base r fs h)
  | inr kept ↦
      let other : same_location s r ≡ false = not_same kept in
      rw (kept, other) (entry-remove_under base r fs h)
]
  where
    not_same : is_under base s ≡ false → same_location s r ≡ false
    not_same kept = elim (Bool-cases (same_location s r)) [
      | inl same ↦
          let e : is_under base r ≡ false =
            ap (is_under base) (sym (same_location_eq s r same)) ∙ kept in
          absurd (cc (e, h))
      | inr other ↦ other
    ]
