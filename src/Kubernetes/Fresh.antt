-- ===== src/Kubernetes/Fresh.antt =====
-- `IsFinished` of internal/kubernetes/kubernetes.go against the jobs of the API server.
use etos_api.Prelude.{
  ℕ, ◌+◌, ◌≤◌, ◌<◌, ◌≡◌, ◌⊎◌, refl, ap, ◌∙◌, arith, Bool, true, false, Option, none, some, [], ◌∷◌,
  Text, text_eq_iff, ◌&&◌,
}
use etos_api.Space.{Map, lookup, Decoded, value, undecoded}
use etos_api.Kubernetes.{
  Job, cache_ttl, is_fresh, stored_by, get_by, get_all, same_label, key_pair_exists, current_labels,
  legacy_labels,
}

-- The answer of the API server to a request at a time.
abbrev pub Api {ℓ} : Type ℓ → Type ℓ
Api A = ℕ → Decoded A

-- The caches that calls leave, each at the time of its call or later, up to a time.
pub data Reached {ℓ} {A : Type ℓ} (api : Api A) : Option (A × ℕ) → ℕ → Type ℓ where
  empty : (now : ℕ) → Reached api none now
  call :
      {cache : Option (A × ℕ)} {now : ℕ} (later : ℕ)
      → Reached api cache now
      → now ≤ later
      → Reached api (get_all later (api later) cache).1 later

-- This is an answer of the last five seconds.
abbrev pub IsRecent {ℓ} : {A : Type ℓ} → Api A → ℕ → A → Type ℓ
IsRecent api now a = (t : ℕ) × (t ≤ now) × (now < t + cache_ttl) × (api t ≡ value a)

abbrev Holds {ℓ} : {A : Type ℓ} → Api A → Option (A × ℕ) → ℕ → Type ℓ
Holds api none now = Unit
Holds api (some (a, t)) now = (t ≤ now) × (api t ≡ value a)

stored_by-Holds {ℓ} :
    {A : Type ℓ} (api : Api A) (cache : Option (A × ℕ)) (now : ℕ) (d : Decoded A)
    → api now ≡ d
    → Holds api cache now
    → Holds api (stored_by now cache d).1 now
      × ((a : A) → (stored_by now cache d).0 ≡ value a → IsRecent api now a)
stored_by-Holds api cache now (undecoded e) at h = (h, λ jobs k. absurd (cc (k)))
stored_by-Holds api cache now (value a) at h =
    ((omega arith, at), λ jobs k. (now, omega arith, omega arith, at ∙ k))

get_by-Holds {ℓ} :
    {A : Type ℓ} (api : Api A) (cache : Option (A × ℕ)) (now : ℕ) (b : Bool)
    → is_fresh now cache ≡ b
    → Holds api cache now
    → Holds api (get_by b now (api now) cache).1 now
      × ((a : A) → (get_by b now (api now) cache).0 ≡ value a → IsRecent api now a)
get_by-Holds api none now true e h = absurd (cc (e))
get_by-Holds api none now false e h = stored_by-Holds api none now (api now) refl h
get_by-Holds api (some (a, t)) now false e h =
    stored_by-Holds api (some (a, t)) now (api now) refl h
get_by-Holds api (some (a, t)) now true e (le, at) =
    ((le, at), λ jobs k. (t, le, ground (arith, e, le), at ∙ k))

Holds-later {ℓ} :
    {A : Type ℓ} (api : Api A) (cache : Option (A × ℕ)) (now later : ℕ)
    → now ≤ later
    → Holds api cache now
    → Holds api cache later
Holds-later api none now later le h = tt
Holds-later api (some (jobs, t)) now later le (before, at) = (omega (arith, before, le), at)

Reached-Holds {ℓ} :
    {A : Type ℓ} (api : Api A) {cache : Option (A × ℕ)} {now : ℕ}
    → Reached api cache now
    → Holds api cache now
unfolding get_all
Reached-Holds api (empty now) = tt
Reached-Holds api (call {cache} {now} later r le) =
    (get_by-Holds api cache later (is_fresh later cache) refl
      (Holds-later api cache now later le (Reached-Holds api r))).0

-- A job of the test run: it has the current labels or the legacy ones.
abbrev pub HasLabels : Map → Map → Type 0
HasLabels labels [] = Unit
HasLabels labels ((k, v) ∷ pairs) = (lookup k labels ≡ some v) × HasLabels labels pairs

abbrev pub IsOf : Text → Job → Type 0
IsOf identifier job =
    HasLabels job.labels (current_labels identifier)
    ⊎ HasLabels job.labels (legacy_labels identifier)

pub same_label_eq : (o : Option Text) (v : Text) → same_label o v ≡ true → o ≡ some v
same_label_eq none v h = absurd (cc (h))
same_label_eq (some t) v h = ap some ((text_eq_iff t v).0 h)

pub same_label_of : (o : Option Text) (v : Text) → o ≡ some v → same_label o v ≡ true
same_label_of none v h = absurd (cc (h))
same_label_of (some t) v h = (text_eq_iff t v).1 (cc (h))

both-true : (a b : Bool) → (a && b) ≡ true → (a ≡ true) × (b ≡ true)
both-true a b h = ground (arith, h)

pub key_pair_exists-HasLabels :
    (labels pairs : Map) → key_pair_exists labels pairs ≡ true → HasLabels labels pairs
unfolding key_pair_exists
key_pair_exists-HasLabels labels [] h = tt
key_pair_exists-HasLabels labels ((k, v) ∷ pairs) h =
    let (here, rest) = both-true (same_label (lookup k labels) v) _ h in
    (same_label_eq (lookup k labels) v here, key_pair_exists-HasLabels labels pairs rest)

pub key_pair_exists_of_HasLabels :
    (labels pairs : Map) → HasLabels labels pairs → key_pair_exists labels pairs ≡ true
unfolding key_pair_exists
key_pair_exists_of_HasLabels labels [] h = refl
key_pair_exists_of_HasLabels labels ((k, v) ∷ pairs) (here, rest) =
    ground (
      arith,
      same_label_of (lookup k labels) v here,
      key_pair_exists_of_HasLabels labels pairs rest,
    )

pub get_all-IsRecent {ℓ} :
    {A : Type ℓ} (api : Api A) (cache : Option (A × ℕ)) (before now : ℕ)
    → Reached api cache before
    → before ≤ now
    → (a : A) → (get_all now (api now) cache).0 ≡ value a
    → IsRecent api now a
unfolding get_all
get_all-IsRecent api cache before now r le =
    (get_by-Holds api cache now (is_fresh now cache) refl
      (Holds-later api cache before now le (Reached-Holds api r))).1
