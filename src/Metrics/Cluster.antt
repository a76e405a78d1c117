-- ===== src/Metrics/Cluster.antt =====
-- internal/metrics/cluster.go: the identity of the cluster that the metrics carry.
-- `strings.TrimSpace` is a parameter.
use etos_api.Prelude.{
  ℕ, Bool, true, false, Option, none, some, List, [], ◌∷◌, ◌++◌, ◌≡◌, ◌≢◌, sym, ap, ◌∙◌, arith, inl,
  inr, not, ◌&&◌, ◌==◌, Text, codes, Lacks, split, is_empty, Bool-cases, if◌then◌else◌,
}
use etos_api.Prelude.Split.{split-append, split-Lacks}

-- `strings.Contains(t, sep)` for a separator of one byte.
unfoldable pub has_byte : ℕ → Text → Bool
has_byte sep [] = false
has_byte sep (c ∷ t) = let rest = has_byte sep t in if c == sep then true else rest

abbrev pub unassigned : Text
unassigned = codes "unassigned"

abbrev is_assigned : Text → Text → Bool
is_assigned namespace cluster =
    not (is_empty namespace)
    && not (is_empty cluster)
    && not (has_byte b'/' namespace)
    && not (has_byte b'/' cluster)

-- The identity of a trimmed namespace and cluster.
unfoldable pub identity_of : Text → Text → Text
identity_of namespace cluster =
    if is_assigned namespace cluster then namespace ++ b'/' ∷ cluster else unassigned

-- The namespace is that of the service account's file, if it can be read, or of the environment.
unfoldable pub cluster_attribute : (Text → Text) → Text → Option Text → Text → Text
cluster_attribute trim_space namespace_env namespace_file cluster_env =
    let cluster = trim_space cluster_env in
    elim namespace_file [
      | none ↦ identity_of (trim_space namespace_env) cluster
      | some value ↦ identity_of (trim_space value) cluster
    ]

Lacks-of_has_byte : (sep : ℕ) (t : Text) → has_byte sep t ≡ false → Lacks sep t
unfolding has_byte
Lacks-of_has_byte sep [] h = tt
Lacks-of_has_byte sep (c ∷ t) h = (ground arith, Lacks-of_has_byte sep t (ground arith))

-- An assigned identity has two parts, the namespace and the cluster.
split-identity_of :
    (namespace cluster : Text)
    → identity_of namespace cluster ≢ unassigned
    → split b'/' (identity_of namespace cluster) ≡ namespace ∷ cluster ∷ []
unfolding identity_of
split-identity_of namespace cluster h = elim (Bool-cases (is_assigned namespace cluster)) [
  | inl assigned ↦ rw assigned (
      split-append b'/' namespace cluster (Lacks-of_has_byte b'/' namespace (ground arith))
      ∙ ap (λ (parts : List Text). namespace ∷ parts)
          (split-Lacks b'/' cluster (Lacks-of_has_byte b'/' cluster (ground arith))))
  | inr missing ↦ absurd (h (rw missing))
]

-- Two clusters with the same assigned identity have the same namespace and the same cluster name.
pub identity_of-injective :
    (namespace cluster namespace' cluster' : Text)
    → identity_of namespace cluster ≢ unassigned
    → identity_of namespace cluster ≡ identity_of namespace' cluster'
    → (namespace ≡ namespace') × (cluster ≡ cluster')
identity_of-injective namespace cluster namespace' cluster' h e =
    let mine = split-identity_of namespace cluster h in
    let yours = split-identity_of namespace' cluster' (λ u. h (e ∙ u)) in
    let same : namespace ∷ cluster ∷ [] ≡ namespace' ∷ cluster' ∷ [] =
      sym mine ∙ ap (split b'/') e ∙ yours in
    (cc, cc)
