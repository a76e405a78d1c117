-- ===== src/Service/Issuing.antt =====
-- The key service of cmd/keys with `CreateNew` of pkg/keys/v1alpha/keys.go: when it issues tokens.
use etos_api.Prelude.{
  ℕ, Bool, true, false, Option, none, some, [], ◌≡◌, ◌↔◌, refl, arith, Text, is_empty,
  if◌then◌else◌, Bool-cases, inl, inr,
}
use etos_api.Auth.{Jwt, Scope, parse, new_authorizer, new_token}
use etos_api.Auth.Keys.{KeyRequest, token, all_allowed, allowed, create_new}
use etos_api.Service.Config.{BaseConfig, KeyConfig, Key, key_at}
use etos_api.Service.Server.{WebService}
use etos_api.Service.Start.{
  Started, fatal, panicked, serving, Machine, logged, with_service, key_or_fatal,
  authorizer_or_fatal, start_keys,
}

-- A private key was set and read, and is not empty.
abbrev pub HasKey : Key → Type 0
HasKey Key.nil = ⊥
HasKey (Key.read none) = ⊥
HasKey (Key.read (some bytes)) = is_empty bytes ≡ false

with_service-serving :
    {A : Type 0} {a : A} {w : WebService} (c : BaseConfig) (started : Started A)
    → with_service c started ≡ serving (a, w)
    → started ≡ serving a
with_service-serving c fatal h = absurd (cc (h))
with_service-serving c panicked h = absurd (cc (h))
with_service-serving c (serving a) h = cc (h)

logged-serving :
    {A : Type 0} {a : A} (m : Machine) (started : Started A)
    → logged m started ≡ serving a
    → started ≡ serving a
logged-serving m started h = elim (Bool-cases m.level_parses) [
  | inl e ↦ elim (Bool-cases m.has_hostname) [
    | inl f ↦ ground (arith, e, f, h)
    | inr f ↦ ground (arith, e, f, h)
  ]
  | inr e ↦ ground (arith, e, h)
]

key_or_fatal-serving :
    {signs : Bool} (key : Key) (next : Text → Started Bool)
    → key_or_fatal key next ≡ serving signs
    → (bytes : Text) × (next bytes ≡ serving signs)
key_or_fatal-serving Key.nil next h = ([], h)
key_or_fatal-serving (Key.read none) next h = absurd (cc (h))
key_or_fatal-serving (Key.read (some bytes)) next h = (bytes, h)

signs_by :
    {signs : Bool} (empty public_parses private_parses : Bool)
    → authorizer_or_fatal (
        if empty
        then if public_parses then some false else none
        else if private_parses
        then if public_parses then some true else none
        else none)
      ≡ serving signs
    → (signs ≡ true) ↔ (empty ≡ false)
signs_by true true private_parses h = (λ e. cc (e, h), λ e. cc (e))
signs_by true false private_parses h = absurd (cc (h))
signs_by false true true h = (λ e. refl, λ e. cc (h))
signs_by false true false h = absurd (cc (h))
signs_by false false true h = absurd (cc (h))
signs_by false false false h = absurd (cc (h))

new_authorizer-signs :
    {signs : Bool} (parses_public parses_private : Text → Bool) (public_bytes private_bytes : Text)
    → authorizer_or_fatal (new_authorizer parses_public parses_private public_bytes private_bytes)
      ≡ serving signs
    → (signs ≡ true) ↔ (is_empty private_bytes ≡ false)
unfolding new_authorizer
new_authorizer-signs parses_public parses_private public_bytes private_bytes =
    signs_by (is_empty private_bytes) (parses_public public_bytes) (parses_private private_bytes)

allowed-token :
    (jwt : Jwt) (signs : Bool) (now : ℕ) (identifier : Text) (requested : Scope) (b : Bool)
    → ((t : Text) × (allowed jwt signs now identifier requested b ≡ token t))
      ↔ ((signs ≡ true) × (b ≡ true))
unfolding new_token
allowed-token jwt true now identifier requested true = (λ p. (refl, refl), λ p. (_, refl))
allowed-token jwt false now identifier requested true =
    (λ p. absurd (cc (p.1)), λ p. absurd (cc (p.0)))
allowed-token jwt signs now identifier requested false =
    (λ p. absurd (cc (p.1)), λ p. absurd (cc (p.1)))

key-signs :
    {signs : Bool} (parses_public parses_private : Text → Bool) (public_bytes : Text)
    (private_key : Key)
    → key_or_fatal private_key (λ private_bytes.
      authorizer_or_fatal (new_authorizer parses_public parses_private public_bytes private_bytes))
      ≡ serving signs
    → (signs ≡ true) ↔ HasKey private_key
key-signs parses_public parses_private public_bytes Key.nil h =
    let (to, back) = new_authorizer-signs parses_public parses_private public_bytes [] h in
    (λ e. cc (to e), λ k. elim k [ ])
key-signs parses_public parses_private public_bytes (Key.read none) h = absurd (cc (h))
key-signs parses_public parses_private public_bytes (Key.read (some bytes)) h =
    new_authorizer-signs parses_public parses_private public_bytes bytes h

-- A key service that serves issues a token for a decoded request exactly if a private key was
-- configured and its file is not empty, and all requested scopes are allowed for anonymous access.
pub start_keys-issues_iff :
    (c : KeyConfig) (m : Machine) (files : Text → Option Text)
    (parses_public parses_private : Text → Bool) (signs : Bool) (w : WebService) (jwt : Jwt)
    (now : ℕ) (identifier : Text) (r : KeyRequest)
    → start_keys c m files parses_public parses_private ≡ serving (signs, w)
    → ((t : Text) × (create_new jwt signs now identifier (some r) ≡ token t))
      ↔ (HasKey (key_at files c.private_key_path) × (all_allowed (parse r.scope) ≡ true))
unfolding start_keys create_new
start_keys-issues_iff c m files parses_public parses_private signs w jwt now identifier r h =
    let (public_bytes, served) =
      key_or_fatal-serving (key_at files c.base.public_key_path) _
        (logged-serving m _ (with_service-serving c.base _ h)) in
    let key =
      key-signs parses_public parses_private public_bytes (key_at files c.private_key_path)
        served in
    let issue =
      allowed-token jwt signs now identifier (parse r.scope) (all_allowed (parse r.scope)) in
    (λ p. let (s, all) = issue.0 p in (key.0 s, all), λ p. issue.1 (key.1 p.0, p.1))
