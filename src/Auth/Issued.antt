-- ===== src/Auth/Issued.antt =====
-- The tokens of pkg/keys/v1alpha/keys.go in front of the middleware of internal/authorization.
use etos_api.Prelude.{
  ℕ, ◌+◌, ◌<◌, ◌≡◌, ◌↔◌, inl, inr, refl, sym, ap, ◌∙◌, arith, Bool, true, false, some, [], ◌∷◌,
  ◌++◌, Text, codes, contains, contains_iff, In, leb, Bool-cases, if◌then◌else◌,
}
use mathlib.Core.Path.{subst}
use etos_api.Auth.{
  Scope, format, has, parse, anonymous_access, text, Verdict, expired, verified, Jwt, new_token,
  calls, middleware,
}
use etos_api.Auth.Scopes.{format-parse}
use etos_api.Auth.Keys.{KeyRequest, token, all_allowed, allowed, create_new}
use etos_api.Auth.Guard.{slice_from-bearer, middleware_iff}

if-true : (b x : Bool) → (if b then x else false) ≡ true → (b ≡ true) × (x ≡ true)
if-true true x h = (refl, h)
if-true false x h = absurd (cc (h))

all_allowed-In :
    (requested : Scope) (p : Text)
    → all_allowed requested ≡ true
    → In p requested
    → In p anonymous_access
unfolding all_allowed has
all_allowed-In [] p h l = absurd l
all_allowed-In (s ∷ requested) p h (inl same) =
    subst (λ x. In x anonymous_access) same
      ((contains_iff anonymous_access s).0 (if-true (contains anonymous_access s) _ h).0)
all_allowed-In (s ∷ requested) p h (inr l) =
    all_allowed-In requested p (if-true (contains anonymous_access s) _ h).1 l

module _ (jwt : Jwt) where
  -- What a token of `CreateNew` says.
  pub record IsIssued (now : ℕ) (identifier : Text) (r : KeyRequest) (t : Text) : Type 0 where
    pub signed :
        t
        ≡ jwt.sign (record {
          scope = format (parse r.scope);
          sub = identifier;
          iat = now;
          exp = now + 1800;
        })
    pub anonymous : all_allowed (parse r.scope) ≡ true

  allowed-IsIssued :
      (key b : Bool) (now : ℕ) (identifier t : Text) (r : KeyRequest)
      → all_allowed (parse r.scope) ≡ b
      → allowed jwt key now identifier (parse r.scope) b ≡ token t
      → IsIssued now identifier r t
  unfolding new_token
  allowed-IsIssued key false now identifier t r e h = absurd (cc (h))
  allowed-IsIssued false true now identifier t r e h = absurd (cc (h))
  allowed-IsIssued true true now identifier t r e h = record { signed = cc (h); anonymous = e }

  create_new-IsIssued :
      (key : Bool) (now : ℕ) (identifier t : Text) (r : KeyRequest)
      → create_new jwt key now identifier (some r) ≡ token t
      → IsIssued now identifier r t
  unfolding create_new
  create_new-IsIssued key now identifier t r h =
      allowed-IsIssued key (all_allowed (parse r.scope)) now identifier t r refl h

  -- An issued token, presented at some time.
  issued-verified :
      (now later : ℕ) (identifier t : Text) (r : KeyRequest)
      → IsIssued now identifier r t
      → jwt.verify later t ≡ (if leb (now + 1800) later then expired else verified (text r.scope))
  issued-verified now later identifier t r i =
      ap (jwt.verify later) i.signed
      ∙ jwt.verify_sign later _
      ∙ ap (λ x. if leb (now + 1800) later then expired else verified (text x))
          (format-parse r.scope)

  live : (exp later : ℕ) (c v : Verdict) → later < exp → (if leb exp later then c else v) ≡ v
  live exp later c v h = ground (arith, h)

  live_of_verified :
      (exp later : ℕ) (t u : Text)
      → (if leb exp later then expired else verified (text t)) ≡ verified (text u)
      → (later < exp) × (t ≡ u)
  live_of_verified exp later t u h = elim (Bool-cases (leb exp later)) [
    | inl late ↦ absurd (cc (ap (λ b. if b then expired else verified (text t)) late, h))
    | inr in_time ↦
        let same : verified (text t) ≡ verified (text u) =
          sym (ap (λ b. if b then expired else verified (text t)) in_time) ∙ h in
        (ground (arith, in_time), cc (same))
  ]

  -- A token that `CreateNew` issued lets a request through exactly if it is presented within 30
  -- minutes and the permitted scope was requested; the handler then gets the scope that was
  -- requested.
  pub issued_iff :
      (key : Bool) (now later : ℕ) (identifier permitted t : Text) (r : KeyRequest) (s : Scope)
      → create_new jwt key now identifier (some r) ≡ token t
      → (middleware jwt later permitted (codes "Bearer " ++ t) ≡ calls s)
        ↔ ((later < now + 1800) × (parse r.scope ≡ s) × In permitted s)
  issued_iff key now later identifier permitted t r s h =
      let i = create_new-IsIssued key now identifier t r h in
      (
        (λ through.
            let p = (middleware_iff jwt later permitted (codes "Bearer " ++ t) s).0 through in
            let same : t ≡ p.token = cc (slice_from-bearer t, p.sliced) in
            let seen =
              sym (issued-verified now later identifier t r i)
              ∙ ap (jwt.verify later) same
              ∙ p.accepted in
            let (fresh, scope) = live_of_verified (now + 1800) later r.scope p.scope seen in
            (fresh, ap parse scope ∙ p.parsed, p.contained)),
        (λ x. (middleware_iff jwt later permitted (codes "Bearer " ++ t) s).1 (record {
          token = t;
          scope = r.scope;
          sliced = slice_from-bearer t;
          accepted = issued-verified now later identifier t r i ∙ live _ later _ _ x.0;
          parsed = x.1;
          contained = x.2;
        })),
      )

  -- A token that `CreateNew` issued, whatever was requested, opens only what is in the scope of
  -- anonymous access.
  pub issued-Anonymous :
      (key : Bool) (now later : ℕ) (identifier permitted t : Text) (r : KeyRequest) (s : Scope)
      → create_new jwt key now identifier (some r) ≡ token t
      → middleware jwt later permitted (codes "Bearer " ++ t) ≡ calls s
      → In permitted anonymous_access
  issued-Anonymous key now later identifier permitted t r s h through =
      let i = create_new-IsIssued key now identifier t r h in
      let (fresh, same, member) =
        (issued_iff key now later identifier permitted t r s h).0 through in
      all_allowed-In (parse r.scope) permitted i.anonymous (subst (In permitted) (sym same) member)
