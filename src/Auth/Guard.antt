-- ===== src/Auth/Guard.antt =====
-- The middleware of internal/authorization/auth.go: when it calls its handler, and when it panics.
use etos_api.Prelude.{
  ℕ, zero, suc, ◌<◌, ◌≡◌, ◌≢◌, ◌↔◌, refl, sym, ap, ◌∙◌, arith, Bool, true, false, Option, none,
  some, [], ◌∷◌, ◌++◌, Text, codes, contains_iff, In, length,
}
use mathlib.Core.Path.{subst}
use etos_api.Auth.{
  Scope, has, parse, ScopeClaim, missing, text, other, Verdict, expired, invalid, no_claims,
  verified, Jwt, calls, panics, slice_from, permit, by_claim, by_verdict, by_token, by_header,
  middleware,
}

pub slice_from-bearer : (t : Text) → slice_from 7 (codes "Bearer " ++ t) ≡ some t
unfolding slice_from
slice_from-bearer t = refl

permit-calls : (p : Text) (s r : Scope) (b : Bool) → permit p s b ≡ calls r → (b ≡ true) × (s ≡ r)
permit-calls p s r true h = (refl, cc (h))
permit-calls p s r false h = absurd (cc (h))

-- What lets a request through: a token behind seven bytes, verified, with a text as its scope.
pub record Permitted (jwt : Jwt) (now : ℕ) (permitted header : Text) (s : Scope) : Type 0 where
  pub token : Text
  pub scope : Text
  pub sliced : slice_from 7 header ≡ some token
  pub accepted : jwt.verify now token ≡ verified (text scope)
  pub parsed : parse scope ≡ s
  pub contained : In permitted s

module _ (jwt : Jwt) (now : ℕ) (permitted : Text) where
  by_claim-calls :
      (c : ScopeClaim) (s : Scope)
      → by_claim permitted c ≡ calls s
      → (t : Text) × (c ≡ text t) × (parse t ≡ s) × In permitted s
  unfolding has
  by_claim-calls missing s h = absurd (cc (h))
  by_claim-calls other s h = absurd (cc (h))
  by_claim-calls (text t) s h =
      let (ok, same) = permit-calls permitted (parse t) s (has (parse t) permitted) h in
      (t, refl, same, subst (In permitted) same ((contains_iff (parse t) permitted).0 ok))

  by_verdict-calls :
      (v : Verdict) (s : Scope)
      → by_verdict permitted v ≡ calls s
      → (t : Text) × (v ≡ verified (text t)) × (parse t ≡ s) × In permitted s
  by_verdict-calls expired s h = absurd (cc (h))
  by_verdict-calls invalid s h = absurd (cc (h))
  by_verdict-calls no_claims s h = absurd (cc (h))
  by_verdict-calls (verified c) s h =
      let (t, at, same, member) = by_claim-calls c s h in (t, ap verified at, same, member)

  by_token-calls :
      (header : Text) (o : Option Text) (s : Scope)
      → slice_from 7 header ≡ o
      → by_token jwt now permitted o ≡ calls s
      → Permitted jwt now permitted header s
  by_token-calls header none s e h = absurd (cc (h))
  by_token-calls header (some t) s e h =
      let (scope, ok, same, member) = by_verdict-calls (jwt.verify now t) s h in
      record {
        token = t;
        scope = scope;
        sliced = e;
        accepted = ok;
        parsed = same;
        contained = member;
      }

  by_header-calls :
      (header : Text) (s : Scope)
      → by_header jwt now permitted header ≡ calls s
      → Permitted jwt now permitted header s
  by_header-calls [] s h = absurd (cc (h))
  by_header-calls (c ∷ header) s h =
      by_token-calls (c ∷ header) (slice_from 7 (c ∷ header)) s refl h

  by_verdict-permitted :
      (s : Scope) (t : Text)
      → parse t ≡ s
      → In permitted s
      → by_verdict permitted (verified (text t)) ≡ calls s
  unfolding has
  by_verdict-permitted s t same member =
      ap (permit permitted (parse t))
        ((contains_iff (parse t) permitted).1 (subst (In permitted) (sym same) member))
      ∙ ap calls same

  by_token-Permitted :
      (s : Scope) (header : Text)
      → Permitted jwt now permitted header s
      → by_token jwt now permitted (slice_from 7 header) ≡ calls s
  by_token-Permitted s header p =
      ap (by_token jwt now permitted) p.sliced
      ∙ ap (by_verdict permitted) p.accepted
      ∙ by_verdict-permitted s p.scope p.parsed p.contained

  by_header-Permitted :
      (header : Text) (s : Scope)
      → Permitted jwt now permitted header s
      → by_header jwt now permitted header ≡ calls s
  by_header-Permitted [] s p = absurd (unfold slice_from in cc (p.sliced))
  by_header-Permitted (c ∷ header) s p = by_token-Permitted s (c ∷ header) p

  -- The middleware calls its handler exactly if the header has a token behind its first seven bytes
  -- that is verified and whose scope is a text with the permitted entry; the handler gets that scope.
  pub middleware_iff :
      (header : Text) (s : Scope)
      → (middleware jwt now permitted header ≡ calls s) ↔ Permitted jwt now permitted header s
  unfolding middleware
  middleware_iff header s = (by_header-calls header s, by_header-Permitted header s)

permit-no_panic : (p : Text) (s : Scope) (b : Bool) → permit p s b ≢ panics
permit-no_panic p s true h = cc (h)
permit-no_panic p s false h = cc (h)

by_verdict-no_panic : (permitted : Text) (v : Verdict) → by_verdict permitted v ≢ panics
by_verdict-no_panic permitted expired h = cc (h)
by_verdict-no_panic permitted invalid h = cc (h)
by_verdict-no_panic permitted no_claims h = cc (h)
by_verdict-no_panic permitted (verified missing) h = cc (h)
by_verdict-no_panic permitted (verified other) h = cc (h)
by_verdict-no_panic permitted (verified (text t)) h =
    permit-no_panic permitted (parse t) (has (parse t) permitted) h

slice_from-short : (n : ℕ) (t : Text) → (slice_from n t ≡ none) ↔ (length t < n)
unfolding slice_from
slice_from-short zero t = ground arith
slice_from-short (suc n) [] = ground arith
slice_from-short (suc n) (c ∷ t) = ground (arith, slice_from-short n t)

by_token_iff :
    (jwt : Jwt) (now : ℕ) (permitted : Text) (o : Option Text)
    → (by_token jwt now permitted o ≡ panics) ↔ (o ≡ none)
by_token_iff jwt now permitted none = ((λ h. refl), (λ h. refl))
by_token_iff jwt now permitted (some t) =
    ((λ h. absurd (by_verdict-no_panic permitted (jwt.verify now t) h)), (λ h. absurd (cc (h))))

-- The middleware panics exactly if there is a header and it is shorter than "Bearer ".
middleware-panics_iff :
    (jwt : Jwt) (now : ℕ) (permitted header : Text)
    → (middleware jwt now permitted header ≡ panics) ↔ ((header ≢ []) × (length header < 7))
unfolding middleware
middleware-panics_iff jwt now permitted [] = ((λ h. absurd (cc (h))), λ p. absurd (p.0 refl))
middleware-panics_iff jwt now permitted (c ∷ header) =
    let (to, from) = by_token_iff jwt now permitted (slice_from 7 (c ∷ header)) in
    let (short, long) = slice_from-short 7 (c ∷ header) in
    ((λ h. ((λ e. cc (e)), short (to h))), λ p. from (long p.1))
