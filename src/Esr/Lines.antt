-- ===== src/Esr/Lines.antt =====
-- The laws of the line scanner: a longer body has the lines of a shorter one in front.
use etos_api.Prelude.{
  ℕ, ◌≡◌, refl, sym, ap, ◌∙◌, ◌≢◌, inl, inr, false, List, [], ◌∷◌, ◌++◌, append-nil, arith, Text,
  split, ltb, ◌==◌, length, Bool-cases, onto_first,
}
use etos_api.Prelude.Split.{split-ne-nil}
use etos_api.Esr.{max_token, drop_cr, whole_lines, scanned, scan}

onto_first-append :
    (c : ℕ) (xs ys : List Text) → xs ≢ [] → onto_first c (xs ++ ys) ≡ onto_first c xs ++ ys
onto_first-append c [] ys h = absurd (h refl)
onto_first-append c (x ∷ xs) ys h = refl

split-append_split : (sep : ℕ) (s t : Text) → split sep (s ++ sep ∷ t) ≡ split sep s ++ split sep t
unfolding split
split-append_split sep [] t = ground arith
split-append_split sep (c ∷ s) t = elim (Bool-cases (c == sep)) [
  | inl here ↦ rw here (ap (λ (r : List Text). [] ∷ r) (split-append_split sep s t))
  | inr other ↦ rw other (
      ap (onto_first c) (split-append_split sep s t)
      ∙ onto_first-append c (split sep s) (split sep t) (split-ne-nil sep s))
]

whole_lines-append : (xs ys : List Text) → ys ≢ [] → whole_lines (xs ++ ys) ≡ xs ++ whole_lines ys
unfolding whole_lines
whole_lines-append [] ys h = refl
whole_lines-append (x ∷ []) [] h = absurd (h refl)
whole_lines-append (x ∷ []) (y ∷ ys) h = refl
whole_lines-append (x ∷ x' ∷ xs) ys h =
    ap (λ (r : List Text). x ∷ r) (whole_lines-append (x' ∷ xs) ys h)

-- What is scanned in front is scanned first.
scanned-append : (xs ys : List Text) → (zs : List Text) × (scanned (xs ++ ys) ≡ scanned xs ++ zs)
unfolding scanned
scanned-append [] ys = (scanned ys, refl)
scanned-append (x ∷ xs) ys = elim (Bool-cases (ltb (length x) max_token)) [
  | inl fits ↦
      let (zs, e) = scanned-append xs ys in (zs, rw fits (ap (λ (r : List Text). drop_cr x ∷ r) e))
  | inr long ↦ ([], rw long)
]

-- A line break at the end starts no line.
scan_ended :
    (s : Text) → scanned (whole_lines (split b'\n' (s ++ b'\n' ∷ []))) ≡ scanned (split b'\n' s)
scan_ended s =
    let none_behind : whole_lines (split b'\n' []) ≡ [] = unfold split whole_lines in refl in
    ap (λ (r : List Text). scanned (whole_lines r)) (split-append_split b'\n' s [])
    ∙ ap scanned (
        whole_lines-append (split b'\n' s) (split b'\n' []) (split-ne-nil b'\n' [])
        ∙ ap (λ (r : List Text). split b'\n' s ++ r) none_behind
        ∙ append-nil (split b'\n' s))

-- The lines of a body that ends with a line break are the first lines of every longer body.
pub scan-append :
    (s t : Text) → (zs : List Text) × (scan (s ++ b'\n' ∷ t) ≡ scan (s ++ b'\n' ∷ []) ++ zs)
unfolding scan
scan-append s t =
    let (zs, e) = scanned-append (split b'\n' s) (whole_lines (split b'\n' t)) in
    (
      zs,
      ap (λ (r : List Text). scanned (whole_lines r)) (split-append_split b'\n' s t)
          ∙ ap scanned (whole_lines-append (split b'\n' s) (split b'\n' t) (split-ne-nil b'\n' t))
          ∙ e
          ∙ ap (λ (r : List Text). r ++ zs) (sym (scan_ended s)),
    )

scanned_long :
    (xs ys : List Text) (line : Text)
    → ltb (length line) max_token ≡ false
    → scanned (xs ++ line ∷ ys) ≡ scanned xs
unfolding scanned
scanned_long [] ys line h = rw h
scanned_long (x ∷ xs) ys line h = ground (arith, scanned_long xs ys line h)
