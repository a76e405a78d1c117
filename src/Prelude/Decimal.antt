-- ===== src/Prelude/Decimal.antt =====
-- Decimal numbers: what `%d` prints for a number, and `strconv.ParseInt(s, 10, 64)`.
use Prim.Native.Nat.{ℕ, zero, suc, ◌+◌, ◌-◌, ◌*◌, ◌/◌, ◌%◌, ◌≤◌, ◌<◌}
use mathlib.Core.Path.{◌≡◌, refl, sym, ap, ◌∙◌}
use mathlib.Core.Logic.{inl, inr, ◌≢◌}
use mathlib.Core.Bool.{Bool, true, ◌&&◌}
use mathlib.Core.Option.{Option, none, some}
use mathlib.Core.List.{[], ◌∷◌}
use native.Mathlib.Omega.{arith}
use etos_api.Prelude.Tests.{leb, ◌==◌, Bool-cases, if◌then◌else◌}
use etos_api.Prelude.Int64.{ℤ, pos, negsuc, max_int64}
use etos_api.Prelude.Bytes.{Text, codes, Lacks}

-- The digits of `n` in front of `rest`; `n + 1` rounds are enough.
digits : ℕ → ℕ → Text → Text
digits zero n rest = rest
digits (suc f) n rest =
    let shown = (b'0' + n % 10) ∷ rest in
    let more = digits f (n / 10) shown in if leb 10 n then more else shown

unfoldable pub decimal : ℕ → Text
unfolding digits
decimal n = digits (n + 1) n []

-- `%d` of a signed number.
unfoldable pub signed_decimal : ℤ → Text
unfolding decimal
signed_decimal (pos n) = decimal n
signed_decimal (negsuc n) = b'-' ∷ decimal (suc n)

abbrev pub is_digit : ℕ → Bool
is_digit c = leb b'0' c && leb c b'9'

-- The value of digits, read from the left; `none` at another byte.
read_digits : ℕ → Text → Option ℕ
read_digits n [] = some n
read_digits n (c ∷ s) =
    let rest = read_digits (n * 10 + (c - b'0')) s in if is_digit c then rest else none

unsigned : Text → Option ℕ
unsigned [] = none
unsigned (c ∷ s) = read_digits 0 (c ∷ s)

abbrev in_range : Option ℕ → Option ℤ
in_range none = none
in_range (some n) = if leb n max_int64 then some (pos n) else none

-- The smallest value has no positive counterpart.
abbrev in_range_neg : Option ℕ → Option ℤ
in_range_neg none = none
in_range_neg (some zero) = some (pos 0)
in_range_neg (some (suc n)) = if leb n max_int64 then some (negsuc n) else none

-- `none` is an error: no digits, another byte, or a value that an int64 cannot hold.
unfoldable pub parse_int : Text → Option ℤ
unfolding unsigned read_digits
parse_int [] = none
parse_int (c ∷ s) =
    if c == b'-'
    then in_range_neg (unsigned s)
    else if c == b'+'
    then in_range (unsigned s)
    else in_range (unsigned (c ∷ s))

-- What is read in front of the digits of `n` ends as if it had been `m` digits to the left.
scale : ℕ → ℕ → ℕ → ℕ
scale zero m n = m
scale (suc f) m n = if leb 10 n then scale f m (n / 10) * 10 else m * 10

read_digits-digits :
    (f n m : ℕ) (rest : Text)
    → n < f
    → read_digits m (digits f n rest) ≡ read_digits (scale f m n + n) rest
unfolding digits read_digits scale
read_digits-digits zero n m rest h = elim h [ ]
read_digits-digits (suc f) n m rest h = elim (Bool-cases (leb 10 n)) [
  | inl big ↦
      rw big
        (read_digits-digits f (n / 10) m ((b'0' + n % 10) ∷ rest) (ground arith) ∙ ground arith)
  | inr small ↦ rw small (ground arith)
]

scale-zero : (f n : ℕ) → scale f 0 n ≡ 0
unfolding scale
scale-zero zero n = refl
scale-zero (suc f) n = ground (arith, scale-zero f (n / 10))

-- The digits begin with a digit.
digits-head :
    (f n : ℕ) (rest : Text)
    → n < f
    → (c : ℕ) × (s : Text) × (digits f n rest ≡ c ∷ s) × (is_digit c ≡ true)
unfolding digits
digits-head zero n rest h = elim h [ ]
digits-head (suc f) n rest h = elim (Bool-cases (leb 10 n)) [
  | inl big ↦ rw big (digits-head f (n / 10) ((b'0' + n % 10) ∷ rest) (ground arith))
  | inr small ↦ rw small (b'0' + n % 10, rest, refl, ground arith)
]

parse_int_of_digit :
    (c : ℕ) (s : Text) {n : ℕ}
    → is_digit c ≡ true
    → read_digits 0 (c ∷ s) ≡ some n
    → n ≤ max_int64
    → parse_int (c ∷ s) ≡ some (pos n)
unfolding parse_int
parse_int_of_digit c s h r le = ground arith

read_decimal : (n : ℕ) → read_digits 0 (digits (n + 1) n []) ≡ some n
read_decimal n =
    read_digits-digits (n + 1) n 0 [] (omega arith)
    ∙ rw (scale-zero (n + 1) n) (unfold read_digits in ap some (omega arith))

pub decimal-ne-nil : (n : ℕ) → decimal n ≢ []
decimal-ne-nil n e =
    let (c, s, shape, digit) = digits-head (n + 1) n [] (omega arith) in
    let e' : digits (n + 1) n [] ≡ [] = unfold decimal in e in cc (shape, e')

-- What `%d` prints is read back, up to the largest int64.
pub parse_int-decimal : (n : ℕ) → n ≤ max_int64 → parse_int (decimal n) ≡ some (pos n)
parse_int-decimal n h =
    let (c, s, shape, digit) = digits-head (n + 1) n [] (omega arith) in
    let shown : decimal n ≡ c ∷ s = unfold decimal in shape in
    let value : read_digits 0 (c ∷ s) ≡ some n = sym (ap (read_digits 0) shape) ∙ read_decimal n in
    rw shown (parse_int_of_digit c s digit value h)

digits-Lacks :
    (sep f n : ℕ) (rest : Text) → sep < b'0' → Lacks sep rest → Lacks sep (digits f n rest)
unfolding digits
digits-Lacks sep zero n rest h k = k
digits-Lacks sep (suc f) n rest h k = elim (Bool-cases (leb 10 n)) [
  | inl big ↦ rw big (digits-Lacks sep f (n / 10) ((b'0' + n % 10) ∷ rest) h (ground arith, k))
  | inr small ↦ rw small (ground arith, k)
]

-- A byte below the digits does not stand in a decimal number.
pub decimal-Lacks : (sep n : ℕ) → sep < b'0' → Lacks sep (decimal n)
unfolding decimal
decimal-Lacks sep n h = digits-Lacks sep (n + 1) n [] h tt

parse_tests :
    (parse_int (codes "-12") ≡ some (negsuc 11))
    × (parse_int (codes "12a") ≡ none)
    × (parse_int (codes "9223372036854775808") ≡ none)
    × (parse_int (codes "-9223372036854775808") ≡ some (negsuc max_int64))
    × (decimal 1204 ≡ codes "1204")
unfolding parse_int decimal
parse_tests = (refl, refl, refl, refl, refl)
