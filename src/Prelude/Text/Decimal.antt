-- ===== src/Prelude/Text/Decimal.antt =====
-- Decimal numbers: `%d` of `fmt` and `strconv.Atoi`, for a 64-bit `int`.
use empire.Prelude.Tests.{ltb, leb, ◌==◌, if◌then◌else◌, Bool-cases}
use empire.Prelude.Lists.{All}
use empire.Prelude.Int.{ℤ, pos, negsuc, pos_part, neg_part}
use empire.Prelude.Text.{Text, Lacks}
use Prim.Native.Nat.{ℕ, zero, suc, ◌+◌, ◌-◌, ◌*◌, ◌/◌, ◌%◌, ◌^◌, ◌≤◌, ◌<◌}
use mathlib.Core.Path.{◌≡◌, refl, ap, ◌∙◌}
use mathlib.Core.Logic.{◌≢◌, inl, inr}
use mathlib.Core.Bool.{◌||◌}
use mathlib.Core.Option.{Option, none, some}
use mathlib.Core.List.{[], ◌∷◌}
use native.Mathlib.Numerals.{add-one}
use native.Mathlib.Omega.{arith}

-- Each round writes one digit; a number has fewer rounds than its value.
digits : ℕ → ℕ → Text → Text
digits zero n out = out
digits (suc fuel) n out =
    let rest = digits fuel (n / 10) ((b'0' + n % 10) ∷ out) in if n == 0 then out else rest

-- `%d` of a number that is not negative
unfoldable pub format_nat : ℕ → Text
unfolding digits
format_nat n = if n == 0 then b'0' ∷ [] else digits n n []

-- `%d`
unfoldable pub format_int : ℤ → Text
unfolding format_nat
format_int (pos n) = format_nat n
format_int (negsuc n) = b'-' ∷ format_nat (n + 1)

-- The digits behind `n`, while the value stays below `limit`.
unfoldable pub scan : ℕ → Text → ℕ → Option ℕ
scan limit [] n = some n
scan limit (c ∷ s) n =
    let m = n * 10 + (c - b'0') in
    let rest = scan limit s m in
    if ltb c b'0' || ltb b'9' c then none else if leb limit m then none else rest

unsigned : ℕ → Text → Option ℕ
unfolding scan
unsigned limit [] = none
unsigned limit (c ∷ s) = scan limit (c ∷ s) 0

-- -n, as an integer
abbrev negate : ℕ → ℤ
negate zero = pos 0
negate (suc n) = negsuc n

abbrev as_pos : Option ℕ → Option ℤ
as_pos none = none
as_pos (some n) = some (pos n)

abbrev as_neg : Option ℕ → Option ℤ
as_neg none = none
as_neg (some n) = some (negate n)

-- `strconv.Atoi`, with `none` for its error: an optional sign, one or more digits, in int64
unfoldable pub atoi : Text → Option ℤ
unfolding unsigned
atoi [] = none
atoi (c ∷ s) =
    if c == b'-'
    then as_neg (unsigned (2 ^ 63 + 1) s)
    else if c == b'+'
    then as_pos (unsigned (2 ^ 63) s)
    else as_pos (unsigned (2 ^ 63) (c ∷ s))

-- `strconv.ParseUint(s, 10, 0)`
unfoldable pub parse_uint : Text → Option ℕ
unfolding unsigned
parse_uint s = unsigned (2 ^ 64) s

scan_last :
    (limit n : ℕ) (out : Text)
    → n < limit
    → scan limit ((b'0' + n % 10) ∷ out) (n / 10) ≡ scan limit out n
unfolding scan
scan_last limit n out h = ground arith

scan-digits :
    (limit fuel n : ℕ) (out : Text)
    → n ≤ fuel
    → n < limit
    → scan limit (digits fuel n out) 0 ≡ scan limit out n
unfolding digits
scan-digits limit zero n out f h = ap (scan limit out) (omega arith)
scan-digits limit (suc fuel) n out f h =
    ground (arith, scan-digits limit fuel (n / 10) ((b'0' + n % 10) ∷ out), scan_last limit n out)

-- The first byte of a decimal number is a digit.
abbrev StartsWithDigit : Text → Type 0
StartsWithDigit [] = ⊥
StartsWithDigit (c ∷ s) = (b'0' ≤ c) × (c ≤ b'9')

StartsWithDigit-digits :
    (fuel n : ℕ) (out : Text) → StartsWithDigit out → StartsWithDigit (digits fuel n out)
unfolding digits
StartsWithDigit-digits zero n out h = h
StartsWithDigit-digits (suc fuel) n out h =
    ground (
      arith,
      StartsWithDigit-digits fuel (n / 10) ((b'0' + n % 10) ∷ out) (omega arith, omega arith),
    )

StartsWithDigit-format_nat : (n : ℕ) → StartsWithDigit (format_nat n)
unfolding format_nat
StartsWithDigit-format_nat zero = omega arith
StartsWithDigit-format_nat (suc n) = ground (
  arith,
  StartsWithDigit-digits n (suc n / 10) ((b'0' + suc n % 10) ∷ []) (omega arith, omega arith),
)

unsigned-scan : (limit : ℕ) (s : Text) → StartsWithDigit s → unsigned limit s ≡ scan limit s 0
unfolding unsigned
unsigned-scan limit [] h = elim h [ ]
unsigned-scan limit (c ∷ s) h = refl

pub scan-format_nat : (limit n : ℕ) → n < limit → scan limit (format_nat n) 0 ≡ some n
unfolding format_nat
scan-format_nat limit n h = elim (Bool-cases (n == 0)) [
  | inl e ↦ rw e (unfold scan in ground arith)
  | inr e ↦ rw (e, scan-digits limit n n [] (omega arith) h) (unfold scan in refl)
]

unsigned-format_nat : (limit n : ℕ) → n < limit → unsigned limit (format_nat n) ≡ some n
unsigned-format_nat limit n h =
    unsigned-scan limit (format_nat n) (StartsWithDigit-format_nat n) ∙ scan-format_nat limit n h

atoi-minus : (s : Text) → atoi (b'-' ∷ s) ≡ as_neg (unsigned (2 ^ 63 + 1) s)
unfolding atoi
atoi-minus s = refl

atoi-digit : (s : Text) → StartsWithDigit s → atoi s ≡ as_pos (unsigned (2 ^ 63) s)
unfolding atoi
atoi-digit [] h = elim h [ ]
atoi-digit (c ∷ s) h = ground arith

pub parse_uint-format_nat : (n : ℕ) → n < 2 ^ 64 → parse_uint (format_nat n) ≡ some n
unfolding parse_uint
parse_uint-format_nat n h = unsigned-format_nat (2 ^ 64) n h

-- Every int64 is read back from its decimal print.
pub atoi-format_int :
    (i : ℤ) → pos_part i < 2 ^ 63 → neg_part i ≤ 2 ^ 63 → atoi (format_int i) ≡ some i
unfolding format_int
atoi-format_int (pos n) h k =
    atoi-digit (format_nat n) (StartsWithDigit-format_nat n)
    ∙ ap as_pos (unsigned-format_nat (2 ^ 63) n h)
atoi-format_int (negsuc n) h k =
    atoi-minus (format_nat (n + 1))
    ∙ ap as_neg (unsigned-format_nat (2 ^ 63 + 1) (n + 1) (omega arith))
    ∙ rw add-one

abbrev pub IsDigit : ℕ → Type 0
IsDigit c = (b'0' ≤ c) × (c ≤ b'9')

All-digits : (fuel n : ℕ) (out : Text) → All IsDigit out → All IsDigit (digits fuel n out)
unfolding digits
All-digits zero n out h = h
All-digits (suc fuel) n out h = elim (Bool-cases (n == 0)) [
  | inl e ↦ rw e h
  | inr e ↦ rw e (All-digits fuel (n / 10) ((b'0' + n % 10) ∷ out) ((omega arith, omega arith), h))
]

-- A number is printed by digits alone.
pub All-format_nat : (n : ℕ) → All IsDigit (format_nat n)
unfolding format_nat
All-format_nat n = elim (Bool-cases (n == 0)) [
  | inl e ↦ rw e (omega arith)
  | inr e ↦ rw e (All-digits n n [] tt)
]

pub format_nat-ne-nil : (n : ℕ) → format_nat n ≢ []
format_nat-ne-nil n e = StartsWithDigit-ne-nil (format_nat n) (StartsWithDigit-format_nat n) e
  where
    StartsWithDigit-ne-nil : (s : Text) → StartsWithDigit s → s ≢ []
    StartsWithDigit-ne-nil [] h = absurd h
    StartsWithDigit-ne-nil (c ∷ s) h = cc

pub Lacks-digits : (b : ℕ) (s : Text) → ¬ IsDigit b → All IsDigit s → Lacks b s
Lacks-digits b [] n h = tt
Lacks-digits b (c ∷ s) n (d, h) = (λ e. n (rw e at d), Lacks-digits b s n h)
