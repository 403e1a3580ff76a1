-- ===== src/Constraints.antt =====
-- CPU, memory and process limits (pkg/constraints/constraints.go, pkg/bytesize/bytesize.go), and the
-- named sizes (constraints.go). Go's floating point numbers are the parameter `Floats`.
pub mod Format
pub mod Sound
mod Tests
use empire.Prelude.{
  ℕ, ◌-◌, ◌*◌, ◌^◌, Bool, true, false, ◌&&◌, ◌||◌, not, Option, none, some, List, [], ◌∷◌, map, leb,
  ◌==◌, if◌then◌else◌, Result, ok, err, ◌>>=◌,
}
use empire.Prelude.Int.{ℤ, pos, ltb_ℤ}
use empire.Prelude.Text.{Text, codes, text_eq, is_empty}
use empire.Prelude.Text.Split.{split, split_once}
use empire.Prelude.Text.Decimal.{atoi, parse_uint}

pub data ConstraintError : Type 0 where
  invalid_cpu_share : ConstraintError
  invalid_memory : ConstraintError
  invalid_constraint : ConstraintError
  -- the errors of `strconv`
  bad_number : ConstraintError
  bad_float : ConstraintError

abbrev pub Parsed : Type 0 → Type 0
Parsed = Result ConstraintError

pub record Constraints : Type 0 where
  pub cpu_share : ℤ
  pub memory : ℕ
  pub nproc : ℕ

-- `strconv.ParseFloat(s, 32)` and `uint(n * float64(mult))`
pub record Floats : Type 1 where
  pub Float : Type 0
  pub parse_float : Text → Option Float
  pub to_units : Float → ℕ → ℕ

-- The sizes of pkg/bytesize: `1 << (10 * iota)`.
abbrev pub kb : ℕ
kb = 2 ^ 10

abbrev pub mb : ℕ
mb = 2 ^ 20

abbrev pub gb : ℕ
gb = 2 ^ 30

abbrev pub tb : ℕ
tb = 2 ^ 40

unfoldable pub new_cpu_share : ℤ → Parsed ℤ
new_cpu_share i = if ltb_ℤ i (pos 2) then err invalid_cpu_share else ok i

unfoldable pub parse_cpu_share : Text → Parsed ℤ
parse_cpu_share s = elim (atoi s) [ none ↦ err bad_number | some i ↦ new_cpu_share i ]

unfoldable pub parse_nproc : Text → Parsed ℕ
parse_nproc s = elim (parse_uint s) [ none ↦ err bad_number | some n ↦ ok n ]

-- `[\d\.]`
unfoldable pub is_number_byte : ℕ → Bool
is_number_byte c = leb b'0' c && leb c b'9' || c == b'.'

-- `\s`, which is [\t\n\f\r ] in Go's regular expressions
unfoldable pub is_regex_space : ℕ → Bool
is_regex_space c = c == 9 || c == 10 || c == 12 || c == 13 || c == 32

-- `\S*`
unfoldable pub span_units : Text → Text
span_units [] = []
span_units (c ∷ s) = let rest = span_units s in if is_regex_space c then [] else c ∷ rest

-- `[\d\.]+` at the start of the text, with the text that follows it
unfoldable pub span_number : Text → Text × Text
span_number [] = ([], [])
span_number (c ∷ s) =
    let (n, rest) = span_number s in if is_number_byte c then (c ∷ n, rest) else ([], c ∷ s)

-- `memRegex.FindStringSubmatch(s)`: the first match of ([\d\.]+)(\S*)?, by its two groups
unfoldable pub find_memory : Text → Option (Text × Text)
find_memory [] = none
find_memory (c ∷ s) =
    let later = find_memory s in
    let (n, rest) = span_number (c ∷ s) in
    if is_number_byte c then some (n, span_units rest) else later

upper_byte : ℕ → ℕ
upper_byte c = if leb b'a' c && leb c b'z' then c - 32 else c

-- `strings.ToUpper`, in ASCII
unfoldable pub to_upper : Text → Text
unfolding upper_byte
to_upper s = map upper_byte s

-- The `switch` on the units.
unfoldable pub multiplier : Text → Option ℕ
multiplier u =
    if is_empty u
    then some 1
    else if text_eq u (codes "KB")
    then some kb
    else if text_eq u (codes "MB")
    then some mb
    else if text_eq u (codes "GB")
    then some gb
    else if text_eq u (codes "TB")
    then some tb
    else none

module _ (fl : Floats) where
  scaled : Option ℕ → fl.Float → Parsed ℕ
  scaled none n = err invalid_memory
  scaled (some mult) n = ok (fl.to_units n mult)

  number_with_units : Text × Text → Parsed ℕ
  unfolding scaled
  number_with_units (digits, u) = elim (fl.parse_float digits) [
    | none ↦ err bad_float
    | some n ↦ scaled (multiplier (to_upper u)) n
  ]

  unfoldable pub parse_memory : Text → Parsed ℕ
  unfolding number_with_units
  parse_memory s = elim (find_memory s) [ none ↦ err invalid_memory | some m ↦ number_with_units m ]

-- One `key=value` of the third part.
unfoldable pub parse_option : Constraints → Text × Option Text → Parsed Constraints
parse_option c (key, none) = err invalid_constraint
parse_option c (key, some value) =
    if text_eq key (codes "nproc")
    then (parse_nproc value >>= λ n. ok (record c { nproc = n }))
    else err invalid_constraint

-- The loop over the third part.
unfoldable pub parse_options : Constraints → List Text → Parsed Constraints
parse_options c [] = ok c
parse_options c (kvspec ∷ rest) = elim (parse_option c (split_once kvspec b'=')) [
  | ok c' ↦ parse_options c' rest
  | err e ↦ err e
]

-- The third part, if `SplitN` returned one.
unfoldable pub parse_rest : Constraints → Option Text → Parsed Constraints
parse_rest c none = ok c
parse_rest c (some s) = parse_options c (split s b',')

module _ (fl : Floats) where
  parse_parts : Text → Text × Option Text → Parsed Constraints
  parse_parts cpu (memory, rest) = parse_cpu_share cpu >>= λ i. parse_memory fl memory >>= λ m.
      parse_rest (record { cpu_share = i; memory = m; nproc = 0 }) rest

  at_colon : Text × Option Text → Parsed Constraints
  unfolding parse_parts
  at_colon (cpu, none) = err invalid_constraint
  at_colon (cpu, some s) = parse_parts cpu (split_once s b':')

  -- `SplitN(s, ":", 3)` cuts at the first ':' and what follows it at its first ':'.
  unfoldable pub parse : Text → Parsed Constraints
  unfolding at_colon
  parse s = at_colon (split_once s b':')

abbrev pub constraints_1x : Constraints
constraints_1x = record { cpu_share = pos 256; memory = 512 * mb; nproc = 256 }

abbrev pub constraints_2x : Constraints
constraints_2x = record { cpu_share = pos 512; memory = 1 * gb; nproc = 512 }

abbrev pub constraints_px : Constraints
constraints_px = record { cpu_share = pos 1024; memory = 6 * gb; nproc = 0 }

abbrev pub default_constraints : Constraints
default_constraints = constraints_1x

unfoldable pub named_constraints : Text → Option Constraints
named_constraints n =
    if text_eq n (codes "1X")
    then some constraints_1x
    else if text_eq n (codes "2X")
    then some constraints_2x
    else if text_eq n (codes "PX")
    then some constraints_px
    else none

-- `parseConstraints`: the empty text stands for no constraints.
unfoldable pub parse_constraints : Floats → Text → Parsed (Option Constraints)
parse_constraints fl con = if is_empty con then ok none else elim (named_constraints con) [
  | some c ↦ ok (some c)
  | none ↦ parse fl con >>= λ c. ok (some c)
]
