-- ===== src/Constraints/Tests.antt =====
-- Runs of the parsers over whole numbers, and the theorems at concrete texts.
use empire.Prelude.{
  ℕ, ◌*◌, ◌^◌, ◌≤◌, ◌<◌, ◌≡◌, ◌⊎◌, refl, true, false, [], ◌∷◌, ◌++◌, Option, none, some, ok, err,
  arith,
}
use empire.Prelude.Int.{pos, ◌≤ℤ◌}
use empire.Prelude.Text.{Text, codes}
use empire.Prelude.Text.Decimal.{format_nat, scan, scan-format_nat}
use empire.Constraints.{
  Constraints, Floats, kb, invalid_cpu_share, invalid_constraint, invalid_memory, parse,
  parse_memory, parse_constraints, constraints_2x, parse_cpu_share, default_constraints,
}
use empire.Constraints.Format.{FloatLaws, megabyte, exponent, format, parse-format}
use empire.Constraints.Sound.{parse_constraints_sound}

-- Whole numbers below 2^64 in place of floats.
abbrev whole : Floats
whole = record { Float = ℕ; parse_float = λ s. scan (2 ^ 64) s 0; to_units = λ n k. n * k }

whole_exact :
    (n k : ℕ)
    → n < 2 ^ 24
    → k ≤ 40
    → (f : ℕ) × (scan (2 ^ 64) (format_nat n) 0 ≡ some f) × (f * 2 ^ k ≡ n * 2 ^ k)
whole_exact n k h g = (n, scan-format_nat (2 ^ 64) n (omega arith), refl)

whole_laws : FloatLaws whole
whole_laws = record { exact = whole_exact }

px :
    parse whole (codes "1024:6GB")
    ≡ ok (record { cpu_share = pos 1024; memory = 6 * 2 ^ 30; nproc = 0 })
unfolding parse empire.Prelude.Text.Split.split_once parse_cpu_share
    empire.Prelude.Text.Decimal.atoi empire.Constraints.new_cpu_share parse_memory
    empire.Constraints.find_memory empire.Constraints.is_number_byte empire.Constraints.span_number
    empire.Constraints.multiplier empire.Constraints.to_upper empire.Constraints.span_units
    empire.Constraints.is_regex_space empire.Prelude.Text.text_eq empire.Constraints.parse_rest
px = refl

lower_case : parse_memory whole (codes "x 5kb y") ≡ ok (5 * 1024)
unfolding parse_memory empire.Constraints.find_memory empire.Constraints.is_number_byte scan
    empire.Constraints.span_number empire.Constraints.multiplier empire.Constraints.to_upper
    empire.Constraints.span_units empire.Constraints.is_regex_space empire.Prelude.Text.text_eq
lower_case = refl

bad_share : parse whole (codes "1:6GB") ≡ err invalid_cpu_share
unfolding parse empire.Prelude.Text.Split.split_once parse_cpu_share
    empire.Prelude.Text.Decimal.atoi empire.Constraints.new_cpu_share
bad_share = refl

named : parse_constraints whole (codes "2X") ≡ ok (some constraints_2x)
unfolding parse_constraints empire.Constraints.named_constraints empire.Prelude.Text.text_eq
named = refl

parse-format_example :
    parse whole (format 256 512 megabyte 256)
    ≡ ok (record { cpu_share = pos 256; memory = 512 * 2 ^ exponent megabyte; nproc = 256 })
parse-format_example =
    parse-format whole whole_laws 256 512 megabyte 256 (omega arith) (omega arith) (omega arith)
      (omega arith)

parse_constraints_sound_example :
    ((codes "2X" ≡ []) × (some constraints_2x ≡ none))
    ⊎ ((c : Constraints) × (some constraints_2x ≡ some c) × (pos 2 ≤ℤ c.cpu_share))
parse_constraints_sound_example =
    parse_constraints_sound whole (codes "2X") (some constraints_2x) named
