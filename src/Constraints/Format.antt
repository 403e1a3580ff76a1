-- ===== src/Constraints/Format.antt =====
-- Texts of memory limits and of constraints, for the parsers of pkg/constraints/constraints.go.
use empire.Prelude.{
  ℕ, ◌*◌, ◌^◌, ◌≤◌, ◌<◌, ◌≡◌, ◌≢◌, refl, ap, ◌∙◌, true, some, [], ◌∷◌, ◌++◌, arith, ok, All,
  All-append,
}
use empire.Prelude.Int.{ℤ, pos}
use empire.Prelude.Text.{Text, codes, text_eq, Lacks}
use empire.Prelude.Text.Split.{split_once, split_once-append, split-Lacks, Lacks-append_cons}
use empire.Prelude.Text.Decimal.{
  format_nat, format_int, atoi, atoi-format_int, parse_uint-format_nat, IsDigit, All-format_nat,
  format_nat-ne-nil, Lacks-digits,
}
use empire.Constraints.{
  Constraints, Floats, is_number_byte, is_regex_space, span_units, span_number, find_memory,
  to_upper, multiplier, number_with_units, parse_memory, parse_cpu_share, new_cpu_share,
  parse_nproc, parse_option, parse_options, parse_rest, parse_parts, at_colon, parse,
}

-- What is documented of the numbers that `ParseFloat` and the product can represent: a whole number
-- below 2^24 is exact in 32 bits, and so is its product with a power of two up to 2^40 in 64 bits.
pub record FloatLaws (fl : Floats) : Type 0 where
  pub exact :
      (n k : ℕ)
      → n < 2 ^ 24
      → k ≤ 40
      → (f : fl.Float) × (fl.parse_float (format_nat n) ≡ some f)
        × (fl.to_units f (2 ^ k) ≡ n * 2 ^ k)

pub data MemoryUnit : Type 0 where
  byte kilobyte megabyte gigabyte terabyte : MemoryUnit

abbrev pub suffix : MemoryUnit → Text
suffix byte = []
suffix kilobyte = codes "KB"
suffix megabyte = codes "MB"
suffix gigabyte = codes "GB"
suffix terabyte = codes "TB"

abbrev pub exponent : MemoryUnit → ℕ
exponent byte = 0
exponent kilobyte = 10
exponent megabyte = 20
exponent gigabyte = 30
exponent terabyte = 40

exponent-le : (u : MemoryUnit) → exponent u ≤ 40
exponent-le byte = omega arith
exponent-le kilobyte = omega arith
exponent-le _ = omega arith

digit-is_number_byte : (c : ℕ) → IsDigit c → is_number_byte c ≡ true
unfolding is_number_byte
digit-is_number_byte c h = ground arith

span_number-append :
    (s t : Text) → All IsDigit s → span_number t ≡ ([], t) → span_number (s ++ t) ≡ (s, t)
unfolding span_number
span_number-append [] t h e = e
span_number-append (c ∷ s) t (d, h) e = rw (span_number-append s t h e, digit-is_number_byte c d)

find_memory-append :
    (s t : Text)
    → s ≢ []
    → All IsDigit s
    → span_number t ≡ ([], t)
    → find_memory (s ++ t) ≡ some (s, span_units t)
unfolding find_memory
find_memory-append [] t n h e = absurd (n refl)
find_memory-append (c ∷ s) t n (d, h) e =
    rw (digit-is_number_byte c d, span_number-append (c ∷ s) t (d, h) e)

suffix_parts :
    (u : MemoryUnit)
    → (span_number (suffix u) ≡ ([], suffix u))
      × (span_units (suffix u) ≡ suffix u)
      × (multiplier (to_upper (suffix u)) ≡ some (2 ^ exponent u))
unfolding span_number span_units is_number_byte is_regex_space multiplier to_upper text_eq
suffix_parts byte = (refl, refl, refl)
suffix_parts kilobyte = (refl, refl, refl)
suffix_parts megabyte = (refl, refl, refl)
suffix_parts gigabyte = (refl, refl, refl)
suffix_parts terabyte = (refl, refl, refl)

number_with_units-eq :
    (fl : Floats) (digits u : Text) (k : ℕ) {f : fl.Float}
    → fl.parse_float digits ≡ some f
    → multiplier (to_upper u) ≡ some k
    → number_with_units fl (digits, u) ≡ ok (fl.to_units f k)
unfolding number_with_units
number_with_units-eq fl digits u k p m = rw (p, number_with_units) (rw m)

parse_memory-found :
    (fl : Floats) (s : Text) {m : Text × Text}
    → find_memory s ≡ some m
    → parse_memory fl s ≡ number_with_units fl m
unfolding parse_memory
parse_memory-found fl s e = rw (e, parse_memory)

-- A whole number below 2^24 with a unit is read as that many units, in bytes, if the float library is
-- exact on such numbers.
pub parse_memory_units :
    (fl : Floats) (laws : FloatLaws fl) (n : ℕ) (u : MemoryUnit)
    → n < 2 ^ 24
    → parse_memory fl (format_nat n ++ suffix u) ≡ ok (n * 2 ^ exponent u)
parse_memory_units fl laws n u h =
    let (spanned, units, mult) = suffix_parts u in
    let (f, parsed, scaled) = laws.exact n (exponent u) h (exponent-le u) in
    let found : find_memory (format_nat n ++ suffix u) ≡ some (format_nat n, suffix u) =
      find_memory-append (format_nat n) (suffix u) (format_nat-ne-nil n) (All-format_nat n) spanned
      ∙ ap (λ v. some (format_nat n, v)) units in
    parse_memory-found fl (format_nat n ++ suffix u) found
    ∙ number_with_units-eq fl (format_nat n) (suffix u) (2 ^ exponent u) parsed mult
    ∙ ap ok scaled

parse_cpu_share-atoi : (s : Text) {i : ℤ} → atoi s ≡ some i → parse_cpu_share s ≡ new_cpu_share i
unfolding parse_cpu_share
parse_cpu_share-atoi s e = rw (e, parse_cpu_share)

parse_cpu_share-format_nat :
    (n : ℕ) → 2 ≤ n → n < 2 ^ 63 → parse_cpu_share (format_nat n) ≡ ok (pos n)
unfolding new_cpu_share format_int
parse_cpu_share-format_nat n h k =
    parse_cpu_share-atoi (format_nat n) (atoi-format_int (pos n) k (omega arith)) ∙ ground arith

abbrev pub nproc_key : Text
nproc_key = codes "nproc"

parse_nproc-format_nat : (k : ℕ) → k < 2 ^ 64 → parse_nproc (format_nat k) ≡ ok k
unfolding parse_nproc
parse_nproc-format_nat k h = rw (parse_uint-format_nat k h, parse_nproc)

parse_options-one :
    (c : Constraints) (kv : Text) {d : Constraints}
    → parse_option c (split_once kv b'=') ≡ ok d
    → parse_options c (kv ∷ []) ≡ ok d
unfolding parse_options
parse_options-one c kv e = rw (e, parse_options)

parse_option-nproc :
    (c : Constraints) (k : ℕ)
    → k < 2 ^ 64
    → parse_option c (split_once (nproc_key ++ b'=' ∷ format_nat k) b'=')
      ≡ ok (record c { nproc = k })
unfolding parse_option text_eq
parse_option-nproc c k h =
    rw (split_once-append nproc_key (format_nat k) b'=' (omega arith))
      (rw (parse_nproc-format_nat k h))

parse_rest-nproc :
    (c : Constraints) (k : ℕ)
    → k < 2 ^ 64
    → parse_rest c (some (nproc_key ++ b'=' ∷ format_nat k)) ≡ ok (record c { nproc = k })
unfolding parse_rest
parse_rest-nproc c k h =
    rw
      (split-Lacks (nproc_key ++ b'=' ∷ format_nat k) b',' (
        Lacks-append_cons nproc_key (format_nat k) b',' b'=' (omega arith) (omega arith)
          (Lacks-digits b',' (format_nat k) (omega arith) (All-format_nat k))))
      (parse_options-one c (nproc_key ++ b'=' ∷ format_nat k) (parse_option-nproc c k h))

Lacks-suffix : (u : MemoryUnit) → Lacks b':' (suffix u)
Lacks-suffix byte = omega arith
Lacks-suffix kilobyte = omega arith
Lacks-suffix megabyte = omega arith
Lacks-suffix gigabyte = omega arith
Lacks-suffix terabyte = omega arith

Lacks-memory : (n : ℕ) (u : MemoryUnit) → Lacks b':' (format_nat n ++ suffix u)
Lacks-memory n u =
    All-append (λ c. c ≢ b':') (format_nat n) (suffix u)
      (Lacks-digits b':' (format_nat n) (omega arith) (All-format_nat n)) (Lacks-suffix u)

-- A constraint in three parts, such as 256:512MB:nproc=256.
abbrev pub format : ℕ → ℕ → MemoryUnit → ℕ → Text
format cpu n u k =
    format_nat cpu
    ++ (b':' ∷ ((format_nat n ++ suffix u) ++ b':' ∷ (nproc_key ++ b'=' ∷ format_nat k)))

-- The text of a CPU share, a memory with its unit and a limit of processes is read as these, if each is
-- in range and the float library is exact on whole numbers below 2^24.
pub parse-format :
    (fl : Floats) (laws : FloatLaws fl) (cpu n : ℕ) (u : MemoryUnit) (k : ℕ)
    → 2 ≤ cpu
    → cpu < 2 ^ 63
    → n < 2 ^ 24
    → k < 2 ^ 64
    → parse fl (format cpu n u k)
      ≡ ok (record { cpu_share = pos cpu; memory = n * 2 ^ exponent u; nproc = k })
unfolding parse at_colon parse_parts
parse-format fl laws cpu n u k h h' g l =
    rw
      (split_once-append (format_nat cpu) _ b':'
        (Lacks-digits b':' (format_nat cpu) (omega arith) (All-format_nat cpu)))
      (rw (split_once-append (format_nat n ++ suffix u) _ b':' (Lacks-memory n u)) (
        rw (parse_cpu_share-format_nat cpu h h', parse_memory_units fl laws n u g)
          (parse_rest-nproc _ k l)))
