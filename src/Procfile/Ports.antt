-- ===== src/Procfile/Ports.antt =====
-- `ParsePort` (procfile/procfile.go) on the texts of ports.
use empire.Prelude.{◌+◌, ◌≤◌, ◌<◌, ◌^◌, ◌≡◌, some, [], ◌∷◌, ◌++◌, arith, ok}
use empire.Prelude.Int.{ℤ, pos, negsuc, pos_part, neg_part}
use empire.Prelude.Text.{Text, Lacks}
use empire.Prelude.Text.Split.{contains-Lacks, contains-append_self, split_once-append}
use empire.Prelude.Text.Decimal.{
  atoi, format_int, atoi-format_int, format_nat, All-format_nat, Lacks-digits,
}
use empire.Procfile.{to_port, from_parts, parse_port}

-- A Go `int` of 64 bits.
abbrev pub IsInt64 : ℤ → Type 0
IsInt64 i = (pos_part i < 2 ^ 63) × (neg_part i ≤ 2 ^ 63)

to_port-atoi : (s : Text) {i : ℤ} → atoi s ≡ some i → to_port s ≡ ok i
unfolding to_port
to_port-atoi s e = rw (e, to_port)

to_port-format_int : (i : ℤ) → IsInt64 i → to_port (format_int i) ≡ ok i
to_port-format_int i (h, k) = to_port-atoi (format_int i) (atoi-format_int i h k)

Lacks-format_int : (i : ℤ) → Lacks b':' (format_int i)
unfolding format_int
Lacks-format_int (pos n) = Lacks-digits b':' (format_nat n) (omega arith) (All-format_nat n)
Lacks-format_int (negsuc n) =
    (omega arith, Lacks-digits b':' (format_nat (n + 1)) (omega arith) (All-format_nat (n + 1)))

-- One number that fits in 64 bits is both ports, and two such numbers with a ':' between them are the
-- host's and the container's.
pub parse_port-format :
    (host container : ℤ)
    → IsInt64 host
    → IsInt64 container
    → (parse_port (format_int host) ≡ ok (record { host = host; container = host; protocol = [] }))
      × (parse_port (format_int host ++ b':' ∷ format_int container)
          ≡ ok (record { host = host; container = container; protocol = [] }))
unfolding parse_port from_parts
parse_port-format host container h c = (
  rw (contains-Lacks (format_int host) b':' (Lacks-format_int host))
      (rw (to_port-format_int host h)),
  rw (contains-append_self (format_int host) (format_int container) b':') (
      rw (split_once-append (format_int host) (format_int container) b':' (Lacks-format_int host))
        (rw (to_port-format_int host h, to_port-format_int container c))),
)
