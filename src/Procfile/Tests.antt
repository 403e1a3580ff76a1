-- ===== src/Procfile/Tests.antt =====
-- Runs of the port parser, and texts of concrete ports.
use empire.Prelude.{◌≡◌, ◌≢◌, refl, [], ◌∷◌, ◌++◌, ok, err, arith}
use empire.Prelude.Int.{pos}
use empire.Prelude.Text.{codes}
use empire.Prelude.Text.Decimal.{format_int}
use empire.Procfile.Ports.{parse_port-format}
use empire.Procfile.{
  Port, PortNode, bad_port, invalid_port_format, parse_port, unmarshal_port, mapping,
}

abbrev no_port : Port
no_port = record { host = pos 0; container = pos 0; protocol = [] }

bad : parse_port (codes "80:x") ≡ err (bad_port (codes "x"))
unfolding parse_port empire.Prelude.Text.Split.contains empire.Prelude.Text.Split.split_once
    empire.Procfile.to_port empire.Prelude.Text.Decimal.atoi
bad = refl

with_protocol :
    unmarshal_port no_port (mapping ((codes "80:8080", codes "http") ∷ []))
    ≡ ok (record { host = pos 80; container = pos 8080; protocol = codes "http" })
unfolding unmarshal_port parse_port empire.Prelude.Text.Split.contains
    empire.Prelude.Text.Split.split_once empire.Procfile.to_port empire.Prelude.Text.Decimal.atoi
with_protocol = refl

two_keys :
    unmarshal_port no_port (mapping ((codes "80", codes "http") ∷ (codes "81", codes "http") ∷ []))
    ≡ err invalid_port_format
unfolding unmarshal_port
two_keys = refl

parse_port-format_example :
    (parse_port (format_int (pos 80))
      ≡ ok (record { host = pos 80; container = pos 80; protocol = [] }))
    × (parse_port (format_int (pos 80) ++ b':' ∷ format_int (pos 8080))
        ≡ ok (record { host = pos 80; container = pos 8080; protocol = [] }))
parse_port-format_example = parse_port-format (pos 80) (pos 8080) (omega arith) (omega arith)
