-- ===== src/Registry/Tests.antt =====
-- Formations of concrete Procfiles.
use empire.Prelude.{
  ◌≡◌, ◌≢◌, ◌↔◌, refl, true, false, none, some, List, [], ◌∷◌, map, arith, Result, ok, err, All,
}
use empire.Prelude.Int.{pos}
use empire.Prelude.Text.{Text, codes}
use empire.Prelude.Text.Split.{split}
use empire.Prelude.Dict.{lookup}
use empire.Procfile
use empire.Procfile.{Procfile, standard, extended, line}
use empire.Processes.{Process, Formation, zero_process}
use empire.Registry.{from_procfile_port, extended_process, formation_from_procfile}
use empire.Registry.Described.{
  Describes, AllReadable, lookup-formation_from_procfile, formation_from_procfile_total,
}

-- A parser of command lines that knows no quotes.
abbrev at_blanks : Text → Result Text (List Text)
at_blanks s = ok (split s b' ')

abbrev procfile : Procfile
procfile = standard ((codes "web", codes "./bin/web serve") ∷ [])

abbrev formation : Formation
formation =
    (codes "web", record zero_process { command = codes "./bin/web" ∷ codes "serve" ∷ [] }) ∷ []

read_standard : formation_from_procfile at_blanks procfile ≡ ok formation
unfolding formation_from_procfile empire.Registry.formation_from_standard_procfile
    empire.Registry.fill empire.Registry.standard_process empire.Registry.parse_command
    empire.Prelude.Dict.insert split
read_standard = refl

abbrev web : Procfile.Process
web = record {
  command = line (codes "server");
  cron = none;
  no_service = false;
  ports =
      record { host = pos 443; container = pos 8443; protocol = [] }
      ∷ record { host = pos 80; container = pos 80; protocol = codes "tcp" }
      ∷ [];
  environment = [];
  ecs = none;
}

abbrev read_web : Process
read_web = record zero_process {
  command = codes "server" ∷ [];
  ports =
      record { host = pos 443; container = pos 8443; protocol = codes "https" }
      ∷ record { host = pos 80; container = pos 80; protocol = codes "tcp" }
      ∷ [];
}

read_extended : extended_process at_blanks web ≡ ok read_web
unfolding extended_process empire.Registry.extended_command empire.Registry.parse_command
    from_procfile_port split
read_extended = refl

abbrev web_procfile : Procfile
web_procfile = extended ((codes "web", web) ∷ [])

read_web_procfile :
    formation_from_procfile at_blanks web_procfile ≡ ok ((codes "web", read_web) ∷ [])
unfolding formation_from_procfile empire.Registry.formation_from_extended_procfile
    empire.Registry.fill extended_process empire.Registry.extended_command
    empire.Registry.parse_command from_procfile_port split empire.Prelude.Dict.insert
read_web_procfile = refl

lookup-formation_from_procfile_example :
    Describes at_blanks web_procfile
      (codes "web")
      (lookup (codes "web") ((codes "web", read_web) ∷ []))
lookup-formation_from_procfile_example =
    lookup-formation_from_procfile at_blanks web_procfile ((codes "web", read_web) ∷ [])
      (codes "web") (tt, tt) read_web_procfile

formation_from_procfile_total_example :
    ((f : Formation) × (formation_from_procfile at_blanks procfile ≡ ok f))
    ↔ AllReadable at_blanks procfile
formation_from_procfile_total_example = formation_from_procfile_total at_blanks procfile
