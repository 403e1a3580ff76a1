-- ===== src/Registry.antt =====
-- The formation that a Procfile describes (registry.go).
pub mod Loop
pub mod Described
mod Tests
use empire.Prelude.{
  ℕ, Bool, true, false, ◌||◌, Option, none, some, List, [], ◌∷◌, map, if◌then◌else◌, Result, ok,
  err, ◌>>=◌,
}
use empire.Prelude.Int.{ℤ, pos, eqb_ℤ}
use empire.Prelude.Text.{Text, codes, is_empty}
use empire.Prelude.Dict.{Dict, insert}
use empire.Procfile
use empire.Procfile.{Procfile, standard, extended, Item, text, no_text, line, items, other}
use empire.Processes.{Command, Port, Process, Formation, zero_process}

pub data RegistryError : Type 0 where
  bad_command : Text → RegistryError
  unknown_command_format : RegistryError
  -- the type assertion `v.(string)` on an item that is no text
  panics : RegistryError

unfoldable pub protocol_from_port : ℤ → Text
protocol_from_port port =
    if eqb_ℤ port (pos 80) || eqb_ℤ port (pos 8080)
    then codes "http"
    else if eqb_ℤ port (pos 443)
    then codes "https"
    else codes "tcp"

-- The body of the loop over the ports.
unfoldable pub from_procfile_port : Procfile.Port → Port
unfolding protocol_from_port
from_procfile_port port = record {
  host = port.host;
  container = port.container;
  protocol = if is_empty port.protocol then protocol_from_port port.host else port.protocol;
}

unfoldable pub item_texts : List Item → Result RegistryError Command
item_texts [] = ok []
item_texts (no_text ∷ rest) = err panics
item_texts (text v ∷ rest) = item_texts rest >>= λ cmd. ok (v ∷ cmd)

-- A loop that sets one entry of the new formation for each entry that it visits, and returns at the
-- first error.
unfoldable pub fill :
    {A : Type 0}
    → (A → Result RegistryError Process)
    → Formation
    → Dict A
    → Result RegistryError Formation
fill f new [] = ok new
fill f new ((name, a) ∷ rest) = elim (f a) [
  | ok p ↦ fill f (insert name p new) rest
  | err e ↦ err e
]

-- `shellwords.Parse`, a copy of another library, is a parameter.
module _ (shellwords : Text → Result Text (List Text)) where
  -- `ParseCommand` of processes.go
  unfoldable pub parse_command : Text → Result RegistryError Command
  parse_command s = elim (shellwords s) [ ok cmd ↦ ok cmd | err e ↦ err (bad_command e) ]

  unfoldable pub standard_process : Text → Result RegistryError Process
  standard_process command =
      parse_command command >>= λ cmd. ok (record zero_process { command = cmd })

  -- The `switch` on the type of the command.
  unfoldable pub extended_command : Procfile.Command → Result RegistryError Command
  extended_command (line command) = parse_command command
  extended_command (items vs) = item_texts vs
  extended_command other = err unknown_command_format

  unfoldable pub extended_process : Procfile.Process → Result RegistryError Process
  extended_process process = extended_command process.command >>= λ cmd. ok (record zero_process {
    command = cmd;
    cron = process.cron;
    no_service = process.no_service;
    ports = map from_procfile_port process.ports;
    environment = process.environment;
    ecs = process.ecs;
  })

  unfoldable pub formation_from_standard_procfile : Dict Text → Result RegistryError Formation
  formation_from_standard_procfile p = fill standard_process [] p

  unfoldable pub formation_from_extended_procfile :
      Dict Procfile.Process → Result RegistryError Formation
  formation_from_extended_procfile p = fill extended_process [] p

  unfoldable pub formation_from_procfile : Procfile → Result RegistryError Formation
  formation_from_procfile (standard p) = formation_from_standard_procfile p
  formation_from_procfile (extended p) = formation_from_extended_procfile p
