-- ===== src/Procfile.antt =====
-- The Procfile formats and their port mappings (procfile/procfile.go). The YAML library is a
-- parameter, by what `Unmarshal` returns for the two formats.
pub mod Ports
mod Tests
use empire.Prelude.{
  ℕ, Bool, true, false, ◌||◌, Option, none, some, List, [], ◌∷◌, ltb, if◌then◌else◌, length, Result,
  ok, err, ◌>>=◌,
}
use empire.Prelude.Int.{ℤ, pos}
use empire.Prelude.Text.{Text}
use empire.Prelude.Dict.{Dict}
use empire.Prelude.Text.Split.{contains, split_once}
use empire.Prelude.Text.Decimal.{atoi}

pub data ProcfileError : Type 0 where
  -- an error of `strconv.Atoi`, with the text
  bad_port : Text → ProcfileError
  invalid_port_format : ProcfileError
  -- an error of the YAML library
  bad_yaml : ProcfileError

-- The options for ECS (placement constraints by type and expression, strategies by type and field).
pub record Placement : Type 0 where
  pub kind : Option Text
  pub argument : Option Text

pub record Ecs : Type 0 where
  pub placement_constraints : List Placement
  pub placement_strategy : List Placement

pub record Port : Type 0 where
  pub host : ℤ
  pub container : ℤ
  pub protocol : Text

-- `Command interface{}`, as `yaml.Unmarshal` fills it: a text, a list (of texts or of other values),
-- or anything else.
pub data Item : Type 0 where
  text : Text → Item
  no_text : Item

pub data Command : Type 0 where
  line : Text → Command
  items : List Item → Command
  other : Command

pub record Process : Type 0 where
  pub command : Command
  pub cron : Option Text
  pub no_service : Bool
  pub ports : List Port
  pub environment : Dict Text
  pub ecs : Option Ecs

pub data Procfile : Type 0 where
  standard : Dict Text → Procfile
  extended : Dict Process → Procfile

unfoldable pub to_port : Text → Result ProcfileError ℤ
to_port s = elim (atoi s) [ none ↦ err (bad_port s) | some port ↦ ok port ]

-- `SplitN(s, ":", 2)` has two parts here, since the text has a ':'.
from_parts : Text × Option Text → Result ProcfileError Port
from_parts (h, none) =
    to_port h >>= λ host. ok (record { host = host; container = host; protocol = [] })
from_parts (h, some c) = to_port h >>= λ host.
    to_port c >>= λ container. ok (record { host = host; container = container; protocol = [] })

unfoldable pub parse_port : Text → Result ProcfileError Port
unfolding from_parts
parse_port s =
    if contains s b':'
    then from_parts (split_once s b':')
    else (to_port s >>= λ port. ok (record { host = port; container = port; protocol = [] }))

-- What a port's YAML node is: a text, a map from a text to a map with a protocol (in the order that
-- the loop visits it), or neither. The assertions `k.(string)` and `v["protocol"].(string)`, which
-- panic on other values, are taken to hold.
pub data PortNode : Type 0 where
  scalar : Text → PortNode
  mapping : List (Text × Text) → PortNode
  other : PortNode

-- `UnmarshalYAML`, on the port that it is called on
unfoldable pub unmarshal_port : Port → PortNode → Result ProcfileError Port
unmarshal_port p (scalar s) = parse_port s
unmarshal_port p (mapping []) = ok p
unmarshal_port p (mapping ((k, protocol) ∷ m)) =
    if ltb 1 (length ((k, protocol) ∷ m))
    then err invalid_port_format
    else (parse_port k >>= λ port. ok (record port { protocol = protocol }))
unmarshal_port p other = err bad_yaml

-- `ParseProcfile`: the standard format if the YAML fits it, and the extended one if not.
unfoldable pub parse_procfile :
    (Text → Result ProcfileError (Dict Text))
    → (Text → Result ProcfileError (Dict Process))
    → Text
    → Result ProcfileError Procfile
parse_procfile unmarshal_standard unmarshal_extended b = elim (unmarshal_standard b) [
  | ok y ↦ ok (standard y)
  | err _ ↦ unmarshal_extended b >>= λ y. ok (extended y)
]
