-- ===== src/Processes.antt =====
-- Processes and formations (processes.go).
pub mod Merge
mod Tests
use empire.Prelude.{
  Bool, true, false, ◌&&◌, not, Option, none, some, List, [], ◌∷◌, if◌then◌else◌, Result, ok, err,
}
use empire.Prelude.Int.{ℤ, pos, eqb_ℤ}
use empire.Prelude.Text.{Text, codes, text_eq}
use empire.Prelude.Dict.{Dict, lookup, insert}
use empire.Prelude.Text.Split.{join}
use empire.Constraints.{Constraints, default_constraints}
use empire.Procfile.{Ecs}

abbrev pub Command : Type 0
Command = List Text

-- `Command.String`
unfoldable pub command_string : Command → Text
command_string c = join c (codes " ")

pub record Port : Type 0 where
  pub host : ℤ
  pub container : ℤ
  pub protocol : Text

-- The three limits are the fields of the source's `Memory`, `CPUShare` and `Nproc`.
pub record Process : Type 0 where
  pub command : Command
  pub no_service : Bool
  pub quantity : ℤ
  pub constraints : Constraints
  pub cron : Option Text
  pub ports : List Port
  pub environment : Dict Text
  pub ecs : Option Ecs

-- The zero value of a Go struct.
abbrev pub zero_process : Process
zero_process = record {
  command = [];
  no_service = false;
  quantity = pos 0;
  constraints = record { cpu_share = pos 0; memory = 0; nproc = 0 };
  cron = none;
  ports = [];
  environment = [];
  ecs = none;
}

abbrev pub Formation : Type 0
Formation = Dict Process

pub data ProcessError : Type 0 where
  non_service_scaled : ProcessError
  not_valid : Text → ProcessError → ProcessError

-- `Process.IsValid`, with `none` for nil
unfoldable pub check_process : Process → Option ProcessError
check_process p =
    if p.no_service && not (eqb_ℤ p.quantity (pos 0)) then some non_service_scaled else none

-- `Process.SetConstraints`
unfoldable pub set_constraints : Process → Constraints → Process
set_constraints p c = record p { constraints = c }

-- `Formation.IsValid`: the error of the first process that the loop finds not valid
unfoldable pub check_formation : Formation → Option ProcessError
check_formation [] = none
check_formation ((n, p) ∷ f) = elim (check_process p) [
  | some e ↦ some (not_valid n e)
  | none ↦ check_formation f
]

-- `DefaultQuantities[name]`, with 0 for a name that is not there
unfoldable pub default_quantity : Text → ℤ
default_quantity name = if text_eq name (codes "web") then pos 1 else pos 0

-- The body of the loop of `Merge`, at one process.
unfoldable pub merge_process : Text → Process → Option Process → Process
unfolding set_constraints default_quantity
merge_process name p (some existing) =
    set_constraints (record p { quantity = existing.quantity }) existing.constraints
merge_process name p none =
    set_constraints (record p { quantity = default_quantity name }) default_constraints

merge_into : Formation → Formation → Formation → Formation
merge_into other new [] = new
merge_into other new ((name, p) ∷ f) =
    merge_into other (insert name (merge_process name p (lookup name other)) new) f

-- `f.Merge(other)`
unfoldable pub merge : Formation → Formation → Formation
unfolding merge_into
merge f other = merge_into other [] f
