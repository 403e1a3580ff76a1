-- ===== src/CloudFormation/Stacks.antt =====
-- What the CloudFormation scheduler reads from stacks and task definitions, and the parameters it
-- sends (scheduler/cloudformation/cloudformation.go).
pub mod Chunks
pub mod Parameters
pub mod Outputs
pub mod Tasks
mod Tests
use empire.Prelude.{
  ℕ, zero, suc, ◌+◌, ◌-◌, ◌*◌, ◌%◌, ◌^◌, Bool, true, false, not, Option, none, some, List, [], ◌∷◌,
  ◌++◌, map, ◌&&◌, ◌||◌, Result, ok, err, ltb, if◌then◌else◌, length, take, drop, ◌>>=◌,
}
use empire.Prelude.Int.{ℤ, pos, to_uint}
use empire.Prelude.Text.{Text, codes, text_eq}
use empire.Prelude.Text.Split.{split}
use empire.Prelude.Dict.{Dict, lookup, insert, keys}
use empire.Constraints.{mb}
use empire.CloudFormation.Containers.{EcsContainer, Ulimit}

pub data StackError : Type 0 where
  failed : Text → StackError
  out_of_range : StackError

-- `data[parts[0]] = parts[1]` for the parts of a pair; an index out of range is a panic.
unfoldable put_pair : List Text → Dict Text → Result StackError (Dict Text)
put_pair (k ∷ v ∷ parts) found = ok (insert k v found)
put_pair _ found = err out_of_range

unfoldable pub put_pairs : List Text → Dict Text → Result StackError (Dict Text)
unfolding put_pair
put_pairs [] found = ok found
put_pairs (p ∷ ps) found = put_pair (split p b'=') found >>= put_pairs ps

-- `extractProcessData(value)`
unfoldable pub extract_process_data : Text → Result StackError (Dict Text)
extract_process_data value = put_pairs (split value b',') []

-- `chunkStrings(s, size)`: a round for each turn of the loop, which takes at least one text if the
-- size is positive.
unfoldable chunks : ℕ → List Text → ℕ → List (List Text)
chunks zero s size = []
chunks (suc rounds) [] size = []
chunks (suc rounds) (x ∷ s) size = take size (x ∷ s) ∷ chunks rounds (drop size (x ∷ s)) size

unfoldable pub chunk_strings : List Text → ℕ → List (List Text)
unfolding chunks
chunk_strings s size = chunks (length s) s size

-- `cloudformation.Parameter`: a value, or the use of the previous one
pub record Parameter : Type 0 where
  pub key : Text
  pub value : Option Text
  pub use_previous : Bool

pub record Output : Type 0 where
  pub output_key : Text
  pub output_value : Text

pub record Stack : Type 0 where
  pub parameters : List Parameter
  pub outputs : List Output

-- The names of the parameters, as the maps of `updateParameters` hold them.
unfoldable pub names : List Parameter → List Text
names [] = []
names (p ∷ ps) = p.key ∷ names ps

unfoldable pub member : Text → List Text → Bool
member k [] = false
member k (j ∷ ks) = text_eq j k || member k ks

-- `map[string]bool` with these keys, each once
unfoldable pub set_of : List Text → List Text
set_of [] = []
set_of (k ∷ ks) = let rest = set_of ks in if member k rest then rest else k ∷ rest

unfoldable settable_params : Option (List Text) → List Text → List Text
settable_params none existing = existing
settable_params (some template) existing = set_of template

unfoldable previous : Text → Parameter
previous k = record { key = k; value = none; use_previous = true }

-- The loop that fills in the parameters with their previous values.
unfoldable pub fill_previous : List Text → List Text → List Text → List Parameter
unfolding previous
fill_previous provided existing [] = []
fill_previous provided existing (k ∷ ks) =
    let rest = fill_previous provided existing ks in
    if not (member k provided) && member k existing then previous k ∷ rest else rest

-- `updateParameters(provided, stack, template)`, with the keys of the template's parameters
unfoldable pub update_parameters : List Parameter → Stack → Option (List Text) → List Parameter
unfolding settable_params
update_parameters provided stack template =
    let existing = set_of (names stack.parameters) in
    provided ++ fill_previous (names provided) existing (settable_params template existing)

-- The last output with the key.
last_output : List Output → Text → Option Output → Option Output
last_output [] key found = found
last_output (o ∷ os) key found =
    last_output os key (if text_eq o.output_key key then some o else found)

-- `output(stack, key)`
unfoldable pub output : Stack → Text → Option Output
unfolding last_output
output stack key = last_output stack.outputs key none

pub record EcsDeployment : Type 0 where
  pub process : Text
  pub deployment_id : Text

-- The loop over the ARNs of the services.
unfoldable pub watch :
    Dict Text → Dict Text → Dict EcsDeployment → Result StackError (Dict EcsDeployment)
watch [] ids found = ok found
watch ((p, a) ∷ arns) ids found = elim (lookup p ids) [
  | none ↦ err (failed (codes "deployment id not found for process: " ++ p))
  | some id ↦ watch arns ids (insert a (record { process = p; deployment_id = id }) found)
]

given_output : Option Output → Text → Result StackError Text
given_output none message = err (failed message)
given_output (some o) message = ok o.output_value

not_empty : Dict Text → Text → Result StackError (Dict Text)
not_empty [] message = err (failed message)
not_empty (e ∷ m) message = ok (e ∷ m)

-- `deploymentsToWatch(stack)`
unfoldable pub deployments_to_watch : Stack → Result StackError (Dict EcsDeployment)
unfolding given_output not_empty
deployments_to_watch stack =
    given_output (output stack (codes "Deployments"))
      (codes "deployments output missing from stack")
    >>= λ deployments.
        given_output (output stack (codes "Services")) (codes "services output missing from stack")
        >>= λ services. extract_process_data services >>= λ arns.
            extract_process_data deployments >>= λ ids.
            not_empty arns (codes "no services found in output") >>= λ arns.
            not_empty ids (codes "no deploymentIDs found in output") >>= λ ids. watch arns ids []

-- `softLimit(ulimits, name)`
unfoldable pub soft_limit : List Ulimit → Text → ℤ
soft_limit [] name = pos 0
soft_limit (u ∷ us) name = if text_eq u.name name then u.soft_limit else soft_limit us name

-- What `taskDefinitionToProcess` reads: the other fields of the process stay unset.
pub record TaskProcess : Type 0 where
  pub process_type : Text
  pub command : List Text
  pub env : Dict Text
  pub cpu_shares : ℕ
  pub memory : ℕ
  pub nproc : ℕ

unfoldable env_from : List (Text × Text) → Dict Text → Dict Text
env_from [] env = env
env_from ((k, v) ∷ kvs) env = env_from kvs (insert k v env)

-- `taskDefinitionToProcess(td)` by its container definitions; the product of the memory wraps.
unfoldable pub task_definition_to_process : List EcsContainer → Result StackError TaskProcess
unfolding env_from
task_definition_to_process [] = err (failed (codes "task definition had no container definitions"))
task_definition_to_process (c ∷ cs) = ok (record {
  process_type = c.name;
  command = c.command;
  env = env_from c.environment [];
  cpu_shares = to_uint c.cpu;
  memory = to_uint c.memory * mb % 2 ^ 64;
  nproc = to_uint (soft_limit c.ulimits (codes "nproc"));
})
