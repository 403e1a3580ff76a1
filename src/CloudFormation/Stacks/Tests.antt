-- ===== src/CloudFormation/Stacks/Tests.antt =====
-- Concrete runs of the readers of stacks, task definitions and parameters.
use empire.Prelude.{
  ◌*◌, ◌/◌, ◌≡◌, ◌↔◌, true, false, not, ◌&&◌, none, some, List, [], ◌∷◌, map, arith, take, drop,
  All, ok,
}
use empire.Prelude.Text.{Text, codes}
use empire.Prelude.Text.Split.{split, join, contains}
use empire.Prelude.Dict.{Dict, lookup}
use empire.Twelvefactor.{copy_into, env_of}
use empire.Constraints.{mb}
use empire.CloudFormation.Sample.{settings, acme, web}
use empire.CloudFormation.Containers.{container_definition}
use empire.CloudFormation.Stacks.{
  chunk_strings, Parameter, Stack, update_parameters, names, member, extract_process_data,
  task_definition_to_process, TaskProcess,
}
use empire.CloudFormation.Stacks.Chunks.{concat, IsChunk, chunk_strings_total}
use empire.CloudFormation.Stacks.Parameters.{is_settable, member-update_parameters}
use empire.CloudFormation.Stacks.Outputs.{
  joined, IsPair, extract_process_data-join, extract_process_data_total,
}
use empire.CloudFormation.Stacks.Tasks.{task_definition_to_process-container}

abbrev arns : List Text
arns = codes "a" ∷ codes "b" ∷ codes "c" ∷ []

chunk_strings_total_example :
    (concat (chunk_strings arns 2) ≡ arns) × All (IsChunk 2) (chunk_strings arns 2)
chunk_strings_total_example = chunk_strings_total arns 2 (omega arith)

abbrev provided : List Parameter
provided = record { key = codes "webScale"; value = some (codes "2"); use_previous = false } ∷ []

abbrev stack : Stack
stack = record {
  parameters =
      record { key = codes "DNS"; value = some (codes "true"); use_previous = false }
      ∷ record { key = codes "webScale"; value = some (codes "1"); use_previous = false }
      ∷ [];
  outputs = [];
}

member-update_parameters_example :
    (take 1 (update_parameters provided stack none) ≡ provided)
    × (member (codes "DNS") (names (drop 1 (update_parameters provided stack none))) ≡ (
        is_settable none (codes "DNS")
        && (not (member (codes "DNS") (names provided))
            && member (codes "DNS") (names stack.parameters))))
    × All (λ p. p.use_previous ≡ true) (drop 1 (update_parameters provided stack none))
member-update_parameters_example = member-update_parameters (codes "DNS") provided stack none

abbrev service : Text × Text
service = (codes "web", codes "arn:aws:ecs:us-east-1:1:service/web")

abbrev worker_service : Text × Text
worker_service = (codes "worker", codes "arn:aws:ecs:us-east-1:1:service/worker")

services-IsPair : All IsPair (service ∷ worker_service ∷ [])
services-IsPair = ground arith

extract_process_data-join_example :
    extract_process_data (join (map joined (service ∷ worker_service ∷ [])) (codes ","))
    ≡ ok (copy_into [] (service ∷ worker_service ∷ []))
extract_process_data-join_example =
    extract_process_data-join service (worker_service ∷ []) services-IsPair

extract_process_data_total_example :
    All (λ p. contains p b'=' ≡ true) (split [] b',')
    ↔ ((m : Dict Text) × (extract_process_data [] ≡ ok m))
extract_process_data_total_example = extract_process_data_total []

task_definition_to_process-container_example :
    (r : TaskProcess) × (task_definition_to_process (container_definition settings acme web ∷ [])
      ≡ ok r)
    × (r.process_type ≡ web.process_type)
    × (r.command ≡ web.command)
    × (r.cpu_shares ≡ 256)
    × (r.nproc ≡ 256)
    × (r.memory ≡ 134217728 / mb * mb)
    × ((k : Text) → lookup k r.env ≡ lookup k (env_of acme web))
task_definition_to_process-container_example =
    task_definition_to_process-container settings acme web (omega arith) (omega arith) (omega arith)
