-- ===== src/CloudFormation/Containers.antt =====
-- Container definitions and task definitions (scheduler/cloudformation/template.go and resources.go).
-- A struct is the object of its fields; a nil field, which its encoding omits, is null.
use empire.Prelude.{
  ℕ, zero, suc, ◌-◌, ◌/◌, ◌%◌, ◌^◌, Bool, true, Option, none, some, List, [], ◌∷◌, ◌++◌, map, ltb,
  if◌then◌else◌,
}
use empire.Prelude.Int.{ℤ, pos, negsuc}
use empire.Prelude.Text.{Text, codes}
use empire.Prelude.Dict.{Dict}
use empire.Constraints.{mb}
use empire.Image.{encode}
use empire.Procfile.{Ecs, Placement}
use empire.Twelvefactor.{Manifest, Process, env_of, labels_of}
use empire.Troposphere.{Value, Resource, null, str, num, bool, list_of, map_of, ref, plain_resource}
use empire.Troposphere.Builder.{Builder, pure, put, add, ◌>>=◌}
use empire.CloudFormation.{
  EmpireTemplate, sorted_environment, process_resource_name, task_role_arn,
  task_definition_resource_type, has_custom_task_definitions,
}

pub record Ulimit : Type 0 where
  pub name : Text
  pub soft_limit : ℤ
  pub hard_limit : ℤ

-- `ecs.ContainerDefinition`
pub record EcsContainer : Type 0 where
  pub name : Text
  pub cpu : ℤ
  pub command : List Text
  pub image : Text
  pub essential : Bool
  pub memory : ℤ
  pub environment : List (Text × Text)
  pub log_configuration : Value
  pub docker_labels : Dict Text
  pub ulimits : List Ulimit

-- `int64(n)` of a 64-bit `uint`: the two's complement
unfoldable pub to_int64 : ℕ → ℤ
to_int64 n = let m = n % 2 ^ 64 in if ltb m (2 ^ 63) then pos m else negsuc (2 ^ 64 - 1 - m)

unfoldable pub ulimits_of : ℕ → List Ulimit
ulimits_of zero = []
ulimits_of (suc n) =
    record { name = codes "nproc"; soft_limit = to_int64 (suc n); hard_limit = to_int64 (suc n) }
    ∷ []

-- `ContainerDefinition(app, p)`
unfoldable pub container_definition : EmpireTemplate → Manifest → Process → EcsContainer
unfolding ulimits_of
container_definition t app p = record {
  name = p.process_type;
  cpu = to_int64 p.cpu_shares;
  command = p.command;
  image = encode p.image;
  essential = true;
  memory = to_int64 (p.memory / mb);
  environment = sorted_environment (env_of app p);
  log_configuration = t.log_configuration;
  docker_labels = labels_of app p;
  ulimits = ulimits_of p.nproc;
}

pub record PortMapping : Type 0 where
  pub container_port : Value
  pub host_port : Value

-- `ContainerDefinitionProperties`
pub record ContainerProperties : Type 0 where
  pub command : Value
  pub cpu : Value
  pub docker_labels : Dict Value
  pub environment : Value
  pub essential : Value
  pub image : Value
  pub memory : Value
  pub name : Value
  pub port_mappings : List PortMapping
  pub ulimits : Value
  pub log_configuration : Value

unfoldable pub labels_to_values : Dict Text → Dict Value
labels_to_values [] = []
labels_to_values ((k, v) ∷ m) = (k, str v) ∷ labels_to_values m

-- A list of texts as a JSON value
unfoldable pub texts : List Text → Value
texts ss = list_of (map str ss)

unfoldable pub pair : Text × Text → Value
pair (k, v) = map_of ((codes "Name", str k) ∷ (codes "Value", str v) ∷ [])

-- `[]*ecs.KeyValuePair` as a JSON value
unfoldable pub pairs : List (Text × Text) → Value
unfolding pair
pairs env = list_of (map pair env)

unfoldable pub ulimit : Ulimit → Value
ulimit u = map_of (
    (codes "HardLimit", num u.hard_limit)
    ∷ (codes "Name", str u.name)
    ∷ (codes "SoftLimit", num u.soft_limit)
    ∷ [])

-- `cloudformationContainerDefinition(cd)`
unfoldable pub cloudformation_container_definition : EcsContainer → ContainerProperties
unfolding ulimit labels_to_values
cloudformation_container_definition cd = record {
  command = texts cd.command;
  cpu = num cd.cpu;
  docker_labels = labels_to_values cd.docker_labels;
  environment = pairs cd.environment;
  essential = bool cd.essential;
  image = str cd.image;
  memory = num cd.memory;
  name = str cd.name;
  port_mappings = [];
  ulimits = list_of (map ulimit cd.ulimits);
  log_configuration = cd.log_configuration;
}

unfoldable pub port_mapping_value : PortMapping → Value
port_mapping_value m =
    map_of ((codes "ContainerPort", m.container_port) ∷ (codes "HostPort", m.host_port) ∷ [])

-- The struct `ContainerDefinitionProperties` as a JSON value
unfoldable pub container_value : ContainerProperties → Value
unfolding port_mapping_value
container_value c = map_of (
    (codes "Command", c.command)
    ∷ (codes "Cpu", c.cpu)
    ∷ (codes "DockerLabels", map_of c.docker_labels)
    ∷ (codes "Environment", c.environment)
    ∷ (codes "Essential", c.essential)
    ∷ (codes "Image", c.image)
    ∷ (codes "Memory", c.memory)
    ∷ (codes "Name", c.name)
    ∷ (codes "PortMappings", list_of (map port_mapping_value c.port_mappings))
    ∷ (codes "Ulimits", c.ulimits)
    ∷ (codes "LogConfiguration", c.log_configuration)
    ∷ [])

-- A pointer to a string as a JSON value, and `toInterface`
unfoldable pub optional : Option Text → Value
optional none = null
optional (some s) = str s

unfoldable pub placement_constraint : Placement → Value
placement_constraint c =
    map_of ((codes "Type", optional c.kind) ∷ (codes "Expression", optional c.argument) ∷ [])

unfoldable pub constraints_of : Option Ecs → List Value
unfolding placement_constraint
constraints_of none = []
constraints_of (some e) = map placement_constraint e.placement_constraints

abbrev pub app_environment : Text
app_environment = codes "AppEnvironment"

abbrev pub restart_parameter : Text
restart_parameter = codes "RestartKey"

-- What `addTaskDefinition` returns: the name of the task definition, and its container, which the
-- template holds by a pointer.
pub record TaskDefinition : Type 0 where
  pub task_name : Text
  pub container : ContainerProperties

unfoldable pub environment_resource : EmpireTemplate → Dict Text → Resource
environment_resource t env = plain_resource (codes "Custom::ECSEnvironment") (
    map_of (
      (codes "ServiceToken", str t.custom_resources_topic)
      ∷ (codes "Environment", pairs (sorted_environment env))
      ∷ []))

-- `tmpl.Resources[appEnvironment] = ...`, for the custom task definitions
unfoldable pub put_app_environment : EmpireTemplate → Manifest → Builder Unit
unfolding environment_resource
put_app_environment t app =
    if has_custom_task_definitions app
    then put app_environment (environment_resource t app.env)
    else pure tt

-- The task definition with its container: `CustomTaskDefinitionProperties` or
-- `TaskDefinitionProperties`.
unfoldable pub task_definition :
    EmpireTemplate → Manifest → Process → ContainerProperties → Resource
unfolding constraints_of
task_definition t app p c = plain_resource (task_definition_resource_type app) (
    if has_custom_task_definitions app
    then map_of (
        (codes "PlacementConstraints", list_of (constraints_of p.ecs))
        ∷ (codes "ContainerDefinitions", list_of (container_value c ∷ []))
        ∷ (codes "Family", str (app.name ++ (codes "-" ++ p.process_type)))
        ∷ (codes "ServiceToken", str t.custom_resources_topic)
        ∷ (codes "Volumes", list_of [])
        ∷ (codes "TaskRoleArn", optional (task_role_arn app))
        ∷ [])
    else map_of (
        (codes "PlacementConstraints", list_of (constraints_of p.ecs))
        ∷ (codes "ContainerDefinitions", list_of (container_value c ∷ []))
        ∷ (codes "Volumes", list_of [])
        ∷ (codes "TaskRoleArn", optional (task_role_arn app))
        ∷ []))

-- `%sTD`, `%sTaskDefinition` and `%sEnvironment` of the process
unfoldable pub task_definition_name : Manifest → Text → Text
task_definition_name app key =
    if has_custom_task_definitions app then key ++ codes "TD" else key ++ codes "TaskDefinition"

unfoldable pub environment_name : Text → Text
environment_name key = key ++ codes "Environment"

unfoldable pub put_process_environment : EmpireTemplate → Manifest → Process → Builder Unit
unfolding environment_resource environment_name
put_process_environment t app p =
    if has_custom_task_definitions app
    then put (environment_name (process_resource_name p.process_type))
        (environment_resource t p.env)
    else pure tt

-- The container of the process in the template: with custom task definitions its environment refers
-- to the two environment resources.
unfoldable pub process_container : EmpireTemplate → Manifest → Process → ContainerProperties
unfolding environment_name
process_container t app p =
    let cd = container_definition t app p in
    let c = cloudformation_container_definition cd in
    record c {
      environment =
          if has_custom_task_definitions app
          then list_of (
              ref app_environment
              ∷ ref (environment_name (process_resource_name p.process_type))
              ∷ [])
          else pairs cd.environment;
    }

-- `addTaskDefinition(tmpl, app, p)`
unfoldable pub add_task_definition : EmpireTemplate → Manifest → Process → Builder TaskDefinition
unfolding put_process_environment
add_task_definition t app p =
    let name = task_definition_name app (process_resource_name p.process_type) in
    let c = process_container t app p in
    put_process_environment t app p >>= λ _.
    add name (task_definition t app p c) >>= λ _. pure (record { task_name = name; container = c })

-- The container behind the pointer changes: the template shows it.
unfoldable pub change_container :
    EmpireTemplate → Manifest → Process → TaskDefinition → ContainerProperties → Builder Unit
change_container t app p task c = put task.task_name (task_definition t app p c)
