-- ===== src/CloudFormation/Builds.antt =====
-- The resources of a process and the whole template (scheduler/cloudformation/template.go).
use empire.Prelude.{
  Bool, Option, none, some, List, [], ◌∷◌, ◌++◌, map, if◌then◌else◌, Result, ok, err,
}
use empire.Prelude.Int.{ℤ, pos, ltb_ℤ}
use empire.Prelude.Text.{Text, codes}
use empire.Prelude.Dict.{Dict, insert}
use empire.Procfile.{Ecs, Placement}
use empire.Twelvefactor.{Manifest, Process}
use empire.Troposphere.{
  Value, Resource, Parameter, Output, Template, BuildError, new_template, null, str, list_of,
  map_of, ref, get_att, equals, join, plain_resource,
}
use empire.Troposphere.Builder.{
  Builder, pure, put, add, put_parameter, put_condition, put_output, ◌>>=◌,
}
use empire.CloudFormation.{
  EmpireTemplate, Tag, TemplateData, process_resource_name, scale_parameter, service_role_arn,
  schedule_expression, run_task_resource,
}
use empire.CloudFormation.Containers.{
  ContainerProperties, PortMapping, add_task_definition, change_container, put_app_environment,
  optional, texts, restart_parameter,
}
use empire.CloudFormation.Balancers.{Balanced, add_exposure}

abbrev pub run_task_function : Text
run_task_function = codes "RunTaskFunction"

unfoldable pub state_of : ℤ → Text
state_of quantity = if ltb_ℤ (pos 0) quantity then codes "ENABLED" else codes "DISABLED"

unfoldable pub trigger_resource : EmpireTemplate → Manifest → Process → Text → Text → Resource
unfolding state_of
trigger_resource t app p cron task = plain_resource (codes "AWS::Events::Rule") (
    map_of (
      (
        codes "Description",
        str (
            codes "Rule to periodically trigger the `"
            ++ (p.process_type ++ codes "` scheduled task")),
      )
      ∷ (codes "ScheduleExpression", str (schedule_expression cron))
      ∷ (codes "RoleArn", service_role_arn t)
      ∷ (codes "State", str (state_of p.quantity))
      ∷ (
        codes "Targets",
        list_of (
            map_of (
              (codes "Arn", get_att run_task_function (codes "Arn"))
              ∷ (codes "Id", str (codes "f"))
              ∷ (
                codes "Input",
                join [] (
                    str (codes "{\"taskDefinition\":\"")
                    ∷ ref task
                    ∷ str (codes "\",\"count\":")
                    ∷ ref (scale_parameter p.process_type)
                    ∷ str (codes ",\"cluster\":\"")
                    ∷ str t.cluster
                    ∷ str (codes "\",\"startedBy\": \"")
                    ∷ str app.app_id
                    ∷ str (codes "\"}")
                    ∷ []),
              )
              ∷ [])
            ∷ []),
      )
      ∷ []))

unfoldable pub permission_resource : Text → Resource
permission_resource schedule = plain_resource (codes "AWS::Lambda::Permission") (
    map_of (
      (codes "FunctionName", get_att run_task_function (codes "Arn"))
      ∷ (codes "SourceArn", get_att schedule (codes "Arn"))
      ∷ (codes "Action", str (codes "lambda:InvokeFunction"))
      ∷ (codes "Principal", str (codes "events.amazonaws.com"))
      ∷ []))

-- `addScheduledTask(tmpl, app, p)`: the name of the task definition
unfoldable pub add_scheduled_task : EmpireTemplate → Manifest → Process → Text → Builder Text
unfolding trigger_resource permission_resource
add_scheduled_task t app p cron =
    let key = process_resource_name p.process_type in
    let schedule = key ++ codes "Trigger" in
    add_task_definition t app p >>= λ task.
    put schedule (trigger_resource t app p cron task.task_name) >>= λ _.
    put (key ++ codes "TriggerPermission") (permission_resource schedule) >>= λ _.
    pure task.task_name

-- The label that restarts the service, and its port mappings.
unfoldable pub changed_container : ContainerProperties → List PortMapping → ContainerProperties
changed_container c mappings = record c {
  docker_labels =
      insert (codes "cloudformation.restart-key") (ref restart_parameter) c.docker_labels;
  port_mappings = mappings;
}

unfoldable pub strategy : Placement → Value
strategy s = map_of ((codes "Type", optional s.kind) ∷ (codes "Field", optional s.argument) ∷ [])

unfoldable pub strategy_field : List Placement → List (Text × Value)
unfolding strategy
strategy_field [] = []
strategy_field (s ∷ ss) = (codes "PlacementStrategy", list_of (map strategy (s ∷ ss))) ∷ []

unfoldable pub strategies : Option Ecs → List (Text × Value)
unfolding strategy_field
strategies none = []
strategies (some e) = strategy_field e.placement_strategy

unfoldable pub role : Text → List Value → List (Text × Value)
role service_role [] = []
role service_role (b ∷ bs) = (codes "Role", str service_role) ∷ []

-- `DependsOn`, which is nil without dependencies
unfoldable pub depends : List Text → Value
depends [] = null
depends (d ∷ ds) = texts (d ∷ ds)

unfoldable pub service_resource : EmpireTemplate → Manifest → Process → Text → Balanced → Resource
unfolding strategies role depends
service_resource t app p task b = record {
  condition = null;
  depends_on = depends b.dependencies;
  properties = map_of (
      (codes "Cluster", str t.cluster)
      ∷ (codes "DesiredCount", ref (scale_parameter p.process_type))
      ∷ (codes "LoadBalancers", list_of b.load_balancers)
      ∷ (codes "TaskDefinition", ref task)
      ∷ (codes "ServiceName", str (app.name ++ (codes "-" ++ p.process_type)))
      ∷ (codes "ServiceToken", str t.custom_resources_topic)
      ∷ (strategies p.ecs ++ role t.service_role b.load_balancers));
  resource_type = str (codes "Custom::ECSService");
  version = null;
}

-- `addService(tmpl, app, p, stackTags)`: the name of the service
unfoldable pub add_service : EmpireTemplate → Manifest → Process → List Tag → Builder Text
unfolding service_resource changed_container
add_service t app p stack_tags =
    let name = process_resource_name p.process_type ++ codes "Service" in
    add_exposure t app p p.exposure stack_tags >>= λ b. add_task_definition t app p >>= λ task.
    change_container t app p task (changed_container task.container b.port_mappings) >>= λ _.
    add name (service_resource t app p task.task_name b) >>= λ _. pure name

-- `serviceMappings` and `deploymentMappings` by the process type and the service, and whether there
-- is a scheduled process.
pub record Mappings : Type 0 where
  pub services : List (Text × Text)
  pub is_scheduled : Bool

unfoldable pub scale_type : Parameter
scale_type = record { parameter_type = str (codes "String"); description = null; default = null }

unfoldable pub add_process :
    EmpireTemplate → Manifest → Process → Option Text → List Tag → Builder (Option Text)
add_process t app p none tags = add_service t app p tags >>= λ service. pure (some service)
add_process t app p (some cron) tags = add_scheduled_task t app p cron >>= λ _. pure none

unfoldable pub mapped : Text → Option Text → Mappings → Mappings
mapped kind none m = record m { is_scheduled = Bool.true }
mapped kind (some service) m = record m { services = (kind, service) ∷ m.services }

-- The loop over `app.Processes`.
unfoldable pub add_processes :
    EmpireTemplate → Manifest → List Tag → List Process → Builder Mappings
unfolding add_process mapped scale_type
add_processes t app tags [] = pure (record { services = []; is_scheduled = Bool.false })
add_processes t app tags (p ∷ ps) =
    put_parameter (scale_parameter p.process_type) scale_type >>= λ _.
    add_process t app p p.schedule tags >>= λ service.
    add_processes t app tags ps >>= λ m. pure (mapped p.process_type service m)

unfoldable pub put_outputs : Dict Output → Builder Unit
put_outputs [] = pure tt
put_outputs ((k, o) ∷ outputs) = put_output k o >>= λ _. put_outputs outputs

unfoldable pub service_mapping : Text × Text → Value
service_mapping (kind, service) = join (codes "=") (str kind ∷ ref service ∷ [])

unfoldable pub deployment_mapping : Text × Text → Value
deployment_mapping (kind, service) =
    join (codes "=") (str kind ∷ get_att service (codes "DeploymentId") ∷ [])

unfoldable pub put_run_task : EmpireTemplate → Bool → Builder Unit
put_run_task t is_scheduled =
    if is_scheduled then put run_task_function (run_task_resource (service_role_arn t)) else pure tt

unfoldable pub dns_parameter : Parameter
dns_parameter = record {
  parameter_type = str (codes "String");
  description = str (codes "When set to `true`, CNAME's will be altered");
  default = str (codes "true");
}

unfoldable pub restart_key : Parameter
restart_key = record {
  parameter_type = str (codes "String");
  description = str (codes "Key used to trigger a restart of an app");
  default = str (codes "default");
}

-- What `Build` puts into the template before the processes.
unfoldable pub prepare : EmpireTemplate → Manifest → Builder Unit
unfolding put_outputs dns_parameter restart_key
prepare t app = put_parameter (codes "DNS") dns_parameter >>= λ _.
    put_parameter restart_parameter restart_key >>= λ _.
    put_condition (codes "DNSCondition") (equals (ref (codes "DNS")) (str (codes "true"))) >>= λ _.
    put_outputs t.extra_outputs >>= λ _.
    put_output (codes "Release") (record { value = str app.release }) >>= λ _.
    put_app_environment t app

-- And after them.
unfoldable pub finish : EmpireTemplate → Mappings → Builder Unit
unfolding put_run_task service_mapping deployment_mapping
finish t m = put_run_task t m.is_scheduled >>= λ _.
    put_output (codes "Services")
      (record { value = join (codes ",") (map service_mapping m.services) })
    >>= λ _.
        put_output (codes "Deployments")
          (record { value = join (codes ",") (map deployment_mapping m.services) })

-- `Build(data)`, on the template that `NewTemplate` returns
unfoldable pub build_on : EmpireTemplate → TemplateData → Builder Unit
build_on t input = prepare t input.manifest >>= λ _.
    add_processes t input.manifest input.stack_tags input.manifest.processes >>= λ m. finish t m

unfoldable pub built : Result {0, 0} BuildError (Unit × Template) → Result BuildError Template
built (ok (a, t)) = ok t
built (err e) = err e

-- `Build(data)`
unfoldable pub build : EmpireTemplate → TemplateData → Result BuildError Template
unfolding built
build t input = built (build_on t input new_template)
