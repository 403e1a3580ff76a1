-- ===== src/CloudFormation.antt =====
-- The settings of the template builder, the names it gives and the values it makes
-- (scheduler/cloudformation/template.go).
pub mod Containers
pub mod Balancers
pub mod Builds
pub mod Closed
pub mod Distinct
pub mod Sorting
pub mod Settings
pub mod Stacks
pub mod Sample
mod Tests
use empire.Prelude.{
  ℕ, Bool, true, false, Option, none, some, List, [], ◌∷◌, ◌++◌, map, ◌||◌, ◌&&◌, Result, ok, err,
  if◌then◌else◌, leb,
}
use empire.Prelude.Text.{Text, codes, text_eq, is_empty}
use empire.Prelude.Text.Decimal.{format_int}
use empire.Prelude.Text.Split
use empire.Prelude.Dict.{Dict, lookup}
use empire.Arn
use empire.Configs.{text_lt}
use empire.Twelvefactor.{Manifest, Process, Port, env_of}
use empire.Troposphere.{Value, Output, Resource, str, list_of, map_of, ref, join, plain_resource}

pub record HostedZone : Type 0 where
  pub id : Text
  pub name : Text

pub record Tag : Type 0 where
  pub key : Text
  pub value : Text

-- `NoCompress`, which chooses the layout of the JSON text, is left out.
pub record EmpireTemplate : Type 0 where
  pub cluster : Text
  pub vpc_id : Text
  pub hosted_zone : Option HostedZone
  pub internal_security_group_id : Text
  pub external_security_group_id : Text
  pub internal_subnet_ids : List Text
  pub external_subnet_ids : List Text
  pub service_role : Text
  pub custom_resources_topic : Text
  pub log_configuration : Value
  pub extra_outputs : Dict Output

pub record TemplateData : Type 0 where
  pub manifest : Manifest
  pub stack_tags : List Tag

unfoldable is_none : {A : Type 0} → Option A → Bool
is_none none = true
is_none (some a) = false

unfoldable no_items : List Text → Bool
no_items [] = true
no_items (s ∷ ss) = false

-- `r(n)` for the first of the checks that holds
unfoldable required : List (Bool × Text) → Option Text
required [] = none
required ((missing, n) ∷ checks) =
    let rest = required checks in if missing then some (n ++ codes " is required") else rest

-- What `Validate` looks at, in its order.
unfoldable checks : EmpireTemplate → List (Bool × Text)
unfolding is_none no_items
checks t =
    (is_empty t.vpc_id, codes "VpcId")
    ∷ (is_empty t.cluster, codes "Cluster")
    ∷ (is_empty t.service_role, codes "ServiceRole")
    ∷ (is_none t.hosted_zone, codes "HostedZone")
    ∷ (is_empty t.internal_security_group_id, codes "InternalSecurityGroupID")
    ∷ (is_empty t.external_security_group_id, codes "ExternalSecurityGroupID")
    ∷ (no_items t.internal_subnet_ids, codes "InternalSubnetIDs")
    ∷ (no_items t.external_subnet_ids, codes "ExternalSubnetIDs")
    ∷ (is_empty t.custom_resources_topic, codes "CustomResourcesTopic")
    ∷ []

-- `Validate()`: the text of its error
unfoldable pub validate : EmpireTemplate → Option Text
unfolding required checks
validate t = required (checks t)

-- The first of the names that the map has: the loops over `check`.
first_of : List Text → Dict Text → Option Text
first_of [] env = none
first_of (n ∷ names) env = elim (lookup n env) [ some v ↦ some v | none ↦ first_of names env ]

or_else : Option Text → Text → Text
or_else none d = d
or_else (some v) d = v

abbrev pub classic_load_balancer : Text
classic_load_balancer = codes "elb"

abbrev pub application_load_balancer : Text
application_load_balancer = codes "alb"

-- `loadBalancerType(app, process)`
unfoldable pub load_balancer_type : Manifest → Process → Text
unfolding first_of or_else
load_balancer_type app process =
    or_else
      (first_of (codes "EMPIRE_X_LOAD_BALANCER_TYPE" ∷ codes "LOAD_BALANCER_TYPE" ∷ [])
        (env_of app process))
      classic_load_balancer

is_custom : Option Text → Bool
is_custom none = false
is_custom (some v) = text_eq v (codes "custom")

-- `taskDefinitionResourceType(app) == "Custom::ECSTaskDefinition"`
unfoldable pub has_custom_task_definitions : Manifest → Bool
unfolding is_custom
has_custom_task_definitions app =
    is_custom (lookup (codes "EMPIRE_X_TASK_DEFINITION_TYPE") app.env)
    || is_custom (lookup (codes "ECS_TASK_DEFINITION") app.env)

unfoldable pub task_definition_resource_type : Manifest → Text
task_definition_resource_type app =
    if has_custom_task_definitions app
    then codes "Custom::ECSTaskDefinition"
    else codes "AWS::ECS::TaskDefinition"

-- `taskRoleArn(app)`
unfoldable pub task_role_arn : Manifest → Option Text
unfolding first_of
task_role_arn app = first_of (codes "EMPIRE_X_TASK_ROLE_ARN" ∷ codes "TASK_ROLE_ARN" ∷ []) app.env

-- The bytes that `resourceRegex` leaves.
unfoldable pub is_alphanumeric : ℕ → Bool
is_alphanumeric c = leb b'a' c && leb c b'z' || leb b'A' c && leb c b'Z' || leb b'0' c && leb c b'9'

-- `processResourceName(process)`
unfoldable pub process_resource_name : Text → Text
process_resource_name [] = []
process_resource_name (c ∷ s) =
    let rest = process_resource_name s in if is_alphanumeric c then c ∷ rest else rest

-- `scaleParameter(process)`
unfoldable pub scale_parameter : Text → Text
scale_parameter process = process_resource_name process ++ codes "Scale"

unfoldable pub insert_pair : Text × Text → List (Text × Text) → List (Text × Text)
insert_pair p [] = p ∷ []
insert_pair p (q ∷ ps) = if text_lt q.0 p.0 then q ∷ insert_pair p ps else p ∷ q ∷ ps

-- `sortedEnvironment(environment)`; the keys of a map differ, so that any sort gives this order.
unfoldable pub sorted_environment : Dict Text → List (Text × Text)
sorted_environment [] = []
sorted_environment (p ∷ env) = insert_pair p (sorted_environment env)

as_tag : Text × Text → Tag
as_tag (k, v) = record { key = k; value = v }

-- `tagsFromLabels(labels)`
unfoldable pub tags_from_labels : Dict Text → List Tag
unfolding as_tag
tags_from_labels labels = map as_tag (sorted_environment labels)

has_prefix : Text → Text → Bool
has_prefix s [] = true
has_prefix [] (c ∷ prefix) = false
has_prefix (d ∷ s) (c ∷ prefix) = text_eq (d ∷ []) (c ∷ []) && has_prefix s prefix

-- `fixHostedZoneIDPrefix(zoneID)`
unfoldable pub fix_hosted_zone_id_prefix : Text → Text
unfolding has_prefix
fix_hosted_zone_id_prefix zone_id =
    if has_prefix zone_id (codes "/hostedzone/") then zone_id else codes "/hostedzone/" ++ zone_id

-- `if _, err := arn.Parse(name); err == nil { name } else { Join("", "arn:aws:iam::", ...) }`
unfoldable pub expand_arn : Text → Text → Value
expand_arn kind name = elim (Arn.parse name) [
  | ok a ↦ str name
  | err e ↦
      join []
        (str (codes "arn:aws:iam::") ∷ ref (codes "AWS::AccountId") ∷ str kind ∷ str name ∷ [])
]

-- `serviceRoleArn()`
unfoldable pub service_role_arn : EmpireTemplate → Value
service_role_arn t = expand_arn (codes ":role/") t.service_role

-- `scheduleExpression(s)` of a `CRONSchedule`, the one schedule that the program makes
unfoldable pub schedule_expression : Text → Text
schedule_expression cron = codes "cron(" ++ (cron ++ codes ")")

abbrev run_task_code : Text
run_task_code =
    codes
      "\nimport boto3\nimport logging\n\nlogger = logging.getLogger()\nlogger.setLevel(logging.INFO)\n\necs = boto3.client('ecs')\n\ndef handler(event, context):\n  logger.info('Request Received')\n  logger.info(event)\n\n  resp = ecs.run_task(\n    cluster=event['cluster'],\n    taskDefinition=event['taskDefinition'],\n    count=event['count'],\n    startedBy=event['startedBy'])\n\n  return map(lambda x: x['taskArn'], resp['tasks'])"

-- `runTaskResource(role)`
unfoldable pub run_task_resource : Value → Resource
run_task_resource role = plain_resource (codes "AWS::Lambda::Function") (
    map_of (
      (codes "Description", str (codes "Lambda function to run an ECS task"))
      ∷ (codes "Handler", str (codes "index.handler"))
      ∷ (codes "Role", role)
      ∷ (codes "Runtime", str (codes "python2.7"))
      ∷ (codes "Code", map_of ((codes "ZipFile", str run_task_code) ∷ []))
      ∷ []))

port_mapping : Port → Text
port_mapping port = format_int port.host ++ (codes " => " ++ format_int port.container)

-- `fmtPorts(ports).String()`
unfoldable pub fmt_ports : List Port → Text
unfolding port_mapping
fmt_ports ports = Split.join (map port_mapping ports) (codes ", ")
