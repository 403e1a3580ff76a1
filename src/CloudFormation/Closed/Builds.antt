-- ===== src/CloudFormation/Closed/Builds.antt =====
-- What the resources of a process and the whole template refer to.
use empire.Prelude.{
  ◌≡◌, refl, ap, Bool, true, Option, none, some, List, [], ◌∷◌, ◌++◌, arith, All, All-append,
}
use empire.Prelude.Text.{Text, codes, text_eq}
use empire.Prelude.Dict.{Dict, insert-Lacks}
use empire.Procfile.{Placement, Ecs}
use empire.Twelvefactor.{Manifest, Process}
use empire.Troposphere.{Value, Output, items, fields, ref, get_att, join}
use empire.Troposphere.References.{references, item_references, field_references, intrinsic, target}
use empire.Troposphere.Closed.{ResourceClosed, names_of, Grows}
use empire.Troposphere.Rules.{
  Safe, grows_rules, Safe-put, Safe-add, Safe-bind, Safe-pure, Grows-bind, Grows-pure,
}
use empire.CloudFormation.{
  EmpireTemplate, Tag, scale_parameter, service_role_arn, has_custom_task_definitions,
}
use empire.CloudFormation.Containers.{
  ContainerProperties, PortMapping, texts, app_environment, restart_parameter,
}
use empire.CloudFormation.Balancers.{Balanced}
use empire.CloudFormation.Builds.{
  run_task_function, trigger_resource, permission_resource, add_scheduled_task, changed_container,
  strategy, strategy_field, strategies, role, depends, service_resource, add_service, add_process,
  add_processes, put_outputs, put_run_task,
}
use empire.CloudFormation.Closed.{
  IsLocal, IsPlain, All-ref, All-expand_arn, IsLocal-items, All-insert,
}
use empire.CloudFormation.Closed.Containers.{IsLocal-optional, ContainerClosed, Labelled}
use empire.CloudFormation.Closed.Tasks.{
  Safe-add_task_definition, Safe-change_container, Grows-add_task_definition,
  Grows-change_container,
}
use empire.CloudFormation.Closed.Balancers.{BalancedClosed, Safe-add_exposure, Grows-add_exposure}

Grows-add_scheduled_task :
    (t : EmpireTemplate) (app : Manifest) (p : Process) (cron : Text)
    → Grows (add_scheduled_task t app p cron)
unfolding add_scheduled_task
Grows-add_scheduled_task t app p cron = search (grows_rules, Grows-add_task_definition)

Grows-add_service :
    (t : EmpireTemplate) (app : Manifest) (p : Process) (tags : List Tag)
    → Grows (add_service t app p tags)
unfolding add_service
Grows-add_service t app p tags =
    search (grows_rules, Grows-add_exposure, Grows-add_task_definition, Grows-change_container)
      depth 12

pub Grows-add_process :
    (t : EmpireTemplate) (app : Manifest) (p : Process) (s : Option Text) (tags : List Tag)
    → Grows (add_process t app p s tags)
unfolding add_process
Grows-add_process t app p none tags = search (grows_rules, Grows-add_service)
Grows-add_process t app p (some cron) tags = search (grows_rules, Grows-add_scheduled_task)

pub Grows-add_processes :
    (t : EmpireTemplate) (app : Manifest) (tags : List Tag) (ps : List Process)
    → Grows (add_processes t app tags ps)
unfolding add_processes
Grows-add_processes t app tags [] = Grows-pure _
Grows-add_processes t app tags (p ∷ ps) = Grows-bind _ _ (search (grows_rules)) λ _.
    Grows-bind _ _ (Grows-add_process t app p p.schedule tags)
      λ _. Grows-bind _ _ (Grows-add_processes t app tags ps) λ _. Grows-pure _

pub Grows-put_outputs : (outputs : Dict Output) → Grows (put_outputs outputs)
unfolding put_outputs
Grows-put_outputs [] = Grows-pure _
Grows-put_outputs ((k, o) ∷ outputs) =
    Grows-bind _ _ (search (grows_rules)) λ _. Grows-put_outputs outputs

pub Grows-put_run_task : (t : EmpireTemplate) (b : Bool) → Grows (put_run_task t b)
unfolding put_run_task
Grows-put_run_task t b = search (grows_rules)

IsLocal-strategy : (s : Placement) → IsLocal (strategy s)
unfolding strategy references intrinsic
IsLocal-strategy s = rw (IsLocal-optional s.kind, IsLocal-optional s.argument)

field_references-role :
    (service_role : Text) (bs : List Value) → field_references (fields (role service_role bs)) ≡ []
unfolding role references
field_references-role service_role [] = refl
field_references-role service_role (b ∷ bs) = refl

field_references-placements :
    (ps : List Placement) (service_role : Text) (bs : List Value)
    → field_references (fields (strategy_field ps ++ role service_role bs)) ≡ []
unfolding strategy_field references
field_references-placements [] service_role bs = field_references-role service_role bs
field_references-placements (p ∷ ps) service_role bs =
    rw (IsLocal-strategy p, IsLocal-items strategy ps IsLocal-strategy)
      (field_references-role service_role bs)

field_references-strategies :
    (e : Option Ecs) (service_role : Text) (bs : List Value)
    → field_references (fields (strategies e ++ role service_role bs)) ≡ []
unfolding strategies
field_references-strategies none service_role bs = field_references-role service_role bs
field_references-strategies (some e) service_role bs =
    field_references-placements e.placement_strategy service_role bs

names_of-texts : (ds : List Text) → names_of (texts ds) ≡ ds
unfolding names_of texts
names_of-texts [] = refl
names_of-texts (d ∷ ds) = ap (◌∷◌ d) (names_of-texts ds)

names_of-depends : (ds : List Text) → names_of (depends ds) ≡ ds
unfolding depends
names_of-depends [] = unfold names_of in refl
names_of-depends (d ∷ ds) = names_of-texts (d ∷ ds)

module _ (K C : Text → Type 0) (account : K (codes "AWS::AccountId")) where
  ResourceClosed-trigger :
      (t : EmpireTemplate) (app : Manifest) (p : Process) (cron task : Text)
      → K run_task_function
      → K task
      → K (scale_parameter p.process_type)
      → ResourceClosed K C (trigger_resource t app p cron task)
  unfolding trigger_resource references intrinsic names_of target get_att ref join text_eq
      service_role_arn
  ResourceClosed-trigger t app p cron task r k s = (
    All-append K (references (service_role_arn t)) _
        (All-expand_arn K (codes ":role/") t.service_role account) (r, (k, (s, tt))),
    tt,
    tt,
  )

  pub Safe-add_scheduled_task :
      (t : EmpireTemplate) (app : Manifest) (p : Process) (cron : Text)
      → Labelled t app p
      → (has_custom_task_definitions app ≡ true → K app_environment)
      → K run_task_function
      → K (scale_parameter p.process_type)
      → Safe K C (λ _. Unit) (add_scheduled_task t app p cron)
  unfolding add_scheduled_task
  Safe-add_scheduled_task t app p cron l env r s =
      Safe-bind _ _ (Safe-add_task_definition K C t app p l env) (λ _. search (grows_rules))
        λ task k.
          Safe-bind _ _
            (Safe-put _ _ (λ _. ResourceClosed-trigger t app p cron task.task_name r k.named s))
            (λ _. search (grows_rules))
            λ _ schedule.
              Safe-bind _ _
                (Safe-put _ _ (λ _.
                  unfold permission_resource references intrinsic names_of target get_att text_eq in
                  ((r, (schedule, tt)), tt, tt)))
                (λ _. search (grows_rules)) λ _ _. Safe-pure _ tt

  ResourceClosed-service :
      (t : EmpireTemplate) (app : Manifest) (p : Process) (task : Text) (b : Balanced)
      → BalancedClosed K b
      → K task
      → K (scale_parameter p.process_type)
      → ResourceClosed K C (service_resource t app p task b)
  unfolding service_resource references intrinsic names_of target ref text_eq
  ResourceClosed-service t app p task b h k s = (
    (
      s,
      All-append K (item_references (items b.load_balancers)) _ h.balancers
          (k, rw (field_references-strategies p.ecs t.service_role b.load_balancers) tt),
    ),
    rw (names_of-depends b.dependencies) h.dependencies_known,
    tt,
  )

  ContainerClosed-changed :
      (c : ContainerProperties) (mappings : List PortMapping)
      → K restart_parameter
      → ContainerClosed K c
      → All
          (λ (m : PortMapping). IsLocal m.container_port × All K (references m.host_port))
          mappings
      → ContainerClosed K (changed_container c mappings)
  unfolding changed_container
  ContainerClosed-changed c mappings k h m =
      let (r, g) = h.labels in
      let plain : IsPlain (changed_container c mappings).docker_labels = (
        insert-Lacks (codes "cloudformation.restart-key") (codes "Ref") _ _ r (ground arith),
        insert-Lacks (codes "cloudformation.restart-key") (codes "Fn::GetAtt") _ _ g (ground arith),
      ) in
      record {
        command = h.command;
        cpu = h.cpu;
        labels = plain;
        label_values = All-insert K _ _ c.docker_labels (All-ref K _ k) h.label_values;
        environment = h.environment;
        essential = h.essential;
        image = h.image;
        memory = h.memory;
        name = h.name;
        ports = m;
        ulimits = h.ulimits;
        log = h.log;
      }

  pub Safe-add_service :
      (t : EmpireTemplate) (app : Manifest) (p : Process) (tags : List Tag)
      → Labelled t app p
      → (has_custom_task_definitions app ≡ true → K app_environment)
      → C (codes "DNSCondition")
      → K restart_parameter
      → K (scale_parameter p.process_type)
      → Safe K C K (add_service t app p tags)
  unfolding add_service
  Safe-add_service t app p tags l env c r s =
      Safe-bind _ _ (Safe-add_exposure K C account t app p p.exposure tags c)
        (λ _. search (grows_rules, Grows-add_task_definition, Grows-change_container) depth 12)
        λ b h.
          Safe-bind _ _ (Safe-add_task_definition K C t app p l env)
            (λ _. search (grows_rules, Grows-change_container) depth 12)
            λ task k.
              Safe-bind _ _
                (Safe-change_container K C t app p task _
                  (ContainerClosed-changed task.container b.port_mappings r k.closed h.mappings))
                (λ _. search (grows_rules))
                λ _ _.
                  Safe-bind _ _
                    (Safe-add _ _
                      (λ _. ResourceClosed-service t app p task.task_name b h k.named s))
                    (λ _. search (grows_rules)) λ _ n. Safe-pure _ n
