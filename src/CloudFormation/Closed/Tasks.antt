-- ===== src/CloudFormation/Closed/Tasks.antt =====
-- What adding a task definition refers to.
use empire.Prelude.{◌≡◌, sym, ◌∙◌, inl, inr, true, List, [], Bool-cases, All-append}
use empire.Prelude.Text.{Text}
use mathlib.Core.Bool.{true≢false}
use empire.Twelvefactor.{Manifest, Process}
use empire.Troposphere.References.{references, intrinsic}
use empire.Troposphere.Closed.{ResourceClosed, names_of, Grows}
use empire.Troposphere.Rules.{
  Safe, grows_rules, Safe-put, Safe-add, Safe-bind, Safe-pure, Safe-if, Safe-weaken,
}
use empire.CloudFormation.{
  EmpireTemplate, process_resource_name, sorted_environment, has_custom_task_definitions,
  task_role_arn,
}
use empire.CloudFormation.Containers.{
  container_value, task_definition, ContainerProperties, add_task_definition, change_container,
  put_process_environment, put_app_environment, environment_resource, environment_name,
  app_environment, TaskDefinition,
}
use empire.CloudFormation.Closed.Containers.{
  IsLocal-pairs, IsLocal-optional, IsLocal-constraints, ContainerClosed, Labelled,
  ContainerClosed-process, All-container_value,
}

module _ (K C : Text → Type 0) (t : EmpireTemplate) (app : Manifest) where
  ResourceClosed-environment :
      (env : List (Text × Text)) → ResourceClosed K C (environment_resource t env)
  unfolding environment_resource references intrinsic names_of
  ResourceClosed-environment env = (rw (IsLocal-pairs (sorted_environment env)) tt, tt, tt)

  ResourceClosed-task :
      (p : Process) (c : ContainerProperties)
      → ContainerClosed K c
      → ResourceClosed K C (task_definition t app p c)
  unfolding task_definition names_of references intrinsic
  ResourceClosed-task p c h =
      let container =
        All-append K (references (container_value c)) [] (All-container_value K c h) tt in
      elim (Bool-cases (has_custom_task_definitions app)) [
        | inl e ↦
            rw (e, IsLocal-constraints p.ecs, IsLocal-optional (task_role_arn app))
              (All-append K _ [] container tt, tt, tt)
        | inr e ↦
            rw (e, IsLocal-constraints p.ecs, IsLocal-optional (task_role_arn app))
              (All-append K _ [] container tt, tt, tt)
      ]

  pub Safe-put_app_environment :
      Safe K C
        (λ _. has_custom_task_definitions app ≡ true → K app_environment)
        (put_app_environment t app)
  unfolding put_app_environment
  Safe-put_app_environment =
      Safe-if (has_custom_task_definitions app) _ _
        (λ e.
          Safe-weaken _ (Safe-put app_environment _ (λ _. ResourceClosed-environment app.env))
            (λ _ k _. k))
        (λ e. Safe-pure tt (λ d. absurd (true≢false (sym d ∙ e))))

  Safe-put_process_environment :
      (p : Process)
      → Safe K C
          (λ _.
            has_custom_task_definitions app ≡ true
            → K (environment_name (process_resource_name p.process_type)))
          (put_process_environment t app p)
  unfolding put_process_environment
  Safe-put_process_environment p =
      Safe-if (has_custom_task_definitions app) _ _
        (λ e. Safe-weaken _ (Safe-put _ _ (λ _. ResourceClosed-environment p.env)) (λ _ k _. k))
        (λ e. Safe-pure tt (λ d. absurd (true≢false (sym d ∙ e))))

  -- What `add_task_definition` leaves: the name of the task definition is known.
  pub record TaskKnown (p : Process) (task : TaskDefinition) : Type 0 where
    pub named : K task.task_name
    pub closed : ContainerClosed K task.container

  pub Safe-add_task_definition :
      (p : Process)
      → Labelled t app p
      → (has_custom_task_definitions app ≡ true → K app_environment)
      → Safe K C (TaskKnown p) (add_task_definition t app p)
  unfolding add_task_definition
  Safe-add_task_definition p l env =
      Safe-bind _ _ (Safe-put_process_environment p) (λ _. search (grows_rules))
        λ _ own.
          let c = ContainerClosed-process K t app p l (λ e. (env e, own e)) in
          Safe-bind _ _ (Safe-add _ _ (λ _. ResourceClosed-task p _ c)) (λ _. search (grows_rules))
            λ _ named. Safe-pure _ (record { named = named; closed = c })

  pub Safe-change_container :
      (p : Process) (task : TaskDefinition) (c : ContainerProperties)
      → ContainerClosed K c
      → Safe K C (λ _. Unit) (change_container t app p task c)
  unfolding change_container
  Safe-change_container p task c h =
      Safe-weaken _ (Safe-put _ _ (λ _. ResourceClosed-task p c h)) (λ _ _. tt)

pub Grows-put_app_environment :
    (t : EmpireTemplate) (app : Manifest) → Grows (put_app_environment t app)
unfolding put_app_environment
Grows-put_app_environment t app = search (grows_rules)

pub Grows-add_task_definition :
    (t : EmpireTemplate) (app : Manifest) (p : Process) → Grows (add_task_definition t app p)
unfolding add_task_definition put_process_environment
Grows-add_task_definition t app p = search (grows_rules)

pub Grows-change_container :
    (t : EmpireTemplate) (app : Manifest) (p : Process) (task : TaskDefinition)
    (c : ContainerProperties)
    → Grows (change_container t app p task c)
unfolding change_container
Grows-change_container t app p task c = search (grows_rules)
