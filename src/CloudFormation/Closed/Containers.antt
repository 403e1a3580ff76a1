-- ===== src/CloudFormation/Closed/Containers.antt =====
-- What container definitions and task definitions refer to.
use empire.Prelude.{
  ℕ, zero, suc, ◌≡◌, refl, inl, inr, true, Option, none, some, List, [], ◌∷◌, map, append-nil,
  Bool-cases, All, All-append,
}
use empire.Prelude.Text.{Text, codes, text_eq}
use empire.Prelude.Dict.{Dict, Lacks}
use empire.Procfile.{Placement, Ecs}
use empire.Twelvefactor.{Manifest, Process, env_of, labels_of}
use empire.Troposphere.{str, list_of, map_of, fields, ref}
use empire.Troposphere.References.{references, field_references, intrinsic, target}
use empire.CloudFormation.{
  EmpireTemplate, process_resource_name, sorted_environment, has_custom_task_definitions,
}
use empire.CloudFormation.Containers.{
  texts, pairs, optional, container_value, process_container, ContainerProperties, PortMapping,
  environment_name, app_environment, labels_to_values, cloudformation_container_definition,
  container_definition, port_mapping_value, pair, ulimit, placement_constraint, constraints_of,
  ulimits_of,
}
use empire.CloudFormation.Closed.{IsLocal, IsPlain, All-local, All-items, IsLocal-items, All-map}

pub IsLocal-texts : (ss : List Text) → IsLocal (texts ss)
unfolding texts references
IsLocal-texts ss = IsLocal-items str ss (λ s. refl)

pub IsLocal-pairs : (env : List (Text × Text)) → IsLocal (pairs env)
unfolding pairs references pair intrinsic
IsLocal-pairs env = IsLocal-items pair env (λ s. refl)

pub IsLocal-optional : (o : Option Text) → IsLocal (optional o)
unfolding optional references
IsLocal-optional none = refl
IsLocal-optional (some s) = refl

IsLocal-placement : (c : Placement) → IsLocal (placement_constraint c)
unfolding placement_constraint references intrinsic
IsLocal-placement c = rw (IsLocal-optional c.kind, IsLocal-optional c.argument)

pub IsLocal-constraints : (e : Option Ecs) → IsLocal (list_of (constraints_of e))
unfolding constraints_of references
IsLocal-constraints none = refl
IsLocal-constraints (some e) =
    IsLocal-items placement_constraint e.placement_constraints IsLocal-placement

IsLocal-ulimits : (n : ℕ) → IsLocal (list_of (map ulimit (ulimits_of n)))
unfolding references ulimits_of ulimit intrinsic
IsLocal-ulimits zero = refl
IsLocal-ulimits (suc n) = refl

-- What the template may know of a container: its parts refer to known names, and its labels are no
-- reference.
pub record ContainerClosed (K : Text → Type 0) (c : ContainerProperties) : Type 0 where
  pub command : IsLocal c.command
  pub cpu : IsLocal c.cpu
  pub labels : IsPlain c.docker_labels
  pub label_values : All K (field_references (fields c.docker_labels))
  pub environment : All K (references c.environment)
  pub essential : IsLocal c.essential
  pub image : IsLocal c.image
  pub memory : IsLocal c.memory
  pub name : IsLocal c.name
  pub ports :
      All
        (λ (m : PortMapping). IsLocal m.container_port × All K (references m.host_port))
        c.port_mappings
  pub ulimits : IsLocal c.ulimits
  pub log : IsLocal c.log_configuration

module _ (K : Text → Type 0) where
  All-port_mapping :
      (m : PortMapping)
      → IsLocal m.container_port
      → All K (references m.host_port)
      → All K (references (port_mapping_value m))
  unfolding port_mapping_value references intrinsic
  All-port_mapping m l h = rw (l, append-nil (references m.host_port)) h

  All-port_mappings :
      (ms : List PortMapping)
      → All (λ (m : PortMapping). IsLocal m.container_port × All K (references m.host_port)) ms
      → All (λ m. All K (references (port_mapping_value m))) ms
  All-port_mappings [] h = tt
  All-port_mappings (m ∷ ms) ((l, p), h) = (All-port_mapping m l p, All-port_mappings ms h)

  pub All-container_value :
      (c : ContainerProperties) → ContainerClosed K c → All K (references (container_value c))
  unfolding container_value references intrinsic
  All-container_value c h =
      let ports =
        All-items K port_mapping_value c.port_mappings
          (All-port_mappings c.port_mappings h.ports) in
      rw (h.command, h.cpu, h.essential, h.image, h.memory, h.name, h.ulimits, h.log)
        (All-append K (references (map_of c.docker_labels)) _ (All-map K _ h.labels h.label_values)
          (All-append K (references c.environment) _ h.environment (All-append K _ [] ports tt)))

-- The labels of a process as values: none is a reference, and no key is.
module _ (K : Text → Type 0) where
  All-labels : (m : Dict Text) → All K (field_references (fields (labels_to_values m)))
  unfolding labels_to_values references
  All-labels [] = tt
  All-labels ((k, v) ∷ m) = All-labels m

Lacks-labels : (k : Text) (m : Dict Text) → Lacks k m → Lacks k (labels_to_values m)
unfolding labels_to_values
Lacks-labels k [] h = tt
Lacks-labels k ((j, v) ∷ m) (n, h) = (n, Lacks-labels k m h)

-- The process's labels are no reference, and the log configuration refers to nothing.
pub record Labelled (t : EmpireTemplate) (app : Manifest) (p : Process) : Type 0 where
  pub plain : IsPlain (labels_of app p)
  pub log : IsLocal t.log_configuration

module _ (K : Text → Type 0) (t : EmpireTemplate) (app : Manifest) (p : Process) where
  pub ContainerClosed-process :
      Labelled t app p
      → (has_custom_task_definitions app ≡ true
          → K app_environment × K (environment_name (process_resource_name p.process_type)))
      → ContainerClosed K (process_container t app p)
  unfolding process_container cloudformation_container_definition container_definition
  ContainerClosed-process l k =
      let (r, g) = l.plain in
      let plain : IsPlain (labels_to_values (labels_of app p)) =
        (Lacks-labels (codes "Ref") _ r, Lacks-labels (codes "Fn::GetAtt") _ g) in
      record {
        command = IsLocal-texts p.command;
        cpu = unfold references in refl;
        labels = plain;
        label_values = All-labels K (labels_of app p);
        environment = closed_environment;
        essential = unfold references in refl;
        image = unfold references in refl;
        memory = unfold references in refl;
        name = unfold references in refl;
        ports = tt;
        ulimits = IsLocal-ulimits p.nproc;
        log = l.log;
      }
    where
      closed_environment : All K (references (process_container t app p).environment)
      closed_environment = elim (Bool-cases (has_custom_task_definitions app)) [
        | inl e ↦
            let (a, b) = k e in
            rw e (unfold references ref intrinsic target text_eq in (a, (b, tt)))
        | inr e ↦ rw e (All-local K _ (IsLocal-pairs (sorted_environment (env_of app p))))
      ]
