-- ===== src/CloudFormation/Tests.antt =====
-- Concrete runs of the template builder and of the readers of stacks.
use empire.Prelude.{
  ℕ, zero, suc, ◌+◌, ◌-◌, ◌*◌, ◌/◌, ◌%◌, ◌^◌, ◌≤◌, ◌<◌, String, ◌≡◌, refl, sym, ap, ◌∙◌, ◌≢◌, ◌↔◌,
  ◌⊎◌, inl, inr, Bool, true, false, not, ◌&&◌, ◌||◌, Option, none, some, List, [], ◌∷◌, ◌++◌, map,
  append-nil, append_assoc, arith, ltb, leb, ◌==◌, if◌then◌else◌, ==_iff, Bool-cases, Option-cases,
  if_true, if_false, length, get_elem?, get_or, take, drop, length-append, All, All-append, Result,
  ok, err, ◌>>=◌, Result-cases, >>=-eq-ok,
}
use empire.Prelude.Text.{Text, codes, text_eq}
use empire.Troposphere.{Template}
use empire.Troposphere.Closed.{TemplateClosed, declares, has}
use empire.CloudFormation.Builds.{build}
use empire.CloudFormation.Closed.Whole.{Suitable, build_closed}
use empire.CloudFormation.Distinct.{Distinct, service_names, build-Distinct}
use empire.CloudFormation.Sample.{settings, input, acme, template_of}

build_acme : build settings input ≡ ok (template_of (build settings input))
unfolding empire.Troposphere.ref empire.Troposphere.get_att empire.Troposphere.equals
    empire.Troposphere.join empire.Troposphere.new_template empire.Troposphere.put_resource
    empire.Troposphere.if_absent empire.Troposphere.add_resource empire.Troposphere.Builder.pure
    empire.Troposphere.Builder.fail empire.Troposphere.Builder.required
    empire.Troposphere.Builder.◌>>=◌ empire.Troposphere.Builder.put
    empire.Troposphere.Builder.with_unit empire.Troposphere.Builder.add
    empire.Troposphere.Builder.put_parameter empire.Troposphere.Builder.put_condition
    empire.Troposphere.Builder.put_output empire.CloudFormation.is_none
    empire.CloudFormation.no_items empire.CloudFormation.required empire.CloudFormation.checks
    empire.CloudFormation.validate empire.CloudFormation.load_balancer_type
    empire.CloudFormation.has_custom_task_definitions
    empire.CloudFormation.task_definition_resource_type empire.CloudFormation.task_role_arn
    empire.CloudFormation.is_alphanumeric empire.CloudFormation.process_resource_name
    empire.CloudFormation.scale_parameter empire.CloudFormation.insert_pair
    empire.CloudFormation.sorted_environment empire.CloudFormation.tags_from_labels
    empire.CloudFormation.fix_hosted_zone_id_prefix empire.CloudFormation.expand_arn
    empire.CloudFormation.service_role_arn empire.CloudFormation.schedule_expression
    empire.CloudFormation.run_task_resource empire.CloudFormation.fmt_ports
    empire.CloudFormation.Containers.to_int64 empire.CloudFormation.Containers.ulimits_of
    empire.CloudFormation.Containers.container_definition
    empire.CloudFormation.Containers.labels_to_values empire.CloudFormation.Containers.texts
    empire.CloudFormation.Containers.pair empire.CloudFormation.Containers.pairs
    empire.CloudFormation.Containers.ulimit
    empire.CloudFormation.Containers.cloudformation_container_definition
    empire.CloudFormation.Containers.port_mapping_value
    empire.CloudFormation.Containers.container_value empire.CloudFormation.Containers.optional
    empire.CloudFormation.Containers.placement_constraint
    empire.CloudFormation.Containers.constraints_of
    empire.CloudFormation.Containers.environment_resource
    empire.CloudFormation.Containers.put_app_environment
    empire.CloudFormation.Containers.task_definition
    empire.CloudFormation.Containers.task_definition_name
    empire.CloudFormation.Containers.environment_name
    empire.CloudFormation.Containers.put_process_environment
    empire.CloudFormation.Containers.process_container
    empire.CloudFormation.Containers.add_task_definition
    empire.CloudFormation.Containers.change_container empire.CloudFormation.Balancers.placing
    empire.CloudFormation.Balancers.tag_value empire.CloudFormation.Balancers.tag_values
    empire.CloudFormation.Balancers.is_seen empire.CloudFormation.Balancers.unique_ports
    empire.CloudFormation.Balancers.dynamic_mapping empire.CloudFormation.Balancers.forward
    empire.CloudFormation.Balancers.certificate empire.CloudFormation.Balancers.listener_resource
    empire.CloudFormation.Balancers.listener_name empire.CloudFormation.Balancers.add_listener
    empire.CloudFormation.Balancers.add_listeners empire.CloudFormation.Balancers.too_many_ports
    empire.CloudFormation.Balancers.single_port empire.CloudFormation.Balancers.first_port
    empire.CloudFormation.Balancers.target_group_resource
    empire.CloudFormation.Balancers.application_resource
    empire.CloudFormation.Balancers.add_application_balancer
    empire.CloudFormation.Balancers.port_name empire.CloudFormation.Balancers.instance_port
    empire.CloudFormation.Balancers.instance_port_name
    empire.CloudFormation.Balancers.add_instance_ports
    empire.CloudFormation.Balancers.instance_mapping empire.CloudFormation.Balancers.listener_value
    empire.CloudFormation.Balancers.classic_listener
    empire.CloudFormation.Balancers.classic_listeners
    empire.CloudFormation.Balancers.classic_resource
    empire.CloudFormation.Balancers.add_classic_balancer empire.CloudFormation.Balancers.record_set
    empire.CloudFormation.Balancers.alias_resource empire.CloudFormation.Balancers.cname_resource
    empire.CloudFormation.Balancers.add_records empire.CloudFormation.Balancers.add_balancer
    empire.CloudFormation.Balancers.expose empire.CloudFormation.Balancers.add_exposure
    empire.CloudFormation.Builds.state_of empire.CloudFormation.Builds.trigger_resource
    empire.CloudFormation.Builds.permission_resource empire.CloudFormation.Builds.add_scheduled_task
    empire.CloudFormation.Builds.changed_container empire.CloudFormation.Builds.strategy
    empire.CloudFormation.Builds.strategy_field empire.CloudFormation.Builds.strategies
    empire.CloudFormation.Builds.role empire.CloudFormation.Builds.depends
    empire.CloudFormation.Builds.service_resource empire.CloudFormation.Builds.add_service
    empire.CloudFormation.Builds.scale_type empire.CloudFormation.Builds.add_process
    empire.CloudFormation.Builds.mapped empire.CloudFormation.Builds.add_processes
    empire.CloudFormation.Builds.put_outputs empire.CloudFormation.Builds.service_mapping
    empire.CloudFormation.Builds.deployment_mapping empire.CloudFormation.Builds.put_run_task
    empire.CloudFormation.Builds.dns_parameter empire.CloudFormation.Builds.restart_key
    empire.CloudFormation.Builds.prepare empire.CloudFormation.Builds.finish
    empire.CloudFormation.Builds.build_on empire.CloudFormation.Builds.built
    empire.CloudFormation.Builds.build empire.Arn.split_n empire.Arn.from_parts empire.Arn.parse
    empire.Arn.text empire.Arn.split_resource empire.Arn.resource_id empire.Prelude.Dict.lookup
    empire.Prelude.Dict.insert empire.Prelude.Text.text_eq empire.Twelvefactor.env_of
    empire.Twelvefactor.labels_of empire.Twelvefactor.merge empire.Twelvefactor.copy_into
    empire.Prelude.Text.Split.split_once empire.Prelude.Text.Decimal.format_int
    empire.Prelude.Text.Decimal.format_nat empire.Configs.text_lt empire.Image.encode
    empire.Image.encode_repo
build_acme = refl

abbrev acme_template : Template
acme_template = template_of (build settings input)

acme-Suitable : Suitable settings input
unfolding empire.Twelvefactor.labels_of empire.Twelvefactor.merge empire.Twelvefactor.copy_into
    empire.Prelude.Dict.insert text_eq
acme-Suitable = record {
  labelled = (
    record {
      plain = ((ground arith, tt), (ground arith, tt));
      log = unfold empire.Troposphere.References.references in refl;
    },
    (
      record {
        plain = ((ground arith, tt), (ground arith, tt));
        log = unfold empire.Troposphere.References.references in refl;
      },
      tt,
    ),
  );
  outputs = tt;
}

build_closed_example :
    TemplateClosed
      (λ n. declares acme_template n ≡ true)
      (λ c. has c acme_template.conditions ≡ true)
      acme_template
build_closed_example = build_closed settings input acme-Suitable build_acme

build-Distinct_example : Distinct (service_names acme.processes)
build-Distinct_example = build-Distinct settings input build_acme
