-- ===== src/CloudFormation/Closed/Whole.antt =====
-- Every name that a built template uses is declared in it.
use empire.Prelude.{
  ◌≡◌, refl, ap, ◌∙◌, Bool, true, false, not, ◌||◌, Option, none, some, List, [], ◌∷◌, map, arith,
  All, All-append, Result, ok, err,
}
use empire.Prelude.Text.{Text, codes, text_eq}
use empire.Prelude.Dict.{Dict}
use empire.Twelvefactor.{Manifest, Process}
use empire.Troposphere.{
  Value, Output, Template, BuildError, ref, get_att, join, equals, new_template,
}
use empire.Troposphere.References.{references, intrinsic, target}
use empire.Troposphere.Builder.{pure, bind-eq-ok}
use empire.Troposphere.Closed.{TemplateClosed, declares, has, names_of, Grows}
use empire.Troposphere.Rules.{
  Safe, Gives, grows_rules, Safe-put, Safe-bind, Safe-pure, Safe-if, Safe-weaken,
  Safe-put_parameter, Safe-put_condition, Safe-put_output, Safe-ahead, Gives-put, Gives-bind,
  Grows-bind, Grows-pure,
}
use empire.CloudFormation.{
  EmpireTemplate, Tag, TemplateData, scale_parameter, service_role_arn, run_task_resource,
  has_custom_task_definitions,
}
use empire.CloudFormation.Containers.{app_environment, restart_parameter}
use empire.CloudFormation.Builds.{
  run_task_function, Mappings, add_process, mapped, add_processes, put_outputs, service_mapping,
  deployment_mapping, put_run_task, prepare, finish, build_on, build, built,
}
use empire.CloudFormation.Closed.{All-expand_arn, All-items}
use empire.CloudFormation.Closed.Containers.{Labelled}
use empire.CloudFormation.Closed.Tasks.{Safe-put_app_environment, Grows-put_app_environment}
use empire.CloudFormation.Closed.Builds.{
  Grows-add_process, Grows-add_processes, Grows-put_outputs, Grows-put_run_task, Safe-add_service,
  Safe-add_scheduled_task,
}

is_present : Option Text → Bool
is_present none = false
is_present (some s) = true

or_true : (b : Bool) → (b || true) ≡ true
or_true true = refl
or_true false = refl

any_scheduled : List Process → Bool
unfolding is_present
any_scheduled [] = false
any_scheduled (p ∷ ps) = is_present p.schedule || any_scheduled ps

-- A scheduled process gives no service, and any other does.
is_present-add_process :
    (t : EmpireTemplate) (app : Manifest) (p : Process) (s : Option Text) (tags : List Tag)
    (w u : Template) (service : Option Text)
    → add_process t app p s tags w ≡ ok (service, u)
    → is_present service ≡ not (is_present s)
unfolding add_process is_present pure
is_present-add_process t app p none tags w u service e =
    let (name, next, _, f) = bind-eq-ok _ _ w e in
    let same : some name ≡ service = cc in rw (← same)
is_present-add_process t app p (some cron) tags w u service e =
    let (name, next, _, f) = bind-eq-ok _ _ w e in let same : none ≡ service = cc in rw (← same)

is_scheduled-mapped :
    (kind : Text) (service : Option Text) (m : Mappings)
    → (mapped kind service m).is_scheduled ≡ (not (is_present service) || m.is_scheduled)
unfolding mapped is_present
is_scheduled-mapped kind none m = refl
is_scheduled-mapped kind (some service) m = refl

is_scheduled-add_processes :
    (t : EmpireTemplate) (app : Manifest) (tags : List Tag) (ps : List Process) (w u : Template)
    (m : Mappings)
    → add_processes t app tags ps w ≡ ok (m, u)
    → m.is_scheduled ≡ any_scheduled ps
unfolding add_processes any_scheduled pure
is_scheduled-add_processes t app tags [] w u m e =
    let same : (record { services = []; is_scheduled = false }) ≡ m = cc in rw (← same)
is_scheduled-add_processes t app tags (p ∷ ps) w u m e =
    let (_, a, _, ea) = bind-eq-ok _ _ w e in
    let (service, b, eb, ec) = bind-eq-ok _ _ a ea in
    let (rest, c, ed, ef) = bind-eq-ok _ _ b ec in
    let same : mapped p.process_type service rest ≡ m = cc in
    let here = is_present-add_process t app p p.schedule tags a b service eb in
    let later = is_scheduled-add_processes t app tags ps b c rest ed in
    rw (← same, is_scheduled-mapped p.process_type service rest, here, later)
      (ap (λ x. x || any_scheduled ps) (not_not (is_present p.schedule)))
  where
    not_not : (b : Bool) → not (not b) ≡ b
    not_not true = refl
    not_not false = refl

module _ (K C : Text → Type 0) (account : K (codes "AWS::AccountId")) (t : EmpireTemplate)
    (app : Manifest) (tags : List Tag)
    (env : has_custom_task_definitions app ≡ true → K app_environment)
    (dns : C (codes "DNSCondition")) (restart : K restart_parameter) where
  -- The service that the process may have got is known.
  Named : Option Text → Type 0
  Named none = Unit
  Named (some service) = K service

  Safe-add_process :
      (p : Process) (s : Option Text)
      → Labelled t app p
      → K (scale_parameter p.process_type)
      → (is_present s ≡ true → K run_task_function)
      → Safe K C Named (add_process t app p s tags)
  unfolding add_process is_present Named
  Safe-add_process p none l k r =
      Safe-bind _ _ (Safe-add_service K C account t app p tags l env dns restart k)
        (λ _. search (grows_rules)) λ service n. Safe-pure _ n
  Safe-add_process p (some cron) l k r =
      Safe-bind _ _ (Safe-add_scheduled_task K C account t app p cron l env (r refl) k)
        (λ _. search (grows_rules)) λ _ _. Safe-pure _ tt

  AllNamed : Mappings → Type 0
  AllNamed m = All (λ (e : Text × Text). K e.1) m.services

  AllNamed-mapped :
      (kind : Text) (service : Option Text) (m : Mappings)
      → Named service
      → AllNamed m
      → AllNamed (mapped kind service m)
  unfolding mapped AllNamed Named
  AllNamed-mapped kind none m n h = h
  AllNamed-mapped kind (some service) m n h = (n, h)

  Safe-add_processes :
      (ps : List Process)
      → All (Labelled t app) ps
      → (any_scheduled ps ≡ true → K run_task_function)
      → Safe K C AllNamed (add_processes t app tags ps)
  unfolding add_processes any_scheduled
  Safe-add_processes [] l r = Safe-pure _ (unfold AllNamed in tt)
  Safe-add_processes (p ∷ ps) (l, ls) r =
      Safe-bind _ _ (Safe-put_parameter _ _)
        (λ _.
          Grows-bind _ _ (Grows-add_process t app p p.schedule tags)
            λ _. Grows-bind _ _ (Grows-add_processes t app tags ps) λ _. Grows-pure _)
        λ _ k.
          Safe-bind _ _ (Safe-add_process p p.schedule l k (λ e. r (rw e refl)))
            (λ _. Grows-bind _ _ (Grows-add_processes t app tags ps) λ _. Grows-pure _)
            λ service n.
              Safe-bind _ _
                (Safe-add_processes ps ls (λ e. r (rw e (or_true (is_present p.schedule)))))
                (λ _. Grows-pure _)
                λ m h. Safe-pure _ (AllNamed-mapped p.process_type service m n h)

-- The labels of the processes are no references, and what the settings bring in refers to nothing.
pub record Suitable (t : EmpireTemplate) (input : TemplateData) : Type 0 where
  pub labelled : All (Labelled t input.manifest) input.manifest.processes
  pub outputs : All (λ (e : Text × Output). references e.1.value ≡ []) t.extra_outputs

module _ (K C : Text → Type 0) where
  Safe-put_outputs :
      (outputs : Dict Output)
      → All (λ (e : Text × Output). references e.1.value ≡ []) outputs
      → Safe K C (λ _. Unit) (put_outputs outputs)
  unfolding put_outputs
  Safe-put_outputs [] h = Safe-pure tt tt
  Safe-put_outputs ((k, o) ∷ outputs) (e, h) =
      Safe-bind _ _ (Safe-put_output k o (rw e tt)) (λ _. Grows-put_outputs outputs)
        λ _ _. Safe-put_outputs outputs h

  Safe-put_run_task :
      (t : EmpireTemplate) (b : Bool)
      → K (codes "AWS::AccountId")
      → Safe K C (λ _. Unit) (put_run_task t b)
  unfolding put_run_task
  Safe-put_run_task t b account =
      Safe-if b _ _
        (λ _.
          Safe-weaken _
            (Safe-put _ _ (λ _.
              unfold run_task_resource service_role_arn references intrinsic names_of target
                text_eq in
              (
                All-append K _ [] (All-expand_arn K (codes ":role/") t.service_role account) tt,
                tt,
                tt,
              )))
            (λ _ _. tt))
        (λ _. Safe-pure tt tt)

  All-mappings :
      (f : Text × Text → Value) (m : List (Text × Text))
      → ((e : Text × Text) → K e.1 → All K (references (f e)))
      → All (λ (e : Text × Text). K e.1) m
      → All K (references (join (codes ",") (map f m)))
  unfolding references join intrinsic target text_eq
  All-mappings f m w h = All-append K _ [] (All-append K _ [] (All-items K f m (each m h)) tt) tt
    where
      each :
          (m : List (Text × Text))
          → All (λ (e : Text × Text). K e.1) m
          → All (λ e. All K (references (f e))) m
      each [] h = tt
      each (e ∷ m) (k, h) = (w e k, each m h)

  All-service_mapping : (e : Text × Text) → K e.1 → All K (references (service_mapping e))
  unfolding service_mapping references join ref intrinsic target text_eq
  All-service_mapping (kind, service) k = (k, tt)

  All-deployment_mapping : (e : Text × Text) → K e.1 → All K (references (deployment_mapping e))
  unfolding deployment_mapping references join get_att intrinsic target text_eq
  All-deployment_mapping (kind, service) k = (k, tt)

  -- What the template knows before the processes are added.
  record Prepared (app : Manifest) : Type 0 where
    environment : has_custom_task_definitions app ≡ true → K app_environment
    dns : C (codes "DNSCondition")
    restart : K restart_parameter

  Safe-prepare :
      (t : EmpireTemplate) (app : Manifest)
      → All (λ (e : Text × Output). references e.1.value ≡ []) t.extra_outputs
      → Safe K C (λ _. Prepared app) (prepare t app)
  unfolding prepare
  Safe-prepare t app h =
      Safe-bind _ _ (Safe-put_parameter _ _)
        (λ _. search (grows_rules, Grows-put_outputs, Grows-put_app_environment) depth 12)
        λ _ dns.
          Safe-bind _ _ (Safe-put_parameter _ _)
            (λ _. search (grows_rules, Grows-put_outputs, Grows-put_app_environment) depth 12)
            λ _ restart.
              Safe-bind _ _
                (Safe-put_condition _ _
                  (unfold references equals ref intrinsic target text_eq in (dns, tt)))
                (λ _. search (grows_rules, Grows-put_outputs, Grows-put_app_environment) depth 12)
                λ _ condition.
                  Safe-bind _ _ (Safe-put_outputs t.extra_outputs h)
                    (λ _. search (grows_rules, Grows-put_app_environment))
                    λ _ _.
                      Safe-bind _ _ (Safe-put_output _ _ (unfold references in tt))
                        (λ _. search (grows_rules, Grows-put_app_environment))
                        λ _ _.
                          Safe-weaken _ (Safe-put_app_environment K C t app)
                            λ _ e. record { environment = e; dns = condition; restart = restart }

  Safe-finish :
      (t : EmpireTemplate) (m : Mappings)
      → K (codes "AWS::AccountId")
      → All (λ (e : Text × Text). K e.1) m.services
      → Safe K C (λ _. Unit) (finish t m)
  unfolding finish
  Safe-finish t m account h =
      Safe-bind _ _ (Safe-put_run_task t m.is_scheduled account) (λ _. search (grows_rules))
        λ _ _.
          Safe-bind _ _
            (Safe-put_output _ _ (All-mappings service_mapping m.services All-service_mapping h))
            (λ _. search (grows_rules))
            λ _ _.
              Safe-put_output _ _
                (All-mappings deployment_mapping m.services All-deployment_mapping h)

-- Where a process was scheduled, the function that runs the tasks is there at the end.
Gives-finish :
    (K : Text → Type 0) (t : EmpireTemplate) (m : Mappings)
    → m.is_scheduled ≡ true
    → Gives K (K run_task_function) (finish t m)
unfolding finish put_run_task
Gives-finish K t m e = Gives-bind _ _ (rw e (Gives-put _ _)) (λ _. search (grows_rules))

Gives-scheduled :
    (K : Text → Type 0) (t : EmpireTemplate) (m : Mappings) (any : Bool)
    → m.is_scheduled ≡ any
    → Gives K (any ≡ true → K run_task_function) (finish t m)
Gives-scheduled K t m any e = record {
  gives = λ w u a done kn is. (Gives-finish K t m (e ∙ is)).gives w u a done kn;
}

Grows-finish : (t : EmpireTemplate) (m : Mappings) → Grows (finish t m)
unfolding finish
Grows-finish t m = search (grows_rules, Grows-put_run_task)

Safe-build_on :
    (K C : Text → Type 0) (t : EmpireTemplate) (input : TemplateData)
    → Suitable t input
    → K (codes "AWS::AccountId")
    → Safe K C (λ _. Unit) (build_on t input)
unfolding build_on AllNamed
Safe-build_on K C t input h account =
    let ps = input.manifest.processes in
    Safe-bind _ _ (Safe-prepare K C t input.manifest h.outputs)
      (λ _. search (grows_rules, Grows-add_processes, Grows-finish))
      λ _ known.
        Safe-ahead {P = any_scheduled ps ≡ true → K run_task_function} _ _
          (λ m w u e.
            Gives-scheduled K t m (any_scheduled ps)
              (is_scheduled-add_processes t input.manifest input.stack_tags ps w u m e))
          (λ r.
            Safe-add_processes K C account t input.manifest input.stack_tags known.environment
              known.dns known.restart ps h.labelled r)
          (λ m n. Safe-finish K C t m account n) (λ m. Grows-finish t m)

declares-account : (t : Template) → declares t (codes "AWS::AccountId") ≡ true
unfolding declares text_eq
declares-account t = ground arith

pub built-eq-ok :
    (t : EmpireTemplate) (input : TemplateData) (r : Result {0, 0} BuildError (Unit × Template))
    {tmpl : Template}
    → built r ≡ ok tmpl
    → (a : Unit) × (r ≡ ok (a, tmpl))
unfolding built
built-eq-ok t input (ok (a, u)) e = (a, cc)
built-eq-ok t input (err x) e = cc

-- In a template that `Build` returns, each name that a resource, an output or a condition refers to,
-- by Ref, by Fn::GetAtt or by DependsOn, is a resource or a parameter of the template or
-- AWS::AccountId, and each condition of a resource is declared, if no label of a process is named
-- like an intrinsic function, and the log configuration and the extra outputs refer to nothing.
pub build_closed :
    (t : EmpireTemplate) (input : TemplateData) {tmpl : Template}
    → Suitable t input
    → build t input ≡ ok tmpl
    → TemplateClosed (λ n. declares tmpl n ≡ true) (λ c. has c tmpl.conditions ≡ true) tmpl
unfolding build new_template
build_closed t input {tmpl} h e =
    let (a, done) = built-eq-ok t input (build_on t input new_template) e in
    let account = declares-account tmpl in
    let s =
      Safe-build_on (λ n. declares tmpl n ≡ true) (λ c. has c tmpl.conditions ≡ true) t input h
        account in
    (s.safe new_template tmpl a done (λ n d. d) (λ c d. d) (tt, tt, tt)).0
