-- ===== src/CloudFormation/Distinct.antt =====
-- The names of the services in a built template.
use empire.Prelude.{
  ◌≡◌, sym, ◌∙◌, ◌≢◌, inl, inr, true, false, Option, none, some, List, [], ◌∷◌, ◌++◌, Bool-cases,
  All, ok,
}
use empire.Prelude.Text.{Text, codes}
use mathlib.Core.Bool.{true≢false}
use empire.Twelvefactor.{Manifest, Process}
use empire.Troposphere.{Template, new_template}
use empire.Troposphere.Builder.{pure, bind-eq-ok}
use empire.Troposphere.Closed.{has, Extends, Extends-trans}
use empire.Troposphere.Rules.{add-fresh, Grows-put_parameter}
use empire.CloudFormation.{EmpireTemplate, Tag, TemplateData, process_resource_name}
use empire.CloudFormation.Builds.{
  add_service, add_process, add_processes, Mappings, build, build_on,
}
use empire.CloudFormation.Closed.Tasks.{Grows-add_task_definition, Grows-change_container}
use empire.CloudFormation.Closed.Balancers.{Grows-add_exposure}
use empire.CloudFormation.Closed.Builds.{Grows-add_process}
use empire.CloudFormation.Closed.Whole.{built-eq-ok}

abbrev service_name : Process → Text
service_name p = process_resource_name p.process_type ++ codes "Service"

-- The names of the services that are added.
with_service : Option Text → Process → List Text → List Text
with_service none p names = service_name p ∷ names
with_service (some cron) p names = names

unfoldable pub service_names : List Process → List Text
unfolding with_service
service_names [] = []
service_names (p ∷ ps) = with_service p.schedule p (service_names ps)

abbrev pub Distinct : List Text → Type 0
Distinct [] = Unit
Distinct (n ∷ ns) = All (λ m. m ≢ n) ns × Distinct ns

Extends-absent :
    (w u : Template)
    → Extends w u
    → (n : Text) → has n u.resources ≡ false
    → has n w.resources ≡ false
Extends-absent w u x n e = elim (Bool-cases (has n w.resources)) [
  | inl there ↦ absurd (true≢false (sym (x.kept n there) ∙ e))
  | inr absent ↦ absent
]

All-absent :
    (w u : Template)
    → Extends w u
    → (ns : List Text) → All (λ n. has n u.resources ≡ false) ns
    → All (λ n. has n w.resources ≡ false) ns
All-absent w u x [] h = tt
All-absent w u x (n ∷ ns) (e, h) = (Extends-absent w u x n e, All-absent w u x ns h)

-- A name that is there differs from all that are not.
All-differ :
    (w : Template) (m : Text)
    → has m w.resources ≡ true
    → (ns : List Text) → All (λ n. has n w.resources ≡ false) ns
    → All (λ n. n ≢ m) ns
All-differ w m there [] h = tt
All-differ w m there (n ∷ ns) (e, h) =
    (λ same. true≢false (sym there ∙ rw same at e), All-differ w m there ns h)

add_service-fresh :
    (t : EmpireTemplate) (app : Manifest) (p : Process) (tags : List Tag) (w u : Template)
    (n : Text)
    → add_service t app p tags w ≡ ok (n, u)
    → (has (service_name p) w.resources ≡ false) × (has (service_name p) u.resources ≡ true)
unfolding add_service pure
add_service-fresh t app p tags w u n e =
    let (b, w1, e1, f1) = bind-eq-ok _ _ w e in
    let (task, w2, e2, f2) = bind-eq-ok _ _ w1 f1 in
    let (_, w3, e3, f3) = bind-eq-ok _ _ w2 f2 in
    let (a, w4, e4, f4) = bind-eq-ok _ _ w3 f3 in
    let same : w4 ≡ u = cc in
    let (absent, there) = add-fresh _ _ w3 w4 a e4 in
    let x =
      Extends-trans w w2 w3
        (Extends-trans w w1 w2 ((Grows-add_exposure t app p p.exposure tags).grown w w1 b e1)
          ((Grows-add_task_definition t app p).grown w1 w2 task e2))
        ((Grows-change_container t app p task _).grown w2 w3 _ e3) in
    (Extends-absent w w3 x (service_name p) absent, rw (← same) there)

abbrev Fresh : Template → List Text → Type 0
Fresh w ns = All (λ n. has n w.resources ≡ false) ns × Distinct ns

-- One process, before others whose names are new after it.
add_process-Fresh :
    (t : EmpireTemplate) (app : Manifest) (p : Process) (s : Option Text) (tags : List Tag)
    (ns : List Text) (w u : Template) (service : Option Text)
    → add_process t app p s tags w ≡ ok (service, u)
    → Fresh u ns
    → Fresh w (with_service s p ns)
unfolding add_process with_service
add_process-Fresh t app p none tags ns w u service e (h, d) =
    let (name, v, ev, fv) = bind-eq-ok _ _ w e in
    let same : v ≡ u = unfold pure in cc in
    let (absent, there) = add_service-fresh t app p tags w v name ev in
    let x = (Grows-add_process t app p none tags).grown w u service (unfold add_process in e) in
    ((absent, All-absent w u x ns h), (All-differ u (service_name p) (rw (← same) there) ns h, d))
add_process-Fresh t app p (some cron) tags ns w u service e (h, d) =
    let x =
      (Grows-add_process t app p (some cron) tags).grown w u service (unfold add_process in e) in
    (All-absent w u x ns h, d)

add_processes-Fresh :
    (t : EmpireTemplate) (app : Manifest) (tags : List Tag) (ps : List Process) (w u : Template)
    {m : Mappings}
    → add_processes t app tags ps w ≡ ok (m, u)
    → Fresh w (service_names ps)
unfolding add_processes service_names
add_processes-Fresh t app tags [] w u e = (tt, tt)
add_processes-Fresh t app tags (p ∷ ps) w u e =
    let (a, w1, e1, f1) = bind-eq-ok _ _ w e in
    let (service, w2, e2, f2) = bind-eq-ok _ _ w1 f1 in
    let (_, w3, e3, f3) = bind-eq-ok _ _ w2 f2 in
    let later = add_processes-Fresh t app tags ps w2 w3 e3 in
    let (h, d) =
      add_process-Fresh t app p p.schedule tags (service_names ps) w1 w2 service e2 later in
    let x = (Grows-put_parameter _ _).grown w w1 a e1 in (All-absent w w1 x _ h, d)

-- The processes that are not scheduled differ in the letters and digits of their types, if `Build`
-- returns a template.
pub build-Distinct :
    (t : EmpireTemplate) (input : TemplateData) {tmpl : Template}
    → build t input ≡ ok tmpl
    → Distinct (service_names input.manifest.processes)
unfolding build build_on
build-Distinct t input e =
    let (_, done) = built-eq-ok t input _ e in
    let (_, w, _, f) = bind-eq-ok _ _ new_template done in
    let (_, u, ep, _) = bind-eq-ok _ _ w f in
    (add_processes-Fresh t input.manifest input.stack_tags input.manifest.processes w u ep).1
