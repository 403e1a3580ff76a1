-- ===== src/Releases/Variables.antt =====
-- The variables of a release's manifest, and when there is a manifest.
use empire.Prelude.{
  ◌≡◌, refl, sym, ap, ◌∙◌, false, Option, none, some, List, [], ◌∷◌, arith, ok, >>=-eq-ok, inl, inr,
  if◌then◌else◌, ◌&&◌, Bool-cases,
}
use empire.Prelude.Text.{Text, codes, text_eq, text_eq_iff}
use empire.Prelude.Dict.{Dict, lookup, insert, Unique, lookup-insert, lookup-Lacks}
use empire.Configs.{Vars}
use empire.Configs.Vars.{AllSet}
use empire.Processes.{Process, Port, Formation}
use empire.Twelvefactor
use empire.Twelvefactor.{Manifest, Exposure}
use empire.Releases.{
  Release, entries, cert_of, version_string, is_submitted, is_standard_web, scheduler_processes,
  new_scheduler_process, new_scheduler_app, process_exposure, environment_into, environment,
  app_env,
}
use empire.Releases.Exposed.{any_encrypted, is_none, exposure_asked, process_exposure_lem}

-- The value of a variable, where it has one.
abbrev pub value_of : Option (Option Text) → Option Text → Option Text
value_of none old = old
value_of (some none) old = old
value_of (some (some v)) old = some v

lookup-environment_into :
    (env : Dict Text) (vars : Vars) (result : Dict Text) (k : Text)
    → Unique vars
    → environment_into env vars ≡ ok result
    → lookup k result ≡ value_of (lookup k vars) (lookup k env)
unfolding environment_into lookup
lookup-environment_into env [] result k u h = ground arith
lookup-environment_into env ((n, none) ∷ vars) result k u h = cc
lookup-environment_into env ((n, some v) ∷ vars) result k (l, u) h = ground (
  arith,
  lookup-environment_into (insert n v env) vars result k u h,
  lookup-insert n k v env,
  text_eq_iff n k,
  lookup-Lacks n vars l,
)

-- The value of a variable in a manifest: the three that Empire sets, and the config's for the rest.
abbrev pub manifest_value : Release → Text → Option Text
manifest_value release k =
    if text_eq (codes "EMPIRE_RELEASE") k
    then some (version_string release.version)
    else if text_eq (codes "EMPIRE_APPNAME") k
    then some release.app.name
    else if text_eq (codes "EMPIRE_APPID") k
    then some release.app.id
    else value_of (lookup k release.config.vars) none

lookup-app_env :
    (release : Release) (env : Dict Text) (k : Text)
    → lookup k env ≡ value_of (lookup k release.config.vars) none
    → lookup k (app_env release env) ≡ manifest_value release k
unfolding app_env
lookup-app_env release env k h = simp (lookup-insert, h)

-- Each variable of a manifest has the value that the config gives it, but for the app's id, its name
-- and the release's version, which no config can change, where the config has no name twice.
pub lookup-new_scheduler_app_env :
    (release : Release) (m : Manifest) (k : Text)
    → Unique release.config.vars
    → new_scheduler_app release ≡ ok m
    → lookup k m.env ≡ manifest_value release k
unfolding new_scheduler_app environment
lookup-new_scheduler_app_env release m k u h =
    let (qs, _, g) = >>=-eq-ok (scheduler_processes release (entries release.formation)) _ h in
    let (env, read, made) = >>=-eq-ok (environment release.config.vars) _ g in
    let e : app_env release env ≡ m.env = ground arith in
    ap (lookup k) (sym e)
    ∙ lookup-app_env release env k
        (lookup-environment_into [] release.config.vars env k u read ∙ unfold lookup in refl)

environment_total :
    (env : Dict Text) (vars : Vars)
    → AllSet vars
    → (result : Dict Text) × (environment_into env vars ≡ ok result)
unfolding environment_into
environment_total env [] h = (env, refl)
environment_total env ((n, none) ∷ vars) (ne, h) = absurd (ne refl)
environment_total env ((n, some v) ∷ vars) (ne, h) = environment_total (insert n v env) vars h

-- No process asks for an encrypted port that the app has no certificate for.
abbrev pub HasCerts : Release → Formation → Type 0
HasCerts release [] = Unit
HasCerts release ((name, p) ∷ f) =
    ((any_encrypted p.ports && is_none (cert_of release.app name)) ≡ false) × HasCerts release f

exposure_asked_total :
    (exposure : Text) (cert : Option Text) (name : Text) (ps : List Port)
    → (any_encrypted ps && is_none cert) ≡ false
    → (e : Option Exposure) × (exposure_asked exposure cert name ps ≡ ok e)
exposure_asked_total exposure cert name [] h = (none, refl)
exposure_asked_total exposure cert name (p ∷ ps) h = rw h (_, refl)

new_scheduler_process_total :
    (release : Release) (name : Text) (p : Process)
    → (any_encrypted p.ports && is_none (cert_of release.app name)) ≡ false
    → (q : Twelvefactor.Process) × (new_scheduler_process release name p ≡ ok q)
unfolding new_scheduler_process
new_scheduler_process_total release name p h =
    let (e, asked) =
      exposure_asked_total release.app.exposure (cert_of release.app name) name p.ports h in
    let exposed : process_exposure release.app name p ≡ ok e =
      process_exposure_lem release.app name p ∙ asked in
    elim (Bool-cases (is_standard_web name p.ports)) [
      | inl web ↦ rw web (_, refl)
      | inr other ↦ rw (other, exposed) (_, refl)
    ]

scheduler_processes_total :
    (release : Release) (f : Formation)
    → HasCerts release f
    → (qs : List Twelvefactor.Process) × (scheduler_processes release f ≡ ok qs)
unfolding scheduler_processes
scheduler_processes_total release [] h = ([], refl)
scheduler_processes_total release ((name, p) ∷ f) (c, h) =
    let (q, made) = new_scheduler_process_total release name p c in
    let (qs, rest) = scheduler_processes_total release f h in
    elim (Bool-cases (is_submitted p)) [
      | inl e ↦ rw (e, made, rest) (_, refl)
      | inr e ↦ rw e (qs, rest)
    ]

-- Every release whose config has no nil variable and whose app has the certificates that the ports ask
-- for has a manifest.
pub new_scheduler_app_total :
    (release : Release)
    → HasCerts release (entries release.formation)
    → AllSet release.config.vars
    → (m : Manifest) × (new_scheduler_app release ≡ ok m)
unfolding new_scheduler_app environment
new_scheduler_app_total release c v =
    let (qs, made) = scheduler_processes_total release (entries release.formation) c in
    let (env, read) = environment_total [] release.config.vars v in rw (made, read) (_, refl)
