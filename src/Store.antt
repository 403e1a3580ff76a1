-- ===== src/Store.antt =====
-- The datastore as the services see it: the scopes of db.go, apps.go, configs.go, domains.go and
-- releases.go as queries, pkg/headerutil's ranges, and the interface of the database (gorm over
-- Postgres), which is no code of the program and therefore a parameter.
pub mod Laws
pub mod Memory
use empire.Prelude.{
  ℕ, Bool, true, false, Option, none, some, List, [], ◌∷◌, ◌++◌, Result, ok, err, map,
}
use empire.Prelude.Text.{Text, codes}
use empire.Apps.{App}
use empire.Configs.{Config}
use empire.Slugs.{Slug}
use empire.Releases.{Release}

-- The table domains (domains.go).
pub record Domain : Type 0 where
  pub id : Text
  pub hostname : Text
  pub created_at : Option ℕ
  pub app_id : Text
  pub app : Option App

pub data Value : Type 0 where
  text : Text → Value
  number : ℕ → Value

pub data Condition : Type 0 where
  equals : Text → Value → Condition
  is_null : Text → Condition

-- What the builder `*gorm.DB` has been told, in the order of the calls.
pub record Query : Type 0 where
  pub wheres : List Condition
  pub orders : List Text
  pub limits : List ℕ
  pub preloads : List Text

abbrev pub empty_query : Query
empty_query = record { wheres = []; orders = []; limits = []; preloads = [] }

abbrev pub Scope : Type 0
Scope = Query → Query

-- `composedScope`
unfoldable pub composed_scope : List Scope → Scope
composed_scope [] q = q
composed_scope (s ∷ ss) q = composed_scope ss (s q)

unfoldable pub field_equals : Text → Value → Scope
field_equals field v q = record q { wheres = q.wheres ++ equals field v ∷ [] }

unfoldable pub field_null : Text → Scope
field_null field q = record q { wheres = q.wheres ++ is_null field ∷ [] }

unfoldable pub id_equals : Text → Scope
unfolding field_equals
id_equals id = field_equals (codes "id") (text id)

unfoldable pub for_app : App → Scope
unfolding field_equals
for_app app = field_equals (codes "app_id") (text app.id)

unfoldable pub order_by : Text → Scope
order_by o q = record q { orders = q.orders ++ o ∷ [] }

unfoldable pub limit_to : ℕ → Scope
limit_to n q = record q { limits = q.limits ++ n ∷ [] }

preload_one : Text → Scope
preload_one a q = record q { preloads = q.preloads ++ a ∷ [] }

unfoldable pub preload : List Text → Scope
unfolding preload_one composed_scope
preload associations = composed_scope (map preload_one associations)

-- `headerutil.Range`. A limit is a number here.
pub record Range : Type 0 where
  pub sort : Option Text
  pub max : Option ℕ
  pub order : Option Text

abbrev first_of_two {ℓ} : {A : Type ℓ} → Option A → Option A → Option A
first_of_two none d = d
first_of_two (some a) d = some a

-- `Range.WithDefaults`
unfoldable pub with_defaults : Range → Range → Range
with_defaults r d = record {
  sort = first_of_two r.sort d.sort;
  max = first_of_two r.max d.max;
  order = first_of_two r.order d.order;
}

range_limit : Option ℕ → List Scope
range_limit none = []
range_limit (some n) = limit_to n ∷ []

range_order : Option Text → Option Text → List Scope
range_order (some s) (some o) = order_by (s ++ (codes " " ++ o)) ∷ []
range_order _ _ = []

-- `inRange`
unfoldable pub in_range : Range → Scope
unfolding range_limit range_order composed_scope limit_to order_by
in_range r = composed_scope (range_limit r.max ++ range_order r.sort r.order)

abbrev given {ℓ} : {A : Type ℓ} → Option A → (A → Scope) → List Scope
given none f = []
given (some a) f = f a ∷ []

pub record AppsQuery : Type 0 where
  pub id : Option Text
  pub name : Option Text
  pub repo : Option Text

abbrev pub any_app : AppsQuery
any_app = record { id = none; name = none; repo = none }

unfoldable pub apps_scope : AppsQuery → Scope
unfolding composed_scope field_null id_equals field_equals
apps_scope q = composed_scope (
    field_null (codes "deleted_at")
    ∷ (given q.id id_equals
        ++ (given q.name (λ n. field_equals (codes "name") (text n))
            ++ given q.repo (λ r. field_equals (codes "repo") (text r)))))

pub record ReleasesQuery : Type 0 where
  pub app : Option App
  pub version : Option ℕ
  pub range : Range

abbrev no_range : Range
no_range = record { sort = none; max = none; order = none }

-- `ReleasesQuery{App: app}` and `ReleasesQuery{App: app, Version: &version}`
abbrev pub of_app : App → ReleasesQuery
of_app app = record { app = some app; version = none; range = no_range }

abbrev pub at_version : App → ℕ → ReleasesQuery
at_version app v = record { app = some app; version = some v; range = no_range }

abbrev default_range : Range
default_range = record { sort = some (codes "version"); max = none; order = some (codes "desc") }

unfoldable pub releases_scope : ReleasesQuery → Scope
unfolding composed_scope field_equals in_range with_defaults
releases_scope q = composed_scope (
    given q.app (λ app. field_equals (codes "app_id") (text app.id))
    ++ (given q.version (λ v. field_equals (codes "version") (number v))
        ++ in_range (with_defaults q.range default_range) ∷ []))

pub record ConfigsQuery : Type 0 where
  pub id : Option Text
  pub app : Option App

unfoldable pub configs_scope : ConfigsQuery → Scope
unfolding composed_scope id_equals for_app
configs_scope q = composed_scope (given q.id id_equals ++ given q.app for_app)

pub record DomainsQuery : Type 0 where
  pub hostname : Option Text
  pub app : Option App

unfoldable pub domains_scope : DomainsQuery → Scope
unfolding composed_scope field_equals for_app
domains_scope q =
    composed_scope
      (given q.hostname (λ h. field_equals (codes "hostname") (text h)) ++ given q.app for_app)

-- `gorm.RecordNotFound`, and any other error by its text.
pub data StoreError : Type 0 where
  record_not_found : StoreError
  failed : Text → StoreError

abbrev pub Answer : Type 0 → Type 0
Answer A = Result StoreError A

-- The rows of a query for versions, or an iteration over them that fails before the first row.
pub data VersionRows : Type 0 where
  delivered : List ℕ → VersionRows
  broken : VersionRows

-- A session of the database. `Db` is what one connection sees: the data, and how the server will
-- answer. A write returns what it made of the row, which has its id and its times then.
pub record Gorm : Type 1 where
  pub Db : Type 0
  pub begin : Db → Db
  -- from the state before the transaction and the state in it
  pub commit : Db → Db → Answer (Unit {0}) × Db
  pub rollback : Db → Db → Db
  pub first_app : Query → Db → Answer App
  pub find_apps : Query → Db → Answer (List App)
  pub first_config : Query → Db → Answer Config
  pub first_release : Query → Db → Answer Release
  pub find_releases : Query → Db → Answer (List Release)
  pub first_domain : Query → Db → Answer Domain
  pub find_domains : Query → Db → Answer (List Domain)
  -- `select version from releases where app_id = ? order by version desc`
  pub select_versions : Text → Db → Answer VersionRows
  -- `select 1 from releases where app_id = ? for update`
  pub lock_releases : Text → Db → Answer (Unit {0}) × Db
  pub insert_app : App → Db → Answer App × Db
  pub save_app : App → Db → Answer (Unit {0}) × Db
  pub insert_config : Config → Db → Answer Config × Db
  pub insert_slug : Slug → Db → Answer Slug × Db
  pub insert_release : Release → Db → Answer Release × Db
  pub save_release : Release → Db → Answer (Unit {0}) × Db
  pub insert_domain : Domain → Db → Answer Domain × Db
  pub delete_domain : Domain → Db → Answer (Unit {0}) × Db
