-- ===== src/Services/Domains.antt =====
-- The service of domains (domains.go).
use empire.Prelude.{none, some, List, [], ◌∷◌, if◌then◌else◌, ok, err}
use empire.Prelude.Text.{Text, text_eq}
use empire.Apps.{expose_public, expose_private}
use empire.Store.{Answer, record_not_found, Domain, any_app, empty_query, domains_scope}
use empire.Services.Exec.{
  store, domain_in_use, domain_already_added, Empire, Exec, ◌>>=◌, ◌>>◌, pure, raise, ask, attempt,
  write, get_log,
}
use empire.Services.Apps.{apps_find, apps_update}

module _ (e : Empire) where
  -- The hook `BeforeCreate` sets the time.
  unfoldable pub insert_domain : Domain → Exec e Domain
  insert_domain d = do
    log ← get_log e
    write (e.gorm.insert_domain (record d { created_at = some (e.world.now log) }))

  unfoldable pub expose_as : Text → Text → Exec e (Unit {0})
  expose_as exposure app_id = do
    a ← apps_find e (record any_app { id = some app_id })
    apps_update e (record a { exposure = exposure })

  -- `makePublic` and `makePrivate`
  abbrev pub make_public : Text → Exec e (Unit {0})
  make_public = expose_as expose_public

  abbrev pub make_private : Text → Exec e (Unit {0})
  make_private = expose_as expose_private

  unfoldable pub domain_taken : Domain → Answer Domain → Exec e Domain
  domain_taken domain (ok d) =
      if text_eq d.app_id domain.app_id then raise domain_already_added else raise domain_in_use
  domain_taken domain (err record_not_found) = do
    made ← insert_domain domain
    make_public domain.app_id
    pure made
  domain_taken domain (err x) = raise (store x)

  -- `DomainsCreate`
  unfoldable pub domains_create : Domain → Exec e Domain
  unfolding domain_taken
  domains_create domain = do
    found ← attempt (
        e.gorm.first_domain
          (domains_scope (record { hostname = some domain.hostname; app = none }) empty_query))
    domain_taken domain found

  unfoldable pub if_no_domain : Domain → List Domain → Exec e (Unit {0})
  if_no_domain domain [] = make_private domain.app_id
  if_no_domain domain (d ∷ ds) = pure tt

  -- `DomainsDestroy`. The domains that are left are looked up by the domain's `App`, which may be nil:
  -- then the query has no condition.
  unfoldable pub domains_destroy : Domain → Exec e (Unit {0})
  unfolding if_no_domain
  domains_destroy domain = do
    write (e.gorm.delete_domain domain)
    left ← ask (
        e.gorm.find_domains
          (domains_scope (record { hostname = none; app = domain.app }) empty_query))
    if_no_domain domain left
