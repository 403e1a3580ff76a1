-- ===== src/Apps/Tests.antt =====
-- The names of concrete apps.
use empire.Prelude.{◌≡◌, refl, true, false, none, some, ok}
use empire.Prelude.Text.{codes}
use empire.Apps.{
  App, new_app, expose_private, before_create, matches_name_pattern, app_name_from_repo,
}

too_short : matches_name_pattern (codes "ab") ≡ false
unfolding matches_name_pattern empire.Apps.is_lower
too_short = refl

-- 31 bytes pass, though the error's text speaks of 30 at most.
thirty_one : matches_name_pattern (codes "a123456789b123456789c123456789d") ≡ true
unfolding matches_name_pattern empire.Apps.is_lower empire.Apps.all_name_bytes
    empire.Apps.is_name_byte
thirty_one = refl

abbrev acme : App
acme = new_app (codes "acme-inc") none

abbrev created_acme : App
created_acme = record acme { created_at = some 7; exposure = expose_private }

create_acme : before_create 7 acme ≡ ok created_acme
unfolding before_create empire.Apps.check_app matches_name_pattern empire.Apps.is_lower
    empire.Apps.all_name_bytes empire.Apps.is_name_byte
create_acme = refl
