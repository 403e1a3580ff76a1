-- ===== src/Apps.antt =====
-- Applications and their names (apps.go, users.go). The services on them are in `Services`.
pub mod Names
mod Tests
use empire.Prelude.{
  ℕ, Bool, true, false, ◌&&◌, ◌||◌, Option, none, some, List, [], ◌∷◌, length, leb, ◌==◌,
  if◌then◌else◌, Result, ok, err,
}
use empire.Prelude.Text.{Text, codes, is_empty}
use empire.Prelude.Text.Split.{split}
use empire.Prelude.Dict.{Dict}

abbrev pub expose_private : Text
expose_private = codes "private"

abbrev pub expose_public : Text
expose_public = codes "public"

-- `certs` is none where the Go map is nil. A time is a number.
pub record App : Type 0 where
  pub id : Text
  pub name : Text
  pub repo : Option Text
  pub exposure : Text
  pub certs : Option (Dict Text)
  pub created_at : Option ℕ
  pub deleted_at : Option ℕ
  pub maintenance : Bool

-- `&App{Name: name, Repo: repo}`
abbrev pub new_app : Text → Option Text → App
new_app name repo = record {
  id = [];
  name = name;
  repo = repo;
  exposure = [];
  certs = none;
  created_at = none;
  deleted_at = none;
  maintenance = false;
}

pub record User : Type 0 where
  pub name : Text
  pub github_token : Text

pub data AppError : Type 0 where
  invalid_name : AppError
  user_name_required : AppError

-- `[a-z]` and `[a-z0-9-]`
unfoldable pub is_lower : ℕ → Bool
is_lower c = leb b'a' c && leb c b'z'

unfoldable pub is_name_byte : ℕ → Bool
unfolding is_lower
is_name_byte c = is_lower c || leb b'0' c && leb c b'9' || c == b'-'

unfoldable pub all_name_bytes : Text → Bool
all_name_bytes [] = true
all_name_bytes (c ∷ s) = is_name_byte c && all_name_bytes s

-- `NamePattern`, which is ^[a-z][a-z0-9-]{2,30}$
unfoldable pub matches_name_pattern : Text → Bool
matches_name_pattern [] = false
matches_name_pattern (c ∷ s) =
    is_lower c && (leb 2 (length s) && leb (length s) 30) && all_name_bytes s

-- `App.IsValid`, with `none` for nil
unfoldable pub check_app : App → Option AppError
check_app a = if matches_name_pattern a.name then none else some invalid_name

-- `App.BeforeCreate`, at the time `now`: the hook changes the app, and its error stops the insertion.
unfoldable pub before_create : ℕ → App → Result AppError App
before_create now a =
    let b : App = record a {
      created_at = some now;
      exposure = if is_empty a.exposure then expose_private else a.exposure;
    } in
    elim (check_app b) [ none ↦ ok b | some e ↦ err e ]

-- `User.IsValid`, with `none` for nil
unfoldable pub check_user : User → Option AppError
check_user u = if is_empty u.name then some user_name_required else none

unfoldable pub last_part : Text → List Text → Text
last_part d [] = d
last_part d (p ∷ ps) = last_part p ps

-- `appNameFromRepo`: the part behind the last '/'
unfoldable pub app_name_from_repo : Text → Text
unfolding last_part
app_name_from_repo repo = last_part [] (split repo b'/')
