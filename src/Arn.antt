-- ===== src/Arn.antt =====
-- Amazon Resource Names (pkg/arn/arn.go).
pub mod RoundTrip
use empire.Prelude.{
  ℕ, suc, zero, Option, none, some, List, [], ◌∷◌, not, ◌||◌, Result, ok, err, if◌then◌else◌, ◌>>=◌,
}
use empire.Prelude.Text.{Text, codes, text_eq}
use empire.Prelude.Text.Split.{split_once, join}

pub data ArnError : Type 0 where
  invalid_arn : ArnError
  invalid_arn_resource : ArnError

-- The field `ARN` is `prefix`.
pub record Arn : Type 0 where
  pub prefix : Text
  pub aws : Text
  pub service : Text
  pub region : Text
  pub account : Text
  pub resource : Text

-- `strings.SplitN(s, sep, n)`
unfoldable pub split_n : ℕ → Text → ℕ → List Text
split_n zero s sep = []
split_n (suc zero) s sep = s ∷ []
split_n (suc (suc n)) s sep =
    let (before, rest) = split_once s sep in
    elim rest [ none ↦ before ∷ [] | some after ↦ before ∷ split_n (suc n) after sep ]

-- The parts, six of them or fewer, as an ARN.
unfoldable pub from_parts : List Text → Result ArnError Arn
from_parts (p ∷ a ∷ s ∷ r ∷ c ∷ e ∷ []) =
    if not (text_eq p (codes "arn")) || not (text_eq a (codes "aws"))
    then err invalid_arn
    else ok (record { prefix = p; aws = a; service = s; region = r; account = c; resource = e })
from_parts _ = err invalid_arn

-- `Parse(arn)`
unfoldable pub parse : Text → Result ArnError Arn
parse arn = from_parts (split_n 6 arn b':')

-- `String()`
unfoldable pub text : Arn → Text
text a = join (a.prefix ∷ a.aws ∷ a.service ∷ a.region ∷ a.account ∷ a.resource ∷ []) (codes ":")

two_parts : List Text → Result ArnError (Text × Text)
two_parts (name ∷ id ∷ []) = ok (name, id)
two_parts _ = err invalid_arn_resource

-- `SplitResource(r)`
unfoldable pub split_resource : Text → Result ArnError (Text × Text)
unfolding two_parts
split_resource r = two_parts (split_n 2 r b'/')

resource_part : Text × Text → Result ArnError Text
resource_part (name, id) = ok id

-- `ResourceID(arn)`
unfoldable pub resource_id : Text → Result ArnError Text
unfolding resource_part
resource_id arn = parse arn >>= λ a. split_resource a.resource >>= resource_part
