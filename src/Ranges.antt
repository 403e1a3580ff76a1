-- ===== src/Ranges.antt =====
-- The header Range (pkg/headerutil/headerutil.go): `ParseRange`, of a header of ASCII bytes
mod Printed
mod Tests
use empire.Prelude.{
  ℕ, ◌-◌, Bool, true, false, not, ◌&&◌, ◌||◌, Option, none, some, List, [], ◌∷◌, ◌++◌, ltb, leb,
  ◌==◌, if◌then◌else◌, Result, ok, err, ◌>>=◌,
}
use empire.Prelude.Int.{ℤ}
use empire.Prelude.Text.{Text, codes, text_eq, is_empty}
use empire.Prelude.Text.Decimal.{atoi}
use empire.Prelude.Text.Split.{split}

-- `Range`, as the parser returns it: the limit is any `int`
pub record HeaderRange : Type 0 where
  pub sort : Option Text
  pub max : Option ℤ
  pub order : Option Text

-- The error of `strconv.Atoi`
pub data RangeError : Type 0 where
  bad_max : RangeError

-- A space of `strings.TrimSpace`
unfoldable pub is_space : ℕ → Bool
is_space c = c == b' ' || leb 9 c && leb c 13

-- The cutset `" .."`
unfoldable pub in_cutset : ℕ → Bool
in_cutset c = c == b' ' || c == b'.'

-- `strings.TrimLeftFunc(s, p)`
unfoldable trim_left : (ℕ → Bool) → Text → Text
trim_left p [] = []
trim_left p (c ∷ s) = let rest = trim_left p s in if p c then rest else c ∷ s

-- `strings.TrimRightFunc(s, p)`
unfoldable trim_right : (ℕ → Bool) → Text → Text
trim_right p [] = []
trim_right p (c ∷ s) = let rest = trim_right p s in if is_empty rest && p c then [] else c ∷ rest

-- `strings.TrimSpace(s)`
unfoldable trim_space : Text → Text
unfolding trim_left trim_right is_space
trim_space s = trim_right is_space (trim_left is_space s)

-- The first part without a value, if it is not blank, is the field to sort by.
unfoldable sorted_by : HeaderRange → Text → HeaderRange
unfolding trim_right trim_space in_cutset
sorted_by r part = elim r.sort [
  | some s ↦ r
  | none ↦
      if is_empty part || text_eq part (codes " ")
      then r
      else record r { sort = some (trim_space (trim_right in_cutset part)) }
]

limited_by : HeaderRange → Option ℤ → Result RangeError HeaderRange
limited_by r none = err bad_max
limited_by r (some n) = ok (record r { max = some n })

-- What a part says, split at its equals signs.
unfoldable add_part : HeaderRange → List Text → Result RangeError HeaderRange
unfolding sorted_by limited_by trim_space
add_part r [] = ok r
add_part r (part ∷ []) = ok (sorted_by r part)
add_part r (name ∷ value ∷ rest) =
    if text_eq (trim_space name) (codes "max")
    then limited_by r (atoi (trim_space value))
    else ok (record r { order = some (trim_space value) })

unfoldable add_parts : HeaderRange → List Text → Result RangeError HeaderRange
unfolding add_part
add_parts r [] = ok r
add_parts r (j ∷ js) = add_part r (split j b'=') >>= λ r. add_parts r js

unfoldable add_groups : HeaderRange → List Text → Result RangeError HeaderRange
unfolding add_parts
add_groups r [] = ok r
add_groups r (i ∷ is) = add_parts r (split i b';') >>= λ r. add_groups r is

-- `ParseRange(header)`
unfoldable pub parse_range : Text → Result RangeError HeaderRange
unfolding add_groups
parse_range header =
    add_groups (record { sort = none; max = none; order = none }) (split header b',')
