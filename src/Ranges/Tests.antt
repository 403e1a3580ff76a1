-- ===== src/Ranges/Tests.antt =====
-- Concrete headers.
use empire.Prelude.{none, some, ◌≡◌, refl, Result, ok, err}
use empire.Prelude.Int.{pos}
use empire.Prelude.Text.{Text, codes}
use empire.Prelude.Text.Decimal.{atoi}
use empire.Ranges.{HeaderRange, RangeError, bad_max, is_space, in_cutset, parse_range}
use empire.Ranges.Printed.{IsWord, is_plain, print_range, parse_range-printed}

read_test :
    parse_range (codes " , , order=desc, version ..; max=20")
    ≡ ok
        (record { sort = some (codes "version"); max = some (pos 20); order = some (codes "desc") })
unfolding parse_range empire.Prelude.Text.Split.split empire.Prelude.Text.text_eq
    empire.Prelude.Text.Decimal.atoi
read_test = refl

abbrev version : Text
version = codes "version"

abbrev desc : Text
desc = codes "desc"

version-IsWord : IsWord version
unfolding is_plain is_space in_cutset
version-IsWord = (λ e. cc, (refl, (refl, (refl, (refl, (refl, (refl, (refl, tt))))))))

twenty-IsWord : IsWord (codes "20")
unfolding is_plain is_space in_cutset
twenty-IsWord = (λ e. cc, (refl, (refl, tt)))

desc-IsWord : IsWord desc
unfolding is_plain is_space in_cutset
desc-IsWord = (λ e. cc, (refl, (refl, (refl, (refl, tt)))))

parse_range-printed_example :
    parse_range (print_range version (codes "20") desc)
    ≡ elim (atoi (codes "20")) as (λ x. Result RangeError HeaderRange) [
      | none ↦ err bad_max
      | some n ↦ ok (record { sort = some version; max = some n; order = some desc })
    ]
parse_range-printed_example =
    parse_range-printed version (codes "20") desc version-IsWord twenty-IsWord desc-IsWord
