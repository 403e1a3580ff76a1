-- ===== src/Configs/Tests.antt =====
-- Changes of variables, and the theorems at concrete ones.
use empire.Prelude.{◌≡◌, refl, none, some, [], ◌∷◌, arith}
use empire.Prelude.Text.{codes}
use empire.Prelude.Dict.{lookup}
use empire.Configs.{Vars, merge_vars, configs_apply_release_desc}
use empire.Configs.Vars.{updated, lookup-merge_vars}

abbrev current : Vars
current = (codes "PORT", some (codes "80")) ∷ (codes "ENV", some (codes "dev")) ∷ []

abbrev change : Vars
change = (codes "PORT", none) ∷ (codes "DB", some (codes "x")) ∷ []

description :
    configs_apply_release_desc change
      (record { name = codes "fake"; github_token = [] })
      (codes "why")
    ≡ codes "Unset DB, PORT config vars (fake: 'why')"
unfolding configs_apply_release_desc empire.Configs.append_message_to_description
    empire.Configs.any_unset empire.Prelude.Text.Split.join empire.Configs.sort_texts
    empire.Configs.insert_sorted empire.Configs.text_lt
description = refl

lookup-merge_vars_example :
    lookup (codes "PORT") (merge_vars current change)
    ≡ updated (lookup (codes "PORT") change) (lookup (codes "PORT") current)
lookup-merge_vars_example =
    lookup-merge_vars current change (codes "PORT") ((cc, tt), (tt, tt)) ((cc, tt), (tt, tt))
