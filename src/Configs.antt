-- ===== src/Configs.antt =====
-- Configurations and their variables (configs.go). The service on them is in `Services`.
pub mod Vars
mod Tests
use empire.Prelude.{
  ℕ, Bool, true, false, ◌&&◌, ◌||◌, not, Option, none, some, List, [], ◌∷◌, ◌++◌, length, ltb, ◌==◌,
  if◌then◌else◌,
}
use empire.Prelude.Text.{Text, codes, is_empty}
use empire.Prelude.Text.Split.{join}
use empire.Prelude.Dict.{Dict, insert, erase, keys}
use empire.Apps.{App, User}

-- A variable without a value is the nil pointer, which asks for the variable's removal.
abbrev pub Vars : Type 0
Vars = Dict (Option Text)

pub record Config : Type 0 where
  pub id : Text
  pub vars : Vars
  pub app_id : Text
  pub app : Option App

-- The first loop of `mergeVars`.
copy_vars : Vars → Vars → Vars
copy_vars vars [] = vars
copy_vars vars ((n, v) ∷ old) = copy_vars (insert n v vars) old

-- The second loop: a nil value deletes the variable.
apply_var : Vars → Text → Option Text → Vars
apply_var vars n none = erase n vars
apply_var vars n (some v) = insert n (some v) vars

apply_vars : Vars → Vars → Vars
unfolding apply_var
apply_vars vars [] = vars
apply_vars vars ((n, v) ∷ new) = apply_vars (apply_var vars n v) new

-- `mergeVars(old, new)`
unfoldable pub merge_vars : Vars → Vars → Vars
unfolding copy_vars apply_vars
merge_vars old new = apply_vars (copy_vars [] old) new

-- `newConfig(old, vars)`
unfoldable pub new_config : Config → Vars → Config
new_config old vars = record {
  id = [];
  vars = merge_vars old.vars vars;
  app_id = old.app_id;
  app = none;
}

-- `s < t` on strings, byte by byte
unfoldable pub text_lt : Text → Text → Bool
text_lt s [] = false
text_lt [] (d ∷ t) = true
text_lt (c ∷ s) (d ∷ t) = ltb c d || c == d && text_lt s t

-- `sort.StringSlice.Sort`
unfoldable pub insert_sorted : Text → List Text → List Text
insert_sorted s [] = s ∷ []
insert_sorted s (t ∷ ts) = if text_lt t s then t ∷ insert_sorted s ts else s ∷ t ∷ ts

unfoldable pub sort_texts : List Text → List Text
sort_texts [] = []
sort_texts (s ∷ ss) = insert_sorted s (sort_texts ss)

-- The verb that the loop ends with.
unfoldable pub any_unset : Vars → Bool
any_unset [] = false
any_unset ((k, none) ∷ vars) = true
any_unset ((k, some v) ∷ vars) = any_unset vars

-- `appendMessageToDescription` of releases.go
unfoldable pub append_message_to_description : Text → User → Text → Text
append_message_to_description main user message =
    let formatted : Text = if is_empty message then [] else codes ": '" ++ (message ++ codes "'") in
    main ++ (codes " (" ++ (user.name ++ (formatted ++ codes ")")))

-- `configsApplyReleaseDesc`, on the parts of `SetOpts` that it reads
unfoldable pub configs_apply_release_desc : Vars → User → Text → Text
configs_apply_release_desc vars user message =
    let verb : Text = if any_unset vars then codes "Unset" else codes "Set" in
    let plural : Text = if ltb 1 (length vars) then codes "s" else [] in
    append_message_to_description
      (verb
        ++ (codes " "
            ++ (join (sort_texts (keys vars)) (codes ", ") ++ (codes " config var" ++ plural))))
      user message
