-- ===== src/Twelvefactor/Merge.antt =====
-- `Env` (twelvefactor/twelvefactor.go): the variables of a process and those of its app.
use empire.Prelude.{◌≡◌, refl, Option, none, some, [], ◌∷◌, arith}
use empire.Prelude.Text.{Text, text_eq_iff}
use empire.Prelude.Dict.{Dict, lookup, insert, Unique, lookup-insert, lookup-Lacks, insert-Unique}
use empire.Twelvefactor.{Manifest, Process, copy_into, merge, merge_all, env_of}

-- The first value that is there.
abbrev pub or_else : Option Text → Option Text → Option Text
or_else (some v) w = some v
or_else none w = w

pub lookup-copy_into :
    (merged env : Dict Text) (k : Text)
    → Unique env
    → lookup k (copy_into merged env) ≡ or_else (lookup k env) (lookup k merged)
unfolding copy_into lookup
lookup-copy_into merged [] k u = refl
lookup-copy_into merged ((j, v) ∷ env) k (l, u) = ground (
  arith,
  lookup-copy_into (insert j v merged) env k u,
  lookup-insert j k v merged,
  text_eq_iff j k,
  lookup-Lacks j env l,
)

or_else-none : (o : Option Text) → or_else o none ≡ o
or_else-none none = refl
or_else-none (some v) = refl

-- A variable of the container has the process's value if the process sets it, and the app's if not, if
-- neither sets a variable twice.
pub lookup-env_of :
    (app : Manifest) (process : Process) (k : Text)
    → Unique app.env
    → Unique process.env
    → lookup k (env_of app process) ≡ or_else (lookup k process.env) (lookup k app.env)
unfolding env_of merge
lookup-env_of app process k ua up = ground (
  arith,
  lookup-copy_into (copy_into [] app.env) process.env k up,
  lookup-copy_into [] app.env k ua,
  or_else-none (lookup k app.env),
  nothing k,
)
  where
    nothing : (k : Text) → lookup {V = Text} k [] ≡ none
    nothing k = unfold lookup in refl

Unique-copy_into : (merged env : Dict Text) → Unique merged → Unique (copy_into merged env)
unfolding copy_into
Unique-copy_into merged [] u = u
Unique-copy_into merged ((k, v) ∷ env) u =
    Unique-copy_into (insert k v merged) env (insert-Unique k v merged u)

pub Unique-env_of : (app : Manifest) (p : Process) → Unique (env_of app p)
unfolding env_of merge merge_all
Unique-env_of app p = Unique-copy_into _ p.env (Unique-copy_into [] app.env tt)
