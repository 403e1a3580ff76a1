-- ===== src/CloudFormation/Stacks/Tasks.antt =====
-- A process read back from its container definition (`taskDefinitionToProcess`).
use empire.Prelude.{
  ℕ, zero, suc, ◌*◌, ◌/◌, ◌%◌, ◌^◌, ◌<◌, ◌≡◌, refl, sym, ◌∙◌, inl, inr, Option, none, some, List,
  [], ◌∷◌, arith, Bool-cases, ok,
}
use empire.Prelude.Int.{to_uint}
use empire.Prelude.Text.{Text, codes, text_eq}
use empire.Prelude.Dict.{Dict, lookup, insert, Unique, Lacks}
use empire.Constraints.{mb}
use empire.Twelvefactor.{Manifest, Process, env_of, copy_into}
use empire.CloudFormation.{EmpireTemplate, sorted_environment, insert_pair}
use empire.CloudFormation.Containers.{container_definition, to_int64, ulimits_of}
use empire.Twelvefactor.Merge.{lookup-copy_into, or_else, Unique-env_of}
use empire.Configs.{text_lt}
use empire.CloudFormation.Sorting.{sorted_environment_lem, Lacks-insert_pair, Lacks-sorted}
use empire.CloudFormation.Stacks.{task_definition_to_process, TaskProcess, env_from, soft_limit}

to_uint-to_int64 : (n : ℕ) → n < 2 ^ 64 → to_uint (to_int64 n) ≡ n
unfolding to_uint to_int64
to_uint-to_int64 n h = ground arith

env_from-copy_into :
    (kvs : List (Text × Text)) (env : Dict Text) → env_from kvs env ≡ copy_into env kvs
unfolding env_from copy_into
env_from-copy_into [] env = refl
env_from-copy_into ((k, v) ∷ kvs) env = env_from-copy_into kvs (insert k v env)

Unique-insert_pair :
    (p : Text × Text) (m : List (Text × Text)) → Lacks p.0 m → Unique m → Unique (insert_pair p m)
unfolding insert_pair
Unique-insert_pair p [] l u = (tt, tt)
Unique-insert_pair p ((j, v) ∷ m) (n, l) (h, u) = elim (Bool-cases (text_lt j p.0)) [
  | inl e ↦ rw e (Lacks-insert_pair j p m (λ same. n (sym same)) h, Unique-insert_pair p m l u)
  | inr e ↦ rw e ((n, l), (h, u))
]

Unique-sorted : (env : Dict Text) → Unique env → Unique (sorted_environment env)
unfolding sorted_environment
Unique-sorted [] u = tt
Unique-sorted ((k, v) ∷ env) (l, u) =
    Unique-insert_pair (k, v) (sorted_environment env) (Lacks-sorted k env l) (Unique-sorted env u)

soft_limit-ulimits_of :
    (n : ℕ) → n < 2 ^ 64 → to_uint (soft_limit (ulimits_of n) (codes "nproc")) ≡ n
unfolding soft_limit ulimits_of text_eq
soft_limit-ulimits_of zero h = unfold to_uint in refl
soft_limit-ulimits_of (suc n) h = to_uint-to_int64 (suc n) h

to_uint-memory : (n : ℕ) → n < 2 ^ 64 → to_uint (to_int64 (n / mb)) * mb % 2 ^ 64 ≡ n / mb * mb
to_uint-memory n h = rw (to_uint-to_int64 (n / mb) (omega arith)) (omega arith)

lookup-read_env :
    (app : Manifest) (p : Process) (k : Text)
    → lookup k (env_from (sorted_environment (env_of app p)) []) ≡ lookup k (env_of app p)
lookup-read_env app p k =
    let u = Unique-env_of app p in
    let sorted = sorted_environment (env_of app p) in
    rw (env_from-copy_into sorted [], lookup-copy_into [] sorted k (Unique-sorted _ u))
      (none_after (lookup k sorted) ∙ (sorted_environment_lem (env_of app p) u).1 k)
  where
    none_after : (o : Option Text) → or_else o (lookup k []) ≡ o
    none_after none = unfold lookup in refl
    none_after (some v) = refl

-- A process is read back from its container definition with its type, its command, its CPU shares,
-- its limit of processes, its environment, and its memory rounded down to whole megabytes, if the
-- three numbers are 64-bit integers.
pub task_definition_to_process-container :
    (t : EmpireTemplate) (app : Manifest) (p : Process)
    → p.cpu_shares < 2 ^ 64
    → p.nproc < 2 ^ 64
    → p.memory < 2 ^ 64
    → (r : TaskProcess) × (task_definition_to_process (container_definition t app p ∷ []) ≡ ok r)
      × (r.process_type ≡ p.process_type)
      × (r.command ≡ p.command)
      × (r.cpu_shares ≡ p.cpu_shares)
      × (r.nproc ≡ p.nproc)
      × (r.memory ≡ p.memory / mb * mb)
      × ((k : Text) → lookup k r.env ≡ lookup k (env_of app p))
unfolding task_definition_to_process container_definition
task_definition_to_process-container t app p c n m = (
  _,
  refl,
  refl,
  refl,
  to_uint-to_int64 p.cpu_shares c,
  soft_limit-ulimits_of p.nproc n,
  to_uint-memory p.memory m,
  lookup-read_env app p,
)
