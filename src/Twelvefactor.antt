-- ===== src/Twelvefactor.antt =====
-- What the backend schedulers are given (twelvefactor/twelvefactor.go).
pub mod Merge
mod Tests
use empire.Prelude.{ℕ, Bool, Option, none, List, [], ◌∷◌}
use empire.Prelude.Int.{ℤ}
use empire.Prelude.Text.{Text}
use empire.Prelude.Dict.{Dict, insert}
use empire.Image.{Image}
use empire.Procfile.{Ecs}

pub data Protocol : Type 0 where
  http : Protocol
  https : Text → Protocol
  tcp : Protocol
  ssl : Text → Protocol

-- `protocol` is none where the Go interface is nil.
pub record Port : Type 0 where
  pub host : ℤ
  pub container : ℤ
  pub protocol : Option Protocol

pub record Exposure : Type 0 where
  pub external : Bool
  pub ports : List Port

-- A reader or a writer of the caller's, and the `io.MultiWriter` of a recording and a writer.
pub data Stream : Type 0 where
  handle : ℕ → Stream
  recorded : Stream → Stream

pub record Process : Type 0 where
  pub process_type : Text
  pub image : Image
  pub command : List Text
  pub env : Dict Text
  pub labels : Dict Text
  pub memory : ℕ
  pub cpu_shares : ℕ
  pub nproc : ℕ
  pub quantity : ℤ
  pub exposure : Option Exposure
  pub schedule : Option Text
  pub ecs : Option Ecs
  pub stdin : Option Stream
  pub stdout : Option Stream
  pub stderr : Option Stream

pub record Manifest : Type 0 where
  pub app_id : Text
  pub release : Text
  pub name : Text
  pub env : Dict Text
  pub labels : Dict Text
  pub processes : List Process

pub record Task : Type 0 where
  pub process : Process
  pub id : Text
  pub host : Text
  pub state : Text
  pub updated_at : ℕ

-- `for k, v := range env { merged[k] = v }`
unfoldable pub copy_into : Dict Text → Dict Text → Dict Text
copy_into merged [] = merged
copy_into merged ((k, v) ∷ env) = copy_into (insert k v merged) env

merge_all : Dict Text → List (Dict Text) → Dict Text
merge_all merged [] = merged
merge_all merged (env ∷ envs) = merge_all (copy_into merged env) envs

-- `merge(envs...)`
unfoldable pub merge : List (Dict Text) → Dict Text
unfolding merge_all
merge envs = merge_all [] envs

-- `Env` and `Labels`
unfoldable pub env_of : Manifest → Process → Dict Text
env_of app process = merge (app.env ∷ process.env ∷ [])

unfoldable pub labels_of : Manifest → Process → Dict Text
labels_of app process = merge (app.labels ∷ process.labels ∷ [])
