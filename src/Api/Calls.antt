-- ===== src/Api/Calls.antt =====
-- A client's calls of the operations of empire.go, one after the other.
use empire.Prelude.{Option, none, some, List, [], ◌∷◌, Result, ok, err}
use empire.Prelude.Text.{Text}
use empire.Apps.{App}
use empire.Store.{Domain}
use empire.Services.Exec.{Error, Empire, World}
use empire.Services.Releases.{RollbackOpts}
use empire.Services.Apps.{ScaleOpts, RestartOpts, CertsAttachOpts}
use empire.Services.Configs.{SetOpts}
use empire.Services.Runner.{RunOpts}
use empire.Services.Deployer.{DeployOpts}
use empire.Api.{
  CreateOpts, DestroyOpts, SetMaintenanceModeOpts, create, destroy, config, set_maintenance_mode,
  set, domains_create, domains_destroy, restart, run, rollback, deploy, scale, list_scale,
  attach_certs,
}

-- A call of one of the operations.
pub data Call : Type 0 where
  creating : CreateOpts → Call
  destroying : DestroyOpts → Call
  reading_config : App → Call
  maintaining : SetMaintenanceModeOpts → Call
  setting : SetOpts → Call
  creating_domain : Domain → Call
  destroying_domain : Domain → Call
  restarting : RestartOpts → Call
  running : RunOpts → Call
  rolling_back : RollbackOpts → Call
  deploying : DeployOpts → Call
  scaling : ScaleOpts → Call
  listing_scale : App → Call
  attaching_certs : CertsAttachOpts → Call

-- The message of a call that carries one.
abbrev pub message_of : Call → Option Text
message_of (creating o) = some o.message
message_of (destroying o) = some o.message
message_of (reading_config o) = none
message_of (maintaining o) = some o.message
message_of (setting o) = some o.message
message_of (creating_domain o) = none
message_of (destroying_domain o) = none
message_of (restarting o) = some o.message
message_of (running o) = some o.message
message_of (rolling_back o) = some o.message
message_of (deploying o) = some o.message
message_of (scaling o) = some o.message
message_of (listing_scale o) = none
message_of (attaching_certs o) = none

-- The error that a call returns, and the world after it.
abbrev pub failure : {A : Type 0} → Result Error A → Option Error
failure (ok a) = none
failure (err x) = some x

abbrev pub served : {A W : Type 0} → Result Error A × W → Option Error × W
served p = (failure p.0, p.1)

module _ (e : Empire) where
  unfoldable pub serve : Call → World e → Option Error × World e
  serve (creating o) w = served (create e o w)
  serve (destroying o) w = served (destroy e o w)
  serve (reading_config o) w = served (config e o w)
  serve (maintaining o) w = served (set_maintenance_mode e o w)
  serve (setting o) w = served (set e o w)
  serve (creating_domain o) w = served (domains_create e o w)
  serve (destroying_domain o) w = served (domains_destroy e o w)
  serve (restarting o) w = served (restart e o w)
  serve (running o) w = served (run e o w)
  serve (rolling_back o) w = served (rollback e o w)
  serve (deploying o) w = served (deploy e o w)
  serve (scaling o) w = served (scale e o w)
  serve (listing_scale o) w = served (list_scale e o w)
  serve (attaching_certs o) w = served (attach_certs e o w)

  unfoldable pub serve_all : List Call → World e → World e
  unfolding serve
  serve_all [] w = w
  serve_all (c ∷ cs) w = serve_all cs (serve c w).1
