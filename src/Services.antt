-- ===== src/Services.antt =====
-- The services of Empire (the files *.go at the root). Each is an action on the database and on the
-- outside world, which the services share.
pub mod Exec
pub mod Keeps
pub mod Returns
pub mod Ordered
pub mod Created
pub mod History
pub mod Numbering
pub mod Releases
pub mod Apps
pub mod Configs
pub mod Domains
pub mod Scaling
pub mod Allowed
pub mod Runner
pub mod Deployer
pub mod Sample
mod Tests
