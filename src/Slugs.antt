-- ===== src/Slugs.antt =====
-- Slugs (slugs.go). The service that creates them is in `Services.Releases`.
use empire.Prelude.Text.{Text}
use empire.Image.{Image}

pub record Slug : Type 0 where
  pub id : Text
  pub image : Image
  pub procfile : Text
