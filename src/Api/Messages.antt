-- ===== src/Api/Messages.antt =====
-- `requireMessages` (empire.go), which the operations that take a message call first.
use empire.Prelude.{◌≡◌, refl, arith, Bool, true, false, ◌&&◌, if◌then◌else◌, some, [], ◌∷◌}
use empire.Prelude.Text.{Text}
use empire.Services.Exec.{message_required, Empire, World, Exec, ◌>>=◌, raise, pure}
use empire.Api.{
  require_messages, create, destroy, set_maintenance_mode, set, restart, run, rollback, deploy,
  scale,
}
use empire.Api.Calls.{
  Call, message_of, serve, served, creating, destroying, reading_config, maintaining, setting,
  creating_domain, destroying_domain, restarting, running, rolling_back, deploying, scaling,
  listing_scale, attaching_certs,
}

guarded_by :
    {e : Empire} {A : Type 0} (b : Bool) (f : Unit {0} → Exec e A) (w : World e)
    → b ≡ true
    → served (((if b then raise message_required else pure tt) >>= f) w)
      ≡ (some message_required, w)
unfolding ◌>>=◌ raise
guarded_by true f w q = refl
guarded_by false f w q = ground arith

module _ (e : Empire) (q : e.messages_required ≡ true) where
  refused :
      {A : Type 0} (m : Text) (f : Unit {0} → Exec e A) (w : World e)
      → some m ≡ some []
      → served ((require_messages e m >>= f) w) ≡ (some message_required, w)
  unfolding require_messages
  refused [] f w h = guarded_by (e.messages_required && true) f w (ground (arith, q))
  refused (c ∷ m) f w h = ground arith

  -- Where messages are required, a call that carries an empty one fails with that error, and neither
  -- the database nor the outside world sees anything of it.
  pub serve-empty_message :
      (c : Call) (w : World e) → message_of c ≡ some [] → serve e c w ≡ (some message_required, w)
  unfolding serve create destroy set_maintenance_mode set restart run rollback deploy scale
  serve-empty_message (creating o) w h = refused o.message _ w h
  serve-empty_message (destroying o) w h = refused o.message _ w h
  serve-empty_message (reading_config o) w h = ground arith
  serve-empty_message (maintaining o) w h = refused o.message _ w h
  serve-empty_message (setting o) w h = refused o.message _ w h
  serve-empty_message (creating_domain o) w h = ground arith
  serve-empty_message (destroying_domain o) w h = ground arith
  serve-empty_message (restarting o) w h = refused o.message _ w h
  serve-empty_message (running o) w h = refused o.message _ w h
  serve-empty_message (rolling_back o) w h = refused o.message _ w h
  serve-empty_message (deploying o) w h = refused o.message _ w h
  serve-empty_message (scaling o) w h = refused o.message _ w h
  serve-empty_message (listing_scale o) w h = ground arith
  serve-empty_message (attaching_certs o) w h = ground arith
