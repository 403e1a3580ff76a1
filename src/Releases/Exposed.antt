-- ===== src/Releases/Exposed.antt =====
-- When a process can be exposed, and how.
use empire.Prelude.{
  ◌≡◌, refl, true, false, Option, none, some, List, [], ◌∷◌, map, arith, Result, ok, err, inl, inr,
  if◌then◌else◌, ◌||◌, ◌&&◌, Bool, Bool-cases,
}
use empire.Prelude.Text.{Text, codes, text_eq, text_eq_iff}
use empire.Apps.{App, expose_public}
use empire.Processes.{Process, Port}
use empire.Twelvefactor
use empire.Twelvefactor.{Protocol, Exposure, http, https, tcp, ssl}
use empire.Releases.{
  ReleaseError, no_cert, cert_of, port_protocol, exposed_ports, exposure_for, process_exposure,
}

-- A port whose protocol is encrypted.
abbrev pub is_encrypted : Port → Bool
is_encrypted p = text_eq p.protocol (codes "https") || text_eq p.protocol (codes "ssl")

abbrev pub any_encrypted : List Port → Bool
any_encrypted [] = false
any_encrypted (p ∷ ps) = is_encrypted p || any_encrypted ps

abbrev pub with_cert : (Text → Protocol) → Option Text → Option Protocol
with_cert f none = none
with_cert f (some c) = some (f c)

-- The protocol that a name stands for, with the certificate that there may be.
abbrev pub protocol_named : Option Text → Text → Option Protocol
protocol_named cert s =
    if text_eq s (codes "ssl")
    then with_cert ssl cert
    else if text_eq s (codes "https")
    then with_cert https cert
    else if text_eq s (codes "tcp")
    then some tcp
    else if text_eq s (codes "http")
    then some http
    else none

abbrev pub exposed_port : Option Text → Port → Twelvefactor.Port
exposed_port cert p = record {
  host = p.host;
  container = p.container;
  protocol = protocol_named cert p.protocol;
}

abbrev pub is_none : Option Text → Bool
is_none none = true
is_none (some c) = false

port_protocol_lem :
    (app : App) (name : Text) (p : Port)
    → port_protocol app name p.protocol ≡ (
        if is_encrypted p && is_none (cert_of app name)
        then err (no_cert name)
        else ok (protocol_named (cert_of app name) p.protocol))
unfolding port_protocol
port_protocol_lem app name p = ground (
  arith,
  text_eq_iff p.protocol (codes "http"),
  text_eq_iff p.protocol (codes "https"),
  text_eq_iff p.protocol (codes "tcp"),
  text_eq_iff p.protocol (codes "ssl"),
)

exposed_ports_lem :
    (app : App) (name : Text) (ps : List Port)
    → exposed_ports app name ps ≡ (
        if any_encrypted ps && is_none (cert_of app name)
        then err (no_cert name)
        else ok (map (exposed_port (cert_of app name)) ps))
unfolding exposed_ports
exposed_ports_lem app name [] = refl
exposed_ports_lem app name (p ∷ ps) =
    ground (arith, port_protocol_lem app name p, exposed_ports_lem app name ps)

-- What the ports of a process ask for, in an app with this exposure and this certificate.
abbrev pub exposure_asked :
    Text → Option Text → Text → List Port → Result ReleaseError (Option Exposure)
exposure_asked exposure cert name [] = ok none
exposure_asked exposure cert name (p ∷ ps) =
    if any_encrypted (p ∷ ps) && is_none cert
    then err (no_cert name)
    else ok (
        some (record {
          external = text_eq exposure expose_public;
          ports = map (exposed_port cert) (p ∷ ps);
        }))

exposure_for_lem :
    (app : App) (name : Text) (ps : List Port)
    → exposure_for app name ps ≡ exposure_asked app.exposure (cert_of app name) name ps
unfolding exposure_for
exposure_for_lem app name [] = refl
exposure_for_lem app name (p ∷ ps) =
    rw (exposed_ports_lem app name (p ∷ ps))
      (elim (Bool-cases (any_encrypted (p ∷ ps) && is_none (cert_of app name))) [
        | inl e ↦ rw e
        | inr e ↦ rw e
      ])

-- A process without ports is not exposed. With ports it is refused exactly if one of them is encrypted
-- and the app has no certificate under the process's name; if not, each port is exposed in its order,
-- under the protocol that it names, to the public exactly if the app is public.
pub process_exposure_lem :
    (app : App) (name : Text) (process : Process)
    → process_exposure app name process
      ≡ exposure_asked app.exposure (cert_of app name) name process.ports
unfolding process_exposure
process_exposure_lem app name process = exposure_for_lem app name process.ports
