-- ===== src/Registry/Described.antt =====
-- What a Procfile describes, and the formation that is built of it (registry.go).
use empire.Prelude.{
  ◌≡◌, ◌≢◌, ◌↔◌, ◌⊎◌, refl, sym, ap, ◌∙◌, false, Option, List, [], ◌∷◌, map, arith, Result, ok,
  Result-cases, Bool-cases, inl, inr, All, >>=-eq-ok, ◌>>=◌, if◌then◌else◌,
}
use mathlib.Core.Bool.{false≢true}
use empire.Prelude.Int.{ℤ, pos, eqb_ℤ, eqb_ℤ_iff}
use empire.Prelude.Text.{Text, codes, is_empty}
use empire.Prelude.Dict.{Dict, lookup, Unique}
use empire.Procfile
use empire.Procfile.{Procfile, standard, extended, Item, text, no_text, line, items, other}
use empire.Processes.{Command, Port, Process, Formation, zero_process}
use empire.Registry.{
  RegistryError, from_procfile_port, protocol_from_port, item_texts, parse_command,
  standard_process, extended_command, extended_process, formation_from_standard_procfile,
  formation_from_extended_procfile, formation_from_procfile,
}
use empire.Registry.Loop.{AllConvert, Matched, fill-Matched, fill_total, fill-AllConvert}

-- The protocol of a port that names none, by its number on the host
abbrev pub IsDefault : ℤ → Text → Type 0
IsDefault host t =
    (((host ≡ pos 80) ⊎ (host ≡ pos 8080)) × (t ≡ codes "http"))
    ⊎ ((host ≡ pos 443) × (t ≡ codes "https"))
    ⊎ ((host ≢ pos 80) × (host ≢ pos 8080) × (host ≢ pos 443) × (t ≡ codes "tcp"))

abbrev pub IsPort : Procfile.Port → Port → Type 0
IsPort a b =
    (b.host ≡ a.host)
    × (b.container ≡ a.container)
    × (((a.protocol ≢ []) × (b.protocol ≡ a.protocol))
        ⊎ ((a.protocol ≡ []) × IsDefault a.host b.protocol))

abbrev pub ArePorts : List Procfile.Port → List Port → Type 0
ArePorts [] [] = Unit
ArePorts (a ∷ as') (b ∷ bs) = IsPort a b × ArePorts as' bs
ArePorts _ _ = ⊥

differs : (a b : ℤ) → eqb_ℤ a b ≡ false → a ≢ b
differs a b e same = false≢true (sym e ∙ (eqb_ℤ_iff a b).1 same)

protocol_from_port-IsDefault : (host : ℤ) → IsDefault host (protocol_from_port host)
unfolding protocol_from_port
protocol_from_port-IsDefault host = elim (Bool-cases (eqb_ℤ host (pos 80))) [
  | inl t ↦ inl (inl ((eqb_ℤ_iff host (pos 80)).0 t), rw t refl)
  | inr f ↦ elim (Bool-cases (eqb_ℤ host (pos 8080))) [
    | inl t ↦ inl (inr ((eqb_ℤ_iff host (pos 8080)).0 t), rw (f, t) refl)
    | inr g ↦ elim (Bool-cases (eqb_ℤ host (pos 443))) [
      | inl t ↦ inr (inl ((eqb_ℤ_iff host (pos 443)).0 t, rw (f, g, t) refl))
      | inr k ↦ inr (
          inr (
            differs host (pos 80) f,
            differs host (pos 8080) g,
            differs host (pos 443) k,
            rw (f, g, k) refl,
          ))
    ]
  ]
]

protocol_of :
    (t : Text) (host : ℤ)
    → let chosen = if is_empty t then protocol_from_port host else t in
      ((t ≢ []) × (chosen ≡ t)) ⊎ ((t ≡ []) × IsDefault host chosen)
protocol_of [] host = inr (refl, protocol_from_port-IsDefault host)
protocol_of (c ∷ t) host = inl (λ e. cc, refl)

from_procfile_port-IsPort : (a : Procfile.Port) → IsPort a (from_procfile_port a)
unfolding from_procfile_port
from_procfile_port-IsPort a = (refl, refl, protocol_of a.protocol a.host)

map-ArePorts : (ps : List Procfile.Port) → ArePorts ps (map from_procfile_port ps)
map-ArePorts [] = tt
map-ArePorts (p ∷ ps) = (from_procfile_port-IsPort p, map-ArePorts ps)

built :
    (m : Result RegistryError Command) (ws : Command) (g : Command → Process)
    → m ≡ ok ws
    → (p : Process) × ((m >>= λ cmd. ok (g cmd)) ≡ ok p)
built m ws g e = (g ws, rw e refl)

module _ (shellwords : Text → Result Text (List Text)) where
  -- The words of a command
  abbrev pub AreWords : Procfile.Command → Command → Type 0
  AreWords (line c) ws = shellwords c ≡ ok ws
  AreWords (items vs) ws = vs ≡ map text ws
  AreWords other ws = ⊥

  abbrev pub IsStandard : Text → Process → Type 0
  IsStandard c p =
      (ws : Command) × (shellwords c ≡ ok ws) × (p ≡ record zero_process { command = ws })

  abbrev pub IsExtended : Procfile.Process → Process → Type 0
  IsExtended q p =
      AreWords q.command p.command
      × (p.cron ≡ q.cron)
      × (p.no_service ≡ q.no_service)
      × ArePorts q.ports p.ports
      × (p.environment ≡ q.environment)
      × (p.ecs ≡ q.ecs)
      × (p.quantity ≡ pos 0)
      × (p.constraints ≡ zero_process.constraints)

  abbrev pub UniqueNames : Procfile → Type 0
  UniqueNames (standard p) = Unique p
  UniqueNames (extended p) = Unique p

  -- The Procfile and the formation have the same of a name: a process as the Procfile describes it, or
  -- nothing.
  abbrev pub Describes : Procfile → Text → Option Process → Type 0
  Describes (standard p) name q = Matched IsStandard (lookup name p) q
  Describes (extended p) name q = Matched IsExtended (lookup name p) q

  -- A command that can be read
  abbrev pub IsReadable : Procfile.Command → Type 0
  IsReadable (line c) = (ws : Command) × (shellwords c ≡ ok ws)
  IsReadable (items vs) = All (λ v. v ≢ no_text) vs
  IsReadable other = ⊥

  abbrev pub AllReadable : Procfile → Type 0
  AllReadable (standard p) = All (λ e. (ws : Command) × (shellwords e.1 ≡ ok ws)) p
  AllReadable (extended p) = All (λ e. IsReadable e.1.command) p

  parse_command-eq-ok :
      (c : Text) (ws : Command) → parse_command shellwords c ≡ ok ws → shellwords c ≡ ok ws
  unfolding parse_command
  parse_command-eq-ok c ws e = elim (Result-cases (shellwords c)) [
    | inl (vs, q) ↦ ground (arith, q, e)
    | inr (x, q) ↦ ground (arith, q, e)
  ]

  parse_command-readable :
      (c : Text) (ws : Command) → shellwords c ≡ ok ws → parse_command shellwords c ≡ ok ws
  unfolding parse_command
  parse_command-readable c ws e = ground (arith, e)

  item_texts-eq-ok : (vs : List Item) (ws : Command) → item_texts vs ≡ ok ws → vs ≡ map text ws
  unfolding item_texts
  item_texts-eq-ok [] [] e = refl
  item_texts-eq-ok [] (w ∷ ws) e = cc
  item_texts-eq-ok (no_text ∷ vs) ws e = cc
  item_texts-eq-ok (text v ∷ vs) ws e =
      let (cmd, q, r) = >>=-eq-ok (item_texts vs) _ e in
      let same : v ∷ cmd ≡ ws = cc in rw (← same) (ap (λ x. text v ∷ x) (item_texts-eq-ok vs cmd q))

  item_texts-readable :
      (vs : List Item) → All (λ v. v ≢ no_text) vs → (ws : Command) × (item_texts vs ≡ ok ws)
  unfolding item_texts
  item_texts-readable [] h = ([], refl)
  item_texts-readable (no_text ∷ vs) (n, h) = absurd (n refl)
  item_texts-readable (text v ∷ vs) (n, h) =
      let (ws, e) = item_texts-readable vs h in (v ∷ ws, rw e)

  standard_process-IsStandard :
      (c : Text) (p : Process) → standard_process shellwords c ≡ ok p → IsStandard c p
  unfolding standard_process
  standard_process-IsStandard c p e =
      let (ws, q, r) = >>=-eq-ok (parse_command shellwords c) _ e in
      (ws, parse_command-eq-ok c ws q, cc)

  extended_command-AreWords :
      (c : Procfile.Command) (ws : Command) → extended_command shellwords c ≡ ok ws → AreWords c ws
  unfolding extended_command
  extended_command-AreWords (line c) ws e = parse_command-eq-ok c ws e
  extended_command-AreWords (items vs) ws e = item_texts-eq-ok vs ws e
  extended_command-AreWords other ws e = cc

  extended_process-IsExtended :
      (q : Procfile.Process) (p : Process) → extended_process shellwords q ≡ ok p → IsExtended q p
  unfolding extended_process
  extended_process-IsExtended q p e =
      let (ws, read, r) = >>=-eq-ok (extended_command shellwords q.command) _ e in
      let same : record zero_process {
        command = ws;
        cron = q.cron;
        no_service = q.no_service;
        ports = map from_procfile_port q.ports;
        environment = q.environment;
        ecs = q.ecs;
      }
          ≡ p =
        cc in
      rw (← same) (
        extended_command-AreWords q.command ws read,
        refl,
        refl,
        map-ArePorts q.ports,
        refl,
        refl,
        refl,
        refl,
      )

  standard_process-readable :
      (c : Text) (ws : Command)
      → shellwords c ≡ ok ws
      → (p : Process) × (standard_process shellwords c ≡ ok p)
  unfolding standard_process
  standard_process-readable c ws e =
      built (parse_command shellwords c) ws _ (parse_command-readable c ws e)

  extended_command-readable :
      (c : Procfile.Command)
      → IsReadable c
      → (ws : Command) × (extended_command shellwords c ≡ ok ws)
  unfolding extended_command
  extended_command-readable (line c) (ws, r) = (ws, parse_command-readable c ws r)
  extended_command-readable (items vs) h = item_texts-readable vs h
  extended_command-readable other h = absurd h

  extended_process-readable :
      (q : Procfile.Process)
      → IsReadable q.command
      → (p : Process) × (extended_process shellwords q ≡ ok p)
  unfolding extended_process
  extended_process-readable q h =
      let (ws, r) = extended_command-readable q.command h in
      built (extended_command shellwords q.command) ws _ r

  AreWords-IsReadable : (c : Procfile.Command) (ws : Command) → AreWords c ws → IsReadable c
  AreWords-IsReadable (line c) ws h = (ws, h)
  AreWords-IsReadable (items vs) ws h = rw h (All-text ws)
    where
      All-text : (ws : List Text) → All (λ v. v ≢ no_text) (map text ws)
      All-text [] = tt
      All-text (w ∷ ws) = (λ e. cc, All-text ws)
  AreWords-IsReadable other ws h = elim h [ ]

  standard-AllReadable :
      (d : Dict Text) → AllConvert (standard_process shellwords) d ↔ AllReadable (standard d)
  standard-AllReadable [] = (λ h. tt, λ h. tt)
  standard-AllReadable ((n, c) ∷ d) =
      let (into, back) = standard-AllReadable d in
      (
        λ ((p, e), h). let (ws, q, r) = standard_process-IsStandard c p e in ((ws, q), into h),
        λ ((ws, q), h). (standard_process-readable c ws q, back h),
      )

  extended-AllReadable :
      (d : Dict Procfile.Process)
      → AllConvert (extended_process shellwords) d ↔ AllReadable (extended d)
  extended-AllReadable [] = (λ h. tt, λ h. tt)
  extended-AllReadable ((n, q) ∷ d) =
      let (into, back) = extended-AllReadable d in
      (
        λ ((p, e), h).
            (AreWords-IsReadable q.command p.command (extended_process-IsExtended q p e).0, into h),
        λ (r, h). (extended_process-readable q r, back h),
      )

  -- A formation that is built from a Procfile whose names differ has a process under a name exactly if the
  -- Procfile has one, and then with what the Procfile says: the words of its command, its ports in their
  -- order, each with its two numbers and its protocol or the usual one of its number, and in the extended
  -- format its schedule, its flag, its environment and its ECS settings.
  pub lookup-formation_from_procfile :
      (p : Procfile) (f : Formation) (name : Text)
      → UniqueNames p
      → formation_from_procfile shellwords p ≡ ok f
      → Describes p name (lookup name f)
  unfolding formation_from_procfile formation_from_standard_procfile
      formation_from_extended_procfile
  lookup-formation_from_procfile (standard p) f name u h =
      fill-Matched (standard_process shellwords) IsStandard standard_process-IsStandard p f name u h
  lookup-formation_from_procfile (extended p) f name u h =
      fill-Matched (extended_process shellwords) IsExtended extended_process-IsExtended p f name u h

  -- A formation is built exactly when each command of the Procfile can be read: the parser of command lines
  -- takes it, or it is a list of texts alone.
  pub formation_from_procfile_total :
      (p : Procfile)
      → ((f : Formation) × (formation_from_procfile shellwords p ≡ ok f)) ↔ AllReadable p
  unfolding formation_from_procfile formation_from_standard_procfile
      formation_from_extended_procfile
  formation_from_procfile_total (standard p) =
      let (into, back) = standard-AllReadable p in
      (
        λ (f, h). into (fill-AllConvert (standard_process shellwords) [] p f h),
        λ h. fill_total (standard_process shellwords) [] p (back h),
      )
  formation_from_procfile_total (extended p) =
      let (into, back) = extended-AllReadable p in
      (
        λ (f, h). into (fill-AllConvert (extended_process shellwords) [] p f h),
        λ h. fill_total (extended_process shellwords) [] p (back h),
      )
