-- ===== src/Apps/Names.antt =====
-- Which names an app can have.
use empire.Prelude.{
  ℕ, ◌≤◌, ◌≡◌, ◌↔◌, ◌⊎◌, refl, true, some, List, [], ◌∷◌, ◌++◌, length, arith, ok, All, Bool-cases,
  inl, inr, if◌then◌else◌,
}
use empire.Prelude.Text.{Text, Lacks, is_empty}
use empire.Prelude.Text.Split.{split-Lacks, split-append}
use empire.Apps.{
  App, expose_private, is_lower, is_name_byte, all_name_bytes, matches_name_pattern, check_app,
  before_create, last_part, app_name_from_repo,
}

abbrev pub IsLower : ℕ → Type 0
IsLower c = (b'a' ≤ c) × (c ≤ b'z')

abbrev pub IsNameByte : ℕ → Type 0
IsNameByte c = IsLower c ⊎ ((b'0' ≤ c) × (c ≤ b'9')) ⊎ (c ≡ b'-')

-- A name begins with a letter; letters, digits and dashes follow; its length is 3 to 31.
abbrev pub IsName : Text → Type 0
IsName [] = ⊥
IsName (c ∷ s) = IsLower c × All IsNameByte s × (3 ≤ length (c ∷ s)) × (length (c ∷ s) ≤ 31)

is_name_byte_iff : (c : ℕ) → (is_name_byte c ≡ true) ↔ IsNameByte c
unfolding is_name_byte is_lower
is_name_byte_iff c = ground arith

all_name_bytes-All : (s : Text) → (all_name_bytes s ≡ true) ↔ All IsNameByte s
unfolding all_name_bytes
all_name_bytes-All [] = (λ _. tt, λ _. refl)
all_name_bytes-All (c ∷ s) =
    let (sound, complete) = all_name_bytes-All s in
    let (into, back) = is_name_byte_iff c in
    (λ h. ground (arith, into, sound), λ h. rw (back (h.0), complete (h.1)))

-- The pattern accepts exactly the names of 3 to 31 bytes that begin with a lower-case letter and have
-- only lower-case letters, digits and '-'.
pub matches_name_pattern-IsName : (s : Text) → (matches_name_pattern s ≡ true) ↔ IsName s
unfolding matches_name_pattern is_lower
matches_name_pattern-IsName [] = (λ h. cc, λ h. absurd h)
matches_name_pattern-IsName (c ∷ s) =
    let (sound, complete) = all_name_bytes-All s in
    (λ h. ground (arith, sound), λ h. rw (complete (h.1)) (ground arith))

-- What the insertion hook lets through is an app with a valid name, of which it changed only the time
-- and an empty exposure, which became private.
before_create_sound :
    (now : ℕ) (a b : App)
    → before_create now a ≡ ok b
    → IsName b.name
      × (b.created_at ≡ some now)
      × (b.exposure ≡ (if is_empty a.exposure then expose_private else a.exposure))
      × (b ≡ record a { created_at = some now; exposure = b.exposure })
unfolding before_create check_app
before_create_sound now a b h = elim (Bool-cases (matches_name_pattern a.name)) [
  | inl e ↦ ground (arith, e, matches_name_pattern-IsName a.name)
  | inr e ↦ ground (arith, e)
]

last_part-ne_nil : (p q : Text) (ps : List Text) → last_part p (q ∷ ps) ≡ last_part q ps
unfolding last_part
last_part-ne_nil p q ps = refl

-- The name of the app of a repository "owner/name", where neither part has a '/', is its second part.
pub app_name_from_repo-append :
    (owner name : Text)
    → Lacks b'/' owner
    → Lacks b'/' name
    → app_name_from_repo (owner ++ b'/' ∷ name) ≡ name
unfolding app_name_from_repo
app_name_from_repo-append owner name ho hn =
    rw (split-append owner name b'/' ho) (rw (split-Lacks name b'/' hn))
