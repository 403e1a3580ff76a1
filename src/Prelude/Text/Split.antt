-- ===== src/Prelude/Text/Split.antt =====
-- The functions of the package `strings` that the program calls with a one-byte separator, and
-- their laws.
use empire.Prelude.Tests.{Option-cases, ◌==◌, if◌then◌else◌}
use empire.Prelude.Lists.{drop, get_or, length}
use empire.Prelude.Text.{Text, Lacks}
use Prim.Native.Nat.{◌≤◌, ◌<◌, zero, ℕ, suc}
use mathlib.Core.Path.{◌≡◌, refl}
use mathlib.Core.Logic.{inl, inr, ◌≢◌}
use mathlib.Core.Bool.{false≢true, true, Bool, false, ◌||◌}
use mathlib.Core.Option.{Option, none, some}
use mathlib.Core.List.{List, [], ◌∷◌, ◌++◌}
use native.Mathlib.Omega.{arith}

-- `strings.Contains(s, sep)`
unfoldable pub contains : Text → ℕ → Bool
contains [] sep = false
contains (c ∷ s) sep = c == sep || contains s sep

-- `strings.LastIndex(s, sep)`, with `none` for -1
unfoldable pub last_index : Text → ℕ → Option ℕ
last_index [] sep = none
last_index (c ∷ s) sep = elim (last_index s sep) [
  | some i ↦ some (suc i)
  | none ↦ if c == sep then some 0 else none
]

abbrev put_front : ℕ → List Text → List Text
put_front c [] = (c ∷ []) ∷ []
put_front c (p ∷ ps) = (c ∷ p) ∷ ps

-- `strings.Split(s, sep)`
unfoldable pub split : Text → ℕ → List Text
split [] sep = [] ∷ []
split (c ∷ s) sep = let rest = split s sep in if c == sep then [] ∷ rest else put_front c rest

-- `strings.SplitN(s, sep, 2)`: the text before the first separator, and the text after it if there
-- is one
unfoldable pub split_once : Text → ℕ → Text × Option Text
split_once [] sep = ([], none)
split_once (c ∷ s) sep =
    let (before, after) = split_once s sep in if c == sep then ([], some s) else (c ∷ before, after)

-- `strings.Join(parts, sep)`
unfoldable pub join : List Text → Text → Text
join [] sep = []
join (p ∷ []) sep = p
join (p ∷ q ∷ ps) sep = p ++ (sep ++ join (q ∷ ps) sep)

pub contains-Lacks : (s : Text) (sep : ℕ) → Lacks sep s → contains s sep ≡ false
unfolding contains
contains-Lacks [] sep h = refl
contains-Lacks (c ∷ s) sep (n, h) = ground (arith, contains-Lacks s sep h)

pub Lacks-contains : (s : Text) (sep : ℕ) → contains s sep ≡ false → Lacks sep s
unfolding contains
Lacks-contains [] sep h = tt
Lacks-contains (c ∷ s) sep h = ground (arith, Lacks-contains s sep)

pub contains-append :
    (s t : Text) (sep : ℕ) → contains (s ++ t) sep ≡ (contains s sep || contains t sep)
unfolding contains
contains-append [] t sep = refl
contains-append (c ∷ s) t sep = ground (arith, contains-append s t sep)

pub contains-append_self : (s t : Text) (sep : ℕ) → contains (s ++ sep ∷ t) sep ≡ true
unfolding contains
contains-append_self [] t sep = ground arith
contains-append_self (c ∷ s) t sep = ground (arith, contains-append_self s t sep)

pub Lacks-append_cons :
    (s t : Text) (a b : ℕ) → Lacks a s → b ≢ a → Lacks a t → Lacks a (s ++ b ∷ t)
Lacks-append_cons [] t a b hs n ht = (n, ht)
Lacks-append_cons (c ∷ s) t a b (m, hs) n ht = (m, Lacks-append_cons s t a b hs n ht)

pub last_index-Lacks : (s : Text) (sep : ℕ) → Lacks sep s → last_index s sep ≡ none
unfolding last_index
last_index-Lacks [] sep h = refl
last_index-Lacks (c ∷ s) sep (n, h) = rw (last_index-Lacks s sep h) (ground arith)

-- The last separator stands where the text behind it has none.
pub last_index-append :
    (s t : Text) (sep : ℕ) → Lacks sep t → last_index (s ++ sep ∷ t) sep ≡ some (length s)
unfolding last_index
last_index-append [] t sep h = rw (last_index-Lacks t sep h) (ground arith)
last_index-append (c ∷ s) t sep h = rw (last_index-append s t sep h)

pub last_index-append_Lacks :
    (s t : Text) (sep : ℕ) → Lacks sep t → last_index (s ++ t) sep ≡ last_index s sep
unfolding last_index
last_index-append_Lacks [] t sep h = last_index-Lacks t sep h
last_index-append_Lacks (c ∷ s) t sep h = rw (last_index-append_Lacks s t sep h)

pub last_index-lt-length : (s : Text) (sep : ℕ) {i : ℕ} → last_index s sep ≡ some i → i < length s
unfolding last_index
last_index-lt-length [] sep h = cc
last_index-lt-length (c ∷ s) sep {i} h = elim (Option-cases (last_index s sep)) [
  | inl e ↦ ground (arith, e)
  | inr (j, e) ↦ ground (arith, e, last_index-lt-length s sep e)
]

pub contains-drop_append :
    (n : ℕ) (s t : Text) (sep : ℕ) → n ≤ length s → contains (drop n (s ++ sep ∷ t)) sep ≡ true
contains-drop_append zero s t sep h = contains-append_self s t sep
contains-drop_append (suc n) [] t sep h = elim h [ ]
contains-drop_append (suc n) (c ∷ s) t sep h = contains-drop_append n s t sep (omega arith)

-- A list of one part is that part.
pub join-one :
    (ps : List Text) (sep : Text) → ps ≢ [] → length ps < 2 → get_or ps 0 [] ≡ join ps sep
unfolding join
join-one [] sep h l = absurd (h refl)
join-one (p ∷ []) sep h l = refl
join-one (p ∷ q ∷ ps) sep h l = absurd (omega arith)

one-le-length : (ps : List Text) → ps ≢ [] → 1 ≤ length ps
one-le-length [] h = absurd (h refl)
one-le-length (p ∷ ps) h = omega arith

length-put_front : (c : ℕ) (ps : List Text) → length ps ≤ length (put_front c ps)
length-put_front c [] = omega arith
length-put_front c (p ∷ ps) = omega arith

pub split-ne-nil : (s : Text) (sep : ℕ) → split s sep ≢ []
unfolding split
split-ne-nil [] sep = ground arith
split-ne-nil (c ∷ s) sep = ground arith

pub two-le-length-split : (s : Text) (sep : ℕ) → contains s sep ≡ true → 2 ≤ length (split s sep)
unfolding contains split
two-le-length-split [] sep h = absurd (false≢true h)
two-le-length-split (c ∷ s) sep h = ground (
  arith,
  two-le-length-split s sep,
  one-le-length (split s sep) (split-ne-nil s sep),
  length-put_front c (split s sep),
)

pub split-Lacks : (s : Text) (sep : ℕ) → Lacks sep s → split s sep ≡ s ∷ []
unfolding split
split-Lacks [] sep h = refl
split-Lacks (c ∷ s) sep (n, h) = ground (arith, split-Lacks s sep h)

pub split-append : (s t : Text) (sep : ℕ) → Lacks sep s → split (s ++ sep ∷ t) sep ≡ s ∷ split t sep
unfolding split
split-append [] t sep h = ground arith
split-append (c ∷ s) t sep (n, h) = ground (arith, split-append s t sep h)

join-put_front :
    (c : ℕ) (ps : List Text) (sep : Text) → ps ≢ [] → join (put_front c ps) sep ≡ c ∷ join ps sep
unfolding join
join-put_front c [] sep h = ground arith
join-put_front c (p ∷ []) sep h = refl
join-put_front c (p ∷ q ∷ ps) sep h = refl

join-cons-nil : (ps : List Text) (sep : Text) → ps ≢ [] → join ([] ∷ ps) sep ≡ sep ++ join ps sep
unfolding join
join-cons-nil [] sep h = ground arith
join-cons-nil (q ∷ ps) sep h = refl

-- Joining the parts gives the text back.
pub join-split : (s : Text) (sep : ℕ) → join (split s sep) (sep ∷ []) ≡ s
unfolding split
join-split [] sep = unfold join in refl
join-split (c ∷ s) sep = ground (
  arith,
  join-split s sep,
  split-ne-nil s sep,
  join-put_front c (split s sep) (sep ∷ []),
  join-cons-nil (split s sep) (sep ∷ []),
)

pub split_once-Lacks : (s : Text) (sep : ℕ) → Lacks sep s → split_once s sep ≡ (s, none)
unfolding split_once
split_once-Lacks [] sep h = refl
split_once-Lacks (c ∷ s) sep (n, h) = ground (arith, split_once-Lacks s sep h)

pub split_once-append :
    (s t : Text) (sep : ℕ) → Lacks sep s → split_once (s ++ sep ∷ t) sep ≡ (s, some t)
unfolding split_once
split_once-append [] t sep h = ground arith
split_once-append (c ∷ s) t sep (n, h) = ground (arith, split_once-append s t sep h)
