-- ===== src/Ranges/Printed.antt =====
-- A header that is written down and read again.
use empire.Prelude.{
  ℕ, Bool, true, false, not, ◌||◌, Option, none, some, [], ◌∷◌, ◌++◌, ◌≡◌, refl, ap, ◌≢◌, inl, inr,
  All, All-append, arith, ◌==◌, Result, ok, err, Option-cases,
}
use empire.Prelude.Int.{ℤ}
use empire.Prelude.Text.{Text, Lacks, codes, text_eq}
use empire.Prelude.Text.Decimal.{atoi}
use empire.Prelude.Text.Split.{
  split, split-append, split-Lacks, Lacks-append_cons, contains, Lacks-contains,
}
use empire.Ranges.{
  HeaderRange, RangeError, bad_max, is_space, in_cutset, trim_left, trim_right, trim_space,
  sorted_by, limited_by, add_part, add_parts, add_groups, parse_range,
}

-- A byte with no meaning of its own in the header
unfoldable pub is_plain : ℕ → Bool
unfolding is_space in_cutset
is_plain c = not (c == b',' || c == b';' || c == b'=' || is_space c || in_cutset c)

abbrev pub IsWord : Text → Type 0
IsWord s = (s ≢ []) × All (λ c. is_plain c ≡ true) s

-- `sort ..; max=m, order=o`
unfoldable pub print_range : Text → Text → Text → Text
print_range s m o =
    ((s ++ codes " ..") ++ b';' ∷ (codes " max" ++ b'=' ∷ m)) ++ b',' ∷ (codes " order" ++ b'=' ∷ o)

trim_right-plain : (p : ℕ → Bool) (s : Text) → All (λ c. p c ≡ false) s → trim_right p s ≡ s
unfolding trim_right
trim_right-plain p [] h = refl
trim_right-plain p (c ∷ s) (n, h) = ground (arith, trim_right-plain p s h)

trim_right-append :
    (p : ℕ → Bool) (s t : Text)
    → All (λ c. p c ≡ false) s
    → trim_right p t ≡ []
    → trim_right p (s ++ t) ≡ s
unfolding trim_right
trim_right-append p [] t h e = e
trim_right-append p (c ∷ s) t (n, h) e = ground (arith, trim_right-append p s t h e)

trim_left-plain : (p : ℕ → Bool) (s : Text) → All (λ c. p c ≡ false) s → trim_left p s ≡ s
unfolding trim_left
trim_left-plain p [] h = refl
trim_left-plain p (c ∷ s) (n, h) = ground arith

plain_spaces : (s : Text) → All (λ c. is_plain c ≡ true) s → All (λ c. is_space c ≡ false) s
unfolding is_plain
plain_spaces [] h = tt
plain_spaces (c ∷ s) (n, h) = (ground arith, plain_spaces s h)

plain_cutset : (s : Text) → All (λ c. is_plain c ≡ true) s → All (λ c. in_cutset c ≡ false) s
unfolding is_plain
plain_cutset [] h = tt
plain_cutset (c ∷ s) (n, h) = (ground arith, plain_cutset s h)

plain-Lacks : (b : ℕ) (s : Text) → is_plain b ≡ false → All (λ c. is_plain c ≡ true) s → Lacks b s
plain-Lacks b [] e h = tt
plain-Lacks b (c ∷ s) e (n, h) = (λ same. cc, plain-Lacks b s e h)

trim_space-plain : (s : Text) → All (λ c. is_plain c ≡ true) s → trim_space s ≡ s
unfolding trim_space
trim_space-plain s h =
    rw (trim_left-plain is_space s (plain_spaces s h))
      (trim_right-plain is_space s (plain_spaces s h))

abbrev no_header : HeaderRange
no_header = record { sort = none; max = none; order = none }

not_blank : (c : ℕ) (t : Text) → is_plain c ≡ true → text_eq (c ∷ t) (codes " ") ≡ false
unfolding text_eq is_plain is_space
not_blank c t h = ground arith

sorted_by-plain :
    (s : Text)
    → IsWord s
    → sorted_by no_header (s ++ codes " ..") ≡ record { sort = some s; max = none; order = none }
unfolding sorted_by in_cutset
sorted_by-plain [] (ne, h) = absurd (ne refl)
sorted_by-plain (c ∷ s) (ne, h) =
    let trimmed : trim_right in_cutset (c ∷ s ++ codes " ..") ≡ c ∷ s =
      trim_right-append in_cutset (c ∷ s) (codes " ..") (plain_cutset (c ∷ s) h)
        (unfold trim_right in refl) in
    let spaces : trim_space (c ∷ s) ≡ c ∷ s = trim_space-plain (c ∷ s) h in
    rw (not_blank c (s ++ codes " ..") h.0, trimmed, spaces)

lacks : (b : ℕ) (t : Text) → contains t b ≡ false → Lacks b t
lacks b t e = Lacks-contains t b e

sort-Lacks :
    (b : ℕ) (s : Text)
    → is_plain b ≡ false
    → contains (codes " ..") b ≡ false
    → IsWord s
    → Lacks b (s ++ codes " ..")
sort-Lacks b s e h w =
    All-append (λ c. c ≢ b) s (codes " ..") (plain-Lacks b s e w.1) (lacks b (codes " ..") h)

add_sort :
    (s : Text)
    → IsWord s
    → add_part no_header (split (s ++ codes " ..") b'=')
      ≡ ok (record { sort = some s; max = none; order = none })
unfolding add_part contains is_plain is_space in_cutset
add_sort s w =
    rw (split-Lacks (s ++ codes " ..") b'=' (sort-Lacks b'=' s refl refl w))
      (ap ok (sorted_by-plain s w))

add_max :
    (r : HeaderRange) (m : Text)
    → IsWord m
    → add_part r (split (codes " max" ++ b'=' ∷ m) b'=') ≡ limited_by r (atoi m)
unfolding add_part trim_space text_eq contains is_plain is_space in_cutset
add_max r m w = rw (
  split-append (codes " max") m b'=' (lacks b'=' (codes " max") refl),
  split-Lacks m b'=' (plain-Lacks b'=' m refl w.1),
  trim_space-plain m w.1,
)

add_order :
    (r : HeaderRange) (o : Text)
    → IsWord o
    → add_part r (split (codes " order" ++ b'=' ∷ o) b'=') ≡ ok (record r { order = some o })
unfolding add_part trim_space text_eq contains is_plain is_space in_cutset
add_order r o w = rw (
  split-append (codes " order") o b'=' (lacks b'=' (codes " order") refl),
  split-Lacks o b'=' (plain-Lacks b'=' o refl w.1),
  trim_space-plain o w.1,
)

group_of_two :
    (s m : Text)
    → IsWord s
    → IsWord m
    → split ((s ++ codes " ..") ++ b';' ∷ (codes " max" ++ b'=' ∷ m)) b';'
      ≡ (s ++ codes " ..") ∷ (codes " max" ++ b'=' ∷ m) ∷ []
unfolding contains is_plain is_space in_cutset
group_of_two s m hs hm = rw (
  split-append (s ++ codes " ..") (codes " max" ++ b'=' ∷ m) b';' (sort-Lacks b';' s refl refl hs),
  split-Lacks (codes " max" ++ b'=' ∷ m) b';' (
      Lacks-append_cons (codes " max") m b';' b'=' (lacks b';' (codes " max") refl) (omega arith)
        (plain-Lacks b';' m refl hm.1)),
)

-- The sort field and the limit, and then the order.
first_group :
    (s m : Text) (x : Option ℤ)
    → IsWord s
    → IsWord m
    → atoi m ≡ x
    → add_parts no_header (split ((s ++ codes " ..") ++ b';' ∷ (codes " max" ++ b'=' ∷ m)) b';')
      ≡ limited_by (record { sort = some s; max = none; order = none }) x
unfolding add_parts limited_by
first_group s m none hs hm e = rw (group_of_two s m hs hm, add_sort s hs, add_max _ m hm, e)
first_group s m (some n) hs hm e = rw (group_of_two s m hs hm, add_sort s hs, add_max _ m hm, e)

second_group :
    (r : HeaderRange) (o : Text)
    → IsWord o
    → add_parts r (split (codes " order" ++ b'=' ∷ o) b';') ≡ ok (record r { order = some o })
unfolding add_parts contains is_plain is_space in_cutset
second_group r o w = rw (
  split-Lacks (codes " order" ++ b'=' ∷ o) b';' (
      Lacks-append_cons (codes " order") o b';' b'=' (lacks b';' (codes " order") refl)
        (omega arith) (plain-Lacks b';' o refl w.1)),
  add_order r o w,
)

two_groups :
    (s m o : Text)
    → IsWord s
    → IsWord m
    → IsWord o
    → split (print_range s m o) b','
      ≡ ((s ++ codes " ..") ++ b';' ∷ (codes " max" ++ b'=' ∷ m))
        ∷ (codes " order" ++ b'=' ∷ o)
        ∷ []
unfolding print_range contains is_plain is_space in_cutset
two_groups s m o hs hm ho = rw (
  split-append ((s ++ codes " ..") ++ b';' ∷ (codes " max" ++ b'=' ∷ m))
      (codes " order" ++ b'=' ∷ o) b','
      (Lacks-append_cons (s ++ codes " ..") (codes " max" ++ b'=' ∷ m) b',' b';'
        (sort-Lacks b',' s refl refl hs) (omega arith)
        (Lacks-append_cons (codes " max") m b',' b'=' (lacks b',' (codes " max") refl) (omega arith)
          (plain-Lacks b',' m refl hm.1))),
  split-Lacks (codes " order" ++ b'=' ∷ o) b',' (
      Lacks-append_cons (codes " order") o b',' b'=' (lacks b',' (codes " order") refl)
        (omega arith) (plain-Lacks b',' o refl ho.1)),
)

-- Where the three texts are words, without bytes that mean something in a header: the header
-- `sort ..; max=m, order=o` is read as the range with this field, this limit and this order, and is refused
-- where the limit is no number.
pub parse_range-printed :
    (s m o : Text)
    → IsWord s
    → IsWord m
    → IsWord o
    → parse_range (print_range s m o) ≡ elim (atoi m) as (λ x. Result RangeError HeaderRange) [
      | none ↦ err bad_max
      | some n ↦ ok (record { sort = some s; max = some n; order = some o })
    ]
unfolding parse_range add_groups limited_by
parse_range-printed s m o hs hm ho = elim (Option-cases (atoi m)) [
  | inl e ↦ rw (two_groups s m o hs hm ho, first_group s m none hs hm e, e)
  | inr (n, e) ↦
      rw (two_groups s m o hs hm ho, first_group s m (some n) hs hm e, second_group _ o ho, e)
]
