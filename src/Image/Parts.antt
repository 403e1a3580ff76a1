-- ===== src/Image/Parts.antt =====
-- What the two splitting functions return.
use empire.Prelude.{
  ℕ, suc, ◌+◌, ◌≤◌, ◌≡◌, refl, ap, ◌∙◌, true, [], ◌∷◌, ◌++◌, length, drop, arith,
  take-length-append, Option-cases, inl, inr,
}
use empire.Prelude.Text.{Text, Lacks}
use empire.Prelude.Text.Split.{
  contains, last_index, split, contains-Lacks, contains-append_self, contains-drop_append,
  Lacks-append_cons, last_index-Lacks, last_index-append, last_index-append_Lacks,
  last_index-lt-length, split-Lacks, split-append, split-ne-nil, two-le-length-split, join-split,
  join-one,
}
use empire.Image.{slash, colon, at_sign, split_repository, tag_at, parse_repository_tag}

drop_one_suc : (c : ℕ) (s t : Text) → drop (length s + 1) (s ++ c ∷ t) ≡ t
drop_one_suc c [] t = refl
drop_one_suc c (x ∷ s) t =
    let e : suc (length s) + 1 ≡ suc (length s + 1) = omega arith in
    ap (λ n. drop n (x ∷ (s ++ c ∷ t))) e ∙ drop_one_suc c s t

-- A digest follows the first '@'.
pub parse_repository_tag_digest :
    (repo digest : Text)
    → Lacks at_sign repo
    → Lacks at_sign digest
    → parse_repository_tag (repo ++ at_sign ∷ digest) ≡ (repo, digest)
unfolding parse_repository_tag
parse_repository_tag_digest repo digest r d =
    rw (contains-append_self repo digest at_sign, split-append repo digest at_sign r)
      (rw (split-Lacks digest at_sign d))

parse_repository_tag_no_digest :
    (s : Text) → Lacks at_sign s → parse_repository_tag s ≡ tag_at s (last_index s colon)
unfolding parse_repository_tag
parse_repository_tag_no_digest s h = rw (contains-Lacks s at_sign h)

-- A tag follows the last ':', if no '/' does.
pub parse_repository_tag_tag :
    (repo tag : Text)
    → Lacks at_sign repo
    → Lacks at_sign tag
    → Lacks colon tag
    → Lacks slash tag
    → parse_repository_tag (repo ++ colon ∷ tag) ≡ (repo, tag)
unfolding tag_at
parse_repository_tag_tag repo tag r t c s =
    parse_repository_tag_no_digest (repo ++ colon ∷ tag)
      (Lacks-append_cons repo tag at_sign colon r (omega arith) t)
    ∙ rw (last_index-append repo tag colon c) (
        rw (
          drop_one_suc colon repo tag,
          contains-Lacks tag slash s,
          take-length-append repo (colon ∷ tag),
        ))

-- A ':' before a '/', such as that of a port, starts no tag.
pub parse_repository_tag_port :
    (registry path : Text)
    → Lacks at_sign registry
    → Lacks at_sign path
    → Lacks colon path
    → parse_repository_tag (registry ++ slash ∷ path) ≡ (registry ++ slash ∷ path, [])
unfolding tag_at
parse_repository_tag_port registry path r p c =
    parse_repository_tag_no_digest (registry ++ slash ∷ path)
      (Lacks-append_cons registry path at_sign slash r (omega arith) p)
    ∙ rw (last_index-append_Lacks registry (slash ∷ path) colon (omega arith, c))
        (elim (Option-cases (last_index registry colon)) [
          | inl e ↦ rw e
          | inr (n, e) ↦ rw (
            e,
            contains-drop_append (n + 1) registry path slash
                (omega (arith, last_index-lt-length registry colon e)),
          )
        ])

pub parse_repository_tag_plain :
    (s : Text) → Lacks at_sign s → Lacks colon s → parse_repository_tag s ≡ (s, [])
unfolding tag_at
parse_repository_tag_plain s a c =
    parse_repository_tag_no_digest s a ∙ rw (last_index-Lacks s colon c)

-- A path with one '/' at most belongs to no registry.
pub split_repository_short : (s : Text) → length (split s slash) ≤ 2 → split_repository s ≡ ([], s)
unfolding split_repository
split_repository_short s h = ground (
  arith,
  join-split s slash,
  split-ne-nil s slash,
  join-one (split s slash) (slash ∷ []) (split-ne-nil s slash),
)

-- With two '/' or more, the registry is what stands before the first.
pub split_repository_long :
    (registry path : Text)
    → Lacks slash registry
    → contains path slash ≡ true
    → split_repository (registry ++ slash ∷ path) ≡ (registry, path)
unfolding split_repository
split_repository_long registry path h c =
    rw (split-append registry path slash h)
      (ground (arith, two-le-length-split path slash c, join-split path slash))
