-- ===== src/Image/RoundTrip.antt =====
-- `Encode` and then `Decode` (pkg/image/image.go).
use empire.Prelude.{
  ℕ, ◌≤◌, ◌≡◌, ◌≢◌, refl, ◌∙◌, ◌⊎◌, inl, inr, true, false, [], ◌∷◌, ◌++◌, length, arith, ok,
  if◌then◌else◌,
}
use empire.Prelude.Text.{Text, Lacks, is_empty}
use empire.Prelude.Text.Split.{contains, split, contains-Lacks, Lacks-append_cons}
use empire.Image.{
  Image, slash, colon, at_sign, split_repository, parse_repository_tag, assemble, decode,
  encode_repo, encode,
}
use empire.Image.Parts.{
  parse_repository_tag_digest, parse_repository_tag_tag, parse_repository_tag_port,
  parse_repository_tag_plain, split_repository_short, split_repository_long,
}

-- A reference that its print determines: the path is named and free of separators, a registry goes
-- with a path of two segments or more and no registry with two at most, and a tag excludes a digest.
pub record IsReference (i : Image) : Type 0 where
  pub named : i.repository ≢ []
  pub repository_at : Lacks at_sign i.repository
  pub repository_colon : Lacks colon i.repository
  pub registry_at : Lacks at_sign i.registry
  pub registry_slash : Lacks slash i.registry
  pub place :
      (i.registry ≡ []) × (length (split i.repository slash) ≤ 2)
      ⊎ (i.registry ≢ []) × (contains i.repository slash ≡ true)
  pub reference :
      (i.tag ≡ []) × (i.digest ≡ [])
      ⊎ (i.tag ≢ []) × Lacks at_sign i.tag × Lacks colon i.tag × Lacks slash i.tag × (i.digest ≡ [])
      ⊎ (i.tag ≡ []) × Lacks at_sign i.digest × (contains i.digest colon ≡ true)

-- The part of the print that follows the path.
abbrev suffix : Image → Text
suffix i =
    if is_empty i.digest then (if is_empty i.tag then [] else colon ∷ i.tag) else at_sign ∷ i.digest

is_empty-ne_nil : (s : Text) → s ≢ [] → is_empty s ≡ false
is_empty-ne_nil [] h = absurd (h refl)
is_empty-ne_nil (c ∷ s) h = refl

contains-ne_nil : (s : Text) (c : ℕ) → contains s c ≡ true → s ≢ []
unfolding contains
contains-ne_nil [] c h = cc
contains-ne_nil (d ∷ s) c h = ground arith

-- The print of the path has one of two forms.
encode_repo-cases :
    (i : Image)
    → IsReference i
    → (i.registry ≡ []) × (length (split i.repository slash) ≤ 2) × (encode_repo i ≡ i.repository)
      ⊎ (contains i.repository slash ≡ true)
        × (encode_repo i ≡ i.registry ++ (slash ∷ i.repository))
unfolding encode_repo
encode_repo-cases i h = elim (h.place) [
  | inl (e, s) ↦ inl (e, s, rw e)
  | inr (n, s) ↦ inr (s, rw (is_empty-ne_nil i.registry n))
]

split-encode_repo :
    (i : Image) → IsReference i → split_repository (encode_repo i) ≡ (i.registry, i.repository)
split-encode_repo i h = elim (encode_repo-cases i h) [
  | inl (e, s, q) ↦ rw (q, split_repository_short i.repository s) (rw e)
  | inr (s, q) ↦ rw (q, split_repository_long i.registry i.repository h.registry_slash s)
]

parse-encode_repo :
    (i : Image) → IsReference i → parse_repository_tag (encode_repo i) ≡ (encode_repo i, [])
parse-encode_repo i h = elim (encode_repo-cases i h) [
  | inl (e, s, q) ↦
      rw q (parse_repository_tag_plain i.repository h.repository_at h.repository_colon)
  | inr (s, q) ↦ rw q (
      parse_repository_tag_port i.registry i.repository h.registry_at h.repository_at
        h.repository_colon)
]

Lacks-encode_repo : (i : Image) → IsReference i → Lacks at_sign (encode_repo i)
Lacks-encode_repo i h = elim (encode_repo-cases i h) [
  | inl (e, s, q) ↦ rw q h.repository_at
  | inr (s, q) ↦ rw q (
      Lacks-append_cons i.registry i.repository at_sign slash h.registry_at (omega arith)
        h.repository_at)
]

encode_plain : (i : Image) → i.tag ≡ [] → i.digest ≡ [] → encode i ≡ encode_repo i
unfolding encode
encode_plain i t d = ground arith

encode_tag : (i : Image) → i.tag ≢ [] → i.digest ≡ [] → encode i ≡ encode_repo i ++ (colon ∷ i.tag)
unfolding encode
encode_tag i t d = ground arith

encode_digest : (i : Image) → i.digest ≢ [] → encode i ≡ encode_repo i ++ (at_sign ∷ i.digest)
unfolding encode
encode_digest i d = ground arith

decode-parts :
    (s repo tag registry repository : Text)
    → parse_repository_tag s ≡ (repo, tag)
    → split_repository repo ≡ (registry, repository)
    → decode s ≡ assemble (registry, repository) tag
unfolding decode
decode-parts s repo tag registry repository p q = rw (p, q)

assemble_plain :
    (i : Image)
    → i.repository ≢ []
    → i.tag ≡ []
    → i.digest ≡ []
    → assemble (i.registry, i.repository) [] ≡ ok i
unfolding assemble contains
assemble_plain i n t d = ground arith

assemble_tag :
    (i : Image)
    → i.repository ≢ []
    → contains i.tag colon ≡ false
    → i.digest ≡ []
    → assemble (i.registry, i.repository) i.tag ≡ ok i
unfolding assemble
assemble_tag i n t d = ground arith

assemble_digest :
    (i : Image)
    → i.repository ≢ []
    → i.tag ≡ []
    → contains i.digest colon ≡ true
    → assemble (i.registry, i.repository) i.digest ≡ ok i
unfolding assemble
assemble_digest i n t d = ground arith

-- The text of every image that is a reference (`IsReference`) is decoded to that image.
pub decode-encode : (i : Image) → IsReference i → decode (encode i) ≡ ok i
decode-encode i h =
    let split : split_repository (encode_repo i) ≡ (i.registry, i.repository) =
      split-encode_repo i h in
    let at : Lacks at_sign (encode_repo i) = Lacks-encode_repo i h in
    elim (h.reference) [
      | inl (t, d) ↦
          rw (encode_plain i t d)
            (decode-parts _ _ _ _ _ (parse-encode_repo i h) split ∙ assemble_plain i h.named t d)
      | inr (inl (t, a, c, s, d)) ↦ rw (encode_tag i t d) (
          decode-parts _ _ _ _ _ (parse_repository_tag_tag _ _ at a c s) split
          ∙ assemble_tag i h.named (contains-Lacks i.tag colon c) d)
      | inr (inr (t, a, c)) ↦ rw (encode_digest i (contains-ne_nil i.digest colon c)) (
          decode-parts _ _ _ _ _ (parse_repository_tag_digest _ _ at a) split
          ∙ assemble_digest i h.named t c)
    ]
