-- ===== src/Image.antt =====
-- Docker image references (pkg/image/image.go): `Decode` and `Encode`. The proofs are in the
-- modules below.
pub mod Parts
pub mod RoundTrip
pub mod Rejects
mod Tests
use empire.Prelude.{
  ℕ, ◌+◌, Bool, true, false, Option, none, some, List, [], ◌∷◌, ◌++◌, length, get_or, take, drop,
  ltb, ◌==◌, if◌then◌else◌, Result, ok, err,
}
use empire.Prelude.Text.{Text, is_empty}
use empire.Prelude.Text.Split.{contains, last_index, split, join}

pub data ImageError : Type 0 where
  invalid_image : ImageError

pub record Image : Type 0 where
  pub registry : Text
  pub repository : Text
  pub tag : Text
  pub digest : Text

-- The bytes '/', ':' and '@'.
abbrev pub slash : ℕ
slash = b'/'

abbrev pub colon : ℕ
colon = b':'

abbrev pub at_sign : ℕ
at_sign = b'@'

-- The registry and the path. `Split` returns at least one part.
unfoldable pub split_repository : Text → Text × Text
split_repository full_repo =
    let parts = split full_repo slash in
    if ltb (length parts) 2
    then ([], get_or parts 0 [])
    else if length parts == 2
    then ([], join parts (slash ∷ []))
    else (get_or parts 0 [], join (drop 1 parts) (slash ∷ []))

tag_at : Text → Option ℕ → Text × Text
tag_at repos none = (repos, [])
tag_at repos (some n) =
    let tag = drop (n + 1) repos in if contains tag slash then (repos, []) else (take n repos, tag)

-- The repository, and the tag or digest. Where there is an '@', `Split` returns two parts or more.
unfoldable pub parse_repository_tag : Text → Text × Text
unfolding tag_at
parse_repository_tag repos =
    let parts = split repos at_sign in
    if contains repos at_sign
    then (get_or parts 0 [], get_or parts 1 [])
    else tag_at repos (last_index repos colon)

assemble : Text × Text → Text → Result ImageError Image
assemble (registry, repository) tag =
    let image : Image = record {
      registry = registry;
      repository = repository;
      tag = if contains tag colon then [] else tag;
      digest = if contains tag colon then tag else [];
    } in
    if is_empty repository then err invalid_image else ok image

unfoldable pub decode : Text → Result ImageError Image
unfolding assemble
decode s = let (repo, tag) = parse_repository_tag s in assemble (split_repository repo) tag

unfoldable pub encode_repo : Image → Text
encode_repo image =
    if is_empty image.registry
    then image.repository
    else image.registry ++ (slash ∷ image.repository)

unfoldable pub encode : Image → Text
encode image =
    if is_empty image.digest
    then (if is_empty image.tag
        then encode_repo image
        else encode_repo image ++ (colon ∷ image.tag))
    else encode_repo image ++ (at_sign ∷ image.digest)
