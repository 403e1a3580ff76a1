-- ===== src/Image/Rejects.antt =====
-- What `Decode` refuses, and what it never returns.
use empire.Prelude.{◌≡◌, ◌≢◌, ◌↔◌, ◌⊎◌, true, false, [], arith, ok, err}
use empire.Prelude.Text.{Text}
use empire.Prelude.Text.Split.{contains}
use empire.Image.{
  Image, invalid_image, colon, split_repository, parse_repository_tag, assemble, decode,
}

-- A text is refused exactly when the path before its tag or digest is empty.
pub decode-eq-err :
    (s : Text)
    → (decode s ≡ err invalid_image) ↔ ((split_repository (parse_repository_tag s).0).1 ≡ [])
unfolding decode assemble
decode-eq-err s = ground arith

-- A decoded image has a repository, and a tag or a digest but not both; a digest has a ':', and a tag
-- has none.
pub decode_sound :
    (s : Text) (i : Image)
    → decode s ≡ ok i
    → (i.repository ≢ [])
      × ((i.tag ≡ []) ⊎ (i.digest ≡ []))
      × (contains i.tag colon ≡ false)
      × ((i.digest ≡ []) ⊎ (contains i.digest colon ≡ true))
unfolding decode assemble contains
decode_sound s i h = ground arith
