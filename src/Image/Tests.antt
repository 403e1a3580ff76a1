-- ===== src/Image/Tests.antt =====
-- Runs of `Decode` and `Encode`, and the theorems at concrete references.
use empire.Prelude.{◌≡◌, ◌≢◌, ◌⊎◌, refl, inl, inr, false, true, [], ok, err, arith}
use empire.Prelude.Text.{Text, codes}
use empire.Prelude.Text.Split.{contains}
use empire.Image.{Image, invalid_image, decode, encode, parse_repository_tag, split_repository}
use empire.Image.RoundTrip.{IsReference, decode-encode}

abbrev acme : Image
acme = record {
  registry = codes "quay.io:443";
  repository = codes "remind101/acme-inc";
  tag = codes "v1";
  digest = [];
}

decode-acme : decode (codes "quay.io:443/remind101/acme-inc:v1") ≡ ok acme
unfolding decode parse_repository_tag split_repository empire.Prelude.Text.Split.split contains
    empire.Prelude.Text.Split.last_index empire.Prelude.Text.Split.join
decode-acme = refl

-- With two segments the first is no registry.
decode_local :
    decode (codes "localhost:5000/foo@sha256:ab")
    ≡ ok (record {
      registry = [];
      repository = codes "localhost:5000/foo";
      tag = [];
      digest = codes "sha256:ab";
    })
unfolding decode parse_repository_tag split_repository empire.Prelude.Text.Split.split contains
    empire.Prelude.Text.Split.join
decode_local = refl

decode_empty : decode (codes ":latest") ≡ err invalid_image
unfolding decode parse_repository_tag split_repository empire.Prelude.Text.Split.split contains
    empire.Prelude.Text.Split.last_index
decode_empty = refl

acme-IsReference : IsReference acme
unfolding contains
acme-IsReference = record {
  named = cc;
  repository_at = omega arith;
  repository_colon = omega arith;
  registry_at = omega arith;
  registry_slash = omega arith;
  place = inr (cc, refl);
  reference = inr (inl (cc, omega arith, omega arith, omega arith, refl));
}

decode-encode_example : decode (encode acme) ≡ ok acme
decode-encode_example = decode-encode acme acme-IsReference
