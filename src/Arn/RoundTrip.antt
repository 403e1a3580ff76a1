-- ===== src/Arn/RoundTrip.antt =====
-- Parsing and printing of ARNs.
use empire.Prelude.{ℕ, suc, ◌≡◌, ap, Option, [], ◌∷◌, ◌++◌, arith, ok}
use empire.Prelude.Text.{Text, Lacks, codes, text_eq}
use empire.Prelude.Text.Split.{join, split_once-append}
use empire.Arn.{Arn, parse, from_parts, split_n, text}

-- The fields before the resource have no colon.
abbrev pub IsPlain : Arn → Type 0
IsPlain a = Lacks b':' a.service × Lacks b':' a.region × Lacks b':' a.account

split_n-cons :
    (n : ℕ) (s t : Text) (sep : ℕ)
    → Lacks sep s
    → split_n (suc (suc n)) (s ++ sep ∷ t) sep ≡ s ∷ split_n (suc n) t sep
unfolding split_n
split_n-cons n s t sep h =
    let e = split_once-append s t sep h in
    rw (split_n, e) (ap (λ (r : Text × Option Text). r.0 ∷ split_n (suc n) t sep) e)

from_parts-arn :
    (a : Arn)
    → a.prefix ≡ codes "arn"
    → a.aws ≡ codes "aws"
    → from_parts (a.prefix ∷ a.aws ∷ a.service ∷ a.region ∷ a.account ∷ a.resource ∷ []) ≡ ok a
unfolding from_parts text_eq
from_parts-arn a p w = rw (p, w)

-- The text of an ARN is parsed as that ARN, if its first two fields are "arn" and "aws" and its
-- service, its region and its account have no colon.
pub parse-text :
    (a : Arn) → a.prefix ≡ codes "arn" → a.aws ≡ codes "aws" → IsPlain a → parse (text a) ≡ ok a
unfolding parse text join
parse-text a p w (s, r, c) =
    let pp : Lacks b':' a.prefix = rw p (ground arith) in
    let ww : Lacks b':' a.aws = rw w (ground arith) in
    rw
      (
        split_n-cons 4 a.prefix _ b':' pp,
        split_n-cons 3 a.aws _ b':' ww,
        split_n-cons 2 a.service _ b':' s,
        split_n-cons 1 a.region _ b':' r,
        split_n-cons 0 a.account _ b':' c,
      )
      (unfold split_n in from_parts-arn a p w)
