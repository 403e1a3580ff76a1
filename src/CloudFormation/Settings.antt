-- ===== src/CloudFormation/Settings.antt =====
-- The settings that `Validate` accepts (scheduler/cloudformation/template.go).
use empire.Prelude.{
  ◌≡◌, refl, ◌≢◌, ◌↔◌, Bool, true, false, Option, none, some, List, [], ◌∷◌, arith, All,
}
use mathlib.Core.Bool.{true≢false}
use empire.Prelude.Text.{Text, is_empty}
use empire.CloudFormation.{EmpireTemplate, validate, checks, required, is_none, no_items}

-- Everything that the builder needs is given.
pub record Complete (t : EmpireTemplate) : Type 0 where
  pub vpc : t.vpc_id ≢ []
  pub cluster : t.cluster ≢ []
  pub role : t.service_role ≢ []
  pub zone : t.hosted_zone ≢ none
  pub internal_group : t.internal_security_group_id ≢ []
  pub external_group : t.external_security_group_id ≢ []
  pub internal_subnets : t.internal_subnet_ids ≢ []
  pub external_subnets : t.external_subnet_ids ≢ []
  pub topic : t.custom_resources_topic ≢ []

required-none :
    (checks : List (Bool × Text))
    → (required checks ≡ none) ↔ All (λ (c : Bool × Text). c.0 ≡ false) checks
unfolding required
required-none [] = ground arith
required-none ((true, n) ∷ checks) = (λ e. cc, λ h. absurd (true≢false h.0))
required-none ((false, n) ∷ checks) =
    let (f, g) = required-none checks in (λ e. (refl, f e), λ h. g h.1)

is_empty_iff : (s : Text) → (is_empty s ≡ false) ↔ (s ≢ [])
is_empty_iff [] = ground arith
is_empty_iff (c ∷ s) = ground arith

is_none_iff : {A : Type 0} (o : Option A) → (is_none o ≡ false) ↔ (o ≢ none)
unfolding is_none
is_none_iff none = ground arith
is_none_iff (some a) = ground arith

no_items_iff : (ss : List Text) → (no_items ss ≡ false) ↔ (ss ≢ [])
unfolding no_items
no_items_iff [] = ground arith
no_items_iff (s ∷ ss) = ground arith

-- `Validate` finds no fault exactly if all nine settings are given: no text is empty, no list of
-- subnets is empty, and there is a hosted zone.
pub validate-Complete : (t : EmpireTemplate) → (validate t ≡ none) ↔ Complete t
unfolding validate checks
validate-Complete t = (sound, complete)
  where
    sound : validate t ≡ none → Complete t
    sound e =
        let (a, (b, (c, (d, (f, (g, (h, (i, (j, _))))))))) = (required-none (checks t)).0 e in
        record {
          vpc = (is_empty_iff t.vpc_id).0 a;
          cluster = (is_empty_iff t.cluster).0 b;
          role = (is_empty_iff t.service_role).0 c;
          zone = (is_none_iff t.hosted_zone).0 d;
          internal_group = (is_empty_iff t.internal_security_group_id).0 f;
          external_group = (is_empty_iff t.external_security_group_id).0 g;
          internal_subnets = (no_items_iff t.internal_subnet_ids).0 h;
          external_subnets = (no_items_iff t.external_subnet_ids).0 i;
          topic = (is_empty_iff t.custom_resources_topic).0 j;
        }

    complete : Complete t → validate t ≡ none
    complete h = (required-none (checks t)).1 (
      (is_empty_iff t.vpc_id).1 h.vpc,
      (
        (is_empty_iff t.cluster).1 h.cluster,
        (
          (is_empty_iff t.service_role).1 h.role,
          (
            (is_none_iff t.hosted_zone).1 h.zone,
            (
              (is_empty_iff t.internal_security_group_id).1 h.internal_group,
              (
                (is_empty_iff t.external_security_group_id).1 h.external_group,
                (
                  (no_items_iff t.internal_subnet_ids).1 h.internal_subnets,
                  (
                    (no_items_iff t.external_subnet_ids).1 h.external_subnets,
                    ((is_empty_iff t.custom_resources_topic).1 h.topic, tt),
                  ),
                ),
              ),
            ),
          ),
        ),
      ),
    )
