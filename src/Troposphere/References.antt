-- ===== src/Troposphere/References.antt =====
-- The names that a value of a template refers to, and the names that a template declares.
use empire.Prelude.{◌||◌, List, [], ◌∷◌, ◌++◌, if◌then◌else◌}
use empire.Prelude.Text.{Text, codes, text_eq}
use empire.Troposphere.{Value, Items, Fields, str, array, object, nil, cons, end, field}

-- The first text of a list, or the text itself.
unfoldable pub target : Value → List Text
target (str s) = s ∷ []
target (array (cons (str s) vs)) = s ∷ []
target _ = []

-- What an object refers to itself: `Ref` and `Fn::GetAtt` are objects of one field.
unfoldable pub intrinsic : Fields → List Text
intrinsic (field k v end) =
    if text_eq k (codes "Ref") || text_eq k (codes "Fn::GetAtt") then target v else []
intrinsic _ = []

unfoldable mutual
  pub references : Value → List Text
  references (array vs) = item_references vs
  references (object fs) = intrinsic fs ++ field_references fs
  references _ = []

  pub item_references : Items → List Text
  item_references nil = []
  item_references (cons v vs) = references v ++ item_references vs

  pub field_references : Fields → List Text
  field_references end = []
  field_references (field k v fs) = references v ++ field_references fs
