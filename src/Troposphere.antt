-- ===== src/Troposphere.antt =====
-- CloudFormation templates as Go values (pkg/troposphere). A value of type `interface{}` is a JSON
-- value, with `null` for nil.
pub mod Builder
pub mod References
pub mod Closed
pub mod Rules
use empire.Prelude.{Bool, Option, none, some, List, [], ◌∷◌, Result, ok, err}
use empire.Prelude.Int.{ℤ}
use empire.Prelude.Text.{Text, codes}
use empire.Prelude.Dict.{Dict, lookup, insert}

mutual
  pub data Value : Type 0 where
    null : Value
    str : Text → Value
    num : ℤ → Value
    bool : Bool → Value
    array : Items → Value
    object : Fields → Value

  pub data Items : Type 0 where
    nil : Items
    cons : Value → Items → Items

  pub data Fields : Type 0 where
    end : Fields
    field : Text → Value → Fields → Fields

abbrev pub items : List Value → Items
items [] = nil
items (v ∷ vs) = cons v (items vs)

abbrev pub fields : List (Text × Value) → Fields
fields [] = end
fields ((k, v) ∷ m) = field k v (fields m)

abbrev pub list_of : List Value → Value
list_of vs = array (items vs)

-- `map[string]interface{}{k: v, ...}`
abbrev pub map_of : List (Text × Value) → Value
map_of m = object (fields m)

-- `Ref(ref)`
unfoldable pub ref : Text → Value
ref name = map_of ((codes "Ref", str name) ∷ [])

-- `GetAtt(ref, attr)`
unfoldable pub get_att : Text → Text → Value
get_att name attr = map_of ((codes "Fn::GetAtt", list_of (str name ∷ str attr ∷ [])) ∷ [])

-- `Equals(thing, value)`
unfoldable pub equals : Value → Value → Value
equals thing value = map_of ((codes "Fn::Equals", list_of (thing ∷ value ∷ [])) ∷ [])

-- `Join(delimiter, things...)`
unfoldable pub join : Text → List Value → Value
join delimiter things =
    map_of ((codes "Fn::Join", list_of (str delimiter ∷ list_of things ∷ [])) ∷ [])

pub record Parameter : Type 0 where
  pub parameter_type : Value
  pub description : Value
  pub default : Value

pub record Output : Type 0 where
  pub value : Value

pub record Resource : Type 0 where
  pub condition : Value
  pub depends_on : Value
  pub properties : Value
  pub resource_type : Value
  pub version : Value

pub record NamedResource : Type 0 where
  pub name : Text
  pub resource : Resource

pub record Template : Type 0 where
  pub conditions : Dict Value
  pub outputs : Dict Output
  pub parameters : Dict Parameter
  pub resources : Dict Resource

-- `NewTemplate()`
unfoldable pub new_template : Template
new_template = record { conditions = []; outputs = []; parameters = []; resources = [] }

-- Why no template is built: the text of an error, or a panic.
pub data BuildError : Type 0 where
  failed : Text → BuildError
  already_defined : Text → BuildError
  out_of_range : BuildError
  nil_dereference : BuildError

-- `t.Resources[name] = resource`
unfoldable pub put_resource : Text → Resource → Template → Template
put_resource name resource t = record t { resources = insert name resource t.resources }

unfoldable pub if_absent : Option Resource → NamedResource → Template → Result BuildError Template
if_absent (some found) r t = err (already_defined r.name)
if_absent none r t = ok (put_resource r.name r.resource t)

-- `t.AddResource(resource)`, which panics
unfoldable pub add_resource : NamedResource → Template → Result BuildError Template
add_resource r t = if_absent (lookup r.name t.resources) r t

-- A resource with a type and properties alone.
abbrev pub plain_resource : Text → Value → Resource
plain_resource kind properties = record {
  condition = null;
  depends_on = null;
  properties = properties;
  resource_type = str kind;
  version = null;
}
