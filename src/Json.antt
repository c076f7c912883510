-- ===== src/Json.antt =====
-- Values of encoding/json in a Go `any`, and the type assertions on them.
use accountable.Prelude.{String, Bool, List, [], ◌∷◌, Option, none, some}
use accountable.Maps.{Dict}

-- A number is the text that fmt prints for its float64 with %v.
mutual
  pub data Json : Type 0 where
    null : Json
    bool : Bool → Json
    number : String → Json
    str : String → Json
    arr : Items → Json
    obj : Fields → Json

  pub data Items : Type 0 where
    nil : Items
    item : Json → Items → Items

  pub data Fields : Type 0 where
    end : Fields
    field : String → Json → Fields → Fields

abbrev pub items : Items → List Json
items nil = []
items (item v vs) = v ∷ items vs

abbrev pub fields : Fields → Dict Json
fields end = []
fields (field k v vs) = (k, v) ∷ fields vs

-- value, ok := x.(bool), where x is the zero value of `any` if its key is missing
abbrev pub as_bool : Option Json → Option Bool
as_bool (some (bool b)) = some b
as_bool _ = none

-- value, ok := x.(string)
abbrev pub as_string : Option Json → Option String
as_string (some (str s)) = some s
as_string _ = none

-- value, _ := x.([]any), a nil slice for any other type
abbrev pub as_array : Option Json → List Json
as_array (some (arr vs)) = items vs
as_array _ = []

-- value, _ := x.(map[string]any), a nil map for any other type
abbrev pub as_object : Json → Dict Json
as_object (obj vs) = fields vs
as_object _ = []

-- value, _ := x.(string), "" for any other type
abbrev pub string_or_empty : Option Json → String
string_or_empty (some (str s)) = s
string_or_empty _ = ""
