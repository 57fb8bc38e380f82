-- ===== src/Json.antt =====
-- JSON values as the storage code of src/state/workflow-schema.ts sees them, and JavaScript's object
-- operations on them: reading a property, assigning one, `Object.assign`.
pub mod Objects
use dsh_codex_workflow.Common.{
  ℕ, String, Bool, true, false, Option, none, some, leb, ◌&&◌, if◌then◌else◌, str_eq,
}

-- A number is a natural number, a negative integer `-(n + 1)`, or another one kept as its digits.
pub data Number : Type 0 where
  whole : ℕ → Number
  below_zero : ℕ → Number
  fraction : String → Number

mutual
  pub data Json : Type 0 where
    null : Json
    bool : Bool → Json
    num : Number → Json
    str : String → Json
    arr : Items → Json
    obj : Fields → Json

  pub data Items : Type 0 where
    nil : Items
    item : Json → Items → Items

  pub data Fields : Type 0 where
    empty : Fields
    field : String → Json → Fields → Fields

-- `fields[key]`, `none` for `undefined`.
unfoldable pub lookup : String → Fields → Option Json
lookup k empty = none
lookup k (field n v rest) = if str_eq n k then some v else lookup k rest

-- `fields[key] = value`.
unfoldable pub put : String → Json → Fields → Fields
put k v empty = field k v empty
put k v (field n w rest) =
    let rest' = put k v rest in if str_eq n k then field n v rest else field n w rest'

-- `Object.assign(target, source)`.
unfoldable pub assign : Fields → Fields → Fields
assign target empty = target
assign target (field n v rest) = assign (put n v target) rest

-- `typeof value` and `Array.isArray(value)`.
abbrev pub is_object : Json → Bool
is_object (obj _) = true
is_object _ = false

abbrev pub is_array : Json → Bool
is_array (arr _) = true
is_array _ = false

abbrev pub is_string : Json → Bool
is_string (str _) = true
is_string _ = false

abbrev pub is_bool : Json → Bool
is_bool (bool _) = true
is_bool _ = false

-- `Number.isSafeInteger(value) && value >= 1`.
abbrev pub is_positive_safe : Json → Bool
is_positive_safe (num (whole n)) = leb 1 n && leb n 9007199254740991
is_positive_safe _ = false

-- `Number.isInteger(value)`.
abbrev pub is_integer : Number → Bool
is_integer (fraction _) = false
is_integer _ = true

-- The properties of `value` if it is an object, and none otherwise.
abbrev pub object : Json → Fields
object (obj fs) = fs
object _ = empty

-- The same of a property that may be `undefined`.
abbrev pub object_of : Option Json → Fields
object_of none = empty
object_of (some v) = object v

-- `value === undefined || test(value)`.
abbrev pub optional : (Json → Bool) → Option Json → Bool
optional test none = true
optional test (some v) = test v

-- `value !== undefined && test(value)`.
abbrev pub present : (Json → Bool) → Option Json → Bool
present test none = false
present test (some v) = test v

-- Names are not repeated, as in a value that `JSON.parse` makes.
abbrev pub Distinct : Fields → Type 0
Distinct empty = Unit
Distinct (field n v rest) = (Path (Option Json) (lookup n rest) none) × Distinct rest
