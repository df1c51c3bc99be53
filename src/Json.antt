-- ===== src/Json.antt =====
-- What the program uses of encoding/json: JSON values as the decoder reads them, decoding into the
-- fields of a struct, and the entries of a `map[string]any`. The text form of JSON is not modelled:
-- a `json.RawMessage` is empty, not JSON, or one value.
use gitactionflow.Base.{Bool, true, false, ◌||◌, Option, none, some, [], ltb, if◌then◌else◌}
use gitactionflow.Base.Int.{ℤ, pos, negsuc}
use gitactionflow.Base.Text.{Text, text_eq, Unicode, equal_fold}

-- `num` is an integer literal, `frac` a number with a fraction or an exponent.
mutual
  pub data Json : Type 0 where
    null : Json
    bool : Bool → Json
    num : ℤ → Json
    frac : Json
    str : Text → Json
    arr : Items → Json
    obj : Fields → Json

  pub data Items : Type 0 where
    nil : Items
    cons : Json → Items → Items

  pub data Fields : Type 0 where
    end : Fields
    field : Text → Json → Fields → Fields

pub data Raw : Type 0 where
  empty invalid : Raw
  value : Json → Raw

-- json.RawMessage(`{}`)
abbrev pub empty_object : Raw
empty_object = value (obj end)

-- json.Valid
abbrev pub is_valid : Raw → Bool
is_valid empty = false
is_valid invalid = false
is_valid (value j) = true

infixl 5 ◌>>=◌
abbrev pub ◌>>=◌ {ℓ κ} : {A : Type ℓ} {B : Type κ} → Option A → (A → Option B) → Option B
none >>= k = none
some a >>= k = k a

-- The entry of a `map[string]T`: of a repeated key the last counts.
unfoldable pub entry : Text → Fields → Option Json
entry k end = none
entry k (field j v rest) = elim (entry k rest) [
  | some w ↦ some w
  | none ↦ if text_eq j k then some v else none
]

-- json.Unmarshal into a map: `null` gives the empty map, and any other non-object is an error.
abbrev pub as_map : Raw → Option Fields
as_map empty = none
as_map invalid = none
as_map (value null) = some end
as_map (value (obj fs)) = some fs
as_map (value (bool _)) = none
as_map (value (num _)) = none
as_map (value frac) = none
as_map (value (str _)) = none
as_map (value (arr _)) = none

-- `v, _ := m[k].(bool)`
abbrev pub as_bool : Option Json → Bool
as_bool (some (bool b)) = b
as_bool _ = false

-- `v, _ := m[k].(string)`
abbrev pub as_string : Option Json → Text
as_string (some (str s)) = s
as_string _ = []

-- Decoding one value into a variable that holds `old`: `null` leaves it, and a value of another
-- type is an error.
abbrev pub string_value : Text → Json → Option Text
string_value old null = some old
string_value old (str s) = some s
string_value old _ = none

abbrev pub bool_value : Bool → Json → Option Bool
bool_value old null = some old
bool_value old (bool b) = some b
bool_value old _ = none

abbrev pub fits_int64 : ℤ → Bool
fits_int64 (pos n) = ltb n 9223372036854775808
fits_int64 (negsuc n) = ltb n 9223372036854775808

abbrev pub int_value : ℤ → Json → Option ℤ
int_value old null = some old
int_value old (num n) = if fits_int64 n then some n else none
int_value old _ = none

module _ ⦃u : Unicode⦄ where
  -- The key of an object names a struct's field exactly or up to case.
  pub names : Text → Text → Bool
  names key name = text_eq key name || equal_fold key name

  -- One field of a struct, decoded from every entry that names it, in order.
  unfoldable pub decode_field {ℓ} :
      {A : Type ℓ} → Text → (A → Json → Option A) → A → Fields → Option A
  unfolding names
  decode_field name decode old end = some old
  decode_field name decode old (field k v rest) =
      elim (if names k name then decode old v else some old) [
        | none ↦ none
        | some new ↦ decode_field name decode new rest
      ]

  -- A struct's field that is itself a struct.
  abbrev pub struct_value {ℓ} : {A : Type ℓ} → (A → Fields → Option A) → A → Json → Option A
  struct_value decode old null = some old
  struct_value decode old (obj fs) = decode old fs
  struct_value decode old _ = none

  -- json.Unmarshal into a struct.
  abbrev pub as_struct {ℓ} : {A : Type ℓ} → (Fields → Option A) → Raw → Option A
  as_struct decode empty = none
  as_struct decode invalid = none
  as_struct decode (value null) = decode end
  as_struct decode (value (obj fs)) = decode fs
  as_struct decode (value _) = none
