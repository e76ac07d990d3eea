-- ===== src/Installer/Json.antt =====
-- The values that Python's `json.loads` returns.
use ez_open_pn.Prelude.{
  ℤ, Bool, ◌&&◌, Option, List, [], ◌∷◌, Text, bytes_eq, all, any, if◌then◌else◌,
}
use ez_open_pn.Errors.{Result, ok, err, key_error}

-- A `real` is a float, of which the code only asks what integer it equals.
mutual
  pub data Json : Type 0 where
    null : Json
    boolean : Bool → Json
    integer : ℤ → Json
    real : Option ℤ → Json
    string : Text → Json
    array : Items → Json
    object : Fields → Json

  pub data Items : Type 0 where
    nil : Items
    cons : Json → Items → Items

  pub data Fields : Type 0 where
    end : Fields
    field : Text → Json → Fields → Fields

unfoldable pub items_of : Items → List Json
items_of nil = []
items_of (cons j js) = j ∷ items_of js

unfoldable pub keys_of : Fields → List Text
keys_of end = []
keys_of (field key j rest) = key ∷ keys_of rest

-- `value[key]`. A dictionary holds a key once.
unfoldable pub get : Text → Fields → Result Json
get key end = err key_error
get key (field k j rest) = if bytes_eq k key then ok j else get key rest

abbrev pub member : Text → List Text → Bool
member key keys = any (bytes_eq key) keys

-- `set(value) == keys`.
unfoldable pub has_keys : List Text → Fields → Bool
unfolding keys_of
has_keys keys fields =
    all (λ k. member k keys) (keys_of fields) && all (λ k. member k (keys_of fields)) keys
