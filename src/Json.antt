-- ===== src/Json.antt =====
-- Decoded JSON, as far as the services look into the messages of Safaricom. F is Go's float64, whose
-- operations are parameters. `other` is true or false.
use zyranet_api.Base.{ℕ, Bool, Option, none, some, [], if◌then◌else◌}
use zyranet_api.Int.{ℤ}
use zyranet_api.Text.{Text, text_eq}

mutual
  pub data Json (F : Type 0) : Type 0 where
    text : Text → Json F
    number : F → Json F
    object : Fields F → Json F
    list : Items F → Json F
    null : Json F
    other : Json F

  pub data Fields (F : Type 0) : Type 0 where
    no_fields : Fields F
    field : Text → Json F → Fields F → Fields F

  pub data Items (F : Type 0) : Type 0 where
    no_items : Items F
    item : Json F → Items F → Items F

-- A key that is not there reads as null.
abbrev pub field_of : {F : Type 0} → Text → Fields F → Json F
field_of key no_fields = null
field_of key (field k v rest) = if text_eq k key then v else field_of key rest

-- `v.(map[string]interface{})`.
abbrev pub object_in : {F : Type 0} → Json F → Option (Fields F)
object_in (object o) = some o
object_in (text s) = none
object_in (number n) = none
object_in (list items) = none
object_in null = none
object_in other = none

-- `v.(string)`; anything else reads as the empty string.
abbrev pub string_in : {F : Type 0} → Json F → Text
string_in (text s) = s
string_in (object o) = []
string_in (number n) = []
string_in (list items) = []
string_in null = []
string_in other = []

-- `v.([]interface{})`; anything else reads as no items.
abbrev pub items_in : {F : Type 0} → Json F → Items F
items_in (list items) = items
items_in (text s) = no_items
items_in (object o) = no_items
items_in (number n) = no_items
items_in null = no_items
items_in other = no_items

pub record FloatOps (F : Type 0) : Type 0 where
  pub zero_float : F
  pub is_zero : F → Bool
  pub scan : Text → Option F
  pub whole : F → Text

-- What the amounts and the codes of an STK push need besides.
pub record AmountOps (F : Type 0) : Type 0 where
  pub floats : FloatOps F
  pub is_positive : F → Bool
  pub is_code : F → ℕ → Bool
  -- Less than the whole shillings of an amount in hundredths, by more than a tenth of a cent.
  pub is_short_of : F → ℤ → Bool
  -- As a decimal(10,2) column stores it.
  pub hundredths : F → ℤ
  pub two_places : F → Text
