-- ===== src/Spaces/Convert.antt =====
-- The language's conversions of a value, `String(v)`, `Number(v)` and `Boolean(v)`, and the reading of
-- a key. A conversion to a text throws, here none, on an object with a key `toString`, as it is no
-- function.
use Prim.Native.String.{◌++◌ as concat}
use gomer.Base.{Bool, true, false, not, Option, none, some, is_some, List, [], ◌∷◌, if◌then◌else◌}
use gomer.Base.Text.{String, str_eq}
use gomer.Spaces.Json.{
  Value, null, bool, num, str, arr, obj, native, Items, nil, cons, Props, own, Numbers,
}
use gomer.Spaces.Checks.{has}

-- The functions that every object inherits, of the names that a field may have.
abbrev pub inherited : List String
inherited =
    "constructor" ∷ "hasOwnProperty" ∷ "isPrototypeOf" ∷ "propertyIsEnumerable" ∷ "toLocaleString"
    ∷ "toString" ∷ "valueOf" ∷ []

abbrev pub own_or {ℓ} : {A : Type ℓ} → Option A → Option A → Option A
own_or none later = later
own_or (some a) later = some a

module _ {N : Type 0} where
  -- `object[key]`
  unfoldable pub read : String → Props N → Option (Value N)
  unfolding own has
  read k ps = own_or (own k ps) (if has k inherited then some (native k) else none)

abbrev function_name : String → String
function_name k = if str_eq k "constructor" then "Object" else k

abbrev pub then_text : Option String → (String → Option String) → Option String
then_text none f = none
then_text (some s) f = f s

module _ (numbers : Numbers) where
  open numbers use {Num, number_of, show_number, is_zero, zero_number, one_number}

  abbrev item_text : Value Num → Option String → Option String
  item_text null t = some ""
  item_text _ t = t

  unfoldable mutual
    -- `String(value)`
    pub to_text : Value Num → Option String
    to_text null = some "null"
    to_text (bool true) = some "true"
    to_text (bool false) = some "false"
    to_text (num n) = some (show_number n)
    to_text (str s) = some s
    to_text (arr vs) = first_text vs
    to_text (obj ps) = if is_some (own "toString" ps) then none else some "[object Object]"
    to_text (native k) = some (concat "function " (concat (function_name k) "() { [native code] }"))

    -- An array's members, joined by commas.
    pub first_text : Items Num → Option String
    first_text nil = some ""
    first_text (cons v vs) =
        then_text (item_text v (to_text v)) (λ s. then_text (rest_text vs) (λ t. some (concat s t)))

    pub rest_text : Items Num → Option String
    rest_text nil = some ""
    rest_text (cons v vs) =
        then_text (item_text v (to_text v))
          (λ s. then_text (rest_text vs) (λ t. some (concat "," (concat s t))))

  -- What a number field makes of a value; a number is never NaN.
  pub data Numeric : Type 0 where
    number : Num → Numeric
    nan : Numeric
    throws : Numeric

  abbrev number_or_nan : Option Num → Numeric
  number_or_nan none = nan
  number_or_nan (some n) = number n

  abbrev numeric_text : Option String → Numeric
  numeric_text none = throws
  numeric_text (some s) = number_or_nan (number_of s)

  -- `typeof raw === 'number' ? raw : Number(raw)`
  unfoldable pub to_number : Value Num → Numeric
  unfolding to_text
  to_number null = number zero_number
  to_number (bool b) = number (if b then one_number else zero_number)
  to_number (num n) = number n
  to_number v = numeric_text (to_text v)

  -- `Boolean(value)`
  unfoldable pub to_bool : Value Num → Bool
  to_bool null = false
  to_bool (bool b) = b
  to_bool (num n) = not (is_zero n)
  to_bool (str s) = not (str_eq s "")
  to_bool _ = true
