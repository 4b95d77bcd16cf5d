-- ===== src/Spaces/Json.antt =====
-- The values that the validators of src/spaces read: what JSON.parse gives, and a function that
-- every object inherits. An object has each key once.
use gomer.Base.{Bool, Option, none, some, List, [], ◌∷◌, if◌then◌else◌}
use gomer.Base.Text.{String, str_eq}

mutual
  pub data Value (N : Type 0) : Type 0 where
    null : Value N
    bool : Bool → Value N
    num : N → Value N
    str : String → Value N
    arr : Items N → Value N
    obj : Props N → Value N
    native : String → Value N

  pub data Items (N : Type 0) : Type 0 where
    nil : Items N
    cons : Value N → Items N → Items N

  pub data Props (N : Type 0) : Type 0 where
    end : Props N
    prop : String → Value N → Props N → Props N

module _ {N : Type 0} where
  abbrev pub items : Items N → List (Value N)
  items nil = []
  items (cons v vs) = v ∷ items vs

  abbrev pub props : Props N → List (String × Value N)
  props end = []
  props (prop k v ps) = (k, v) ∷ props ps

  -- The value at a key of the object itself; none is undefined.
  unfoldable pub own : String → Props N → Option (Value N)
  own k end = none
  own k (prop j v ps) = if str_eq j k then some v else own k ps

-- Numbers and the language's conversions between numbers and texts: `Number(text)`, where none is
-- NaN, and `String(number)`.
pub record Numbers : Type 1 where
  pub Num : Type 0
  pub number_of : String → Option Num
  pub show_number : Num → String
  pub is_zero : Num → Bool
  pub zero_number : Num
  pub one_number : Num
