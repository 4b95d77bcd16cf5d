-- ===== src/Base/Text.antt =====
-- Texts: the characters of a text, the test for a text that is there, and trimming.
use Prim.Native.Char.{Char, code}
use Prim.Native.String.{String}
use text.Mathlib.Text.{◌==◌ as str_eq}
use text.Mathlib.TextEquality.{eq_iff}
use gomer.Base.{
  ◌≡◌, ◌≢◌, ℕ, Bool, false, ◌&&◌, ◌||◌, Option, none, some, List, [], ◌∷◌, ltb, ◌==◌, if◌then◌else◌,
}
pub use Prim.Native.String.{String}
pub use text.Mathlib.Text.{◌==◌ as str_eq}
pub use text.Mathlib.TextEquality.{eq_iff}

abbrev pub codes : String → List ℕ
codes String.[] = []
codes (String.◌∷◌ c s) = code c ∷ codes s

-- The text, if it is there and not empty: `text || null`.
abbrev pub truthy : Option String → Option String
truthy none = none
truthy (some s) = if str_eq s "" then none else some s

-- Code points that `trim` removes: tab to carriage return, the space and the other separators.
abbrev pub is_white : ℕ → Bool
is_white c =
    (ltb 8 c && ltb c 14)
    || (c == 32 || c == 160 || c == 5_760 || (ltb 8_191 c && ltb c 8_203))
    || (c == 8_232 || c == 8_233 || c == 8_239 || c == 8_287 || c == 12_288 || c == 65_279)

abbrev pub trim_start : String → String
trim_start String.[] = ""
trim_start (String.◌∷◌ c s) = if is_white (code c) then trim_start s else String.◌∷◌ c s

abbrev pub trim_end : String → String
trim_end String.[] = ""
trim_end (String.◌∷◌ c s) =
    let rest = trim_end s in if is_white (code c) && str_eq rest "" then "" else String.◌∷◌ c rest

-- `String.prototype.trim`
abbrev pub trim : String → String
trim s = trim_end (trim_start s)

pub ne_of_text : (s t : String) → str_eq s t ≡ false → s ≢ t
ne_of_text s t other e = cc (other, (eq_iff s t).1 e)

-- The rest of a text after a prefix, if it begins with it.
unfoldable pub strip_text : String → String → Option String
strip_text String.[] s = some s
strip_text (String.◌∷◌ c p) String.[] = none
strip_text (String.◌∷◌ c p) (String.◌∷◌ d s) = if code c == code d then strip_text p s else none

pub cons_inj : (c : Char) (s t : String) → String.◌∷◌ c s ≡ String.◌∷◌ c t → s ≡ t
cons_inj c s t e = cc
