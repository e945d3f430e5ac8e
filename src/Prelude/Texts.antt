-- ===== src/Prelude/Texts.antt =====
-- Texts: equality, joining, truthiness, decimal numbers and upper case.
use Prim.Native.Nat.{ℕ, zero, suc, ◌+◌, ◌-◌, ◌*◌}
use Prim.Native.Char.{Char, code}
use Prim.Native.String.{String}
use Prim.Native.String
use mathlib.Core.Path.{◌≡◌}
use mathlib.Core.Bool.{Bool, true, false, not, ◌&&◌, ◌||◌}
use mathlib.Core.Option.{Option, none, some}
use mathlib.Core.List.{List, [], ◌∷◌}
use native.Mathlib.Omega.{arith}
pub use text.Mathlib.Text.{◌==◌, starts_with, find?}
pub use text.Mathlib.TextEquality.{eq_iff}
pub use text.Mathlib.TextPositions.{eq_refl, starts_with-append}
use xrpl_credit_orchestrator.Prelude.Tests.{if◌then◌else◌, leb, nat_eq}

-- JavaScript's `+` on texts, which a template literal is.
infixr 65 ◌+++◌
abbrev pub ◌+++◌ : String → String → String
a +++ b = String.◌++◌ a b

pub eq_of_== : (a b : String) → (a == b) ≡ true → a ≡ b
eq_of_== a b = (eq_iff a b).0

-- `a === b` is symmetric.
pub ==_comm : (a b : String) → (a == b) ≡ (b == a)
==_comm a b = ground (arith, eq_iff a b, eq_iff b a)

-- The empty text is falsy.
abbrev pub truthy_text : String → Bool
truthy_text String.[] = false
truthy_text (String.◌∷◌ _ _) = true

-- `null` and the empty text are falsy.
abbrev pub truthy : Option String → Bool
truthy none = false
truthy (some s) = truthy_text s

-- `xs.join(sep)`
abbrev pub join : String → List String → String
join sep [] = ""
join sep (x ∷ []) = x
join sep (x ∷ y ∷ xs) = x +++ sep +++ join sep (y ∷ xs)

abbrev pub add_char : Char → List String → List String
add_char c [] = String.◌∷◌ c String.[] ∷ []
add_char c (s ∷ ss) = String.◌∷◌ c s ∷ ss

-- `text.split(sep)` at each character with this code
unfoldable pub split_on : ℕ → String → List String
split_on sep String.[] = "" ∷ []
split_on sep (String.◌∷◌ c s) =
    if nat_eq (code c) sep then "" ∷ split_on sep s else add_char c (split_on sep s)

-- The white space and line ends of the language
abbrev pub is_space : ℕ → Bool
is_space n =
    nat_eq n 32
    || (leb 9 n && leb n 13)
    || nat_eq n 160
    || nat_eq n 5760
    || (leb 8192 n && leb n 8202)
    || (leb 8232 n && leb n 8233)
    || nat_eq n 8239
    || nat_eq n 8287
    || nat_eq n 12288
    || nat_eq n 65279

trim_start : String → String
trim_start String.[] = ""
trim_start (String.◌∷◌ c s) = if is_space (code c) then trim_start s else String.◌∷◌ c s

trim_end : String → String
trim_end String.[] = ""
trim_end (String.◌∷◌ c s) =
    let t = trim_end s in if is_space (code c) && not (truthy_text t) then "" else String.◌∷◌ c t

-- `text.trim()`
unfoldable pub trim : String → String
unfolding trim_start trim_end
trim s = trim_end (trim_start s)

-- The list holds the text: `xs.includes(s)`.
abbrev pub includes : List String → String → Bool
includes [] s = false
includes (x ∷ xs) s = if x == s then true else includes xs s

-- `text.includes(part)`
abbrev pub has_part : String → String → Bool
has_part s part = elim (find? s part) [ none ↦ false | some _ ↦ true ]

-- `text.toUpperCase()` on the ASCII letters, which the action names consist of.
abbrev pub upper_char : Char → Char
upper_char c =
    if leb 97 (code c) && leb (code c) 122
    then String.char_at "ABCDEFGHIJKLMNOPQRSTUVWXYZ" (code c - 97)
    else c

unfoldable pub to_upper : String → String
to_upper String.[] = String.[]
to_upper (String.◌∷◌ c s) = String.◌∷◌ (upper_char c) (to_upper s)

-- `text.toLowerCase()` on the ASCII letters.
abbrev pub lower_char : Char → Char
lower_char c =
    if leb 65 (code c) && leb (code c) 90
    then String.char_at "abcdefghijklmnopqrstuvwxyz" (code c - 65)
    else c

unfoldable pub to_lower : String → String
to_lower String.[] = String.[]
to_lower (String.◌∷◌ c s) = String.◌∷◌ (lower_char c) (to_lower s)

-- `text.slice(0, n)`
abbrev pub first_chars : ℕ → String → String
first_chars zero s = ""
first_chars (suc n) String.[] = ""
first_chars (suc n) (String.◌∷◌ c s) = String.◌∷◌ c (first_chars n s)

abbrev digits_value : ℕ → String → Option ℕ
digits_value n String.[] = some n
digits_value n (String.◌∷◌ c s) =
    if leb 48 (code c) && leb (code c) 57 then digits_value (n * 10 + (code c - 48)) s else none

-- `Number(text)` of decimal digits; `none` is what is not a number.
abbrev pub number_of : String → Option ℕ
number_of s = digits_value 0 s
