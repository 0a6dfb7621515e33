-- ===== src/Base/Words.antt =====
-- Lists of texts as Python uses them: `in`, `dict.fromkeys`, `sorted`, and a number in an f-string.
use text.Mathlib.Text.{◌==◌ as str_eq, is_le}
use text.Mathlib.TextEquality.{eq_iff}
use Prim.Native.Nat.{ℕ, zero, suc, ◌/◌, ◌%◌}
use Prim.Native.String.{String, compare, ◌++◌ as append}
use Prim.Native.Char.{code}
use mathlib.Core.Path.{◌≡◌, refl}
use mathlib.Core.Logic.{inl, inr}
use mathlib.Core.Bool.{Bool, true, false, not, ◌&&◌, ◌||◌}
use mathlib.Core.List.{List, [], ◌∷◌, ◌++◌}
use native.Mathlib.Omega.{arith}
use python_fullstack.Base.Tests.{◌==◌, if◌then◌else◌, Bool-cases}

-- `word in words`
abbrev pub text_in : String → List String → Bool
text_in w [] = false
text_in w (v ∷ vs) = str_eq v w || text_in w vs

-- `list(dict.fromkeys(words))`, with the words already seen
unfoldable pub unique_from : List String → List String → List String
unique_from seen [] = []
unique_from seen (w ∷ ws) =
    let rest = unique_from seen ws in
    let fresh = unique_from (w ∷ seen) ws in if text_in w seen then rest else w ∷ fresh

unfoldable pub unique : List String → List String
unfolding unique_from
unique ws = unique_from [] ws

-- `sorted(words)`
abbrev insert_text : String → List String → List String
insert_text w [] = w ∷ []
insert_text w (v ∷ vs) =
    let rest = insert_text w vs in if is_le (compare w v) then w ∷ v ∷ vs else v ∷ rest

unfoldable pub sorted : List String → List String
sorted [] = []
sorted (w ∷ ws) = insert_text w (sorted ws)

-- A number as an f-string writes it, the last digit first into what follows.
abbrev digit : ℕ → String
digit n =
    if n == 0
    then "0"
    else if n == 1
    then "1"
    else if n == 2
    then "2"
    else if n == 3
    then "3"
    else if n == 4
    then "4"
    else if n == 5
    then "5"
    else if n == 6
    then "6"
    else if n == 7
    then "7"
    else if n == 8
    then "8"
    else "9"

abbrev decimal_onto : ℕ → ℕ → String → String
decimal_onto zero n rest = rest
decimal_onto (suc f) n rest =
    let here = append (digit (n % 10)) rest in
    let more = decimal_onto f (n / 10) here in if n / 10 == 0 then here else more

unfoldable pub decimal : ℕ → String
decimal n = decimal_onto (suc n) n String.[]

decimal_test : decimal 1204 ≡ "1204"
unfolding decimal
decimal_test = refl

-- `part in whole`
abbrev starts : String → String → Bool
starts String.[] t = true
starts (String.◌∷◌ c s) String.[] = false
starts (String.◌∷◌ c s) (String.◌∷◌ d t) = (code c == code d) && starts s t

-- `whole.startswith(part)`
unfoldable pub begins : String → String → Bool
begins s t = starts s t

abbrev pub occurs : String → String → Bool
occurs s String.[] = starts s String.[]
occurs s (String.◌∷◌ d t) = starts s (String.◌∷◌ d t) || occurs s t

pub text_in-append :
    (x : String) (us vs : List String) → text_in x (us ++ vs) ≡ (text_in x us || text_in x vs)
text_in-append x [] vs = refl
text_in-append x (u ∷ us) vs = ground (arith, text_in-append x us vs)

text_in-unique_from :
    (x : String) (seen ws : List String)
    → text_in x (unique_from seen ws) ≡ (text_in x ws && not (text_in x seen))
unfolding unique_from
text_in-unique_from x seen [] = refl
text_in-unique_from x seen (w ∷ ws) = elim (Bool-cases (text_in w seen)) [
  | inl e ↦ rw e (ground (arith, text_in-unique_from x seen ws, eq_iff w x))
  | inr e ↦ rw e (ground (arith, text_in-unique_from x (w ∷ seen) ws, eq_iff w x))
]

pub text_in-unique : (x : String) (ws : List String) → text_in x (unique ws) ≡ text_in x ws
unfolding unique
text_in-unique x ws = ground (arith, text_in-unique_from x [] ws)
