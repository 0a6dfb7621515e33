-- ===== src/Intelligence/References.antt =====
-- backend/app/modules/intelligence/utils/references.py, and the references that a tool's result
-- holds (pipelines/analysis.py).
use Prim.Native.Char.{Char, code}
use Prim.Native.String.{◌++◌ as append}
use python_fullstack.Base.{
  ◌-◌, ℕ, zero, suc, Bool, true, false, not, ◌&&◌, ◌||◌, Option, none, some, List, [], ◌∷◌, ◌++◌,
  String, ◌==◌, leb, ltb, if◌then◌else◌,
}
use python_fullstack.Base.Words.{unique}
use python_fullstack.Intelligence.Json.{
  Json, null, bool, number, string, array, object, Items, end, item, Fields, empty, field, get,
}

-- What follows a prefix, if the text starts with it.
abbrev without_prefix : String → String → Option String
without_prefix String.[] t = some t
without_prefix (String.◌∷◌ c s) String.[] = none
without_prefix (String.◌∷◌ c s) (String.◌∷◌ d t) =
    let rest = without_prefix s t in if code c == code d then rest else none

-- The two classes of characters of a regular expression, `\w` (without the digits) and `\d`.
pub record Classes : Type 0 where
  pub letter : Char → Bool
  pub digit : Char → Bool

module _ (k : Classes) where
  abbrev word : Char → Bool
  word c = k.letter c || k.digit c

  abbrev starts_word : String → Bool
  starts_word String.[] = false
  starts_word (String.◌∷◌ c s) = word c

  -- The digits with which a text starts, and what follows them.
  abbrev digits : String → String
  digits String.[] = String.[]
  digits (String.◌∷◌ c s) =
      let rest = digits s in if k.digit c then String.◌∷◌ c rest else String.[]

  abbrev past_digits : String → String
  past_digits String.[] = String.[]
  past_digits (String.◌∷◌ c s) =
      let rest = past_digits s in if k.digit c then rest else String.◌∷◌ c s

  abbrev size : String → ℕ
  size String.[] = 0
  size (String.◌∷◌ c s) = suc (size s)

  -- `OS-\d{1,6}\b` at the start of a text, which is at a boundary if no word character is before it.
  abbrev numbered : String → Option String
  numbered s =
      let n = size (digits s) in
      if (ltb 0 n && leb n 6) && not (starts_word (past_digits s))
      then some (append "OS-" (digits s))
      else none

  abbrev after_prefix : Option String → Option String
  after_prefix none = none
  after_prefix (some s) = numbered s

  abbrev match_at : Bool → String → Option String
  match_at true s = none
  match_at false s = after_prefix (without_prefix "OS-" s)

  -- How much of what follows the first character belongs to the match.
  abbrev consumed : Option String → ℕ
  consumed none = 0
  consumed (some m) = size m - 1

  abbrev with_match : Option String → List String → List String
  with_match none found = found
  with_match (some m) found = m ∷ found

  -- `findall`, after a character that is a word character or not, with a number of characters to skip
  scan : Bool → ℕ → String → List String
  scan before n String.[] = []
  scan before (suc n) (String.◌∷◌ c s) = scan (word c) n s
  scan before zero (String.◌∷◌ c s) =
      let found = match_at before (String.◌∷◌ c s) in
      with_match found (scan (word c) (consumed found) s)

  unfoldable pub references_in : Option String → List String
  unfolding scan
  references_in none = []
  references_in (some s) = scan false 0 s

  unfoldable pub unique_references : Option String → List String
  unfolding references_in unique
  unique_references text = unique (references_in text)

-- `reference.upper().startswith("OS-")`: the capitals, the small letters and the long s
abbrev is_os : String → Bool
is_os (String.◌∷◌ a (String.◌∷◌ b (String.◌∷◌ c s))) =
    ((code a == 79) || (code a == 111))
    && (((code b == 83) || ((code b == 115) || (code b == 383))) && (code c == 45))
is_os _ = false

abbrev own : Option Json → List String
own (some (string r)) = if is_os r then r ∷ [] else []
own _ = []

-- `walk`
mutual
  unfolding get

  walk : Json → List String
  walk (array items) = walk_items items
  walk (object fields) = own (get "reference" fields) ++ walk_fields fields
  walk null = []
  walk (bool b) = []
  walk (number n) = []
  walk (string s) = []

  walk_items : Items → List String
  walk_items end = []
  walk_items (item v rest) = walk v ++ walk_items rest

  walk_fields : Fields → List String
  walk_fields empty = []
  walk_fields (field k v rest) = walk v ++ walk_fields rest

unfoldable pub result_references : Fields → List String
unfolding walk walk_items walk_fields unique
result_references result = unique (walk (object result))
