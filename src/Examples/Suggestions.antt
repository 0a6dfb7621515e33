-- ===== src/Examples/Suggestions.antt =====
-- One rejected and one pending suggestion of the ticket 7, and a run that finds both again.
use python_fullstack.Base.{ℕ, ◌≡◌, refl, Option, none, some, List, [], ◌∷◌, true, false, String}
use python_fullstack.Base.Exec.{ok, err}
use python_fullstack.Core.Errors.{not_found}
use python_fullstack.Intelligence.Suggestions.{
  AiSuggestion, Item, rejected, suggestion, replace_similar, decide_suggestion,
}
use python_fullstack.Intelligence.Suggestions.Verdicts.{
  verdicts, SuggestsFresh, replace_similar_respects,
}

abbrev found : ℕ → Item
found n = record { related_ticket_id = n; relation = none; confidence = some 80; reason = none }

abbrev no_model : Option String
no_model = none

abbrev turned_down : AiSuggestion
turned_down = record (suggestion 1 1 7 no_model (found 20)) {
  status = rejected;
  decided_by_id = some 4;
  decided_at = some 50;
}

abbrev table : List AiSuggestion
table = suggestion 2 1 7 no_model (found 21) ∷ turned_down ∷ []

abbrev both : List Item
both = found 20 ∷ found 21 ∷ []

again :
    replace_similar 3 1 7 no_model both table
    ≡ turned_down ∷ suggestion 4 1 7 no_model (found 21) ∷ []
unfolding replace_similar
again = refl

missing : decide_suggestion 60 9 true 4 table ≡ (err not_found, table)
unfolding decide_suggestion
missing = refl

repeated :
    decide_suggestion 60 1 false 5 (turned_down ∷ [])
    ≡ (ok tt, record turned_down { decided_by_id = some 5; decided_at = some 60 } ∷ [])
unfolding decide_suggestion
repeated = refl

replace_similar_respects_example :
    (verdicts (replace_similar 3 1 7 no_model both table) ≡ verdicts table)
    × SuggestsFresh 7 table (replace_similar 3 1 7 no_model both table)
replace_similar_respects_example = replace_similar_respects 3 1 7 no_model both table
