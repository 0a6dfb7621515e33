-- ===== src/Intelligence/Rerank.antt =====
-- backend/app/modules/intelligence/generation/grounded_answer.py, what it takes of security/rules.py,
-- and rerank/reranker.py from the model's answer on. A confidence is a number of hundredths.
pub mod Shown
use Prim.Native.Char.{Char, code}
use python_fullstack.Base.{
  ℕ, zero, suc, ◌+◌, Bool, true, false, not, ◌&&◌, ◌||◌, Option, none, some, List, [], ◌∷◌, ◌++◌,
  String, take, ltb, leb, ◌==◌, if◌then◌else◌,
}
use python_fullstack.Base.Words.{text_in}

pub data Relation : Type 0 where
  duplicate related recurring unrelated : Relation

pub record RelationJudgement : Type 0 where
  pub reference : String
  pub relation : Relation
  pub confidence : ℕ
  pub reason : String

abbrev pub authority_claims : List String
authority_claims =
    "i have closed" ∷ "i have assigned" ∷ "i have updated" ∷ "i have linked" ∷ "i have deleted"
    ∷ "this ticket is now" ∷ "i've closed" ∷ "i've assigned" ∷ "marked as duplicate"
    ∷ "has been closed" ∷ []

-- The code of a letter's lower case, for the capitals and the Kelvin sign; no other letter has one in
-- ASCII, but the dotted capital I, whose i has a combining dot after it, which no phrase has.
abbrev lower : ℕ → ℕ
lower n = if leb 65 n && leb n 90 then n + 32 else if n == 8490 then 107 else n

abbrev starts_lowered : String → String → Bool
starts_lowered String.[] t = true
starts_lowered (String.◌∷◌ c s) String.[] = false
starts_lowered (String.◌∷◌ c s) (String.◌∷◌ d t) = (code c == lower (code d)) && starts_lowered s t

-- `phrase in text.lower()`
unfoldable pub occurs_lowered : String → String → Bool
occurs_lowered s String.[] = starts_lowered s String.[]
occurs_lowered s (String.◌∷◌ d t) = starts_lowered s (String.◌∷◌ d t) || occurs_lowered s t

abbrev any_occurs : List String → String → Bool
any_occurs [] text = false
any_occurs (w ∷ ws) text = occurs_lowered w text || any_occurs ws text

-- Whether `claims_authority` finds a phrase
unfoldable pub claims_authority : String → Bool
unfolding occurs_lowered
claims_authority text = any_occurs authority_claims text

pub record GuardedOutput : Type 0 where
  pub judgements : List RelationJudgement
  pub ungrounded : ℕ
  pub below_floor : ℕ
  pub authority_claims : ℕ

abbrev nothing_kept : GuardedOutput
nothing_kept = record { judgements = []; ungrounded = 0; below_floor = 0; authority_claims = 0 }

abbrev pub reworded : RelationJudgement → RelationJudgement
reworded j = record j { reason = "Looks like the same problem area." }

-- One judgement in front of what the later ones come to
abbrev pub guard_one : List String → ℕ → RelationJudgement → GuardedOutput → GuardedOutput
guard_one allowed floor j rest =
    if not (text_in j.reference allowed)
    then record rest { ungrounded = rest.ungrounded + 1 }
    else if ltb j.confidence floor
    then record rest { below_floor = rest.below_floor + 1 }
    else if claims_authority j.reason
    then record rest {
      judgements = reworded j ∷ rest.judgements;
      authority_claims = rest.authority_claims + 1;
    }
    else record rest { judgements = j ∷ rest.judgements }

-- `guard_output`
unfoldable pub guard_output : List String → ℕ → List RelationJudgement → GuardedOutput
unfolding claims_authority
guard_output allowed floor [] = nothing_kept
guard_output allowed floor (j ∷ js) = guard_one allowed floor j (guard_output allowed floor js)

abbrev pub is_discarded : Relation → Bool
is_discarded unrelated = true
is_discarded _ = false

abbrev pub without_discarded : List RelationJudgement → List RelationJudgement
without_discarded [] = []
without_discarded (j ∷ js) =
    let rest = without_discarded js in if is_discarded j.relation then rest else j ∷ rest

-- `_severity`
abbrev pub severity : Relation → ℕ
severity duplicate = 0
severity recurring = 1
severity related = 2
severity unrelated = 3

-- Whether the sort key of the first is at most that of the second
abbrev pub not_after : RelationJudgement → RelationJudgement → Bool
not_after a b =
    ltb b.confidence a.confidence
    || ((a.confidence == b.confidence) && leb (severity a.relation) (severity b.relation))

abbrev pub insert_judgement : RelationJudgement → List RelationJudgement → List RelationJudgement
insert_judgement j [] = j ∷ []
insert_judgement j (i ∷ is) =
    let rest = insert_judgement j is in if not_after j i then j ∷ i ∷ is else i ∷ rest

unfoldable pub sort_judgements : List RelationJudgement → List RelationJudgement
sort_judgements [] = []
sort_judgements (j ∷ js) = insert_judgement j (sort_judgements js)

abbrev pub max_candidates : ℕ
max_candidates = 10

-- The catalogue: the reference of a ticket that was hydrated
abbrev pub Catalogue : Type 0
Catalogue = List (ℕ × String)

abbrev pub entry_of : ℕ → Catalogue → Option String
entry_of id [] = none
entry_of id ((k, r) ∷ rest) = if k == id then some r else entry_of id rest

abbrev add_reference : Option String → List String → List String
add_reference none rs = rs
add_reference (some r) rs = r ∷ rs

-- The references that may be cited
unfoldable pub allowed_references : Catalogue → List ℕ → List String
allowed_references catalogue [] = []
allowed_references catalogue (id ∷ ids) =
    add_reference (entry_of id catalogue) (allowed_references catalogue ids)

-- What `rerank_candidates` keeps of the model's judgements
unfoldable pub kept_judgements :
    Catalogue → List ℕ → ℕ → List RelationJudgement → List RelationJudgement
unfolding guard_output sort_judgements allowed_references
kept_judgements catalogue candidates floor judged =
    let allowed = allowed_references catalogue (take max_candidates candidates) in
    sort_judgements (without_discarded (guard_output allowed floor judged).judgements)
