-- ===== src/Intelligence/Similarity.antt =====
-- backend/app/modules/intelligence/pipelines/similarity.py from the node `embed` on, with the reducer
-- of pipelines/state.py, retrieval/fuse.py in the shipped mode, retrieval/grade.py, query/rewriter.py
-- and rerank/reranker.py. What `embed` and the two retrievers write is a parameter, as are the models
-- and the catalogue. The trace and the vectors are left out; whether 1 / d reaches the floor of the
-- scores is a test of d.
pub mod Ends
use text.Mathlib.Text.{◌==◌ as str_eq}
use python_fullstack.Base.{
  ℕ, zero, suc, ◌+◌, Bool, true, false, not, ◌&&◌, ◌||◌, Option, none, some, List, [], ◌∷◌, ◌++◌,
  String, length, take, ltb, leb, ◌==◌, if◌then◌else◌,
}
use python_fullstack.Base.Exec.{Result, ok, err}
use python_fullstack.Base.Text.{is_empty, strip}
use python_fullstack.Core.Errors.{AppError}
use python_fullstack.Retrieval.Fusion.{
  RetrievalSource, reference, same_source, RankedList, Ranks, FusedCandidate, agreed, cascade,
  cascade_leader,
}
use python_fullstack.Intelligence.Rerank.{
  RelationJudgement, Catalogue, max_candidates, kept_judgements,
}

pub data Grade : Type 0 where
  good weak empty : Grade

pub record SimilarityState : Type 0 where
  pub query_text : String
  pub original_query : String
  pub pinned : List ℕ
  pub rankings : List RankedList
  pub candidates : List FusedCandidate
  pub grade : Grade
  pub rewrites : ℕ
  pub catalogue : Catalogue
  pub judgements : List RelationJudgement

pub record QueryRewrite : Type 0 where
  pub query : String
  pub changed : Bool

-- `none` for a registry or a catalogue that is not there
pub record RetrievalDeps : Type 0 where
  pub retrieve : ℕ → SimilarityState → List RankedList
  pub rewrite_call : Option (ℕ → String → Result AppError QueryRewrite)
  pub rerank_call : Option (ℕ → SimilarityState → Result AppError (List RelationJudgement))
  pub fetch : Option (ℕ → List ℕ → Catalogue)
  pub rrf_k : ℕ
  pub candidate_limit : ℕ
  pub above_floor : ℕ → Bool
  pub rerank_enabled : Bool
  pub confidence_floor : ℕ
  pub max_rewrites : ℕ

-- `_merge_rankings`: in place, or at the end
abbrev put_ranking : RankedList → List RankedList → List RankedList
put_ranking r [] = r ∷ []
put_ranking r (q ∷ qs) =
    let rest = put_ranking r qs in if same_source q.source r.source then r ∷ qs else q ∷ rest

unfoldable pub merge_rankings : List RankedList → List RankedList → List RankedList
merge_rankings left [] = left
merge_rankings left (r ∷ rs) = merge_rankings (put_ranking r left) rs

unfoldable pub retrieve : RetrievalDeps → ℕ → SimilarityState → SimilarityState
unfolding merge_rankings
retrieve d n s = record s { rankings = merge_rankings s.rankings (d.retrieve n s) }

abbrev above : RetrievalDeps → List FusedCandidate → List FusedCandidate
above d [] = []
above d (c ∷ cs) = let rest = above d cs in if d.above_floor c.score then c ∷ rest else rest

-- `fuse_candidates`
unfoldable pub fuse : RetrievalDeps → SimilarityState → SimilarityState
unfolding cascade cascade_leader
fuse d s = record s {
  candidates =
      above d
        (cascade s.rankings (cascade_leader s.rankings) d.rrf_k (some d.candidate_limit) s.pinned);
}

abbrev pub min_candidates : ℕ
min_candidates = 3

abbrev has_reference : Ranks → Bool
has_reference [] = false
has_reference ((source, n) ∷ rest) = same_source source reference || has_reference rest

abbrev pub certain : List FusedCandidate → Bool
certain [] = false
certain (c ∷ cs) = has_reference c.ranks || certain cs

abbrev is_none_left : List FusedCandidate → Bool
is_none_left [] = true
is_none_left (c ∷ cs) = false

-- The grade; that candidates agree changes only its wording.
unfoldable pub grade_of : ℕ → List FusedCandidate → ℕ → Grade
grade_of max_rewrites candidates rewrites =
    if certain candidates
    then good
    else if leb min_candidates (length candidates)
    then good
    else if not (is_none_left candidates) && leb max_rewrites rewrites
    then good
    else if ltb rewrites max_rewrites
    then weak
    else empty

-- `grade_candidates`
unfoldable pub grade : RetrievalDeps → SimilarityState → SimilarityState
unfolding grade_of
grade d s = record s { grade = grade_of d.max_rewrites s.candidates s.rewrites }

abbrev or_query : SimilarityState → String
or_query s = if is_empty s.original_query then s.query_text else s.original_query

abbrev count_rewrite : SimilarityState → SimilarityState
count_rewrite s = record s { rewrites = s.rewrites + 1 }

abbrev rewritten : SimilarityState → Result AppError QueryRewrite → SimilarityState
rewritten s (err e) = count_rewrite s
rewritten s (ok w) =
    if not w.changed || is_empty (strip w.query) then count_rewrite s else record s {
      query_text = w.query;
      original_query = or_query s;
      rewrites = s.rewrites + 1;
      rankings = merge_rankings s.rankings [];
    }

abbrev rewrite_with :
    ℕ → SimilarityState → Option (ℕ → String → Result AppError QueryRewrite) → SimilarityState
rewrite_with n s none = count_rewrite s
rewrite_with n s (some call) = rewritten s (call n (or_query s))

-- `rewrite_query`
unfoldable pub rewrite : RetrievalDeps → ℕ → SimilarityState → SimilarityState
unfolding merge_rankings strip
rewrite d n s = rewrite_with n s d.rewrite_call

abbrev pub ids_of : List FusedCandidate → List ℕ
ids_of [] = []
ids_of (c ∷ cs) = c.ticket_id ∷ ids_of cs

abbrev hydrate_with : ℕ → SimilarityState → Option (ℕ → List ℕ → Catalogue) → SimilarityState
hydrate_with n s none = s
hydrate_with n s (some fetch) =
    if is_none_left s.candidates then s else record s { catalogue = fetch n (ids_of s.candidates) }

-- `hydrate_candidates`
unfoldable pub hydrate : RetrievalDeps → ℕ → SimilarityState → SimilarityState
hydrate d n s = hydrate_with n s d.fetch

abbrev has_text : Catalogue → Bool
has_text [] = false
has_text (e ∷ es) = true

abbrev reranked :
    RetrievalDeps → SimilarityState → Result AppError (List RelationJudgement) → SimilarityState
reranked d s (err e) = s
reranked d s (ok judged) = record s {
  judgements = kept_judgements s.catalogue (ids_of s.candidates) d.confidence_floor judged;
}

abbrev rerank_with :
    RetrievalDeps
    → ℕ
    → SimilarityState
    → Option (ℕ → SimilarityState → Result AppError (List RelationJudgement))
    → SimilarityState
rerank_with d n s none = s
rerank_with d n s (some call) =
    if is_none_left s.candidates || (not d.rerank_enabled || not (has_text s.catalogue))
    then s
    else reranked d s (call n s)

-- `rerank_candidates`
unfoldable pub rerank : RetrievalDeps → ℕ → SimilarityState → SimilarityState
unfolding kept_judgements
rerank d n s = rerank_with d n s d.rerank_call

-- The nodes; `finish` only logs.
pub data Node : Type 0 where
  embedding retrieving fusing grading rewriting hydrating reranking finishing over : Node

abbrev pub route_after_grading : SimilarityState → Node
route_after_grading s = elim s.grade [ weak ↦ rewriting | empty ↦ finishing | good ↦ hydrating ]

abbrev pub next : Node → SimilarityState → Node
next embedding s = retrieving
next retrieving s = fusing
next fusing s = grading
next grading s = route_after_grading s
next rewriting s = embedding
next hydrating s = reranking
next reranking s = finishing
next finishing s = over
next over s = over

abbrev pub exec : RetrievalDeps → ℕ → Node → SimilarityState → SimilarityState
exec d n embedding s = s
exec d n retrieving s = retrieve d n s
exec d n fusing s = fuse d s
exec d n grading s = grade d s
exec d n rewriting s = rewrite d n s
exec d n hydrating s = hydrate d n s
exec d n reranking s = rerank d n s
exec d n finishing s = s
exec d n over s = s

-- With a number of supersteps left; `none` is LangGraph's error that the limit is reached. LangGraph
-- counts the entry as a step, and looks at the limit before it sees that no node is left, so that the
-- end takes a step too.
unfoldable pub run : RetrievalDeps → ℕ → ℕ → Node → SimilarityState → Option SimilarityState
unfolding retrieve fuse grade rewrite hydrate rerank
run d zero n node s = none
run d (suc left) n over s = some s
run d (suc left) n node s = let s' = exec d n node s in run d left (suc n) (next node s') s'

abbrev pub recursion_limit : ℕ
recursion_limit = 40
