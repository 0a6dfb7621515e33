-- ===== src/Examples/Similarity.antt =====
-- A search that finds nothing on the first pass and three tickets on the second, and a rerank of three
-- judgements.
use python_fullstack.Base.{
  ℕ, zero, suc, ◌-◌, ◌≡◌, refl, true, Option, none, some, List, [], ◌∷◌, String, take, arith,
}
use python_fullstack.Base.Exec.{ok}
use python_fullstack.Retrieval.Fusion.{semantic, lexical}
use python_fullstack.Intelligence.Rerank.{
  duplicate, related, unrelated, RelationJudgement, Catalogue, allowed_references, kept_judgements,
  claims_authority,
}
use python_fullstack.Intelligence.Rerank.Shown.{Each, IsShown, IsRanked, kept_judgements-IsShown}
use python_fullstack.Intelligence.Similarity.{
  good, SimilarityState, RetrievalDeps, embedding, run, recursion_limit,
}
use python_fullstack.Intelligence.Similarity.Ends.{EndsGraded, search_ends}

abbrev catalogue : Catalogue
catalogue = (4, "OS-4") ∷ (5, "OS-5") ∷ []

abbrev judge : String → RelationJudgement
judge reference = record {
  reference = reference;
  relation = related;
  confidence = 80;
  reason = "Same screen.";
}

abbrev judged : List RelationJudgement
judged =
    judge "OS-4"
    ∷ judge "OS-9"
    ∷ record {
      reference = "OS-5";
      relation = duplicate;
      confidence = 90;
      reason = "It HAS BEEN CLOSED.";
    }
    ∷ record { reference = "OS-5"; relation = unrelated; confidence = 95; reason = "No." }
    ∷ []

abbrev replaced : RelationJudgement
replaced = record {
  reference = "OS-5";
  relation = duplicate;
  confidence = 90;
  reason = "Looks like the same problem area.";
}

kept : kept_judgements catalogue (4 ∷ 5 ∷ 6 ∷ []) 55 judged ≡ replaced ∷ judge "OS-4" ∷ []
unfolding kept_judgements claims_authority
kept = refl

kept_judgements-IsShown_example :
    Each
      (IsShown (allowed_references catalogue (take 10 (4 ∷ 5 ∷ 6 ∷ []))) 55)
      (kept_judgements catalogue (4 ∷ 5 ∷ 6 ∷ []) 55 judged)
    × IsRanked (kept_judgements catalogue (4 ∷ 5 ∷ 6 ∷ []) 55 judged)
kept_judgements-IsShown_example = kept_judgements-IsShown catalogue (4 ∷ 5 ∷ 6 ∷ []) 55 judged

abbrev start : SimilarityState
start = record {
  query_text = "salary slip shows no data";
  original_query = "salary slip shows no data";
  pinned = [];
  rankings = [];
  candidates = [];
  grade = good;
  rewrites = 0;
  catalogue = [];
  judgements = [];
}

abbrev found_at : ℕ → List ℕ
found_at zero = []
found_at (suc n) = 4 ∷ 5 ∷ 6 ∷ []

abbrev deps : RetrievalDeps
deps = record {
  retrieve = λ n s.
      record { source = semantic; ticket_ids = found_at s.rewrites }
      ∷ record { source = lexical; ticket_ids = [] }
      ∷ [];
  rewrite_call = some (λ n text. ok (record { query = "payslip blank"; changed = true }));
  rerank_call = some (λ n s. ok judged);
  fetch = some (λ n ids. catalogue);
  rrf_k = 60;
  candidate_limit = 20;
  above_floor = λ d. true;
  rerank_enabled = true;
  confidence_floor = 55;
  max_rewrites = 2;
}

abbrev rewrites_of : Option SimilarityState → Option (ℕ × List RelationJudgement)
rewrites_of none = none
rewrites_of (some s) = some (s.rewrites, s.judgements)

searched :
    rewrites_of (run deps (recursion_limit - 3) 3 embedding start)
    ≡ some (1, replaced ∷ judge "OS-4" ∷ [])
unfolding run claims_authority
searched = refl

search_ends_example : EndsGraded deps (run deps (recursion_limit - 3) 3 embedding start)
search_ends_example = search_ends deps start (omega arith) refl
