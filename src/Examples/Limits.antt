-- ===== src/Examples/Limits.antt =====
-- The throttles at concrete times.
use python_fullstack.Core.Pagination.{
  PageParams, pages, offset, row_on_page, listed, parse, strip_minus, is_descending, parse-listed,
}
use python_fullstack.Base.{◌⊎◌, ◌<◌, ◌+◌, ◌≤◌, ◌≡◌, true, none, some, List, [], ◌∷◌, arith, length}
use python_fullstack.Base.Assoc.{lookup}
use python_fullstack.Core.Throttle.{max_local_entries, empty_store}
use python_fullstack.Core.Throttle.Bound.{add, contains, perform_all, store_bounded}
use python_fullstack.Core.Throttle.Limiter.Recall.{Use, hit, denied, kept}
use python_fullstack.Core.Throttle.Window.Runs.{run_hits}
use python_fullstack.Core.Throttle.Limiter.{login_per_account, hit_local, limit_exact, Remembered}

store_bounded_example :
    length (perform_all (add 0 "a" 5 ∷ contains 6 "a" ∷ []) empty_store).expiry
    ≤ max_local_entries + 1
store_bounded_example = store_bounded (add 0 "a" 5 ∷ contains 6 "a" ∷ []) empty_store (omega arith)

none_is_not_some : {A : Type 0} {x : A} → none ≡ some x → ⊥
none_is_not_some h = cc

limit_exact_example :
    (hit_local 9 "k" login_per_account
      (run_hits 300 ((3, "k") ∷ (4, "j") ∷ []) (hit_local 0 "k" login_per_account empty_store).1)).0
    ≡ (true, 3)
unfolding run_hits lookup
limit_exact_example =
    limit_exact login_per_account "k" 0 9 ((3, "k") ∷ (4, "j") ∷ []) empty_store
      (record { room = omega arith; distinct = tt }) (λ at h. absurd (none_is_not_some h))
      (omega arith) (omega arith)

abbrev blank : Remembered
blank = record { store = empty_store; values = [] }

abbrev uses : List Use
uses = denied 5 "jti" 900 ∷ kept 6 "k2" "t2" ∷ hit 90000 "ip" 300 ∷ []

abbrev third_page : PageParams
third_page = record { page = 3; page_size = 25 }

row_on_page_example : (3 ≤ pages 51 25) × (offset third_page ≤ 50) × (50 < offset third_page + 25)
row_on_page_example = row_on_page 51 25 50 (omega arith) (omega arith)

parse-listed_example :
    (listed ("title" ∷ []) (parse (some "-password") ("title" ∷ []) "-created_at").0 ≡ true)
    ⊎ (parse (some "-password") ("title" ∷ []) "-created_at"
        ≡ (strip_minus "-created_at", is_descending "-created_at"))
parse-listed_example = parse-listed (some "-password") ("title" ∷ []) "-created_at"
