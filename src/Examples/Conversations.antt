-- ===== src/Examples/Conversations.antt =====
-- One user's thread, and the requests of another user; the checkpointer keeps the ids it forgot.
use python_fullstack.Base.{ℕ, ◌≡◌, refl, Option, none, some, List, [], ◌∷◌, arith}
use python_fullstack.Base.Exec.{err}
use python_fullstack.Core.Errors.{permission_denied}
use python_fullstack.Intelligence.Conversations.{
  expire_due, Conversation, new_conversation, get, load_owned, start, delete,
}
use python_fullstack.Intelligence.Conversations.Private.{
  Request, start_thread, delete_thread, serve_all, rows_of, conversations_are_private,
}

abbrev thread : Conversation
thread = new_conversation 100 1 9 5 (some "Which tickets mention the export?")

abbrev deleter : Option (ℕ → List ℕ → List ℕ)
deleter = some (λ id forgotten. id ∷ forgotten)

abbrev requests : List Request
requests = delete_thread 200 1 ∷ start_thread 210 2 none ∷ delete_thread 220 2 ∷ []

abbrev before : List Conversation × List ℕ
before = (thread ∷ [], [])

forgotten : (serve_all deleter 9 4 requests before).1 ≡ 2 ∷ []
unfolding start delete load_owned
forgotten = refl

conversations_are_private_example :
    (get 9 1 (serve_all deleter 9 4 requests before).0 ≡ some thread)
    × (rows_of 5 (serve_all deleter 9 4 requests before).0 ≡ rows_of 5 before.0)
    × (load_owned 9 4 1 (serve_all deleter 9 4 requests before).0 ≡ err permission_denied)
conversations_are_private_example =
    conversations_are_private deleter 9 9 4 1 thread requests before (refl, tt)
      (λ e. absurd (omega (arith, e))) refl refl

abbrev old_thread : Conversation
old_thread = record thread { id = 3; expires_at = 50 }

swept : expire_due deleter 60 9 (thread ∷ old_thread ∷ []) [] ≡ (thread ∷ [], 3 ∷ [])
unfolding expire_due
swept = refl
