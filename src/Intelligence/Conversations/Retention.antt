-- ===== src/Intelligence/Conversations/Retention.antt =====
-- What the retention sweep leaves of the threads.
use python_fullstack.Base.{ℕ, List, [], ◌∷◌, if◌then◌else◌}
use python_fullstack.Intelligence.Conversations.{Conversation, is_expired}

-- The rows that are not expired live threads of the tenant, in their order
abbrev pub retained : ℕ → ℕ → List Conversation → List Conversation
retained now tenant [] = []
retained now tenant (c ∷ cs) =
    let rest = retained now tenant cs in if is_expired now tenant c then rest else c ∷ rest
