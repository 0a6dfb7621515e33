-- ===== src/Intelligence/Conversations/Keys.antt =====
-- The primary key of the conversations, and the rows that a tenant's session sees.
use python_fullstack.Base.{
  Bool, false, refl, ap, sym, ◌∙◌, ==_iff, ◌&&◌, ◌||◌, inl, inr, Bool-cases, none, some, ℕ, ◌≡◌,
  ◌≢◌, refl, ap, ◌∙◌, inl, inr, none, some, List, [], ◌∷◌, ◌++◌, arith, ◌==◌, Bool-cases,
}
use python_fullstack.Intelligence.Conversations.{holds_id, Conversation, get, mark_deleted}

-- A row is the one that `get` looks for, or it is not.
abbrev pub is_at : ℕ → ℕ → Conversation → Bool
is_at tenant id c = (c.id == id) && (c.tenant_id == tenant)

-- The ids of a table are distinct: they are its primary key.
abbrev pub IsKeyed : List Conversation → Type 0
IsKeyed [] = Unit {0}
IsKeyed (c ∷ cs) = (holds_id c.id cs ≡ false) × IsKeyed cs

holds_id-append :
    (id : ℕ) (c : Conversation) (cs : List Conversation)
    → holds_id id (cs ++ c ∷ []) ≡ (holds_id id cs || (c.id == id))
holds_id-append id c [] = ground (arith)
holds_id-append id c (d ∷ cs) = ground (arith, holds_id-append id c cs)

pub append-IsKeyed :
    (c : Conversation) (cs : List Conversation)
    → holds_id c.id cs ≡ false
    → IsKeyed cs
    → IsKeyed (cs ++ c ∷ [])
append-IsKeyed c [] free k = (refl, tt)
append-IsKeyed c (d ∷ cs) free (n, k) = (
  holds_id-append d.id c cs ∙ ground (arith, n, free, ==_iff d.id c.id, ==_iff c.id d.id),
  append-IsKeyed c cs (ground (arith, free)) k,
)

holds_id-mark_deleted :
    (x now tenant id : ℕ) (cs : List Conversation)
    → holds_id x (mark_deleted now tenant id cs) ≡ holds_id x cs
holds_id-mark_deleted x now tenant id [] = refl
holds_id-mark_deleted x now tenant id (c ∷ cs) =
    ground (arith, holds_id-mark_deleted x now tenant id cs)

pub mark_deleted-IsKeyed :
    (now tenant id : ℕ) (cs : List Conversation)
    → IsKeyed cs
    → IsKeyed (mark_deleted now tenant id cs)
mark_deleted-IsKeyed now tenant id [] k = tt
mark_deleted-IsKeyed now tenant id (c ∷ cs) (n, k) = elim (Bool-cases (is_at tenant id c)) [
  | inl e ↦ rw e (n, k)
  | inr e ↦
      rw e
        (holds_id-mark_deleted c.id now tenant id cs ∙ n, mark_deleted-IsKeyed now tenant id cs k)
]

get-absent :
    (tenant id : ℕ) (cs : List Conversation) → holds_id id cs ≡ false → get tenant id cs ≡ none
get-absent tenant id [] h = refl
get-absent tenant id (c ∷ cs) h = ground (arith, h, get-absent tenant id cs)

-- A row that its own tenant finds is hidden from the others.
pub get-hidden :
    (home tenant id : ℕ) (c : Conversation) (cs : List Conversation)
    → IsKeyed cs
    → get home id cs ≡ some c
    → tenant ≢ home
    → get tenant id cs ≡ none
get-hidden home tenant id c [] k h ne = refl
get-hidden home tenant id c (d ∷ cs) (n, k) h ne = elim (Bool-cases (d.id == id)) [
  | inl e ↦
      let gone =
        get-absent tenant id cs (ap (λ x. holds_id x cs) (sym ((==_iff d.id id).0 e)) ∙ n) in
      let other =
        get-absent home id cs (ap (λ x. holds_id x cs) (sym ((==_iff d.id id).0 e)) ∙ n) in
      ground (arith, e, h, ne, gone, other, ==_iff d.tenant_id home, ==_iff d.tenant_id tenant)
  | inr e ↦ ground (arith, e, h, get-hidden home tenant id c cs k)
]
