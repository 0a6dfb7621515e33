-- ===== src/Intelligence/Conversations/Private.antt =====
-- A conversation is its owner's alone.
use mathlib.Core.List.{append-nil}
use python_fullstack.Base.{
  refl, ap, ◌∙◌, ==_iff, if◌then◌else◌, inl, inr, Bool-cases, none, some, ℕ, ◌≡◌, ◌≢◌, refl, ap,
  ◌∙◌, inl, inr, Option, none, some, List, [], ◌∷◌, ◌++◌, String, arith, ◌==◌, if◌then◌else◌,
  Bool-cases,
}
use python_fullstack.Base.Exec.{Result, ok, err}
use python_fullstack.Core.Errors.{not_found, AppError, permission_denied}
use python_fullstack.Intelligence.Conversations.Keys.{
  is_at, IsKeyed, append-IsKeyed, mark_deleted-IsKeyed, get-hidden,
}
use python_fullstack.Intelligence.Conversations.{
  holds_id, Conversation, new_conversation, start, get, owned, load_owned, mark_deleted,
  delete_with, delete,
}

-- What a user asks for; the numbers are the time and an id.
pub data Request : Type 0 where
  start_thread : ℕ → ℕ → Option String → Request
  delete_thread : ℕ → ℕ → Request

-- One request of a user of a tenant
abbrev pub serve :
    {S : Type 0}
    → Option (ℕ → S → S)
    → ℕ
    → ℕ
    → Request
    → List Conversation × S
    → List Conversation × S
serve deleter tenant user (start_thread now id title) (table, saver) =
    ((start now id tenant user title table).1, saver)
serve deleter tenant user (delete_thread now id) (table, saver) =
    (delete deleter now tenant user id table saver).1

abbrev pub serve_all :
    {S : Type 0}
    → Option (ℕ → S → S)
    → ℕ
    → ℕ
    → List Request
    → List Conversation × S
    → List Conversation × S
serve_all deleter tenant user [] s = s
serve_all deleter tenant user (q ∷ qs) s =
    serve_all deleter tenant user qs (serve deleter tenant user q s)

-- The rows of a user
abbrev pub rows_of : ℕ → List Conversation → List Conversation
rows_of user [] = []
rows_of user (c ∷ cs) = let rest = rows_of user cs in if c.user_id == user then c ∷ rest else rest

rows_of-append :
    (user : ℕ) (cs ds : List Conversation)
    → rows_of user (cs ++ ds) ≡ rows_of user cs ++ rows_of user ds
rows_of-append user [] ds = refl
rows_of-append user (c ∷ cs) ds = ground (arith, rows_of-append user cs ds)

rows_of-start :
    (now id tenant user other : ℕ) (title : Option String) (table : List Conversation)
    → other ≢ user
    → rows_of other (start now id tenant user title table).1 ≡ rows_of other table
unfolding start
rows_of-start now id tenant user other title table apart = ground (
  arith,
  apart,
  rows_of-append other table (new_conversation now id tenant user title ∷ []),
  append-nil (rows_of other table),
)

owned-user : (user : ℕ) (c d : Conversation) → owned user (some c) ≡ ok d → c.user_id ≡ user
owned-user user c d mine = ground (arith, mine)

rows_of-mark_deleted :
    (now tenant id user other : ℕ) (d : Conversation) (table : List Conversation)
    → other ≢ user
    → owned user (get tenant id table) ≡ ok d
    → rows_of other (mark_deleted now tenant id table) ≡ rows_of other table
rows_of-mark_deleted now tenant id user other d [] apart mine = refl
rows_of-mark_deleted now tenant id user other d (c ∷ cs) apart mine =
    elim (Bool-cases (is_at tenant id c)) [
      | inl e ↦ ground (arith, e, apart, mine, owned-user user c d)
      | inr e ↦
          ground (arith, e, apart, mine, rows_of-mark_deleted now tenant id user other d cs apart)
    ]

rows_of-delete_with :
    {S : Type 0} (deleter : Option (ℕ → S → S)) (now tenant id user other : ℕ)
    (table : List Conversation) (saver : S) (found : Result AppError Conversation)
    → other ≢ user
    → owned user (get tenant id table) ≡ found
    → rows_of other (delete_with deleter now tenant id table saver found).1.0 ≡ rows_of other table
rows_of-delete_with deleter now tenant id user other table saver (err e) apart h = refl
rows_of-delete_with deleter now tenant id user other table saver (ok d) apart h =
    rows_of-mark_deleted now tenant id user other d table apart h

rows_of-serve :
    {S : Type 0} (deleter : Option (ℕ → S → S)) (tenant user other : ℕ) (q : Request)
    (s : List Conversation × S)
    → other ≢ user
    → rows_of other (serve deleter tenant user q s).0 ≡ rows_of other s.0
unfolding delete load_owned
rows_of-serve deleter tenant user other (start_thread now id title) (table, saver) apart =
    rows_of-start now id tenant user other title table apart
rows_of-serve deleter tenant user other (delete_thread now id) (table, saver) apart =
    rows_of-delete_with deleter now tenant id user other table saver
      (owned user (get tenant id table)) apart refl

get-append :
    (tenant id : ℕ) (c : Conversation) (cs ds : List Conversation)
    → get tenant id cs ≡ some c
    → get tenant id (cs ++ ds) ≡ some c
get-append tenant id c [] ds h = absurd (ground (arith, h))
get-append tenant id c (d ∷ cs) ds h = ground (arith, h, get-append tenant id c cs ds)

-- The conversation `c` is found by its owner, in its tenant `home`; the user may be of another.
get-mark_deleted :
    (now home id tenant deleted user : ℕ) (c d : Conversation) (table : List Conversation)
    → c.user_id ≢ user
    → owned user (get tenant deleted table) ≡ ok d
    → get home id table ≡ some c
    → get home id (mark_deleted now tenant deleted table) ≡ some c
get-mark_deleted now home id tenant deleted user c d [] apart mine h = h
get-mark_deleted now home id tenant deleted user c d (r ∷ rs) apart mine h =
    elim (Bool-cases (is_at tenant deleted r)) [
      | inl e ↦ elim (Bool-cases (is_at home id r)) [
        | inl f ↦ absurd (ground (arith, e, f, apart, mine, h, owned-user user r d))
        | inr f ↦ ground (arith, e, f, h)
      ]
      | inr e ↦
          ground (arith, e, mine, h, get-mark_deleted now home id tenant deleted user c d rs apart)
    ]

get-delete_with :
    {S : Type 0} (deleter : Option (ℕ → S → S)) (now home id tenant deleted user : ℕ)
    (c : Conversation) (table : List Conversation) (saver : S)
    (found : Result AppError Conversation)
    → c.user_id ≢ user
    → owned user (get tenant deleted table) ≡ found
    → get home id table ≡ some c
    → get home id (delete_with deleter now tenant deleted table saver found).1.0 ≡ some c
get-delete_with deleter now home id tenant deleted user c table saver (err e) apart mine h = h
get-delete_with deleter now home id tenant deleted user c table saver (ok d) apart mine h =
    get-mark_deleted now home id tenant deleted user c d table apart mine h

get-serve :
    {S : Type 0} (deleter : Option (ℕ → S → S)) (home id tenant user : ℕ) (c : Conversation)
    (q : Request) (s : List Conversation × S)
    → c.user_id ≢ user
    → get home id s.0 ≡ some c
    → get home id (serve deleter tenant user q s).0 ≡ some c
unfolding start delete load_owned
get-serve deleter home id tenant user c (start_thread now new title) (table, saver) apart h =
    ground
      (arith, h, get-append home id c table (new_conversation now new tenant user title ∷ []) h)
get-serve deleter home id tenant user c (delete_thread now deleted) (table, saver) apart h =
    get-delete_with deleter now home id tenant deleted user c table saver
      (owned user (get tenant deleted table)) apart refl h

get-serve_all :
    {S : Type 0} (deleter : Option (ℕ → S → S)) (home id tenant user : ℕ) (c : Conversation)
    (qs : List Request) (s : List Conversation × S)
    → c.user_id ≢ user
    → get home id s.0 ≡ some c
    → get home id (serve_all deleter tenant user qs s).0 ≡ some c
get-serve_all deleter home id tenant user c [] s apart h = h
get-serve_all deleter home id tenant user c (q ∷ qs) s apart h =
    get-serve_all deleter home id tenant user c qs (serve deleter tenant user q s) apart
      (get-serve deleter home id tenant user c q s apart h)

-- Whatever threads a user opens and asks to delete, in whatever order and whatever the checkpointer
-- does, the rows of every other user stay as they were and in their order.
pub serve_all-rows_of :
    {S : Type 0} (deleter : Option (ℕ → S → S)) (tenant user other : ℕ) (qs : List Request)
    (s : List Conversation × S)
    → other ≢ user
    → rows_of other (serve_all deleter tenant user qs s).0 ≡ rows_of other s.0
serve_all-rows_of deleter tenant user other [] s apart = refl
serve_all-rows_of deleter tenant user other (q ∷ qs) s apart =
    serve_all-rows_of deleter tenant user other qs (serve deleter tenant user q s) apart
    ∙ rows_of-serve deleter tenant user other q s apart

delete_with-IsKeyed :
    {S : Type 0} (deleter : Option (ℕ → S → S)) (now tenant id : ℕ) (table : List Conversation)
    (saver : S) (found : Result AppError Conversation)
    → IsKeyed table
    → IsKeyed (delete_with deleter now tenant id table saver found).1.0
delete_with-IsKeyed deleter now tenant id table saver (err e) k = k
delete_with-IsKeyed deleter now tenant id table saver (ok c) k =
    mark_deleted-IsKeyed now tenant id table k

serve-IsKeyed :
    {S : Type 0} (deleter : Option (ℕ → S → S)) (tenant user : ℕ) (q : Request)
    (s : List Conversation × S)
    → IsKeyed s.0
    → IsKeyed (serve deleter tenant user q s).0
unfolding start delete load_owned
serve-IsKeyed deleter tenant user (start_thread now id title) (table, saver) k =
    elim (Bool-cases (holds_id id table)) [
      | inl e ↦ rw e k
      | inr e ↦ rw e (append-IsKeyed (new_conversation now id tenant user title) table e k)
    ]
serve-IsKeyed deleter tenant user (delete_thread now id) (table, saver) k =
    delete_with-IsKeyed deleter now tenant id table saver (owned user (get tenant id table)) k

serve_all-IsKeyed :
    {S : Type 0} (deleter : Option (ℕ → S → S)) (tenant user : ℕ) (qs : List Request)
    (s : List Conversation × S)
    → IsKeyed s.0
    → IsKeyed (serve_all deleter tenant user qs s).0
serve_all-IsKeyed deleter tenant user [] s k = k
serve_all-IsKeyed deleter tenant user (q ∷ qs) s k =
    serve_all-IsKeyed deleter tenant user qs (serve deleter tenant user q s)
      (serve-IsKeyed deleter tenant user q s k)

owned-refused :
    (user : ℕ) (c : Conversation)
    → c.user_id ≢ user
    → c.deleted_at ≡ none
    → owned user (some c) ≡ err permission_denied
owned-refused user c apart live = ground (arith, apart, live)

-- Whatever threads another user than its owner opens and asks to delete, in whatever order and
-- whatever the checkpointer does, in a table of distinct ids: a live conversation is still found in
-- its tenant as it was, all rows of its owner stay as they were and in their order, and the other
-- user is refused it, with a 403 in its tenant and with a 404 in any other.
pub conversations_are_private :
    {S : Type 0} (deleter : Option (ℕ → S → S)) (home tenant user id : ℕ) (c : Conversation)
    (qs : List Request) (s : List Conversation × S)
    → IsKeyed s.0
    → c.user_id ≢ user
    → c.deleted_at ≡ none
    → get home id s.0 ≡ some c
    → (get home id (serve_all deleter tenant user qs s).0 ≡ some c)
      × (rows_of c.user_id (serve_all deleter tenant user qs s).0 ≡ rows_of c.user_id s.0)
      × (load_owned tenant user id (serve_all deleter tenant user qs s).0
          ≡ err (if tenant == home then permission_denied else not_found))
unfolding load_owned
conversations_are_private deleter home tenant user id c qs s keyed apart live h =
    let after = (serve_all deleter tenant user qs s).0 in
    let kept = get-serve_all deleter home id tenant user c qs s apart h in
    (
      kept,
      serve_all-rows_of deleter tenant user c.user_id qs s apart,
      elim (Bool-cases (tenant == home)) [
        | inl e ↦ rw e (
            ap (λ t. owned user (get t id after)) ((==_iff tenant home).0 e)
            ∙ ap (λ o. owned user o) kept
            ∙ owned-refused user c apart live)
        | inr e ↦ rw e (
            ap (λ o. owned user o)
              (get-hidden home tenant id c after (serve_all-IsKeyed deleter tenant user qs s keyed)
                kept (λ same. absurd (ground (arith, e, ==_iff tenant home, same)))))
      ],
    )
