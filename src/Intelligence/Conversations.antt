-- ===== src/Intelligence/Conversations.antt =====
-- backend/app/modules/intelligence/chat_service.py, the threads and their retention, on the table
-- `ai_conversations`. A time is a number of microseconds, and `now` is an argument. An id stands for
-- its text too, which is the key of the checkpoints. The checkpointer is LangGraph's: its state and
-- its `adelete_thread`, which it may lack, are arguments; where a call fails, the function says what
-- is left. Listing, sending and counting are left out.
pub mod Keys
pub mod Private
pub mod Retention
use python_fullstack.Base.{
  ℕ, zero, suc, ◌+◌, ◌*◌, Bool, true, false, not, ◌&&◌, ◌||◌, Option, none, some, List, [], ◌∷◌,
  ◌++◌, String, ltb, ◌==◌, if◌then◌else◌, contains,
}
use python_fullstack.Base.Exec.{Result, ok, err}
use python_fullstack.Base.Text.{is_empty, take_text}
use python_fullstack.Core.Errors.{AppError, internal, not_found, permission_denied}
use python_fullstack.Intelligence.Jobs.{second}

pub record Conversation : Type 0 where
  pub id : ℕ
  pub tenant_id : ℕ
  pub user_id : ℕ
  pub thread_id : ℕ
  pub title : String
  pub message_count : ℕ
  pub last_message_at : Option ℕ
  pub expires_at : ℕ
  pub deleted_at : Option ℕ

abbrev pub chat_retention_days : ℕ
chat_retention_days = 30

abbrev pub or_new : Option String → String
or_new none = "New conversation"
or_new (some s) = if is_empty s then "New conversation" else s

-- The row that `start` leaves, with the id that the flush assigns
abbrev pub new_conversation : ℕ → ℕ → ℕ → ℕ → Option String → Conversation
new_conversation now id tenant user title = record {
  id = id;
  tenant_id = tenant;
  user_id = user;
  thread_id = id;
  title = take_text 200 (or_new title);
  message_count = 0;
  last_message_at = none;
  expires_at = now + chat_retention_days * 24 * 60 * 60 * second;
  deleted_at = none;
}

-- The primary key
abbrev pub holds_id : ℕ → List Conversation → Bool
holds_id id [] = false
holds_id id (c ∷ cs) = (c.id == id) || holds_id id cs

-- `start`, whose flush raises on a taken key
unfoldable pub start :
    ℕ
    → ℕ
    → ℕ
    → ℕ
    → Option String
    → List Conversation
    → Result AppError Conversation × List Conversation
start now id tenant user title table =
    let c = new_conversation now id tenant user title in
    if holds_id id table then (err internal, table) else (ok c, table ++ c ∷ [])

-- `session.get` in a session of a tenant: row level security, which migration 0004 forces on the
-- table, hides the rows of the other tenants.
abbrev pub get : ℕ → ℕ → List Conversation → Option Conversation
get tenant id [] = none
get tenant id (c ∷ cs) =
    let rest = get tenant id cs in if (c.id == id) && (c.tenant_id == tenant) then some c else rest

-- The two guards of `_load_owned`
abbrev pub owned : ℕ → Option Conversation → Result AppError Conversation
owned user none = err not_found
owned user (some c) = elim c.deleted_at [
  | some at ↦ err not_found
  | none ↦ if c.user_id == user then ok c else err permission_denied
]

unfoldable pub load_owned : ℕ → ℕ → ℕ → List Conversation → Result AppError Conversation
load_owned tenant user id table = owned user (get tenant id table)

-- `_forget_checkpoints`
abbrev pub forget_checkpoints : {S : Type 0} → Option (ℕ → S → S) → ℕ → S → S
forget_checkpoints none id saver = saver
forget_checkpoints (some delete_thread) id saver = delete_thread id saver

-- `deleted_at` is set on the row that `get` gave.
abbrev pub mark_deleted : ℕ → ℕ → ℕ → List Conversation → List Conversation
mark_deleted now tenant id [] = []
mark_deleted now tenant id (c ∷ cs) =
    let rest = mark_deleted now tenant id cs in
    if (c.id == id) && (c.tenant_id == tenant)
    then record c { deleted_at = some now } ∷ cs
    else c ∷ rest

abbrev pub delete_with :
    {S : Type 0}
    → Option (ℕ → S → S)
    → ℕ
    → ℕ
    → ℕ
    → List Conversation
    → S
    → Result AppError Conversation
    → Result AppError (Unit {0}) × (List Conversation × S)
delete_with deleter now tenant id table saver (err e) = (err e, (table, saver))
delete_with deleter now tenant id table saver (ok c) =
    (ok tt, (mark_deleted now tenant id table, forget_checkpoints deleter id saver))

-- `delete`
unfoldable pub delete :
    {S : Type 0}
    → Option (ℕ → S → S)
    → ℕ
    → ℕ
    → ℕ
    → ℕ
    → List Conversation
    → S
    → Result AppError (Unit {0}) × (List Conversation × S)
unfolding load_owned
delete deleter now tenant user id table saver =
    delete_with deleter now tenant id table saver (load_owned tenant user id table)

abbrev pub is_live : Conversation → Bool
is_live c = elim c.deleted_at [ none ↦ true | some at ↦ false ]

abbrev pub is_expired : ℕ → ℕ → Conversation → Bool
is_expired now tenant c = (c.tenant_id == tenant) && (ltb c.expires_at now && is_live c)

-- The ids that `expire_due` selects, of the session's tenant
abbrev pub due : ℕ → ℕ → List Conversation → List ℕ
due now tenant [] = []
due now tenant (c ∷ cs) =
    let rest = due now tenant cs in if is_expired now tenant c then c.id ∷ rest else rest

abbrev pub without : ℕ → List ℕ → List Conversation → List Conversation
without tenant ids [] = []
without tenant ids (c ∷ cs) =
    let rest = without tenant ids cs in
    if (c.tenant_id == tenant) && contains ids c.id then rest else c ∷ rest

abbrev pub forget_all : {S : Type 0} → Option (ℕ → S → S) → List ℕ → S → S
forget_all deleter [] saver = saver
forget_all deleter (id ∷ ids) saver = forget_all deleter ids (forget_checkpoints deleter id saver)

-- `expire_due`
unfoldable pub expire_due :
    {S : Type 0} → Option (ℕ → S → S) → ℕ → ℕ → List Conversation → S → List Conversation × S
expire_due deleter now tenant table saver =
    let ids = due now tenant table in (without tenant ids table, forget_all deleter ids saver)
