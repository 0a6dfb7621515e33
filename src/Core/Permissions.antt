-- ===== src/Core/Permissions.antt =====
-- backend/app/core/permissions.py: permissions, roles, and the bundle of each role. A frozenset of
-- permissions is a list that is only ever asked for membership.
pub mod Bundles
use mathlib.Core.Logic.{ite}
use python_fullstack.Base.{
  ℕ, ◌≡◌, refl, Bool, true, false, not, ◌||◌, List, [], ◌∷◌, ◌++◌, ◌==◌, if◌then◌else◌,
}

pub data Permission : Type 0 where
  tenant_manage user_manage team_manage client_manage : Permission
  ticket_create ticket_read ticket_update ticket_assign ticket_transition : Permission
  ticket_resolve ticket_close ticket_reopen ticket_reject : Permission
  ticket_transfer_team ticket_override_priority : Permission
  embedding_manage comment_create attachment_upload audit_read : Permission

pub data Role : Type 0 where
  tenant_admin cs_lead cs_agent team_manager developer : Role

unfoldable pub Permission-discrete : Discrete Permission
Permission-discrete = hlevel

unfoldable pub Role-discrete : Discrete Role
Role-discrete = hlevel

-- `permission in permissions`
unfoldable pub holds : List Permission → Permission → Bool
unfolding Permission-discrete
holds [] p = false
holds (q ∷ qs) p = ite (Permission-discrete q p) true (holds qs p)

-- `set(Permission)`
abbrev pub all_permissions : List Permission
all_permissions =
    tenant_manage ∷ user_manage ∷ team_manage ∷ client_manage ∷ ticket_create ∷ ticket_read
    ∷ ticket_update ∷ ticket_assign ∷ ticket_transition ∷ ticket_resolve ∷ ticket_close
    ∷ ticket_reopen ∷ ticket_reject ∷ ticket_transfer_team ∷ ticket_override_priority
    ∷ embedding_manage ∷ comment_create ∷ attachment_upload ∷ audit_read ∷ []

-- `permissions - {p}`
unfoldable pub without : Permission → List Permission → List Permission
unfolding Permission-discrete
without p [] = []
without p (q ∷ qs) = let rest = without p qs in ite (Permission-discrete q p) rest (q ∷ rest)

abbrev pub platform_admin_permissions : List Permission
platform_admin_permissions = tenant_manage ∷ audit_read ∷ []

abbrev pub cs_shared : List Permission
cs_shared =
    ticket_create ∷ ticket_read ∷ ticket_update ∷ ticket_close ∷ ticket_reopen ∷ comment_create
    ∷ attachment_upload ∷ []

-- `ROLE_PERMISSIONS`; the table has every role, so the default of `permissions_for` is never taken.
unfoldable pub permissions_for : Role → List Permission
unfolding without
permissions_for tenant_admin = without tenant_manage all_permissions
permissions_for cs_lead =
    cs_shared
    ++ (client_manage ∷ ticket_assign ∷ ticket_transition ∷ ticket_reject ∷ ticket_transfer_team
        ∷ ticket_override_priority ∷ [])
permissions_for cs_agent = cs_shared
permissions_for team_manager =
    ticket_create ∷ ticket_read ∷ ticket_update ∷ ticket_assign ∷ ticket_transition ∷ ticket_resolve
    ∷ ticket_reopen ∷ ticket_reject ∷ ticket_transfer_team ∷ comment_create ∷ attachment_upload
    ∷ embedding_manage ∷ audit_read ∷ []
permissions_for developer =
    ticket_read ∷ ticket_update ∷ ticket_assign ∷ ticket_transition ∷ ticket_resolve ∷ ticket_reject
    ∷ comment_create ∷ attachment_upload ∷ []

unfoldable pub has_permission : Role → Permission → Bool
unfolding permissions_for holds
has_permission role p = holds (permissions_for role) p
