-- ===== src/Core/Permissions/Bundles.antt =====
-- What the bundles of core/permissions.py grant, beyond the import-time assertions.
use python_fullstack.Base.{◌≡◌, refl, true, ◌⊎◌, ◌↔◌, inl, inr, arith}
use python_fullstack.Core.Permissions.{
  Permission, Role, tenant_admin, cs_lead, cs_agent, team_manager, ticket_close, embedding_manage,
  tenant_manage, has_permission,
}

-- Closing is held by customer support and the tenant's administrator, and by nobody else.
pub close_holders :
    (r : Role)
    → (has_permission r ticket_close ≡ true)
      ↔ ((r ≡ tenant_admin) ⊎ ((r ≡ cs_lead) ⊎ (r ≡ cs_agent)))
unfolding has_permission
close_holders r = ground arith

-- The index is operated by team managers and the administrator, and by nobody else.
pub embedding_holders :
    (r : Role)
    → (has_permission r embedding_manage ≡ true) ↔ ((r ≡ tenant_admin) ⊎ (r ≡ team_manager))
unfolding has_permission
embedding_holders r = ground arith

-- The administrator holds every permission but that of managing tenants.
pub admin_holds_all :
    (p : Permission) → (has_permission tenant_admin p ≡ true) ⊎ (p ≡ tenant_manage)
unfolding has_permission
admin_holds_all tenant_manage = inr refl
admin_holds_all _ = inl refl

-- What any role holds, the administrator holds.
pub admin_is_top :
    (r : Role) (p : Permission) → has_permission r p ≡ true → has_permission tenant_admin p ≡ true
unfolding has_permission
admin_is_top r tenant_manage h = ground arith
admin_is_top r _ h = refl
