-- ===== src/Access.antt =====
-- app/roles.py and app/permissions.py: role names, the two planes, and which roles may do what to a
-- run in which status.
pub mod Names
pub mod Gates
mod Tests
use pmvp.Prelude.{
  ℕ, Bool, true, false, not, ◌&&◌, ◌||◌, ◌==◌, Option, none, some, List, [], ◌∷◌, ◌++◌,
  if◌then◌else◌,
}
use pmvp.Text.{Text, codes, text_eq, strip, lower}
use pmvp.Status.{RunStatus, Run, is_pending, is_sendable, is_deletable, is_draft, is_approved}

abbrev pub admin : Text
admin = codes "admin"

abbrev pub md : Text
md = codes "md"

abbrev pub payroll_officer : Text
payroll_officer = codes "payroll_officer"

abbrev pub accounts_officer : Text
accounts_officer = codes "accounts_officer"

-- PAYROLLA_ADMIN and PAYROLLA_REVIEWER
abbrev pub payrolla_admin : Text
payrolla_admin = codes "payrolla_admin"

abbrev pub payrolla_reviewer : Text
payrolla_reviewer = codes "payrolla_reviewer"

abbrev pub client_admin : Text
client_admin = codes "client_admin"

abbrev pub client_preparer : Text
client_preparer = codes "client_preparer"

-- LEGACY_ROLE_ALIASES
abbrev chrisnat_admin : Text
chrisnat_admin = codes "chrisnat_admin"

abbrev chrisnat_reviewer : Text
chrisnat_reviewer = codes "chrisnat_reviewer"

-- `LEGACY_ROLE_ALIASES.get(role, role)`
pub resolve_alias : Text → Text
resolve_alias role =
    if text_eq role chrisnat_admin
    then payrolla_admin
    else (if text_eq role chrisnat_reviewer then payrolla_reviewer else role)

unfoldable pub normalise_role : Text → Text
unfolding resolve_alias
normalise_role role = resolve_alias (lower (strip role))

-- `role in group`
unfoldable pub member : Text → List Text → Bool
member role [] = false
member role (r ∷ group) = text_eq role r || member role group

-- PLATFORM_ROLES
abbrev pub platform_roles : List Text
platform_roles =
    payrolla_admin
    ∷ payrolla_reviewer
    ∷ admin
    ∷ md
    ∷ payroll_officer
    ∷ accounts_officer
    ∷ codes "operations_supervisor"
    ∷ codes "viewer"
    ∷ []

-- TENANT_ROLES
abbrev pub tenant_roles : List Text
tenant_roles = client_admin ∷ client_preparer ∷ []

unfoldable pub is_platform_role : Text → Bool
unfolding normalise_role member
is_platform_role role = member (normalise_role role) platform_roles

unfoldable pub is_tenant_role : Text → Bool
unfolding normalise_role member
is_tenant_role role = member (normalise_role role) tenant_roles

-- The columns of a user that decide the plane.
pub record User : Type 0 where
  pub is_authenticated : Bool
  pub client_company_id : Option ℕ
  pub role : Text

abbrev pub is_none : Option ℕ → Bool
is_none none = true
is_none (some _) = false

unfoldable pub is_platform_user : User → Bool
is_platform_user user = user.is_authenticated && is_none user.client_company_id

unfoldable pub is_tenant_user : User → Bool
is_tenant_user user = user.is_authenticated && not (is_none user.client_company_id)

-- SUPERUSERS
abbrev superusers : List Text
superusers = md ∷ payrolla_admin ∷ []

-- PAYROLL_ROLES
abbrev pub payroll_roles : List Text
payroll_roles = admin ∷ payroll_officer ∷ accounts_officer ∷ superusers

-- CALCULATE_ROLES
abbrev pub calculate_roles : List Text
calculate_roles = admin ∷ payrolla_admin ∷ []

-- SUBMIT_APPROVAL_ROLES
abbrev pub submit_approval_roles : List Text
submit_approval_roles = admin ∷ accounts_officer ∷ payrolla_admin ∷ []

-- APPROVAL_ROLES
abbrev pub approval_roles : List Text
approval_roles = admin ∷ superusers

-- MARK_PROCESSED_ROLES
abbrev pub mark_processed_roles : List Text
mark_processed_roles = admin ∷ accounts_officer ∷ superusers

-- DELETE_ROLES
abbrev pub delete_roles : List Text
delete_roles = admin ∷ superusers

-- `_in(role, group)`, and the test of `role_required(*group)`
unfoldable pub in_group : Text → List Text → Bool
unfolding normalise_role member
in_group role group = member (normalise_role role) group

unfoldable pub can_operate_payroll : Text → Bool
unfolding in_group
can_operate_payroll role = in_group role payroll_roles

unfoldable pub can_calculate_run : Text → Run → Bool
unfolding in_group
can_calculate_run role run = in_group role calculate_roles && is_pending run.status

unfoldable pub can_submit_run_for_approval : Text → Run → Bool
unfolding in_group
can_submit_run_for_approval role run = in_group role submit_approval_roles && is_draft run.status

unfoldable pub can_approve_run : Text → Run → Bool
unfolding in_group
can_approve_run role run =
    if run.total_workers == 0 then false else in_group role approval_roles && is_pending run.status

unfoldable pub can_reject_run : Text → Run → Bool
unfolding in_group
can_reject_run role run = in_group role approval_roles && is_pending run.status

unfoldable pub can_mark_run_processed : Text → Run → Bool
unfolding in_group
can_mark_run_processed role run = in_group role mark_processed_roles && is_approved run.status

unfoldable pub can_distribute_run : Text → Run → Bool
unfolding in_group
can_distribute_run role run = in_group role payroll_roles && is_sendable run.status

unfoldable pub can_delete_run : Text → Run → Bool
unfolding in_group
can_delete_run role run = in_group role delete_roles && is_deletable run.status

-- The tenant plane: EXPENSE_ROLES, BRANDING_ROLES and DISTRIBUTION_SEND_ROLES.
unfoldable pub can_record_expenses : Text → Bool
unfolding in_group
can_record_expenses role = in_group role (client_admin ∷ client_preparer ∷ [])

unfoldable pub can_manage_branding : Text → Bool
unfolding in_group
can_manage_branding role = in_group role (client_admin ∷ [])

unfoldable pub can_send_payslips : Text → Bool
unfolding in_group
can_send_payslips role = in_group role (client_admin ∷ [])
