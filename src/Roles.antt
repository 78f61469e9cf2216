-- ===== src/Roles.antt =====
-- The membership roles of shared/chama-roles.ts.
use mduara_api.Prelude.{Bool, true, false, ◌||◌, List, any}

pub data Role : Type 0 where
  member treasurer secretary chairperson : Role

abbrev pub role_eq : Role → Role → Bool
role_eq member member = true
role_eq treasurer treasurer = true
role_eq secretary secretary = true
role_eq chairperson chairperson = true
role_eq _ _ = false

-- `isDatabaseChamaOffice`
abbrev pub is_office : Role → Bool
is_office member = false
is_office _ = true

-- `databaseChamaRoleSatisfies`
unfoldable pub role_satisfies : Role → Role → Bool
role_satisfies actual required = role_eq required member || role_eq actual required

-- `databaseChamaRoleMatchesAny`
unfoldable pub role_matches_any : Role → List Role → Bool
unfolding role_satisfies
role_matches_any actual allowed = any (λ required. role_satisfies actual required) allowed

-- `LEADERSHIP` of services/mgr.service.ts.
abbrev pub is_leadership : Role → Bool
is_leadership chairperson = true
is_leadership secretary = true
is_leadership treasurer = true
is_leadership member = false

-- `['chairperson', 'treasurer'].includes(role)`, and `PAYOUT_ROLES` of services/mgr.service.ts.
abbrev pub is_financial : Role → Bool
is_financial chairperson = true
is_financial treasurer = true
is_financial _ = false
