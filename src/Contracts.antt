-- ===== src/Contracts.antt =====
-- packages/contracts/src/index.ts: the facts that the packages exchange.
-- A record is frozen in the source and a value here. An optional field is an `Option`; a policy's
-- map of names is a list of its own properties. An epoch time in a stored assignment has passed the
-- check for a non-negative safe integer, so it is a natural number.
use authorization_core.Common.{ℕ, Bool, Option, List}
use authorization_core.Text.{Text}

pub record IdentityLinkKey : Type 0 where
  pub issuer : Text
  pub subject : Text

pub record IdentityLink : Type 0 where
  pub key : IdentityLinkKey
  pub principal_id : Text

pub data RoleAssignmentScope : Type 0 where
  application : RoleAssignmentScope
  organization : Text → RoleAssignmentScope

pub data RoleAssignmentActor : Type 0 where
  principal system : Text → RoleAssignmentActor

-- The immutable evidence of a grant.
pub record RoleAssignmentGrant : Type 0 where
  pub id : Text
  pub principal_id : Text
  pub role : Text
  pub scope : RoleAssignmentScope
  pub granted_by : RoleAssignmentActor
  pub granted_at_epoch_ms : ℕ

-- What a revocation adds.
pub record Revocation : Type 0 where
  pub revoked_by : RoleAssignmentActor
  pub revoked_at_epoch_ms : ℕ
  pub reason : Option Text

-- The two lifecycle states; each extends the grant.
pub data RoleAssignment : Type 0 where
  active : RoleAssignmentGrant → RoleAssignment
  revoked : RoleAssignmentGrant → Revocation → RoleAssignment

abbrev pub grant_of : RoleAssignment → RoleAssignmentGrant
grant_of (active g) = g
grant_of (revoked g r) = g

pub record AccessSubject : Type 0 where
  pub principal_id : Text
  pub roles : Option (List Text)
  pub entitlements : Option (List Text)

pub record AccessPolicy : Type 0 where
  pub version : Text
  pub defaults : Option (List Text)
  pub roles : Option (List (Text × List Text))
  pub entitlements : Option (List (Text × List Text))

pub record AccessContext : Type 0 where
  pub principal_id : Text
  pub policy_version : Text
  pub roles : List Text
  pub entitlements : List Text
  pub permissions : List Text

pub record AccessResolutionDiagnostics : Type 0 where
  pub unknown_roles : List Text
  pub unknown_entitlements : List Text

pub record AccessResolution : Type 0 where
  pub context : AccessContext
  pub diagnostics : AccessResolutionDiagnostics

pub data AccessDecisionReason : Type 0 where
  granted not_granted : AccessDecisionReason

pub record AccessDecision : Type 0 where
  pub allowed : Bool
  pub permission : Text
  pub reason : AccessDecisionReason
