-- ===== src/Outbox/RoleEvents.antt =====
-- The factories of role events: src/modules/security-event/services/outbox-event.service.ts. The
-- first argument of each is the moment.
use access_service.Prelude.{ℕ, String, Option, List, [], ◌∷◌, get_or_else}
use access_service.Outbox.Event.{
  OutboxContext, OutboxEventEntity, Payload, id_value, number, text_value, texts, actor, optional,
  pending_event, role_aggregate, EventType, role_created, role_copied, role_deactivated,
  role_reactivated, role_renamed, role_permissions_updated, role_protected_capability_violation,
}

-- What the events read of a role.
pub record EventRole : Type 0 where
  pub id : ℕ
  pub name : String
  pub role_type : String
  pub system_role_key : Option String
  pub version : ℕ

abbrev actor_and_time : ℕ → OutboxContext → Payload
actor_and_time now ctx = ("actorUserId", actor ctx) ∷ ("timestamp", number now) ∷ []

abbrev of_role : OutboxContext → EventRole → EventType → Payload → OutboxEventEntity
of_role ctx role event_type payload =
    pending_event ctx role_aggregate role.id event_type
      (("roleId", id_value role.id) ∷ ("tenantCode", id_value ctx.tenant_code) ∷ payload)

unfoldable pub from_role_created : ℕ → OutboxContext → EventRole → List String → OutboxEventEntity
from_role_created now ctx role permission_codes = of_role ctx role role_created (
    ("roleName", text_value role.name)
    ∷ ("roleType", text_value role.role_type)
    ∷ ("version", number role.version)
    ∷ ("permissionCodes", texts permission_codes)
    ∷ actor_and_time now ctx)

unfoldable pub from_role_copied :
    ℕ → OutboxContext → EventRole → ℕ → List String → OutboxEventEntity
from_role_copied now ctx role source_role_id permission_codes = of_role ctx role role_copied (
    ("sourceRoleId", id_value source_role_id)
    ∷ ("roleName", text_value role.name)
    ∷ ("roleType", text_value role.role_type)
    ∷ ("version", number role.version)
    ∷ ("permissionCodes", texts permission_codes)
    ∷ actor_and_time now ctx)

unfoldable pub from_role_deactivated :
    ℕ → OutboxContext → EventRole → Option ℕ → Option ℕ → OutboxEventEntity
from_role_deactivated now ctx role affected_user_group_count affected_user_count =
    of_role ctx role role_deactivated (
      ("roleName", text_value role.name)
      ∷ ("roleType", text_value role.role_type)
      ∷ ("version", number role.version)
      ∷ ("affectedUserGroupCount", number (get_or_else affected_user_group_count 0))
      ∷ ("affectedUserCount", number (get_or_else affected_user_count 0))
      ∷ actor_and_time now ctx)

unfoldable pub from_role_reactivated : ℕ → OutboxContext → EventRole → OutboxEventEntity
from_role_reactivated now ctx role = of_role ctx role role_reactivated (
    ("roleName", text_value role.name)
    ∷ ("roleType", text_value role.role_type)
    ∷ ("version", number role.version)
    ∷ actor_and_time now ctx)

unfoldable pub from_rename_role :
    ℕ → OutboxContext → EventRole → String → String → OutboxEventEntity
from_rename_role now ctx role old_name new_name = of_role ctx role role_renamed (
    ("oldName", text_value old_name)
    ∷ ("newName", text_value new_name)
    ∷ ("roleType", text_value role.role_type)
    ∷ ("systemRoleKey", optional text_value role.system_role_key)
    ∷ actor_and_time now ctx)

unfoldable pub from_permissions_updated :
    ℕ → OutboxContext → EventRole → List String → OutboxEventEntity
from_permissions_updated now ctx role permission_codes = of_role ctx role role_permissions_updated (
    ("roleName", text_value role.name)
    ∷ ("version", number role.version)
    ∷ ("permissionCodes", texts permission_codes)
    ∷ actor_and_time now ctx)

unfoldable pub from_protected_capability_violation :
    ℕ → OutboxContext → EventRole → List String → OutboxEventEntity
from_protected_capability_violation now ctx role omitted =
    of_role ctx role role_protected_capability_violation (
      ("roleName", text_value role.name)
      ∷ ("omittedProtectedCapabilities", texts omitted)
      ∷ actor_and_time now ctx)
