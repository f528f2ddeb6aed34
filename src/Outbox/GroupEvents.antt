-- ===== src/Outbox/GroupEvents.antt =====
-- The factories of user group events: src/modules/security-event/services/outbox-event.service.ts.
-- The first argument of each is the moment.
use access_service.Prelude.{ℕ, String, Bool, Option, List, [], ◌∷◌, get_or_else, if◌then◌else◌}
use access_service.Outbox.Event.{
  OutboxContext, OutboxEventEntity, Payload, id_value, number, text_value, truth, ids, json, actor,
  optional, pending_event, user_group_aggregate, EventType, user_group_created, user_group_updated,
  user_group_deactivated, user_group_reactivated, user_group_roles_assigned,
  user_group_role_unassigned, user_group_scope_updated, authorization_user_group_updated,
}

-- What the events read of a group.
pub record EventGroup : Type 0 where
  pub id : ℕ
  pub name : String
  pub version : ℕ

pub record UserGroupUpdatedEventData : Type 0 where
  pub user_group : EventGroup
  pub previous_name : Option String
  pub previous_description : Option String
  pub previous_matching_rule : Option String
  pub added_role_ids : Option (List ℕ)
  pub removed_role_ids : Option (List ℕ)

abbrev actor_and_time : ℕ → OutboxContext → Payload
actor_and_time now ctx = ("actorUserId", actor ctx) ∷ ("timestamp", number now) ∷ []

abbrev of_group : OutboxContext → EventGroup → EventType → Payload → OutboxEventEntity
of_group ctx g event_type payload =
    pending_event ctx user_group_aggregate g.id event_type
      (("userGroupId", id_value g.id) ∷ payload)

unfoldable pub from_user_group_created :
    ℕ → OutboxContext → EventGroup → Option (List ℕ) → OutboxEventEntity
from_user_group_created now ctx g role_ids = of_group ctx g user_group_created (
    ("name", text_value g.name)
    ∷ ("groupName", text_value g.name)
    ∷ ("version", number g.version)
    ∷ ("roleIds", ids (get_or_else role_ids []))
    ∷ actor_and_time now ctx)

-- The name and the version of the group, which most events carry.
abbrev of_named : OutboxContext → EventGroup → EventType → Payload → OutboxEventEntity
of_named ctx g event_type payload =
    of_group ctx g event_type
      (("groupName", text_value g.name) ∷ ("version", number g.version) ∷ payload)

unfoldable pub from_user_group_updated :
    ℕ → OutboxContext → UserGroupUpdatedEventData → OutboxEventEntity
from_user_group_updated now ctx d = of_named ctx d.user_group user_group_updated (
    ("previousName", optional text_value d.previous_name)
    ∷ ("previousDescription", optional text_value d.previous_description)
    ∷ ("previousMatchingRule", optional json d.previous_matching_rule)
    ∷ ("addedRoleIds", optional ids d.added_role_ids)
    ∷ ("removedRoleIds", optional ids d.removed_role_ids)
    ∷ actor_and_time now ctx)

unfoldable pub from_user_group_deactivated : ℕ → OutboxContext → EventGroup → OutboxEventEntity
from_user_group_deactivated now ctx g =
    of_named ctx g user_group_deactivated (actor_and_time now ctx)

unfoldable pub from_user_group_reactivated : ℕ → OutboxContext → EventGroup → OutboxEventEntity
from_user_group_reactivated now ctx g =
    of_named ctx g user_group_reactivated (actor_and_time now ctx)

unfoldable pub from_user_group_roles_assigned :
    ℕ → OutboxContext → EventGroup → List ℕ → List ℕ → List ℕ → OutboxEventEntity
from_user_group_roles_assigned now ctx g assigned added previous =
    of_named ctx g user_group_roles_assigned (
      ("assignedRoleIds", ids assigned)
      ∷ ("addedRoleIds", ids added)
      ∷ ("previousRoleIds", ids previous)
      ∷ actor_and_time now ctx)

unfoldable pub from_user_group_role_unassigned :
    ℕ → OutboxContext → EventGroup → List ℕ → List ℕ → List ℕ → OutboxEventEntity
from_user_group_role_unassigned now ctx g assigned removed previous =
    of_named ctx g user_group_role_unassigned (
      ("assignedRoleIds", ids assigned)
      ∷ ("removedRoleIds", ids removed)
      ∷ ("previousRoleIds", ids previous)
      ∷ actor_and_time now ctx)

-- The scopes are given by their JSON texts.
unfoldable pub from_user_group_scope_updated :
    ℕ → OutboxContext → EventGroup → String → String → OutboxEventEntity
from_user_group_scope_updated now ctx g previous_scope new_scope =
    of_named ctx g user_group_scope_updated (
      ("previousScope", json previous_scope)
      ∷ ("newScope", json new_scope)
      ∷ actor_and_time now ctx)

abbrev urgency : Option Bool → String
urgency is_urgent = if get_or_else is_urgent Bool.false then "URGENT" else "STANDARD"

unfoldable pub from_authorization_user_group_updated :
    ℕ → OutboxContext → EventGroup → Option Bool → OutboxEventEntity
from_authorization_user_group_updated now ctx g is_urgent =
    of_group ctx g authorization_user_group_updated (
      ("tenantCode", id_value ctx.tenant_code)
      ∷ ("version", number g.version)
      ∷ ("priority", text_value (urgency is_urgent))
      ∷ ("urgency", text_value (urgency is_urgent))
      ∷ ("isUrgent", truth (get_or_else is_urgent Bool.false))
      ∷ ("timestamp", number now)
      ∷ [])
