-- ===== src/Outbox/Event.antt =====
-- An event of the outbox and its table: toPlainOutboxData of
-- src/modules/security-event/services/outbox-event.service.ts, and create and save of
-- repositories/outbox-event.repository.ts.
use access_service.Prelude.{ℕ, String, Bool, Option, none, some, List, [], ◌∷◌, ◌++◌, get_or_else}

pub data OutboxAggregateType : Type 0 where
  role_aggregate user_group_aggregate authorization authz_sync user_aggregate security :
      OutboxAggregateType
  unknown_aggregate : OutboxAggregateType

pub data EventType : Type 0 where
  role_created role_copied role_deactivated role_reactivated role_renamed : EventType
  role_permissions_updated role_protected_capability_violation : EventType
  user_group_created user_group_updated user_group_deactivated user_group_reactivated : EventType
  user_group_roles_assigned user_group_role_unassigned user_group_scope_updated : EventType
  authorization_user_group_updated : EventType

pub data OutboxStatus : Type 0 where
  pending published failed : OutboxStatus

-- A value of a payload; `absent` is `undefined`, and an object is given by its JSON text.
pub data Value : Type 0 where
  absent : Value
  id_value : ℕ → Value
  number : ℕ → Value
  text_value : String → Value
  truth : Bool → Value
  ids : List ℕ → Value
  texts : List String → Value
  json : String → Value

abbrev pub Payload : Type 0
Payload = List (String × Value)

pub record OutboxContext : Type 0 where
  pub tenant_code : ℕ
  pub user_id : Option ℕ

pub record OutboxEventEntity : Type 0 where
  pub tenant_code : ℕ
  pub aggregate_type : OutboxAggregateType
  pub aggregate_id : ℕ
  pub event_type : EventType
  pub event_version : ℕ
  pub status : OutboxStatus
  pub payload : Payload

abbrev actor_of : Option ℕ → Value
actor_of none = text_value "SYSTEM"
actor_of (some id) = id_value id

-- `ctx.userId ?? 'SYSTEM'`
abbrev pub actor : OutboxContext → Value
actor ctx = actor_of ctx.user_id

abbrev pub optional : {A : Type 0} → (A → Value) → Option A → Value
optional f none = absent
optional f (some a) = f a

-- The fields that every factory sets alike.
abbrev pub pending_event :
    OutboxContext → OutboxAggregateType → ℕ → EventType → Payload → OutboxEventEntity
pending_event ctx aggregate_type id event_type payload = record {
  tenant_code = ctx.tenant_code;
  aggregate_type = aggregate_type;
  aggregate_id = id;
  event_type = event_type;
  event_version = 1;
  status = pending;
  payload = payload;
}

-- What `create` is given: every field but the type of the event is optional.
pub record OutboxData : Type 0 where
  pub tenant_code : Option ℕ
  pub aggregate_type : Option OutboxAggregateType
  pub aggregate_id : Option ℕ
  pub event_type : EventType
  pub event_version : Option ℕ
  pub status : Option OutboxStatus
  pub payload : Option Payload
  pub user_id : Option ℕ
  pub sanitized_payload : Option Payload

abbrev pub to_plain_outbox_data : OutboxEventEntity → OutboxData
to_plain_outbox_data e = record {
  tenant_code = some e.tenant_code;
  aggregate_type = some e.aggregate_type;
  aggregate_id = some e.aggregate_id;
  event_type = e.event_type;
  event_version = some e.event_version;
  status = some e.status;
  payload = some e.payload;
  user_id = none;
  sanitized_payload = none;
}

abbrev type_or_default : Option ℕ → OutboxAggregateType
type_or_default none = unknown_aggregate
type_or_default (some id) = user_aggregate

-- The first two arguments are the request's tenant and the identifier of zeros. Both branches of the
-- test of `publishStatus` give pending.
abbrev pub entity_of : ℕ → ℕ → OutboxData → OutboxEventEntity
entity_of tenant nil_uuid d = record {
  tenant_code = get_or_else d.tenant_code tenant;
  aggregate_type = get_or_else d.aggregate_type (type_or_default d.user_id);
  aggregate_id = get_or_else d.aggregate_id (get_or_else d.user_id nil_uuid);
  event_type = d.event_type;
  event_version = get_or_else d.event_version 1;
  status = get_or_else d.status pending;
  payload = get_or_else d.payload (get_or_else d.sanitized_payload []);
}

abbrev pub save_event : OutboxEventEntity → List OutboxEventEntity → List OutboxEventEntity
save_event e table = table ++ e ∷ []

unfoldable pub create_event : ℕ → ℕ → OutboxData → List OutboxEventEntity → List OutboxEventEntity
create_event tenant nil_uuid d table = save_event (entity_of tenant nil_uuid d) table
