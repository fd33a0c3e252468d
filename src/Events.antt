-- ===== src/Events.antt =====
-- internal/events/types.go, and what broker.go, audit.go and the handlers of api/handlers/events.go
-- work on: catalog events, their topics, and events for the audit log.
pub mod Broker
pub mod Spec
pub mod Registry
pub mod Channels
pub mod Refinement
pub mod Runs
pub mod Bounds
pub mod Stream
pub mod Audit
pub mod Connection
mod Tests
use Prim.Native.String
use bingsan.Prelude.{String, Bool, not, ◌==◌, if◌then◌else◌}
use bingsan.Prelude.Int.{ℤ, pos}
use bingsan.Go.Value.{Value, Fields, end}
use bingsan.Go.Map.{set}

pub data EventType : Type 0 where
  namespace_created namespace_updated namespace_dropped : EventType
  table_created table_updated table_dropped table_renamed table_committed : EventType
  view_created view_replaced view_dropped view_renamed : EventType
  transaction_committed transaction_failed : EventType
  scan_plan_submitted scan_plan_completed scan_plan_cancelled : EventType

abbrev pub event_type_text : EventType → String
event_type_text namespace_created = "namespace.created"
event_type_text namespace_updated = "namespace.updated"
event_type_text namespace_dropped = "namespace.dropped"
event_type_text table_created = "table.created"
event_type_text table_updated = "table.updated"
event_type_text table_dropped = "table.dropped"
event_type_text table_renamed = "table.renamed"
event_type_text table_committed = "table.committed"
event_type_text view_created = "view.created"
event_type_text view_replaced = "view.replaced"
event_type_text view_dropped = "view.dropped"
event_type_text view_renamed = "view.renamed"
event_type_text transaction_committed = "transaction.committed"
event_type_text transaction_failed = "transaction.failed"
event_type_text scan_plan_submitted = "scan.plan.submitted"
event_type_text scan_plan_completed = "scan.plan.completed"
event_type_text scan_plan_cancelled = "scan.plan.cancelled"

-- A text that is absent is empty.
pub record CatalogEvent : Type 0 where
  pub id : String
  pub type : EventType
  pub timestamp : ℤ
  pub namespace : String
  pub table : String
  pub view : String
  pub actor : String
  pub metadata : Fields

-- The new uuid and the clock are arguments.
abbrev pub new_event : String → ℤ → EventType → CatalogEvent
new_event id now type = record {
  id = id;
  type = type;
  timestamp = now;
  namespace = "";
  table = "";
  view = "";
  actor = "";
  metadata = end;
}

abbrev pub with_namespace : String → CatalogEvent → CatalogEvent
with_namespace s e = record e { namespace = s }

abbrev pub with_table : String → CatalogEvent → CatalogEvent
with_table s e = record e { table = s }

abbrev pub with_view : String → CatalogEvent → CatalogEvent
with_view s e = record e { view = s }

abbrev pub with_actor : String → CatalogEvent → CatalogEvent
with_actor s e = record e { actor = s }

abbrev pub with_metadata : String → Value → CatalogEvent → CatalogEvent
with_metadata k v e = record e { metadata = set k v e.metadata }

abbrev pub is_set : String → Bool
is_set s = not (s == "")

-- The topic of a name in a namespace.
abbrev pub topic_in : String → String → String
topic_in namespace name = String.◌++◌ namespace (String.◌++◌ "/" name)

unfoldable pub topic : CatalogEvent → String
topic e =
    if is_set e.table
    then topic_in e.namespace e.table
    else if is_set e.view
    then topic_in e.namespace e.view
    else if is_set e.namespace
    then e.namespace
    else "*"

-- `determineTopic`
unfoldable pub determine_topic : String → String → String
determine_topic namespace table =
    if is_set namespace then if is_set table then topic_in namespace table else namespace else "*"

pub record AuditEvent : Type 0 where
  pub event : CatalogEvent
  pub actor_type : String
  pub ip_address : String
  pub user_agent : String
  pub request_id : String
  pub response_code : ℤ

abbrev pub new_audit_event : CatalogEvent → AuditEvent
new_audit_event e = record {
  event = e;
  actor_type = "anonymous";
  ip_address = "";
  user_agent = "";
  request_id = "";
  response_code = pos 0;
}

abbrev pub with_actor_type : String → AuditEvent → AuditEvent
with_actor_type s e = record e { actor_type = s }

abbrev pub with_ip_address : String → AuditEvent → AuditEvent
with_ip_address s e = record e { ip_address = s }

abbrev pub with_user_agent : String → AuditEvent → AuditEvent
with_user_agent s e = record e { user_agent = s }

abbrev pub with_request_id : String → AuditEvent → AuditEvent
with_request_id s e = record e { request_id = s }

abbrev pub with_response_code : ℤ → AuditEvent → AuditEvent
with_response_code n e = record e { response_code = n }
