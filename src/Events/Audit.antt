-- ===== src/Events/Audit.antt =====
-- internal/events/audit.go: what is logged of an event, and that it is published.
use bingsan.Prelude.{String, Bool, Option, none, some, List, [], ◌∷◌, ◌++◌, ◌==◌, if◌then◌else◌}
use bingsan.Prelude.Int.{ℤ, pos, eqb_ℤ}
use bingsan.Go.Value.{Fields}
use bingsan.Events.{CatalogEvent, AuditEvent, event_type_text}
use bingsan.Events.Broker.{Broker, publish}

-- A row of `audit_log`. NULL is `none`; `metadata` holds the object, that is `{}` if it has no JSON.
pub record AuditRow : Type 0 where
  pub event_type : String
  pub event_id : String
  pub timestamp : ℤ
  pub namespace : Option String
  pub table_name : Option String
  pub view_name : Option String
  pub actor : String
  pub actor_type : String
  pub ip_address : Option String
  pub user_agent : Option String
  pub request_id : Option String
  pub response_code : Option ℤ
  pub metadata : Option Fields

abbrev pub null_if_empty : String → Option String
null_if_empty s = if s == "" then none else some s

abbrev pub null_if_zero : ℤ → Option ℤ
null_if_zero n = if eqb_ℤ n (pos 0) then none else some n

module _ (to_json : Fields → Option Fields) where
  unfoldable pub audit_row : AuditEvent → AuditRow
  audit_row e = record {
    event_type = event_type_text e.event.type;
    event_id = e.event.id;
    timestamp = e.event.timestamp;
    namespace = null_if_empty e.event.namespace;
    table_name = null_if_empty e.event.table;
    view_name = null_if_empty e.event.view;
    actor = e.event.actor;
    actor_type = e.actor_type;
    ip_address = null_if_empty e.ip_address;
    user_agent = null_if_empty e.user_agent;
    request_id = null_if_empty e.request_id;
    response_code = null_if_zero e.response_code;
    metadata = to_json e.event.metadata;
  }

  abbrev published : CatalogEvent → Option Broker → Option (Option Broker)
  published e none = some none
  published e (some b) = elim (publish e b) [ none ↦ none | some after ↦ some (some after) ]

  -- The rows and the broker after `Log`, which returns no error; `down` is an insert that fails, and
  -- no broker is nil.
  unfoldable pub log :
      Bool
      → Bool
      → AuditEvent
      → List AuditRow
      → Option Broker
      → List AuditRow × Option (Option Broker)
  log enabled down e rows broker =
      if enabled
      then ((if down then rows else rows ++ audit_row e ∷ []), published e.event broker)
      else (rows, published e.event broker)
