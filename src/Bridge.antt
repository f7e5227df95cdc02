-- ===== src/Bridge.antt =====
-- apps/api/app/services/request_state_bridge.py: the state of a request, from the database or from
-- the second store. The record that the code returns has the columns of the row.
use rgp.Prelude.{String, Bool, not, Option, none, some, first, str_eq, if◌then◌else◌}
use rgp.Db.{Db, RequestTable}
use rgp.Session.{Host}

-- `tenant_id is not None and row.tenant_id != tenant_id`
abbrev pub other_tenant : Option String → RequestTable → Bool
other_tenant none row = Bool.false
other_tenant (some t) row = not (str_eq row.tenant_id t)

unfoldable pub get_request_state : Host → String → Option String → Db → Option RequestTable
get_request_state host request_id tenant_id d =
    elim (first (λ r. str_eq r.id request_id) d.requests) [
      | none ↦ host.dynamodb_request tenant_id request_id
      | some row ↦ if other_tenant tenant_id row then none else some row
    ]
