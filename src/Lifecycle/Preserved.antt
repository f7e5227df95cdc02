-- ===== src/Lifecycle/Preserved.antt =====
-- What the side effects of a transition leave alone: the interface between them and the invariants
-- that they preserve. A request is seen as its identity, tenant, status, version and archive flag.
pub mod Artifacts
pub mod Runs
pub mod Reviews
pub mod Registration
pub mod Effects
use rgp.Prelude.{ℕ, String, Bool, ◌≡◌, Option, some, List, map}
use rgp.Request.{RequestStatus}
use rgp.Db.{Db, Journal, Tables, RequestTable}
use rgp.Session.{
  Host, Session, Action, required, write_journal, write_tables, draw, start_thread, put_text, ◌>>=◌,
}
use rgp.Session.Preserves.{Preserves, preserves_rules}
use rgp.Events.{NewEvent, append}
use rgp.Lifecycle.{modify_request, get_request, next_id}

-- The part of a request that only the operations on requests change.
pub record Core : Type 0 where
  pub id : String
  pub tenant_id : String
  pub status : RequestStatus
  pub version : ℕ
  pub is_archived : Bool

abbrev pub core : RequestTable → Core
core r = record {
  id = r.id;
  tenant_id = r.tenant_id;
  status = r.status;
  version = r.version;
  is_archived = r.is_archived;
}

abbrev pub cores : Db → List Core
cores d = map core d.requests

-- The actions that side effects are made of preserve P.
pub record SideEffectLaws (host : Host) (P : Session → Type 0) : Type 0 where
  pub on_requests :
      (id : String) (f : RequestTable → RequestTable)
      → ((r : RequestTable) → core (f r) ≡ core r)
      → Preserves P (modify_request id f)
  pub on_journal : (f : Journal → Journal) → Preserves P (write_journal f)
  pub on_tables : (f : Tables → Tables) → Preserves P (write_tables f)
  pub on_thread : (name : String) → Preserves P (start_thread name)
  pub on_put_text : (k t : String) → Preserves P (put_text k t)
  pub on_draw : Preserves P draw
  pub on_append : (e : NewEvent) → Preserves P (append host e)

module _ {P : Session → Type 0} where
  pub Preserves-get_request : (id : String) → Preserves P (get_request id)
  unfolding get_request
  Preserves-get_request id = search preserves_rules

module _ {host : Host} {P : Session → Type 0} (laws : SideEffectLaws host P) where
  pub Preserves-next_id : (prefix : String) → Preserves P (next_id host prefix)
  unfolding next_id
  Preserves-next_id prefix = search (preserves_rules, laws.on_draw)
