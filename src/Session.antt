-- ===== src/Session.antt =====
-- A SQLAlchemy session: `with SessionLocal() as session` over the tables, with its exceptions.
-- Writes go to the open transaction; what is not committed when the block is left is lost.
pub mod Contracts
pub mod Preserves
pub mod Outcomes
use rgp.Prelude.{
  ℕ, ◌+◌, String, Bool, true, false, Option, none, some, List, [], ◌∷◌, ◌++◌, contains, Dict,
  insert, if◌then◌else◌,
}
use rgp.Json.{Value, Entries}
use rgp.Db.{Db, Journal, EventLog, Tables, Services, RequestTable, IntegrationTable}

-- What the code calls and does not implement: the clock, random identifiers, the text methods of
-- Python, the settings, the task broker, the runtime's answer and the second store.
pub record Host : Type 0 where
  pub now : ℕ  -- datetime.now(timezone.utc), one instant for each operation
  pub isoformat : ℕ → String  -- isoformat().replace("+00:00", "Z")
  pub hex12 : ℕ → String  -- uuid4().hex[:12] of the n-th draw
  pub hex10 : ℕ → String
  pub lower : String → String
  pub strip : String → String
  pub title : String → String
  pub replace : String → String → String → String  -- text.replace(old, new)
  pub has_substring : String → String → Bool  -- needle in text
  pub show : Value → String  -- str(value) of a value that is no text
  pub fullmatch : String → String → Bool  -- re.fullmatch(pattern, text)
  pub check_dispatch_local : Bool  -- settings.check_dispatch_backend.lower() == "local"
  pub event_bus_topic_prefix : String
  pub event_bus_backend : String
  pub event_family : String → String  -- event_type.split(".", 1)[0]
  pub send_task : String → Option String  -- the task id, or `none` if the broker raises
  pub runtime_dispatch : IntegrationTable → Entries → Option Entries  -- `none` for a ValueError
  -- a request in the second store, with the columns of a row; the tenant, if one is given
  pub dynamodb_request : Option String → String → Option RequestTable
  pub dynamodb_tenant : String → Option String  -- the tenant of a request in the second store

pub data Error : Type 0 where
  stop_iteration : String → Error
  missing_event : ℕ → Error  -- StopIteration on an event that is not stored
  value_error : String → Error
  permission_error : String → String → Error  -- the tenant, and the request that it may not access
  type_error : String → Error
  query_error : String → Error  -- `one()` of a query that finds no row, or several
  delegated : String → Error  -- the call is handed to DynamoDbGovernancePersistenceAdapter

pub data Result {ℓ} (A : Type ℓ) : Type ℓ where
  ok : A → Result A
  err : Error → Result A

pub record Session : Type 0 where
  pub db : Db  -- as the open transaction sees it
  pub committed : Db
  pub draws : ℕ  -- identifiers drawn so far
  pub threads : List String  -- check runs handed to a local thread
  pub objects : Dict String  -- texts put into the object store, which has no transactions

abbrev pub Action : Type 0 → Type 0
Action A = Session → Result A × Session

module _ {A : Type 0} where
  unfoldable pub pure : A → Action A
  pure a s = (ok a, s)

  unfoldable pub raise : Error → Action A
  raise e s = (err e, s)

  unfoldable pub read : (Db → A) → Action A
  read f s = (ok (f s.db), s)

  -- `if row is None: raise`
  unfoldable pub required : Error → Option A → Action A
  required e none s = (err e, s)
  required e (some a) s = (ok a, s)

-- a computation that returns or raises
unfoldable pub lift : {A : Type 0} → Result A → Action A
lift r s = (r, s)

unfoldable pub write_requests : (List RequestTable → List RequestTable) → Action Unit
write_requests f s = (ok tt, record s { db = record s.db { requests = f s.db.requests } })

unfoldable pub write_journal : (Journal → Journal) → Action Unit
write_journal f s = (ok tt, record s { db = record s.db { journal = f s.db.journal } })

unfoldable pub write_events : (EventLog → EventLog) → Action Unit
write_events f s = (ok tt, record s { db = record s.db { events = f s.db.events } })

unfoldable pub write_tables : (Tables → Tables) → Action Unit
write_tables f s = (ok tt, record s { db = record s.db { tables = f s.db.tables } })

unfoldable pub write_services : (Services → Services) → Action Unit
write_services f s = (ok tt, record s { db = record s.db { services = f s.db.services } })

-- session.commit()
unfoldable pub commit : Action Unit
commit s = (ok tt, record s { committed = s.db })

-- the number of the next uuid4()
unfoldable pub draw : Action ℕ
draw s = (ok s.draws, record s { draws = s.draws + 1 })

-- a thread for the check run, unless one is in flight
unfoldable pub start_thread : String → Action Unit
start_thread name s = (
  ok tt,
  record s { threads = if contains name s.threads then s.threads else s.threads ++ name ∷ [] },
)

-- object_store_service.put_text
unfoldable pub put_text : String → String → Action Unit
unfolding insert
put_text object_key content s = (ok tt, record s { objects = insert object_key content s.objects })

-- if test: action
unfoldable pub when : Bool → Action Unit → Action Unit
when true m s = m s
when false m s = (ok tt, s)

-- if test: raise
unfoldable pub raise_if : Bool → Error → Action Unit
raise_if true e s = (err e, s)
raise_if false e s = (ok tt, s)

abbrev pub and_then : {A B : Type 0} → Result A → (A → Action B) → Action B
and_then (ok a) f s = f a s
and_then (err e) f s = (err e, s)

abbrev pub handled : Result {0} Unit → (String → Action Unit) → Action Unit
handled (err (value_error text)) f s = f text s
handled (err e) f s = (err e, s)
handled (ok a) f s = (ok a, s)

-- try: body; except ValueError as exc: f(exc)
unfoldable pub except_value_error : Action Unit → (String → Action Unit) → Action Unit
except_value_error body f s = let (r, s') = body s in handled r f s'

infixl 5 ◌>>=◌ ◌>>◌
unfoldable pub ◌>>=◌ : {A B : Type 0} → Action A → (A → Action B) → Action B
unfolding pure raise read required write_requests write_journal write_events write_tables
    write_services draw start_thread put_text when raise_if
◌>>=◌ m f s = let (r, s') = m s in and_then r f s'

abbrev pub ◌>>◌ : {A : Type 0} → Action Unit → Action A → Action A
m >> n = m >>= λ _. n

-- if row is None: m; else f(row)
unfoldable pub match_row : {A B : Type 0} → Option A → Action B → (A → Action B) → Action B
match_row none m f s = m s
match_row (some a) m f s = f a s

-- `with SessionLocal() as session: body`
unfoldable pub with_session : {A : Type 0} → Action A → Db → Result A × Db
with_session body d =
    let (r, s) = body (record { db = d; committed = d; draws = 0; threads = []; objects = [] }) in
    (r, s.committed)
