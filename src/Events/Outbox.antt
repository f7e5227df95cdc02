-- ===== src/Events/Outbox.antt =====
-- The event store and the outbox grow together, whatever action records events.
use mathlib.Core.List.{map-append}
use rgp.Prelude.{
  ℕ, suc, ◌+◌, String, ◌≡◌, refl, some, List, [], ◌∷◌, ◌++◌, map, arith, length, first, ◌==◌,
}
use rgp.Db.{Journal, EventLog, Tables, Services, EventStoreTable, EventOutboxTable, RequestTable}
use rgp.Session.{
  Host, Session, ok, required, write_requests, write_journal, write_tables, write_services, draw,
  start_thread, put_text, commit, ◌>>=◌,
}
use rgp.Session.Preserves.{Preserves, preserves_rules}
use rgp.Events.{NewEvent, partition_key, topic_for, outbox_row, enqueue, event_row, append}

-- The keys of the event store count up.
abbrev pub NumberedFrom : ℕ → List EventStoreTable → Type 0
NumberedFrom n [] = Unit
NumberedFrom n (e ∷ es) = (e.id ≡ n) × NumberedFrom (suc n) es

pub NumberedFrom-append :
    (n : ℕ) (es : List EventStoreTable) (e : EventStoreTable)
    → NumberedFrom n es
    → e.id ≡ n + length es
    → NumberedFrom n (es ++ e ∷ [])
NumberedFrom-append n [] e h k = (omega arith, tt)
NumberedFrom-append n (x ∷ es) e h k = (h.0, NumberedFrom-append (suc n) es e h.1 (omega arith))

-- the new row is the one that its key finds
first-append :
    (k n : ℕ) (es : List EventStoreTable) (e : EventStoreTable)
    → NumberedFrom n es
    → e.id ≡ k
    → k ≡ n + length es
    → first (λ x. x.id == k) (es ++ e ∷ []) ≡ some e
first-append k n [] e h q r = ground arith
first-append k n (x ∷ es) e h q r = ground (arith, first-append k (suc n) es e h.1 q (omega arith))

-- What an outbox row says of its event.
pub record Notice : Type 0 where
  pub event_id : ℕ
  pub tenant_id : String
  pub topic : String
  pub partition_key : String

abbrev pub notice_of_row : EventOutboxTable → Notice
notice_of_row o = record {
  event_id = o.event_store_id;
  tenant_id = o.tenant_id;
  topic = o.topic;
  partition_key = o.partition_key;
}

abbrev pub notice_of_event : Host → EventStoreTable → Notice
notice_of_event host e = record {
  event_id = e.id;
  tenant_id = e.tenant_id;
  topic = topic_for host e.event_type;
  partition_key = partition_key e;
}

-- The outbox has a row for every stored event, in the same order, and no other row.
pub record IsPublished (host : Host) (j : EventLog) : Type 0 where
  pub numbered : NumberedFrom 1 j.event_store
  pub paired : map notice_of_row j.event_outbox ≡ map (notice_of_event host) j.event_store

-- The event log after `append`.
abbrev pub appended : Host → NewEvent → EventLog → EventLog
appended host e j =
    let row = event_row host e (suc (length j.event_store)) in
    record j {
      event_store = j.event_store ++ row ∷ [];
      event_outbox = j.event_outbox ++ outbox_row host row (suc (length j.event_outbox)) ∷ [];
    }

pub append_lem :
    (host : Host) (e : NewEvent) (s : Session)
    → NumberedFrom 1 s.db.events.event_store
    → append host e s
      ≡ (ok tt, record s { db = record s.db { events = appended host e s.db.events } })
unfolding append enqueue event_row ◌>>=◌
append_lem host e s h =
    let store = s.db.events.event_store in
    let key = suc (length store) in
    rw (first-append key 1 store (event_row host e key) h refl (omega arith), required)

appended-IsPublished :
    (host : Host) (e : NewEvent) (j : EventLog)
    → IsPublished host j
    → IsPublished host (appended host e j)
unfolding event_row outbox_row
appended-IsPublished host e j h = record {
  numbered = NumberedFrom-append 1 j.event_store _ h.numbered (omega arith);
  paired = simp (map-append, h.paired);
}

-- Every event of the open transaction and of the committed tables has its outbox row.
pub record AllPublished (host : Host) (s : Session) : Type 0 where
  pub log : IsPublished host s.db.events
  pub saved : IsPublished host s.committed.events

module _ {host : Host} where
  pub AllPublished-requests :
      (f : List RequestTable → List RequestTable) → Preserves (AllPublished host) (write_requests f)
  unfolding write_requests
  AllPublished-requests f = record { after = λ s h. record { log = h.log; saved = h.saved } }

  pub AllPublished-journal :
      (f : Journal → Journal) → Preserves (AllPublished host) (write_journal f)
  unfolding write_journal
  AllPublished-journal f = record { after = λ s h. record { log = h.log; saved = h.saved } }

  pub AllPublished-tables : (f : Tables → Tables) → Preserves (AllPublished host) (write_tables f)
  unfolding write_tables
  AllPublished-tables f = record { after = λ s h. record { log = h.log; saved = h.saved } }

  pub AllPublished-services :
      (f : Services → Services) → Preserves (AllPublished host) (write_services f)
  unfolding write_services
  AllPublished-services f = record { after = λ s h. record { log = h.log; saved = h.saved } }

  pub AllPublished-thread : (name : String) → Preserves (AllPublished host) (start_thread name)
  unfolding start_thread
  AllPublished-thread name = record { after = λ s h. record { log = h.log; saved = h.saved } }

  pub AllPublished-put_text : (k t : String) → Preserves (AllPublished host) (put_text k t)
  unfolding put_text
  AllPublished-put_text k t = record { after = λ s h. record { log = h.log; saved = h.saved } }

pub AllPublished-commit : (host : Host) → Preserves (AllPublished host) commit
unfolding commit
AllPublished-commit host = record { after = λ s h. record { log = h.log; saved = h.log } }

pub AllPublished-draw : (host : Host) → Preserves (AllPublished host) draw
unfolding draw
AllPublished-draw host = record { after = λ s h. record { log = h.log; saved = h.saved } }

pub AllPublished-append :
    (host : Host) (e : NewEvent) → Preserves (AllPublished host) (append host e)
AllPublished-append host e = record {
  after = λ s h.
      rw (append_lem host e s h.log.numbered)
        (record { log = appended-IsPublished host e s.db.events h.log; saved = h.saved });
}

pub ruleset published_rules = (
  preserves_rules, AllPublished-requests, AllPublished-journal, AllPublished-tables,
  AllPublished-services, AllPublished-thread, AllPublished-put_text, AllPublished-draw,
  AllPublished-append,
)
