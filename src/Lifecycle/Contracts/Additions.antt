-- ===== src/Lifecycle/Contracts/Additions.antt =====
-- Operations that add a request and leave the rows of all others as they were.
use mathlib.Core.List.{map-append}
use rgp.Prelude.{String, ◌≡◌, refl, ap, ◌∙◌, List, [], ◌∷◌, ◌++◌}
use rgp.Db.{Db, EventLog, Journal, RequestTable}
use rgp.Session.{
  Host, Session, Action, pure, write_requests, write_journal, write_events, commit, draw, ◌>>=◌,
  ◌>>◌,
}
use rgp.Session.Preserves.{Preserves, preserves_rules}
use rgp.Session.Contracts.{Ensures, Ensures-Preserves, Ensures-bind, At}
use rgp.Events.{NewEvent, append, append_event, enqueue}
use rgp.Lifecycle.{next_id}
use rgp.Lifecycle.Operations.{append_relationship}
use rgp.Lifecycle.Preserved.{core, cores}
use rgp.Lifecycle.Contracts.{At-Committed, OnCommitted, Committed}

-- The open transaction has these requests, and nothing of it is committed.
pub record HasRows (rows : List RequestTable) (d : Db) (s : Session) : Type 0 where
  pub open_rows : s.db.requests ≡ rows
  pub saved : s.committed ≡ d

HasRows-Committed :
    (rows : List RequestTable) (d : Db) (s : Session) → HasRows rows d s → Committed (cores d) s
HasRows-Committed rows d s h = record { same = ap cores h.saved }

At-draw : (d : Db) → Preserves (At d) draw
unfolding draw
At-draw d = record { after = λ s a. record { current = a.current; saved = a.saved } }

module _ (host : Host) (rows : List RequestTable) (d : Db) where
  HasRows-events : (f : EventLog → EventLog) → Preserves (HasRows rows d) (write_events f)
  unfolding write_events
  HasRows-events f = record { after = λ s k. record { open_rows = k.open_rows; saved = k.saved } }

  HasRows-journal : (f : Journal → Journal) → Preserves (HasRows rows d) (write_journal f)
  unfolding write_journal
  HasRows-journal f = record { after = λ s k. record { open_rows = k.open_rows; saved = k.saved } }

  HasRows-append : (e : NewEvent) → Preserves (HasRows rows d) (append host e)
  unfolding append enqueue
  HasRows-append e = search (preserves_rules, HasRows-events) depth 24

  pub HasRows-append_event :
      (id actor action reason : String)
      → Preserves (HasRows rows d) (append_event host id actor action reason)
  unfolding append_event
  HasRows-append_event id actor action reason =
      search (preserves_rules, HasRows-journal, HasRows-append) depth 24

  pub HasRows-relationship :
      (source target kind actor : String)
      → Preserves (HasRows rows d) (append_relationship host source target kind actor)
  unfolding append_relationship
  HasRows-relationship source target kind actor = search (preserves_rules, HasRows-journal) depth 24

module _ {B : Type 0} {d : Db} {Q : B → Session → Type 0} where
  pub Ensures-next_id :
      (host : Host) (prefix : String) (f : String → Action B)
      → ((next : String) → Ensures (At d) (f next) Q (Committed (cores d)))
      → Ensures (At d) (next_id host prefix >>= f) Q (Committed (cores d))
  unfolding next_id
  Ensures-next_id host prefix f k =
      Ensures-bind _ f
        (Ensures-Preserves _ (search (preserves_rules, At-draw) depth 12) (At-Committed d)) k

  pub Ensures-insert :
      (row : RequestTable) (n : Action B)
      → Ensures (HasRows (d.requests ++ row ∷ []) d) n Q (Committed (cores d))
      → Ensures
          (At d)
          (write_requests (λ rows. rows ++ row ∷ []) >>= (λ _. n))
          Q
          (Committed (cores d))
  unfolding write_requests ◌>>=◌
  Ensures-insert row n k = record {
    holds = λ s a.
        k.holds _ (record {
          open_rows = ap (λ (x : Db). x.requests ++ row ∷ []) a.current;
          saved = a.saved;
        });
  }

  pub Ensures-beside :
      (rows : List RequestTable) (m : Action Unit) (n : Action B)
      → Preserves (HasRows rows d) m
      → Ensures (HasRows rows d) n Q (Committed (cores d))
      → Ensures (HasRows rows d) (m >>= (λ _. n)) Q (Committed (cores d))
  Ensures-beside rows m n p k =
      Ensures-bind m (λ _. n) (Ensures-Preserves m p (HasRows-Committed rows d)) (λ _. k)

pub Ensures-commit-pure :
    {A : Type 0} (rows : List RequestTable) (d : Db) (Q : A → Db → Type 0) (E : Session → Type 0)
    (x : A)
    → ((d' : Db) → d'.requests ≡ rows → Q x d')
    → Ensures (HasRows rows d) (commit >> pure x) (OnCommitted Q) E
unfolding commit pure ◌>>=◌
Ensures-commit-pure rows d Q E x k = record { holds = λ s h. k s.db h.open_rows }

-- the cores, where a request is added
pub cores-added :
    (d d' : Db) (r : RequestTable)
    → d'.requests ≡ d.requests ++ r ∷ []
    → cores d' ≡ cores d ++ core r ∷ []
cores-added d d' r h = ap (rgp.Prelude.map core) h ∙ map-append core d.requests (r ∷ [])
