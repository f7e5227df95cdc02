-- ===== src/Lifecycle/Contracts/Acceptance.antt =====
-- When amending and canceling a request return: exactly if their conditions hold.
use rgp.Prelude.{
  String, ◌≡◌, ◌↔◌, refl, ap, ◌∙◌, Bool, true, false, not, Option, some, List, [], ◌∷◌, first,
  update, str_eq, arith,
}
use rgp.Request.{RequestStatus, is_in, draft, canceled}
use rgp.StateMachine.{amendable_statuses, cancelable_statuses}
use rgp.Db.{Db, Journal, RequestTable}
use rgp.Session.{
  Host, Session, Action, Result, ok, err, with_session, write_requests, write_journal, commit,
  ◌>>=◌, ◌>>◌,
}
use rgp.Session.Contracts.{
  Holds, Ensures, Ensures-read, Ensures-assoc, Ensures-pure, Ensures-some, Ensures-passed,
  Ensures-bind, Ensures-read_known, Ensures-read_any, At,
}
use rgp.Events.{NewEvent, append_event, append, event_row}
use rgp.Events.Outbox.{IsPublished, NumberedFrom, NumberedFrom-append, append_lem}
use rgp.Lifecycle.{modify_request}
use rgp.Lifecycle.Operations.{
  AmendRequest, CancelRequest, find_request, denied, load_request, ensure_request_tenant_access,
  amended, amend_request, cancel_request,
}
use rgp.Lifecycle.Contracts.{Changed, Outcome, move_core}
use rgp.Lifecycle.Preserved.{Core}
use rgp.Lifecycle.Contracts.Moves.{cancel_request_contract, amend_request_contract}

-- The request stands in the database, the tenant may access it and its status is one of the list.
abbrev pub Accepted : String → Option String → List RequestStatus → Db → Type 0
Accepted id tenant statuses d =
    (row : RequestTable) × (find_request id d ≡ some row)
    × (denied tenant row ≡ false)
    × (is_in row.status statuses ≡ true)

-- No session: what an action that does not raise leaves when it raises
abbrev Never : Session → Type 0
Never s = ⊥

-- The open transaction holds these requests, and the event store is numbered.
record Open (rows : List RequestTable) (s : Session) : Type 0 where
  rows_are : s.db.requests ≡ rows
  numbered : NumberedFrom 1 s.db.events.event_store

module _ {d : Db} {Q : Unit {0} → Session → Type 0} where
  Returns-load :
      (id : String) (tenant : Option String) (row : RequestTable) (f : RequestTable → Action Unit)
      → find_request id d ≡ some row
      → denied tenant row ≡ false
      → Ensures (At d) (f row) Q Never
      → Ensures (At d) (load_request id tenant >>= f) Q Never
  unfolding load_request ensure_request_tenant_access
  Returns-load id tenant row f p q k = Ensures-assoc _ _ f (
      Ensures-read _ _ (
        Ensures-assoc _ _ f (
          rw p (
            Ensures-some _ _ _
              (Ensures-assoc _ _ f (Ensures-passed _ _ _ q (Ensures-pure row f k)))))))

module _ (host : Host) (rows : List RequestTable) where
  append_returns : (e : NewEvent) → Ensures (Open rows) (append host e) (λ _. Open rows) Never
  unfolding event_row
  append_returns e = record {
    holds = λ s h. rw (append_lem host e s h.numbered) (record {
      rows_are = h.rows_are;
      numbered = NumberedFrom-append 1 s.db.events.event_store _ h.numbered (omega arith);
    });
  }

  journal_returns :
      (f : Journal → Journal) → Ensures (Open rows) (write_journal f) (λ _. Open rows) Never
  unfolding write_journal
  journal_returns f = record {
    holds = λ s h. record { rows_are = h.rows_are; numbered = h.numbered };
  }

  append_event_returns :
      (id actor action reason : String) (row : RequestTable)
      → first (λ r. str_eq r.id id) rows ≡ some row
      → Ensures (Open rows) (append_event host id actor action reason) (λ _. Open rows) Never
  unfolding append_event
  append_event_returns id actor action reason row p =
      Ensures-read_known (find_request id) (some row) _
        (λ s h. ap (first (λ (r : RequestTable). str_eq r.id id)) h.rows_are ∙ p)
        (Ensures-some _ row _ (
          Ensures-read_any _ _
            (λ n. Ensures-bind (write_journal _) _ (journal_returns _) (λ _. append_returns _))))

first-update :
    (id : String) (f : RequestTable → RequestTable) (rows : List RequestTable) (row : RequestTable)
    → ((r : RequestTable) → (f r).id ≡ r.id)
    → first (λ r. str_eq r.id id) rows ≡ some row
    → first (λ r. str_eq r.id id) (update (λ r. str_eq r.id id) f rows) ≡ some (f row)
first-update id f [] row h p = cc p
first-update id f (r ∷ rows) row h p = ground (arith, h r, p, first-update id f rows row h)

module _ (host : Host) (d : Db) where
  -- the new row, the event and the commit return
  Returns-move :
      (id actor action reason : String) (f : RequestTable → RequestTable) (row : RequestTable)
      → IsPublished host d.events
      → find_request id d ≡ some row
      → ((r : RequestTable) → (f r).id ≡ r.id)
      → Ensures
          (At d)
          (modify_request id f >> (append_event host id actor action reason >> commit))
          (λ _ _. Unit {0})
          Never
  unfolding write_requests commit
  Returns-move id actor action reason f row h p same =
      let rows = update (λ (r : RequestTable). str_eq r.id id) f d.requests in
      Ensures-bind {Q = λ _. Open rows} (modify_request id f) _
        (record {
          holds = λ s a. record {
            rows_are =
                ap (λ (x : Db). update (λ (r : RequestTable). str_eq r.id id) f x.requests)
                  a.current;
            numbered = rw (ap (λ (x : Db). x.events.event_store) a.current) h.numbered;
          };
        })
        (λ _.
          Ensures-bind _ _
            (append_event_returns host rows id actor action reason (f row)
              (first-update id f d.requests row same p))
            (λ _. record { holds = λ s a. tt }))

returned :
    (r : Result {0} (Unit {0})) (s : Session) → Holds (λ _ _. Unit {0}) Never (r, s) → r ≡ ok tt
returned (ok a) s h = refl
returned (err e) s h = absurd h

not_holds : (b : Bool) → b ≡ true → not b ≡ false
not_holds b h = ground arith

Outcome-Accepted :
    (g : Core → Core) (id : String) (tenant : Option String) (statuses : List RequestStatus)
    (d : Db) (r : Result {0} (Unit {0}) × Db)
    → Outcome (Changed id tenant (λ row. is_in row.status statuses ≡ true) g d) d r
    → r.0 ≡ ok tt
    → Accepted id tenant statuses d
Outcome-Accepted g id tenant statuses d (ok a, d') (row, found, allowed, live, same) e =
    (row, found, allowed, live)
Outcome-Accepted g id tenant statuses d (err x, d') h e = cc e

-- Given that the outbox follows the event store, canceling a request returns exactly if the request
-- stands in the database, the tenant may access it and its status can be canceled.
pub cancel_request_iff :
    (host : Host) (id : String) (p : CancelRequest) (tenant : Option String) (d : Db)
    → IsPublished host d.events
    → ((with_session (cancel_request host id p tenant) d).0 ≡ ok tt)
      ↔ Accepted id tenant cancelable_statuses d
unfolding cancel_request with_session
cancel_request_iff host id p tenant d h = (
  Outcome-Accepted (move_core canceled) id tenant cancelable_statuses d
      (with_session (cancel_request host id p tenant) d)
      (cancel_request_contract host id p tenant d),
  λ (row, found, allowed, live). returned _ _ (
      (Returns-load id tenant row _ found allowed (
          Ensures-passed _ _ _ (not_holds _ live)
            (Returns-move host d id _ _ _ _ row h found (λ r. refl)))).holds
        (record { db = d; committed = d; draws = 0; threads = []; objects = [] })
        (record { current = refl; saved = refl })),
)

-- Given that the outbox follows the event store, amending a request returns exactly if the request
-- stands in the database, the tenant may access it and its status can be amended.
pub amend_request_iff :
    (host : Host) (id : String) (p : AmendRequest) (tenant : Option String) (d : Db)
    → IsPublished host d.events
    → ((with_session (amend_request host id p tenant) d).0 ≡ ok tt)
      ↔ Accepted id tenant amendable_statuses d
unfolding amend_request amended with_session
amend_request_iff host id p tenant d h = (
  Outcome-Accepted (move_core draft) id tenant amendable_statuses d
      (with_session (amend_request host id p tenant) d) (amend_request_contract host id p tenant d),
  λ (row, found, allowed, live). returned _ _ (
      (Returns-load id tenant row _ found allowed (
          Ensures-passed _ _ _ (not_holds _ live)
            (Returns-move host d id _ _ _ _ row h found (λ r. refl)))).holds
        (record { db = d; committed = d; draws = 0; threads = []; objects = [] })
        (record { current = refl; saved = refl })),
)
