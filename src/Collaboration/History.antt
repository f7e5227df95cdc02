-- ===== src/Collaboration/History.antt =====
-- What a switch of the mode adds to the recorded transitions.
use rgp.Prelude.{String, ◌≡◌, ap, Bool, true, false, not, some, List, [], ◌∷◌, ◌++◌, best, arith}
use rgp.Db.{Db, EventLog, CollaborationModeTransitionTable}
use rgp.Session.{
  Host, Session, Action, read, required, write_events, write_services, commit, with_session, ◌>>=◌,
}
use rgp.Session.Preserves.{Preserves, preserves_rules}
use rgp.Session.Contracts.{
  Ensures, Ensures-Preserves, Ensures-bind, Ensures-required, Ensures-raise_if, Ensures-read,
  Ensures-assoc, Ensures-pure, At,
}
use rgp.Session.Outcomes.{Unchanged, At-Unchanged, Outcome, Outcome-with_session, Ensures-next_id}
use rgp.Events.{append, enqueue}
use rgp.Bridge.{get_request_state}
use rgp.Collaboration.{
  SwitchModeRequest, is_allowed, history, later, mode_after, ensure_request, get_current_mode,
  transition_row, mode_event, switch_mode, mode_value,
}

abbrev pub Rows : Type 0
Rows = List CollaborationModeTransitionTable

-- the mode as the code finds it
abbrev pub current_mode_of : String → String → Db → String
current_mode_of request_id tenant d = mode_after (best later (history request_id tenant d))

-- The transitions of the open transaction; nothing of it is committed.
record HasModes (rows : Rows) (d : Db) (s : Session) : Type 0 where
  rows_are : s.db.services.mode_transitions ≡ rows
  saved : s.committed ≡ d

-- A switch adds one transition, from the current mode to one that is allowed.
abbrev pub Switched : Host → String → SwitchModeRequest → String → Db → Unit {0} → Db → Type 0
Switched host request_id p tenant d _ d' =
    (id : String) × (is_allowed (current_mode_of request_id tenant d) (mode_value p.target_mode)
      ≡ true)
    × (d'.services.mode_transitions
        ≡ d.services.mode_transitions
          ++ transition_row host id request_id tenant (current_mode_of request_id tenant d) p ∷ [])

module _ {B : Type 0} {d : Db} {Q : B → Session → Type 0} where
  Ensures-ensure_request :
      (host : Host) (request_id tenant : String) (n : Action B)
      → Ensures (At d) n Q (Unchanged d)
      → Ensures (At d) (ensure_request host request_id tenant >>= (λ _. n)) Q (Unchanged d)
  unfolding ensure_request
  Ensures-ensure_request host request_id tenant n k =
      Ensures-assoc (read (get_request_state host request_id (some tenant))) _ _ (
        Ensures-read (get_request_state host request_id (some tenant)) _ (
          Ensures-assoc (required _ _) _ _
            (Ensures-required _ _ _ (At-Unchanged d) (λ request p. Ensures-pure tt _ k))))

  Ensures-current :
      (host : Host) (request_id tenant : String) (f : String → Action B)
      → Ensures (At d) (f (current_mode_of request_id tenant d)) Q (Unchanged d)
      → Ensures (At d) (get_current_mode host request_id tenant >>= f) Q (Unchanged d)
  unfolding get_current_mode
  Ensures-current host request_id tenant f k =
      Ensures-assoc (ensure_request host request_id tenant) _ f
        (Ensures-ensure_request host request_id tenant _ (Ensures-read _ f k))

  Ensures-add :
      (r : CollaborationModeTransitionTable) (n : Action B)
      → Ensures (HasModes (d.services.mode_transitions ++ r ∷ []) d) n Q (Unchanged d)
      → Ensures
          (At d)
          (write_services (λ t. record t { mode_transitions = t.mode_transitions ++ r ∷ [] })
            >>= (λ _. n))
          Q
          (Unchanged d)
  unfolding ◌>>=◌ write_services
  Ensures-add r n k = record {
    holds = λ s h. k.holds _ (record {
      rows_are = ap (λ (x : Db). x.services.mode_transitions ++ r ∷ []) h.current;
      saved = h.saved;
    });
  }

module _ (rows : Rows) (d : Db) where
  HasModes-events : (f : EventLog → EventLog) → Preserves (HasModes rows d) (write_events f)
  unfolding write_events
  HasModes-events f = record { after = λ s k. record { rows_are = k.rows_are; saved = k.saved } }

  HasModes-event :
      (host : Host) (request_id tenant mode : String) (p : SwitchModeRequest)
      → Preserves (HasModes rows d) (mode_event host request_id tenant mode p)
  unfolding mode_event append enqueue
  HasModes-event host request_id tenant mode p = search (preserves_rules, HasModes-events) depth 24

  Ensures-commit :
      (Q : Unit {0} → Db → Type 0)
      → ((d' : Db) → d'.services.mode_transitions ≡ rows → Q tt d')
      → Ensures (HasModes rows d) commit (λ a s. Q a s.committed) (Unchanged d)
  unfolding commit
  Ensures-commit Q k = record { holds = λ s h. k s.db h.rows_are }

guard_holds : (b : Bool) → not b ≡ false → b ≡ true
guard_holds b h = ground arith

pub switch_mode_contract :
    (host : Host) (request_id : String) (p : SwitchModeRequest) (tenant : String) (d : Db)
    → Outcome
        (Switched host request_id p tenant d)
        d
        (with_session (switch_mode host request_id p tenant) d)
unfolding switch_mode
switch_mode_contract host request_id p tenant d =
    Outcome-with_session (Switched host request_id p tenant d) d _ (
      Ensures-ensure_request host request_id tenant _ (
        Ensures-current host request_id tenant _ (
          Ensures-raise_if _ _ _ (At-Unchanged d) (λ differ.
            Ensures-raise_if _ _ _ (At-Unchanged d) (λ g. Ensures-next_id host "cmt_" _ (λ id.
              let mode = current_mode_of request_id tenant d in
              let row = transition_row host id request_id tenant mode p in
              let rows = d.services.mode_transitions ++ row ∷ [] in
              Ensures-add row _ (
                Ensures-bind (mode_event host request_id tenant mode p) _
                  (Ensures-Preserves _ (HasModes-event rows d host request_id tenant mode p)
                    (λ s h. h.saved))
                  (λ _. Ensures-commit rows d _ (λ d' e. (id, guard_holds _ g, e))))))))))
