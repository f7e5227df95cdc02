-- ===== src/Collaboration.antt =====
-- apps/api/app/services/collaboration_mode_service.py: who leads the work on a request.
pub mod History
pub mod Chains
use rgp.Prelude.{
  ℕ, String, ◌<>◌, Bool, not, ◌&&◌, Option, none, some, List, [], ◌∷◌, ◌++◌, select, best, sort_by,
  contains, Dict, lookup, str_eq, ltb, if◌then◌else◌,
}
use rgp.Json.{Entries, string, entry, no_entries}
use rgp.Db.{Db, CollaborationModeTransitionTable}
use rgp.Session.{
  Host, Action, stop_iteration, value_error, pure, read, required, raise_if, write_services, commit,
  ◌>>=◌, ◌>>◌,
}
use rgp.Events.{append}
use rgp.Bridge.{get_request_state}
use rgp.Lifecycle.{next_id}

pub data CollaborationMode : Type 0 where
  human_led agent_assisted agent_led : CollaborationMode

unfoldable pub mode_value : CollaborationMode → String
mode_value human_led = "human_led"
mode_value agent_assisted = "agent_assisted"
mode_value agent_led = "agent_led"

-- _ALLOWED_TRANSITIONS
abbrev pub allowed_transitions : Dict (List String)
allowed_transitions =
    ("human_led", "agent_assisted" ∷ [])
    ∷ ("agent_assisted", "human_led" ∷ "agent_led" ∷ [])
    ∷ ("agent_led", "agent_assisted" ∷ "human_led" ∷ [])
    ∷ []

-- target in _ALLOWED_TRANSITIONS.get(current, set())
unfoldable pub is_allowed : String → String → Bool
unfolding lookup
is_allowed current target = elim (lookup current allowed_transitions) [
  | none ↦ Bool.false
  | some targets ↦ contains target targets
]

abbrev pub concerns : String → String → CollaborationModeTransitionTable → Bool
concerns request_id tenant_id r = str_eq r.request_id request_id && str_eq r.tenant_id tenant_id

-- the transitions of a request, in the order in which they were added
abbrev pub history : String → String → Db → List CollaborationModeTransitionTable
history request_id tenant_id d = select (concerns request_id tenant_id) d.services.mode_transitions

-- The latest transition. Of several at one instant, whose order the database does not say, the first.
abbrev pub later : CollaborationModeTransitionTable → CollaborationModeTransitionTable → Bool
later r s = ltb s.created_at r.created_at

abbrev pub mode_after : Option CollaborationModeTransitionTable → String
mode_after none = "human_led"
mode_after (some r) = r.to_mode

-- the request is in sight, or StopIteration
unfoldable pub ensure_request : Host → String → String → Action Unit
unfolding get_request_state
ensure_request host request_id tenant_id = do
  found ← read (get_request_state host request_id (some tenant_id))
  request ← required (stop_iteration request_id) found
  pure tt

unfoldable pub get_current_mode : Host → String → String → Action String
unfolding ensure_request
get_current_mode host request_id tenant_id = do
  ensure_request host request_id tenant_id
  read (λ d. mode_after (best later (history request_id tenant_id d)))

pub record SwitchModeRequest : Type 0 where
  pub actor_id : String
  pub target_mode : CollaborationMode
  pub reason : String

-- `payload.reason or None`
abbrev reason_or_none : String → Option String
reason_or_none t = if str_eq t "" then none else some t

unfoldable pub transition_row :
    Host → String → String → String → String → SwitchModeRequest → CollaborationModeTransitionTable
unfolding mode_value
transition_row host id request_id tenant_id current_mode p = record {
  id = id;
  tenant_id = tenant_id;
  request_id = request_id;
  from_mode = current_mode;
  to_mode = mode_value p.target_mode;
  actor = p.actor_id;
  reason = reason_or_none p.reason;
  policy_basis = none;
  created_at = host.now;
}

-- the governance event of a switch
unfoldable pub mode_event : Host → String → String → String → SwitchModeRequest → Action Unit
unfolding append mode_value
mode_event host request_id tenant_id current_mode p = append host (record {
  tenant_id = tenant_id;
  event_type = "collaboration_mode.switched";
  aggregate_type = "request";
  aggregate_id = request_id;
  actor = p.actor_id;
  detail = "Mode switched from " <> current_mode <> " to " <> mode_value p.target_mode;
  request_id = some request_id;
  run_id = none;
  artifact_id = none;
  promotion_id = none;
  check_run_id = none;
  payload = entry "from_mode" (string current_mode) (
      entry "to_mode" (string (mode_value p.target_mode))
        (entry "reason" (string p.reason) no_entries));
})

unfoldable pub switch_mode : Host → String → SwitchModeRequest → String → Action Unit
unfolding ensure_request get_current_mode is_allowed transition_row mode_event
switch_mode host request_id p tenant_id = do
  ensure_request host request_id tenant_id
  current_mode ← get_current_mode host request_id tenant_id
  raise_if (str_eq (mode_value p.target_mode) current_mode)
      (value_error ("Request " <> request_id <> " is already in mode '" <> current_mode <> "'"))
  raise_if (not (is_allowed current_mode (mode_value p.target_mode))) (
      value_error (
        "Transition from '"
        <> current_mode
        <> "' to '"
        <> mode_value p.target_mode
        <> "' is not permitted"))
  id ← next_id host "cmt_"
  write_services (λ t. record t {
    mode_transitions =
        t.mode_transitions ++ transition_row host id request_id tenant_id current_mode p ∷ [];
  })
  mode_event host request_id tenant_id current_mode p
  commit

-- list_transitions
unfoldable pub list_transitions :
    Host → String → String → Action (List CollaborationModeTransitionTable)
unfolding ensure_request
list_transitions host request_id tenant_id = do
  ensure_request host request_id tenant_id
  read (λ d. sort_by (λ r s. ltb r.created_at s.created_at) (history request_id tenant_id d))
