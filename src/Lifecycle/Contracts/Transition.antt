-- ===== src/Lifecycle/Contracts/Transition.antt =====
-- The transition of a request: its gates, and what it changes.
use rgp.Prelude.{String, ◌≡◌, refl, ap, true, false, Option, List, [], ◌∷◌, select, update, str_eq}
use rgp.Request.{RequestStatus, is_in}
use rgp.StateMachine.{is_valid_transition}
use rgp.Db.{Db, RequestTable}
use rgp.Session.{
  Host, Session, Action, Error, with_session, commit, raise, raise_if, read, ◌>>=◌, ◌>>◌,
}
use rgp.Session.Contracts.{
  Ensures, Ensures-read, At, Ensures-assoc, Ensures-except-read, Ensures-except-raise_if,
  Ensures-when, Ensures-weaken,
}
use rgp.Checks.{
  active_transition_gate_check_names, unresolved, assert_request_transition_ready, is_request_check,
}
use rgp.Checks.Dispatch.{has_pending_request_check_run, enqueue_request_checks}
use rgp.Lifecycle.Operations.{
  TransitionRequest, dedicated, check_gates, pass_gates, queue_checks, is_empty, transition_request,
}
use rgp.Lifecycle.Preserved.{Core, cores}
use rgp.Lifecycle.Preserved.Registration.{Preserves-append_event}
use rgp.Lifecycle.Preserved.Reviews.{Preserves-enqueue_request}
use rgp.Lifecycle.Preserved.Effects.{Preserves-side_effects}
use rgp.Lifecycle.Contracts.{
  Changed, move_core, Outcome, Committed, HasCores, HasCores-laws, Outcome-with_session,
  Ensures-load, Ensures-guard, Ensures-modify, Ensures-step, Ensures-commit,
}
use rgp.Lifecycle.Contracts.Moves.{guard_holds}

-- The required checks of the transition that have not passed
abbrev pub open_gates : RequestTable → RequestStatus → Db → List String
open_gates row target d =
    unresolved (select (is_request_check row.id) d.tables.check_results)
      (active_transition_gate_check_names target row.tenant_id d)

is_empty_iff {ℓ} : {A : Type ℓ} (xs : List A) → is_empty xs ≡ true → xs ≡ []
is_empty_iff [] h = refl
is_empty_iff (x ∷ xs) h = cc h

-- without required names nothing is open
unresolved-empty :
    (row : RequestTable) (target : RequestStatus) (d : Db)
    → is_empty (active_transition_gate_check_names target row.tenant_id d) ≡ true
    → open_gates row target d ≡ []
unfolding unresolved
unresolved-empty row target d h = rw (is_empty_iff _ h) refl

Ensures-commit-raise :
    {cs : List Core} {d : Db} {Q : Unit {0} → Session → Type 0} (e : Error)
    (n : Unit {0} → Action Unit)
    → Ensures (HasCores cs d) ((commit >> raise e) >>= n) Q (Committed cs)
unfolding commit raise ◌>>=◌
Ensures-commit-raise e n = record { holds = λ s h. record { same = h.open_cores } }

module _ (host : Host) (d : Db) (row : RequestTable) (target : RequestStatus)
    (actor_id : String) where
  Ensures-queue_checks :
      {Q : Unit {0} → Session → Type 0} (text : String) (n : Unit {0} → Action Unit)
      → Ensures (At d) (queue_checks host row.id target actor_id text >>= n) Q (Committed (cores d))
  unfolding queue_checks
  Ensures-queue_checks text n =
      Ensures-weaken _ (λ s a. record { open_cores = ap cores a.current; saved = a.saved })
        (Ensures-assoc (enqueue_request_checks host row.id actor_id _) _ n (
          Ensures-step (cores d) _ _
            (Preserves-enqueue_request (HasCores-laws host (cores d) d) row.id actor_id _)
            (Ensures-commit-raise _ n)))

  Ensures-pass_gates :
      {Q : Unit {0} → Session → Type 0} (n : Unit {0} → Action Unit)
      → (open_gates row target d ≡ [] → Ensures (At d) (n tt) Q (Committed (cores d)))
      → Ensures (At d) (pass_gates host row target actor_id >>= n) Q (Committed (cores d))
  unfolding pass_gates assert_request_transition_ready
  Ensures-pass_gates n k = Ensures-assoc (read (has_pending_request_check_run row.id)) _ n (
      Ensures-read _ _ (
        Ensures-assoc (raise_if (has_pending_request_check_run row.id d) _) _ n (
          Ensures-guard _ _ _ (λ idle.
            Ensures-except-read (active_transition_gate_check_names target row.tenant_id) _ _ n (
              Ensures-except-read
                (λ (x : Db). select (is_request_check row.id) x.tables.check_results) _ _ n
                (Ensures-except-raise_if _ _ _ n
                  (λ none_open. k (is_empty_iff _ (guard_holds _ none_open)))
                  (Ensures-queue_checks _ n)))))))

  Ensures-check_gates :
      {Q : Unit {0} → Session → Type 0} (n : Action Unit)
      → (open_gates row target d ≡ [] → Ensures (At d) n Q (Committed (cores d)))
      → Ensures (At d) (check_gates host row target actor_id >> n) Q (Committed (cores d))
  unfolding check_gates
  Ensures-check_gates n k =
      Ensures-assoc (read (active_transition_gate_check_names target row.tenant_id)) _ (λ _. n)
        (Ensures-read _ _ (
          Ensures-when _ _ (λ _. n) (λ h. k (unresolved-empty row target d (guard_holds _ h)))
            (λ h. Ensures-pass_gates (λ _. n) k)))

abbrev pub IsAllowed : RequestStatus → Db → RequestTable → Type 0
IsAllowed target d row =
    (is_in target dedicated ≡ false)
    × (is_valid_transition row.status target ≡ true)
    × (open_gates row target d ≡ [])

-- If the transition of a request returns, the row was found, the tenant may access it, the target
-- has no operation of its own, the lifecycle allows the step and every check that a gate of the
-- tenant requires for it has passed; the status is then the target and the version one higher, and,
-- whatever the side effects did, no other request has changed in its identity, tenant, status,
-- version or archive flag. If it raises, no request has.
pub transition_request_contract :
    (host : Host) (id : String) (p : TransitionRequest) (tenant : Option String) (d : Db)
    → Outcome
        (Changed id tenant (IsAllowed p.target_status d) (move_core p.target_status) d)
        d
        (with_session (transition_request host id p tenant) d)
unfolding transition_request
transition_request_contract host id p tenant d =
    let target = p.target_status in
    let cs = update (λ (c : Core). str_eq c.id id) (move_core target) (cores d) in
    let laws = HasCores-laws host cs d in
    Outcome-with_session _ d _ (
      Ensures-load id tenant _ (λ row found allowed. Ensures-guard _ _ _ (λ own.
        Ensures-guard _ _ _ (λ rule. Ensures-check_gates host d row target p.actor_id _ (λ gates.
          Ensures-modify id _ (move_core target) _ (λ r. refl)
            (Ensures-step cs _ _ (Preserves-side_effects laws id target p.actor_id) (
              Ensures-step cs _ _ (Preserves-append_event laws id p.actor_id _ p.reason) (
                Ensures-commit cs d _ _
                  (λ d' same. (row, found, allowed, (own, guard_holds _ rule, gates), same))))))))))
