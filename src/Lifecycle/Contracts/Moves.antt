-- ===== src/Lifecycle/Contracts/Moves.antt =====
-- Amending and canceling a request.
use rgp.Prelude.{String, ◌≡◌, refl, Bool, true, false, not, Option, some, update, str_eq, arith}
use rgp.Request.{is_in, draft, canceled}
use rgp.StateMachine.{amendable_statuses, cancelable_statuses}
use rgp.Db.{Db, RequestTable}
use rgp.Session.{Host, with_session, commit, ◌>>◌}
use rgp.Session.Contracts.{Ensures, At}
use rgp.Events.{append_event}
use rgp.Lifecycle.{modify_request}
use rgp.Lifecycle.Operations.{
  AmendRequest, CancelRequest, find_request, denied, amended, amend_request, cancel_request,
}
use rgp.Lifecycle.Preserved.{Core, core, cores}
use rgp.Lifecycle.Preserved.Registration.{Preserves-append_event}
use rgp.Lifecycle.Contracts.{
  Changed, move_core, Outcome, OnCommitted, Committed, HasCores-laws, Outcome-with_session,
  Ensures-load, Ensures-guard, Ensures-modify, Ensures-step, Ensures-commit,
}

pub guard_holds : (b : Bool) → not b ≡ false → b ≡ true
guard_holds b h = ground arith

-- What follows the guards of a request that is moved: the new row, the event and the commit
pub Ensures-move :
    (host : Host) (id : String) (tenant : Option String) (Guard : RequestTable → Type 0)
    (f : RequestTable → RequestTable) (g : Core → Core) (actor action reason : String) (d : Db)
    (row : RequestTable)
    → find_request id d ≡ some row
    → denied tenant row ≡ false
    → Guard row
    → ((r : RequestTable) → core (f r) ≡ g (core r))
    → Ensures
        (At d)
        (modify_request id f >> (append_event host id actor action reason >> commit))
        (OnCommitted (Changed id tenant Guard g d))
        (Committed (cores d))
Ensures-move host id tenant Guard f g actor action reason d row p q k h =
    let cs = update (λ (c : Core). str_eq c.id id) g (cores d) in
    Ensures-modify id f g _ h (
      Ensures-step cs _ _ (Preserves-append_event (HasCores-laws host cs d) id actor action reason)
        (Ensures-commit cs d _ _ (λ d' same. (row, p, q, k, same))))

-- If canceling a request returns, the row was found, the tenant may access it and its status can be
-- canceled; the status is then canceled and the version one higher, and no other request has
-- changed in its identity, tenant, status, version or archive flag. If it raises, no request has.
pub cancel_request_contract :
    (host : Host) (id : String) (p : CancelRequest) (tenant : Option String) (d : Db)
    → Outcome
        (Changed id tenant
          (λ row. is_in row.status cancelable_statuses ≡ true)
          (move_core canceled)
          d)
        d
        (with_session (cancel_request host id p tenant) d)
unfolding cancel_request
cancel_request_contract host id p tenant d = Outcome-with_session _ d _ (
    Ensures-load id tenant _ (λ row found allowed. Ensures-guard _ _ _ (λ g.
      Ensures-move host id tenant _ _ (move_core canceled) _ _ _ d row found allowed
        (guard_holds _ g) (λ r. refl))))

-- If amending a request returns, the row was found, the tenant may access it and its status can be
-- amended; the status is then a draft's and the version one higher, and no other request has changed
-- in its identity, tenant, status, version or archive flag. If it raises, no request has.
pub amend_request_contract :
    (host : Host) (id : String) (p : AmendRequest) (tenant : Option String) (d : Db)
    → Outcome
        (Changed id tenant (λ row. is_in row.status amendable_statuses ≡ true) (move_core draft) d)
        d
        (with_session (amend_request host id p tenant) d)
unfolding amend_request amended
amend_request_contract host id p tenant d = Outcome-with_session _ d _ (
    Ensures-load id tenant _ (λ row found allowed. Ensures-guard _ _ _ (λ g.
      Ensures-move host id tenant _ _ (move_core draft) _ _ _ d row found allowed (guard_holds _ g)
        (λ r. refl))))
