-- ===== src/Lifecycle/Contracts/Progress.antt =====
-- Sequences of operations: a request is never lost, never changes hands, and its version never falls.
use rgp.Prelude.{
  ◌≤◌, String, ◌≡◌, refl, ap, ◌∙◌, Bool, true, false, Option, some, List, [], ◌∷◌, ◌++◌, update,
  str_eq, if◌then◌else◌, arith, eq_iff,
}
use rgp.Request.{RequestStatus, draft, submitted, canceled, is_in}
use rgp.StateMachine.{amendable_statuses, cancelable_statuses}
use rgp.Db.{Db, RequestTable}
use rgp.Session.{Host, Result, ok, err, with_session}
use rgp.Lifecycle.Operations.{
  amend_request, cancel_request, transition_request, clone_request, supersede_request,
}
use rgp.Lifecycle.Submission.{create_request_draft, submit_request}
use rgp.Lifecycle.Preserved.{core, Core, cores}
use rgp.Lifecycle.Contracts.{Outcome, Changed, move_core}
use rgp.Lifecycle.Contracts.Moves.{cancel_request_contract, amend_request_contract}
use rgp.Lifecycle.Contracts.Transition.{IsAllowed, transition_request_contract}
use rgp.Lifecycle.Contracts.Additions.{cores-added}
use rgp.Lifecycle.Contracts.Copies.{
  archive_core, Cloned, clone_request_contract, supersede_request_contract,
}
use rgp.Lifecycle.Contracts.Submission.{
  Drafted, IsSubmittable, create_request_draft_contract, submit_request_contract,
}
use rgp.Lifecycle.Contracts.Final.{
  Operation, drafting, submitting, amending, canceling, transitioning, cloning, superseding,
  perform, perform_all, find_core, find_core-append, is_final, Superseded-final,
}

-- The later core of the same request
pub record Progress (c later : Core) : Type 0 where
  pub same_id : later.id ≡ c.id
  pub same_tenant : later.tenant_id ≡ c.tenant_id
  pub grown : c.version ≤ later.version

-- The request is still there, and has only progressed.
abbrev pub Progressed : String → Core → Db → Type 0
Progressed id c d = (later : Core) × (find_core id (cores d) ≡ some later) × Progress c later

Progress-refl : (c : Core) → Progress c c
Progress-refl c = record { same_id = refl; same_tenant = refl; grown = omega arith }

Progress-trans : (a b c : Core) → Progress a b → Progress b c → Progress a c
Progress-trans a b c p q = record {
  same_id = q.same_id ∙ p.same_id;
  same_tenant = q.same_tenant ∙ p.same_tenant;
  grown = omega (arith, p.grown, q.grown);
}

find_core-updated :
    (id j : String) (g : Core → Core) (cs : List Core) (c : Core)
    → ((x : Core) → (g x).id ≡ x.id)
    → find_core id cs ≡ some c
    → find_core id (update (λ (x : Core). str_eq x.id j) g cs)
      ≡ some (if str_eq j id then g c else c)
find_core-updated id j g [] c keeps h = cc h
find_core-updated id j g (x ∷ cs) c keeps h = ground (
  arith,
  keeps x,
  eq_iff x.id j,
  eq_iff x.id id,
  eq_iff j id,
  find_core-updated id j g cs c keeps,
)

if-Progress : (b : Bool) (c x : Core) → Progress c x → Progress c (if b then x else c)
if-Progress true c x p = p
if-Progress false c x p = Progress-refl c

module _ (id : String) (c : Core) (d : Db) where
  Changed-Progressed :
      (j : String) (tenant : Option String) (Guard : RequestTable → Type 0) (g : Core → Core)
      (r : Result {0} (Unit {0}) × Db)
      → ((x : Core) → Progress x (g x))
      → Outcome (Changed j tenant Guard g d) d r
      → find_core id (cores d) ≡ some c
      → Progressed id c r.1
  Changed-Progressed j tenant Guard g (err e, d') moves same f =
      (c, ap (find_core id) same ∙ f, Progress-refl c)
  Changed-Progressed j tenant Guard g (ok a, d') moves (row, found, allowed, guard, same) f = (
    if str_eq j id then g c else c,
    ap (find_core id) same ∙ find_core-updated id j g (cores d) c (λ x. (moves x).same_id) f,
    if-Progress (str_eq j id) c (g c) (moves c),
  )

  appended-Progressed :
      {A : Type 0} (Q : A → Db → Type 0) (r : Result {0} A × Db)
      → ((a : A) (d' : Db) → Q a d' → (x : Core) × (cores d' ≡ cores d ++ x ∷ []))
      → Outcome Q d r
      → find_core id (cores d) ≡ some c
      → Progressed id c r.1
  appended-Progressed Q (err e, d') grown same f = (c, ap (find_core id) same ∙ f, Progress-refl c)
  appended-Progressed Q (ok a, d') grown o f =
      let (x, same) = grown a d' o in
      (c, ap (find_core id) same ∙ find_core-append id (cores d) c x f, Progress-refl c)

move_core-Progress : (target : RequestStatus) (x : Core) → Progress x (move_core target x)
move_core-Progress target x = record { same_id = refl; same_tenant = refl; grown = omega arith }

archive_core-Progress : (x : Core) → Progress x (archive_core x)
archive_core-Progress x = record { same_id = refl; same_tenant = refl; grown = omega arith }

perform-Progressed :
    (host : Host) (op : Operation) (id : String) (c : Core) (d : Db)
    → find_core id (cores d) ≡ some c
    → Progressed id c (perform host op d)
unfolding perform
perform-Progressed host (drafting p actor tenant) id c d f =
    appended-Progressed id c d (Drafted host p actor tenant d)
      (with_session (create_request_draft host p actor tenant) d)
      (λ a d' (t, payload, row, h1, h2, h3, same). (core row, cores-added d d' row same))
      (create_request_draft_contract host p actor tenant d) f
perform-Progressed host (cloning j p tenant) id c d f =
    appended-Progressed id c d (Cloned j tenant d) (with_session (clone_request host j p tenant) d)
      (λ a d' (row, clone, h1, h2, h3, same). (core clone, cores-added d d' clone same))
      (clone_request_contract host j p tenant d) f
perform-Progressed host (submitting j p tenant) id c d f =
    Changed-Progressed id c d j tenant (IsSubmittable host d) (move_core submitted)
      (with_session (submit_request host j p tenant) d) (move_core-Progress submitted)
      (submit_request_contract host j p tenant d) f
perform-Progressed host (amending j p tenant) id c d f =
    Changed-Progressed id c d j tenant (λ row. is_in row.status amendable_statuses ≡ true)
      (move_core draft) (with_session (amend_request host j p tenant) d) (move_core-Progress draft)
      (amend_request_contract host j p tenant d) f
perform-Progressed host (canceling j p tenant) id c d f =
    Changed-Progressed id c d j tenant (λ row. is_in row.status cancelable_statuses ≡ true)
      (move_core canceled) (with_session (cancel_request host j p tenant) d)
      (move_core-Progress canceled) (cancel_request_contract host j p tenant d) f
perform-Progressed host (transitioning j p tenant) id c d f =
    Changed-Progressed id c d j tenant (IsAllowed p.target_status d) (move_core p.target_status)
      (with_session (transition_request host j p tenant) d) (move_core-Progress p.target_status)
      (transition_request_contract host j p tenant d) f
perform-Progressed host (superseding j p tenant) id c d f =
    Changed-Progressed id c d j tenant (λ row. is_final row.status ≡ false) archive_core
      (with_session (supersede_request host j p tenant) d) archive_core-Progress
      (Superseded-final id c d j p.replacement_request_id tenant
        (with_session (supersede_request host j p tenant) d)
        (supersede_request_contract host j p tenant d))
      f

-- Through every sequence of draftings, submissions, amendments, cancellations, transitions, clonings
-- and supersessions, by any actors and tenants, whether each of them returns or raises, a request that is in the database stays in it under its identifier and its tenant, and its
-- version does not fall.
pub perform_all-Progressed :
    (ops : List (Host × Operation)) (id : String) (c : Core) (d : Db)
    → find_core id (cores d) ≡ some c
    → Progressed id c (perform_all ops d)
unfolding perform_all
perform_all-Progressed [] id c d f = (c, f, Progress-refl c)
perform_all-Progressed ((host, op) ∷ ops) id c d f =
    let (next, f1, p) = perform-Progressed host op id c d f in
    let (last, f2, q) = perform_all-Progressed ops id next (perform host op d) f1 in
    (last, f2, Progress-trans c next last p q)
