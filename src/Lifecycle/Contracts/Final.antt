-- ===== src/Lifecycle/Contracts/Final.antt =====
-- Sequences of operations, by any actors and tenants, successful or not: what is final stays so.
use rgp.Prelude.{
  String, ◌≡◌, refl, sym, ap, ◌∙◌, Bool, true, false, Option, none, some, List, [], ◌∷◌, ◌++◌, map,
  first, update, str_eq, arith, eq_iff, Bool-cases, inl, inr,
}
use rgp.Request.{RequestStatus, is_in, canceled, completed, archived, draft, submitted}
use rgp.StateMachine.{
  is_valid_transition, submittable_statuses, amendable_statuses, cancelable_statuses,
}
use rgp.Db.{Db, RequestTable}
use rgp.Session.{Host, Result, ok, err, with_session}
use rgp.Lifecycle.Operations.{
  AmendRequest, CancelRequest, TransitionRequest, CloneRequest, SupersedeRequest, find_request,
  amend_request, cancel_request, transition_request, clone_request, supersede_request,
}
use rgp.Lifecycle.Submission.{
  CreateRequestDraft, SubmitRequest, create_request_draft, submit_request,
}
use rgp.Lifecycle.Preserved.{Core, core, cores}
use rgp.Lifecycle.Contracts.{Outcome, Changed, move_core}
use rgp.Lifecycle.Contracts.Moves.{cancel_request_contract, amend_request_contract}
use rgp.Lifecycle.Contracts.Transition.{IsAllowed, transition_request_contract}
use rgp.Lifecycle.Contracts.Additions.{cores-added}
use rgp.Lifecycle.Contracts.Copies.{
  archive_core, Cloned, Superseded, clone_request_contract, supersede_request_contract,
}
use rgp.Lifecycle.Contracts.Submission.{
  Drafted, IsSubmittable, create_request_draft_contract, submit_request_contract,
}

-- An operation with its arguments; the last is the tenant of the caller. A review decision, which
-- does not look at the status, is none of them.
pub data Operation : Type 0 where
  drafting : CreateRequestDraft → String → String → Operation
  submitting : String → SubmitRequest → Option String → Operation
  amending : String → AmendRequest → Option String → Operation
  canceling : String → CancelRequest → Option String → Operation
  transitioning : String → TransitionRequest → Option String → Operation
  cloning : String → CloneRequest → Option String → Operation
  superseding : String → SupersedeRequest → Option String → Operation

-- The database after an operation, whether it returns or raises
unfoldable pub perform : Host → Operation → Db → Db
perform host (drafting p actor tenant) d =
    (with_session (create_request_draft host p actor tenant) d).1
perform host (submitting id p tenant) d = (with_session (submit_request host id p tenant) d).1
perform host (amending id p tenant) d = (with_session (amend_request host id p tenant) d).1
perform host (canceling id p tenant) d = (with_session (cancel_request host id p tenant) d).1
perform host (transitioning id p tenant) d =
    (with_session (transition_request host id p tenant) d).1
perform host (cloning id p tenant) d = (with_session (clone_request host id p tenant) d).1
perform host (superseding id p tenant) d = (with_session (supersede_request host id p tenant) d).1

-- Each operation has its own host: its instant and its identifiers
unfoldable pub perform_all : List (Host × Operation) → Db → Db
unfolding perform
perform_all [] d = d
perform_all ((host, op) ∷ ops) d = perform_all ops (perform host op d)

abbrev pub find_core : String → List Core → Option Core
find_core id cs = first (λ (c : Core). str_eq c.id id) cs

abbrev pub is_final : RequestStatus → Bool
is_final s = is_in s (archived ∷ canceled ∷ completed ∷ [])

abbrev core_of : Option RequestTable → Option Core
core_of none = none
core_of (some row) = some (core row)

find_core-cores :
    (id : String) (rows : List RequestTable)
    → find_core id (map core rows) ≡ core_of (first (λ (r : RequestTable). str_eq r.id id) rows)
find_core-cores id [] = refl
find_core-cores id (r ∷ rows) = elim (Bool-cases (str_eq r.id id)) [
  | inl e ↦ rw e refl
  | inr e ↦ rw e (find_core-cores id rows)
]

some-injective : (x y : Core) → some x ≡ some y → x ≡ y
some-injective x y h = cc h

-- the row and the core of one identifier
same_core :
    (j id : String) (d : Db) (row : RequestTable) (c : Core)
    → find_request j d ≡ some row
    → str_eq j id ≡ true
    → find_core id (cores d) ≡ some c
    → core row ≡ c
same_core j id d row c found e f =
    let p : find_core j (cores d) ≡ some (core row) =
      find_core-cores j d.requests ∙ ap core_of found in
    let q = ap (λ x. find_core x (cores d)) ((eq_iff j id).0 e) in
    some-injective (core row) c (sym p ∙ (q ∙ f))

find_core-update :
    (id j : String) (g : Core → Core) (cs : List Core)
    → ((c : Core) → (g c).id ≡ c.id)
    → str_eq j id ≡ false
    → find_core id (update (λ (c : Core). str_eq c.id j) g cs) ≡ find_core id cs
find_core-update id j g [] h n = refl
find_core-update id j g (c ∷ cs) h n =
    ground (arith, h c, eq_iff c.id j, eq_iff c.id id, eq_iff j id, find_core-update id j g cs h n)

pub find_core-append :
    (id : String) (cs : List Core) (c x : Core)
    → find_core id cs ≡ some c
    → find_core id (cs ++ x ∷ []) ≡ some c
find_core-append id [] c x h = cc h
find_core-append id (y ∷ cs) c x h = ground (arith, find_core-append id cs c x)

false-ne-true : false ≡ true → ⊥
false-ne-true h = cc h

module _ (id : String) (c : Core) (d : Db) where
  Changed-final :
      (j : String) (tenant : Option String) (Guard : RequestTable → Type 0) (g : Core → Core)
      (r : Result {0} (Unit {0}) × Db)
      → ((x : Core) → (g x).id ≡ x.id)
      → ((row : RequestTable) → Guard row → is_final row.status ≡ false)
      → Outcome (Changed j tenant Guard g d) d r
      → find_core id (cores d) ≡ some c
      → is_final c.status ≡ true
      → find_core id (cores r.1) ≡ some c
  Changed-final j tenant Guard g (err e, d') keeps live same f final = ap (find_core id) same ∙ f
  Changed-final j tenant Guard g (ok a, d') keeps live (row, found, allowed, guard, same) f final =
      elim (Bool-cases (str_eq j id)) [
        | inl e ↦
            let t = ap (λ (x : Core). is_final x.status) (same_core j id d row c found e f) in
            absurd (false-ne-true (sym (live row guard) ∙ (t ∙ final)))
        | inr e ↦ ap (find_core id) same ∙ (find_core-update id j g (cores d) keeps e ∙ f)
      ]

  Drafted-final :
      {A : Type 0} (Q : A → Db → Type 0) (r : Result {0} A × Db)
      → ((a : A) (d' : Db) → Q a d' → (x : Core) × (cores d' ≡ cores d ++ x ∷ []))
      → Outcome Q d r
      → find_core id (cores d) ≡ some c
      → find_core id (cores r.1) ≡ some c
  Drafted-final Q (err e, d') grown same f = ap (find_core id) same ∙ f
  Drafted-final Q (ok a, d') grown o f =
      let (x, same) = grown a d' o in ap (find_core id) same ∙ find_core-append id (cores d) c x f

  pub Superseded-final :
      (j k : String) (tenant : Option String) (r : Result {0} (Unit {0}) × Db)
      → Outcome (Superseded j k tenant d) d r
      → Outcome (Changed j tenant (λ row. is_final row.status ≡ false) archive_core d) d r
  Superseded-final j k tenant (err e, d') o = o
  Superseded-final j k tenant (ok a, d')
        (row, other, found, found2, allowed, allowed2, differ, live, same) =
      (row, found, allowed, live, same)

amendable_live : (s : RequestStatus) → is_in s amendable_statuses ≡ true → is_final s ≡ false
unfolding is_in amendable_statuses
amendable_live archived h = cc h
amendable_live canceled h = cc h
amendable_live completed h = cc h
amendable_live _ h = refl

cancelable_live : (s : RequestStatus) → is_in s cancelable_statuses ≡ true → is_final s ≡ false
unfolding is_in cancelable_statuses
cancelable_live archived h = cc h
cancelable_live canceled h = cc h
cancelable_live completed h = cc h
cancelable_live _ h = refl

submittable_live : (s : RequestStatus) → is_in s submittable_statuses ≡ true → is_final s ≡ false
unfolding is_in submittable_statuses
submittable_live archived h = cc h
submittable_live canceled h = cc h
submittable_live completed h = cc h
submittable_live _ h = refl

transition_live : (s t : RequestStatus) → is_valid_transition s t ≡ true → is_final s ≡ false
unfolding is_in is_valid_transition
transition_live archived t h = cc h
transition_live canceled t h = cc h
transition_live completed t h = cc h
transition_live _ t h = refl

perform-final :
    (host : Host) (op : Operation) (id : String) (c : Core) (d : Db)
    → find_core id (cores d) ≡ some c
    → is_final c.status ≡ true
    → find_core id (cores (perform host op d)) ≡ some c
unfolding perform
perform-final host (drafting p actor tenant) id c d f final =
    Drafted-final id c d (Drafted host p actor tenant d)
      (with_session (create_request_draft host p actor tenant) d)
      (λ a d' (t, payload, row, h1, h2, h3, same). (core row, cores-added d d' row same))
      (create_request_draft_contract host p actor tenant d) f
perform-final host (cloning j p tenant) id c d f final =
    Drafted-final id c d (Cloned j tenant d) (with_session (clone_request host j p tenant) d)
      (λ a d' (row, clone, h1, h2, h3, same). (core clone, cores-added d d' clone same))
      (clone_request_contract host j p tenant d) f
perform-final host (submitting j p tenant) id c d f final =
    Changed-final id c d j tenant (IsSubmittable host d) (move_core submitted)
      (with_session (submit_request host j p tenant) d) (λ x. refl)
      (λ row (h, rest). submittable_live row.status h) (submit_request_contract host j p tenant d) f
      final
perform-final host (amending j p tenant) id c d f final =
    Changed-final id c d j tenant (λ row. is_in row.status amendable_statuses ≡ true)
      (move_core draft) (with_session (amend_request host j p tenant) d) (λ x. refl)
      (λ row. amendable_live row.status) (amend_request_contract host j p tenant d) f final
perform-final host (canceling j p tenant) id c d f final =
    Changed-final id c d j tenant (λ row. is_in row.status cancelable_statuses ≡ true)
      (move_core canceled) (with_session (cancel_request host j p tenant) d) (λ x. refl)
      (λ row. cancelable_live row.status) (cancel_request_contract host j p tenant d) f final
perform-final host (transitioning j p tenant) id c d f final =
    Changed-final id c d j tenant (IsAllowed p.target_status d) (move_core p.target_status)
      (with_session (transition_request host j p tenant) d) (λ x. refl)
      (λ row (own, rule, gates). transition_live row.status p.target_status rule)
      (transition_request_contract host j p tenant d) f final
perform-final host (superseding j p tenant) id c d f final =
    Changed-final id c d j tenant (λ row. is_final row.status ≡ false) archive_core
      (with_session (supersede_request host j p tenant) d) (λ x. refl) (λ row h. h)
      (Superseded-final id c d j p.replacement_request_id tenant
        (with_session (supersede_request host j p tenant) d)
        (supersede_request_contract host j p tenant d))
      f final

-- A request that is archived, canceled or completed keeps its identity, tenant, status, version and
-- archive flag through every sequence of draftings, submissions, amendments, cancellations,
-- transitions, clonings and supersessions, by any actors and tenants, whether each of them returns
-- or raises. Review decisions are not among these operations: they move a request from any status.
pub perform_all-final :
    (ops : List (Host × Operation)) (id : String) (c : Core) (d : Db)
    → find_core id (cores d) ≡ some c
    → is_final c.status ≡ true
    → find_core id (cores (perform_all ops d)) ≡ some c
unfolding perform_all
perform_all-final [] id c d f final = f
perform_all-final ((host, op) ∷ ops) id c d f final =
    perform_all-final ops id c (perform host op d) (perform-final host op id c d f final) final
