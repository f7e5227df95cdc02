-- ===== src/Lifecycle/Contracts/Events.antt =====
-- The operations on requests record events: each stands in the outbox of the same transaction.
use rgp.Prelude.{String, Option, []}
use rgp.Request.{RequestStatus}
use rgp.Db.{Db, RequestTable}
use rgp.Session.{Host, Session, Action, with_session}
use rgp.Session.Preserves.{Preserves, preserves_rules}
use rgp.Events.{append_event}
use rgp.Events.Outbox.{
  IsPublished, AllPublished, AllPublished-requests, AllPublished-journal, AllPublished-tables,
  AllPublished-thread, AllPublished-put_text, AllPublished-commit, AllPublished-draw,
  AllPublished-append,
}
use rgp.Checks.{assert_request_transition_ready}
use rgp.Lifecycle.Operations.{
  AmendRequest, CancelRequest, TransitionRequest, CloneRequest, SupersedeRequest, load_request,
  check_gates, pass_gates, queue_checks, append_relationship, ensure_request_tenant_access,
  amend_request, cancel_request, transition_request, clone_request, supersede_request,
}
use rgp.Lifecycle.Submission.{
  CreateRequestDraft, SubmitRequest, create_request_draft, submit_request,
}
use rgp.Lifecycle.Preserved.{SideEffectLaws, Preserves-next_id}
use rgp.Lifecycle.Preserved.Registration.{Preserves-append_event}
use rgp.Lifecycle.Preserved.Reviews.{Preserves-enqueue_request}
use rgp.Lifecycle.Preserved.Effects.{Preserves-side_effects}

AllPublished-laws : (host : Host) → SideEffectLaws host (AllPublished host)
AllPublished-laws host = record {
  on_requests = λ id f h. AllPublished-requests _;
  on_journal = AllPublished-journal;
  on_tables = AllPublished-tables;
  on_thread = AllPublished-thread;
  on_put_text = AllPublished-put_text;
  on_draw = AllPublished-draw host;
  on_append = AllPublished-append host;
}

module _ {P : Session → Type 0} where
  Preserves-access :
      (row : RequestTable) (tenant : Option String)
      → Preserves P (ensure_request_tenant_access row tenant)
  unfolding ensure_request_tenant_access
  Preserves-access row tenant = search preserves_rules depth 24

  Preserves-load : (id : String) (tenant : Option String) → Preserves P (load_request id tenant)
  unfolding load_request
  Preserves-load id tenant = search preserves_rules depth 24

  Preserves-ready :
      (id : String) (target : RequestStatus) (tenant : String)
      → Preserves P (assert_request_transition_ready id target tenant)
  unfolding assert_request_transition_ready
  Preserves-ready id target tenant = search preserves_rules depth 24

module _ (host : Host) where
  Published-event :
      (id actor action reason : String)
      → Preserves (AllPublished host) (append_event host id actor action reason)
  Published-event id actor action reason =
      Preserves-append_event (AllPublished-laws host) id actor action reason

  Published-relationship :
      (source target kind actor : String)
      → Preserves (AllPublished host) (append_relationship host source target kind actor)
  unfolding append_relationship
  Published-relationship source target kind actor =
      search (preserves_rules, AllPublished-journal) depth 24

  Published-queue :
      (id : String) (target : RequestStatus) (actor text : String)
      → Preserves (AllPublished host) (queue_checks host id target actor text)
  unfolding queue_checks
  Published-queue id target actor text =
      search
        (preserves_rules, AllPublished-commit, Preserves-enqueue_request (AllPublished-laws host))
        depth 24

  Published-pass :
      (row : RequestTable) (target : RequestStatus) (actor : String)
      → Preserves (AllPublished host) (pass_gates host row target actor)
  unfolding pass_gates
  Published-pass row target actor =
      search (preserves_rules, Preserves-ready, Published-queue) depth 24

  Published-gates :
      (row : RequestTable) (target : RequestStatus) (actor : String)
      → Preserves (AllPublished host) (check_gates host row target actor)
  unfolding check_gates
  Published-gates row target actor = search (preserves_rules, Published-pass) depth 24

  Published-amend :
      (id : String) (p : AmendRequest) (tenant : Option String)
      → Preserves (AllPublished host) (amend_request host id p tenant)
  unfolding amend_request
  Published-amend id p tenant =
      search
        (
          preserves_rules, Preserves-load, AllPublished-requests, Published-event,
          AllPublished-commit,
        )
        depth 24

  Published-cancel :
      (id : String) (p : CancelRequest) (tenant : Option String)
      → Preserves (AllPublished host) (cancel_request host id p tenant)
  unfolding cancel_request
  Published-cancel id p tenant =
      search
        (
          preserves_rules, Preserves-load, AllPublished-requests, Published-event,
          AllPublished-commit,
        )
        depth 24

  Published-transition :
      (id : String) (p : TransitionRequest) (tenant : Option String)
      → Preserves (AllPublished host) (transition_request host id p tenant)
  unfolding transition_request
  Published-transition id p tenant =
      search
        (
          preserves_rules,
          Preserves-load,
          AllPublished-requests,
          Published-gates,
          Published-event,
          Preserves-side_effects (AllPublished-laws host),
          AllPublished-commit,
        )
        depth 30

  Published-clone :
      (id : String) (p : CloneRequest) (tenant : Option String)
      → Preserves (AllPublished host) (clone_request host id p tenant)
  unfolding clone_request
  Published-clone id p tenant =
      search
        (
          preserves_rules,
          Preserves-load,
          Preserves-next_id (AllPublished-laws host),
          AllPublished-requests,
          Published-event,
          Published-relationship,
          AllPublished-commit,
        )
        depth 30

  Published-supersede :
      (id : String) (p : SupersedeRequest) (tenant : Option String)
      → Preserves (AllPublished host) (supersede_request host id p tenant)
  unfolding supersede_request
  Published-supersede id p tenant =
      search
        (
          preserves_rules, AllPublished-requests, Published-event, Published-relationship,
          AllPublished-commit,
        )
        depth 30

module _ (host : Host) where
  Published-draft :
      (p : CreateRequestDraft) (actor tenant : String)
      → Preserves (AllPublished host) (create_request_draft host p actor tenant)
  unfolding create_request_draft
  Published-draft p actor tenant =
      search
        (
          preserves_rules,
          Preserves-next_id (AllPublished-laws host),
          AllPublished-requests,
          Published-event host,
          AllPublished-commit,
        )
        depth 30

  Published-submit :
      (id : String) (p : SubmitRequest) (tenant : Option String)
      → Preserves (AllPublished host) (submit_request host id p tenant)
  unfolding submit_request
  Published-submit id p tenant =
      search
        (
          preserves_rules,
          Preserves-load,
          AllPublished-requests,
          Published-event host,
          Preserves-enqueue_request (AllPublished-laws host),
          AllPublished-commit,
        )
        depth 40

IsPublished-with_session :
    {A : Type 0} (host : Host) (m : Action A) (d : Db)
    → Preserves (AllPublished host) m
    → IsPublished host d.events
    → IsPublished host (with_session m d).1.events
unfolding with_session
IsPublished-with_session host m d k h =
    (k.after (record { db = d; committed = d; draws = 0; threads = []; objects = [] })
      (record { log = h; saved = h })).saved

-- The outbox follows the event store in the database that a session leaves.
abbrev pub LeavesPublished : {A : Type 0} → Host → Db → Action A → Type 0
LeavesPublished host d m = IsPublished host (with_session m d).1.events

-- If the stored events have the keys 1, 2 and so on, and the outbox has one row for each, in the same
-- order and naming the event's key, tenant, topic and partition key, then this is so in the database
-- that drafting, submitting, amending, canceling, transitioning, cloning or superseding a request
-- leaves, whether the operation returns or raises.
pub operations-IsPublished :
    (host : Host) (id : String) (tenant : Option String) (d : Db)
    → IsPublished host d.events
    → ((p : CreateRequestDraft) (actor own : String)
        → LeavesPublished host d (create_request_draft host p actor own))
      × ((p : SubmitRequest) → LeavesPublished host d (submit_request host id p tenant))
      × ((p : AmendRequest) → LeavesPublished host d (amend_request host id p tenant))
      × ((p : CancelRequest) → LeavesPublished host d (cancel_request host id p tenant))
      × ((p : TransitionRequest) → LeavesPublished host d (transition_request host id p tenant))
      × ((p : CloneRequest) → LeavesPublished host d (clone_request host id p tenant))
      × ((p : SupersedeRequest) → LeavesPublished host d (supersede_request host id p tenant))
operations-IsPublished host id tenant d h = (
  λ p actor own. IsPublished-with_session host _ d (Published-draft host p actor own) h,
  λ p. IsPublished-with_session host _ d (Published-submit host id p tenant) h,
  λ p. IsPublished-with_session host _ d (Published-amend host id p tenant) h,
  λ p. IsPublished-with_session host _ d (Published-cancel host id p tenant) h,
  λ p. IsPublished-with_session host _ d (Published-transition host id p tenant) h,
  λ p. IsPublished-with_session host _ d (Published-clone host id p tenant) h,
  λ p. IsPublished-with_session host _ d (Published-supersede host id p tenant) h,
)
