-- ===== src/Lifecycle/Contracts/Submission.antt =====
-- Drafting and submitting a request.
use rgp.Prelude.{String, ◌≡◌, refl, ap, true, false, Option, some, [], ◌∷◌, ◌++◌, update, str_eq}
use rgp.Json.{Entries}
use rgp.Request.{is_in, draft, submitted}
use rgp.StateMachine.{submittable_statuses}
use rgp.Db.{Db, RequestTable, TemplateTable}
use rgp.Session.{Host, ok, with_session}
use rgp.Session.Contracts.{
  Ensures-read, Ensures-required, Ensures-lift, Ensures-raise_if, Ensures-weaken,
}
use rgp.Template.Payload.{validate_payload}
use rgp.Lifecycle.Submission.{
  CreateRequestDraft, SubmitRequest, engine, find_template, draft_row, create_request_draft,
  routed_row, submit_request,
}
use rgp.Lifecycle.Preserved.{Core, cores}
use rgp.Lifecycle.Preserved.Registration.{Preserves-append_event}
use rgp.Lifecycle.Preserved.Reviews.{Preserves-enqueue_request}
use rgp.Lifecycle.Contracts.{
  Changed, move_core, Outcome, HasCores-laws, HasCores-Committed, At-Committed,
  Outcome-with_session, Ensures-load, Ensures-step, Ensures-modify_again, Ensures-commit,
}
use rgp.Lifecycle.Contracts.Moves.{guard_holds}
use rgp.Lifecycle.Contracts.Additions.{
  HasRows-append_event, Ensures-next_id, Ensures-insert, Ensures-beside, Ensures-commit-pure,
}

-- A draft of the identifier and the tenant, with what was asked for and the completed payload
pub record IsDraft (p : CreateRequestDraft) (actor tenant id : String) (payload : Entries)
    (row : RequestTable) : Type 0 where
  pub key : row.id ≡ id
  pub of_tenant : row.tenant_id ≡ tenant
  pub status : row.status ≡ draft
  pub version : row.version ≡ 1
  pub not_archived : row.is_archived ≡ false
  pub template : row.template_id ≡ p.template_id
  pub template_version : row.template_version ≡ p.template_version
  pub title : row.title ≡ p.title
  pub summary : row.summary ≡ p.summary
  pub submitter : row.submitter_id ≡ actor
  pub completed : row.input_payload ≡ payload

-- The template stood in the database, and accepts the payload; after all requests, as they were,
-- stands the draft.
abbrev pub Drafted : Host → CreateRequestDraft → String → String → Db → String → Db → Type 0
Drafted host p actor tenant d id d' =
    (template : TemplateTable) × (payload : Entries) × (row : RequestTable) × (find_template
        p.template_id p.template_version tenant d
      ≡ some template)
    × (validate_payload (engine host) template.template_schema p.input_payload false ≡ ok payload)
    × IsDraft p actor tenant id payload row
    × (d'.requests ≡ d.requests ++ row ∷ [])

draft_row-IsDraft :
    (host : Host) (p : CreateRequestDraft) (actor tenant : String) (payload : Entries) (id : String)
    → IsDraft p actor tenant id payload (draft_row host p actor tenant payload id)
unfolding draft_row
draft_row-IsDraft host p actor tenant payload id = record {
  key = refl;
  of_tenant = refl;
  status = refl;
  version = refl;
  not_archived = refl;
  template = refl;
  template_version = refl;
  title = refl;
  summary = refl;
  submitter = refl;
  completed = refl;
}

-- If drafting a request returns, its template was found for the tenant and accepts the payload
-- without its required fields; every stored request is as it was, and after them stands a draft of
-- the returned identifier, of the tenant and of version 1, with the template, the title and the
-- summary that were given, the actor as its submitter and the payload that validation returned. If
-- it raises, no request has changed in its identity, tenant, status, version or archive flag.
pub create_request_draft_contract :
    (host : Host) (p : CreateRequestDraft) (actor tenant : String) (d : Db)
    → Outcome
        (Drafted host p actor tenant d)
        d
        (with_session (create_request_draft host p actor tenant) d)
unfolding create_request_draft
create_request_draft_contract host p actor tenant d = Outcome-with_session _ d _ (
    Ensures-read _ _ (
      Ensures-required _ _ _ (At-Committed d) (λ template found.
        Ensures-lift _ _ (At-Committed d) (λ payload accepted. Ensures-next_id host "req_" _ (λ id.
          let row = draft_row host p actor tenant payload id in
          let rows = d.requests ++ row ∷ [] in
          Ensures-insert row _ (
            Ensures-beside rows _ _ (HasRows-append_event host rows d id actor _ _) (
              Ensures-commit-pure rows d _ _ id (λ d' same. (
                template,
                payload,
                row,
                found,
                accepted,
                draft_row-IsDraft host p actor tenant payload id,
                same,
              )))))))))

-- The row can be submitted, and its template stands in the database and accepts its payload with
-- all required fields.
abbrev pub IsSubmittable : Host → Db → RequestTable → Type 0
IsSubmittable host d row =
    (is_in row.status submittable_statuses ≡ true)
    × ((template : TemplateTable) × (payload : Entries) × (find_template row.template_id
            row.template_version row.tenant_id d
          ≡ some template)
        × (validate_payload (engine host) template.template_schema row.input_payload true
            ≡ ok payload))

-- If submitting a request returns, the row was found, the tenant may access it, its status can be
-- submitted, and its template was found and accepts its payload with all required fields; the status
-- is then submitted and the version one higher, and no other request has changed in its identity,
-- tenant, status, version or archive flag. If it raises, no request has.
pub submit_request_contract :
    (host : Host) (id : String) (p : SubmitRequest) (tenant : Option String) (d : Db)
    → Outcome
        (Changed id tenant (IsSubmittable host d) (move_core submitted) d)
        d
        (with_session (submit_request host id p tenant) d)
unfolding submit_request routed_row
submit_request_contract host id p tenant d =
    let cs = update (λ (c : Core). str_eq c.id id) (move_core submitted) (cores d) in
    let before = HasCores-laws host (cores d) d in
    let laws = HasCores-laws host cs d in
    let keep = HasCores-Committed (cores d) d in
    Outcome-with_session _ d _ (
      Ensures-load id tenant _ (λ row found allowed. Ensures-read _ _ (
        Ensures-required _ _ _ (At-Committed d) (λ template bound.
          Ensures-lift _ _ (At-Committed d) (λ payload accepted.
            Ensures-weaken _ (λ s a. record { open_cores = ap cores a.current; saved = a.saved })
              (Ensures-step (cores d) _ _ (before.on_requests id _ (λ r. refl)) (
                Ensures-lift _ _ keep (λ routing r1. Ensures-lift _ _ keep (λ owner r2.
                  Ensures-lift _ _ keep (λ binding r3.
                    Ensures-step (cores d) _ _ (before.on_requests id _ (λ r. refl)) (
                      Ensures-raise_if _ _ _ keep (λ live.
                        Ensures-modify_again (cores d) id _ (move_core submitted) _ (λ r. refl)
                          (Ensures-step cs _ _
                            (Preserves-enqueue_request laws id p.actor_id p.reason)
                            (Ensures-step cs _ _ (Preserves-append_event laws id p.actor_id _ _) (
                              Ensures-required _ _ _ (HasCores-Committed cs d) (λ reviewers r4.
                                Ensures-step cs _ _ (Preserves-append_event laws id p.actor_id _ _)
                                  (Ensures-commit cs d _ _ (λ d' same. (
                                    row,
                                    found,
                                    allowed,
                                    (guard_holds _ live, (template, payload, bound, accepted)),
                                    same,
                                  )))))))))))))))))))
