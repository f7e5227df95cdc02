-- ===== src/Lifecycle/Contracts/Copies.antt =====
-- Cloning and superseding a request.
use rgp.Prelude.{
  String, ◌+◌, ◌≡◌, refl, false, true, Option, none, some, List, [], ◌∷◌, ◌++◌, update, str_eq,
}
use rgp.Request.{is_in, draft, archived, canceled, completed}
use rgp.Db.{Db, RequestTable}
use rgp.Session.{Host, with_session}
use rgp.Session.Preserves.{Preserves, preserves_rules}
use rgp.Session.Contracts.{Ensures-read, Ensures-required}
use rgp.Lifecycle.Operations.{
  CloneRequest, SupersedeRequest, find_request, denied, both, clone_row, append_relationship,
  superseded, clone_request, supersede_request, ensure_request_tenant_access,
}
use rgp.Lifecycle.Preserved.{Core, cores}
use rgp.Lifecycle.Preserved.Registration.{Preserves-append_event}
use rgp.Lifecycle.Contracts.Additions.{
  HasRows-append_event, HasRows-relationship, Ensures-next_id, Ensures-insert, Ensures-beside,
  Ensures-commit-pure,
}
use rgp.Lifecycle.Contracts.{
  At-Committed, HasCores, HasCores-laws, Outcome, Outcome-with_session, Ensures-load, Ensures-guard,
  Ensures-modify, Ensures-step, Ensures-commit,
}

module _ (host : Host) (cs : List Core) (d : Db) where
  Preserves-relationship :
      (source target kind actor : String)
      → Preserves (HasCores cs d) (append_relationship host source target kind actor)
  unfolding append_relationship
  Preserves-relationship source target kind actor =
      search (preserves_rules, (HasCores-laws host cs d).on_journal) depth 24

-- An archived core
abbrev pub archive_core : Core → Core
archive_core c = record c { status = archived; version = c.version + 1; is_archived = true }

-- Both rows stood in the database, the tenant could access both, they differ, and the request was
-- not archived, canceled or completed; its core, and no other, is archived.
abbrev pub Superseded : String → String → Option String → Db → Unit {0} → Db → Type 0
Superseded id replacement_id tenant d _ d' =
    (row : RequestTable) × (replacement : RequestTable) × (find_request id d ≡ some row)
    × (find_request replacement_id d ≡ some replacement)
    × (denied tenant row ≡ false)
    × (denied tenant replacement ≡ false)
    × (str_eq replacement.id row.id ≡ false)
    × (is_in row.status (archived ∷ canceled ∷ completed ∷ []) ≡ false)
    × (cores d' ≡ update (λ (c : Core). str_eq c.id id) archive_core (cores d))

both-some :
    (o q : Option RequestTable) (rows : RequestTable × RequestTable)
    → both o q ≡ some rows
    → (o ≡ some rows.0) × (q ≡ some rows.1)
both-some none q rows h = cc h
both-some (some a) none rows h = cc h
both-some (some a) (some b) rows h = (cc h, cc h)

-- If superseding a request returns, the rows of the request and of its replacement were found, the
-- tenant may access both, they differ, and the request was not archived, canceled or completed; the
-- request is then archived and its version one higher, and no other request has changed in its
-- identity, tenant, status, version or archive flag. If it raises, no request has.
pub supersede_request_contract :
    (host : Host) (id : String) (p : SupersedeRequest) (tenant : Option String) (d : Db)
    → Outcome
        (Superseded id p.replacement_request_id tenant d)
        d
        (with_session (supersede_request host id p tenant) d)
unfolding supersede_request ensure_request_tenant_access superseded
supersede_request_contract host id p tenant d =
    let cs = update (λ (c : Core). str_eq c.id id) archive_core (cores d) in
    let laws = HasCores-laws host cs d in
    Outcome-with_session _ d _ (
      Ensures-read _ _ (
        Ensures-read _ _ (
          Ensures-required _ _ _ (At-Committed d) (λ rows found. Ensures-guard _ _ _ (λ allowed.
            Ensures-guard _ _ _ (λ allowed_too. Ensures-guard _ _ _ (λ differ.
              Ensures-guard _ _ _ (λ live.
                Ensures-modify id _ archive_core _ (λ r. refl)
                  (Ensures-step cs _ _ (Preserves-append_event laws id p.actor_id _ _) (
                    Ensures-step cs _ _ (Preserves-relationship host cs d id _ _ p.actor_id) (
                      Ensures-step cs _ _ (Preserves-append_event laws _ p.actor_id _ _) (
                        Ensures-commit cs d _ _ (λ d' same.
                          let (a, b) = both-some _ _ rows found in
                          (
                            rows.0, rows.1, a, b, allowed, allowed_too, differ, live, same,
                          ))))))))))))))

-- A draft of the identifier, and what it takes from the request that it clones
pub record IsClone (next : String) (source clone : RequestTable) : Type 0 where
  pub key : clone.id ≡ next
  pub tenant : clone.tenant_id ≡ source.tenant_id
  pub status : clone.status ≡ draft
  pub version : clone.version ≡ 1
  pub not_archived : clone.is_archived ≡ false
  pub no_run : clone.current_run_id ≡ none
  pub template : clone.template_id ≡ source.template_id
  pub template_version : clone.template_version ≡ source.template_version
  pub payload : clone.input_payload ≡ source.input_payload

-- The row stood in the database and the tenant could access it; after all requests, as they were,
-- stands the clone.
abbrev pub Cloned : String → Option String → Db → String → Db → Type 0
Cloned id tenant d next d' =
    (row : RequestTable) × (clone : RequestTable) × (find_request id d ≡ some row)
    × (denied tenant row ≡ false)
    × IsClone next row clone
    × (d'.requests ≡ d.requests ++ clone ∷ [])

clone_row-IsClone :
    (host : Host) (source : RequestTable) (p : CloneRequest) (next : String)
    → IsClone next source (clone_row host source p next)
unfolding clone_row
clone_row-IsClone host source p next = record {
  key = refl;
  tenant = refl;
  status = refl;
  version = refl;
  not_archived = refl;
  no_run = refl;
  template = refl;
  template_version = refl;
  payload = refl;
}

-- If cloning a request returns, the row was found and the tenant may access it; every stored request
-- is as it was, also the one that is cloned, and after them stands a draft of the returned
-- identifier, of version 1 and without a run, with the tenant, template and payload of the request.
-- If it raises, no request has changed in its identity, tenant, status, version or archive flag.
pub clone_request_contract :
    (host : Host) (id : String) (p : CloneRequest) (tenant : Option String) (d : Db)
    → Outcome (Cloned id tenant d) d (with_session (clone_request host id p tenant) d)
unfolding clone_request
clone_request_contract host id p tenant d = Outcome-with_session _ d _ (
    Ensures-load id tenant _ (λ row found allowed. Ensures-next_id host "req_" _ (λ next.
      let clone = clone_row host row p next in
      let rows = d.requests ++ clone ∷ [] in
      Ensures-insert clone _ (
        Ensures-beside rows _ _ (HasRows-append_event host rows d id p.actor_id _ _) (
          Ensures-beside rows _ _ (HasRows-relationship host rows d id next _ p.actor_id) (
            Ensures-beside rows _ _ (HasRows-append_event host rows d next p.actor_id _ _) (
              Ensures-commit-pure rows d _ _ next (λ d' same.
                (row, clone, found, allowed, clone_row-IsClone host row p next, same)))))))))
