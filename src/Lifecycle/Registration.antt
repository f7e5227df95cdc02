-- ===== src/Lifecycle/Registration.antt =====
-- governance_repository.py: a registration request that is approved or completed provisions its user.
use rgp.Prelude.{
  String, ◌<>◌, Bool, true, not, ◌&&◌, Option, none, some, List, [], ◌∷◌, ◌++◌, any, first, update,
  contains, str_eq, if◌then◌else◌,
}
use rgp.Json.{
  Value, Elements, Entries, none_value, string, list_of, dict_of, no_elements, item, no_entries,
  entry, get, get_default, truthy,
}
use rgp.Request.{RequestStatus, status_eq, completed}
use rgp.Db.{Db, RequestTable, UserTable, TeamTable, TeamMembershipTable}
use rgp.Session.{
  Host, Action, type_error, pure, read, required, write_tables, draw, when, match_row, ◌>>=◌, ◌>>◌,
}
use rgp.Events.{append_event}
use rgp.Lifecycle.{get_request, to_text, is_set}

-- PrincipalRole
abbrev pub principal_roles : List String
principal_roles =
    "platform_admin" ∷ "tenant_admin" ∷ "admin" ∷ "operator" ∷ "reviewer" ∷ "submitter" ∷ "observer"
    ∷ []

-- The first of the two values that is truthy: `first or second`
abbrev value_or : Value → Value → Value
value_or v w = if truthy v then v else w

-- Of the values of a list, the names of roles; a list or an object in it has no hash.
listed_roles : Elements → Option (List String)
listed_roles no_elements = some []
listed_roles (item (string t) rest) = elim (listed_roles rest) [
  | none ↦ none
  | some ts ↦ some (if contains t principal_roles then t ∷ ts else ts)
]
listed_roles (item (list_of xs) rest) = none
listed_roles (item (dict_of fs) rest) = none
listed_roles (item _ rest) = listed_roles rest

keyed_roles : Entries → List String
keyed_roles no_entries = []
keyed_roles (entry k v rest) =
    let ts = keyed_roles rest in if contains k principal_roles then k ∷ ts else ts

-- normalized_roles; `none` for the TypeError of a value that has no members
unfoldable pub normalized_roles : Entries → Option (List String)
unfolding get truthy listed_roles keyed_roles
normalized_roles payload =
    let v = get_default "requested_roles" none_value payload in
    if truthy v
    then (elim v [
      | string t ↦ some (if contains t principal_roles then t ∷ [] else [])
      | list_of items ↦ listed_roles items
      | dict_of fields ↦ some (keyed_roles fields)
      | _ ↦ none
    ])
    else some []

-- str(payload.get(key) or "").strip()
unfoldable pub stripped : Host → String → Entries → String
unfolding get truthy
stripped host key payload =
    host.strip (to_text host (value_or (get_default key none_value payload) (string "")))

-- The team that is asked for, if it is an active team of the tenant.
abbrev pub requested_team : Host → RequestTable → Db → Option TeamTable
requested_team host row d =
    elim (first (λ t. str_eq t.id (stripped host "requested_team_id" row.input_payload))
      d.tables.teams) [
        | none ↦ none
        | some t ↦
            if not (str_eq (stripped host "requested_team_id" row.input_payload) "")
              && str_eq t.tenant_id row.tenant_id
              && str_eq t.status "active"
            then some t
            else none
      ]

new_membership : Host → String → String → String → TeamMembershipTable
new_membership host tenant_id team_id user_id = record {
  id = "tm_" <> team_id <> "_" <> user_id;
  tenant_id = tenant_id;
  team_id = team_id;
  user_id = user_id;
  role = "member";
  created_at = host.now;
}

abbrev is_member : String → String → String → TeamMembershipTable → Bool
is_member tenant_id team_id user_id m =
    str_eq m.tenant_id tenant_id && str_eq m.team_id team_id && str_eq m.user_id user_id

unfoldable pub join_team : Host → String → String → Option TeamTable → Action Unit
unfolding new_membership
join_team host tenant_id user_id requested = match_row requested (pure tt) (λ team. do
  membership ← read (λ d. any (is_member tenant_id team.id user_id) d.tables.memberships)
  when (not membership) (
      write_tables (λ t. record t {
        memberships = t.memberships ++ new_membership host tenant_id team.id user_id ∷ [];
      })))

abbrev roles_or : List String → List String → List String
roles_or [] default = default
roles_or (r ∷ rs) default = r ∷ rs

new_user : Host → RequestTable → String → List String → String → UserTable
unfolding get truthy
new_user host row email roles user_id = record {
  id = user_id;
  tenant_id = row.tenant_id;
  display_name = to_text host (
      value_or (get_default "display_name" none_value row.input_payload)
        (value_or (get_default "email" none_value row.input_payload) (string "Pending User")));
  email = email;
  role_summary = roles_or roles ("submitter" ∷ []);
  status = "pending_activation";
  password_hash = none;
  password_reset_required = true;
  registration_request_id = some row.id;
  created_at = host.now;
  updated_at = host.now;
}

unfoldable pub provision_user :
    Host → RequestTable → String → String → List String → Option TeamTable → Action Unit
unfolding new_user join_team
provision_user host row actor_id email roles team = do
  n ← draw
  let user_id = "user_" <> host.hex10 n
  write_tables (λ t. record t { users = t.users ++ new_user host row email roles user_id ∷ [] })
  join_team host row.tenant_id user_id team
  append_event host row.id actor_id "User Provisioned"
      ("Provisioned pending user profile for " <> email)

updated_user : Host → RequestTable → String → List String → RequestStatus → UserTable → UserTable
unfolding get truthy status_eq
updated_user host row email roles target u = record u {
  display_name =
      to_text host (
        value_or (get_default "display_name" none_value row.input_payload) (string u.display_name));
  email = email;
  role_summary = roles_or roles u.role_summary;
  registration_request_id = some row.id;
  status =
      if status_eq target completed && is_set u.password_hash && not u.password_reset_required
      then "active"
      else if str_eq u.status "active"
      then u.status
      else "pending_activation";
  updated_at = host.now;
}

unfoldable pub update_user :
    Host
    → RequestTable
    → String
    → List String
    → RequestStatus
    → Option TeamTable
    → UserTable
    → Action Unit
unfolding updated_user join_team
update_user host row email roles target team u = do
  write_tables (λ t. record t {
    users = update (λ x. str_eq x.id u.id) (updated_user host row email roles target) t.users;
  })
  join_team host row.tenant_id u.id team

unfoldable pub register_user : Host → RequestTable → String → RequestStatus → String → Action Unit
unfolding normalized_roles provision_user update_user stripped
register_user host row actor_id target email = do
  existing ← read (λ d.
      first (λ u. str_eq u.tenant_id row.tenant_id && str_eq (host.lower u.email) email)
        d.tables.users)
  roles ← required (type_error "requested_roles") (normalized_roles row.input_payload)
  team ← read (requested_team host row)
  match_row existing (provision_user host row actor_id email roles team)
      (λ u. update_user host row email roles target team u)

unfoldable pub apply_registration_request_side_effects :
    Host → String → String → RequestStatus → Action Unit
unfolding stripped register_user
apply_registration_request_side_effects host request_id actor_id target = do
  row ← get_request request_id
  let email = host.lower (stripped host "email" row.input_payload)
  when (str_eq row.template_id "tmpl_user_registration" && not (str_eq email ""))
      (register_user host row actor_id target email)
