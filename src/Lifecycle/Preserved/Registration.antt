-- ===== src/Lifecycle/Preserved/Registration.antt =====
-- The provisioning of users preserves what its actions preserve.
use rgp.Prelude.{String, Option, List}
use rgp.Request.{RequestStatus}
use rgp.Db.{RequestTable, UserTable, TeamTable}
use rgp.Session.{Host, Session, draw}
use rgp.Session.Preserves.{Preserves, Preserves-bind, preserves_rules}
use rgp.Events.{append_event}
use rgp.Lifecycle.Registration.{
  join_team, provision_user, update_user, register_user, apply_registration_request_side_effects,
}
use rgp.Lifecycle.Preserved.{SideEffectLaws, Preserves-get_request}

module _ {host : Host} {P : Session → Type 0} (laws : SideEffectLaws host P) where
  pub Preserves-append_event :
      (id actor action reason : String) → Preserves P (append_event host id actor action reason)
  unfolding append_event
  Preserves-append_event id actor action reason =
      search (preserves_rules, laws.on_journal, laws.on_append) depth 24

  Preserves-join :
      (tenant_id user_id : String) (team : Option TeamTable)
      → Preserves P (join_team host tenant_id user_id team)
  unfolding join_team
  Preserves-join tenant_id user_id team = search (preserves_rules, laws.on_tables) depth 24

  Preserves-provision :
      (row : RequestTable) (actor_id email : String) (roles : List String) (team : Option TeamTable)
      → Preserves P (provision_user host row actor_id email roles team)
  unfolding provision_user
  Preserves-provision row actor_id email roles team = Preserves-bind draw _ laws.on_draw (λ n.
      search (preserves_rules, laws.on_tables, Preserves-join, Preserves-append_event) depth 24)

  Preserves-update_user :
      (row : RequestTable) (email : String) (roles : List String) (target : RequestStatus)
      (team : Option TeamTable) (u : UserTable)
      → Preserves P (update_user host row email roles target team u)
  unfolding update_user
  Preserves-update_user row email roles target team u =
      search (preserves_rules, laws.on_tables, Preserves-join) depth 24

  Preserves-register :
      (row : RequestTable) (actor_id : String) (target : RequestStatus) (email : String)
      → Preserves P (register_user host row actor_id target email)
  unfolding register_user
  Preserves-register row actor_id target email =
      search (preserves_rules, Preserves-provision, Preserves-update_user) depth 24

  pub Preserves-registration :
      (request_id actor_id : String) (target : RequestStatus)
      → Preserves P (apply_registration_request_side_effects host request_id actor_id target)
  unfolding apply_registration_request_side_effects
  Preserves-registration request_id actor_id target =
      search (preserves_rules, Preserves-get_request, Preserves-register) depth 24
