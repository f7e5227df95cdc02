-- ===== src/Template/Routing.antt =====
-- template_engine.py: who owns a request, which workflow it runs and who reviews it.
use rgp.Prelude.{String, Option, none, some, if◌then◌else◌}
use rgp.Json.{
  Value, Elements, Entries, none_value, string, list_of, dict_of, no_entries, no_elements, entry,
  get, has_key,
}
use rgp.Session.{type_error, Result, ok, err}
use rgp.Template.{◌>>=◌, value_of, dict_at}

-- {"value": ...}, or the target itself
target_value : Value → Value
unfolding get
target_value (dict_of es) = if has_key "value" es then value_of "value" es else dict_of es
target_value v = v

-- mapping[field_value], where the mapping has that key; a list or an object has no hash.
mapped : Value → Entries → Result {0} (Option Value)
unfolding get
mapped (string k) mapping = ok (get k mapping)
mapped (list_of items) mapping = err (type_error "unhashable")
mapped (dict_of es) mapping = err (type_error "unhashable")
mapped _ mapping = ok none

resolve_group : Value → Value → Result {0} (Option Value)
unfolding mapped
resolve_group (dict_of mapping) field_value = mapped field_value mapping
resolve_group _ field_value = ok none

abbrev found_or : Option Value → Result {0} Value → Result {0} Value
found_or none rest = rest
found_or (some target) rest = ok (target_value target)

-- The first mapping that has the value of its field
unfoldable pub resolve_routing_value : Entries → Entries → Result {0} Value
unfolding resolve_group target_value get
resolve_routing_value no_entries field_values = ok none_value
resolve_routing_value (entry source_field mapping rest) field_values =
    let others = resolve_routing_value rest field_values in
    (do target ← resolve_group mapping (value_of source_field field_values); found_or target others)

pub record Routing : Type 0 where
  pub owner_team_id : Value
  pub workflow_binding_id : Value
  pub reviewers : Elements
  pub promotion_approvers : Elements

-- routing.get(key), or the value that the mappings of the key give
routed : String → String → Entries → Entries → Result {0} Value
unfolding get resolve_routing_value
routed key key_by_field routing input_payload = elim (value_of key routing) [
  | none_value ↦ (do
    groups ← dict_at key_by_field routing
    resolve_routing_value groups input_payload)
  | v ↦ ok v
]

-- value if it is a list, else []
as_list : Value → Elements
as_list (list_of items) = items
as_list _ = no_elements

unfoldable pub resolve_routing : Entries → Entries → Result {0} Routing
unfolding routed as_list
resolve_routing schema input_payload = do
  routing ← dict_at "routing" schema
  owner_team ← routed "owner_team" "owner_team_by_field" routing input_payload
  workflow_binding ← routed "workflow_binding" "workflow_binding_by_field" routing input_payload
  reviewers ← routed "reviewers" "reviewers_by_field" routing input_payload
  promotion_approvers ←
      routed "promotion_approvers" "promotion_approvers_by_field" routing input_payload
  ok (record {
    owner_team_id = owner_team;
    workflow_binding_id = workflow_binding;
    reviewers = as_list reviewers;
    promotion_approvers = as_list promotion_approvers;
  })
