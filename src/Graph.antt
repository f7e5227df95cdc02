-- ===== src/Graph.antt =====
-- apps/api/app/services/relationship_graph_service.py and dependency_execution_service.py: the graph of
-- the relationships between requests. A set of visited identifiers is a list that holds each once.
pub mod Traversal
pub mod Dependencies
pub mod Order
use rgp.Prelude.{
  ℕ, zero, suc, ◌+◌, ◌-◌, String, ◌<>◌, Bool, true, false, not, ◌&&◌, ◌||◌, Option, none, some,
  List, [], ◌∷◌, ◌++◌, length, select, contains, distinct, str_eq, ◌==◌, leb, if◌then◌else◌, map,
  any, sort_by, Dict, lookup, insert,
}
use rgp.Request.{status_value}
use rgp.Text.{join, text_lt}
use rgp.Db.{Db, RequestTable, RequestRelationshipTable}
use rgp.Session.{Host, Action, value_error, read, raise_if, ◌>>=◌, ◌>>◌}
use rgp.Bridge.{get_request_state}

-- A relationship that the traversal reports
pub record Edge : Type 0 where
  pub source : String
  pub target : String
  pub type_of : String
  pub depth : ℕ

-- The edge, at a depth
abbrev pub edge_at : ℕ → RequestRelationshipTable → Edge
edge_at depth r = record {
  source = r.source_request_id;
  target = r.target_request_id;
  type_of = r.relationship_type;
  depth = depth;
}

pub data Direction : Type 0 where
  outbound inbound : Direction

-- The end of a relationship where the traversal stands, and the end that it goes to
abbrev pub near : Direction → RequestRelationshipTable → String
near Direction.outbound r = r.source_request_id
near Direction.inbound r = r.target_request_id

abbrev pub far : Direction → RequestRelationshipTable → String
far Direction.outbound r = r.target_request_id
far Direction.inbound r = r.source_request_id

-- The variables of the search
pub record Search : Type 0 where
  pub visited : List String
  pub queue : List (String × ℕ)
  pub results : List Edge

-- the body of `for edge in edges`, at the depth of the far ends
unfoldable pub visit_edge : Direction → ℕ → RequestRelationshipTable → Search → Search
visit_edge direction depth r s =
    let reported = s.results ++ edge_at depth r ∷ [] in
    if contains (far direction r) s.visited then record s { results = reported } else record {
      visited = s.visited ++ far direction r ∷ [];
      queue = s.queue ++ (far direction r, depth) ∷ [];
      results = reported;
    }

unfoldable pub visit_edges : Direction → ℕ → List RequestRelationshipTable → Search → Search
unfolding visit_edge
visit_edges direction depth [] s = s
visit_edges direction depth (r ∷ rs) s =
    visit_edges direction depth rs (visit_edge direction depth r s)

-- one round of `while queue`, for the head of the queue
unfoldable pub visit : Direction → ℕ → List RequestRelationshipTable → String → ℕ → Search → Search
unfolding visit_edges
visit direction max_depth rows id depth s =
    if leb max_depth depth
    then s
    else visit_edges direction (suc depth) (select (λ r. str_eq (near direction r) id) rows) s

-- `while queue`, with fuel: `none` if it is not enough
unfoldable pub search_loop :
    Direction
    → ℕ
    → List RequestRelationshipTable
    → ℕ
    → List String
    → List (String × ℕ)
    → List Edge
    → Option (List Edge)
unfolding visit
search_loop direction max_depth rows fuel visited [] results = some results
search_loop direction max_depth rows zero visited (next ∷ rest) results = none
search_loop direction max_depth rows (suc fuel) visited ((id, depth) ∷ rest) results =
    let s =
      visit direction max_depth rows id depth
        (record { visited = visited; queue = rest; results = results }) in
    search_loop direction max_depth rows fuel s.visited s.queue s.results

-- traverse. Each relationship is the first to reach at most one request, so one round for each and
-- one for the start are enough.
unfoldable pub traverse : String → Direction → ℕ → Db → Option (List Edge)
unfolding search_loop
traverse request_id direction max_depth d =
    let rows = d.journal.relationships in
    search_loop direction max_depth rows (suc (length rows)) (request_id ∷ [])
      ((request_id, 0) ∷ []) []

-- impact_analysis: sorted(affected)
unfoldable pub impact_analysis : String → Db → Option (List String)
unfolding traverse text_lt
impact_analysis request_id d = elim (traverse request_id Direction.outbound 20 d) [
  | none ↦ none
  | some edges ↦ some (sort_by text_lt (distinct (map (λ e. e.target) edges)))
]
