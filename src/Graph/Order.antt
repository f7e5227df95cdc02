-- ===== src/Graph/Order.antt =====
-- get_dependency_order of apps/api/app/services/relationship_graph_service.py: a topological sort.
pub mod Totality
use rgp.Prelude.{
  ℕ, zero, suc, ◌+◌, String, Bool, true, false, not, ◌&&◌, Option, none, some, List, [], ◌∷◌, ◌++◌,
  length, select, contains, str_eq, ◌==◌, if◌then◌else◌, map, Dict, lookup, insert,
}
use rgp.Prelude.Integers.{ℤ, pos, pred, next, is_zero}
use rgp.Db.{Db, RequestRelationshipTable}
use rgp.Graph.Dependencies.{blocking_types}

-- The order, the ValueError of a cycle, the KeyError of a missing degree, or too little fuel
pub data Order : Type 0 where
  order_of : List String → Order
  cycle_detected key_error out_of_fuel : Order

-- the relationships of the query
abbrev pub is_internal : List String → RequestRelationshipTable → Bool
is_internal ids r =
    contains r.source_request_id ids
    && (contains r.target_request_id ids && contains r.relationship_type blocking_types)

-- {rid: 0 for rid in request_ids}
unfoldable pub zero_degrees : List String → Dict ℤ → Dict ℤ
unfolding insert
zero_degrees [] degrees = degrees
zero_degrees (id ∷ ids) degrees = zero_degrees ids (insert id (pos 0) degrees)

-- in_degree.get(id, 0)
abbrev pub degree_of : String → Dict ℤ → ℤ
degree_of id degrees = elim (lookup id degrees) [ none ↦ pos 0 | some n ↦ n ]

-- in_degree[target] = in_degree.get(target, 0) + 1 for each edge
unfoldable pub count_edges : List RequestRelationshipTable → Dict ℤ → Dict ℤ
unfolding insert lookup next
count_edges [] degrees = degrees
count_edges (e ∷ es) degrees =
    count_edges es
      (insert e.target_request_id (next (degree_of e.target_request_id degrees)) degrees)

-- graph.get(node, []): the targets of the edges from a node, in their order
abbrev pub neighbours : String → List RequestRelationshipTable → List String
neighbours node edges =
    map (λ e. e.target_request_id) (select (λ e. str_eq e.source_request_id node) edges)

-- one neighbour: its degree falls, and it is queued when that reaches zero
abbrev pub queued_if : Bool → String → List String → List String
queued_if true id queue = queue ++ id ∷ []
queued_if false id queue = queue

-- for neighbour in graph.get(node, []): `none` is the KeyError
unfoldable pub relax : List String → Dict ℤ → List String → Option (Dict ℤ × List String)
unfolding lookup insert pred
relax [] degrees queue = some (degrees, queue)
relax (n ∷ ns) degrees queue = elim (lookup n degrees) [
  | none ↦ none
  | some k ↦ relax ns (insert n (pred k) degrees) (queued_if (is_zero (pred k)) n queue)
]

-- while queue, with fuel
unfoldable pub order_loop :
    List RequestRelationshipTable → ℕ → Dict ℤ → List String → List String → Order
order_loop edges fuel degrees [] ordered = Order.order_of ordered
order_loop edges zero degrees (node ∷ queue) ordered = Order.out_of_fuel
order_loop edges (suc fuel) degrees (node ∷ queue) ordered =
    elim (relax (neighbours node edges) degrees queue) [
      | none ↦ Order.key_error
      | some (degrees', queue') ↦ order_loop edges fuel degrees' queue' (ordered ++ node ∷ [])
    ]

-- if len(ordered) != len(request_ids)
abbrev pub checked : List String → Order → Order
checked request_ids (Order.order_of ordered) =
    if length ordered == length request_ids then Order.order_of ordered else Order.cycle_detected
checked request_ids Order.cycle_detected = Order.cycle_detected
checked request_ids Order.key_error = Order.key_error
checked request_ids Order.out_of_fuel = Order.out_of_fuel

-- A round takes a request off the queue; a request joins it at the start, or when its degree falls
-- from one to zero, which happens once for a key: that many rounds are enough.
unfoldable pub get_dependency_order : List String → Db → Order
unfolding zero_degrees count_edges order_loop
get_dependency_order request_ids d =
    let edges = select (is_internal request_ids) d.journal.relationships in
    let degrees = count_edges edges (zero_degrees request_ids []) in
    checked request_ids (
      order_loop edges (length request_ids + length degrees) degrees
        (select (λ id. is_zero (degree_of id degrees)) request_ids) [])
