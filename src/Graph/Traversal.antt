-- ===== src/Graph/Traversal.antt =====
-- The traversal of relationships ends, and what it reports is there.
use rgp.Prelude.{
  ℕ, zero, suc, ◌+◌, ◌≤◌, String, ◌≡◌, refl, Bool, true, false, not, ◌||◌, some, List, [], ◌∷◌,
  ◌++◌, length, length-append, select, count_if, contains, str_eq, leb, All, All-append, All-weaken,
  arith, Bool-cases, inl, inr, eq_iff, eq_refl,
}
use rgp.Db.{Db, RequestRelationshipTable}
use rgp.Graph.{
  Edge, edge_at, Direction, near, far, Search, visit_edge, visit_edges, visit, search_loop,
  traverse,
}

abbrev Rows : Type 0
Rows = List RequestRelationshipTable

-- The row is one of the table.
pub data IsRow : RequestRelationshipTable → Rows → Type 0 where
  here : {r : RequestRelationshipTable} {rows : Rows} → IsRow r (r ∷ rows)
  there : {r x : RequestRelationshipTable} {rows : Rows} → IsRow r rows → IsRow r (x ∷ rows)

-- the relationships that lead to a request not visited yet
abbrev unseen : Direction → Rows → List String → ℕ
unseen direction rows visited = count_if (λ r. not (contains (far direction r) visited)) rows

-- Each round takes one request off the queue, and adds only such that it marks as visited.
abbrev work : Direction → Rows → Search → ℕ
work direction rows s = unseen direction rows s.visited + length s.queue

contains-append :
    (x y : String) (xs : List String) → contains x (xs ++ y ∷ []) ≡ contains x xs || str_eq x y
contains-append x y [] = ground arith
contains-append x y (z ∷ xs) = ground (arith, contains-append x y xs)

unseen-append :
    (direction : Direction) (rows : Rows) (visited : List String) (id : String)
    → unseen direction rows (visited ++ id ∷ []) ≤ unseen direction rows visited
unseen-append direction [] visited id = omega arith
unseen-append direction (r ∷ rows) visited id =
    ground
      (arith, contains-append (far direction r) id visited, unseen-append direction rows visited id)

-- a relationship to a new request is no longer unseen
unseen-row :
    (direction : Direction) (r : RequestRelationshipTable) (rows : Rows) (visited : List String)
    → IsRow r rows
    → contains (far direction r) visited ≡ false
    → suc (unseen direction rows (visited ++ far direction r ∷ [])) ≤ unseen direction rows visited
unseen-row direction r rows visited (IsRow.here {rows = rest}) h = ground (
  arith,
  contains-append (far direction r) (far direction r) visited,
  eq_refl (far direction r),
  unseen-append direction rest visited (far direction r),
  h,
)
unseen-row direction r rows visited (IsRow.there {x = x} {rows = rest} at) h = ground (
  arith,
  contains-append (far direction x) (far direction r) visited,
  unseen-row direction r rest visited at h,
)

-- A chain of k relationships of the table, in the direction of the traversal
pub data Reaches (direction : Direction) (rows : Rows) (start : String) : ℕ → String → Type 0 where
  at_start : Reaches direction rows start 0 start
  one_more :
      {k : ℕ} (r : RequestRelationshipTable)
      → IsRow r rows
      → Reaches direction rows start k (near direction r)
      → Reaches direction rows start (suc k) (far direction r)

-- The edge is a relationship of the table, at the end of a chain from the start; its depth is the
-- length of the chain with it, and at most the maximum.
pub record IsSound (direction : Direction) (rows : Rows) (start : String) (max_depth : ℕ) (e : Edge)
    : Type 0 where
  pub row : RequestRelationshipTable
  pub listed : IsRow row rows
  pub shown : e ≡ edge_at e.depth row
  pub length_before : ℕ
  pub deep : e.depth ≡ suc length_before
  pub bounded : e.depth ≤ max_depth
  pub chain : Reaches direction rows start length_before (near direction row)

module _ (direction : Direction) (rows : Rows) (start : String) (max_depth : ℕ) where
  abbrev Queued : String × ℕ → Type 0
  Queued (id, depth) = Reaches direction rows start depth id

  -- the invariant of the search
  record Holds (s : Search) : Type 0 where
    queued : All Queued s.queue
    reported : All (IsSound direction rows start max_depth) s.results

  visit_edge-Holds :
      (k : ℕ) (r : RequestRelationshipTable) (s : Search)
      → IsRow r rows
      → Reaches direction rows start k (near direction r)
      → suc k ≤ max_depth
      → Holds s
      → Holds (visit_edge direction (suc k) r s)
        × (work direction rows (visit_edge direction (suc k) r s) ≤ work direction rows s)
  unfolding visit_edge
  visit_edge-Holds k r s at chain below h =
      let sound : IsSound direction rows start max_depth (edge_at (suc k) r) = record {
        row = r;
        listed = at;
        shown = refl;
        length_before = k;
        deep = refl;
        bounded = below;
        chain = chain;
      } in
      let reported = All-append _ s.results (edge_at (suc k) r ∷ []) h.reported (sound, tt) in
      elim (Bool-cases (contains (far direction r) s.visited)) [
        | inl e ↦ rw e (record { queued = h.queued; reported = reported }, omega arith)
        | inr e ↦ rw e (
          record {
            queued =
                All-append Queued s.queue ((far direction r, suc k) ∷ []) h.queued
                  (Reaches.one_more r at chain, tt);
            reported = reported;
          },
          omega (
            arith,
            unseen-row direction r rows s.visited at e,
            length-append s.queue ((far direction r, suc k) ∷ []),
          ),
        )
      ]

  -- the relationships to visit, at the end of a chain of k
  abbrev Found : ℕ → RequestRelationshipTable → Type 0
  Found k r = IsRow r rows × Reaches direction rows start k (near direction r)

  visit_edges-Holds :
      (k : ℕ) (rs : Rows) (s : Search)
      → All (Found k) rs
      → suc k ≤ max_depth
      → Holds s
      → Holds (visit_edges direction (suc k) rs s)
        × (work direction rows (visit_edges direction (suc k) rs s) ≤ work direction rows s)
  unfolding visit_edges
  visit_edges-Holds k [] s found below h = (h, omega arith)
  visit_edges-Holds k (r ∷ rs) s ((at, chain), found) below h =
      let (h', less) = visit_edge-Holds k r s at chain below h in
      let (h'', less') = visit_edges-Holds k rs (visit_edge direction (suc k) r s) found below h' in
      (h'', omega (arith, less, less'))

above : (a b : ℕ) → leb a b ≡ false → suc b ≤ a
above a b h = ground arith

count_if-length :
    (p : RequestRelationshipTable → Bool) (rows : Rows) → count_if p rows ≤ length rows
count_if-length p [] = omega arith
count_if-length p (r ∷ rows) = ground (arith, count_if-length p rows)

select-IsRow :
    (p : RequestRelationshipTable → Bool) (rows : Rows)
    → All (λ r. IsRow r rows × (p r ≡ true)) (select p rows)
select-IsRow p [] = tt
select-IsRow p (r ∷ rows) =
    let later =
      All-weaken (λ x. IsRow x rows × (p x ≡ true)) (λ x. IsRow x (r ∷ rows) × (p x ≡ true))
        (select p rows) (λ x h. (IsRow.there h.0, h.1)) (select-IsRow p rows) in
    elim (Bool-cases (p r)) [ inl e ↦ rw e ((IsRow.here, e), later) | inr e ↦ rw e later ]

module _ (direction : Direction) (rows : Rows) (start : String) (max_depth : ℕ) where
  visit-Holds :
      (id : String) (k : ℕ) (s : Search)
      → Reaches direction rows start k id
      → Holds direction rows start max_depth s
      → Holds direction rows start max_depth (visit direction max_depth rows id k s)
        × (work direction rows (visit direction max_depth rows id k s) ≤ work direction rows s)
  unfolding visit
  visit-Holds id k s chain h = elim (Bool-cases (leb max_depth k)) [
    | inl e ↦ rw e (h, omega arith)
    | inr e ↦
        let found =
          All-weaken _ (Found direction rows start max_depth k)
            (select (λ r. str_eq (near direction r) id) rows)
            (λ r f. (f.0, rw ((eq_iff (near direction r) id).0 f.1) chain))
            (select-IsRow (λ r. str_eq (near direction r) id) rows) in
        rw e (visit_edges-Holds direction rows start max_depth k _ s found (above max_depth k e) h)
  ]

  search_loop-returns :
      (fuel : ℕ) (visited : List String) (queue : List (String × ℕ)) (results : List Edge)
      → Holds direction rows start max_depth
          (record { visited = visited; queue = queue; results = results })
      → unseen direction rows visited + length queue ≤ fuel
      → (edges : List Edge) × (search_loop direction max_depth rows fuel visited queue results
          ≡ some edges)
        × All (IsSound direction rows start max_depth) edges
  unfolding search_loop
  search_loop-returns fuel visited [] results h below = (results, refl, h.reported)
  search_loop-returns zero visited (next ∷ rest) results h below = absurd (omega (arith, below))
  search_loop-returns (suc fuel) visited ((id, k) ∷ rest) results h below =
      let s : Search = record { visited = visited; queue = rest; results = results } in
      let (h', less) =
        visit-Holds id k s h.queued.0 (record { queued = h.queued.1; reported = h.reported }) in
      let s' = visit direction max_depth rows id k s in
      search_loop-returns fuel s'.visited s'.queue s'.results h' (omega (arith, less, below))

-- The traversal ends: it needs at most one round for each relationship and one for the start. Every
-- edge that it reports is a relationship of the table, at the end of a chain of relationships from
-- the start in the direction of the traversal; its depth counts that chain and the edge, and is at
-- most the given maximum.
pub traverse-IsSound :
    (request_id : String) (direction : Direction) (max_depth : ℕ) (d : Db)
    → (edges : List Edge) × (traverse request_id direction max_depth d ≡ some edges)
      × All (IsSound direction d.journal.relationships request_id max_depth) edges
unfolding traverse
traverse-IsSound request_id direction max_depth d =
    let rows = d.journal.relationships in
    search_loop-returns direction rows request_id max_depth (suc (length rows)) (request_id ∷ [])
      ((request_id, 0) ∷ []) [] (record { queued = (Reaches.at_start, tt); reported = tt })
      (omega
        (arith, count_if-length (λ r. not (contains (far direction r) (request_id ∷ []))) rows))
