-- ===== src/Graph/Order/Totality.antt =====
-- The topological sort ends without a KeyError.
use rgp.Prelude.{
  ℕ, zero, suc, ◌+◌, ◌≤◌, String, ◌≡◌, refl, sym, ◌⊎◌, inl, inr, Bool, true, false, ◌||◌, some,
  List, [], ◌∷◌, ◌++◌, length, length-append, select, contains, str_eq, ◌==◌, All, All-append,
  arith, Bool-cases, eq_iff, eq_refl, Dict, lookup, insert,
}
use rgp.Prelude.Integers.{ℤ, pos, negsuc, pred, next, is_zero}
use rgp.Db.{Db, RequestRelationshipTable}
use rgp.Graph.Order.{
  Order, is_internal, zero_degrees, degree_of, count_edges, neighbours, queued_if, relax,
  order_loop, get_dependency_order,
}

unfoldable has_key : String → Dict ℤ → Bool
has_key id [] = false
has_key id ((j, k) ∷ degrees) = str_eq j id || has_key id degrees

-- one for a request that is still to be queued
abbrev weight : ℤ → ℕ
weight (pos (suc n)) = 1
weight _ = 0

unfoldable total : Dict ℤ → ℕ
total [] = 0
total ((id, k) ∷ degrees) = weight k + total degrees

abbrev bit : Bool → ℕ
bit true = 1
bit false = 0

weight-pred : (k : ℤ) → weight (pred k) + bit (is_zero (pred k)) ≡ weight k
unfolding pred
weight-pred (pos zero) = refl
weight-pred (pos (suc zero)) = refl
weight-pred (pos (suc (suc n))) = refl
weight-pred (negsuc n) = refl

weight-bound : (k : ℤ) → weight k ≤ 1
weight-bound (pos zero) = omega arith
weight-bound (pos (suc n)) = omega arith
weight-bound (negsuc n) = omega arith

total-length : (degrees : Dict ℤ) → total degrees ≤ length degrees
unfolding total
total-length [] = omega arith
total-length ((id, k) ∷ degrees) = omega (arith, weight-bound k, total-length degrees)

length-queued_if :
    (b : Bool) (id : String) (queue : List String)
    → length (queued_if b id queue) ≡ length queue + bit b
length-queued_if true id queue = omega (arith, length-append queue (id ∷ []))
length-queued_if false id queue = omega arith

select-length : (p : String → Bool) (ids : List String) → length (select p ids) ≤ length ids
select-length p [] = omega arith
select-length p (id ∷ ids) = ground (arith, select-length p ids)

lookup-has_key :
    (id : String) (degrees : Dict ℤ)
    → has_key id degrees ≡ true
    → (k : ℤ) × (lookup id degrees ≡ some k)
unfolding has_key lookup
lookup-has_key id [] h = ground (arith, h)
lookup-has_key id ((j, k) ∷ degrees) h = elim (Bool-cases (str_eq j id)) [
  | inl e ↦ (k, rw e refl)
  | inr e ↦ let (k', at) = lookup-has_key id degrees (ground (arith, e, h)) in (k', rw e at)
]

has_key-insert :
    (a b : String) (v : ℤ) (degrees : Dict ℤ)
    → has_key a (insert b v degrees) ≡ str_eq b a || has_key a degrees
unfolding insert has_key
has_key-insert a b v [] = refl
has_key-insert a b v ((j, w) ∷ degrees) = elim (Bool-cases (str_eq j b)) [
  | inl e ↦ rw (e, sym ((eq_iff j b).0 e)) (ground arith)
  | inr e ↦ rw e (ground (arith, has_key-insert a b v degrees))
]

total-insert :
    (id : String) (k v : ℤ) (degrees : Dict ℤ)
    → lookup id degrees ≡ some k
    → total (insert id v degrees) + weight k ≡ total degrees + weight v
unfolding insert lookup total
total-insert id k v [] h = ground (arith, h)
total-insert id k v ((j, w) ∷ degrees) h = elim (Bool-cases (str_eq j id)) [
  | inl e ↦ grind (arith, e, h)
  | inr e ↦ grind (arith, e, h, total-insert id k v degrees)
]

zero_degrees-has_key :
    (a : String) (ids : List String) (degrees : Dict ℤ)
    → contains a ids || has_key a degrees ≡ true
    → has_key a (zero_degrees ids degrees) ≡ true
unfolding zero_degrees
zero_degrees-has_key a [] degrees h = ground (arith, h)
zero_degrees-has_key a (id ∷ ids) degrees h =
    zero_degrees-has_key a ids (insert id (pos 0) degrees) (elim (Bool-cases (str_eq a id)) [
      | inl e ↦
          let same : str_eq id a ≡ true = rw ((eq_iff a id).0 e) (eq_refl id) in
          ground (arith, same, has_key-insert a id (pos 0) degrees)
      | inr e ↦ ground (arith, e, h, has_key-insert a id (pos 0) degrees)
    ])

count_edges-has_key :
    (a : String) (edges : List RequestRelationshipTable) (degrees : Dict ℤ)
    → has_key a degrees ≡ true
    → has_key a (count_edges edges degrees) ≡ true
unfolding count_edges
count_edges-has_key a [] degrees h = h
count_edges-has_key a (e ∷ es) degrees h = count_edges-has_key a es _ (
    ground (
      arith,
      h,
      has_key-insert a e.target_request_id (next (degree_of e.target_request_id degrees)) degrees,
    ))

module _ (ids : List String) where
  abbrev IsListed : String → Type 0
  IsListed id = contains id ids ≡ true

  abbrev HasKeys : Dict ℤ → Type 0
  HasKeys degrees = (a : String) → IsListed a → has_key a degrees ≡ true

  neighbours-IsListed :
      (node : String) (edges : List RequestRelationshipTable)
      → All IsListed (neighbours node (select (is_internal ids) edges))
  neighbours-IsListed node [] = tt
  neighbours-IsListed node (e ∷ es) = elim (Bool-cases (is_internal ids e)) [
    | inr h ↦ rw h (neighbours-IsListed node es)
    | inl h ↦ rw h (elim (Bool-cases (str_eq e.source_request_id node)) [
      | inr n ↦ rw n (neighbours-IsListed node es)
      | inl n ↦ rw n (ground (arith, h), neighbours-IsListed node es)
    ])
  ]

  queued_if-IsListed :
      (b : Bool) (id : String) (queue : List String)
      → IsListed id
      → All IsListed queue
      → All IsListed (queued_if b id queue)
  queued_if-IsListed true id queue h all = All-append IsListed queue (id ∷ []) all (h, tt)
  queued_if-IsListed false id queue h all = all

  -- the neighbours have degrees, and the rounds that remain are as many after them
  relax-Returns :
      (ns : List String) (degrees : Dict ℤ) (queue : List String)
      → All IsListed ns
      → HasKeys degrees
      → All IsListed queue
      → (degrees' : Dict ℤ) × (queue' : List String) × (relax ns degrees queue
          ≡ some (degrees', queue'))
        × HasKeys degrees'
        × All IsListed queue'
        × (length queue' + total degrees' ≡ length queue + total degrees)
  unfolding relax
  relax-Returns [] degrees queue listed keys all = (degrees, queue, refl, keys, all, refl)
  relax-Returns (n ∷ ns) degrees queue (h, listed) keys all =
      let (k, at) = lookup-has_key n degrees (keys n h) in
      let queue1 = queued_if (is_zero (pred k)) n queue in
      let (degrees', queue', run, keys', all', same) =
        relax-Returns ns (insert n (pred k) degrees) queue1 listed
          (λ a m. ground (arith, has_key-insert a n (pred k) degrees, keys a m))
          (queued_if-IsListed (is_zero (pred k)) n queue h all) in
      (
        degrees',
        queue',
        rw (at, relax) run,
        keys',
        all',
        omega (
          arith,
          same,
          total-insert n k (pred k) degrees at,
          weight-pred k,
          length-queued_if (is_zero (pred k)) n queue,
        ),
      )

  order_loop-Returns :
      (edges : List RequestRelationshipTable) (fuel : ℕ) (degrees : Dict ℤ)
      (queue ordered : List String)
      → HasKeys degrees
      → All IsListed queue
      → All IsListed ordered
      → length queue + total degrees ≤ fuel
      → (order : List String) × (order_loop
            (select (is_internal ids) edges)
            fuel
            degrees
            queue
            ordered
          ≡ Order.order_of order)
        × All IsListed order
  unfolding order_loop
  order_loop-Returns edges fuel degrees [] ordered keys all before below = (ordered, refl, before)
  order_loop-Returns edges zero degrees (node ∷ queue) ordered keys all before below =
      absurd (omega (arith, below))
  order_loop-Returns edges (suc fuel) degrees (node ∷ queue) ordered keys (h, all) before below =
      let (degrees', queue', run, keys', all', same) =
        relax-Returns (neighbours node (select (is_internal ids) edges)) degrees queue
          (neighbours-IsListed node edges) keys all in
      rw (run, order_loop)
        (order_loop-Returns edges fuel degrees' queue' (ordered ++ node ∷ []) keys' all'
          (All-append IsListed ordered (node ∷ []) before (h, tt)) (omega (arith, below, same)))

-- the requests with degree zero are among those of the list
select-IsListed :
    (p : String → Bool) (ids rest : List String)
    → ((a : String) → contains a rest ≡ true → contains a ids ≡ true)
    → All (IsListed ids) (select p rest)
select-IsListed p ids [] h = tt
select-IsListed p ids (id ∷ rest) h =
    let later = select-IsListed p ids rest (λ a m. h a (ground (arith, m))) in
    elim (Bool-cases (p id)) [
      | inl e ↦ rw e (h id (ground (arith, eq_refl id)), later)
      | inr e ↦ rw e later
    ]

-- The sort ends within its fuel and never asks for a degree that is not there. It raises the error of
-- a cycle, or returns as many requests as it was given, each one of those that it was given.
pub get_dependency_order-Returns :
    (request_ids : List String) (d : Db)
    → ((order : List String) × (get_dependency_order request_ids d ≡ Order.order_of order)
        × (length order ≡ length request_ids)
        × All (λ id. contains id request_ids ≡ true) order)
      ⊎ (get_dependency_order request_ids d ≡ Order.cycle_detected)
unfolding get_dependency_order
get_dependency_order-Returns request_ids d =
    let edges = select (is_internal request_ids) d.journal.relationships in
    let degrees = count_edges edges (zero_degrees request_ids []) in
    let queue = select (λ id. is_zero (degree_of id degrees)) request_ids in
    let (order, run, listed) =
      order_loop-Returns request_ids d.journal.relationships (length request_ids + length degrees)
        degrees queue []
        (λ a m.
          count_edges-has_key a edges (zero_degrees request_ids [])
            (zero_degrees-has_key a request_ids [] (ground (arith, m))))
        (select-IsListed (λ id. is_zero (degree_of id degrees)) request_ids request_ids (λ a m. m))
        tt
        (omega (
          arith,
          total-length degrees,
          select-length (λ id. is_zero (degree_of id degrees)) request_ids,
        )) in
    rw run (elim (Bool-cases (length order == length request_ids)) [
      | inl e ↦ inl (order, rw e refl, ground (arith, e), listed)
      | inr e ↦ inr (rw e refl)
    ])
