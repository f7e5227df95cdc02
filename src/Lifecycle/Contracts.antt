-- ===== src/Lifecycle/Contracts.antt =====
-- The contracts of the operations on requests: of the rows' cores, the committed database keeps all
-- or changes one.
pub mod Moves
pub mod Transition
pub mod Additions
pub mod Copies
pub mod Events
pub mod Acceptance
pub mod Final
pub mod Progress
pub mod Submission
pub mod Decisions
use rgp.Prelude.{
  ℕ, ◌+◌, String, ◌≡◌, refl, ap, ◌∙◌, Bool, true, false, not, Option, none, some, List, [], ◌∷◌,
  ◌++◌, map, first, update, str_eq, if◌then◌else◌, Bool-cases, inl, inr,
}
use rgp.Request.{RequestStatus, is_in, draft, canceled, archived}
use rgp.StateMachine.{is_valid_transition, amendable_statuses, cancelable_statuses}
use rgp.Db.{Db, EventLog, Journal, Tables, RequestTable}
use rgp.Session.{
  Host, Session, Action, Error, Result, ok, err, read, required, raise_if, write_requests,
  write_journal, write_tables, write_events, draw, start_thread, put_text, commit, with_session,
  ◌>>=◌, ◌>>◌,
}
use rgp.Session.Preserves.{Preserves, preserves_rules}
use rgp.Session.Contracts.{
  Holds, Ensures, Ensures-Preserves, Ensures-bind, Ensures-required, Ensures-raise_if, At,
  Ensures-read, Ensures-assoc, Ensures-pure,
}
use rgp.Events.{NewEvent, append, enqueue}
use rgp.Lifecycle.{modify_request}
use rgp.Lifecycle.Preserved.{Core, core, cores, SideEffectLaws}
use rgp.Lifecycle.Operations.{
  find_request, missing, denied, denial, load_request, ensure_request_tenant_access,
}

module _ (id : String) (f : RequestTable → RequestTable) (g : Core → Core) where
  pub core-update :
      (rows : List RequestTable)
      → ((r : RequestTable) → core (f r) ≡ g (core r))
      → map core (update (λ r. str_eq r.id id) f rows)
        ≡ update (λ (c : Core). str_eq c.id id) g (map core rows)
  core-update [] h = refl
  core-update (r ∷ rows) h = elim (Bool-cases (str_eq r.id id)) [
    | inl p ↦ rw p (cc (h r, core-update rows h))
    | inr p ↦ rw p (cc (core-update rows h))
  ]

update-same :
    (id : String) (f : RequestTable → RequestTable) (rows : List RequestTable)
    → ((r : RequestTable) → core (f r) ≡ core r)
    → map core (update (λ r. str_eq r.id id) f rows) ≡ map core rows
update-same id f [] h = refl
update-same id f (r ∷ rows) h = elim (Bool-cases (str_eq r.id id)) [
  | inl p ↦ rw p (cc (h r, update-same id f rows h))
  | inr p ↦ rw p (cc (update-same id f rows h))
]

-- The open transaction holds these cores, and nothing of it is committed.
pub record HasCores (cs : List Core) (d : Db) (s : Session) : Type 0 where
  pub open_cores : cores s.db ≡ cs
  pub saved : s.committed ≡ d

module _ (host : Host) (cs : List Core) (d : Db) where
  HasCores-events : (f : EventLog → EventLog) → Preserves (HasCores cs d) (write_events f)
  unfolding write_events
  HasCores-events f = record {
    after = λ s k. record { open_cores = k.open_cores; saved = k.saved };
  }

  HasCores-append : (e : NewEvent) → Preserves (HasCores cs d) (append host e)
  unfolding append enqueue
  HasCores-append e = search (preserves_rules, HasCores-events) depth 24

  -- what the side effects do keeps the cores, and commits nothing
  pub HasCores-laws : SideEffectLaws host (HasCores cs d)
  unfolding write_requests write_journal write_tables start_thread put_text draw
  HasCores-laws = record {
    on_requests = λ id f h. record {
      after = λ s k. record {
        open_cores = update-same id f s.db.requests h ∙ k.open_cores;
        saved = k.saved;
      };
    };
    on_journal =
        λ f. record { after = λ s k. record { open_cores = k.open_cores; saved = k.saved } };
    on_tables =
        λ f. record { after = λ s k. record { open_cores = k.open_cores; saved = k.saved } };
    on_thread =
        λ name. record { after = λ s k. record { open_cores = k.open_cores; saved = k.saved } };
    on_put_text =
        λ x t. record { after = λ s k. record { open_cores = k.open_cores; saved = k.saved } };
    on_draw = record { after = λ s k. record { open_cores = k.open_cores; saved = k.saved } };
    on_append = λ e. HasCores-append e;
  }

-- The committed database has these cores.
pub record Committed (cs : List Core) (s : Session) : Type 0 where
  pub same : cores s.committed ≡ cs

abbrev pub OnCommitted : {A : Type 0} → (A → Db → Type 0) → A → Session → Type 0
OnCommitted Q a s = Q a s.committed

-- If the operation returns, Q holds of what it returns and the database; if it raises, the cores are
-- the same.
abbrev pub Outcome : {A : Type 0} → (A → Db → Type 0) → Db → Result A × Db → Type 0
Outcome Q d (ok a, d') = Q a d'
Outcome Q d (err e, d') = cores d' ≡ cores d

-- The row of the request stood in the database, the tenant could access it and the guard held of it;
-- its core, and no other, is changed.
abbrev pub Changed :
    String → Option String → (RequestTable → Type 0) → (Core → Core) → Db → Unit {0} → Db → Type 0
Changed id tenant Guard g d _ d' =
    (row : RequestTable) × (find_request id d ≡ some row)
    × (denied tenant row ≡ false)
    × Guard row
    × (cores d' ≡ update (λ (c : Core). str_eq c.id id) g (cores d))

-- The status is changed and the version counts the change.
abbrev pub move_core : RequestStatus → Core → Core
move_core target c = record c { status = target; version = c.version + 1 }

Outcome-Holds :
    {A : Type 0} (Q : A → Db → Type 0) (d : Db) (r : Result A) (s : Session)
    → Holds (OnCommitted Q) (Committed (cores d)) (r, s)
    → Outcome Q d (r, s.committed)
Outcome-Holds Q d (ok a) s h = h
Outcome-Holds Q d (err e) s h = h.same

pub Outcome-with_session :
    {A : Type 0} (Q : A → Db → Type 0) (d : Db) (m : Action A)
    → Ensures (At d) m (OnCommitted Q) (Committed (cores d))
    → Outcome Q d (with_session m d)
unfolding with_session
Outcome-with_session Q d m k =
    let s : Session = record { db = d; committed = d; draws = 0; threads = []; objects = [] } in
    Outcome-Holds Q d (m s).0 (m s).1 (k.holds s (record { current = refl; saved = refl }))

pub At-Committed : (d : Db) (s : Session) → At d s → Committed (cores d) s
At-Committed d s h = record { same = ap cores h.saved }

pub HasCores-Committed :
    (cs : List Core) (d : Db) (s : Session) → HasCores cs d s → Committed (cores d) s
HasCores-Committed cs d s h = record { same = ap cores h.saved }

module _ {B : Type 0} {d : Db} {Q : B → Session → Type 0} where
  -- the row is loaded, and the tenant may access it
  pub Ensures-load :
      (id : String) (tenant : Option String) (f : RequestTable → Action B)
      → ((row : RequestTable)
          → find_request id d ≡ some row
          → denied tenant row ≡ false
          → Ensures (At d) (f row) Q (Committed (cores d)))
      → Ensures (At d) (load_request id tenant >>= f) Q (Committed (cores d))
  unfolding load_request ensure_request_tenant_access
  Ensures-load id tenant f k = Ensures-assoc (read (find_request id)) _ f (
      Ensures-read (find_request id) _ (
        Ensures-assoc (required (missing id tenant) (find_request id d)) _ f (
          Ensures-required _ _ _ (At-Committed d) (λ row p.
            Ensures-assoc (raise_if (denied tenant row) (denial tenant row.id)) _ f
              (Ensures-raise_if _ _ _ (At-Committed d) (λ q. Ensures-pure row f (k row p q)))))))

  pub Ensures-guard :
      (b : Bool) (e : Error) (n : Action B)
      → (b ≡ false → Ensures (At d) n Q (Committed (cores d)))
      → Ensures (At d) (raise_if b e >>= (λ _. n)) Q (Committed (cores d))
  Ensures-guard b e n k = Ensures-raise_if b e n (At-Committed d) k

  pub Ensures-modify :
      (id : String) (f : RequestTable → RequestTable) (g : Core → Core) (n : Action B)
      → ((r : RequestTable) → core (f r) ≡ g (core r))
      → Ensures
          (HasCores (update (λ (c : Core). str_eq c.id id) g (cores d)) d)
          n
          Q
          (Committed (cores d))
      → Ensures (At d) (modify_request id f >>= (λ _. n)) Q (Committed (cores d))
  unfolding write_requests ◌>>=◌
  Ensures-modify id f g n h k = record {
    holds = λ s a. k.holds _ (record {
      open_cores =
          core-update id f g s.db.requests h
          ∙ ap (λ (x : Db). update (λ (c : Core). str_eq c.id id) g (cores x)) a.current;
      saved = a.saved;
    });
  }

  -- the same, after other writes
  pub Ensures-modify_again :
      (cs : List Core) (id : String) (f : RequestTable → RequestTable) (g : Core → Core)
      (n : Action B)
      → ((r : RequestTable) → core (f r) ≡ g (core r))
      → Ensures (HasCores (update (λ (c : Core). str_eq c.id id) g cs) d) n Q (Committed (cores d))
      → Ensures (HasCores cs d) (modify_request id f >>= (λ _. n)) Q (Committed (cores d))
  unfolding write_requests ◌>>=◌
  Ensures-modify_again cs id f g n h k = record {
    holds = λ s a. k.holds _ (record {
      open_cores =
          core-update id f g s.db.requests h
          ∙ ap (λ (x : List Core). update (λ (c : Core). str_eq c.id id) g x) a.open_cores;
      saved = a.saved;
    });
  }

  pub Ensures-step :
      (cs : List Core) (m : Action Unit) (n : Action B)
      → Preserves (HasCores cs d) m
      → Ensures (HasCores cs d) n Q (Committed (cores d))
      → Ensures (HasCores cs d) (m >>= (λ _. n)) Q (Committed (cores d))
  Ensures-step cs m n p k =
      Ensures-bind m (λ _. n) (Ensures-Preserves m p (HasCores-Committed cs d)) (λ _. k)

pub Ensures-commit :
    (cs : List Core) (d : Db) (Q : Unit → Db → Type 0) (E : Session → Type 0)
    → ((d' : Db) → cores d' ≡ cs → Q tt d')
    → Ensures (HasCores cs d) commit (OnCommitted Q) E
unfolding commit
Ensures-commit cs d Q E k = record { holds = λ s h. k s.db h.open_cores }
