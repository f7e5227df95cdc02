-- ===== src/Session/Outcomes.antt =====
-- Operations that return and commit, or raise and leave the database as it was.
use rgp.Prelude.{String, ◌≡◌, refl, []}
use rgp.Db.{Db}
use rgp.Session.{Session, Host, Action, Result, ok, err, with_session, draw, pure, ◌>>=◌}
use rgp.Session.Contracts.{Holds, Ensures, At}
use rgp.Lifecycle.{next_id}

-- The committed database is unchanged.
abbrev pub Unchanged : Db → Session → Type 0
Unchanged d s = s.committed ≡ d

pub At-Unchanged : (d : Db) (s : Session) → At d s → Unchanged d s
At-Unchanged d s h = h.saved

module _ {B : Type 0} {d : Db} {Q : B → Session → Type 0} {E : Session → Type 0} where
  pub Ensures-next_id :
      (host : Host) (prefix : String) (f : String → Action B)
      → ((id : String) → Ensures (At d) (f id) Q E)
      → Ensures (At d) (next_id host prefix >>= f) Q E
  unfolding ◌>>=◌ next_id draw pure
  Ensures-next_id host prefix f k = record {
    holds = λ s h. (k _).holds _ (record { current = h.current; saved = h.saved });
  }

-- Q of what the operation returns and commits; if it raises, the database is unchanged.
abbrev pub Outcome : {A : Type 0} → (A → Db → Type 0) → Db → Result A × Db → Type 0
Outcome Q d (ok a, d') = Q a d'
Outcome Q d (err e, d') = d' ≡ d

Outcome-Holds :
    {A : Type 0} (Q : A → Db → Type 0) (d : Db) (r : Result A) (s : Session)
    → Holds (λ a s. Q a s.committed) (Unchanged d) (r, s)
    → Outcome Q d (r, s.committed)
Outcome-Holds Q d (ok a) s h = h
Outcome-Holds Q d (err e) s h = h

pub Outcome-with_session :
    {A : Type 0} (Q : A → Db → Type 0) (d : Db) (m : Action A)
    → Ensures (At d) m (λ a s. Q a s.committed) (Unchanged d)
    → Outcome Q d (with_session m d)
unfolding with_session
Outcome-with_session Q d m k =
    let s : Session = record { db = d; committed = d; draws = 0; threads = []; objects = [] } in
    Outcome-Holds Q d (m s).0 (m s).1 (k.holds s (record { current = refl; saved = refl }))

pub OutcomeOr :
    {A : Type 0} (Q : A → Db → Type 0) (P : Db → Type 0) (d : Db) (r : Result A × Db)
    → Outcome Q d r
    → P d
    → ((a : A) (d' : Db) → Q a d' → P d')
    → P r.1
OutcomeOr Q P d (ok a, d') h p k = k a d' h
OutcomeOr Q P d (err e, d') h p k = rw h p
