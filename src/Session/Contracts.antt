-- ===== src/Session/Contracts.antt =====
-- Contracts of actions: what holds when an action returns, and when it raises.
use rgp.Prelude.{String, ◌≡◌, refl, ap, Bool, true, false, Option, none, some, if◌then◌else◌}
use rgp.Db.{Db}
use rgp.Session.{
  Session, Action, Error, Result, ok, err, value_error, pure, read, lift, required, raise_if, when,
  and_then, except_value_error, ◌>>=◌,
}
use rgp.Session.Preserves.{Preserves}

abbrev pub Holds :
    {A : Type 0} → (A → Session → Type 0) → (Session → Type 0) → Result A × Session → Type 0
Holds Q E (ok a, s) = Q a s
Holds Q E (err e, s) = E s

pub record Ensures {A : Type 0} (P : Session → Type 0) (m : Action A) (Q : A → Session → Type 0)
    (E : Session → Type 0) : Type 0 where
  pub holds : (s : Session) → P s → Holds Q E (m s)

Holds-preserved :
    {A : Type 0} (P E : Session → Type 0) (r : Result A) (s : Session)
    → P s
    → (P s → E s)
    → Holds (λ _. P) E (r, s)
Holds-preserved P E (ok a) s h k = h
Holds-preserved P E (err e) s h k = k h

module _ {A : Type 0} {P E : Session → Type 0} where
  -- an action that preserves P returns where P holds
  pub Ensures-Preserves :
      (m : Action A) → Preserves P m → ((s : Session) → P s → E s) → Ensures P m (λ _. P) E
  Ensures-Preserves m k weaken = record {
    holds = λ s h. Holds-preserved P E (m s).0 (m s).1 (k.after s h) (weaken (m s).1);
  }

Holds-and_then :
    {A B : Type 0} {E : Session → Type 0} {Q : A → Session → Type 0} {R : B → Session → Type 0}
    (r : Result A) (s : Session) (f : A → Action B)
    → Holds Q E (r, s)
    → ((a : A) → Ensures (Q a) (f a) R E)
    → Holds R E (and_then r f s)
Holds-and_then (ok a) s f h k = (k a).holds s h
Holds-and_then (err e) s f h k = h

module _ {A B : Type 0} {P E : Session → Type 0} {Q : A → Session → Type 0}
    {R : B → Session → Type 0} where
  pub Ensures-bind :
      (m : Action A) (f : A → Action B)
      → Ensures P m Q E
      → ((a : A) → Ensures (Q a) (f a) R E)
      → Ensures P (m >>= f) R E
  unfolding ◌>>=◌
  Ensures-bind m f km kf = record {
    holds = λ s h. Holds-and_then (m s).0 (m s).1 f (km.holds s h) kf;
  }

module _ {A B : Type 0} {P E : Session → Type 0} {R : B → Session → Type 0} where
  pub Ensures-required :
      (e : Error) (o : Option A) (f : A → Action B)
      → ((s : Session) → P s → E s)
      → ((a : A) → o ≡ some a → Ensures P (f a) R E)
      → Ensures P (required e o >>= f) R E
  unfolding ◌>>=◌ required
  Ensures-required e none f weaken k = record { holds = λ s h. weaken s h }
  Ensures-required e (some a) f weaken k = record { holds = λ s h. (k a refl).holds s h }

  pub Ensures-lift :
      (r : Result A) (f : A → Action B)
      → ((s : Session) → P s → E s)
      → ((a : A) → r ≡ ok a → Ensures P (f a) R E)
      → Ensures P (lift r >>= f) R E
  unfolding ◌>>=◌ lift
  Ensures-lift (ok a) f weaken k = record { holds = λ s h. (k a refl).holds s h }
  Ensures-lift (err e) f weaken k = record { holds = λ s h. weaken s h }

module _ {B : Type 0} {P E : Session → Type 0} {R : B → Session → Type 0} where
  pub Ensures-raise_if :
      (b : Bool) (e : Error) (n : Action B)
      → ((s : Session) → P s → E s)
      → (b ≡ false → Ensures P n R E)
      → Ensures P (raise_if b e >>= (λ _. n)) R E
  unfolding ◌>>=◌ raise_if
  Ensures-raise_if true e n weaken k = record { holds = λ s h. weaken s h }
  Ensures-raise_if false e n weaken k = record { holds = λ s h. (k refl).holds s h }

-- The session has read d and changed nothing.
pub record At (d : Db) (s : Session) : Type 0 where
  pub current : s.db ≡ d
  pub saved : s.committed ≡ d

Ensures-at :
    {A B : Type 0} {P E : Session → Type 0} {R : B → Session → Type 0} (f : A → Action B) (x y : A)
    → x ≡ y
    → Ensures P (f y) R E
    → Ensures P (f x) R E
Ensures-at f x y p k = rw p k

module _ {A B : Type 0} {d : Db} {E : Session → Type 0} {R : B → Session → Type 0} where
  pub Ensures-read :
      (g : Db → A) (f : A → Action B)
      → Ensures (At d) (f (g d)) R E
      → Ensures (At d) (read g >>= f) R E
  unfolding ◌>>=◌ read
  Ensures-read g f k = record {
    holds = λ s h. (Ensures-at f (g s.db) (g d) (ap g h.current) k).holds s h;
  }

and_then_assoc :
    {A B C : Type 0} (r : Result A) (s : Session) (g : A → Action B) (f : B → Action C)
    → (let (q, s') = and_then r g s in and_then q f s') ≡ and_then r (λ a. g a >>= f) s
unfolding ◌>>=◌
and_then_assoc (ok a) s g f = refl
and_then_assoc (err e) s g f = refl

module _ {A B C : Type 0} {P E : Session → Type 0} {R : C → Session → Type 0} where
  pub Ensures-assoc :
      (m : Action A) (g : A → Action B) (f : B → Action C)
      → Ensures P (m >>= (λ a. g a >>= f)) R E
      → Ensures P ((m >>= g) >>= f) R E
  unfolding ◌>>=◌
  Ensures-assoc m g f k = record {
    holds = λ s h. rw (and_then_assoc (m s).0 (m s).1 g f) (k.holds s h);
  }

module _ {B C : Type 0} {P E : Session → Type 0} {R : C → Session → Type 0} where
  pub Ensures-pure : (b : B) (f : B → Action C) → Ensures P (f b) R E → Ensures P (pure b >>= f) R E
  unfolding ◌>>=◌ pure
  Ensures-pure b f k = record { holds = k.holds }

module _ {A : Type 0} {d : Db} {E : Session → Type 0} {R : Unit {0} → Session → Type 0} where
  pub Ensures-except-read :
      (g : Db → A) (f : A → Action Unit) (h : String → Action Unit) (n : Unit {0} → Action Unit)
      → Ensures (At d) (except_value_error (f (g d)) h >>= n) R E
      → Ensures (At d) (except_value_error (read g >>= f) h >>= n) R E
  unfolding ◌>>=◌ read except_value_error
  Ensures-except-read g f h n k = record {
    holds = λ s a.
        (Ensures-at (λ x. except_value_error (f x) h >>= n) (g s.db) (g d) (ap g a.current) k).holds
          s a;
  }

module _ {P E : Session → Type 0} {R : Unit {0} → Session → Type 0} where
  pub Ensures-except-raise_if :
      (b : Bool) (text : String) (h : String → Action Unit) (n : Unit {0} → Action Unit)
      → (b ≡ false → Ensures P (n tt) R E)
      → Ensures P (h text >>= n) R E
      → Ensures P (except_value_error (raise_if b (value_error text)) h >>= n) R E
  unfolding ◌>>=◌ raise_if except_value_error
  Ensures-except-raise_if true text h n k l = record { holds = λ s p. l.holds s p }
  Ensures-except-raise_if false text h n k l = record { holds = λ s p. (k refl).holds s p }

  pub Ensures-when :
      (b : Bool) (m : Action Unit) (n : Unit {0} → Action Unit)
      → (b ≡ false → Ensures P (n tt) R E)
      → (b ≡ true → Ensures P (m >>= n) R E)
      → Ensures P (when b m >>= n) R E
  unfolding ◌>>=◌ when
  Ensures-when true m n k l = record { holds = λ s p. (l refl).holds s p }
  Ensures-when false m n k l = record { holds = λ s p. (k refl).holds s p }

pub Ensures-weaken :
    {A : Type 0} {P P' E : Session → Type 0} {R : A → Session → Type 0} (m : Action A)
    → ((s : Session) → P s → P' s)
    → Ensures P' m R E
    → Ensures P m R E
Ensures-weaken m f k = record { holds = λ s p. k.holds s (f s p) }

module _ {A B : Type 0} {P E : Session → Type 0} {R : B → Session → Type 0} where
  pub Ensures-some :
      (e : Error) (a : A) (f : A → Action B)
      → Ensures P (f a) R E
      → Ensures P (required e (some a) >>= f) R E
  unfolding ◌>>=◌ required
  Ensures-some e a f k = record { holds = k.holds }

module _ {B : Type 0} {P E : Session → Type 0} {R : B → Session → Type 0} where
  pub Ensures-passed :
      (b : Bool) (e : Error) (n : Unit {0} → Action B)
      → b ≡ false
      → Ensures P (n tt) R E
      → Ensures P (raise_if b e >>= n) R E
  unfolding ◌>>=◌ raise_if
  Ensures-passed true e n p k = cc p
  Ensures-passed false e n p k = record { holds = k.holds }

module _ {A B : Type 0} {P E : Session → Type 0} {R : B → Session → Type 0} where
  -- a read of what P determines, and of anything
  pub Ensures-read_known :
      (g : Db → A) (x : A) (f : A → Action B)
      → ((s : Session) → P s → g s.db ≡ x)
      → Ensures P (f x) R E
      → Ensures P (read g >>= f) R E
  unfolding ◌>>=◌ read
  Ensures-read_known g x f known k = record {
    holds = λ s h. (Ensures-at f (g s.db) x (known s h) k).holds s h;
  }

  pub Ensures-read_any :
      (g : Db → A) (f : A → Action B)
      → ((x : A) → Ensures P (f x) R E)
      → Ensures P (read g >>= f) R E
  unfolding ◌>>=◌ read
  Ensures-read_any g f k = record { holds = λ s h. (k (g s.db)).holds s h }

module _ {A : Type 0} {P E : Session → Type 0} {R : A → Session → Type 0} where
  pub Ensures-if :
      (b : Bool) (m n : Action A)
      → (b ≡ true → Ensures P m R E)
      → (b ≡ false → Ensures P n R E)
      → Ensures P (if b then m else n) R E
  Ensures-if true m n k l = k refl
  Ensures-if false m n k l = l refl
