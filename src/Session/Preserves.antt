-- ===== src/Session/Preserves.antt =====
-- What actions preserve, whether they return or raise: a rule for each way to build an action.
use rgp.Prelude.{Bool, true, false, if◌then◌else◌, Option, none, some, String}
use rgp.Db.{Db}
use rgp.Session.{
  Session, Action, Error, Result, ok, err, stop_iteration, missing_event, value_error,
  permission_error, type_error, query_error, delegated, except_value_error, handled, pure, raise,
  read, required, lift, match_row, when, raise_if, and_then, ◌>>=◌,
}

pub record Preserves {A : Type 0} (P : Session → Type 0) (m : Action A) : Type 0 where
  pub after : (s : Session) → P s → P (m s).1

module _ {A : Type 0} {P : Session → Type 0} where
  pub Preserves-pure : (a : A) → Preserves P (pure a)
  unfolding pure
  Preserves-pure a = record { after = λ s h. h }

  pub Preserves-raise : (e : Error) → Preserves P (raise {A = A} e)
  unfolding raise
  Preserves-raise e = record { after = λ s h. h }

  pub Preserves-read : (f : Db → A) → Preserves P (read f)
  unfolding read
  Preserves-read f = record { after = λ s h. h }

  pub Preserves-required : (e : Error) (o : Option A) → Preserves P (required e o)
  unfolding required
  Preserves-required e none = record { after = λ s h. h }
  Preserves-required e (some a) = record { after = λ s h. h }

  pub Preserves-lift : (r : Result A) → Preserves P (lift r)
  unfolding lift
  Preserves-lift r = record { after = λ s h. h }

  pub Preserves-if :
      (b : Bool) (m n : Action A) → Preserves P m → Preserves P n → Preserves P (if b then m else n)
  Preserves-if true m n km kn = km
  Preserves-if false m n km kn = kn

module _ {A B : Type 0} {P : Session → Type 0} where
  pub Preserves-option :
      (o : Option A) (m : Action B) (f : A → Action B)
      → Preserves P m
      → ((a : A) → Preserves P (f a))
      → Preserves P (match_row o m f)
  unfolding match_row
  Preserves-option none m f km kf = record { after = λ s h. km.after s h }
  Preserves-option (some a) m f km kf = record { after = λ s h. (kf a).after s h }

module _ {P : Session → Type 0} where
  pub Preserves-when : (b : Bool) (m : Action Unit) → Preserves P m → Preserves P (when b m)
  unfolding when
  Preserves-when true m k = record { after = λ s h. k.after s h }
  Preserves-when false m k = record { after = λ s h. h }

  pub Preserves-raise_if : (b : Bool) (e : Error) → Preserves P (raise_if b e)
  unfolding raise_if
  Preserves-raise_if true e = record { after = λ s h. h }
  Preserves-raise_if false e = record { after = λ s h. h }

module _ {A B : Type 0} {P : Session → Type 0} where
  Preserves-and_then :
      (r : Result A) (f : A → Action B) → ((a : A) → Preserves P (f a)) → Preserves P (and_then r f)
  Preserves-and_then (ok a) f k = record { after = (k a).after }
  Preserves-and_then (err e) f k = record { after = λ s h. h }

  pub Preserves-bind :
      (m : Action A) (f : A → Action B)
      → Preserves P m
      → ((a : A) → Preserves P (f a))
      → Preserves P (m >>= f)
  unfolding ◌>>=◌
  Preserves-bind m f km kf = record {
    after = λ s h. (Preserves-and_then (m s).0 f kf).after (m s).1 (km.after s h);
  }

Preserves-handled :
    {P : Session → Type 0} (r : Result {0} Unit) (h : String → Action Unit) (s : Session)
    → ((t : String) → Preserves P (h t))
    → P s
    → P (handled r h s).1
Preserves-handled (ok a) h s k p = p
Preserves-handled (err (value_error t)) h s k p = (k t).after s p
Preserves-handled (err (stop_iteration x)) h s k p = p
Preserves-handled (err (missing_event x)) h s k p = p
Preserves-handled (err (permission_error x y)) h s k p = p
Preserves-handled (err (type_error x)) h s k p = p
Preserves-handled (err (query_error x)) h s k p = p
Preserves-handled (err (delegated x)) h s k p = p

pub Preserves-except :
    {P : Session → Type 0} (m : Action Unit) (h : String → Action Unit)
    → Preserves P m
    → ((t : String) → Preserves P (h t))
    → Preserves P (except_value_error m h)
unfolding except_value_error
Preserves-except m h km kh = record {
  after = λ s p. Preserves-handled (m s).0 h (m s).1 kh (km.after s p);
}

pub ruleset preserves_rules = (
  Preserves-pure, Preserves-raise, Preserves-read, Preserves-required, Preserves-lift, Preserves-if,
  Preserves-when, Preserves-raise_if, Preserves-option, Preserves-except, Preserves-bind,
)
