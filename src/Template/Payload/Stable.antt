-- ===== src/Template/Payload/Stable.antt =====
-- A payload that is accepted stays accepted: as a draft, and when it is validated again.
use rgp.Prelude.{
  String, ◌≡◌, refl, Bool, true, false, not, ◌||◌, Option, none, some, str_eq, if◌then◌else◌, arith,
  eq_iff, eq_refl,
}
use rgp.Json.{
  Value, Elements, Entries, none_value, boolean, number, string, list_of, dict_of, no_elements,
  item, no_entries, entry, get, put, has_key, member,
}
use rgp.Session.{Error, Result, ok, err}
use rgp.Template.{
  Engine, ◌>>=◌, fail_if, coerce_value, check_type, check_enum, check_text, value_of,
}
use rgp.Template.Payload.{
  with_default, default_of, apply_defaults, is_blank, required_error, check_required, rule_target,
  check_target, check_rule, check_rules, coerce_known, coerce_values,
}

-- what a chain that succeeds has computed
pub bind-ok :
    {A B : Type 0} (m : Result A) (f : A → Result B) (b : B)
    → (m >>= f) ≡ ok b
    → (a : A) × (m ≡ ok a) × (f a ≡ ok b)
bind-ok (ok a) f b h = (a, refl, h)
bind-ok (err e) f b h = cc h

pub ok-injective : {A : Type 0} (a b : A) → ok a ≡ ok b → a ≡ b
ok-injective a b h = cc h

coerce_value-same :
    (engine : Engine) (name : String) (schema : Entries) (v w : Value)
    → coerce_value engine name schema v ≡ ok w
    → w ≡ v
unfolding coerce_value
coerce_value-same engine name schema v w h =
    let (a, p, h1) = bind-ok (check_type name schema v) _ w h in
    let (b, q, h2) = bind-ok (check_enum engine name schema v) _ w h1 in
    let (c, r, h3) = bind-ok (check_text engine name schema v) _ w h2 in cc h3

coerce_known-same :
    (engine : Engine) (name : String) (v w : Value) (o : Option Value)
    → coerce_known engine name v o ≡ ok w
    → w ≡ v
unfolding coerce_known
coerce_known-same engine name v w none h = cc h
coerce_known-same engine name v w (some none_value) h = cc h
coerce_known-same engine name v w (some (dict_of es)) h = coerce_value-same engine name es v w h
coerce_known-same engine name v w (some (string t)) h = cc h
coerce_known-same engine name v w (some _) h = cc h

pub coerce_values-same :
    (engine : Engine) (properties d d' : Entries)
    → coerce_values engine properties d ≡ ok d'
    → d' ≡ d
unfolding coerce_values
coerce_values-same engine properties no_entries d' h = cc h
coerce_values-same engine properties (entry name v rest) d' h =
    let (w, p, h1) = bind-ok (coerce_known engine name v (get name properties)) _ d' h in
    let (others, q, h2) = bind-ok (coerce_values engine properties rest) _ d' h1 in
    cc (
      h2,
      coerce_known-same engine name v w (get name properties) p,
      coerce_values-same engine properties rest others q,
    )

has_key-put :
    (k j : String) (v : Value) (d : Entries) → has_key j (put k v d) ≡ (str_eq k j || has_key j d)
unfolding get put
has_key-put k j v no_entries = ground arith
has_key-put k j v (entry i w rest) =
    ground (arith, eq_iff k j, eq_iff i k, eq_iff i j, has_key-put k j v rest)

-- A field whose default is of no use, or an error
pub settled : Engine → String → Value → Entries → Bool
unfolding get member
settled engine name (dict_of es) payload = has_key name payload || not (has_key "default" es)
settled engine name (string t) payload =
    has_key name payload || not (engine.has_substring "default" t)
settled engine name (list_of xs) payload =
    has_key name payload || not (member (string "default") xs)
settled engine name _ payload = has_key name payload

-- No default is of use.
pub Complete : Engine → Entries → Entries → Type 0
unfolding settled
Complete engine no_entries payload = Unit
Complete engine (entry name v rest) payload =
    (settled engine name v payload ≡ true) × Complete engine rest payload

default_of-settled :
    (engine : Engine) (name : String) (v : Value) (payload : Entries)
    → settled engine name v payload ≡ true
    → default_of engine name v payload ≡ ok payload
unfolding default_of with_default settled
default_of-settled engine name (dict_of es) payload h = ground arith
default_of-settled engine name none_value payload h = rw h refl
default_of-settled engine name (boolean b) payload h = rw h refl
default_of-settled engine name (number n) payload h = rw h refl
default_of-settled engine name (string t) payload h = rw h refl
default_of-settled engine name (list_of xs) payload h = rw h refl

pub apply_defaults-Complete :
    (engine : Engine) (properties payload : Entries)
    → Complete engine properties payload
    → apply_defaults engine properties payload ≡ ok payload
unfolding apply_defaults Complete
apply_defaults-Complete engine no_entries payload h = refl
apply_defaults-Complete engine (entry name v rest) payload h =
    rw (default_of-settled engine name v payload h.0)
      (apply_defaults-Complete engine rest payload h.1)

with_default-has_key :
    (name j : String) (es payload : Entries)
    → has_key j payload ≡ true
    → has_key j (with_default name es payload) ≡ true
unfolding with_default
with_default-has_key name j es payload h =
    ground (arith, has_key-put name j (value_of "default" es) payload)

with_default-settles :
    (engine : Engine) (name : String) (es payload : Entries)
    → settled engine name (dict_of es) (with_default name es payload) ≡ true
unfolding with_default settled
with_default-settles engine name es payload =
    ground (arith, eq_refl name, has_key-put name name (value_of "default" es) payload)

if-ok :
    (b : Bool) (e : Error) (payload p' : Entries)
    → (if b then ok payload else err e) ≡ ok p'
    → (b ≡ true) × (payload ≡ p')
if-ok true e payload p' h = (refl, cc h)
if-ok false e payload p' h = cc h

-- a field that is there stays
default_of-has_key :
    (engine : Engine) (name j : String) (v : Value) (payload p' : Entries)
    → default_of engine name v payload ≡ ok p'
    → has_key j payload ≡ true
    → has_key j p' ≡ true
unfolding default_of with_default
default_of-has_key engine name j (dict_of es) payload p' h k =
    let same : with_default name es payload ≡ p' = cc h in
    rw⁻¹ same (with_default-has_key name j es payload k)
default_of-has_key engine name j none_value payload p' h k = rw⁻¹ (if-ok _ _ payload p' h).1 k
default_of-has_key engine name j (boolean b) payload p' h k = rw⁻¹ (if-ok _ _ payload p' h).1 k
default_of-has_key engine name j (number n) payload p' h k = rw⁻¹ (if-ok _ _ payload p' h).1 k
default_of-has_key engine name j (string t) payload p' h k = rw⁻¹ (if-ok _ _ payload p' h).1 k
default_of-has_key engine name j (list_of xs) payload p' h k = rw⁻¹ (if-ok _ _ payload p' h).1 k

default_of-settles :
    (engine : Engine) (name : String) (v : Value) (payload p' : Entries)
    → default_of engine name v payload ≡ ok p'
    → settled engine name v p' ≡ true
unfolding default_of with_default settled
default_of-settles engine name (dict_of es) payload p' h =
    let same : with_default name es payload ≡ p' = cc h in
    rw⁻¹ same (with_default-settles engine name es payload)
default_of-settles engine name none_value payload p' h =
    let (there, same) = if-ok _ _ payload p' h in rw⁻¹ same there
default_of-settles engine name (boolean b) payload p' h =
    let (there, same) = if-ok _ _ payload p' h in rw⁻¹ same there
default_of-settles engine name (number n) payload p' h =
    let (there, same) = if-ok _ _ payload p' h in rw⁻¹ same there
default_of-settles engine name (string t) payload p' h =
    let (there, same) = if-ok _ _ payload p' h in rw⁻¹ same there
default_of-settles engine name (list_of xs) payload p' h =
    let (there, same) = if-ok _ _ payload p' h in rw⁻¹ same there

apply_defaults-has_key :
    (engine : Engine) (properties : Entries) (j : String) (payload n : Entries)
    → apply_defaults engine properties payload ≡ ok n
    → has_key j payload ≡ true
    → has_key j n ≡ true
unfolding apply_defaults
apply_defaults-has_key engine no_entries j payload n h k = rw⁻¹ (ok-injective payload n h) k
apply_defaults-has_key engine (entry name v rest) j payload n h k =
    let (m, p, q) = bind-ok (default_of engine name v payload) _ n h in
    apply_defaults-has_key engine rest j m n q (default_of-has_key engine name j v payload m p k)

settled-grows :
    (engine : Engine) (name : String) (v : Value) (m n : Entries)
    → (has_key name m ≡ true → has_key name n ≡ true)
    → settled engine name v m ≡ true
    → settled engine name v n ≡ true
unfolding settled
settled-grows engine name (dict_of es) m n f h = ground arith
settled-grows engine name none_value m n f h = f h
settled-grows engine name (boolean b) m n f h = f h
settled-grows engine name (number x) m n f h = f h
settled-grows engine name (string t) m n f h = ground (arith, f)
settled-grows engine name (list_of xs) m n f h = ground (arith, f)

pub Complete-apply_defaults :
    (engine : Engine) (properties payload n : Entries)
    → apply_defaults engine properties payload ≡ ok n
    → Complete engine properties n
unfolding apply_defaults Complete
Complete-apply_defaults engine no_entries payload n h = tt
Complete-apply_defaults engine (entry name v rest) payload n h =
    let (m, p, q) = bind-ok (default_of engine name v payload) _ n h in
    (
      settled-grows engine name v m n (apply_defaults-has_key engine rest name m n q)
          (default_of-settles engine name v payload m p),
      Complete-apply_defaults engine rest m n q,
    )

pub check_required_weaken :
    (engine : Engine) (names : Elements) (payload : Entries)
    → check_required engine true names payload ≡ ok tt
    → check_required engine false names payload ≡ ok tt
unfolding check_required
check_required_weaken engine no_elements payload h = refl
check_required_weaken engine (item (string name) rest) payload h =
    let (a, p, q) =
      bind-ok (fail_if (is_blank engine (value_of name payload)) (required_error name)) _ tt h in
    check_required_weaken engine rest payload q
check_required_weaken engine (item _ rest) payload h = cc h

check_target_weaken :
    (engine : Engine) (rule payload : Entries) (o : Option String)
    → check_target engine false rule payload o ≡ ok tt
unfolding check_target
check_target_weaken engine rule payload none = refl
check_target_weaken engine rule payload (some target) = refl

pub check_rules_weaken :
    (engine : Engine) (rules : Elements) (payload : Entries)
    → check_rules engine true rules payload ≡ ok tt
    → check_rules engine false rules payload ≡ ok tt
unfolding check_rules check_rule
check_rules_weaken engine no_elements payload h = refl
check_rules_weaken engine (item (dict_of rule) rest) payload h =
    let (a, p, q) = bind-ok (check_rule engine true rule payload) _ tt h in
    let (t, p1, q1) = bind-ok (rule_target engine rule payload (value_of "field" rule)) _ a p in
    rw (p1, check_target_weaken engine rule payload t) (check_rules_weaken engine rest payload q)
check_rules_weaken engine (item _ rest) payload h = cc h
