-- ===== src/Template/Payload/Accepted.antt =====
-- What an accepted payload is: complete, checked, and accepted again.
use rgp.Prelude.{◌≡◌, refl, sym, ◌∙◌, Bool, true, false}
use rgp.Json.{Elements, Entries, string, no_elements, item}
use rgp.Session.{Error, ok}
use rgp.Template.{Engine, fail_if, value_of, dict_at}
use rgp.Template.Payload.{
  list_at, apply_defaults, is_blank, required_error, check_required, check_rules, coerce_values,
  validate_payload,
}
use rgp.Template.Payload.Stable.{
  ok-injective, bind-ok, coerce_values-same, apply_defaults-Complete, Complete-apply_defaults,
  check_required_weaken, check_rules_weaken,
}

-- The parts of a validation that returns n
record Steps (engine : Engine) (schema payload : Entries) (strict : Bool) (n : Entries)
    : Type 0 where
  properties : Entries
  required_fields : Elements
  conditional_required : Elements
  has_properties : dict_at "properties" schema ≡ ok properties
  has_required : list_at "required" schema ≡ ok required_fields
  has_conditional : list_at "conditional_required" schema ≡ ok conditional_required
  completed : apply_defaults engine properties payload ≡ ok n
  given : check_required engine strict required_fields n ≡ ok tt
  ruled : check_rules engine strict conditional_required n ≡ ok tt
  coerced : coerce_values engine properties n ≡ ok n

module _ (engine : Engine) (schema payload n : Entries) where
  validate_payload-Steps :
      (strict : Bool)
      → validate_payload engine schema payload strict ≡ ok n
      → Steps engine schema payload strict n
  unfolding validate_payload
  validate_payload-Steps strict h =
      let (props, e1, h1) = bind-ok (dict_at "properties" schema) _ n h in
      let (req, e2, h2) = bind-ok (list_at "required" schema) _ n h1 in
      let (cond, e3, h3) = bind-ok (list_at "conditional_required" schema) _ n h2 in
      let (m, e4, h4) = bind-ok (apply_defaults engine props payload) _ n h3 in
      let (a, e5, h5) = bind-ok (check_required engine strict req m) _ n h4 in
      let (b, e6, h6) = bind-ok (check_rules engine strict cond m) _ n h5 in
      let same : n ≡ m = coerce_values-same engine props m n h6 in
      rw same (record {
        properties = props;
        required_fields = req;
        conditional_required = cond;
        has_properties = e1;
        has_required = e2;
        has_conditional = e3;
        completed = e4;
        given = e5;
        ruled = e6;
        coerced = cc (h6, same);
      })

  Steps-validate_payload :
      (strict : Bool)
      → Steps engine schema payload strict n
      → validate_payload engine schema payload strict ≡ ok n
  unfolding validate_payload
  Steps-validate_payload strict s =
      rw (s.has_properties, s.has_required, s.has_conditional, s.completed, s.given, s.ruled)
        s.coerced

-- What validation accepts, it returns unchanged when it validates it again.
pub validate_payload-validate_payload :
    (engine : Engine) (schema payload n : Entries) (strict : Bool)
    → validate_payload engine schema payload strict ≡ ok n
    → validate_payload engine schema n strict ≡ ok n
validate_payload-validate_payload engine schema payload n strict h =
    let s = validate_payload-Steps engine schema payload n strict h in
    Steps-validate_payload engine schema n n strict (record {
      properties = s.properties;
      required_fields = s.required_fields;
      conditional_required = s.conditional_required;
      has_properties = s.has_properties;
      has_required = s.has_required;
      has_conditional = s.has_conditional;
      completed =
          apply_defaults-Complete engine s.properties n
            (Complete-apply_defaults engine s.properties payload n s.completed);
      given = s.given;
      ruled = s.ruled;
      coerced = s.coerced;
    })

-- A payload that is accepted with its required fields is accepted as a draft too, with the same
-- result.
pub validate_payload_draft :
    (engine : Engine) (schema payload n : Entries)
    → validate_payload engine schema payload true ≡ ok n
    → validate_payload engine schema payload false ≡ ok n
validate_payload_draft engine schema payload n h =
    let s = validate_payload-Steps engine schema payload n true h in
    Steps-validate_payload engine schema payload n false (record {
      properties = s.properties;
      required_fields = s.required_fields;
      conditional_required = s.conditional_required;
      has_properties = s.has_properties;
      has_required = s.has_required;
      has_conditional = s.has_conditional;
      completed = s.completed;
      given = check_required_weaken engine s.required_fields n s.given;
      ruled = check_rules_weaken engine s.conditional_required n s.ruled;
      coerced = s.coerced;
    })

-- The named fields are in the payload and not blank.
abbrev pub AllGiven : Engine → Elements → Entries → Type 0
AllGiven engine no_elements payload = Unit
AllGiven engine (item (string name) rest) payload =
    (is_blank engine (value_of name payload) ≡ false) × AllGiven engine rest payload
AllGiven engine (item _ rest) payload = AllGiven engine rest payload

fail_if-ok : (b : Bool) (e : Error) (a : Unit {0}) → fail_if b e ≡ ok a → b ≡ false
fail_if-ok true e a h = cc h
fail_if-ok false e a h = refl

check_required-AllGiven :
    (engine : Engine) (names : Elements) (payload : Entries)
    → check_required engine true names payload ≡ ok tt
    → AllGiven engine names payload
unfolding check_required
check_required-AllGiven engine no_elements payload h = tt
check_required-AllGiven engine (item (string name) rest) payload h =
    let (a, p, q) =
      bind-ok (fail_if (is_blank engine (value_of name payload)) (required_error name)) _ tt h in
    (fail_if-ok _ _ a p, check_required-AllGiven engine rest payload q)
check_required-AllGiven engine (item _ rest) payload h = cc h

-- In a payload that is accepted with its required fields, none of the fields that the schema
-- requires is missing, None or blank.
pub validate_payload-AllGiven :
    (engine : Engine) (schema payload n : Entries) (names : Elements)
    → list_at "required" schema ≡ ok names
    → validate_payload engine schema payload true ≡ ok n
    → AllGiven engine names n
validate_payload-AllGiven engine schema payload n names e h =
    let s = validate_payload-Steps engine schema payload n true h in
    let same : s.required_fields ≡ names = ok-injective _ _ (sym s.has_required ∙ e) in
    rw⁻¹ same (check_required-AllGiven engine s.required_fields n s.given)
