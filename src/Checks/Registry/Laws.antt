-- ===== src/Checks/Registry/Laws.antt =====
-- What evaluating several names gives.
use rgp.Prelude.{
  String, ◌⊎◌, ◌≡◌, true, Option, none, some, List, Dict, lookup, contains, if◌then◌else◌,
}
use rgp.Checks.Registry.{CheckContext, CheckResult, Handlers, has, evaluate, evaluate_from}

-- the first result, if there is one
abbrev or_result : Option CheckResult → Option CheckResult → Option CheckResult
or_result none o = o
or_result (some r) o = some r

module _ (ctx : CheckContext) (hs : Handlers) where
  -- a registered name whose handler raises
  abbrev Raises : List String → Type 0
  Raises names =
      (n : String) × (contains n names ≡ true) × (has n hs ≡ true) × (evaluate n ctx hs ≡ none)

  -- the results, or the exception, where the results so far are given
  abbrev Evaluated : List String → Dict CheckResult → Type 0
  Evaluated names results =
      ((final : Dict CheckResult) × (evaluate_from names ctx hs results ≡ some final)
        × ((n : String)
            → lookup n final ≡ (
                if contains n names
                then or_result (evaluate n ctx hs) (lookup n results)
                else lookup n results)))
      ⊎ (Raises names × (evaluate_from names ctx hs results ≡ none))
