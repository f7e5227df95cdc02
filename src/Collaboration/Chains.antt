-- ===== src/Collaboration/Chains.antt =====
-- Sequences of mode switches: what is recorded stays consistent.
use rgp.Prelude.{
  String, ◌≡◌, ◌⊎◌, refl, sym, ap, ◌∙◌, Bool, true, false, Option, none, some, List, [], ◌∷◌, ◌++◌,
  select, best, str_eq, if◌then◌else◌, Bool-cases, inl, inr, eq_iff, All, lookup,
}
use rgp.Db.{Db, CollaborationModeTransitionTable}
use rgp.Session.{Host, with_session}
use rgp.Session.Outcomes.{OutcomeOr}
use rgp.Collaboration.{
  CollaborationMode, SwitchModeRequest, is_allowed, concerns, later, mode_after, transition_row,
  switch_mode, mode_value,
}
use rgp.Collaboration.History.{Rows, current_mode_of, Switched, switch_mode_contract}

-- A call of switch_mode
pub record Switch : Type 0 where
  pub request_id : String
  pub payload : SwitchModeRequest
  pub tenant_id : String

-- The database after the calls, each with its own host; a call may return or raise.
unfoldable pub switch_all : List (Host × Switch) → Db → Db
switch_all [] d = d
switch_all ((host, c) ∷ cs) d =
    switch_all cs (with_session (switch_mode host c.request_id c.payload c.tenant_id) d).1

-- The steps between modes: an agent leads only after it has assisted.
pub data IsStep : String → String → Type 0 where
  assist : IsStep "human_led" "agent_assisted"
  hand_over : IsStep "agent_assisted" "agent_led"
  step_back : IsStep "agent_led" "agent_assisted"
  end_assistance : IsStep "agent_assisted" "human_led"
  take_back : IsStep "agent_led" "human_led"

-- One of the rows is a transition of the request to the mode.
pub data Entered (request_id tenant_id mode : String) : Rows → Type 0 where
  here :
      {x : CollaborationModeTransitionTable} {rows : Rows}
      → concerns request_id tenant_id x ≡ true
      → x.to_mode ≡ mode
      → Entered request_id tenant_id mode (x ∷ rows)
  there :
      {x : CollaborationModeTransitionTable} {rows : Rows}
      → Entered request_id tenant_id mode rows
      → Entered request_id tenant_id mode (x ∷ rows)

-- The mode of a request after the rows: human_led if none is of the request, else a mode that one of
-- the rows entered.
abbrev pub IsSource : String → String → String → Rows → Type 0
IsSource request_id tenant_id mode rows =
    (mode ≡ "human_led") × All (λ x. concerns request_id tenant_id x ≡ false) rows
    ⊎ Entered request_id tenant_id mode rows

-- Each recorded transition is a step between modes, from a mode that the request was in.
pub data IsConsistent : Rows → Type 0 where
  no_rows : IsConsistent []
  one_more :
      (rows : Rows) (r : CollaborationModeTransitionTable)
      → IsConsistent rows
      → IsStep r.from_mode r.to_mode
      → IsSource r.request_id r.tenant_id r.from_mode rows
      → IsConsistent (rows ++ r ∷ [])

not_both : (b : Bool) → b ≡ false → b ≡ true → ⊥
not_both b p q = cc (p, q)

human_led-IsStep :
    (t : CollaborationMode)
    → is_allowed "human_led" (mode_value t) ≡ true
    → IsStep "human_led" (mode_value t)
unfolding is_allowed lookup mode_value
human_led-IsStep CollaborationMode.human_led h = cc h
human_led-IsStep CollaborationMode.agent_assisted h = IsStep.assist
human_led-IsStep CollaborationMode.agent_led h = cc h

agent_assisted-IsStep :
    (t : CollaborationMode)
    → is_allowed "agent_assisted" (mode_value t) ≡ true
    → IsStep "agent_assisted" (mode_value t)
unfolding is_allowed lookup mode_value
agent_assisted-IsStep CollaborationMode.human_led h = IsStep.end_assistance
agent_assisted-IsStep CollaborationMode.agent_assisted h = cc h
agent_assisted-IsStep CollaborationMode.agent_led h = IsStep.hand_over

agent_led-IsStep :
    (t : CollaborationMode)
    → is_allowed "agent_led" (mode_value t) ≡ true
    → IsStep "agent_led" (mode_value t)
unfolding is_allowed lookup mode_value
agent_led-IsStep CollaborationMode.human_led h = IsStep.take_back
agent_led-IsStep CollaborationMode.agent_assisted h = IsStep.step_back
agent_led-IsStep CollaborationMode.agent_led h = cc h

-- a step from a mode, from what is allowed in an equal one
IsStep-as :
    (mode known : String) (t : CollaborationMode)
    → known ≡ mode
    → (is_allowed known (mode_value t) ≡ true → IsStep known (mode_value t))
    → is_allowed mode (mode_value t) ≡ true
    → IsStep mode (mode_value t)
IsStep-as mode known t e k = rw (sym e) k

is_allowed-IsStep :
    (mode : String) (t : CollaborationMode)
    → is_allowed mode (mode_value t) ≡ true
    → IsStep mode (mode_value t)
unfolding is_allowed lookup mode_value
is_allowed-IsStep mode t h = elim (Bool-cases (str_eq "human_led" mode)) [
  | inl e ↦ IsStep-as mode "human_led" t ((eq_iff "human_led" mode).0 e) (human_led-IsStep t) h
  | inr e ↦ elim (Bool-cases (str_eq "agent_assisted" mode)) [
    | inl f ↦
        IsStep-as mode "agent_assisted" t ((eq_iff "agent_assisted" mode).0 f)
          (agent_assisted-IsStep t) h
    | inr f ↦ elim (Bool-cases (str_eq "agent_led" mode)) [
      | inl g ↦ IsStep-as mode "agent_led" t ((eq_iff "agent_led" mode).0 g) (agent_led-IsStep t) h
      | inr g ↦ absurd (not_both _ (rw (is_allowed, lookup, e, f, g) refl) h)
    ]
  ]
]

best_of :
    CollaborationModeTransitionTable
    → Option CollaborationModeTransitionTable
    → Option CollaborationModeTransitionTable
best_of x o = elim o [ none ↦ some x | some y ↦ some (if later y x then y else x) ]

-- the mode after a row that is added in front
Entered-best_of :
    (request_id tenant_id : String) (x : CollaborationModeTransitionTable) (rows : Rows)
    (o : Option CollaborationModeTransitionTable)
    → concerns request_id tenant_id x ≡ true
    → ((y : CollaborationModeTransitionTable)
        → o ≡ some y
        → Entered request_id tenant_id y.to_mode rows)
    → Entered request_id tenant_id (mode_after (best_of x o)) (x ∷ rows)
unfolding best_of
Entered-best_of request_id tenant_id x rows none c h = Entered.here c refl
Entered-best_of request_id tenant_id x rows (some y) c h = elim (Bool-cases (later y x)) [
  | inl e ↦ rw e (Entered.there (h y refl))
  | inr e ↦ rw e (Entered.here c refl)
]

best_of-some :
    (x : CollaborationModeTransitionTable) (o : Option CollaborationModeTransitionTable)
    → (y : CollaborationModeTransitionTable) × (best_of x o ≡ some y)
unfolding best_of
best_of-some x none = (x, refl)
best_of-some x (some y) = ((if later y x then y else x), refl)

module _ (request_id tenant_id : String) where
  Entered-as :
      (m n : String) (rows : Rows)
      → n ≡ m
      → Entered request_id tenant_id n rows
      → Entered request_id tenant_id m rows
  Entered-as m n rows e h = rw (sym e) h

  abbrev latest : Rows → Option CollaborationModeTransitionTable
  latest rows = best later (select (concerns request_id tenant_id) rows)

  latest-Entered :
      (rows : Rows) (y : CollaborationModeTransitionTable)
      → latest rows ≡ some y
      → Entered request_id tenant_id y.to_mode rows
  unfolding best_of
  latest-Entered [] y h = cc h
  latest-Entered (x ∷ rows) y h = elim (Bool-cases (concerns request_id tenant_id x)) [
    | inr c ↦ Entered.there (
        latest-Entered rows y (
          sym (
            ap
              (λ b. best later (
                if b
                then x ∷ select (concerns request_id tenant_id) rows
                else select (concerns request_id tenant_id) rows))
              c)
          ∙ h))
    | inl c ↦
        let same =
          sym (
            ap
              (λ b. best later (
                if b
                then x ∷ select (concerns request_id tenant_id) rows
                else select (concerns request_id tenant_id) rows))
              c)
          ∙ h in
        Entered-as y.to_mode _ (x ∷ rows) (ap mode_after same)
          (Entered-best_of request_id tenant_id x rows (latest rows) c (latest-Entered rows))
  ]

  latest-none :
      (rows : Rows) → latest rows ≡ none → All (λ x. concerns request_id tenant_id x ≡ false) rows
  unfolding best_of
  latest-none [] h = tt
  latest-none (x ∷ rows) h = elim (Bool-cases (concerns request_id tenant_id x)) [
    | inr c ↦ (
      c,
      latest-none rows (
          sym (
            ap
              (λ b. best later (
                if b
                then x ∷ select (concerns request_id tenant_id) rows
                else select (concerns request_id tenant_id) rows))
              c)
          ∙ h),
    )
    | inl c ↦
        let (y, e) = best_of-some x (latest rows) in
        let same =
          sym (
            ap
              (λ b. best later (
                if b
                then x ∷ select (concerns request_id tenant_id) rows
                else select (concerns request_id tenant_id) rows))
              c)
          ∙ h in
        absurd (cc (e, same))
  ]

  IsSource-latest :
      (rows : Rows) (o : Option CollaborationModeTransitionTable)
      → latest rows ≡ o
      → IsSource request_id tenant_id (mode_after o) rows
  IsSource-latest rows none e = inl (refl, latest-none rows e)
  IsSource-latest rows (some y) e = inr (latest-Entered rows y e)

abbrev pub AllConsistent : Db → Type 0
AllConsistent d = IsConsistent d.services.mode_transitions

consistent_at :
    (d : Db) (rows : Rows)
    → d.services.mode_transitions ≡ rows
    → IsConsistent rows
    → AllConsistent d
consistent_at d rows e h = rw e h

Switched-AllConsistent :
    (host : Host) (c : Switch) (d d' : Db)
    → AllConsistent d
    → Switched host c.request_id c.payload c.tenant_id d tt d'
    → AllConsistent d'
unfolding transition_row
Switched-AllConsistent host c d d' h (id, allowed, added) =
    let mode = current_mode_of c.request_id c.tenant_id d in
    let rows = d.services.mode_transitions in
    let row = transition_row host id c.request_id c.tenant_id mode c.payload in
    consistent_at d' (rows ++ row ∷ []) added (
      IsConsistent.one_more rows row h (is_allowed-IsStep mode c.payload.target_mode allowed)
        (IsSource-latest c.request_id c.tenant_id rows _ refl))

-- Through every sequence of calls of switch_mode, for any requests and by any tenants, at any
-- instants, whether each returns or raises, the recorded transitions stay consistent: each is one of
-- the five steps between modes (so only from agent_assisted does an agent come to lead), the first
-- of a request starts at human_led, and every later one at a mode that an earlier transition of the
-- same request and tenant has entered.
pub switch_all-IsConsistent :
    (cs : List (Host × Switch)) (d : Db) → AllConsistent d → AllConsistent (switch_all cs d)
unfolding switch_all
switch_all-IsConsistent [] d h = h
switch_all-IsConsistent ((host, c) ∷ cs) d h = switch_all-IsConsistent cs _ (
    OutcomeOr (Switched host c.request_id c.payload c.tenant_id d) AllConsistent d _
      (switch_mode_contract host c.request_id c.payload c.tenant_id d) h
      (λ a d' q. Switched-AllConsistent host c d d' h q))
