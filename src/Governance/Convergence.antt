-- ===== src/Governance/Convergence.antt =====
-- Passes of the reconciliation of control/sjg_control/reconcile.py, one after the other. How the remote
-- side carries an operation out is a parameter.
use scrum_jail_governance_pl.Base.{
  ℕ, ◌+◌, ◌≤◌, String, Bool, true, false, Option, none, some, List, [], ◌∷◌, ◌≡◌, refl, ap, ◌∙◌,
  arith, eq_refl, eq_iff, if◌then◌else◌, Bool-cases, inl, inr, ◌⊎◌,
}
use scrum_jail_governance_pl.Governance.{
  Truth, Observation, ManagedState, Precondition, proved_absent, proved_present, from_to,
  PlannedOperation, same_stage, any_open, plan,
}

-- A managed issue: none, or one at some stage.
abbrev pub Standing : Type 0
Standing = Option (Option String)

abbrev pub operation : String → String → Precondition → PlannedOperation
operation key name precondition = record {
  key = key;
  operation = name;
  precondition = precondition;
}

abbrev observed : Bool → Option String → Observation
observed b value = record {
  truth = if b then Truth.holds else Truth.fails;
  complete = true;
  value = value;
}

-- What a complete observation of the issue hands to `plan`.
abbrev pub full : String → Bool → Option String → Standing → ManagedState
full key wanted stage none = record {
  source_key = key;
  present = observed false none;
  qualifies = observed wanted none;
  current_stage = observed true none;
  desired_stage = observed true stage;
}
full key wanted stage (some at) = record {
  source_key = key;
  present = observed true none;
  qualifies = observed wanted none;
  current_stage = observed true at;
  desired_stage = observed true stage;
}

-- What a pass sees: everything, or a state of which something is unknown or incomplete.
pub data View : Type 0 where
  complete : View
  partial : (state : ManagedState) → any_open state ≡ true → View

unfoldable pub complete_count : List View → ℕ
complete_count [] = 0
complete_count (complete ∷ views) = 1 + complete_count views
complete_count (partial state h ∷ views) = complete_count views

-- The goal: the issue stands at the stage where it is wanted, and there is none where it is not.
abbrev pub goal : Bool → Option String → Standing
goal wanted stage = if wanted then some stage else none

module _ (perform : PlannedOperation → Standing → Standing) where
  unfoldable pub perform_all : List PlannedOperation → Standing → Standing
  perform_all [] at = at
  perform_all (op ∷ ops) at = perform_all ops (perform op at)

  -- One pass, and a sequence of them.
  unfoldable pub pass : String → Bool → Option String → View → Standing → Standing
  unfolding perform_all plan
  pass key wanted stage complete at = perform_all (plan (full key wanted stage at)) at
  pass key wanted stage (partial state h) at = perform_all (plan state) at

  unfoldable pub passes : String → Bool → Option String → List View → Standing → Standing
  unfolding pass
  passes key wanted stage [] at = at
  passes key wanted stage (view ∷ views) at =
      passes key wanted stage views (pass key wanted stage view at)

-- What the remote side does with an operation on an issue where its precondition holds; a new issue
-- stands at some stage.
pub record IsRemote (perform : PlannedOperation → Standing → Standing) (key : String) : Type 0 where
  pub creates :
      (at : Option String) × (perform (operation key "create" proved_absent) none ≡ some at)
  pub closes :
      (at : Option String) → perform (operation key "close" proved_present) (some at) ≡ none
  pub moves :
      (at to : Option String) → perform (operation key "move" (from_to at to)) (some at) ≡ some to

same_stage_eq : (a b : Option String) → same_stage a b ≡ true → a ≡ b
same_stage_eq none none h = refl
same_stage_eq none (some b) h = absurd (ground (arith, h))
same_stage_eq (some a) none h = absurd (ground (arith, h))
same_stage_eq (some a) (some b) h = ap some ((eq_iff a b).0 h)

same_stage_refl : (a : Option String) → same_stage a a ≡ true
same_stage_refl none = refl
same_stage_refl (some a) = eq_refl a

plan_open : (state : ManagedState) → any_open state ≡ true → plan state ≡ []
unfolding plan
plan_open state h = ground (arith, h)

module _ (perform : PlannedOperation → Standing → Standing) (key : String)
    (r : IsRemote perform key) (stage : Option String) where
  step : Bool → Standing → Standing
  step wanted at = pass perform key wanted stage complete at

  step-absent : step true none ≡ some r.creates.0
  unfolding step pass plan perform_all
  step-absent = r.creates.1

  step-stray : (at : Option String) → step false (some at) ≡ none
  unfolding step pass plan perform_all
  step-stray at = r.closes at

  step-none : step false none ≡ none
  unfolding step pass plan perform_all
  step-none = refl

  step-present : (at : Option String) → step true (some at) ≡ some stage
  unfolding step pass plan perform_all
  step-present at = elim (Bool-cases (same_stage at stage)) [
    | inl same ↦ ground (arith, same, ap some (same_stage_eq at stage same))
    | inr other ↦ ground (arith, other, r.moves at stage)
  ]

  -- A pass that does not see everything leaves the issue as it is.
  step-partial :
      (wanted : Bool) (state : ManagedState) (h : any_open state ≡ true) (at : Standing)
      → pass perform key wanted stage (partial state h) at ≡ at
  unfolding pass perform_all
  step-partial wanted state h at = ap (λ ops. perform_all perform ops at) (plan_open state h)

  unwanted_gone :
      (views : List View) (at : Standing)
      → (at ≡ none) ⊎ (1 ≤ complete_count views)
      → passes perform key false stage views at ≡ none
  unfolding passes complete_count step
  unwanted_gone [] at (inl e) = e
  unwanted_gone [] at (inr h) = absurd (omega (arith, h))
  unwanted_gone (complete ∷ views) none h =
      ap (passes perform key false stage views) step-none ∙ unwanted_gone views none (inl refl)
  unwanted_gone (complete ∷ views) (some at) h =
      ap (passes perform key false stage views) (step-stray at)
      ∙ unwanted_gone views none (inl refl)
  unwanted_gone (partial state o ∷ views) at h =
      ap (passes perform key false stage views) (step-partial false state o at)
      ∙ unwanted_gone views at h

  moved_there :
      (views : List View) (at : Option String)
      → (at ≡ stage) ⊎ (1 ≤ complete_count views)
      → passes perform key true stage views (some at) ≡ some stage
  unfolding passes complete_count step
  moved_there [] at (inl e) = ap some e
  moved_there [] at (inr h) = absurd (omega (arith, h))
  moved_there (complete ∷ views) at h =
      ap (passes perform key true stage views) (step-present at)
      ∙ moved_there views stage (inl refl)
  moved_there (partial state o ∷ views) at h =
      ap (passes perform key true stage views) (step-partial true state o (some at))
      ∙ moved_there views at h

  created_there :
      (views : List View)
      → 2 ≤ complete_count views
      → passes perform key true stage views none ≡ some stage
  unfolding passes complete_count step
  created_there [] h = absurd (omega (arith, h))
  created_there (complete ∷ views) h =
      ap (passes perform key true stage views) step-absent
      ∙ moved_there views r.creates.0 (inr (ground (arith, h)))
  created_there (partial state o ∷ views) h =
      ap (passes perform key true stage views) (step-partial true state o none)
      ∙ created_there views h

  settled_plan : (wanted : Bool) → plan (full key wanted stage (goal wanted stage)) ≡ []
  unfolding plan
  settled_plan true = ground (arith, same_stage_refl stage)
  settled_plan false = refl

  -- With a remote side that puts a new issue at some stage, closes an issue and moves one as it is
  -- told, any sequence of passes, of which at least two see everything and the others see a state
  -- with something unknown or incomplete, ends with the issue at the wanted stage if it is wanted,
  -- and with no issue if it is not, wherever it stood before; a pass that sees that plans nothing.
  pub passes_converge :
      (wanted : Bool) (views : List View) (at : Standing)
      → 2 ≤ complete_count views
      → (passes perform key wanted stage views at ≡ goal wanted stage)
        × (plan (full key wanted stage (passes perform key wanted stage views at)) ≡ [])
  passes_converge wanted views at h =
      let reached = arrives wanted views at h in
      (reached, ap (λ a. plan (full key wanted stage a)) reached ∙ settled_plan wanted)
    where
      arrives :
          (wanted : Bool) (views : List View) (at : Standing)
          → 2 ≤ complete_count views
          → passes perform key wanted stage views at ≡ goal wanted stage
      arrives true views none h = created_there views h
      arrives true views (some at) h = moved_there views at (inr (omega (arith, h)))
      arrives false views at h = unwanted_gone views at (inr (omega (arith, h)))
