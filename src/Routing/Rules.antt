-- ===== src/Routing/Rules.antt =====
-- control/sjg_control/routing.py: `load_wake_rules`. The file is what the host finds: whether it is a
-- regular file, the SHA-256 of its bytes, and what the YAML reader makes of its text.
pub mod Targets
use Prim.Native.String.{◌++◌}
use Prim.Native.Char.{code}
use scrum_jail_governance_pl.Base.{
  ℕ, ◌+◌, String, ◌==◌, Bool, true, false, not, ◌&&◌, ◌||◌, Option, none, some, List, [], ◌∷◌,
  if◌then◌else◌, mem, subset, is_empty, is_some, leb, eqb,
}
use scrum_jail_governance_pl.Base.Raising.{
  Raising, made, refused, crashed, ◌>>=◌, ◌>>◌, require_as, or_crash,
}
use scrum_jail_governance_pl.Base.Regex.{
  Re, seq, alt, full_match, within, char, at_least_one, maybe,
}
use scrum_jail_governance_pl.Json.{
  Value, Arguments, text, get, has_key, keys, shown, as_object, as_list, as_text,
}
use scrum_jail_governance_pl.Policy.{OrganizationPolicy, find_role, find_repository}
use scrum_jail_governance_pl.Authz.Patterns.{is_digest, in_turn}
use scrum_jail_governance_pl.Routing.{WakeRule}

-- What reading the text and the YAML comes to: a value, one of the errors that are caught, or another.
pub data Reading : Type 0 where
  read : Value → Reading
  unreadable : String → Reading
  undecodable : Reading

pub record RulesFile : Type 0 where
  pub is_regular : Bool
  pub digest : String
  pub reading : Reading

-- Why the rules are refused; most errors name the rule by its index.
pub data RoutingError : Type 0 where
  not_regular bad_digest other_digest not_a_list no_rules : RoutingError
  not_readable : String → RoutingError
  not_exact bad_fields bad_kind bad_repository bad_state bad_workflow bad_role : ℕ → RoutingError
  bad_value : ℕ → String → RoutingError

abbrev pub match_fields : List String
match_fields = "kind" ∷ "repo" ∷ "label" ∷ "workflow" ∷ "conclusion" ∷ "pr_state" ∷ []

-- KINDS and PR_STATES
abbrev pub kinds : List String
kinds = "issue" ∷ "pr" ∷ "comment" ∷ "run" ∷ []

abbrev pub pr_states : List String
pr_states = "open" ∷ "merged" ∷ "closed" ∷ []

-- [A-Za-z0-9_.-]+\.ya?ml
abbrev workflow_name : Re
workflow_name = in_turn (
    at_least_one
      (λ c. within 48 57 c || within 65 90 c || within 97 122 c || eqb c 95 || within 45 46 c)
    ∷ char 46
    ∷ char 121
    ∷ maybe (char 97)
    ∷ char 109
    ∷ char 108
    ∷ [])

abbrev pub is_workflow : String → Bool
is_workflow name = full_match workflow_name name

-- No character below the space.
unfoldable pub is_printable : String → Bool
is_printable String.[] = true
is_printable (String.◌∷◌ c s) = leb 32 (code c) && is_printable s

-- The loop over the fields of `match`.
unfoldable pub normalize : ℕ → Arguments → Raising RoutingError (List (String × String))
unfolding is_printable
normalize index [] = made []
normalize index ((field, value) ∷ rest) = elim value [
  | text expected ↦ do
    require_as (not (is_empty expected) && is_printable expected) (bad_value index field)
    conditions ← normalize index rest
    made ((field, expected) ∷ conditions)
  | _ ↦ refused (bad_value index field)
]

-- `field in normalized and test(normalized[field])`
abbrev pub fails : Arguments → String → (String → Bool) → Bool
fails fields field test = elim (get field fields) [
  | text expected ↦ not (test expected)
  | _ ↦ false
]

abbrev pub is_wake : OrganizationPolicy → String → Bool
is_wake policy wake = wake == "from-label" || is_some (find_role policy wake)

-- One rule, behind the test of its two fields.
unfoldable pub compile_match :
    OrganizationPolicy → ℕ → Arguments → Value → Raising RoutingError WakeRule
compile_match policy index fields wake = do
  require_as (not (subset (keys fields) []) && subset (keys fields) match_fields) (bad_fields index)
  conditions ← normalize index fields
  require_as (not (fails fields "kind" (λ kind. mem kind kinds))) (bad_kind index)
  require_as (not (fails fields "repo" (λ alias. is_some (find_repository policy alias))))
      (bad_repository index)
  require_as (not (fails fields "pr_state" (λ state. mem state pr_states))) (bad_state index)
  require_as (not (fails fields "workflow" is_workflow)) (bad_workflow index)
  require_as (is_wake policy (shown wake)) (bad_role index)
  made (record { conditions = conditions; wake = shown wake })

abbrev has_exactly : List String → Arguments → Bool
has_exactly names fields = subset (keys fields) names && subset names (keys fields)

abbrev pub fields_of : Option Arguments → Arguments
fields_of none = []
fields_of (some fields) = fields

unfoldable pub compile_rule : OrganizationPolicy → ℕ → Value → Raising RoutingError WakeRule
unfolding compile_match
compile_rule policy index raw = do
  require_as (has_exactly ("match" ∷ "wake" ∷ []) (fields_of (as_object raw))) (not_exact index)
  require_as (is_some (as_object (get "match" (fields_of (as_object raw))))) (bad_fields index)
  compile_match policy index (fields_of (as_object (get "match" (fields_of (as_object raw)))))
      (get "wake" (fields_of (as_object raw)))

-- The loop over the rules, in order.
unfoldable pub compile_rules :
    OrganizationPolicy → ℕ → List Value → Raising RoutingError (List WakeRule)
unfolding compile_rule
compile_rules policy index [] = made []
compile_rules policy index (raw ∷ rest) = do
  rule ← compile_rule policy index raw
  rules ← compile_rules policy (1 + index) rest
  made (rule ∷ rules)

-- The list behind the one field "rules".
abbrev pub listed : Value → Option (List Value)
listed document = elim (as_object document) [
  | none ↦ none
  | some fields ↦ if has_exactly ("rules" ∷ []) fields then as_list (get "rules" fields) else none
]

unfoldable pub compile_document :
    OrganizationPolicy → Reading → Raising RoutingError (List WakeRule)
unfolding compile_rules
compile_document policy (unreadable why) = refused (not_readable why)
compile_document policy undecodable = crashed
compile_document policy (read document) = elim (listed document) [
  | none ↦ refused not_a_list
  | some [] ↦ refused no_rules
  | some (raw ∷ rest) ↦ compile_rules policy 0 (raw ∷ rest)
]

unfoldable pub load_wake_rules :
    OrganizationPolicy → String → RulesFile → Raising RoutingError (List WakeRule)
unfolding compile_document
load_wake_rules policy expected file = do
  require_as (is_digest 64 expected) bad_digest
  require_as file.is_regular not_regular
  require_as (file.digest == expected) other_digest
  compile_document policy file.reading
