-- ===== src/Routing/Normal/Shape.antt =====
-- The shape of the events that `normalize_event` of control/sjg_control/routing.py makes.
use scrum_jail_governance_pl.Base.{
  String, ◌==◌, Bool, true, false, not, ◌&&◌, ◌||◌, Option, none, some, List, [], ◌∷◌,
  if◌then◌else◌, ◌≡◌, refl, arith, is_some, mem, strip_prefix, sym, subst, ◌⊎◌, inl, inr,
  Option-cases,
}
use scrum_jail_governance_pl.Routing.{RoutedEvent}
use scrum_jail_governance_pl.Routing.Normal.{
  Payload, RawLabels, event, normalize_event, plain_event, workflow_of, or_none, pr_state_of,
  labels_of, is_true,
}
use scrum_jail_governance_pl.Json.{text_or}

-- KINDS
abbrev pub kinds : List String
kinds = "issue" ∷ "pr" ∷ "comment" ∷ "run" ∷ []

abbrev pub is_pr_state : Option String → Bool
is_pr_state none = false
is_pr_state (some t) = t == "open" || t == "merged" || t == "closed"

-- The fields that each kind of event has.
pub record IsNormal (e : RoutedEvent) : Type 0 where
  pub kind_known : mem e.kind kinds ≡ true
  pub repository_known : (e.repository == "org" || e.repository == "product") ≡ true
  pub state_of_pr : is_pr_state e.pr_state ≡ (e.kind == "pr")
  pub workflow_of_run : (is_some e.workflow && not (e.kind == "run")) ≡ false
  pub conclusion_of_run : (is_some e.conclusion && not (e.kind == "run")) ≡ false

abbrev repository_of : String → String
repository_of source_id = if is_some (strip_prefix "org-" source_id) then "org" else "product"

repository_known :
    (source_id : String)
    → (repository_of source_id == "org" || repository_of source_id == "product") ≡ true
repository_known source_id = go (is_some (strip_prefix "org-" source_id))
  where
    go :
        (b : Bool)
        → ((if b then "org" else "product") == "org"
            || (if b then "org" else "product") == "product")
          ≡ true
    go true = refl
    go false = refl

state_known : (payload : Payload) → is_pr_state (some (pr_state_of payload)) ≡ true
state_known payload = go (is_true payload.pull_merged) (text_or payload.state "" == "open")
  where
    go :
        (merged is_open : Bool)
        → is_pr_state (some (if merged then "merged" else if is_open then "open" else "closed"))
          ≡ true
    go true is_open = refl
    go false true = refl
    go false false = refl

-- The four events that there are.
data Shape (repository : String) (payload : Payload) : RoutedEvent → Type 0 where
  of_run : Shape repository payload (record (plain_event "run" repository []) {
    workflow = workflow_of payload;
    conclusion = or_none (text_or payload.conclusion "");
  })
  of_comment :
      (labels : List String) → Shape repository payload (plain_event "comment" repository labels)
  of_issue :
      (labels : List String) → Shape repository payload (plain_event "issue" repository labels)
  of_pr :
      (labels : List String)
      → Shape repository payload
          (record (plain_event "pr" repository labels) { pr_state = some (pr_state_of payload) })

Shape-IsNormal :
    (source_id : String) (payload : Payload) {e : RoutedEvent}
    → Shape (repository_of source_id) payload e
    → IsNormal e
unfolding mem
Shape-IsNormal source_id payload of_run = record {
  kind_known = refl;
  repository_known = repository_known source_id;
  state_of_pr = refl;
  workflow_of_run = ground arith;
  conclusion_of_run = ground arith;
}
Shape-IsNormal source_id payload (of_comment labels) = record {
  kind_known = refl;
  repository_known = repository_known source_id;
  state_of_pr = refl;
  workflow_of_run = refl;
  conclusion_of_run = refl;
}
Shape-IsNormal source_id payload (of_issue labels) = record {
  kind_known = refl;
  repository_known = repository_known source_id;
  state_of_pr = refl;
  workflow_of_run = refl;
  conclusion_of_run = refl;
}
Shape-IsNormal source_id payload (of_pr labels) = record {
  kind_known = refl;
  repository_known = repository_known source_id;
  state_of_pr = state_known payload;
  workflow_of_run = refl;
  conclusion_of_run = refl;
}

abbrev parent_labels : Option RawLabels → List String
parent_labels none = []
parent_labels (some labels) = labels_of labels

shapes :
    (source_id : String) (payload : Payload) (e : RoutedEvent)
    → normalize_event source_id payload ≡ event e
    → (e ≡ record (plain_event "run" (repository_of source_id) []) {
      workflow = workflow_of payload;
      conclusion = or_none (text_or payload.conclusion "");
    })
      ⊎ (e ≡ plain_event "comment" (repository_of source_id) (parent_labels payload.parent))
      ⊎ (e ≡ plain_event "issue" (repository_of source_id) (labels_of payload.raw_labels))
      ⊎ (e ≡ record (plain_event "pr" (repository_of source_id) (labels_of payload.raw_labels)) {
        pr_state = some (pr_state_of payload);
      })
unfolding normalize_event
shapes source_id payload e h = elim (Option-cases payload.parent) [
  | inl gone ↦ ground (arith, gone, h)
  | inr (labels, given) ↦ ground (arith, given, h)
]

-- An event that is made of a payload has one of the four kinds and one of the two repositories, has
-- a state, one of three, exactly if it is a pull request, and a workflow or a conclusion only if it
-- is a run.
pub normalize_event-IsNormal :
    (source_id : String) (payload : Payload) (e : RoutedEvent)
    → normalize_event source_id payload ≡ event e
    → IsNormal e
normalize_event-IsNormal source_id payload e h = elim (shapes source_id payload e h) [
  | inl run ↦ subst IsNormal (sym run) (Shape-IsNormal source_id payload of_run)
  | inr others ↦ elim others [
    | inl comment ↦ subst IsNormal (sym comment) (Shape-IsNormal source_id payload (of_comment _))
    | inr rest ↦ elim rest [
      | inl issue ↦ subst IsNormal (sym issue) (Shape-IsNormal source_id payload (of_issue _))
      | inr pr ↦ subst IsNormal (sym pr) (Shape-IsNormal source_id payload (of_pr _))
    ]
  ]
]
