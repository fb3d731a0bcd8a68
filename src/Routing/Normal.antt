-- ===== src/Routing/Normal.antt =====
-- control/sjg_control/routing.py: `normalize_event`, from an observation's payload to the event that the
-- rules see. Of a payload the fields that it reads are kept.
pub mod Shape
use scrum_jail_governance_pl.Base.{
  ℕ, String, ◌==◌, Bool, true, false, not, ◌&&◌, ◌||◌, Option, none, some, List, [], ◌∷◌,
  if◌then◌else◌, is_some, is_empty, mem, eqb, ends_with, strip_prefix,
}
use Prim.Native.Char.{code}
use Prim.Native.String.{◌++◌}
use scrum_jail_governance_pl.Json.{Value, text, text_or}
use scrum_jail_governance_pl.Polling.{source_ids}
use scrum_jail_governance_pl.Routing.{RoutedEvent}

-- An element of a labels list: a dict, by its `name`, or another value.
pub data Label : Type 0 where
  object plain : Value → Label

-- None where `labels` is no list.
abbrev pub RawLabels : Type 0
RawLabels = Option (List Label)

pub record Payload : Type 0 where
  pub path : Value
  pub workflow_path : Value
  pub conclusion : Value
  pub state : Value
  pub is_pull_request : Bool
  -- `_sjg_pull_request`, if it is a dict: is its `merged_at` not None?
  pub pull_merged : Option Bool
  -- `_sjg_parent`, if it is a dict: its labels
  pub parent : Option RawLabels
  pub raw_labels : RawLabels

pub data Normalized : Type 0 where
  event : RoutedEvent → Normalized
  routing_error : String → Normalized

abbrev pub name_of : Label → Value
name_of (object name) = name
name_of (plain value) = value

unfoldable pub label_names : List Label → List String
label_names [] = []
label_names (label ∷ labels) =
    let rest = label_names labels in
    elim (name_of label) [ text name ↦ if is_empty name then rest else name ∷ rest | _ ↦ rest ]

-- _labels
abbrev pub labels_of : RawLabels → List String
labels_of none = []
labels_of (some labels) = label_names labels

-- raw_path.split("@", 1)[0]
unfoldable pub before_at : String → String
before_at String.[] = ""
before_at (String.◌∷◌ c s) =
    let rest = before_at s in if eqb (code c) 64 then "" else String.◌∷◌ c rest

unfoldable pub has_slash : String → Bool
has_slash String.[] = false
has_slash (String.◌∷◌ c s) = eqb (code c) 47 || has_slash s

-- os.path.basename
unfoldable pub basename : String → String
unfolding has_slash
basename String.[] = ""
basename (String.◌∷◌ c s) =
    let rest = basename s in if eqb (code c) 47 || has_slash s then rest else String.◌∷◌ c s

-- text or None
abbrev pub or_none : String → Option String
or_none t = if is_empty t then none else some t

abbrev pub workflow_of : Payload → Option String
workflow_of payload =
    let raw = before_at (text_or payload.path (text_or payload.workflow_path "")) in
    if is_empty raw then none else some (basename raw)

abbrev pub is_true : Option Bool → Bool
is_true none = false
is_true (some b) = b

abbrev pub pr_state_of : Payload → String
pr_state_of payload =
    if is_true payload.pull_merged
    then "merged"
    else if text_or payload.state "" == "open"
    then "open"
    else "closed"

abbrev pub plain_event : String → String → List String → RoutedEvent
plain_event kind repository labels = record {
  kind = kind;
  repository = repository;
  labels = labels;
  workflow = none;
  conclusion = none;
  pr_state = none;
}

unfoldable pub normalize_event : String → Payload → Normalized
normalize_event source_id payload =
    let repository = if is_some (strip_prefix "org-" source_id) then "org" else "product" in
    if not (mem source_id source_ids)
    then routing_error ("unknown event source: " ++ source_id)
    else if ends_with "workflow-runs" source_id
    then event (record (plain_event "run" repository []) {
      workflow = workflow_of payload;
      conclusion = or_none (text_or payload.conclusion "");
    })
    else if ends_with "comments" source_id
    then elim payload.parent [
      | none ↦ routing_error "comment event lacks complete parent enrichment"
      | some labels ↦ event (plain_event "comment" repository (labels_of labels))
    ]
    else if not payload.is_pull_request
    then event (plain_event "issue" repository (labels_of payload.raw_labels))
    else event (record (plain_event "pr" repository (labels_of payload.raw_labels)) {
      pr_state = some (pr_state_of payload);
    })
