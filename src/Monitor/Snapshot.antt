-- ===== src/Monitor/Snapshot.antt =====
-- control/sjg_control/governance.py: `_managed`, and how `snapshot` decides on its actions. An issue is
-- what the code reads of one that the API returns.
use scrum_jail_governance_pl.Base.{
  ℕ, String, ◌==◌, Bool, true, false, not, ◌&&◌, ◌||◌, Option, none, some, List, [], ◌∷◌, ◌++◌,
  if◌then◌else◌, eqb, is_empty, is_some, mem, sorted_set, length, strip_prefix,
}
use scrum_jail_governance_pl.Base.Table.{filter, select, exists}
use scrum_jail_governance_pl.Base.Raising.{Raising, made, ◌>>◌, require_as}
use scrum_jail_governance_pl.Governance.{Truth, Observation, ManagedState, plan}
use scrum_jail_governance_pl.Monitor.{Action, create, close, marker, lines, first_marker}

pub record Issue : Type 0 where
  pub number : ℕ
  pub state : String
  pub body : String
  pub updated_at : String

pub record DesiredQueueItem : Type 0 where
  pub source_key : String
  pub title : String
  pub body : String

-- A GovernanceError.
pub data MonitorError : Type 0 where
  invalid_marker colliding_keys : MonitorError

-- "--" in text
unfoldable pub has_dashes : String → Bool
unfolding strip_prefix
has_dashes String.[] = false
has_dashes (String.◌∷◌ c s) = is_some (strip_prefix "--" (String.◌∷◌ c s)) || has_dashes s

-- What `source_marker` lets through; a marker's source has no line feed.
abbrev pub is_source : String → Bool
is_source source = not (is_empty source) && not (has_dashes source)

-- The sources of the issues that have a marker.
unfoldable pub sources_of : List Issue → List String
unfolding lines first_marker
sources_of [] = []
sources_of (issue ∷ issues) =
    let rest = sources_of issues in
    elim (marker issue.body) [ none ↦ rest | some source ↦ source ∷ rest ]

abbrev carries : String → Issue → Bool
carries source issue = elim (marker issue.body) [ none ↦ false | some s ↦ s == source ]

-- managed[source], and managed.get(source, [])
unfoldable pub matches_of : List Issue → String → List Issue
unfolding lines first_marker
matches_of issues source = filter (carries source) issues

-- The one issue of a list.
abbrev pub single : List Issue → Option Issue
single (issue ∷ []) = some issue
single _ = none

abbrev pub in_numbers : ℕ → List ℕ → Bool
in_numbers n numbers = exists (eqb n) numbers

abbrev pub is_conflict : List Issue → String → Bool
is_conflict issues source =
    not (eqb (length (matches_of issues source)) 1) && mem source (sources_of issues)

-- An open sub-issue of the queue.
abbrev pub is_child : List ℕ → Issue → Bool
is_child children issue = issue.state == "open" && in_numbers issue.number children

abbrev pub is_present : List ℕ → Option Issue → Bool
is_present children none = false
is_present children (some issue) = is_child children issue

abbrev seen : Bool → Option String → Observation
seen truth value = record {
  truth = if truth then Truth.holds else Truth.fails;
  complete = true;
  value = value;
}

-- The state that is handed to `plan`.
abbrev pub state_of : String → Bool → Bool → ManagedState
state_of source present qualifies = record {
  source_key = source;
  present = seen present none;
  qualifies = seen qualifies none;
  current_stage = seen true (some "queue");
  desired_stage = seen true (some "queue");
}

abbrev pub plans : ManagedState → Bool
plans state = elim (plan state) [ [] ↦ false | ◌∷◌ operation rest ↦ true ]

abbrev number_of : Option Issue → Option ℕ
number_of none = none
number_of (some issue) = some issue.number

abbrev version_of : Option Issue → String
version_of none = "absent"
version_of (some issue) = issue.updated_at

abbrev pub create_of : DesiredQueueItem → Option Issue → Action
create_of item existing =
    create item.source_key item.title item.body (number_of existing) (version_of existing)

-- The first loop, over the desired items.
unfoldable pub creations : List Issue → List ℕ → List DesiredQueueItem → List Action
unfolding plan matches_of sources_of
creations issues children [] = []
creations issues children (item ∷ items) =
    let rest = creations issues children items in
    let found = single (matches_of issues item.source_key) in
    if not (is_conflict issues item.source_key)
      && plans (state_of item.source_key (is_present children found) true)
    then create_of item found ∷ rest
    else rest

abbrev pub is_desired : List DesiredQueueItem → String → Bool
is_desired items source = exists (λ (item : DesiredQueueItem). item.source_key == source) items

-- One turn of the second loop.
abbrev pub close_if_stray : List ℕ → String → Option Issue → List Action → List Action
close_if_stray children source none rest = rest
close_if_stray children source (some issue) rest =
    if is_child children issue && plans (state_of source true false)
    then close source issue.number issue.updated_at ∷ rest
    else rest

-- The second loop, over the sources of the markers.
unfoldable pub closings : List Issue → List ℕ → List DesiredQueueItem → List String → List Action
unfolding plan matches_of sources_of
closings issues children items [] = []
closings issues children items (source ∷ sources) =
    let rest = closings issues children items sources in
    if is_desired items source || is_conflict issues source
    then rest
    else close_if_stray children source (single (matches_of issues source)) rest

-- The desired items by their keys, sorted.
unfoldable pub in_order : List DesiredQueueItem → List String → List DesiredQueueItem
in_order items [] = []
in_order items (key ∷ keys) =
    let rest = in_order items keys in
    elim (select (λ (item : DesiredQueueItem). item.source_key == key) items) [
      | none ↦ rest
      | some item ↦ item ∷ rest
    ]

abbrev pub keys_of : List DesiredQueueItem → List String
keys_of [] = []
keys_of (item ∷ items) = item.source_key ∷ keys_of items

-- The actions of `snapshot`.
unfoldable pub actions :
    List Issue → List ℕ → List DesiredQueueItem → Raising MonitorError (List Action)
unfolding creations closings in_order has_dashes sorted_set
actions issues children items = do
  require_as (eqb (length (sorted_set (keys_of items))) (length items)) colliding_keys
  require_as (not (exists (λ source. not (is_source source)) (sources_of issues))) invalid_marker
  made (
      creations issues children (in_order items (sorted_set (keys_of items)))
      ++ closings issues children items (sorted_set (sources_of issues)))
