-- ===== src/Monitor/Blockers.antt =====
-- control/sjg_control/governance.py: `_blockers`, on the value that the YAML reader makes of
-- blockers.yaml; `json.dumps` is a parameter.
use Prim.Native.String.{◌++◌, count as text_length}
use scrum_jail_governance_pl.Base.{
  ℕ, String, ◌==◌, Bool, true, false, not, ◌&&◌, ◌||◌, Option, none, some, List, [], ◌∷◌,
  if◌then◌else◌, mem, subset, is_empty, ltb, eqb,
}
use scrum_jail_governance_pl.Base.Raising.{
  Raising, made, refused, crashed, ◌>>=◌, ◌>>◌, require_as, or_crash,
}
use scrum_jail_governance_pl.Base.Regex.{seq, one, full_match, within, up_to}
use scrum_jail_governance_pl.Json.{
  Value, Arguments, text, items, object, get, keys, text_or, as_object, as_list,
}
use scrum_jail_governance_pl.Authz.Patterns.{strip, strip_left, strip_right}
use scrum_jail_governance_pl.Monitor.Snapshot.{DesiredQueueItem}
use scrum_jail_governance_pl.Monitor.Marker.{source_marker}

-- Why the file is refused, a GovernanceError.
pub data BlockerError : Type 0 where
  not_only_blockers not_a_list bad_fields bad_id bad_state bad_needs bad_texts : BlockerError

abbrev is_id_char : ℕ → Bool
is_id_char c = within 97 122 c || within 48 57 c

-- BLOCKER_ID
abbrev pub is_blocker_id : String → Bool
is_blocker_id id = full_match (seq (one is_id_char) (up_to 99 (λ c. is_id_char c || eqb c 45))) id

abbrev required : List String
required =
    "id" ∷ "kind" ∷ "needs" ∷ "value" ∷ "effort_minutes" ∷ "summary" ∷ "action" ∷ "blocks"
    ∷ "opened" ∷ "state" ∷ []

abbrev known : List String
known = "note" ∷ "gates_market_contact" ∷ required

-- row.get("state"), open or cleared: whether it is open; a list or a dict is not hashable.
unfoldable pub read_state : Value → Raising BlockerError Bool
read_state (text t) =
    if t == "open" then made true else if t == "cleared" then made false else refused bad_state
read_state (items vs shown) = crashed
read_state (object ms shown) = crashed
read_state _ = refused bad_state

abbrev pub is_needed : Value → Bool
is_needed (text t) = t == "human-principal"
is_needed _ = false

-- The fields of a row.
abbrev pub row_of : Value → Raising BlockerError Arguments
row_of value = elim (as_object value) [
  | none ↦ refused bad_fields
  | some row ↦
      if subset required (keys row) && subset (keys row) known then made row else refused bad_fields
]

abbrev pub only_blockers : Value → Raising BlockerError Arguments
only_blockers document = elim (as_object document) [
  | none ↦ refused not_only_blockers
  | some fields ↦
      if subset (keys fields) ("blockers" ∷ []) && subset ("blockers" ∷ []) (keys fields)
      then made fields
      else refused not_only_blockers
]

abbrev pub listed : Value → Raising BlockerError (List Value)
listed value = elim (as_list value) [ none ↦ refused not_a_list | some rows ↦ made rows ]

abbrev pub is_open_text : ℕ → String → Bool
is_open_text limit t = not (is_empty t) && not (ltb limit (text_length t))

abbrev pub id_of : Arguments → String
id_of row = text_or (get "id" row) ""

abbrev pub appended : Option DesiredQueueItem → List DesiredQueueItem → List DesiredQueueItem
appended none desired = desired
appended (some item) desired = item ∷ desired

-- `json.dumps`, where it has a text; a date of YAML has none.
module _ (dumps : Value → Option String) where
  abbrev pub body_of : String → String → String → String
  body_of marked action blocks =
      marked
      ++ ("\n"
          ++ ("\n**Required action**\n\n" ++ (action ++ ("\n\nBlocks: `" ++ (blocks ++ "`\n")))))

  abbrev pub item_of : String → String → String → String → String → DesiredQueueItem
  item_of source summary action marked blocks = record {
    source_key = source;
    title = "[HUMAN] " ++ summary;
    body = body_of marked action blocks;
  }

  -- The row of an open blocker.
  unfoldable pub open_blocker :
      String → String → String → Value → Raising BlockerError DesiredQueueItem
  unfolding source_marker
  open_blocker source summary action blocks = do
    require_as (is_open_text 140 summary && is_open_text 4000 action) bad_texts
    marked ← or_crash (source_marker source)
    shown ← or_crash (dumps blocks)
    made (item_of source summary action marked shown)

  -- What an open blocker adds, nothing for a cleared one.
  unfoldable pub if_open :
      Bool → String → Arguments → Raising BlockerError (Option DesiredQueueItem)
  unfolding open_blocker get strip_left strip_right
  if_open false id row = made none
  if_open true id row = do
    item ←
        open_blocker ("blocker:" ++ id) (strip (text_or (get "summary" row) ""))
          (strip (text_or (get "action" row) "")) (get "blocks" row)
    made (some item)

  -- One turn of the loop, behind the check of the id.
  unfoldable pub on_row : String → Arguments → Raising BlockerError (Option DesiredQueueItem)
  unfolding if_open read_state
  on_row id row = do
    is_open ← read_state (get "state" row)
    require_as (is_needed (get "needs" row)) bad_needs
    if_open is_open id row

  -- The loop, with the ids that were seen.
  unfoldable pub on_rows : List String → List Value → Raising BlockerError (List DesiredQueueItem)
  unfolding on_row
  on_rows seen [] = made []
  on_rows seen (value ∷ rest) = do
    row ← row_of value
    require_as (is_blocker_id (id_of row) && not (mem (id_of row) seen)) bad_id
    item ← on_row (id_of row) row
    desired ← on_rows (id_of row ∷ seen) rest
    made (appended item desired)

  -- _blockers
  unfoldable pub blockers : Value → Raising BlockerError (List DesiredQueueItem)
  unfolding on_rows
  blockers document = do
    fields ← only_blockers document
    rows ← listed (get "blockers" fields)
    on_rows [] rows
