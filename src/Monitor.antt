-- ===== src/Monitor.antt =====
-- control/sjg_control/governance.py: how the governance monitor applies the actions of a snapshot. Each
-- goes through the journal of governance writes; the calls of the GitHub backend are a parameter, which
-- answers each call knowing all that were made before it, and so are the texts of `json.dumps` and the
-- digest of a key.
pub mod Once
pub mod Turns
pub mod Snapshot
pub mod Due
pub mod Marker
pub mod Blockers
pub mod Posted
use Prim.Native.Char.{code}
use scrum_jail_governance_pl.Base.{
  ℕ, ◌+◌, String, ◌==◌, Bool, true, false, not, ◌&&◌, ◌||◌, Option, none, some, List, [], ◌∷◌,
  if◌then◌else◌, eqb, is_empty, is_some, strip_prefix, ends_with,
}
use scrum_jail_governance_pl.Base.Regex.{within}
use scrum_jail_governance_pl.Json.{Value, Arguments, text, other, nothing, get, text_or, as_object}
use scrum_jail_governance_pl.Store.Schema.{Store, ReconcileOperation, ReconcileState}
use scrum_jail_governance_pl.Store.Action.{Error, Result, Done, ok, err}
use scrum_jail_governance_pl.Store.Reconcile.{
  reserve_reconcile, mark_reconcile_applying, finish_reconcile,
}

-- The text in front of the suffix, if it ends with it, and if some text is.
unfoldable pub strip_suffix : String → String → Option String
strip_suffix suffix String.[] = none
strip_suffix suffix (String.◌∷◌ c s) =
    let rest = strip_suffix suffix s in
    if s == suffix
    then some (String.◌∷◌ c "")
    else elim rest [ none ↦ none | some front ↦ some (String.◌∷◌ c front) ]

-- text.split("\n")
unfoldable pub lines : String → List String
lines String.[] = "" ∷ []
lines (String.◌∷◌ c s) =
    let rest = lines s in
    if eqb (code c) 10
    then "" ∷ rest
    else elim rest [ [] ↦ String.◌∷◌ c "" ∷ [] | ◌∷◌ line more ↦ String.◌∷◌ c line ∷ more ]

abbrev marker_of : String → Option String
marker_of line = elim (strip_prefix "<!-- governance-monitor-source:" line) [
  | none ↦ none
  | some rest ↦ strip_suffix " -->" rest
]

unfoldable pub first_marker : List String → Option String
unfolding strip_prefix strip_suffix
first_marker [] = none
first_marker (line ∷ rest) =
    let found = first_marker rest in
    elim (marker_of line) [ none ↦ found | some source ↦ some source ]

-- MARKER.search(text).group(1)
abbrev pub marker : String → Option String
marker body = first_marker (lines body)

-- A call of the backend on the organization's repository, by its method and path.
pub data Call : Type 0 where
  get_issue reopen_issue : ℕ → Call
  post_issue : String → String → Call
  post_sub_issue : ℕ → Value → Call
  close_issue : ℕ → Call

-- What a call comes to: a value; a GitHubError or OSError; a GovernanceError, KeyError, TypeError or
-- ValueError; or another exception.
pub data Attempt (A : Type 0) : Type 0 where
  answered : A → Attempt A
  unreachable invalid : String → Attempt A
  broken : Attempt A

pub data Action : Type 0 where
  create : String → String → String → Option ℕ → String → Action
  close : String → ℕ → String → Action

abbrev pub source_of : Action → String
source_of (create source title body existing version) = source
source_of (close source issue version) = source

abbrev pub kind_of : Action → String
kind_of (create source title body existing version) = "create"
kind_of (close source issue version) = "close"

-- The calls, newest first.
abbrev pub Remote : Type 0 → Type 0
Remote A = List Call → Attempt A × List Call

infixl 5 ◌>>=◌
abbrev ◌>>=◌ : {A B : Type 0} → Remote A → (A → Remote B) → Remote B
◌>>=◌ m f calls =
    let (a, made) = m calls in
    elim a [
      | answered v ↦ f v made
      | unreachable why ↦ (unreachable why, made)
      | invalid why ↦ (invalid why, made)
      | broken ↦ (broken, made)
    ]

abbrev fails : {A : Type 0} → Attempt A → Remote A
fails attempt calls = (attempt, calls)

-- Digits only, and how a number of JSON that is an `int` is shown.
unfoldable pub are_digits : String → Bool
are_digits String.[] = true
are_digits (String.◌∷◌ c s) = within 48 57 (code c) && are_digits s

abbrev is_whole : String → Bool
is_whole String.[] = false
is_whole (String.◌∷◌ c s) =
    if eqb (code c) 45 then not (is_empty s) && are_digits s else are_digits (String.◌∷◌ c s)

-- isinstance(value, int)
abbrev is_int : Value → Bool
is_int (other truthy n t) = t == "True" || t == "False" || is_whole t
is_int _ = false

abbrev is_marked : Value → Bool
is_marked value = elim (as_object value) [
  | none ↦ false
  | some issue ↦ is_some (marker (text_or (get "body" issue) ""))
]

abbrev field_of : String → Value → Value
field_of key value = elim (as_object value) [ none ↦ nothing | some fields ↦ get key fields ]

abbrev is_text : String → Value → Bool
is_text expected (text t) = t == expected
is_text expected _ = false

abbrev state_text : ReconcileState → String
state_text ReconcileState.planned = "planned"
state_text ReconcileState.applying = "applying"
state_text ReconcileState.verify_pending = "verify_pending"
state_text ReconcileState.succeeded = "succeeded"
state_text ReconcileState.dead_letter = "dead_letter"

module _ (api : List Call → Call → Attempt Value) where
  abbrev ask : Call → Remote Value
  ask call calls = (api calls call, call ∷ calls)

  -- The managed issue that was there, open again, or a new one.
  abbrev find_issue : String → String → Option ℕ → Remote Value
  find_issue title body none = ask (post_issue title body)
  find_issue title body (some existing) =
      if eqb existing 0
      then ask (post_issue title body)
      else ask (get_issue existing) >>= λ issue.
          if not (is_marked issue)
          then fails (invalid "existing managed queue issue changed before apply")
          else if is_text "open" (field_of "state" issue)
          then fails (answered issue)
          else ask (reopen_issue existing)

  abbrev link_issue : ℕ → Value → Remote Value
  link_issue queue issue =
      if not (is_int (field_of "id" issue))
      then fails (unreachable "GitHub issue creation/reopen response is incomplete")
      else ask (post_sub_issue queue (field_of "id" issue)) >>= λ linked. fails (answered issue)

  unfoldable pub carry_out : Action → ℕ → Remote Value
  unfolding are_digits lines first_marker
  carry_out (create source title body existing version) queue =
      find_issue title body existing >>= link_issue queue
  carry_out (close source issue version) queue = ask (close_issue issue)

-- The database, the calls, and the keys of the actions that were carried out, newest first.
pub record World : Type 0 where
  pub store : Store
  pub calls : List Call
  pub turns : List String

-- What `_apply` comes to: the state it returns, an exception of the store, or another one.
pub data Ending : Type 0 where
  ended : String → Ending
  raised : Error → Ending
  crashed : Ending

module _ (api : List Call → Call → Attempt Value) (key_of precondition_of : Action → ℕ → String)
    (result_of : Action → ℕ → Value → String) (error_of : String → String) where
  abbrev ending : String → Result Done → Ending
  ending name (ok done) = ended name
  ending name (err error) = raised error

  abbrev finish : ReconcileOperation → ReconcileState → String → String → World → Ending × World
  finish row state result now w =
      let (done, s) = finish_reconcile row.operation_id state (some result) now w.store in
      (ending (state_text state) done, record w { store = s })

  -- After the calls.
  unfoldable pub conclude :
      Action → ℕ → ReconcileOperation → String → World → Attempt Value → Ending × World
  conclude action queue row now w (answered value) =
      finish row ReconcileState.succeeded (result_of action queue value) now w
  conclude action queue row now w (unreachable why) =
      finish row ReconcileState.verify_pending (error_of why) now w
  conclude action queue row now w (invalid why) =
      finish row ReconcileState.dead_letter (error_of why) now w
  conclude action queue row now w broken = (crashed, w)

  -- After `mark_reconcile_applying`.
  unfoldable pub on_marked :
      Action → ℕ → ReconcileOperation → String → World → Result Done → Ending × World
  unfolding conclude carry_out
  on_marked action queue row now w (err error) = (raised error, w)
  on_marked action queue row now w (ok done) =
      let (attempt, calls) = carry_out api action queue w.calls in
      conclude action queue row now
        (record w { calls = calls; turns = key_of action queue ∷ w.turns }) attempt

  -- After `reserve_reconcile`.
  unfoldable pub on_reserved :
      Action → ℕ → String → World → Result ReconcileOperation → Ending × World
  unfolding on_marked
  on_reserved action queue now w (err error) = (raised error, w)
  on_reserved action queue now w (ok row) = elim row.state [
    | ReconcileState.planned ↦
        let (marked, s) = mark_reconcile_applying row.operation_id now w.store in
        on_marked action queue row now (record w { store = s }) marked
    | state ↦ (ended (state_text state), w)
  ]

  -- GovernanceMonitor._apply; `fresh` is a new UUID.
  unfoldable pub apply : Action → ℕ → String → String → World → Ending × World
  unfolding on_reserved
  apply action queue fresh now w =
      let (answer, s) =
        reserve_reconcile (key_of action queue) (source_of action) (kind_of action)
          (precondition_of action queue) fresh now w.store in
      on_reserved action queue now (record w { store = s }) answer

  -- counts[state] = counts.get(state, 0) + 1
  unfoldable pub add_one : String → List (String × ℕ) → List (String × ℕ)
  add_one state [] = (state, 1) ∷ []
  add_one state ((k, n) ∷ rest) =
      let more = add_one state rest in if k == state then (k, n + 1) ∷ rest else (k, n) ∷ more

  -- The loop of `sync`, with a new UUID and the clock's text for each action; an exception ends it.
  unfoldable pub apply_all :
      List (Action × String × String)
      → ℕ
      → List (String × ℕ)
      → World
      → (Ending × List (String × ℕ)) × World
  unfolding apply add_one
  apply_all [] queue counts w = ((ended "", counts), w)
  apply_all ((action, fresh, now) ∷ rest) queue counts w =
      let (ending, w') = apply action queue fresh now w in
      elim ending [
        | ended state ↦ apply_all rest queue (add_one state counts) w'
        | halted ↦ ((halted, counts), w')
      ]

  -- sync, of a snapshot with conflicts or without.
  unfoldable pub sync :
      List String
      → List (Action × String × String)
      → ℕ
      → World
      → (Ending × List (String × ℕ)) × World
  unfolding apply_all
  sync [] actions queue w = apply_all actions queue [] w
  sync (conflict ∷ conflicts) actions queue w =
      ((ended "duplicate governance markers require Human repair", []), w)
