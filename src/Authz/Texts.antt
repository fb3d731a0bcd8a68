-- ===== src/Authz/Texts.antt =====
-- control/sjg_control/authz.py: `_safe_topic` and `_safe_worker_paths`, the checks of a branch's topic
-- and of the paths that a worker may read or write.
use scrum_jail_governance_pl.Base.{
  ℕ, ◌+◌, String, ◌==◌, Bool, true, false, not, ◌&&◌, ◌||◌, Option, none, some, List, [], ◌∷◌,
  if◌then◌else◌, leb, ltb, eqb, mem, is_empty,
}
use Prim.Native.Char.{code}
use scrum_jail_governance_pl.Json.{Value, text, text_or}

-- [a-z0-9]
abbrev is_lower : ℕ → Bool
is_lower c = (leb 48 c && leb c 57) || (leb 97 c && leb c 122)

-- [a-z0-9-]*, and how many
unfoldable pub topic_tail : String → Bool × ℕ
topic_tail String.[] = (true, 0)
topic_tail (String.◌∷◌ c s) =
    let (fine, n) = topic_tail s in ((is_lower (code c) || eqb (code c) 45) && fine, n + 1)

unfoldable pub is_topic : String → Bool
unfolding topic_tail
is_topic String.[] = false
is_topic (String.◌∷◌ c s) = let (fine, n) = topic_tail s in is_lower (code c) && fine && leb n 62

-- _safe_topic; none is the AuthorizationError
abbrev pub safe_topic : Value → Option String
safe_topic topic = let t = text_or topic "" in if is_topic t then some t else none

-- len(raw.encode("utf-8"))
unfoldable pub utf8_length : String → ℕ
utf8_length String.[] = 0
utf8_length (String.◌∷◌ c s) =
    let n = code c in
    (if ltb n 128 then 1 else if ltb n 2048 then 2 else if ltb n 65536 then 3 else 4)
    + utf8_length s

-- raw.split("/")
unfoldable pub components : String → List String
components String.[] = "" ∷ []
components (String.◌∷◌ c s) =
    let rest = components s in
    if eqb (code c) 47
    then "" ∷ rest
    else elim rest [ [] ↦ String.◌∷◌ c "" ∷ [] | ◌∷◌ part parts ↦ String.◌∷◌ c part ∷ parts ]

-- No control character and no backslash.
unfoldable pub is_plain : String → Bool
is_plain String.[] = true
is_plain (String.◌∷◌ c s) = leb 32 (code c) && not (eqb (code c) 92) && is_plain s

abbrev pub is_absolute : String → Bool
is_absolute String.[] = false
is_absolute (String.◌∷◌ c s) = eqb (code c) 47

-- str(PurePosixPath(raw)) == raw, for a relative path: "." itself, or no empty part and no "."
abbrev pub is_canonical : String → Bool
is_canonical raw = raw == "." || (not (mem "" (components raw)) && not (mem "." (components raw)))

unfoldable pub is_worker_path : String → Bool
unfolding components utf8_length is_plain
is_worker_path raw =
    not (is_empty raw)
    && leb (utf8_length raw) 255
    && not (is_absolute raw)
    && not (mem ".." (components raw))
    && is_plain raw
    && is_canonical raw

-- Why a list of paths is refused.
pub data PathError : Type 0 where
  not_a_list not_a_text duplicated : PathError
  unsafe : String → PathError

pub data Paths : Type 0 where
  safe_paths : List String → Paths
  refused : PathError → Paths

unfoldable pub count_values : List Value → ℕ
count_values [] = 0
count_values (v ∷ vs) = 1 + count_values vs

unfoldable pub has_repeats : List String → Bool
has_repeats [] = false
has_repeats (s ∷ ss) = mem s ss || has_repeats ss

-- The loop: the first value that is unsafe, or all of them.
unfoldable pub check_paths : List Value → Paths
check_paths [] = safe_paths []
check_paths (value ∷ values) =
    let rest = check_paths values in
    elim value [
      | text raw ↦ if not (is_worker_path raw) then refused (unsafe raw) else elim rest [
        | safe_paths paths ↦ safe_paths (raw ∷ paths)
        | refused error ↦ refused error
      ]
      | _ ↦ refused not_a_text
    ]

-- `values` is none where it is no list.
unfoldable pub safe_worker_paths : Option (List Value) → Paths
unfolding count_values has_repeats check_paths
safe_worker_paths none = refused not_a_list
safe_worker_paths (some values) =
    if ltb 200 (count_values values) then refused not_a_list else elim (check_paths values) [
      | refused error ↦ refused error
      | safe_paths paths ↦ if has_repeats paths then refused duplicated else safe_paths paths
    ]
