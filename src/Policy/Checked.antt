-- ===== src/Policy/Checked.antt =====
-- control/sjg_control/policy.py: the checks of a document, which refuse with a PolicyError, and `int`.
use Prim.Native.Char.{code}
use Prim.Native.String.{◌++◌}
use scrum_jail_governance_pl.Base.{
  ℕ, ◌+◌, ◌*◌, ◌-◌, String, Bool, true, false, not, ◌&&◌, Option, none, some, List, [], ◌∷◌,
  if◌then◌else◌, map, ℤ, pos, negsuc, ltb, eqb, mem, subset, sorted_set, is_empty,
}
use scrum_jail_governance_pl.Base.Raising.{Raising, made, refused, crashed, require_as}
use scrum_jail_governance_pl.Base.Table.{filter}
use scrum_jail_governance_pl.Base.Regex.{within}
use scrum_jail_governance_pl.Json.{
  Value, Arguments, nothing, text, other, items, object, keys, shown, values_of, as_object, Items,
  Members, members_of, or_default,
}
use scrum_jail_governance_pl.Authz.Patterns.{Platform, strip}

-- With a text, by a role, by the roles that are missing, or by what a mapping misses and has too many.
pub data PolicyError : Type 0 where
  message : String → PolicyError
  unknown_role : String → PolicyError
  missing_roles : List String → PolicyError
  invalid_fields : String → List String → List String → PolicyError

abbrev pub Checked : Type 0 → Type 0
Checked A = Raising PolicyError A

abbrev pub require : Bool → String → Checked Unit
require test why = require_as test (message why)

-- _exact_keys
unfoldable pub exact_keys : Value → List String → String → Checked Arguments
exact_keys value expected path = elim (as_object value) [
  | none ↦ refused (message (path ++ " must be a mapping"))
  | some fields ↦
      if subset (keys fields) expected && subset expected (keys fields)
      then made fields
      else refused (
          invalid_fields path (sorted_set (filter (λ key. not (mem key (keys fields))) expected))
            (sorted_set (filter (λ key. not (mem key expected)) (keys fields))))
]

-- The digits of a number with single underscores between them; `digit` has their values.
unfoldable pub digits_from : (ℕ → Option ℕ) → Bool → ℕ → String → Option ℕ
digits_from digit gap n String.[] = if gap then none else some n
digits_from digit gap n (String.◌∷◌ c s) = elim (digit (code c)) [
  | some d ↦ digits_from digit false (n * 10 + d) s
  | none ↦ if eqb (code c) 95 && not gap then digits_from digit true n s else none
]

abbrev digit_of : Platform → ℕ → Option ℕ
digit_of platform c =
    if ltb c 128 then if within 48 57 c then some (c - 48) else none else platform.decimal c

abbrev negated : ℕ → ℤ
negated n = if eqb n 0 then pos 0 else negsuc (n - 1)

abbrev signed : Bool → Option ℕ → Option ℤ
signed minus none = none
signed minus (some n) = some (if minus then negated n else pos n)

-- int(text), of fewer digits than Python's limit; none is the ValueError.
unfoldable pub int_of_text : Platform → String → Option ℤ
unfolding digits_from
int_of_text platform raw = elim (strip raw) [
  | String.[] ↦ none
  | String.◌∷◌ c s ↦
      if eqb (code c) 45
      then signed true (digits_from (digit_of platform) true 0 s)
      else if eqb (code c) 43
      then signed false (digits_from (digit_of platform) true 0 s)
      else signed false (digits_from (digit_of platform) true 0 (String.◌∷◌ c s))
]

-- int(value or 0); none is an exception
unfoldable pub int_or_zero : Platform → Value → Option ℤ
unfolding int_of_text
int_or_zero platform nothing = some (pos 0)
int_or_zero platform (text t) = if is_empty t then some (pos 0) else int_of_text platform t
int_or_zero platform (other truthy n t) = if truthy then n else some (pos 0)
int_or_zero platform (items vs t) = elim vs [ Items.nil ↦ some (pos 0) | _ ↦ none ]
int_or_zero platform (object ms t) = elim ms [ Members.end ↦ some (pos 0) | _ ↦ none ]

-- The characters of a text, as texts.
unfoldable pub characters : String → List String
characters String.[] = []
characters (String.◌∷◌ c s) = String.◌∷◌ c "" ∷ characters s

-- [str(v) for v in value], of the elements that `for` finds; none is the TypeError.
unfoldable pub texts_in : Value → Option (List String)
unfolding characters
texts_in nothing = none
texts_in (text t) = some (characters t)
texts_in (other truthy n t) = none
texts_in (items vs t) = some (map shown (values_of vs))
texts_in (object ms t) = some (keys (members_of ms))

-- frozenset(str(v) for v in value or default), in order
unfoldable pub set_of : Value → Value → Checked (List String)
unfolding texts_in
set_of value default = elim (texts_in (or_default value default)) [
  | none ↦ crashed
  | some texts ↦ made (sorted_set texts)
]
