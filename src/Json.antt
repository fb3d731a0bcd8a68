-- ===== src/Json.antt =====
-- Values of JSON and YAML as the program's checks read them: None, a text, a list, an object, or any
-- other value (a number or a Boolean) by its truth value, its `int` and its `str`. Lists and objects
-- carry their `str` too.
use scrum_jail_governance_pl.Base.{
  Bool, true, false, String, ◌==◌, List, [], ◌∷◌, map, ℤ, Option, none, some, is_empty,
  if◌then◌else◌,
}

mutual
  pub data Value : Type 0 where
    nothing : Value
    text : String → Value
    other : Bool → Option ℤ → String → Value
    items : Items → String → Value
    object : Members → String → Value

  pub data Items : Type 0 where
    nil : Items
    cons : Value → Items → Items

  pub data Members : Type 0 where
    end : Members
    member : String → Value → Members → Members

-- A dict: distinct keys, in order.
abbrev pub Arguments : Type 0
Arguments = List (String × Value)

unfoldable pub values_of : Items → List Value
values_of nil = []
values_of (cons v vs) = v ∷ values_of vs

unfoldable pub members_of : Members → Arguments
members_of end = []
members_of (member key v ms) = (key, v) ∷ members_of ms

-- arguments.get(key)
unfoldable pub get : String → Arguments → Value
get key [] = nothing
get key ((k, value) ∷ rest) = let found = get key rest in if k == key then value else found

-- key in arguments
unfoldable pub has_key : String → Arguments → Bool
has_key key [] = false
has_key key ((k, value) ∷ rest) = let found = has_key key rest in if k == key then true else found

abbrev pub keys : Arguments → List String
keys = map (λ item. item.0)

abbrev is_nil : Items → Bool
is_nil nil = true
is_nil (cons v vs) = false

abbrev is_end : Members → Bool
is_end end = true
is_end (member key v ms) = false

-- str(value or default)
abbrev pub text_or : Value → String → String
text_or nothing default = default
text_or (text t) default = if is_empty t then default else t
text_or (other truthy n shown) default = if truthy then shown else default
text_or (items vs shown) default = if is_nil vs then default else shown
text_or (object ms shown) default = if is_end ms then default else shown

-- str(value)
abbrev pub shown : Value → String
shown nothing = "None"
shown (text t) = t
shown (other truthy n t) = t
shown (items vs t) = t
shown (object ms t) = t

-- value or default
abbrev pub or_default : Value → Value → Value
or_default nothing default = default
or_default (text t) default = if is_empty t then default else text t
or_default (other truthy n t) default = if truthy then other truthy n t else default
or_default (items vs t) default = if is_nil vs then default else items vs t
or_default (object ms t) default = if is_end ms then default else object ms t

-- value or []
abbrev pub or_nil : Value → Value
or_nil value = or_default value (items nil "[]")

-- The elements of a list; none for any other value.
abbrev pub as_list : Value → Option (List Value)
as_list (items vs t) = some (values_of vs)
as_list _ = none

abbrev pub as_object : Value → Option Arguments
as_object (object ms t) = some (members_of ms)
as_object _ = none

abbrev pub as_text : Value → Option String
as_text (text t) = some t
as_text _ = none
