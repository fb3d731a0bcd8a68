-- ===== src/Base/Text.antt =====
-- Texts: the order in which SQLite and Python compare them, and sets of texts as lists.
use Prim.Native.Char.{code}
use Prim.Native.String.{String}
use mathlib.Core.Bool.{Bool, true, false, not, ◌&&◌, ◌||◌}
use mathlib.Core.Option.{Option, none, some}
use mathlib.Core.List.{List, [], ◌∷◌}
use mathlib.Core.Path.{◌≡◌, sym, ◌∙◌}
use native.Mathlib.Omega.{arith}
use text.Mathlib.Text.{◌==◌}
use text.Mathlib.TextEquality.{eq_iff}
use scrum_jail_governance_pl.Base.Tests.{ltb, eqb, if◌then◌else◌}

-- Lexicographic, by code points; SQLite compares the UTF-8 bytes, which gives the same order.
unfoldable pub text_leb : String → String → Bool
text_leb String.[] t = true
text_leb (String.◌∷◌ c s) String.[] = false
text_leb (String.◌∷◌ c s) (String.◌∷◌ d t) =
    ltb (code c) (code d) || (eqb (code c) (code d) && text_leb s t)

abbrev pub text_ltb : String → String → Bool
text_ltb s t = not (text_leb t s)

-- `not s`
abbrev pub is_empty : String → Bool
is_empty s = s == ""

-- `s in set`
unfoldable pub mem : String → List String → Bool
mem s [] = false
mem s (t ∷ ts) = s == t || mem s ts

-- `a <= b` on sets
unfoldable pub subset : List String → List String → Bool
subset [] ts = true
subset (s ∷ ss) ts = mem s ts && subset ss ts

-- The rest of the text behind the prefix, if it starts with it.
unfoldable pub strip_prefix : String → String → Option String
strip_prefix String.[] text = some text
strip_prefix (String.◌∷◌ c prefix) String.[] = none
strip_prefix (String.◌∷◌ c prefix) (String.◌∷◌ d text) =
    let rest = strip_prefix prefix text in if eqb (code c) (code d) then rest else none

-- text.endswith(suffix)
unfoldable pub ends_with : String → String → Bool
ends_with suffix String.[] = is_empty suffix
ends_with suffix (String.◌∷◌ c text) =
    let rest = ends_with suffix text in String.◌∷◌ c text == suffix || rest

-- `text or default`
abbrev pub or_else : Option String → String → String
or_else none default = default
or_else (some text) default = if is_empty text then default else text

-- A nullable text column compared with a text: NULL equals nothing.
abbrev pub is_text : Option String → String → Bool
is_text none text = false
is_text (some old) text = old == text

-- sorted(set(texts))
unfoldable pub insert_sorted : String → List String → List String
insert_sorted s [] = s ∷ []
insert_sorted s (t ∷ ts) =
    let rest = insert_sorted s ts in
    if s == t then t ∷ ts else if text_leb s t then s ∷ t ∷ ts else t ∷ rest

unfoldable pub sorted_set : List String → List String
unfolding insert_sorted
sorted_set [] = []
sorted_set (s ∷ ss) = insert_sorted s (sorted_set ss)

-- `==` on lists of texts
unfoldable pub same_texts : List String → List String → Bool
same_texts [] [] = true
same_texts [] (t ∷ ts) = false
same_texts (s ∷ ss) [] = false
same_texts (s ∷ ss) (t ∷ ts) = s == t && same_texts ss ts

pub eq_join : (s t u : String) → (s == u) ≡ true → (t == u) ≡ true → (s == t) ≡ true
eq_join s t u p q = (eq_iff s t).1 ((eq_iff s u).0 p ∙ sym ((eq_iff t u).0 q))

pub eq_trans : (s t u : String) → (s == t) ≡ true → (t == u) ≡ true → (s == u) ≡ true
eq_trans s t u p q = (eq_iff s u).1 ((eq_iff s t).0 p ∙ (eq_iff t u).0 q)

pub eq_sym : (s t : String) → (s == t) ≡ true → (t == s) ≡ true
eq_sym s t p = (eq_iff t s).1 (sym ((eq_iff s t).0 p))

pub eq_join_left : (s t u : String) → (s == t) ≡ true → (s == u) ≡ true → (t == u) ≡ true
eq_join_left s t u p q = eq_trans t s u (eq_sym s t p) q

pub eq_comm : (s t : String) → (s == t) ≡ (t == s)
eq_comm s t = ground (arith, eq_sym s t, eq_sym t s)
