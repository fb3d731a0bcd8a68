-- ===== src/Authz/Patterns.antt =====
-- control/sjg_control/authz.py: the regular expressions of its rules, and `strip` and `lower`. What
-- Python's Unicode tables say of characters beyond ASCII, base64 and SHA-256 are parameters.
use Prim.Native.Char.{code}
use scrum_jail_governance_pl.Base.{
  ℕ, ◌+◌, String, Bool, true, false, not, ◌&&◌, ◌||◌, Option, none, some, List, [], ◌∷◌,
  if◌then◌else◌, ltb, eqb, is_empty, is_some,
}
use scrum_jail_governance_pl.Base.Regex.{
  Re, nothing, one, many, at, seq, alt, search, match_start, full_match, within, char, at_least_one,
  maybe, up_to, exactly,
}

-- `keeps`: `lower` leaves the character as it is; `decimal`: the value of a digit. These three are asked beyond ASCII only.
pub record Platform : Type 0 where
  pub keeps : ℕ → Bool
  pub is_alnum : ℕ → Bool
  pub decimal : ℕ → Option ℕ
  pub b64decode : String → Option (List ℕ)
  pub sha256 : List ℕ → String

-- str.isspace and \s
abbrev pub is_space : ℕ → Bool
is_space c =
    within 9 13 c
    || within 28 32 c
    || eqb c 133
    || eqb c 160
    || eqb c 5760
    || within 8192 8202 c
    || within 8232 8233 c
    || eqb c 8239
    || eqb c 8287
    || eqb c 12288

-- not text.strip()
unfoldable pub is_blank : String → Bool
is_blank String.[] = true
is_blank (String.◌∷◌ c s) = is_space (code c) && is_blank s

unfoldable pub strip_right : (ℕ → Bool) → String → String
strip_right p String.[] = ""
strip_right p (String.◌∷◌ c s) =
    let rest = strip_right p s in if is_empty rest && p (code c) then "" else String.◌∷◌ c rest

unfoldable pub strip_left : (ℕ → Bool) → String → String
strip_left p String.[] = ""
strip_left p (String.◌∷◌ c s) =
    let rest = strip_left p s in if p (code c) then rest else String.◌∷◌ c s

-- text.strip()
abbrev pub strip : String → String
strip text = strip_right is_space (strip_left is_space text)

-- A letter of a pattern read with (?i), in small letters: also U+0130, U+0131, U+017F and U+212A.
abbrev pub cased : ℕ → ℕ → Bool
cased n c =
    eqb c n
    || (within 97 122 n && eqb (c + 32) n)
    || (eqb n 105 && within 304 305 c)
    || (eqb n 115 && eqb c 383)
    || (eqb n 107 && eqb c 8490)

unfoldable pub word : String → Re
word String.[] = nothing
word (String.◌∷◌ c s) = seq (one (cased (code c))) (word s)

unfoldable pub in_turn : List Re → Re
in_turn [] = nothing
in_turn (r ∷ rs) = seq r (in_turn rs)

abbrev pub text_start : Re
text_start = at (λ i j. elim i [ none ↦ true | some c ↦ false ])

abbrev line_start : Re
line_start = at (λ i j. elim i [ none ↦ true | some c ↦ eqb c 10 ])

abbrev pub spaces : Re
spaces = many is_space

-- [0-9a-f]
abbrev pub is_hex : ℕ → Bool
is_hex c = within 48 57 c || within 97 102 c

-- [0-9a-f]{n}
abbrev pub is_digest : ℕ → String → Bool
is_digest n text = full_match (exactly n is_hex) text

-- **human principal —, at the start of a line
abbrev pub banner : Re
banner =
    in_turn
      (line_start ∷ spaces ∷ word "**human principal" ∷ at_least_one is_space ∷ char 8212 ∷ [])

-- raw.lower() == raw
unfoldable pub is_lowered : (ℕ → Bool) → String → Bool
is_lowered keeps String.[] = true
is_lowered keeps (String.◌∷◌ c s) =
    (if ltb (code c) 128 then not (within 65 90 (code c)) else keeps (code c)) && is_lowered keeps s

-- text.lower() == "objective": U+0130, U+017F and the like do not become its letters.
unfoldable pub lowers_to : String → String → Bool
lowers_to String.[] String.[] = true
lowers_to String.[] (String.◌∷◌ d t) = false
lowers_to (String.◌∷◌ c s) String.[] = false
lowers_to (String.◌∷◌ c s) (String.◌∷◌ d t) =
    (eqb (code c) (code d) || (within 65 90 (code c) && eqb (code c + 32) (code d)))
    && lowers_to s t

module _ (platform : Platform) where
  -- \d
  abbrev pub is_digit : ℕ → Bool
  is_digit c = if ltb c 128 then within 48 57 c else is_some (platform.decimal c)

  -- \w
  abbrev pub is_word : ℕ → Bool
  is_word c =
      if ltb c 128
      then within 48 57 c || within 65 90 c || within 97 122 c || eqb c 95
      else platform.is_alnum c

  abbrev pub is_word_at : Option ℕ → Bool
  is_word_at none = false
  is_word_at (some c) = is_word c

  -- \b
  abbrev pub boundary : Re
  boundary = at (λ i j. if is_word_at i then not (is_word_at j) else is_word_at j)

  -- [\w.-]+
  abbrev pub slug : Re
  slug = at_least_one (λ c. is_word c || within 45 46 c)

  abbrev pub s_or_d : Re
  s_or_d = one (λ c. cased 115 c || cased 100 c)

  -- The parts of CLOSING_RE: the keyword, the gap, and the issue.
  abbrev pub keyword : Re
  keyword =
      alt (seq (word "close") (maybe s_or_d)) (
        alt (seq (word "fix") (maybe (seq (word "e") s_or_d)))
          (seq (word "resolve") (maybe s_or_d)))

  abbrev pub gap : Re
  gap = alt (in_turn (spaces ∷ char 58 ∷ spaces ∷ [])) (at_least_one is_space)

  abbrev pub numbered : Re
  numbered =
      in_turn (maybe (in_turn (slug ∷ char 47 ∷ slug ∷ [])) ∷ char 35 ∷ at_least_one is_digit ∷ [])

  abbrev pub linked : Re
  linked = in_turn (
      word "https://github.com/"
      ∷ slug
      ∷ char 47
      ∷ slug
      ∷ word "/issues/"
      ∷ at_least_one is_digit
      ∷ [])

  -- CLOSING_RE
  abbrev pub closing : Re
  closing = in_turn (alt text_start boundary ∷ keyword ∷ gap ∷ alt numbered linked ∷ [])

  -- OBJECTIVE_RE
  abbrev pub objective : Re
  objective =
      in_turn
        (text_start ∷ spaces ∷ maybe (char 91) ∷ word "objective" ∷ maybe (char 93) ∷ boundary ∷ [])

  abbrev evidence : Re
  evidence =
      alt (word "acceptance")
        (in_turn (word "done" ∷ maybe (one (λ c. eqb c 45 || eqb c 32)) ∷ word "when" ∷ []))

  -- ACCEPTANCE_RE
  abbrev pub acceptance : Re
  acceptance = in_turn (
      line_start
      ∷ spaces
      ∷ alt
          (in_turn (
            maybe (seq (one (λ c. eqb c 45 || eqb c 42)) spaces)
            ∷ evidence
            ∷ spaces
            ∷ char 58
            ∷ []))
          (in_turn (char 35 ∷ up_to 5 (eqb 35) ∷ spaces ∷ evidence ∷ boundary ∷ []))
      ∷ spaces
      ∷ at_least_one (λ c. not (is_space c))
      ∷ [])

  abbrev pub has_closing : String → Bool
  has_closing text = search closing text

  abbrev pub is_objective : String → Bool
  is_objective title = match_start objective title

  abbrev pub has_acceptance : String → Bool
  has_acceptance body = search acceptance body

abbrev pub has_banner : String → Bool
has_banner body = search banner body
