-- ===== src/Authz/Keywords/Issues.antt =====
-- What follows a keyword in CLOSING_RE of control/sjg_control/authz.py: a gap, and an issue.
use Prim.Native.Char.{Char, code}
use Prim.Native.String.{◌++◌}
use scrum_jail_governance_pl.Base.{
  ℕ, String, Bool, true, false, ◌&&◌, ◌||◌, [], ◌∷◌, ◌≡◌, refl, arith, eqb,
}
use scrum_jail_governance_pl.Base.Regex.{nothing, alt, at_least_one, char, within, maybe}
use scrum_jail_governance_pl.Base.Regex.Takes.{
  Takes, all_chars, Takes-one, Takes-seq, Takes-left, Takes-right, Takes-many, Takes-at_least_one,
  Takes-last, Takes-without,
}
use scrum_jail_governance_pl.Authz.Patterns.{
  Platform, is_space, word, in_turn, is_word, is_digit, spaces, slug, gap, numbered, linked,
}
use scrum_jail_governance_pl.Authz.Keywords.Words.{spells, Takes-word}

-- Blanks, the first one named; or a colon with blanks around it.
pub data Gap : Type 0 where
  blanks : Char → String → Gap
  colon : String → String → Gap

abbrev pub gap_text : Gap → String
gap_text (blanks c s) = String.◌∷◌ c s
gap_text (colon s t) = s ++ (":" ++ t)

abbrev pub is_gap : Gap → Bool
is_gap (blanks c s) = is_space (code c) && all_chars is_space s
is_gap (colon s t) = all_chars is_space s && all_chars is_space t

-- An issue of the repository, of another one, or by its address, up to the first digit of its number.
pub data Issue : Type 0 where
  local : Issue
  inside : String → String → Issue
  by_address : String → String → String → String → Issue

abbrev pub issue_text : Issue → Char → String
issue_text local d = "#" ++ String.◌∷◌ d ""
issue_text (inside owner name) d = (owner ++ ("/" ++ name)) ++ ("#" ++ String.◌∷◌ d "")
issue_text (by_address site owner name path) d =
    site ++ (owner ++ ("/" ++ (name ++ (path ++ String.◌∷◌ d ""))))

-- A word character, a dot or a dash.
abbrev is_name_char : Platform → ℕ → Bool
is_name_char platform c = is_word platform c || within 45 46 c

abbrev pub is_name : Platform → String → Bool
is_name platform String.[] = false
is_name platform (String.◌∷◌ c s) =
    is_name_char platform (code c) && all_chars (is_name_char platform) s

abbrev pub is_issue : Platform → Issue → Bool
is_issue platform local = true
is_issue platform (inside owner name) = is_name platform owner && is_name platform name
is_issue platform (by_address site owner name path) =
    spells "https://github.com/" site
    && is_name platform owner
    && is_name platform name
    && spells "/issues/" path

module _ (platform : Platform) where
  Takes-blanks :
      (c : Char) (s : String)
      → is_space (code c) ≡ true
      → all_chars is_space s ≡ true
      → Takes (gap platform) (String.◌∷◌ c s)
  Takes-blanks c s e f =
      Takes-right (in_turn (spaces ∷ char 58 ∷ spaces ∷ [])) (at_least_one is_space)
        (String.◌∷◌ c s) (Takes-at_least_one is_space c s e f)

  Takes-colon :
      (s t : String)
      → all_chars is_space s ≡ true
      → all_chars is_space t ≡ true
      → Takes (gap platform) (s ++ (":" ++ t))
  unfolding in_turn
  Takes-colon s t e f = Takes-left _ (at_least_one is_space) _ (
      Takes-seq spaces _ s _ (Takes-many is_space s e) (
        Takes-seq (char 58) _ ":" t (Takes-one (eqb 58) ":" refl)
          (Takes-last spaces t (Takes-many is_space t f))))

  both : (a b : Bool) → (a && b) ≡ true → (a ≡ true) × (b ≡ true)
  both a b h = ground (arith, h)

  pub Takes-gap : (g : Gap) → is_gap g ≡ true → Takes (gap platform) (gap_text g)
  Takes-gap (blanks c s) e =
      let (x, y) = both (is_space (code c)) (all_chars is_space s) e in Takes-blanks c s x y
  Takes-gap (colon s t) e =
      let (x, y) = both (all_chars is_space s) (all_chars is_space t) e in Takes-colon s t x y

  Takes-slug : (s : String) → is_name platform s ≡ true → Takes (slug platform) s
  Takes-slug String.[] e = absurd (ground (arith, e))
  Takes-slug (String.◌∷◌ c s) e =
      Takes-at_least_one (is_name_char platform) c s (ground (arith, e)) (ground (arith, e))

  Takes-digit :
      (d : Char)
      → is_digit platform (code d) ≡ true
      → Takes (in_turn (at_least_one (is_digit platform) ∷ [])) (String.◌∷◌ d "")
  unfolding in_turn all_chars
  Takes-digit d e = Takes-last _ _ (Takes-at_least_one (is_digit platform) d "" e refl)

  pub Takes-issue :
      (issue : Issue) (d : Char)
      → is_issue platform issue ≡ true
      → is_digit platform (code d) ≡ true
      → Takes (alt (numbered platform) (linked platform)) (issue_text issue d)
  unfolding in_turn
  Takes-issue local d e digit = Takes-left _ _ _ (
      Takes-without _ _ _
        (Takes-seq (char 35) _ "#" _ (Takes-one (eqb 35) "#" refl) (Takes-digit d digit)))
  Takes-issue (inside owner name) d e digit = Takes-left _ _ _ (
      Takes-seq (maybe _) _ (owner ++ ("/" ++ name)) _
        (Takes-left _ nothing _ (
          Takes-seq (slug platform) _ owner _ (Takes-slug owner (ground (arith, e))) (
            Takes-seq (char 47) _ "/" name (Takes-one (eqb 47) "/" refl)
              (Takes-last (slug platform) name (Takes-slug name (ground (arith, e)))))))
        (Takes-seq (char 35) _ "#" _ (Takes-one (eqb 35) "#" refl) (Takes-digit d digit)))
  Takes-issue (by_address site owner name path) d e digit = Takes-right _ _ _ (
      Takes-seq (word "https://github.com/") _ site _
        (Takes-word "https://github.com/" site (ground (arith, e)))
        (Takes-seq (slug platform) _ owner _ (Takes-slug owner (ground (arith, e))) (
          Takes-seq (char 47) _ "/" _ (Takes-one (eqb 47) "/" refl) (
            Takes-seq (slug platform) _ name _ (Takes-slug name (ground (arith, e))) (
              Takes-seq (word "/issues/") _ path _ (Takes-word "/issues/" path (ground (arith, e)))
                (Takes-digit d digit))))))
