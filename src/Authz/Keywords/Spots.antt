-- ===== src/Authz/Keywords/Spots.antt =====
-- What a match of the end of CLOSING_RE of control/sjg_control/authz.py says: a gap and an issue.
use Prim.Native.Char.{Char, code}
use Prim.Native.String.{◌++◌}
use text.Mathlib.TextLemmas.{nil-append, cons-append, append-nil, append_assoc}
use text.Mathlib.TextEquality.{Char-path}
use scrum_jail_governance_pl.Base.{
  ℕ, String, Bool, true, ◌&&◌, ◌||◌, [], ◌∷◌, ◌≡◌, refl, sym, ap, ◌∙◌, subst, arith, ◌⊎◌, inl, inr,
  eqb,
}
use scrum_jail_governance_pl.Base.Regex.{Re, nothing, one, seq, alt, at_least_one, char, within}
use scrum_jail_governance_pl.Base.Regex.Takes.{all_chars}
use scrum_jail_governance_pl.Base.Regex.Yields.{
  Yields, Both, IsOne, IsSome, Yields-nothing, Yields-one, Yields-seq, Yields-map, Yields-alt,
  Yields-many, Yields-at_least_one,
}
use scrum_jail_governance_pl.Authz.Patterns.{
  Platform, is_space, word, in_turn, is_word, is_digit, spaces, slug, gap, numbered, linked,
}
use scrum_jail_governance_pl.Authz.Keywords.Words.{spells}
use scrum_jail_governance_pl.Authz.Keywords.Reads.{Yields-word}
use scrum_jail_governance_pl.Authz.Keywords.Issues.{
  Gap, blanks, colon, gap_text, is_gap, Issue, local, inside, by_address, issue_text, is_name,
  is_issue,
}

pub record IsGap (t : String) : Type 0 where
  pub gap : Gap
  pub written : gap_text gap ≡ t
  pub fits : is_gap gap ≡ true

pub record IsIssue (platform : Platform) (t : String) : Type 0 where
  pub issue : Issue
  pub digit : Char
  pub more : String
  pub written : issue_text issue digit ++ more ≡ t
  pub fits : is_issue platform issue ≡ true
  pub counts : is_digit platform (code digit) ≡ true

pub Yields-last : (r : Re) (P : String → Type 0) → Yields r P → Yields (seq r nothing) P
Yields-last r P y =
    Yields-map (seq r nothing) (Both P (λ t. t ≡ "")) P
      (λ t x.
        subst P (sym (append-nil x.first) ∙ ap (λ u. x.first ++ u) (sym x.is_second) ∙ x.split)
          x.is_first)
      (Yields-seq r nothing P _ y Yields-nothing)

-- One character, of which the code is known.
abbrev Is : Char → String → Type 0
Is c t = String.◌∷◌ c "" ≡ t

eqb_sound : (m n : ℕ) → eqb m n ≡ true → m ≡ n
eqb_sound m n h = ground (arith, h)

Yields-char : (c : Char) → Yields (one (eqb (code c))) (Is c)
Yields-char c =
    Yields-map (one (eqb (code c))) (IsOne (eqb (code c))) (Is c)
      (λ t x.
        ap (λ d. String.◌∷◌ d "")
          (Char-path c x.letter (eqb_sound (code c) (code x.letter) x.allowed))
        ∙ x.alone)
      (Yields-one (eqb (code c)))

abbrev Blank : String → Type 0
Blank t = all_chars is_space t ≡ true

ands : (a b : Bool) → a ≡ true → b ≡ true → (a && b) ≡ true
ands a b e f = ground (arith, e, f)

with_colon : (t : String) → Both Blank (Both (Is ":") Blank) t → IsGap t
with_colon t x = record {
  gap = colon x.first x.is_second.second;
  written =
      ap (λ u. x.first ++ (u ++ x.is_second.second)) x.is_second.is_first
      ∙ ap (λ u. x.first ++ u) x.is_second.split
      ∙ x.split;
  fits =
      ands (all_chars is_space x.first) (all_chars is_space x.is_second.second) x.is_first
        x.is_second.is_second;
}

of_blanks : (t : String) → IsSome is_space t → IsGap t
of_blanks t x = record {
  gap = blanks x.head x.tail;
  written = x.split;
  fits = ands (is_space (code x.head)) (all_chars is_space x.tail) x.is_head x.is_tail;
}

-- A text in front of a part that goes on.
pub push : (a u v more : String) → u ++ more ≡ v → (a ++ u) ++ more ≡ a ++ v
push a u v more e = append_assoc a u more ∙ ap (λ w. a ++ w) e

module _ (platform : Platform) where
  pub Yields-gap : Yields (gap platform) IsGap
  unfolding in_turn
  Yields-gap =
      Yields-alt _ _ IsGap
        (Yields-map (in_turn (spaces ∷ char 58 ∷ spaces ∷ [])) _ IsGap with_colon (
          Yields-seq spaces _ Blank _ (Yields-many is_space) (
            Yields-seq (char 58) _ (Is ":") _ (Yields-char ":")
              (Yields-last spaces Blank (Yields-many is_space)))))
        (Yields-map (at_least_one is_space) _ IsGap of_blanks (Yields-at_least_one is_space))

  abbrev Name : String → Type 0
  Name t = is_name platform t ≡ true

  Yields-slug : Yields (slug platform) Name
  Yields-slug =
      Yields-map (slug platform) _ Name
        (λ t x.
          subst Name x.split
            (ands (name_char (code x.head)) (all_chars name_char x.tail) x.is_head x.is_tail))
        (Yields-at_least_one name_char)
    where
      name_char : ℕ → Bool
      name_char c = is_word platform c || within 45 46 c

  abbrev Number : String → Type 0
  Number = IsSome (is_digit platform)

  Yields-Number : Yields (in_turn (at_least_one (is_digit platform) ∷ [])) Number
  unfolding in_turn
  Yields-Number = Yields-last _ Number (Yields-at_least_one (is_digit platform))

  -- The number's first digit, and what follows it.
  digits : (t : String) (x : Number t) → String.◌∷◌ x.head "" ++ x.tail ≡ t
  digits t x = cons-append x.head "" x.tail ∙ ap (String.◌∷◌ x.head) (nil-append x.tail) ∙ x.split

  abbrev Hash : String → Type 0
  Hash = Both (Is "#") Number

  hash : (t : String) (x : Hash t) → ("#" ++ String.◌∷◌ x.is_second.head "") ++ x.is_second.tail ≡ t
  hash t x =
      push "#" (String.◌∷◌ x.is_second.head "") x.second x.is_second.tail
        (digits x.second x.is_second)
      ∙ ap (λ u. u ++ x.second) x.is_first
      ∙ x.split

  abbrev Slugs : String → Type 0
  Slugs = Both Name (Both (Is "/") Name)

  slugs : (t : String) (x : Slugs t) → x.first ++ ("/" ++ x.is_second.second) ≡ t
  slugs t x =
      ap (λ u. x.first ++ (u ++ x.is_second.second)) x.is_second.is_first
      ∙ ap (λ u. x.first ++ u) x.is_second.split
      ∙ x.split

  of_numbered : (t : String) → Both (λ u. Slugs u ⊎ (u ≡ "")) Hash t → IsIssue platform t
  of_numbered t x = elim x.is_first [
    | inl s ↦ record {
      issue = inside s.first s.is_second.second;
      digit = x.is_second.is_second.head;
      more = x.is_second.is_second.tail;
      written =
          push (s.first ++ ("/" ++ s.is_second.second))
            ("#" ++ String.◌∷◌ x.is_second.is_second.head "") x.second x.is_second.is_second.tail
            (hash x.second x.is_second)
          ∙ ap (λ u. u ++ x.second) (slugs x.first s)
          ∙ x.split;
      fits =
          ands (is_name platform s.first) (is_name platform s.is_second.second) s.is_first
            s.is_second.is_second;
      counts = x.is_second.is_second.is_head;
    }
    | inr e ↦ record {
      issue = local;
      digit = x.is_second.is_second.head;
      more = x.is_second.is_second.tail;
      written =
          hash x.second x.is_second
          ∙ sym (nil-append x.second)
          ∙ ap (λ u. u ++ x.second) (sym e)
          ∙ x.split;
      fits = refl;
      counts = x.is_second.is_second.is_head;
    }
  ]

  abbrev Link : String → Type 0
  Link =
      Both (λ u. spells "https://github.com/" u ≡ true)
        (Both Name (Both (Is "/") (Both Name (Both (λ u. spells "/issues/" u ≡ true) Number))))

  four : (a b c d : Bool) → a ≡ true → b ≡ true → c ≡ true → d ≡ true → (a && b && c && d) ≡ true
  four a b c d e f g h = ground (arith, e, f, g, h)

  of_linked : (t : String) → Link t → IsIssue platform t
  of_linked t x =
      let owner = x.is_second in
      let slash = owner.is_second in
      let name = slash.is_second in
      let path = name.is_second in
      let number = path.is_second in
      let d = String.◌∷◌ number.head "" in
      record {
        issue = by_address x.first owner.first name.first path.first;
        digit = number.head;
        more = number.tail;
        written =
            push x.first (owner.first ++ ("/" ++ (name.first ++ (path.first ++ d)))) x.second
              number.tail
              (push owner.first ("/" ++ (name.first ++ (path.first ++ d))) owner.second number.tail
                  (push "/" (name.first ++ (path.first ++ d)) slash.second number.tail (
                      push name.first (path.first ++ d) name.second number.tail (
                        push path.first d path.second number.tail (digits path.second number)
                        ∙ path.split)
                      ∙ name.split)
                    ∙ ap (λ u. u ++ slash.second) slash.is_first
                    ∙ slash.split)
                ∙ owner.split)
            ∙ x.split;
        fits =
            four (spells "https://github.com/" x.first) (is_name platform owner.first)
              (is_name platform name.first) (spells "/issues/" path.first) x.is_first owner.is_first
              name.is_first path.is_first;
        counts = number.is_head;
      }

  pub Yields-IsIssue : Yields (alt (numbered platform) (linked platform)) (IsIssue platform)
  unfolding in_turn
  Yields-IsIssue =
      Yields-alt _ _ (IsIssue platform)
        (Yields-map (numbered platform) _ (IsIssue platform) of_numbered (
          Yields-seq _ _ (λ u. Slugs u ⊎ (u ≡ "")) Hash
            (Yields-alt _ nothing (λ u. Slugs u ⊎ (u ≡ ""))
              (Yields-map _ Slugs _ (λ u s. inl s)
                (Yields-seq (slug platform) _ Name _ Yields-slug (
                  Yields-seq (char 47) _ (Is "/") Name (Yields-char "/")
                    (Yields-last (slug platform) Name Yields-slug))))
              (Yields-map nothing (λ u. u ≡ "") _ (λ u e. inr e) Yields-nothing))
            (Yields-seq (char 35) _ (Is "#") Number (Yields-char "#") Yields-Number)))
        (Yields-map (linked platform) _ (IsIssue platform) of_linked (
          Yields-seq (word "https://github.com/") _ _ _ (Yields-word "https://github.com/") (
            Yields-seq (slug platform) _ Name _ Yields-slug (
              Yields-seq (char 47) _ (Is "/") _ (Yields-char "/") (
                Yields-seq (slug platform) _ Name _ Yields-slug (
                  Yields-seq (word "/issues/") _ _ Number (Yields-word "/issues/")
                    Yields-Number))))))
