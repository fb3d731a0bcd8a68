-- ===== src/Authz/Keywords.antt =====
-- What CLOSING_RE of control/sjg_control/authz.py finds: a keyword that closes an issue when a change is
-- merged, a gap, and the issue.
pub mod Words
pub mod Issues
pub mod Reads
pub mod Spots
use Prim.Native.Char.{Char, code}
use Prim.Native.String.{◌++◌}
use text.Mathlib.TextLemmas.{nil-append, cons-append, append-nil, append_assoc}
use scrum_jail_governance_pl.Base.{
  ◌↔◌, ℕ, String, Bool, true, false, not, ◌&&◌, ◌||◌, Option, none, some, [], ◌∷◌, ◌≡◌, refl, sym,
  ap, ◌∙◌, subst, arith, if◌then◌else◌, eqb, ltb,
}
use scrum_jail_governance_pl.Base.Regex.{
  Re, nothing, one, many, at, seq, alt, matches, take_one, anywhere, at_least_one, char, within,
  maybe, next,
}
use scrum_jail_governance_pl.Base.Regex.Takes.{
  last, Takes, all_chars, Takes-nothing, Takes-one, Takes-seq, Takes-left, Takes-right, Takes-many,
  Takes-at_least_one, Takes-last, Takes-without, search_past,
}
use scrum_jail_governance_pl.Authz.Patterns.{
  Platform, is_space, cased, word, in_turn, is_word, is_digit, is_word_at, text_start, boundary,
  spaces, slug, s_or_d, keyword, gap, numbered, linked, closing, has_closing,
}
use scrum_jail_governance_pl.Authz.Keywords.Words.{
  spells, Keyword, spelling, Takes-keyword, StartsWord, keyword-StartsWord,
}
use scrum_jail_governance_pl.Authz.Keywords.Issues.{
  Gap, gap_text, is_gap, Issue, issue_text, is_issue, Takes-gap, Takes-issue,
}
use scrum_jail_governance_pl.Base.Regex.Yields.{Yields, Both, Part, Yields-seq, search-Behind}
use scrum_jail_governance_pl.Authz.Keywords.Reads.{IsKeyword, Yields-keyword}
use scrum_jail_governance_pl.Authz.Keywords.Spots.{
  IsGap, IsIssue, Yields-last, Yields-gap, Yields-IsIssue, push,
}

module _ (platform : Platform) where
  next_is_word : (t u : String) → StartsWord platform t → is_word_at platform (next (t ++ u)) ≡ true
  next_is_word t u s =
      ap (λ v. is_word_at platform (next (v ++ u))) (sym s.split)
      ∙ ap (λ v. is_word_at platform (next v)) (cons-append s.first s.rest u)
      ∙ s.is_first_word

  at_boundary :
      (k : Option ℕ → String → Bool) (i : Option ℕ) (s : String)
      → is_word_at platform i ≡ false
      → is_word_at platform (next s) ≡ true
      → k i s ≡ true
      → matches (alt text_start (boundary platform)) k i s ≡ true
  unfolding matches
  at_boundary k i s before behind h = ground (arith, before, behind, h)

  -- CLOSING_RE behind its first part.
  abbrev mention : Re
  mention =
      in_turn (keyword platform ∷ gap platform ∷ alt (numbered platform) (linked platform) ∷ [])

  Takes-mention :
      (written : String) (w : Keyword) (g : Gap) (issue : Issue) (d : Char)
      → spells (spelling w) written ≡ true
      → is_gap g ≡ true
      → is_issue platform issue ≡ true
      → is_digit platform (code d) ≡ true
      → Takes mention (written ++ (gap_text g ++ issue_text issue d))
  unfolding in_turn
  Takes-mention written w g issue d spelled gapped named digit =
      let either = alt (numbered platform) (linked platform) in
      Takes-seq (keyword platform) (seq (gap platform) (seq either nothing)) written
        (gap_text g ++ issue_text issue d) (Takes-keyword platform w written spelled)
        (Takes-seq (gap platform) (seq either nothing) (gap_text g) (issue_text issue d)
          (Takes-gap platform g gapped)
          (Takes-last either (issue_text issue d) (Takes-issue platform issue d named digit)))

  begins :
      (written more after : String) (w : Keyword)
      → spells (spelling w) written ≡ true
      → is_word_at platform (next ((written ++ more) ++ after)) ≡ true
  begins written more after w spelled =
      ap (λ v. is_word_at platform (next v)) (append_assoc written more after)
      ∙ next_is_word written (more ++ after) (keyword-StartsWord platform w written spelled)

  -- A mention with a keyword is found, whatever stands before and after.
  has_closing_finds :
      (before written after : String) (w : Keyword) (g : Gap) (issue : Issue) (d : Char)
      → is_word_at platform (last none before) ≡ false
      → spells (spelling w) written ≡ true
      → is_gap g ≡ true
      → is_issue platform issue ≡ true
      → is_digit platform (code d) ≡ true
      → has_closing platform (before ++ ((written ++ (gap_text g ++ issue_text issue d)) ++ after))
        ≡ true
  unfolding in_turn matches
  has_closing_finds before written after w g issue d apart spelled gapped named digit =
      let more = gap_text g ++ issue_text issue d in
      search_past (closing platform) none before ((written ++ more) ++ after) (
        at_boundary (matches mention anywhere) (last none before) ((written ++ more) ++ after) apart
          (begins written more after w spelled)
          (Takes-mention written w g issue d spelled gapped named digit anywhere (last none before)
            after refl))

-- A mention of an issue with a keyword that closes it, somewhere in the text: the keyword, in letters of
-- either case and with no word character in front, a gap, and the issue with a digit of its number.
pub record Mention (platform : Platform) (text : String) : Type 0 where
  pub before : String
  pub written : String
  pub after : String
  pub keyword : Keyword
  pub gap : Gap
  pub issue : Issue
  pub digit : Char
  pub joined : before ++ ((written ++ (gap_text gap ++ issue_text issue digit)) ++ after) ≡ text
  pub apart : is_word_at platform (last none before) ≡ false
  pub spelled : spells (spelling keyword) written ≡ true
  pub gapped : is_gap gap ≡ true
  pub named : is_issue platform issue ≡ true
  pub counted : is_digit platform (code digit) ≡ true

module _ (platform : Platform) where
  -- What the first part of CLOSING_RE leaves.
  opening :
      (k : Option ℕ → String → Bool) (i : Option ℕ) (s : String)
      → matches (alt text_start (boundary platform)) k i s ≡ true
      → (k i s ≡ true) × ((is_word_at platform i && is_word_at platform (next s)) ≡ false)
  unfolding matches
  opening k none s h = (ground (arith, h), refl)
  opening k (some c) s h = (ground (arith, h), ground (arith, h))

  abbrev IsMention : String → Type 0
  IsMention = Both IsKeyword (Both IsGap (IsIssue platform))

  Yields-mention : Yields (mention platform) IsMention
  unfolding in_turn
  Yields-mention = Yields-seq (keyword platform) _ IsKeyword _ (Yields-keyword platform) (
      Yields-seq (gap platform) _ IsGap (IsIssue platform) (Yields-gap platform) (
        Yields-last (alt (numbered platform) (linked platform)) (IsIssue platform)
          (Yields-IsIssue platform)))

  -- A word character behind, so none in front.
  front : (a b : Bool) → (a && b) ≡ false → b ≡ true → a ≡ false
  front a b h e = ground (arith, h, e)

  respelled :
      (kw : String) (g : Gap) (space issued : String) (issue : Issue) (d : Char)
      (more taken : String)
      → gap_text g ≡ space
      → issue_text issue d ++ more ≡ issued
      → kw ++ (space ++ issued) ≡ taken
      → (kw ++ (gap_text g ++ issue_text issue d)) ++ more ≡ taken
  respelled kw g space issued issue d more taken e f h =
      push kw (gap_text g ++ issue_text issue d) (gap_text g ++ issued) more
        (push (gap_text g) (issue_text issue d) issued more f)
      ∙ ap (λ u. kw ++ (u ++ issued)) e
      ∙ h

  found-Mention :
      (before here text : String)
      → before ++ here ≡ text
      → (is_word_at platform (last none before) && is_word_at platform (next here)) ≡ false
      → Part IsMention anywhere (last none before) here
      → Mention platform text
  found-Mention before here text e sides part =
      let kw = part.is in
      let end = kw.is_second in
      let spot = end.is_second in
      let body = gap_text end.is_first.gap ++ issue_text spot.issue spot.digit in
      let whole =
        respelled kw.first end.is_first.gap end.first end.second spot.issue spot.digit spot.more
          part.taken end.is_first.written spot.written
          (ap (λ u. kw.first ++ u) end.split ∙ kw.split) in
      let joined =
        sym (append_assoc (kw.first ++ body) spot.more part.rest)
        ∙ ap (λ u. u ++ part.rest) whole
        ∙ part.joined in
      record {
        before = before;
        written = kw.first;
        after = spot.more ++ part.rest;
        keyword = kw.is_first.keyword;
        gap = end.is_first.gap;
        issue = spot.issue;
        digit = spot.digit;
        joined = ap (λ u. before ++ u) joined ∙ e;
        apart =
            front (is_word_at platform (last none before)) (is_word_at platform (next here)) sides (
              ap (λ u. is_word_at platform (next u)) (sym joined)
              ∙ begins platform kw.first body (spot.more ++ part.rest) kw.is_first.keyword
                  kw.is_first.spelled);
        spelled = kw.is_first.spelled;
        gapped = end.is_first.fits;
        named = spot.fits;
        counted = spot.counts;
      }

  -- The search for issue-closing keywords finds one in a text exactly if the text has somewhere,
  -- with no word character in front, one of close, closes, closed, fix, fixes, fixed, resolve,
  -- resolves and resolved, in letters of either case, then blanks or a colon among blanks, and then
  -- an issue with a digit of its number: alone, with its repository, or in its address on
  -- github.com.
  pub has_closing_exact :
      (text : String) → (has_closing platform text ≡ true) ↔ Mention platform text
  unfolding in_turn matches
  has_closing_exact text = (
    λ h.
        let b = search-Behind (closing platform) none text h in
        let (rest, sides) =
          opening (matches (mention platform) anywhere) (last none b.before) b.here b.found in
        found-Mention b.before b.here text b.joined sides
          (Yields-mention anywhere (last none b.before) b.here rest),
    λ m.
        ap (λ u. has_closing platform u) (sym m.joined)
        ∙ has_closing_finds platform m.before m.written m.after m.keyword m.gap m.issue m.digit
            m.apart m.spelled m.gapped m.named m.counted,
  )
