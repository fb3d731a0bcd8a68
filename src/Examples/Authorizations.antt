-- ===== src/Examples/Authorizations.antt =====
-- Requests that `authorize` of control/sjg_control/authz.py lets through.
use scrum_jail_governance_pl.Base.{
  ◌↔◌, true, false, none, some, [], ◌∷◌, ◌≡◌, refl, mem, strip_prefix, length, subset,
}
use scrum_jail_governance_pl.Json.{
  Arguments, Value, Items, Members, text, items, object, get, has_key, members_of, values_of,
}
use scrum_jail_governance_pl.Session.{Session}
use scrum_jail_governance_pl.Authz.Denials.{allowed, deny_if}
use scrum_jail_governance_pl.Authz.{validate_request, entry}
use scrum_jail_governance_pl.Authz.Facts.{Facts, bare_facts, stage_order}
use scrum_jail_governance_pl.Authz.Authorize.{
  authorize, facts_or_bare, check_pr, check_submit, check_worker,
}
use scrum_jail_governance_pl.Authz.Authorize.Passing.{authorize_informed}
use scrum_jail_governance_pl.Authz.Authorize.Stages.{
  IsMove, IsClosing, authorize-IsMove, authorize-IsClosing,
}
use scrum_jail_governance_pl.Authz.Authorize.Creation.{IsCreation, authorize-IsCreation}
use scrum_jail_governance_pl.Authz.Authorize.Pulls.{IsReview, authorize-IsReview}
use scrum_jail_governance_pl.Authz.Authorize.Submissions.{IsSubmission, authorize-IsSubmission}
use scrum_jail_governance_pl.Authz.Authorize.Delegation.{IsDelegation, authorize-IsDelegation}
use scrum_jail_governance_pl.Authz.Patterns.{has_closing}
use scrum_jail_governance_pl.Authz.Keywords.{Mention, has_closing_exact}
use scrum_jail_governance_pl.Examples.Requests.{policy, platform, implementer}
use scrum_jail_governance_pl.Base.Table.{filter, select}
use scrum_jail_governance_pl.Authz.Rules.{check_close, check_create, check_forward, check_move}
use scrum_jail_governance_pl.Authz.Patterns.{in_turn, strip_left, strip_right, word}
use scrum_jail_governance_pl.Base.Regex.{exactly, matches, search_from}
use scrum_jail_governance_pl.Authz.Texts.{is_topic, is_worker_path}
use scrum_jail_governance_pl.Base.Text.{ends_with}

abbrev owned : Facts
owned = record (bare_facts true) {
  issue_kind = some "story";
  owner_role = some "software-implementer";
  current_stage = some "Todo";
  has_open_children = some false;
  evidence_valid = some true;
  parent_kind = some "feature";
}

abbrev move : Arguments
move = ("repository", text "org") ∷ ("id", text "7") ∷ ("to", text "Demo") ∷ []

move_passes : authorize platform policy implementer "pm.issue.move" move (some owned) ≡ allowed
unfolding authorize mem validate_request deny_if entry filter select get check_move check_forward
    stage_order
move_passes = refl

authorize-IsMove_example : IsMove implementer "Demo" owned
unfolding get
authorize-IsMove_example = authorize-IsMove platform policy implementer move owned move_passes

authorize_informed_example : (facts_or_bare (some owned)).complete ≡ true
unfolding strip_prefix
authorize_informed_example =
    authorize_informed platform policy implementer "pm.issue.move" move (some owned) refl
      move_passes

abbrev done : Arguments
done = ("repository", text "org") ∷ ("id", text "7") ∷ []

done_passes : authorize platform policy implementer "pm.issue.done" done (some owned) ≡ allowed
unfolding authorize mem validate_request deny_if entry filter select get check_close
done_passes = refl

authorize-IsClosing_example : IsClosing implementer true done owned
authorize-IsClosing_example =
    authorize-IsClosing platform policy implementer done owned true done_passes

abbrev story : Arguments
story =
    ("repository", text "org")
    ∷ ("kind", text "story")
    ∷ ("title", text "Sort the rows")
    ∷ ("body", text "Done when: they are sorted")
    ∷ []

story_passes : authorize platform policy implementer "pm.issue.create" story (some owned) ≡ allowed
unfolding authorize mem validate_request deny_if entry filter select get check_create strip_right
    strip_left matches in_turn word search_from values_of
story_passes = refl

authorize-IsCreation_example : IsCreation platform policy implementer story owned
authorize-IsCreation_example =
    authorize-IsCreation platform policy implementer story owned story_passes

abbrev reviewer : Session
reviewer = record implementer { role = "governance-reviewer" }

abbrev opened : Facts
opened = record (bare_facts true) {
  pr_head_role = some "software-implementer";
  pr_open = some true;
}

abbrev review : Arguments
review = ("repository", text "org") ∷ ("id", text "9") ∷ ("body", text "See #4.") ∷ []

review_passes : authorize platform policy reviewer "pr.review" review (some opened) ≡ allowed
unfolding authorize mem validate_request deny_if entry filter select get check_pr search_from
    has_key in_turn word
review_passes = refl

authorize-IsReview_example : IsReview platform policy reviewer review opened
authorize-IsReview_example = authorize-IsReview platform policy reviewer review opened review_passes

abbrev deletion : Value
deletion =
    object
      (Members.member "operation" (text "delete") (
        Members.member "path" (text "docs/old.md")
          (Members.member "mode" (text "100644") Members.end)))
      "{...}"

abbrev submission : Arguments
submission =
    ("repository", text "org")
    ∷ ("topic", text "tidy-docs")
    ∷ ("base_oid", text "0123456789abcdef0123456789abcdef01234567")
    ∷ ("message", text "Remove old notes")
    ∷ ("changes", items (Items.cons deletion Items.nil) "[...]")
    ∷ []

submission_passes : authorize platform policy implementer "repo.submit" submission none ≡ allowed
unfolding authorize mem validate_request deny_if entry filter select get check_submit is_topic
    matches exactly search_from in_turn word values_of length members_of ends_with has_key subset
submission_passes = refl

authorize-IsSubmission_example : IsSubmission policy implementer submission
authorize-IsSubmission_example =
    authorize-IsSubmission platform policy implementer submission none submission_passes

abbrev source : Value
source = items (Items.cons (text "lib/sort.py") Items.nil) "[...]"

abbrev work : Arguments
work =
    ("repository", text "org")
    ∷ ("type", text "implementer")
    ∷ ("task", text "Sort the rows")
    ∷ ("readPaths", source)
    ∷ ("writePaths", source)
    ∷ []

work_passes : authorize platform policy implementer "worker.run" work none ≡ allowed
unfolding authorize mem validate_request deny_if entry filter select get check_worker values_of
    is_worker_path subset has_key
work_passes = refl

authorize-IsDelegation_example : IsDelegation policy implementer work
authorize-IsDelegation_example =
    authorize-IsDelegation platform policy implementer work none work_passes

-- A keyword in front of an issue is found, the end of a longer word is not.
keyword_found : has_closing platform "This fixes: #4." ≡ true
unfolding search_from matches in_turn word
keyword_found = refl

suffix_passed : has_closing platform "The prefixes #4." ≡ false
unfolding search_from matches in_turn word
suffix_passed = refl

has_closing_exact_example :
    (has_closing platform "Done.\nFIXES : acme/site#42, at last." ≡ true)
    ↔ Mention platform "Done.\nFIXES : acme/site#42, at last."
has_closing_exact_example = has_closing_exact platform "Done.\nFIXES : acme/site#42, at last."
