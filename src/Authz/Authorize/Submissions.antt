-- ===== src/Authz/Authorize/Submissions.antt =====
-- Submissions under `authorize` of control/sjg_control/authz.py.
use scrum_jail_governance_pl.Base.{
  ℕ, ◌+◌, String, Bool, true, false, not, ◌&&◌, Option, none, some, List, [], ◌∷◌, ◌≡◌, refl, arith,
  mem, leb, ltb, length, Option-cases, inl, inr,
}
use scrum_jail_governance_pl.Json.{Value, Arguments, get, text_or, as_list, as_object}
use scrum_jail_governance_pl.Session.{Session}
use scrum_jail_governance_pl.Policy.{OrganizationPolicy, RolePolicy}
use scrum_jail_governance_pl.Authz.Denials.{Verdict, allowed, passed, deny_if}
use scrum_jail_governance_pl.Authz.Texts.{safe_topic}
use scrum_jail_governance_pl.Authz.Patterns.{Platform, is_digest}
use scrum_jail_governance_pl.Authz.Changes.{
  is_repository_path, is_protected, is_control_file, path_of, check_mode, check_decoded,
  check_content, check_fields, check_change, check_each, safe_paths,
}
use scrum_jail_governance_pl.Authz.Facts.{Facts}
use scrum_jail_governance_pl.Authz.Authorize.{
  branch_of, other_branch, facts_or_bare, check_topic, check_submit, check_operation, authorize,
}
use scrum_jail_governance_pl.Authz.Authorize.Passing.{authorize-Passes}

-- The paths that a submission names; a change that is no object names none.
unfoldable pub paths_of : List Value → List String
paths_of [] = []
paths_of (value ∷ values) = elim (as_object value) [
  | none ↦ paths_of values
  | some change ↦ path_of change ∷ paths_of values
]

-- A relative path of the repository that is not protected.
abbrev pub is_open_path : List String → String → Bool
is_open_path protected path =
    is_repository_path path && not (is_control_file path) && not (is_protected protected path)

-- No path of the list is refused, and none is in `seen` or comes twice.
unfoldable pub are_open : List String → List String → List String → Bool
are_open protected seen [] = true
are_open protected seen (path ∷ paths) =
    is_open_path protected path && not (mem path seen) && are_open protected (path ∷ seen) paths

pub record IsSubmission (policy : OrganizationPolicy) (session : Session) (arguments : Arguments)
    : Type 0 where
  pub topic : String
  pub has_topic : safe_topic (get "topic" arguments) ≡ some topic
  pub own_branch : other_branch (get "branch" arguments) (branch_of session topic) ≡ false
  pub based : is_digest 40 (text_or (get "base_oid" arguments) "") ≡ true
  pub changes : List Value
  pub listed : as_list (get "changes" arguments) ≡ some changes
  pub bounded : (ltb 0 (length changes) && leb (length changes) 200) ≡ true
  pub open_paths : are_open policy.protected_submission_paths [] (paths_of changes) ≡ true

mode-passed :
    (change : Arguments) (rest : Verdict) → check_mode change rest ≡ allowed → rest ≡ allowed
unfolding check_mode deny_if
mode-passed change rest e = ground (arith, e)

decoded-passed :
    (platform : Platform) (digest : String) (decoded : Option (List ℕ)) (rest : Verdict)
    → check_decoded platform digest decoded rest ≡ allowed
    → rest ≡ allowed
unfolding check_decoded deny_if
decoded-passed platform digest none rest e = absurd (ground (arith, e))
decoded-passed platform digest (some decoded) rest e = ground (arith, e)

content-passed :
    (platform : Platform) (change : Arguments) (rest : Verdict)
    → check_content platform change rest ≡ allowed
    → rest ≡ allowed
unfolding check_content deny_if
content-passed platform change rest e = ground (
  arith,
  e,
  λ (d : Option (List ℕ)). decoded-passed platform (text_or (get "sha256" change) "") d rest,
)

fields-passed :
    (platform : Platform) (change : Arguments) (rest : Verdict)
    → check_fields platform change rest ≡ allowed
    → rest ≡ allowed
unfolding check_fields
fields-passed platform change rest e =
    let (kind, e) = passed _ _ _ e in
    let (fields, e) = passed _ _ _ (mode-passed _ _ e) in
    ground (arith, e, content-passed platform change rest)

-- What is checked after `check_change` for a change.
change-passed :
    (platform : Platform) (protected seen : List String) (change : Arguments) (rest : Verdict)
    → check_change platform protected seen change rest ≡ allowed
    → ((is_open_path protected (path_of change) && not (mem (path_of change) seen)) ≡ true)
      × (rest ≡ allowed)
unfolding check_change
change-passed platform protected seen change rest e =
    let (plain, e) = passed _ _ _ e in
    let (new, e) = passed _ _ _ e in
    let (open_path, e) = passed _ _ _ e in
    (ground (arith, plain, open_path, new), fields-passed platform change rest e)

each-open :
    (platform : Platform) (protected seen : List String) (values : List Value)
    → check_each platform protected seen values ≡ allowed
    → are_open protected seen (paths_of values) ≡ true
unfolding check_each are_open paths_of
each-open platform protected seen [] e = refl
each-open platform protected seen (value ∷ values) e = elim (Option-cases (as_object value)) [
  | inl none_found ↦ absurd (ground (arith, e, none_found))
  | inr (change, found) ↦
      let (ok, e) =
        change-passed platform protected seen change
          (check_each platform protected (path_of change ∷ seen) values)
          (ground (arith, e, found)) in
      ground (arith, found, ok, each-open platform protected (path_of change ∷ seen) values e)
]

counted : (n : ℕ) → ltb 200 (1 + n) ≡ false → (ltb 0 (1 + n) && leb (1 + n) 200) ≡ true
counted n h = ground (arith, h)

paths-checked :
    (platform : Platform) (protected : List String) (changes : List Value)
    → safe_paths platform protected (some changes) ≡ allowed
    → ((ltb 0 (length changes) && leb (length changes) 200) ≡ true)
      × (are_open protected [] (paths_of changes) ≡ true)
unfolding safe_paths length
paths-checked platform protected [] e = absurd (ground (arith, e))
paths-checked platform protected (value ∷ values) e =
    let (few, e) = passed _ _ _ e in
    (counted (length values) few, each-open platform protected [] (value ∷ values) e)

-- A submission passes only with changes.
unlisted :
    (platform : Platform) (protected : List String)
    → safe_paths platform protected none ≡ allowed
    → ⊥
unfolding safe_paths
unlisted platform protected e = ground (arith, e)

module _ (platform : Platform) (policy : OrganizationPolicy) (session : Session)
    (arguments : Arguments) where
  listed-IsSubmission :
      (topic : String) (changes : Option (List Value))
      → safe_topic (get "topic" arguments) ≡ some topic
      → other_branch (get "branch" arguments) (branch_of session topic) ≡ false
      → is_digest 40 (text_or (get "base_oid" arguments) "") ≡ true
      → as_list (get "changes" arguments) ≡ changes
      → safe_paths platform policy.protected_submission_paths changes ≡ allowed
      → IsSubmission policy session arguments
  listed-IsSubmission topic none t o b l e =
      absurd (unlisted platform policy.protected_submission_paths e)
  listed-IsSubmission topic (some changes) t o b l e =
      let (few, paths) = paths-checked platform policy.protected_submission_paths changes e in
      record {
        topic = topic;
        has_topic = t;
        own_branch = o;
        based = b;
        changes = changes;
        listed = l;
        bounded = few;
        open_paths = paths;
      }

  topic-IsSubmission :
      (topic : Option String)
      → safe_topic (get "topic" arguments) ≡ topic
      → check_topic platform policy session arguments topic ≡ allowed
      → IsSubmission policy session arguments
  unfolding check_topic
  topic-IsSubmission none t e = absurd (ground (arith, e))
  topic-IsSubmission (some topic) t e =
      let (branch, e) = passed _ _ _ e in
      let (based, e) = passed _ _ _ e in
      let (fits, e) = passed _ _ _ e in
      let (quiet, e) = passed _ _ _ e in
      listed-IsSubmission topic (as_list (get "changes" arguments)) t branch (ground (arith, based))
        refl e

  submission-checked :
      (rp : RolePolicy) (facts : Facts)
      → check_operation platform policy rp session "repo.submit" arguments facts ≡ allowed
      → check_submit platform policy session arguments ≡ allowed
  unfolding check_operation
  submission-checked rp facts e = e

-- A submission that `authorize` lets through names a branch only if it is the one of its own role
-- and topic, is based on a full commit id, and changes at most 200 files, and at least one, each
-- once, under relative paths that stay in the repository and are not protected.
pub authorize-IsSubmission :
    (platform : Platform) (policy : OrganizationPolicy) (session : Session) (arguments : Arguments)
    (facts : Option Facts)
    → authorize platform policy session "repo.submit" arguments facts ≡ allowed
    → IsSubmission policy session arguments
unfolding check_submit mem
authorize-IsSubmission platform policy session arguments facts e =
    let p = authorize-Passes platform policy session "repo.submit" arguments facts e refl in
    topic-IsSubmission platform policy session arguments (safe_topic (get "topic" arguments)) refl (
      submission-checked platform policy session arguments p.role_policy (facts_or_bare facts)
        p.checked)
