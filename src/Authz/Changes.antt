-- ===== src/Authz/Changes.antt =====
-- control/sjg_control/authz.py: `_safe_paths`, the checks of the files that a submission changes.
use Prim.Native.String.{◌++◌, count}
use scrum_jail_governance_pl.Base.{
  ℕ, String, ◌==◌, Bool, false, not, ◌&&◌, ◌||◌, Option, none, some, List, [], ◌∷◌, if◌then◌else◌,
  ltb, eqb, mem, subset, is_empty, strip_prefix, ends_with, is_some, length,
}
use scrum_jail_governance_pl.Json.{
  Value, Arguments, text, items, object, get, has_key, keys, text_or, as_object,
}
use scrum_jail_governance_pl.Authz.Denials.{
  Verdict, allowed, type_error, denied, rule, unsafe_path, deny_if,
}
use scrum_jail_governance_pl.Authz.Texts.{components, is_plain, is_absolute, is_canonical}
use scrum_jail_governance_pl.Authz.Patterns.{Platform, strip_right, is_digest}

unfoldable pub is_repository_path : String → Bool
unfolding components is_plain
is_repository_path raw =
    not (is_empty raw)
    && not (is_absolute raw)
    && not (mem ".." (components raw))
    && is_plain raw
    && is_canonical raw

-- any(path == prefix.rstrip("/") or path.startswith(prefix) for prefix in protected)
unfoldable pub is_protected : List String → String → Bool
unfolding strip_prefix strip_right
is_protected [] path = false
is_protected (prefix ∷ prefixes) path =
    path == strip_right (eqb 47) prefix
    || is_some (strip_prefix prefix path)
    || is_protected prefixes path

abbrev pub is_control_file : String → Bool
is_control_file path = path == ".gitmodules" || ends_with "/action.yml" path

abbrev pub path_of : Arguments → String
path_of change = text_or (get "path" change) ""

-- change.get("mode", "100644") not in {...}: a list or a dict is not hashable.
unfoldable pub check_mode : Arguments → Verdict → Verdict
check_mode change rest = if not (has_key "mode" change) then rest else elim (get "mode" change) [
  | text mode ↦
      deny_if (not (mem mode ("100644" ∷ "100755" ∷ [])))
        (rule "only regular file modes are allowed") rest
  | items vs shown ↦ type_error
  | object ms shown ↦ type_error
  | _ ↦ denied (rule "only regular file modes are allowed")
]

abbrev same_set : List String → List String → Bool
same_set ss ts = subset ss ts && subset ts ss

abbrev fields_of : String → List String
fields_of operation =
    if operation == "upsert"
    then "operation" ∷ "path" ∷ "mode" ∷ "sha256" ∷ "content_base64" ∷ []
    else "operation" ∷ "path" ∷ "mode" ∷ []

-- The content of an upsert.
unfoldable pub check_decoded : Platform → String → Option (List ℕ) → Verdict → Verdict
check_decoded platform digest none rest = denied (rule "repository content is not valid base64")
check_decoded platform digest (some decoded) rest =
    deny_if (ltb 2097152 (length decoded) || not (platform.sha256 decoded == digest))
      (rule "repository content size or digest is invalid") rest

unfoldable pub check_content : Platform → Arguments → Verdict → Verdict
unfolding check_decoded
check_content platform change rest =
    let digest = text_or (get "sha256" change) "" in
    elim (get "content_base64" change) [
      | text encoded ↦
          deny_if (ltb 2800000 (count encoded) || not (is_digest 64 digest))
            (rule "repository content metadata is invalid")
            (check_decoded platform digest (platform.b64decode encoded) rest)
      | _ ↦ denied (rule "repository content metadata is invalid")
    ]

-- The kind of the change and its fields.
unfoldable pub check_fields : Platform → Arguments → Verdict → Verdict
unfolding check_mode check_content
check_fields platform change rest =
    let operation = text_or (get "operation" change) "" in
    deny_if (not (mem operation ("upsert" ∷ "delete" ∷ [])))
      (rule "change operation must be upsert or delete")
      (check_mode change (
        deny_if (not (same_set (keys change) (fields_of operation)))
          (rule "repository change has missing or unknown fields")
          (if operation == "upsert" then check_content platform change rest else rest)))

-- One turn of the loop; `seen` are the paths before it and `rest` is what the others come to.
unfoldable pub check_change : Platform → List String → List String → Arguments → Verdict → Verdict
unfolding is_protected is_repository_path check_fields
check_change platform protected seen change rest =
    let raw = path_of change in
    deny_if (not (is_repository_path raw)) (unsafe_path raw) (
      deny_if (mem raw seen) (rule ("duplicate repository path: " ++ raw)) (
        deny_if (is_control_file raw || is_protected protected raw)
          (rule ("protected repository path: " ++ raw)) (check_fields platform change rest)))

unfoldable pub check_each : Platform → List String → List String → List Value → Verdict
unfolding check_change
check_each platform protected seen [] = allowed
check_each platform protected seen (value ∷ values) = elim (as_object value) [
  | none ↦ denied (rule "each repository change must be an object")
  | some change ↦
      check_change platform protected seen change
        (check_each platform protected (path_of change ∷ seen) values)
]

-- `paths` is none where it is no list.
unfoldable pub safe_paths : Platform → List String → Option (List Value) → Verdict
unfolding check_each
safe_paths platform protected none = denied (rule "repo.submit requires a non-empty changes list")
safe_paths platform protected (some []) =
    denied (rule "repo.submit requires a non-empty changes list")
safe_paths platform protected (some (value ∷ values)) =
    deny_if (ltb 200 (length (value ∷ values))) (rule "repo.submit exceeds 200 changed paths")
      (check_each platform protected [] (value ∷ values))
