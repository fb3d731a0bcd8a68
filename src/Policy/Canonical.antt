-- ===== src/Policy/Canonical.antt =====
-- What `compile_policy` of control/sjg_control/policy.py lets through.
use scrum_jail_governance_pl.Base.{
  ℕ, ◌+◌, String, Bool, true, not, ◌&&◌, ◌||◌, Option, none, some, List, [], ◌∷◌, ◌≡◌, refl, arith,
  ℤ, pos, negsuc, not_positive, is_negative, to_ℕ, leb, ltb, mem, subset, same_texts, length, subst,
}
use scrum_jail_governance_pl.Json.{Value, Arguments}
use scrum_jail_governance_pl.Policy.{RolePolicy, OrganizationPolicy}
use scrum_jail_governance_pl.Base.Raising.{made, made_first, made_test, made_same, require_as}
use scrum_jail_governance_pl.Policy.Roles.{
  required_roles, executing_roles, expected_workers, expected_repositories, exceeds, role_in,
  check_identity, workers_of, scope_of, compile_role, compile_roles,
}
use scrum_jail_governance_pl.Policy.Compile.{
  Head, compile_policy, check_head, compile_agents, sum_concurrent, is_number, roles_of,
}
use scrum_jail_governance_pl.Authz.Patterns.{Platform}

-- The worker types and numbers of the canonical role.
abbrev pub has_workers : RolePolicy → Bool
has_workers row =
    same_texts row.worker_types (expected_workers row.role)
    && leb row.max_workers_concurrent row.max_workers_per_wake

-- The canonical role, within the organization's budget.
abbrev pub is_canonical : ℕ → RolePolicy → Bool
is_canonical budget row =
    mem row.role executing_roles
    && has_workers row
    && same_texts row.repositories (expected_repositories row.role)
    && ltb 0 row.daily_token_budget
    && leb row.daily_token_budget budget

-- Every row is canonical, and no role is in `seen` or comes twice.
unfoldable pub are_canonical : ℕ → List String → List RolePolicy → Bool
are_canonical budget seen [] = true
are_canonical budget seen (row ∷ rows) =
    is_canonical budget row
    && not (mem row.role seen)
    && are_canonical budget (row.role ∷ seen) rows

limits_of :
    (per_wake concurrent : ℤ)
    → (not (is_negative per_wake || is_negative concurrent) && not (exceeds concurrent per_wake))
      ≡ true
    → leb (to_ℕ concurrent) (to_ℕ per_wake) ≡ true
limits_of (pos a) (pos b) h = ground (arith, h)
limits_of (pos a) (negsuc b) h = absurd (ground (arith, h))
limits_of (negsuc a) b h = absurd (ground (arith, h))

budget_of :
    (tokens budget : ℤ)
    → (not (not_positive tokens) && not (exceeds tokens budget)) ≡ true
    → (ltb 0 (to_ℕ tokens) && leb (to_ℕ tokens) (to_ℕ budget)) ≡ true
budget_of (pos a) (pos b) h = ground (arith, h)
budget_of (pos a) (negsuc b) h = absurd (ground (arith, h))
budget_of (negsuc a) b h = absurd (ground (arith, h))

workers_of-canonical :
    (platform : Platform) (role : String) (fields : Arguments) (w : List String × ℤ × ℤ)
    → workers_of platform role fields ≡ made w
    → (same_texts w.0 (expected_workers role) && leb (to_ℕ w.2) (to_ℕ w.1)) ≡ true
unfolding workers_of
workers_of-canonical platform role fields w e =
    let (workers, found, e) = made_first _ _ _ e in
    let (types, listed, e) = made_first _ _ _ e in
    let (known, e) = made_test _ _ _ _ e in
    let (per_wake, p, e) = made_first _ _ _ e in
    let (concurrent, c, e) = made_first _ _ _ e in
    let (limits, e) = made_test _ _ _ _ e in
    let (agreed, e) = made_test _ _ _ _ e in
    let (same, e) = made_test _ _ _ _ e in
    subst
      (λ (w : List String × ℤ × ℤ).
        (same_texts w.0 (expected_workers role) && leb (to_ℕ w.2) (to_ℕ w.1)) ≡ true)
      (made_same _ _ e) (ground (arith, same, limits_of per_wake concurrent limits))

scope_of-canonical :
    (platform : Platform) (budget : ℤ) (role : String) (fields : Arguments) (s : List String × ℤ)
    → scope_of platform budget role fields ≡ made s
    → (same_texts s.0 (expected_repositories role)
        && ltb 0 (to_ℕ s.1)
        && leb (to_ℕ s.1) (to_ℕ budget))
      ≡ true
unfolding scope_of
scope_of-canonical platform budget role fields s e =
    let (aliases, listed, e) = made_first _ _ _ e in
    let (same, e) = made_test _ _ _ _ e in
    let (tokens, t, e) = made_first _ _ _ e in
    let (paid, e) = made_test _ _ _ _ e in
    subst
      (λ (s : List String × ℤ).
        (same_texts s.0 (expected_repositories role)
          && ltb 0 (to_ℕ s.1)
          && leb (to_ℕ s.1) (to_ℕ budget))
        ≡ true)
      (made_same _ _ e) (ground (arith, same, budget_of tokens budget paid))

-- The role is an executing one, and new.
check_identity-known :
    (seen : List String) (role : String) (u : Unit)
    → check_identity seen role ≡ made u
    → (mem role executing_roles && not (mem role seen)) ≡ true
unfolding check_identity require_as
check_identity-known seen role u e =
    let (known, e) = made_test _ _ _ _ e in ground (arith, known, e)

compile_role-canonical :
    (platform : Platform) (budget : ℤ) (seen : List String) (raw : Value) (row : RolePolicy)
    → compile_role platform budget seen raw ≡ made row
    → (is_canonical (to_ℕ budget) row && not (mem row.role seen)) ≡ true
unfolding compile_role
compile_role-canonical platform budget seen raw row e =
    let (mapping, e) = made_test _ _ _ _ e in
    let (fields, f, e) = made_first _ _ _ e in
    let (u, known, e) = made_first _ _ _ e in
    let (workers, w, e) = made_first _ _ _ e in
    let (scope, s, e) = made_first _ _ _ e in
    subst (λ (row : RolePolicy). (is_canonical (to_ℕ budget) row && not (mem row.role seen)) ≡ true)
      (made_same _ _ e)
      (ground (
        arith,
        check_identity-known seen (role_in fields) u known,
        workers_of-canonical platform (role_in fields) fields workers w,
        scope_of-canonical platform budget (role_in fields) fields scope s,
      ))

compile_roles-canonical :
    (platform : Platform) (budget : ℤ) (seen : List String) (values : List Value)
    (rows : List RolePolicy)
    → compile_roles platform budget seen values ≡ made rows
    → are_canonical (to_ℕ budget) seen rows ≡ true
unfolding compile_roles are_canonical
compile_roles-canonical platform budget seen [] rows e =
    subst (λ rows. are_canonical (to_ℕ budget) seen rows ≡ true) (made_same _ _ e) refl
compile_roles-canonical platform budget seen (raw ∷ values) rows e =
    let (row, r, e) = made_first _ _ _ e in
    let (rest, t, e) = made_first _ _ _ e in
    subst (λ rows. are_canonical (to_ℕ budget) seen rows ≡ true) (made_same _ _ e)
      (ground (
        arith,
        compile_role-canonical platform budget seen raw row r,
        compile_roles-canonical platform budget (row.role ∷ seen) values rest t,
      ))

-- A compiled policy.
pub record IsCompiled (policy : OrganizationPolicy) : Type 0 where
  pub canonical : are_canonical policy.organization_daily_token_budget [] policy.roles ≡ true
  pub complete : subset required_roles (roles_of policy.roles) ≡ true
  pub counted : policy.global_max_agents ≡ length policy.roles + sum_concurrent policy.roles
  pub funded : ltb 0 policy.organization_daily_token_budget ≡ true

number_of : (agents : ℤ) (n : ℕ) → is_number agents n ≡ true → to_ℕ agents ≡ n
number_of (pos a) n h = ground (arith, h)
number_of (negsuc a) n h = absurd (ground (arith, h))

positive_of : (budget : ℤ) → not (not_positive budget) ≡ true → ltb 0 (to_ℕ budget) ≡ true
positive_of (pos a) h = ground (arith, h)
positive_of (negsuc a) h = absurd (ground (arith, h))

compile_agents-canonical :
    (platform : Platform) (budget agents : ℤ) (values : Option (List Value))
    (rows : List RolePolicy)
    → compile_agents platform budget agents values ≡ made rows
    → (are_canonical (to_ℕ budget) [] rows ≡ true)
      × (subset required_roles (roles_of rows) ≡ true)
      × (to_ℕ agents ≡ length rows + sum_concurrent rows)
unfolding compile_agents
compile_agents-canonical platform budget agents none rows e = absurd (ground (arith, e))
compile_agents-canonical platform budget agents (some values) rows e =
    let (found, r, e) = made_first _ _ _ e in
    let (required, e) = made_test _ _ _ _ e in
    let (counted, e) = made_test _ _ _ _ e in
    subst
      (λ rows.
        (are_canonical (to_ℕ budget) [] rows ≡ true)
        × (subset required_roles (roles_of rows) ≡ true)
        × (to_ℕ agents ≡ length rows + sum_concurrent rows))
      (made_same _ _ e)
      (
        compile_roles-canonical platform budget [] values found r,
        required,
        number_of agents (length found + sum_concurrent found) counted,
      )

check_head-funded :
    (head : Head) (u : Unit) → check_head head ≡ made u → not (not_positive head.budget) ≡ true
unfolding check_head
check_head-funded head u e =
    let (id, e) = made_test _ _ _ _ e in
    let (principal, e) = made_test _ _ _ _ e in
    let (version, e) = made_test _ _ _ _ e in
    let (tree, e) = made_test _ _ _ _ e in let (budget, e) = made_test _ _ _ _ e in budget

-- A policy that `compile_policy` makes has distinct executing roles, the required ones among them,
-- each with the workers and the repositories of its canonical role, no more concurrent workers than
-- workers in a wake, and a positive budget within the organization's positive one; its cap on
-- agents is the number of its roles and their concurrent workers.
pub compile_policy-IsCompiled :
    (platform : Platform) (digest : OrganizationPolicy → String) (source_commit : String)
    (document : Value) (policy : OrganizationPolicy)
    → compile_policy platform digest source_commit document ≡ made policy
    → IsCompiled policy
unfolding compile_policy
compile_policy-IsCompiled platform digest source_commit document policy e =
    let (mapping, e) = made_test _ _ _ _ e in
    let (fields, f, e) = made_first _ _ _ e in
    let (head, h, e) = made_first _ _ _ e in
    let (u, checked, e) = made_first _ _ _ e in
    let (repositories, r, e) = made_first _ _ _ e in
    let (roles, a, e) = made_first _ _ _ e in
    let (workflows, w, e) = made_first _ _ _ e in
    let (manual, e) = made_test _ _ _ _ e in
    let (canonical, complete, counted) =
      compile_agents-canonical platform head.budget head.agents _ roles a in
    subst IsCompiled (made_same _ _ e) (record {
      canonical = canonical;
      complete = complete;
      counted = counted;
      funded = positive_of head.budget (check_head-funded head u checked);
    })
