-- ===== src/Policy/Delegation.antt =====
-- A compiled policy under `authorize`: control/sjg_control/policy.py with authz.py.
use scrum_jail_governance_pl.Base.{
  ℕ, String, ◌==◌, true, ◌&&◌, Option, none, some, List, [], ◌∷◌, ◌≡◌, arith, mem, same_texts,
  eq_iff, ◌∙◌, subst, Bool-cases, inl, inr,
}
use scrum_jail_governance_pl.Base.Table.{select}
use scrum_jail_governance_pl.Json.{Value, Arguments}
use scrum_jail_governance_pl.Session.{Session}
use scrum_jail_governance_pl.Policy.{RolePolicy, OrganizationPolicy}
use scrum_jail_governance_pl.Base.Raising.{made}
use scrum_jail_governance_pl.Policy.Roles.{expected_workers}
use scrum_jail_governance_pl.Policy.Compile.{compile_policy}
use scrum_jail_governance_pl.Policy.Canonical.{
  is_canonical, are_canonical, compile_policy-IsCompiled,
}
use scrum_jail_governance_pl.Authz.Denials.{allowed}
use scrum_jail_governance_pl.Authz.Patterns.{Platform}
use scrum_jail_governance_pl.Authz.Facts.{Facts}
use scrum_jail_governance_pl.Authz.Authorize.{authorize}
use scrum_jail_governance_pl.Authz.Authorize.Delegation.{worker_type_of, authorize-IsDelegation}

same_texts-mem :
    (s : String) (ss ts : List String) → same_texts ss ts ≡ true → mem s ss ≡ true → mem s ts ≡ true
unfolding same_texts mem
same_texts-mem s [] [] h m = m
same_texts-mem s [] (t ∷ ts) h m = absurd (ground (arith, h))
same_texts-mem s (u ∷ ss) [] h m = absurd (ground (arith, h))
same_texts-mem s (u ∷ ss) (t ∷ ts) h m = elim (Bool-cases (s == u)) [
  | inl here ↦
      let e : s ≡ t = (eq_iff s u).0 here ∙ (eq_iff u t).0 (ground (arith, h)) in
      ground (arith, (eq_iff s t).1 e)
  | inr other ↦
      ground (arith, same_texts-mem s ss ts (ground (arith, h)) (ground (arith, m, other)))
]

select-canonical :
    (budget : ℕ) (seen : List String) (rows : List RolePolicy) (role : String) (found : RolePolicy)
    → are_canonical budget seen rows ≡ true
    → select (λ (row : RolePolicy). row.role == role) rows ≡ some found
    → (is_canonical budget found && found.role == role) ≡ true
unfolding are_canonical select
select-canonical budget seen [] role found c e = absurd (ground (arith, e))
select-canonical budget seen (row ∷ rows) role found c e = elim (Bool-cases (row.role == role)) [
  | inl here ↦
      let same : some row ≡ some found = ground (arith, e, here) in
      subst
        (λ (o : Option RolePolicy). elim o [
          | none ↦ Unit
          | some r ↦ (is_canonical budget r && r.role == role) ≡ true
        ])
        same (ground (arith, c, here))
  | inr other ↦
      select-canonical budget (row.role ∷ seen) rows role found (ground (arith, c))
        (ground (arith, e, other))
]

-- Under a policy that `compile_policy` has made, a worker that `authorize` lets through is of a
-- type that the session's canonical role has, so the orchestrator and the governance reviewer have
-- none.
pub delegated_canonical :
    (platform : Platform) (digest : OrganizationPolicy → String) (source_commit : String)
    (document : Value) (policy : OrganizationPolicy) (session : Session) (arguments : Arguments)
    (facts : Option Facts)
    → compile_policy platform digest source_commit document ≡ made policy
    → authorize platform policy session "worker.run" arguments facts ≡ allowed
    → mem (worker_type_of arguments) (expected_workers session.role) ≡ true
delegated_canonical platform digest source_commit document policy session arguments facts c a =
    let compiled = compile_policy-IsCompiled platform digest source_commit document policy c in
    let d = authorize-IsDelegation platform policy session arguments facts a in
    let own =
      select-canonical policy.organization_daily_token_budget [] policy.roles session.role
        d.role_policy compiled.canonical d.has_role in
    subst (λ role. mem (worker_type_of arguments) (expected_workers role) ≡ true)
      ((eq_iff d.role_policy.role session.role).0 (ground (arith, own)))
      (same_texts-mem (worker_type_of arguments) d.role_policy.worker_types
        (expected_workers d.role_policy.role) (ground (arith, own)) d.own_type)
