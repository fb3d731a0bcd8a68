-- ===== src/Authz/Matrix.antt =====
-- The matrix ROLE_CAPABILITIES of control/sjg_control/authz.py.
use scrum_jail_governance_pl.Base.{
  String, ◌==◌, Bool, true, false, not, ◌&&◌, List, [], ◌∷◌, ◌≡◌, refl, arith, mem, subset,
  Bool-cases, subst, sym, eq_iff, inl, inr,
}
use scrum_jail_governance_pl.Authz.{
  operations, human_only_operations, role_capabilities, operation_arguments, entry, capabilities,
}

-- Every name of the table passes the test.
abbrev pub all_pass : (String → Bool) → List String → Bool
all_pass p [] = true
all_pass p (s ∷ ss) = p s && all_pass p ss

abbrev table_passes : (String → Bool) → List (String × List String) → Bool
table_passes p [] = true
table_passes p ((k, names) ∷ rest) = all_pass p names && table_passes p rest

pub mem-passes :
    (p : String → Bool) (x : String) (ss : List String)
    → all_pass p ss ≡ true
    → mem x ss ≡ true
    → p x ≡ true
unfolding mem
mem-passes p x [] a h = cc
mem-passes p x (s ∷ ss) a h = elim (Bool-cases (x == s)) [
  | inl same ↦ subst (λ u. p u ≡ true) (sym ((eq_iff x s).0 same)) (ground (arith, a))
  | inr other ↦ mem-passes p x ss (ground (arith, a)) (ground (arith, other, h))
]

entry-passes :
    (p : String → Bool) (role : String) (table : List (String × List String))
    → table_passes p table ≡ true
    → all_pass p (entry table role) ≡ true
unfolding entry
entry-passes p role [] a = refl
entry-passes p role ((k, names) ∷ rest) a = ground (arith, a, entry-passes p role rest)

-- What an operation of the matrix is.
abbrev pub is_agent_operation : String → Bool
is_agent_operation op =
    mem op operations
    && not (mem op human_only_operations)
    && mem "repository" (entry operation_arguments op)

matrix_passes : table_passes is_agent_operation role_capabilities ≡ true
unfolding mem entry subset
matrix_passes = refl

-- An operation that some role is capable of is one of the agents' operations, is none of the
-- human's, and declares a repository among its arguments.
pub capabilities_closed :
    (role op : String)
    → mem op (capabilities role) ≡ true
    → (mem op operations ≡ true)
      × (mem op human_only_operations ≡ false)
      × (mem "repository" (entry operation_arguments op) ≡ true)
capabilities_closed role op h =
    let all =
      mem-passes is_agent_operation op (capabilities role)
        (entry-passes is_agent_operation role role_capabilities matrix_passes) h in
    ground (arith, all)
