-- ===== src/Store/Agents/Admission.antt =====
-- What the two admissions, `create_session` and `reserve_worker`, check and what they add.
use scrum_jail_governance_pl.Base.{
  ℕ, ◌+◌, ◌≤◌, ◌<◌, String, ◌==◌, true, false, ◌||◌, or_else, ◌≡◌, refl, List, [], ◌∷◌, arith,
  eq_iff, ℤ, pos, Option, none, some, ◌⊎◌, inl, inr, subst, Bool-cases,
}
use scrum_jail_governance_pl.Base.Table.{select, count, exists}
use scrum_jail_governance_pl.Base.Table.Laws.{All, All-mono, select-none, exists_mono}
use scrum_jail_governance_pl.Store.Schema.{Store, WakeSession, WorkerAttempt}
use scrum_jail_governance_pl.Store.Sessions.{
  Birth, new_session, session_row, by_session_id, worker_of, parents, workers, same_role,
  create_session,
}
use scrum_jail_governance_pl.Store.Workers.{reserve_worker, new_attempt, usable_session, of_session}
use scrum_jail_governance_pl.Store.Agents.{agents}
use scrum_jail_governance_pl.Store.Agents.Fewer.{IsLinked, AllLinked, Fewer}

-- What a successful `create_session` has checked.
pub create_effect :
    (org_id role digest : String) (aliases : List String) (wake_id : Option String) (ttl : ℤ)
    (limit : ℕ) (birth : Birth) (s : Store)
    → let row = session_row (new_session org_id role digest aliases wake_id birth) birth.now in
      let s' = (create_session org_id role digest aliases wake_id ttl (pos limit) birth s).1 in
      (s' ≡ s)
      ⊎ ((s' ≡ record s { sessions = row ∷ s.sessions })
          × (same_role org_id role s ≡ 0)
          × (parents org_id s + workers org_id s < limit)
          × (exists (by_session_id row.session_id) s.sessions ≡ false))
unfolding create_session
create_effect org_id role digest aliases wake_id ttl limit birth s = ground (
  arith,
  exists_mono (by_session_id birth.fresh_session)
      (λ (old : WakeSession).
        old.session_id == birth.fresh_session || old.wake_id == or_else wake_id birth.fresh_wake)
      s.sessions (λ x h. ground arith),
)

-- What a successful `reserve_worker` has checked, of the session that it has found.
pub reserve_effect :
    (session_id worker_type : String) (cumulative concurrent : ℤ) (limit : ℕ) (fresh now : String)
    (s : Store) (row : WakeSession)
    → select (usable_session session_id now) s.sessions ≡ some row
    → let s' =
        (reserve_worker session_id worker_type cumulative concurrent (pos limit) fresh now s).1 in
      (s' ≡ s)
      ⊎ ((s' ≡ record s {
        workers =
            new_attempt fresh session_id worker_type (count (of_session session_id) s.workers) now
            ∷ s.workers;
      })
          × (parents row.org_id s + workers row.org_id s < limit))
unfolding reserve_worker
reserve_effect session_id worker_type cumulative concurrent limit fresh now s row e = ground arith

pub reserve_refused :
    (session_id worker_type : String) (cumulative concurrent global : ℤ) (fresh now : String)
    (s : Store)
    → select (usable_session session_id now) s.sessions ≡ none
    → (reserve_worker session_id worker_type cumulative concurrent global fresh now s).1 ≡ s
unfolding reserve_worker
reserve_refused session_id worker_type cumulative concurrent global fresh now s e = ground arith

-- What every history of calls keeps, from any database that has it.
pub record IsAdmitted (limit : ℕ) (s : Store) : Type 0 where
  pub linked : AllLinked s
  pub capped : (org_id : String) → agents org_id s ≤ limit
  pub one_parent : (org_id role : String) → same_role org_id role s ≤ 1
  pub keyed : (session_id : String) → count (by_session_id session_id) s.sessions ≤ 1

pub Fewer-IsAdmitted :
    (limit : ℕ) (s s' : Store) → Fewer s s' → IsAdmitted limit s → IsAdmitted limit s'
Fewer-IsAdmitted limit s s' f a = record {
  linked = f.linked a.linked;
  capped = λ o. omega (arith, f.parents_le o, f.workers_le o, a.capped o);
  one_parent = λ o r. omega (arith, f.roles_le o r, a.one_parent o r);
  keyed = λ k. omega (arith, f.keys_le k, a.keyed k);
}

-- A worker's session is an old one, so a session with a fresh key takes no worker with it.
pub worker_of-fresh :
    (row : WakeSession) (sessions : List WakeSession) (org_id : String) (w : WorkerAttempt)
    → exists (by_session_id row.session_id) sessions ≡ false
    → IsLinked sessions w
    → worker_of (row ∷ sessions) org_id w ≡ worker_of sessions org_id w
unfolding select
worker_of-fresh row sessions org_id w fresh linked =
    elim (Bool-cases (row.session_id == w.session_id)) [
      | inl same ↦ absurd (
          differ (
            subst (λ k. exists (by_session_id k) sessions ≡ false)
              ((eq_iff row.session_id w.session_id).0 same) fresh))
      | inr other ↦ ground arith
    ]
  where
    differ : exists (by_session_id w.session_id) sessions ≡ false → ⊥
    differ e = cc

pub workers-fresh :
    (row : WakeSession) (sessions : List WakeSession) (org_id : String) (ws : List WorkerAttempt)
    → exists (by_session_id row.session_id) sessions ≡ false
    → All (IsLinked sessions) ws
    → count (worker_of (row ∷ sessions) org_id) ws ≡ count (worker_of sessions org_id) ws
unfolding count
workers-fresh row sessions org_id [] fresh linked = refl
workers-fresh row sessions org_id (w ∷ ws) fresh linked = ground (
  arith,
  worker_of-fresh row sessions org_id w fresh linked.0,
  workers-fresh row sessions org_id ws fresh linked.1,
)

pub IsLinked-fresh :
    (row : WakeSession) (sessions : List WakeSession) (w : WorkerAttempt)
    → IsLinked sessions w
    → IsLinked (row ∷ sessions) w
unfolding select
IsLinked-fresh row sessions w linked = ground arith

module _ (limit : ℕ) (s : Store) (row : WakeSession) where
  unfoldable pub opened : Store
  opened = record s { sessions = row ∷ s.sessions }

  pub opened-IsAdmitted :
      parents row.org_id s + workers row.org_id s < limit
      → same_role row.org_id row.role s ≡ 0
      → exists (by_session_id row.session_id) s.sessions ≡ false
      → IsAdmitted limit s
      → IsAdmitted limit opened
  unfolding opened count
  opened-IsAdmitted room alone fresh a = record {
    linked = All-mono _ _ s.workers (IsLinked-fresh row s.sessions) a.linked;
    capped = λ o.
        ground
          (arith, workers-fresh row s.sessions o s.workers fresh a.linked, a.capped o, at_org o);
    one_parent = λ o r. ground (arith, a.one_parent o r, at_role o r);
    keyed = λ k. ground (arith, a.keyed k, at_key k);
  }
    where
      no_row :
          (k : String)
          → exists (by_session_id k) s.sessions ≡ false
          → select (by_session_id k) s.sessions ≡ none
      no_row k e = ground arith

      at_org : (o : String) → (row.org_id == o) ≡ true → parents o s + workers o s < limit
      at_org o e = subst (λ k. parents k s + workers k s < limit) ((eq_iff row.org_id o).0 e) room

      at_key : (k : String) → (row.session_id == k) ≡ true → count (by_session_id k) s.sessions ≡ 0
      at_key k e = select-none _ s.sessions (
          no_row k (
            subst (λ j. exists (by_session_id j) s.sessions ≡ false) ((eq_iff row.session_id k).0 e)
              fresh))

      at_role :
          (o r : String) → (row.org_id == o) ≡ true → (row.role == r) ≡ true → same_role o r s ≡ 0
      at_role o r e e' =
          subst (λ k. same_role k r s ≡ 0) ((eq_iff row.org_id o).0 e)
            (subst (λ k. same_role row.org_id k s ≡ 0) ((eq_iff row.role r).0 e') alone)

module _ (limit : ℕ) (s : Store) (row : WakeSession) (w : WorkerAttempt) where
  unfoldable pub hired : Store
  hired = record s { workers = w ∷ s.workers }

  pub hired-IsAdmitted :
      IsLinked s.sessions w
      → ((o : String) → worker_of s.sessions o w ≡ true → parents o s + workers o s < limit)
      → IsAdmitted limit s
      → IsAdmitted limit hired
  unfolding hired count
  hired-IsAdmitted linked room a = record {
    linked = (linked, a.linked);
    capped = λ o. ground (arith, a.capped o, room o);
    one_parent = λ o r. a.one_parent o r;
    keyed = λ k. a.keyed k;
  }
