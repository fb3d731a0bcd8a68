-- ===== src/Store/Agents/Fewer.antt =====
-- The calls that close sessions and workers never add an agent.
use scrum_jail_governance_pl.Base.{
  ◌≤◌, String, ◌==◌, Bool, true, false, ◌&&◌, ◌≡◌, refl, List, arith, ◌⊎◌, inl, inr, subst, sym,
  if◌then◌else◌,
}
use scrum_jail_governance_pl.Base.Table.{count, update, exists}
use scrum_jail_governance_pl.Base.Table.Laws.{
  All, All-update, All-mono, count-update_le, count_le, exists-update,
}
use scrum_jail_governance_pl.Store.Schema.{Store, WakeSession, WorkerAttempt, SessionState}
use scrum_jail_governance_pl.Store.Sessions.{
  is_active, is_live, active_session, by_session_id, parents, workers, same_role, set_session_state,
  fail_workers, doubt_reservation, terminate_wake, revoke_session, finish_session,
  force_terminate_session, reap_expired_session,
}
use scrum_jail_governance_pl.Store.Workers.{succeed_attempt, fail_attempt}

-- Every worker's session is in the table: its REFERENCES clause.
abbrev pub IsLinked : List WakeSession → WorkerAttempt → Type 0
IsLinked sessions row = exists (by_session_id row.session_id) sessions ≡ true

abbrev pub AllLinked : Store → Type 0
AllLinked s = All (IsLinked s.sessions) s.workers

-- From `s` to `s'` no count that an admission makes has grown.
pub record Fewer (s s' : Store) : Type 0 where
  pub parents_le : (org_id : String) → parents org_id s' ≤ parents org_id s
  pub workers_le : (org_id : String) → workers org_id s' ≤ workers org_id s
  pub roles_le : (org_id role : String) → same_role org_id role s' ≤ same_role org_id role s
  pub keys_le :
      (session_id : String)
      → count (by_session_id session_id) s'.sessions ≤ count (by_session_id session_id) s.sessions
  pub linked : AllLinked s → AllLinked s'

pub Fewer-refl : (s : Store) → Fewer s s
Fewer-refl s = record {
  parents_le = λ o. omega arith;
  workers_le = λ o. omega arith;
  roles_le = λ o r. omega arith;
  keys_le = λ k. omega arith;
  linked = λ h. h;
}

pub Fewer-trans : (s t u : Store) → Fewer s t → Fewer t u → Fewer s u
Fewer-trans s t u f g = record {
  parents_le = λ o. omega (arith, f.parents_le o, g.parents_le o);
  workers_le = λ o. omega (arith, f.workers_le o, g.workers_le o);
  roles_le = λ o r. omega (arith, f.roles_le o r, g.roles_le o r);
  keys_le = λ k. omega (arith, f.keys_le k, g.keys_le k);
  linked = λ h. g.linked (f.linked h);
}

-- Closing sessions: the new state is not 'active', and the rows keep their keys.
pub set_session_state-Fewer :
    (session_id : String) (state : SessionState) (s : Store)
    → is_active state ≡ false
    → Fewer s (set_session_state session_id state s)
set_session_state-Fewer session_id state s closed = record {
  parents_le = λ o. count-update_le _ _ _ s.sessions (λ x q p. ground arith);
  workers_le = λ o. count_le _ _ s.workers (λ w h. ground (
    arith,
    exists-update (λ ws. ws.session_id == w.session_id && ws.org_id == o)
        (active_session session_id) (λ row. record row { state = state }) s.sessions (λ x q. refl),
  ));
  roles_le = λ o r. count-update_le _ _ _ s.sessions (λ x q p. ground arith);
  keys_le = λ k. count-update_le _ _ _ s.sessions (λ x q p. p);
  linked = λ h.
      All-mono _ _ s.workers
        (λ w l. ground (
          arith,
          exists-update (by_session_id w.session_id) (active_session session_id)
              (λ row. record row { state = state }) s.sessions (λ x q. refl),
        ))
        h;
}

-- Ending workers: the new state is not live, and the rows keep their session.
pub workers-Fewer :
    (q : WorkerAttempt → Bool) (f : WorkerAttempt → WorkerAttempt) (s : Store)
    → ((x : WorkerAttempt) → (is_live (f x).state ≡ false) × ((f x).session_id ≡ x.session_id))
    → Fewer s (record s { workers = update q f s.workers })
workers-Fewer q f s ends = record {
  parents_le = λ o. omega arith;
  workers_le = λ o. count-update_le _ _ _ s.workers (λ x e p. ground (arith, ends x));
  roles_le = λ o r. omega arith;
  keys_le = λ k. omega arith;
  linked = λ h.
      All-update _ q f s.workers
        (λ x e l. subst (λ k. exists (by_session_id k) s.sessions ≡ true) (sym (ends x).1) l) h;
}

-- Reservations and wakes are not counted.
others-Fewer :
    (session_id now : String) (s : Store)
    → Fewer s (terminate_wake session_id now (doubt_reservation session_id s))
others-Fewer session_id now s = record {
  parents_le = λ o. omega arith;
  workers_le = λ o. omega arith;
  roles_le = λ o r. omega arith;
  keys_le = λ k. omega arith;
  linked = λ h. h;
}

terminated : String → SessionState → String → Store → Store
terminated session_id state now s =
    set_session_state session_id state
      (terminate_wake session_id now (doubt_reservation session_id (fail_workers session_id now s)))

terminated-Fewer :
    (session_id now : String) (state : SessionState) (s : Store)
    → is_active state ≡ false
    → Fewer s (terminated session_id state now s)
unfolding terminated
terminated-Fewer session_id now state s closed =
    Fewer-trans s _ _ (workers-Fewer _ _ s (λ x. (refl, refl))) (
      Fewer-trans _ _ _ (others-Fewer session_id now (fail_workers session_id now s))
        (set_session_state-Fewer session_id state _ closed))

reaped : String → String → Store → Store
reaped session_id now s =
    set_session_state session_id SessionState.expired
      (doubt_reservation session_id (fail_workers session_id now s))

reaped-Fewer : (session_id now : String) (s : Store) → Fewer s (reaped session_id now s)
unfolding reaped
reaped-Fewer session_id now s =
    let f = terminated-Fewer session_id now SessionState.expired s refl in
    record {
      parents_le = unfold terminated in f.parents_le;
      workers_le = unfold terminated in f.workers_le;
      roles_le = unfold terminated in f.roles_le;
      keys_le = unfold terminated in f.keys_le;
      linked = unfold terminated in f.linked;
    }

-- A call that leaves `s` alone or makes `t` of it.
Fewer-either : (s s' t : Store) → (s' ≡ s) ⊎ (s' ≡ t) → Fewer s t → Fewer s s'
Fewer-either s s' t (inl e) f = subst (Fewer s) (sym e) (Fewer-refl s)
Fewer-either s s' t (inr e) f = subst (Fewer s) (sym e) f

pub revoke_session-Fewer :
    (session_id : String) (s : Store) → Fewer s (revoke_session session_id s).1
revoke_session-Fewer session_id s =
    Fewer-either s _ (set_session_state session_id SessionState.revoked s)
      (unfold revoke_session in ground arith)
      (set_session_state-Fewer session_id SessionState.revoked s refl)

pub finish_session-Fewer :
    (session_id : String) (s : Store) → Fewer s (finish_session session_id s).1
finish_session-Fewer session_id s =
    Fewer-either s _ (set_session_state session_id SessionState.finished s)
      (unfold finish_session in ground arith)
      (set_session_state-Fewer session_id SessionState.finished s refl)

closing : Bool → SessionState
closing is_expired = if is_expired then SessionState.expired else SessionState.revoked

closing_closed : (is_expired : Bool) → is_active (closing is_expired) ≡ false
unfolding closing
closing_closed true = refl
closing_closed false = refl

pub force_terminate_session-Fewer :
    (session_id : String) (is_expired : Bool) (now : String) (s : Store)
    → Fewer s (force_terminate_session session_id is_expired now s).1
unfolding closing terminated
force_terminate_session-Fewer session_id is_expired now s =
    Fewer-either s _ (terminated session_id (closing is_expired) now s)
      (unfold force_terminate_session in ground arith)
      (terminated-Fewer session_id now (closing is_expired) s (closing_closed is_expired))

pub reap_expired_session-Fewer :
    (session_id now : String) (s : Store) → Fewer s (reap_expired_session session_id now s).1
unfolding reaped
reap_expired_session-Fewer session_id now s =
    Fewer-either s _ (reaped session_id now s) (unfold reap_expired_session in ground arith)
      (reaped-Fewer session_id now s)

pub succeed_attempt-Fewer :
    (attempt_id artifact now : String) (s : Store)
    → Fewer s (succeed_attempt attempt_id artifact now s).1
unfolding succeed_attempt
succeed_attempt-Fewer attempt_id artifact now s = workers-Fewer _ _ s (λ x. (refl, refl))

pub fail_attempt-Fewer :
    (attempt_id now : String) (s : Store) → Fewer s (fail_attempt attempt_id now s).1
unfolding fail_attempt
fail_attempt-Fewer attempt_id now s = workers-Fewer _ _ s (λ x. (refl, refl))
