-- ===== src/Broker/Sanctioned.antt =====
-- What `handle` of control/sjg_control/broker.py has the backend execute, and what was checked before.
use scrum_jail_governance_pl.Base.{
  String, Bool, true, false, Option, none, some, ◌∷◌, if◌then◌else◌, ◌≡◌, refl, arith, ap, ◌∙◌,
}
use scrum_jail_governance_pl.Session.{Session}
use scrum_jail_governance_pl.Policy.{OrganizationPolicy}
use scrum_jail_governance_pl.Authz.Denials.{Verdict, allowed, type_error, denied, unknown_role}
use scrum_jail_governance_pl.Authz.Patterns.{Platform}
use scrum_jail_governance_pl.Authz.Facts.{Facts}
use scrum_jail_governance_pl.Authz.Authorize.{authorize}
use scrum_jail_governance_pl.Json.{Arguments}
use scrum_jail_governance_pl.Store.Sessions.{session}
use scrum_jail_governance_pl.Store.Action.{Error, Result, Done, ok, err}
use scrum_jail_governance_pl.Store.Requests.{Prior}
use scrum_jail_governance_pl.Broker.{
  Outcome, returned, refused, conflicted, timed_out, failed, Backend, Reply, Request, World,
  invalid, store_raised, conclude, look_up, on_marked, on_reserved, on_authorized, on_facts,
  on_prior, on_verdict, on_session, on_arguments, handle,
}

-- The session is active, and `authorize` has let its request pass on the facts that were looked up.
pub record IsSanctioned (platform : Platform) (policy : OrganizationPolicy) (backend : Backend)
    (session_id : String) (request : Request) (w : World) : Type 0 where
  pub who : Session
  pub arguments : Arguments
  pub facts : Facts
  pub active : (session session_id request.now w.store).0 ≡ ok who
  pub asked : request.arguments ≡ some arguments
  pub informed : look_up backend request arguments ≡ returned facts
  pub permitted : authorize platform policy who request.operation arguments (some facts) ≡ allowed

raised_idle :
    (response_text detail_text : Reply → String) (request : Request) (error : Error) (w : World)
    → (store_raised response_text detail_text request error w).1.executed ≡ w.executed
raised_idle response_text detail_text request error w = ground arith

conclude_idle :
    (response_text detail_text : Reply → String) (who : Session) (request : Request)
    (outcome : Outcome String) (w : World)
    → (conclude response_text detail_text who request outcome w).1.executed ≡ w.executed
unfolding conclude
conclude_idle response_text detail_text who request outcome w = ground arith

-- One turn of `handle` from `before`: nothing was executed, or the request was, with sanction.
pub data Turn (platform : Platform) (policy : OrganizationPolicy) (backend : Backend)
    (session_id : String) (request : Request) (before : World) (after : World) : Type 0 where
  idle :
      after.executed ≡ before.executed
      → Turn platform policy backend session_id request before after
  ran :
      after.executed ≡ (request.key, request.operation) ∷ before.executed
      → IsSanctioned platform policy backend session_id request before
      → Turn platform policy backend session_id request before after

module _ (response_text detail_text : Reply → String) (platform : Platform)
    (policy : OrganizationPolicy) (backend : Backend) (session_id : String) (request : Request)
    (before : World) where
  abbrev IsTurn : World → Type 0
  IsTurn after = Turn platform policy backend session_id request before after

  marked-IsTurn :
      (w : World) (marked : Result Done)
      (s : IsSanctioned platform policy backend session_id request before)
      → w.executed ≡ before.executed
      → IsTurn
          (on_marked response_text detail_text platform policy backend s.who request s.arguments w
            marked).1
  unfolding on_marked
  marked-IsTurn w (err error) s e = idle (raised_idle response_text detail_text request error w ∙ e)
  marked-IsTurn w (ok done) s e =
      ran
        (conclude_idle response_text detail_text s.who request _ _
          ∙ ap (λ rows. (request.key, request.operation) ∷ rows) e)
        s

  reserved-IsTurn :
      (w : World) (answer : Result (Option Prior))
      (s : IsSanctioned platform policy backend session_id request before)
      → w.executed ≡ before.executed
      → IsTurn
          (on_reserved response_text detail_text platform policy backend s.who request s.arguments w
            answer).1
  unfolding on_reserved
  reserved-IsTurn w (err error) s e =
      idle (raised_idle response_text detail_text request error w ∙ e)
  reserved-IsTurn w (ok (some prior)) s e = idle e
  reserved-IsTurn w (ok none) s e = marked-IsTurn _ _ s e

  authorized-IsTurn :
      (who : Session) (arguments : Arguments) (facts : Facts) (verdict : Verdict)
      → (session session_id request.now before.store).0 ≡ ok who
      → request.arguments ≡ some arguments
      → look_up backend request arguments ≡ returned facts
      → authorize platform policy who request.operation arguments (some facts) ≡ verdict
      → IsTurn
          (on_authorized response_text detail_text platform policy backend session_id who request
            arguments before verdict).1
  unfolding on_authorized
  authorized-IsTurn who arguments facts (denied denial) a q l e = idle refl
  authorized-IsTurn who arguments facts (unknown_role role) a q l e = idle refl
  authorized-IsTurn who arguments facts type_error a q l e = idle refl
  authorized-IsTurn who arguments facts allowed a q l e =
      reserved-IsTurn _ _
        (record {
          who = who;
          arguments = arguments;
          facts = facts;
          active = a;
          asked = q;
          informed = l;
          permitted = e;
        })
        refl

  facts-IsTurn :
      (who : Session) (arguments : Arguments) (facts : Outcome Facts)
      → (session session_id request.now before.store).0 ≡ ok who
      → request.arguments ≡ some arguments
      → look_up backend request arguments ≡ facts
      → IsTurn
          (on_facts response_text detail_text platform policy backend session_id who request
            arguments before facts).1
  unfolding on_facts
  facts-IsTurn who arguments (refused text) a q l = idle refl
  facts-IsTurn who arguments (conflicted text) a q l = idle refl
  facts-IsTurn who arguments (timed_out text) a q l = idle refl
  facts-IsTurn who arguments (failed text) a q l = idle refl
  facts-IsTurn who arguments (returned facts) a q l =
      authorized-IsTurn who arguments facts _ a q l refl

  prior-IsTurn :
      (who : Session) (arguments : Arguments) (answer : Result (Option Prior))
      → (session session_id request.now before.store).0 ≡ ok who
      → request.arguments ≡ some arguments
      → IsTurn
          (on_prior response_text detail_text platform policy backend session_id who request
            arguments before answer).1
  unfolding on_prior
  prior-IsTurn who arguments (err error) a q =
      idle (raised_idle response_text detail_text request error before)
  prior-IsTurn who arguments (ok (some prior)) a q = idle refl
  prior-IsTurn who arguments (ok none) a q = facts-IsTurn who arguments _ a q refl

  verdict-IsTurn :
      (who : Session) (arguments : Arguments) (verdict : Verdict)
      → (session session_id request.now before.store).0 ≡ ok who
      → request.arguments ≡ some arguments
      → IsTurn
          (on_verdict response_text detail_text platform policy backend session_id who request
            arguments before verdict).1
  unfolding on_verdict
  verdict-IsTurn who arguments (denied denial) a q = idle refl
  verdict-IsTurn who arguments (unknown_role role) a q = idle refl
  verdict-IsTurn who arguments type_error a q = idle refl
  verdict-IsTurn who arguments allowed a q = prior-IsTurn who arguments _ a q

  session-IsTurn :
      (arguments : Arguments) (found : Result Session)
      → (session session_id request.now before.store).0 ≡ found
      → request.arguments ≡ some arguments
      → IsTurn
          (on_session response_text detail_text platform policy backend session_id request arguments
            before found).1
  unfolding on_session
  session-IsTurn arguments (err error) a q =
      idle (raised_idle response_text detail_text request error before)
  session-IsTurn arguments (ok who) a q = verdict-IsTurn who arguments _ a q

  arguments-IsTurn :
      (arguments : Option Arguments)
      → request.arguments ≡ arguments
      → IsTurn
          (on_arguments response_text detail_text platform policy backend session_id request before
            arguments).1
  unfolding on_arguments
  arguments-IsTurn none q = idle refl
  arguments-IsTurn (some arguments) q = session-IsTurn arguments _ refl q

  checked-IsTurn :
      (b : Bool)
      → IsTurn
          (if b
            then (invalid, before)
            else on_arguments response_text detail_text platform policy backend session_id request
                before request.arguments).1
  checked-IsTurn true = idle refl
  checked-IsTurn false = arguments-IsTurn request.arguments refl

  -- Handling a request has the backend execute nothing, or that request's operation under its key
  -- once; and then the request's session is active, the facts are those that were looked up for it,
  -- and `authorize` lets the session's request pass on them.
  pub handle-Turn :
      Turn platform policy backend session_id request before
        (handle response_text detail_text platform policy backend session_id request before).1
  unfolding handle
  handle-Turn = checked-IsTurn _
