-- ===== src/Session.antt =====
-- control/sjg_control/authz.py: the controller's view of one wake.
use scrum_jail_governance_pl.Base.{String, List}

-- `workspace_aliases` is a frozenset: only membership is asked of it.
pub record Session : Type 0 where
  pub session_id : String
  pub wake_id : String
  pub org_id : String
  pub role : String
  pub policy_digest : String
  pub workspace_aliases : List String
  pub expires_at : String
