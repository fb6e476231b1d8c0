-- ===== src/Client/Errors.antt =====
-- client/errors.go: a failure, seen by what `errors.As` and `errors.Is` find in its chain. The text
-- of a failure is left out.
use velocity_mcp.Base.{Bool, Option, false, none, some}
use velocity_mcp.Jsonrpc.{Error}
use velocity_mcp.Client.Unfinished.{UnfinishedResult}

pub record Failure : Type 0 where
  pub rejection : Option Error
  pub suspension : Option UnfinishedResult
  pub is_transport : Bool
  pub is_timeout : Bool
  pub is_unanswered : Bool
  pub is_authorization : Bool
  pub is_session_expired : Bool
  pub is_deadline : Bool
  pub is_cancelled : Bool

-- `newError`: a failure of the client itself.
abbrev pub plain_failure : Failure
plain_failure = record {
  rejection = none;
  suspension = none;
  is_transport = false;
  is_timeout = false;
  is_unanswered = false;
  is_authorization = false;
  is_session_expired = false;
  is_deadline = false;
  is_cancelled = false;
}

-- A JSON-RPC error of the server, which surfaces unchanged.
abbrev pub rejected_by : Error → Failure
rejected_by e = record plain_failure { rejection = some e }

abbrev pub suspended_by : UnfinishedResult → Failure
suspended_by u = record plain_failure { suspension = some u }

-- A value, or a failure.
pub data Result (A : Type 0) : Type 0 where
  ok : A → Result A
  err : Failure → Result A
