-- ===== src/Http/Request.antt =====
-- What a handler reads of `gin.Context`, and the audit entry that it writes from it.
use ashan_frp.Base.{String, Option, none, some}
use ashan_frp.Domain.Account.{Account, AuditLog}
use ashan_frp.Http.Response.{Response}

pub record Request : Type 0 where
  pub account_id : String
  pub account_name : String
  pub request_id : String
  pub trace_id : String
  pub client_ip : String
  pub user_agent : String

-- The database after a handler, its answer, and the value in the answer.
pub record Reply (S A : Type 0) : Type 0 where
  pub db : S
  pub response : Response
  pub body : Option A

abbrev pub without_body : {S A : Type 0} → S → Response → Reply S A
without_body db response = record { db = db; response = response; body = none }

abbrev pub with_body : {S A : Type 0} → S → Response → A → Reply S A
with_body db response a = record { db = db; response = response; body = some a }

abbrev pub audit_entry : Request → String → String → String → String → AuditLog
audit_entry c account_name action resource_type resource_id = record {
  account_id = c.account_id;
  account_name = account_name;
  action = action;
  resource_type = resource_type;
  resource_id = resource_id;
  detail_json = "";
  request_id = c.request_id;
  trace_id = c.trace_id;
  outcome = "success";
  ip_address = c.client_ip;
  user_agent = c.user_agent;
}

-- `acc != nil` and the name of the account.
abbrev pub name_of : Option Account → String
name_of none = ""
name_of (some a) = a.login_name
