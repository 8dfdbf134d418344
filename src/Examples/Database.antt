-- ===== src/Examples/Database.antt =====
-- A database in memory, for the examples.
use ashan_frp.Base.{ℕ, ◌≡◌, refl}
use ashan_frp.Domain.Account.{Account, AuthToken, AuditLog}
use ashan_frp.Domain.Tunnel.{Tunnel}
use ashan_frp.Domain.Credential.{UpstreamCredential}
use ashan_frp.Domain.Job.{Job}
use ashan_frp.Domain.Node.{Node}
use ashan_frp.Domain.Website.{WebsiteMapping, SyncState}
use ashan_frp.Domain.Settings.{Setting}
use ashan_frp.Repository.{Table, IsTable, IsApart}
use ashan_frp.Repository.Memory.{Memory, memory_table, memory_table-IsTable, empty}
use ashan_frp.Repository.Parts.{Part, part_table, part_table-IsTable, part_table-IsApart}

pub record Database : Type 0 where
  pub tunnel_rows : Memory Tunnel
  pub job_rows : Memory Job
  pub account_rows : Memory Account
  pub token_rows : Memory AuthToken
  pub audit_rows : Memory AuditLog
  pub credential_rows : Memory UpstreamCredential
  pub node_rows : Memory (Node ℕ)
  pub website_rows : Memory WebsiteMapping
  pub state_rows : Memory SyncState
  pub setting_rows : Memory Setting

abbrev pub no_rows : Database
no_rows = record {
  tunnel_rows = empty;
  job_rows = empty;
  account_rows = empty;
  token_rows = empty;
  audit_rows = empty;
  credential_rows = empty;
  node_rows = empty;
  website_rows = empty;
  state_rows = empty;
  setting_rows = empty;
}

abbrev tunnel_part : Part Database (Memory Tunnel)
tunnel_part = record {
  get = λ d. d.tunnel_rows;
  put = λ m d. record d { tunnel_rows = m };
  get-put = λ m d. refl;
}

abbrev job_part : Part Database (Memory Job)
job_part = record {
  get = λ d. d.job_rows;
  put = λ m d. record d { job_rows = m };
  get-put = λ m d. refl;
}

abbrev account_part : Part Database (Memory Account)
account_part = record {
  get = λ d. d.account_rows;
  put = λ m d. record d { account_rows = m };
  get-put = λ m d. refl;
}

abbrev token_part : Part Database (Memory AuthToken)
token_part = record {
  get = λ d. d.token_rows;
  put = λ m d. record d { token_rows = m };
  get-put = λ m d. refl;
}

abbrev audit_part : Part Database (Memory AuditLog)
audit_part = record {
  get = λ d. d.audit_rows;
  put = λ m d. record d { audit_rows = m };
  get-put = λ m d. refl;
}

abbrev credential_part : Part Database (Memory UpstreamCredential)
credential_part = record {
  get = λ d. d.credential_rows;
  put = λ m d. record d { credential_rows = m };
  get-put = λ m d. refl;
}

abbrev node_part : Part Database (Memory (Node ℕ))
node_part = record {
  get = λ d. d.node_rows;
  put = λ m d. record d { node_rows = m };
  get-put = λ m d. refl;
}

abbrev website_part : Part Database (Memory WebsiteMapping)
website_part = record {
  get = λ d. d.website_rows;
  put = λ m d. record d { website_rows = m };
  get-put = λ m d. refl;
}

abbrev state_part : Part Database (Memory SyncState)
state_part = record {
  get = λ d. d.state_rows;
  put = λ m d. record d { state_rows = m };
  get-put = λ m d. refl;
}

abbrev setting_part : Part Database (Memory Setting)
setting_part = record {
  get = λ d. d.setting_rows;
  put = λ m d. record d { setting_rows = m };
  get-put = λ m d. refl;
}

abbrev pub settings : Table Database Setting
settings = part_table setting_part (memory_table (λ r. r.key))

abbrev pub nodes : Table Database (Node ℕ)
nodes = part_table node_part (memory_table (λ r. r.id))

abbrev pub websites : Table Database WebsiteMapping
websites = part_table website_part (memory_table (λ r. r.id))

abbrev pub states : Table Database SyncState
states = part_table state_part (memory_table (λ r. r.id))

abbrev pub credentials : Table Database UpstreamCredential
credentials = part_table credential_part (memory_table (λ c. c.id))

abbrev pub tunnels : Table Database Tunnel
tunnels = part_table tunnel_part (memory_table (λ t. t.id))

abbrev pub jobs : Table Database Job
jobs = part_table job_part (memory_table (λ j. j.id))

abbrev pub accounts : Table Database Account
accounts = part_table account_part (memory_table (λ a. a.id))

abbrev pub tokens : Table Database AuthToken
tokens = part_table token_part (memory_table (λ t. t.id))

abbrev pub audits : Table Database AuditLog
audits = part_table audit_part (memory_table (λ l. l.request_id))

pub tunnels-IsTable :
    (stamp : ℕ → ℕ → Tunnel → Tunnel)
    → ((t : Tunnel) → (c : ℕ) × (u : ℕ) × (stamp c u t ≡ t))
    → IsTable tunnels (λ t. t.id) stamp
tunnels-IsTable stamp kept =
    part_table-IsTable tunnel_part (memory_table (λ t. t.id)) (λ t. t.id) stamp
      (memory_table-IsTable (λ t. t.id) stamp kept)

pub tokens-IsTable :
    (stamp : ℕ → ℕ → AuthToken → AuthToken)
    → ((t : AuthToken) → (c : ℕ) × (u : ℕ) × (stamp c u t ≡ t))
    → IsTable tokens (λ t. t.id) stamp
tokens-IsTable stamp kept =
    part_table-IsTable token_part (memory_table (λ t. t.id)) (λ t. t.id) stamp
      (memory_table-IsTable (λ t. t.id) stamp kept)

pub accounts-IsTable :
    (stamp : ℕ → ℕ → Account → Account)
    → ((r : Account) → (c : ℕ) × (u : ℕ) × (stamp c u r ≡ r))
    → IsTable accounts (λ r. r.id) stamp
accounts-IsTable stamp kept =
    part_table-IsTable account_part (memory_table (λ r. r.id)) (λ r. r.id) stamp
      (memory_table-IsTable (λ r. r.id) stamp kept)

pub nodes-IsTable :
    (stamp : ℕ → ℕ → (Node ℕ) → (Node ℕ))
    → ((r : (Node ℕ)) → (c : ℕ) × (u : ℕ) × (stamp c u r ≡ r))
    → IsTable nodes (λ r. r.id) stamp
nodes-IsTable stamp kept =
    part_table-IsTable node_part (memory_table (λ r. r.id)) (λ r. r.id) stamp
      (memory_table-IsTable (λ r. r.id) stamp kept)

pub websites-IsTable :
    (stamp : ℕ → ℕ → WebsiteMapping → WebsiteMapping)
    → ((r : WebsiteMapping) → (c : ℕ) × (u : ℕ) × (stamp c u r ≡ r))
    → IsTable websites (λ r. r.id) stamp
websites-IsTable stamp kept =
    part_table-IsTable website_part (memory_table (λ r. r.id)) (λ r. r.id) stamp
      (memory_table-IsTable (λ r. r.id) stamp kept)

pub jobs-IsTable :
    (stamp : ℕ → ℕ → Job → Job)
    → ((r : Job) → (c : ℕ) × (u : ℕ) × (stamp c u r ≡ r))
    → IsTable jobs (λ r. r.id) stamp
jobs-IsTable stamp kept =
    part_table-IsTable job_part (memory_table (λ r. r.id)) (λ r. r.id) stamp
      (memory_table-IsTable (λ r. r.id) stamp kept)

pub tokens-accounts-IsApart : IsApart tokens accounts
tokens-accounts-IsApart =
    part_table-IsApart token_part (memory_table (λ r. r.id)) account_part (memory_table (λ r. r.id))
      (λ m s. refl)

pub audits-accounts-IsApart : IsApart audits accounts
audits-accounts-IsApart =
    part_table-IsApart audit_part (memory_table (λ l. l.request_id)) account_part
      (memory_table (λ r. r.id)) (λ m s. refl)

pub audits-tokens-IsApart : IsApart audits tokens
audits-tokens-IsApart =
    part_table-IsApart audit_part (memory_table (λ l. l.request_id)) token_part
      (memory_table (λ r. r.id)) (λ m s. refl)

pub audits-nodes-IsApart : IsApart audits nodes
audits-nodes-IsApart =
    part_table-IsApart audit_part (memory_table (λ l. l.request_id)) node_part
      (memory_table (λ r. r.id)) (λ m s. refl)

pub jobs-websites-IsApart : IsApart jobs websites
jobs-websites-IsApart =
    part_table-IsApart job_part (memory_table (λ r. r.id)) website_part (memory_table (λ r. r.id))
      (λ m s. refl)

pub states-tunnels-IsApart : IsApart states tunnels
states-tunnels-IsApart =
    part_table-IsApart state_part (memory_table (λ r. r.id)) tunnel_part (memory_table (λ r. r.id))
      (λ m s. refl)

pub credentials-IsTable :
    (stamp : ℕ → ℕ → UpstreamCredential → UpstreamCredential)
    → ((r : UpstreamCredential) → (c : ℕ) × (u : ℕ) × (stamp c u r ≡ r))
    → IsTable credentials (λ r. r.id) stamp
credentials-IsTable stamp kept =
    part_table-IsTable credential_part (memory_table (λ r. r.id)) (λ r. r.id) stamp
      (memory_table-IsTable (λ r. r.id) stamp kept)

pub settings-credentials-IsApart : IsApart settings credentials
settings-credentials-IsApart =
    part_table-IsApart setting_part (memory_table (λ r. r.key)) credential_part
      (memory_table (λ r. r.id)) (λ m s. refl)

pub audits-credentials-IsApart : IsApart audits credentials
audits-credentials-IsApart =
    part_table-IsApart audit_part (memory_table (λ l. l.request_id)) credential_part
      (memory_table (λ r. r.id)) (λ m s. refl)

pub audits-tunnels-IsApart : IsApart audits tunnels
audits-tunnels-IsApart =
    part_table-IsApart audit_part (memory_table (λ l. l.request_id)) tunnel_part
      (memory_table (λ r. r.id)) (λ m s. refl)
