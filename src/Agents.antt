-- ===== src/Agents.antt =====
-- The agents: backend/src/agents.rs with `upsert_agent_heartbeat`, `prune_stale_agents` and
-- `list_agents` of backend/src/db.rs. An agent is named by the service account of its token and by the
-- id that it made itself. The JSON column of the domains is the list that it encodes. The arithmetic
-- of `agent_online` is 64 bits wide and wraps, as a release build does.
pub mod Tests
use vaul_tls.Base.{
  ℕ, ◌+◌, ◌*◌, ◌-◌, ◌%◌, Bool, true, false, not, ◌&&◌, ◌||◌, Option, none, some, List, [], ◌∷◌,
  ◌++◌, ◌==◌, any, find, select, update, take, length, leb, ltb, if◌then◌else◌,
}
use vaul_tls.Base.Result.{Result, ok, err}
use vaul_tls.Base.Action.{Action, ◌>>=◌, ◌>>◌, pure, raise, gets, modify, require, ensure}
use vaul_tls.Base.Tables.{next_id}
use vaul_tls.Text.{Text, text, text_eq, trim, is_empty}
use vaul_tls.Session.{Claims, ServiceClaims, is_service}
use vaul_tls.Db.Users.{User, get_user}
use vaul_tls.Db.ServiceAccounts.{ServiceAccount, get_service_account_by_id}
use vaul_tls.Api.Errors.{ApiError, forbidden_error, bad_request}
use vaul_tls.Api.State.{AppState, Authenticated}

abbrev pub two_63 : ℕ
two_63 = 9223372036854775808

abbrev pub two_64 : ℕ
two_64 = 18446744073709551616

-- `max` of a wrapped number and a floor that is not below zero.
abbrev pub max_i64 : ℕ → ℕ → ℕ
max_i64 w floor = if leb two_63 w then floor else if leb floor w then w else floor

-- Three of its intervals, fifteen minutes at least, in milliseconds.
abbrev pub threshold_ms : ℕ → ℕ
threshold_ms interval_sec = max_i64 (interval_sec * 3 % two_64) (15 * 60) * 1000 % two_64

-- `now_ms.saturating_sub(last_seen) <= threshold_ms`, where the threshold may have wrapped below zero.
unfoldable pub agent_online : ℕ → ℕ → ℕ → Bool
agent_online last_seen interval_sec now_ms =
    if leb two_63 (threshold_ms interval_sec)
    then leb (two_64 - threshold_ms interval_sec) (last_seen - now_ms)
    else leb (now_ms - last_seen) (threshold_ms interval_sec)

pub record AgentDomainReport : Type 0 where
  pub name : Text
  pub cert_id : ℕ
  pub target : Text
  pub destination : Text
  pub status : Text
  pub stage : Option Text
  pub error : Option Text
  pub serial : Option Text
  pub expiry_ms : Option ℕ
  pub last_check_ms : Option ℕ

pub record AgentHeartbeatRequest : Type 0 where
  pub agent_id : Text
  pub version : Text
  pub hostname : Text
  pub os : Text
  pub arch : Text
  pub schedule : Text
  pub heartbeat_interval_sec : ℕ
  pub domains : List AgentDomainReport

-- A row of the table.
pub record AgentHeartbeatIn : Type 0 where
  pub account_id : ℕ
  pub agent_uuid : Text
  pub hostname : Text
  pub version : Text
  pub os : Text
  pub arch : Text
  pub schedule : Text
  pub heartbeat_interval_sec : ℕ
  pub status : Text
  pub error_count : ℕ
  pub last_error : Option Text
  pub last_error_at : Option ℕ
  pub soonest_expiry_ms : Option ℕ
  pub domains : List AgentDomainReport
  pub ip : Text
  pub now_ms : ℕ

pub record AgentRow : Type 0 where
  pub id : ℕ
  pub report : AgentHeartbeatIn
  pub first_seen : ℕ

pub record Fleet : Type 0 where
  pub app : AppState
  pub agents : List AgentRow

abbrev pub is_ok : AgentDomainReport → Bool
is_ok d = text_eq d.status (text "ok")

abbrev pub error_text : AgentDomainReport → Text
error_text d =
    take 100 d.name
    ++ (text ": " ++ take 400 (elim d.error [ none ↦ text "unknown error" | some e ↦ e ]))

abbrev pub or_now : Option ℕ → ℕ → ℕ
or_now none now = now
or_now (some t) now = t

-- The first domain in error.
abbrev pub first_error : List AgentDomainReport → Option AgentDomainReport
first_error = find (λ d. not (is_ok d))

abbrev pub sooner : ℕ → Option ℕ → Option ℕ
sooner e none = some e
sooner e (some cur) = some (if leb cur e then cur else e)

abbrev pub expiry_if_ok : AgentDomainReport → Option ℕ
expiry_if_ok d = if is_ok d then d.expiry_ms else none

abbrev pub sooner_of : Option ℕ → Option ℕ → Option ℕ
sooner_of none rest = rest
sooner_of (some e) rest = sooner e rest

unfoldable pub soonest_expiry : List AgentDomainReport → Option ℕ
soonest_expiry [] = none
soonest_expiry (d ∷ rest) = sooner_of (expiry_if_ok d) (soonest_expiry rest)

abbrev pub at_least_30 : ℕ → ℕ
at_least_30 n = if leb 30 n then n else 30

abbrev pub errors_in : List AgentDomainReport → ℕ
errors_in domains = length (select (λ d. not (is_ok d)) domains)

-- What is stored of a report, with the status that the server works out.
unfoldable pub report_of :
    ℕ → Authenticated → Text → AgentHeartbeatRequest → List AgentDomainReport → AgentHeartbeatIn
unfolding soonest_expiry
report_of account_id auth agent_uuid req domains = record {
  account_id = account_id;
  agent_uuid = agent_uuid;
  hostname = take 100 req.hostname;
  version = take 32 req.version;
  os = take 32 req.os;
  arch = take 32 req.arch;
  schedule = take 64 req.schedule;
  heartbeat_interval_sec = at_least_30 req.heartbeat_interval_sec;
  status = if ltb 0 (errors_in domains) then text "error" else text "ok";
  error_count = errors_in domains;
  last_error = elim (first_error domains) [ none ↦ none | some d ↦ some (error_text d) ];
  last_error_at = elim (first_error domains) [
    | none ↦ none
    | some d ↦ some (or_now d.last_check_ms auth.now)
  ];
  soonest_expiry_ms = soonest_expiry domains;
  domains = domains;
  ip = elim auth.ip [ none ↦ [] | some ip ↦ ip ];
  now_ms = auth.now;
}

abbrev pub is_agent : AgentHeartbeatIn → AgentRow → Bool
is_agent rec row =
    row.report.account_id == rec.account_id && text_eq row.report.agent_uuid rec.agent_uuid

unfoldable pub upsert_agent_heartbeat : AgentHeartbeatIn → List AgentRow → List AgentRow
upsert_agent_heartbeat rec agents =
    if any (is_agent rec) agents
    then update (is_agent rec) (λ row. record row { report = rec }) agents
    else agents
      ++ record {
        id = next_id (λ (row : AgentRow). row.id) agents;
        report = rec;
        first_seen = rec.now_ms;
      }
        ∷ []

unfoldable pub prune_stale_agents : ℕ → List AgentRow → List AgentRow
prune_stale_agents older_than_ms = select (λ row. not (ltb row.report.now_ms older_than_ms))

abbrev pub month_ms : ℕ
month_ms = 30 * 24 * 3600 * 1000

unfoldable pub heartbeat_of :
    ServiceClaims → AgentHeartbeatRequest → Authenticated → Action Fleet ApiError (Unit {0})
heartbeat_of service req auth = do
  ensure (not (is_empty (trim req.agent_id) || ltb 64 (length (trim req.agent_id))))
      (bad_request (text "agent_id must be 1..=64 characters"))
  modify (λ s. record s {
    agents = prune_stale_agents (auth.now - month_ms) (
        upsert_agent_heartbeat
          (report_of service.account_id auth (trim req.agent_id) req (take 200 req.domains))
          s.agents);
  })

-- Only a service's token may report.
unfoldable pub agent_heartbeat :
    AgentHeartbeatRequest → Authenticated → Action Fleet ApiError (Unit {0})
unfolding heartbeat_of
agent_heartbeat req auth = elim auth.claims.service [
  | none ↦ raise forbidden_error
  | some service ↦ heartbeat_of service req auth
]

pub record AgentStatusRow : Type 0 where
  pub row : AgentRow
  pub online : Bool
  pub account_name : Text
  pub owner_login : Text

abbrev pub joined_owner : ℕ → AgentRow → ServiceAccount → Option User → List AgentStatusRow
joined_owner now_ms row sa none = []
joined_owner now_ms row sa (some u) =
    record {
      row = row;
      online = agent_online row.report.now_ms row.report.heartbeat_interval_sec now_ms;
      account_name = sa.name;
      owner_login = u.name;
    }
    ∷ []

abbrev pub joined_account : ℕ → AppState → AgentRow → Option ServiceAccount → List AgentStatusRow
joined_account now_ms s row none = []
joined_account now_ms s row (some sa) = joined_owner now_ms row sa (get_user sa.user_id s.users)

abbrev pub insert_newest : AgentRow → List AgentRow → List AgentRow
insert_newest row [] = row ∷ []
insert_newest row (r ∷ rest) =
    let later = insert_newest row rest in
    if ltb row.report.now_ms r.report.now_ms then r ∷ later else row ∷ r ∷ rest

unfoldable pub by_last_seen : List AgentRow → List AgentRow
by_last_seen [] = []
by_last_seen (row ∷ rest) = insert_newest row (by_last_seen rest)

unfoldable pub list_agents : ℕ → AppState → List AgentRow → List AgentStatusRow
list_agents now_ms s [] = []
list_agents now_ms s (row ∷ rest) =
    joined_account now_ms s row (get_service_account_by_id row.report.account_id s.service_accounts)
    ++ list_agents now_ms s rest

unfoldable pub get_agents : Authenticated → Action Fleet ApiError (List AgentStatusRow)
get_agents auth = do
  ensure (not (is_service auth.claims)) forbidden_error
  gets (λ s. list_agents auth.now s.app (by_last_seen s.agents))
