-- ===== src/Net/Client.antt =====
-- recon/net/http_client.py: the one audited path of requests to the outside, gated by the scope.
-- The answers of the network, the joining of URLs, the random choice of a user agent and whether
-- the audit table takes a row are parameters; waiting for the rate limit changes no request.
use recon_platform.Prelude.{
  ℕ, zero, suc, ◌+◌, ◌%◌, ◌==◌, String, Bool, true, false, ◌&&◌, ◌||◌, Option, none, some, List, [],
  ◌∷◌, length, if◌then◌else◌, Result, ok, err,
}
use recon_platform.Prelude.Text.{Text, is_empty}
use recon_platform.Scope.{
  ScopeStatus, flagged, excluded, not_applicable, Rules, ScopeDecision, classify,
}

pub data Method : Type 0 where
  get head post : Method

-- What the network does with a request: a response, an error of the transport, which may be a sign
-- of distress, or the refusal of a URL that cannot be sent.
pub data Reply : Type 0 where
  response : ℕ → Bool → Option Text → Reply
  failure : Bool → String → Reply
  invalid : Reply

pub record Response : Type 0 where
  pub status : ℕ
  pub is_redirect : Bool
  pub location : Option Text

pub data RequestError : Type 0 where
  scope_violation : ScopeDecision → RequestError
  request_failed : String → RequestError
  bad_target : RequestError
  invalid_url : RequestError

-- `response_meta`
pub data ResponseMeta : Type 0 where
  blocked : ResponseMeta
  error_meta : String → ResponseMeta
  status_meta : ℕ → ResponseMeta

pub record AuditEntry : Type 0 where
  pub method : Method
  pub url : Text
  pub user_agent : Option String
  pub scope_status : ScopeStatus
  pub meta : ResponseMeta
  pub override_used : Bool

-- The settings that a scan run gives to its client, and the world outside of it.
pub record Config : Type 0 where
  pub roe : Rules
  pub allow_oos : Bool
  pub user_agents : List String
  pub random_rotation : Bool
  pub choice : ℕ → ℕ
  pub network : ℕ → Method → Text → Reply
  pub urljoin : Text → Text → Text
  pub audit_works : ℕ → Bool

-- The state of a client: the requests that went out and the audit rows, the newest first, with
-- whether the row went to the table or to the fallback log; what the backoff was told.
pub record ClientState : Type 0 where
  pub sent : List (Method × Text)
  pub trail : List (Bool × AuditEntry)
  pub ua_index : ℕ
  pub outcomes : List (Bool × Bool)

nth_agent : List String → ℕ → Option String
nth_agent [] n = none
nth_agent (ua ∷ uas) zero = some ua
nth_agent (ua ∷ uas) (suc n) = nth_agent uas n

abbrev default_ua : String
default_ua = "recon-platform/0.1 (+authorized-assessment)"

-- `_next_ua`
unfoldable pub next_ua : Config → ClientState → Option String × ClientState
unfolding nth_agent
next_ua cfg s =
    let n = length cfg.user_agents in
    if is_empty cfg.user_agents
    then (some default_ua, s)
    else if cfg.random_rotation
    then (nth_agent cfg.user_agents (cfg.choice (length s.sent) % n), s)
    else (nth_agent cfg.user_agents (s.ua_index % n), record s { ua_index = s.ua_index + 1 })

-- `_audit`: a row that the table does not take goes to the fallback log.
unfoldable pub write_audit : Config → AuditEntry → ClientState → ClientState
write_audit cfg e s = record s { trail = (cfg.audit_works (length s.trail), e) ∷ s.trail }

abbrev pub needs_override : ScopeStatus → Bool
needs_override excluded = true
needs_override flagged = true
needs_override _ = false

abbrev pub log_outcome : Bool → Bool → ClientState → ClientState
log_outcome throttled failed s = record s { outcomes = (throttled, failed) ∷ s.outcomes }

abbrev pub or_else : Option String → Option String → Option String
or_else none other = other
or_else (some own) other = some own

-- What is kept of the answer: a row, and what the backoff is told. `sent` is the state with the
-- request out; a URL that cannot be sent leaves the state before it.
unfoldable pub receive :
    Config
    → (ResponseMeta → AuditEntry)
    → Reply
    → ClientState
    → ClientState
    → Result RequestError Response × ClientState
unfolding write_audit
receive cfg entry (response code redirect location) before out = (
  ok (record { status = code; is_redirect = redirect; location = location }),
  write_audit cfg (entry (status_meta code)) (log_outcome (code == 429) false out),
)
receive cfg entry (failure distress what) before out = (
  err (request_failed what),
  write_audit cfg (entry (error_meta what)) (log_outcome false distress out),
)
receive cfg entry invalid before out = (err invalid_url, before)

abbrev pub row : Method → Text → Option String → ScopeStatus → Bool → ResponseMeta → AuditEntry
row method url agent status used meta = record {
  method = method;
  url = url;
  user_agent = agent;
  scope_status = status;
  meta = meta;
  override_used = used;
}

-- A request that passed the gate (`setdefault` takes the next user agent in any case).
unfoldable pub transmit :
    Config
    → Method
    → Text
    → Option String
    → ScopeStatus
    → Bool
    → ClientState
    → Result RequestError Response × ClientState
unfolding next_ua receive
transmit cfg method url agent status used s =
    let (rotated, s') = next_ua cfg s in
    receive cfg (row method url (or_else agent rotated) status used)
      (cfg.network (length s'.sent) method url) s' (record s' { sent = (method, url) ∷ s'.sent })

-- A target that the rules do not allow, without an override: an audit row, and no request.
unfoldable pub block :
    Config
    → Method
    → Text
    → Option String
    → ScopeDecision
    → ClientState
    → Result RequestError Response × ClientState
unfolding write_audit
block cfg method url agent d s =
    (err (scope_violation d), write_audit cfg (row method url agent d.status false blocked) s)

abbrev pub override_of : Config → Option Bool → Bool
override_of cfg none = cfg.allow_oos
override_of cfg (some given) = given

-- `_single_request`; `agent` is the caller's own `User-Agent` header.
unfoldable pub single_request :
    Config
    → Bool
    → Option Bool
    → Option String
    → Method
    → Text
    → ClientState
    → Result RequestError Response × ClientState
unfolding classify block transmit
single_request cfg false given agent method url s =
    transmit cfg method url agent not_applicable false s
single_request cfg true given agent method url s = elim (classify cfg.roe url []) [
  | err _ ↦ (err bad_target, s)
  | ok d ↦
      if needs_override d.status
      then (if override_of cfg given
          then transmit cfg method url agent d.status true s
          else block cfg method url agent d s)
      else transmit cfg method url agent d.status false s
]

-- The method for the next hop: a 301, 302 or 303 turns all but HEAD into GET.
abbrev pub next_method : ℕ → Method → Method
next_method code head = head
next_method code method = if code == 301 || code == 302 || code == 303 then get else method

-- The loop of `request`, where `left` hops are allowed still; `follow` is off without redirects.
unfoldable pub request :
    Config
    → Bool
    → Option Bool
    → Option String
    → Bool
    → ℕ
    → Method
    → Text
    → ClientState
    → Result RequestError Response × ClientState
unfolding single_request
request cfg target given agent follow zero method url s =
    single_request cfg target given agent method url s
request cfg target given agent follow (suc left) method url s =
    let (answer, s') = single_request cfg target given agent method url s in
    let hop = λ (code : ℕ) (location : Text).
      request cfg target given agent follow left (next_method code method)
        (cfg.urljoin url location) s' in
    elim answer [
      | err e ↦ (err e, s')
      | ok r ↦
          if follow && r.is_redirect
          then elim r.location [
            | none ↦ (ok r, s')
            | some location ↦ if is_empty location then (ok r, s') else hop r.status location
          ]
          else (ok r, s')
    ]
