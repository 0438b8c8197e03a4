-- ===== src/Net/Hops.antt =====
-- recon/net/http_client.py: the number of requests that one call makes.
use recon_platform.Prelude.{
  ℕ, zero, suc, ◌+◌, ◌≤◌, ap, String, Bool, true, false, ◌&&◌, Option, [], ◌∷◌, length,
  Result-cases, Bool-cases, Option-cases, inl, inr, arith,
}
use recon_platform.Prelude.Text.{Text, is_empty}
use recon_platform.Scope.{ScopeStatus, classify}
use recon_platform.Net.Client.{
  Method, Reply, response, failure, invalid, ResponseMeta, AuditEntry, Config, ClientState, next_ua,
  write_audit, needs_override, receive, row, or_else, transmit, block, override_of, next_method,
  single_request, request,
}
use recon_platform.Net.Gate.{next_ua-keeps}

receive-length :
    (cfg : Config) (entry : ResponseMeta → AuditEntry) (answer : Reply) (sent : Method × Text)
    (s : ClientState)
    → length (receive cfg entry answer s (record s { sent = sent ∷ s.sent })).1.sent
      ≤ length s.sent + 1
unfolding receive write_audit
receive-length cfg entry (response code redirect location) sent s = omega arith
receive-length cfg entry (failure distress what) sent s = omega arith
receive-length cfg entry invalid sent s = omega arith

transmit-length :
    (cfg : Config) (method : Method) (url : Text) (agent : Option String) (status : ScopeStatus)
    (used : Bool) (s : ClientState)
    → length (transmit cfg method url agent status used s).1.sent ≤ length s.sent + 1
unfolding transmit
transmit-length cfg method url agent status used s =
    let one : length (transmit cfg method url agent status used s).1.sent
        ≤ length (next_ua cfg s).1.sent + 1 =
      receive-length cfg (row method url (or_else agent (next_ua cfg s).0) status used)
        (cfg.network (length (next_ua cfg s).1.sent) method url) (method, url) (next_ua cfg s).1 in
    omega (arith, one, ap length (next_ua-keeps cfg s).0)

single_request-length :
    (cfg : Config) (target : Bool) (given : Option Bool) (agent : Option String) (method : Method)
    (url : Text) (s : ClientState)
    → length (single_request cfg target given agent method url s).1.sent ≤ length s.sent + 1
unfolding single_request block write_audit
single_request-length cfg false given agent method url s =
    transmit-length cfg method url agent _ false s
single_request-length cfg true given agent method url s =
    elim (Result-cases (classify cfg.roe url [])) [
      | inr (e, q) ↦ rw (q, single_request) (omega arith)
      | inl (d, q) ↦ elim (Bool-cases (needs_override d.status)) [
        | inr n ↦ rw (q, single_request, n) (transmit-length cfg method url agent d.status false s)
        | inl n ↦ elim (Bool-cases (override_of cfg given)) [
          | inl o ↦
              rw (q, single_request, n, o) (transmit-length cfg method url agent d.status true s)
          | inr o ↦ rw (q, single_request, n, o) (omega arith)
        ]
      ]
    ]

-- One call of `request` sends one request more than `max_redirects` at most, whatever the network
-- answers: chains and cycles of redirects end.
pub request-length :
    (cfg : Config) (target : Bool) (given : Option Bool) (agent : Option String) (follow : Bool)
    (left : ℕ) (method : Method) (url : Text) (s : ClientState)
    → length (request cfg target given agent follow left method url s).1.sent
      ≤ length s.sent + (left + 1)
unfolding request
request-length cfg target given agent follow zero method url s =
    single_request-length cfg target given agent method url s
request-length cfg target given agent follow (suc left) method url s =
    let s' = (single_request cfg target given agent method url s).1 in
    let one = single_request-length cfg target given agent method url s in
    elim (Result-cases (single_request cfg target given agent method url s).0) [
      | inr (e, q) ↦ rw (q, request) (omega (arith, one))
      | inl (r, q) ↦ elim (Bool-cases (follow && r.is_redirect)) [
        | inr f ↦ rw (q, request, f) (omega (arith, one))
        | inl f ↦ elim (Option-cases r.location) [
          | inl n ↦ rw (q, request, f, n) (omega (arith, one))
          | inr (location, n) ↦ elim (Bool-cases (is_empty location)) [
            | inl z ↦ rw (q, request, f, n, z) (omega (arith, one))
            | inr z ↦
                let more =
                  request-length cfg target given agent follow left (next_method r.status method)
                    (cfg.urljoin url location) s' in
                rw (q, request, f, n, z) (omega (arith, one, more))
          ]
        ]
      ]
    ]
