-- ===== src/Net/Gate.antt =====
-- recon/net/http_client.py: no request goes out that the scope does not allow, every one that goes
-- out is audited, and redirects end.
use recon_platform.Prelude.{
  ℕ, zero, suc, ◌≡◌, ap, String, Bool, true, false, ◌&&◌, Option, List, [], ◌∷◌, ◌++◌, All,
  if◌then◌else◌, ok, Result-cases, Bool-cases, Option-cases, inl, inr, arith, ◌⊎◌,
}
use recon_platform.Prelude.Text.{Text, is_empty}
use recon_platform.Scope.{ScopeStatus, ScopeDecision, classify}
use recon_platform.Net.Refusals.{refusals, refused, request-Tells}
use recon_platform.Net.Client.{
  Method, Reply, response, failure, invalid, ResponseMeta, blocked, AuditEntry, Config, ClientState,
  next_ua, write_audit, needs_override, receive, row, next_method, transmit, block, override_of,
  single_request, request,
}

-- The rules put the request's URL in scope, or the call has an override.
abbrev pub Permitted : Config → Option Bool → Method × Text → Type 0
Permitted cfg given (_, url) =
    (override_of cfg given ≡ true)
    ⊎ ((d : ScopeDecision) × (classify cfg.roe url [] ≡ ok d) × (needs_override d.status ≡ false))

abbrev was_sent : ResponseMeta → Bool
was_sent blocked = false
was_sent _ = true

-- The requests that the audit rows tell of.
abbrev pub audited : List (Bool × AuditEntry) → List (Method × Text)
audited [] = []
audited ((_, e) ∷ trail) =
    if was_sent e.meta then (e.method, e.url) ∷ audited trail else audited trail

-- What holds of a client at any time.
pub record IsGated (cfg : Config) (given : Option Bool) (s : ClientState) : Type 0 where
  pub permitted : All (Permitted cfg given) s.sent
  pub complete : audited s.trail ≡ s.sent

pub next_ua-keeps :
    (cfg : Config) (s : ClientState)
    → ((next_ua cfg s).1.sent ≡ s.sent) × ((next_ua cfg s).1.trail ≡ s.trail)
unfolding next_ua
next_ua-keeps cfg s = ground arith

next_ua-IsGated :
    (cfg : Config) (given : Option Bool) (s : ClientState)
    → IsGated cfg given s
    → IsGated cfg given (next_ua cfg s).1
next_ua-IsGated cfg given s h =
    let (sent, trail) = next_ua-keeps cfg s in
    record { permitted = rw sent h.permitted; complete = rw (sent, trail) h.complete }

receive-IsGated :
    (cfg : Config) (given : Option Bool) (method : Method) (url : Text) (agent : Option String)
    (status : ScopeStatus) (used : Bool) (answer : Reply) (s : ClientState)
    → Permitted cfg given (method, url)
    → IsGated cfg given s
    → IsGated cfg given
        (receive cfg
          (row method url agent status used)
          answer
          s
          (record s { sent = (method, url) ∷ s.sent })).1
unfolding receive write_audit
receive-IsGated cfg given method url agent status used (response code redirect location) s p h =
    record { permitted = (p, h.permitted); complete = ap (λ l. (method, url) ∷ l) h.complete }
receive-IsGated cfg given method url agent status used (failure distress what) s p h = record {
  permitted = (p, h.permitted);
  complete = ap (λ l. (method, url) ∷ l) h.complete;
}
receive-IsGated cfg given method url agent status used invalid s p h = h

transmit-IsGated :
    (cfg : Config) (given : Option Bool) (method : Method) (url : Text) (agent : Option String)
    (status : ScopeStatus) (used : Bool) (s : ClientState)
    → Permitted cfg given (method, url)
    → IsGated cfg given s
    → IsGated cfg given (transmit cfg method url agent status used s).1
unfolding transmit
transmit-IsGated cfg given method url agent status used s p h =
    receive-IsGated cfg given method url _ status used _ (next_ua cfg s).1 p
      (next_ua-IsGated cfg given s h)

block-IsGated :
    (cfg : Config) (given : Option Bool) (method : Method) (url : Text) (agent : Option String)
    (d : ScopeDecision) (s : ClientState)
    → IsGated cfg given s
    → IsGated cfg given (block cfg method url agent d s).1
unfolding block write_audit
block-IsGated cfg given method url agent d s h = record {
  permitted = h.permitted;
  complete = h.complete;
}

single_request-IsGated :
    (cfg : Config) (given : Option Bool) (agent : Option String) (method : Method) (url : Text)
    (s : ClientState)
    → IsGated cfg given s
    → IsGated cfg given (single_request cfg true given agent method url s).1
unfolding single_request
single_request-IsGated cfg given agent method url s h =
    elim (Result-cases (classify cfg.roe url [])) [
      | inr (e, q) ↦ rw (q, single_request) h
      | inl (d, q) ↦ elim (Bool-cases (needs_override d.status)) [
        | inr n ↦
            rw (q, single_request, n)
              (transmit-IsGated cfg given method url agent d.status false s (inr (d, q, n)) h)
        | inl n ↦ elim (Bool-cases (override_of cfg given)) [
          | inl o ↦
              rw (q, single_request, n, o)
                (transmit-IsGated cfg given method url agent d.status true s (inl o) h)
          | inr o ↦ rw (q, single_request, n, o) (block-IsGated cfg given method url agent d s h)
        ]
      ]
    ]

request-gates :
    (cfg : Config) (given : Option Bool) (agent : Option String) (follow : Bool) (left : ℕ)
    (method : Method) (url : Text) (s : ClientState)
    → IsGated cfg given s
    → IsGated cfg given (request cfg true given agent follow left method url s).1
unfolding request
request-gates cfg given agent follow zero method url s h =
    single_request-IsGated cfg given agent method url s h
request-gates cfg given agent follow (suc left) method url s h =
    let h' = single_request-IsGated cfg given agent method url s h in
    elim (Result-cases (single_request cfg true given agent method url s).0) [
      | inr (e, q) ↦ rw (q, request) h'
      | inl (r, q) ↦ elim (Bool-cases (follow && r.is_redirect)) [
        | inr f ↦ rw (q, request, f) h'
        | inl f ↦ elim (Option-cases r.location) [
          | inl n ↦ rw (q, request, f, n) h'
          | inr (location, n) ↦ elim (Bool-cases (is_empty location)) [
            | inl z ↦ rw (q, request, f, n, z) h'
            | inr z ↦
                rw (q, request, f, n, z)
                  (request-gates cfg given agent follow left (next_method r.status method)
                    (cfg.urljoin url location) (single_request cfg true given agent method url s).1
                    h')
          ]
        ]
      ]
    ]

-- Whatever the network answers and wherever it redirects, at each hop: every request to a target
-- that has gone out was in scope by the rules or had an override, and the audit rows, those in the
-- fallback log included, tell of exactly the requests that went out, in their order, if both held
-- before the call. A call that ends with a refused target adds one row about a blocked request, with
-- that target and the verdict on it; any other call adds none.
pub request-IsGated :
    (cfg : Config) (given : Option Bool) (agent : Option String) (follow : Bool) (left : ℕ)
    (method : Method) (url : Text) (s : ClientState)
    → IsGated cfg given s
    → IsGated cfg given (request cfg true given agent follow left method url s).1
      × (refusals (request cfg true given agent follow left method url s).1.trail
          ≡ refused (request cfg true given agent follow left method url s).0 ++ refusals s.trail)
request-IsGated cfg given agent follow left method url s h = (
  request-gates cfg given agent follow left method url s h,
  request-Tells cfg given agent follow left method url s,
)
