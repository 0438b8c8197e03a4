-- ===== src/Net/Refusals.antt =====
-- recon/net/http_client.py: the audit rows of requests that the scope refused.
use recon_platform.Prelude.{
  ℕ, zero, suc, ◌≡◌, refl, ap, ◌∙◌, String, Bool, true, false, ◌&&◌, Option, List, [], ◌∷◌, ◌++◌,
  if◌then◌else◌, Result, err, Result-cases, Bool-cases, Option-cases, inl, inr, arith,
}
use recon_platform.Prelude.Text.{Text, is_empty}
use recon_platform.Scope.{ScopeStatus, ScopeDecision, classify}
use recon_platform.Scope.Verdict.{classify-target}
use recon_platform.Net.Client.{
  Method, Reply, response, failure, invalid, Response, RequestError, scope_violation, ResponseMeta,
  blocked, AuditEntry, Config, ClientState, next_ua, write_audit, needs_override, receive, row,
  next_method, transmit, block, override_of, single_request, request,
}

abbrev is_blocked : ResponseMeta → Bool
is_blocked blocked = true
is_blocked _ = false

-- The targets that the audit rows tell to be refused, with the verdicts on them.
abbrev pub refusals : List (Bool × AuditEntry) → List (Text × ScopeStatus)
refusals [] = []
refusals ((_, e) ∷ trail) =
    if is_blocked e.meta then (e.url, e.scope_status) ∷ refusals trail else refusals trail

-- The target that a call was refused for.
abbrev pub refused : Result RequestError Response → List (Text × ScopeStatus)
refused (err (scope_violation d)) = (d.target, d.status) ∷ []
refused _ = []

abbrev Tells : List (Bool × AuditEntry) → Result RequestError Response × ClientState → Type 0
Tells trail (answer, s) = refusals s.trail ≡ refused answer ++ refusals trail

receive-Tells :
    (cfg : Config) (method : Method) (url : Text) (agent : Option String) (status : ScopeStatus)
    (used : Bool) (answer : Reply) (s : ClientState)
    → Tells s.trail (
        receive cfg
          (row method url agent status used)
          answer
          s
          (record s { sent = (method, url) ∷ s.sent }))
unfolding receive write_audit
receive-Tells cfg method url agent status used (response code redirect location) s = refl
receive-Tells cfg method url agent status used (failure distress what) s = refl
receive-Tells cfg method url agent status used invalid s = refl

next_ua-trail : (cfg : Config) (s : ClientState) → (next_ua cfg s).1.trail ≡ s.trail
unfolding next_ua
next_ua-trail cfg s = ground arith

transmit-Tells :
    (cfg : Config) (method : Method) (url : Text) (agent : Option String) (status : ScopeStatus)
    (used : Bool) (s : ClientState)
    → Tells s.trail (transmit cfg method url agent status used s)
unfolding transmit
transmit-Tells cfg method url agent status used s =
    receive-Tells cfg method url _ status used _ (next_ua cfg s).1
    ∙ ap (λ trail. refused (transmit cfg method url agent status used s).0 ++ refusals trail)
        (next_ua-trail cfg s)

block-Tells :
    (cfg : Config) (method : Method) (url : Text) (agent : Option String) (d : ScopeDecision)
    (s : ClientState)
    → d.target ≡ url
    → Tells s.trail (block cfg method url agent d s)
unfolding block write_audit
block-Tells cfg method url agent d s same = rw same refl

single_request-Tells :
    (cfg : Config) (given : Option Bool) (agent : Option String) (method : Method) (url : Text)
    (s : ClientState)
    → Tells s.trail (single_request cfg true given agent method url s)
unfolding single_request
single_request-Tells cfg given agent method url s = elim (Result-cases (classify cfg.roe url [])) [
  | inr (e, q) ↦ rw (q, single_request) refl
  | inl (d, q) ↦ elim (Bool-cases (needs_override d.status)) [
    | inr n ↦ rw (q, single_request, n) (transmit-Tells cfg method url agent d.status false s)
    | inl n ↦ elim (Bool-cases (override_of cfg given)) [
      | inl o ↦ rw (q, single_request, n, o) (transmit-Tells cfg method url agent d.status true s)
      | inr o ↦
          rw (q, single_request, n, o)
            (block-Tells cfg method url agent d s (classify-target cfg.roe url [] d q))
    ]
  ]
]

pub request-Tells :
    (cfg : Config) (given : Option Bool) (agent : Option String) (follow : Bool) (left : ℕ)
    (method : Method) (url : Text) (s : ClientState)
    → Tells s.trail (request cfg true given agent follow left method url s)
unfolding request
request-Tells cfg given agent follow zero method url s =
    single_request-Tells cfg given agent method url s
request-Tells cfg given agent follow (suc left) method url s =
    let one = single_request-Tells cfg given agent method url s in
    elim (Result-cases (single_request cfg true given agent method url s).0) [
      | inr (e, q) ↦ rw (q, request) (one ∙ ap (λ a. refused a ++ refusals s.trail) q)
      | inl (r, q) ↦
          let quiet : refusals (single_request cfg true given agent method url s).1.trail
              ≡ refusals s.trail =
            one ∙ ap (λ a. refused a ++ refusals s.trail) q in
          elim (Bool-cases (follow && r.is_redirect)) [
            | inr f ↦ rw (q, request, f) quiet
            | inl f ↦ elim (Option-cases r.location) [
              | inl n ↦ rw (q, request, f, n) quiet
              | inr (location, n) ↦ elim (Bool-cases (is_empty location)) [
                | inl z ↦ rw (q, request, f, n, z) quiet
                | inr z ↦
                    let s' = (single_request cfg true given agent method url s).1 in
                    let hop = next_method r.status method in
                    let goal = cfg.urljoin url location in
                    rw (q, request, f, n, z)
                      (request-Tells cfg given agent follow left hop goal s'
                        ∙ ap
                            (λ rs.
                              refused (request cfg true given agent follow left hop goal s').0
                              ++ rs)
                            quiet)
              ]
            ]
          ]
    ]
