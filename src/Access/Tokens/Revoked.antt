-- ===== src/Access/Tokens/Revoked.antt =====
-- recon/orchestrator/tokens.py: a revoked token is refused for good.
use recon_platform.Prelude.{
  ℕ, ◌==◌, ==_iff, ltb, ◌||◌, length, ◌≡◌, refl, Bool, Option, none, some, List, [], ◌∷◌, find,
  update_where, if◌then◌else◌, Result, ok, err, Option-cases, Bool-cases, inl, inr, arith,
}
use recon_platform.Prelude.Text.{Text, is_empty, strip}
use recon_platform.Access.{User, ApiToken, Accounts, Crypto, AccessError, is_user}
use recon_platform.Access.Rows.{find-update_where, find-append}
use recon_platform.Access.Tokens.{
  create_token, is_token, keep_first, revoke_row, revoke_token, token_with, is_set,
  authenticate_token,
}

pub data TokenCall : Type 0 where
  mint : ℕ → Text → User → Text → TokenCall
  revoke : ℕ → User → ℕ → TokenCall
  present : ℕ → Text → TokenCall

abbrev kept : Result AccessError Accounts → Accounts → Accounts
kept (ok db) old = db
kept (err _) old = old

unfoldable pub token_call : Crypto → TokenCall → Accounts → Accounts
token_call crypto (mint id raw user name) db = kept (create_token crypto id raw user name db) db
token_call crypto (revoke now user id) db = kept (revoke_token now user id db) db
token_call crypto (present now raw) db = (authenticate_token crypto now raw db).1

unfoldable pub token_calls : Crypto → List TokenCall → Accounts → Accounts
unfolding token_call
token_calls crypto [] db = db
token_calls crypto (c ∷ cs) db = token_calls crypto cs (token_call crypto c db)

-- The token of the secret with this hash is there, revoked at this time.
pub record IsRevoked (hash : Text) (at : ℕ) (tokens : List ApiToken) : Type 0 where
  pub row : ApiToken
  pub found : find (token_with hash) tokens ≡ some row
  pub since : row.revoked_at ≡ some at

update-IsRevoked :
    (hash : Text) (at : ℕ) (q : ApiToken → Bool) (f : ApiToken → ApiToken)
    (same : (t : ApiToken) → token_with hash (f t) ≡ token_with hash t)
    (keeps : (t : ApiToken) → t.revoked_at ≡ some at → (f t).revoked_at ≡ some at)
    (tokens : List ApiToken)
    → IsRevoked hash at tokens
    → IsRevoked hash at (update_where q f tokens)
update-IsRevoked hash at q f same keeps tokens h = record {
  row = if q h.row then f h.row else h.row;
  found = rw (find-update_where (token_with hash) q f same tokens, h.found) refl;
  since = elim (Bool-cases (q h.row)) [ inl e ↦ rw e (keeps h.row h.since) | inr e ↦ rw e h.since ];
}

keep_first-some : (o : Option ℕ) (at now : ℕ) → o ≡ some at → keep_first o now ≡ some at
keep_first-some none at now h = cc
keep_first-some (some t) at now h = h

-- The secret of a revoked token is refused.
IsRevoked-authenticate_token :
    (crypto : Crypto) (at now : ℕ) (raw : Text) (db : Accounts)
    → IsRevoked (crypto.hash_token raw) at db.tokens
    → (authenticate_token crypto now raw db).0 ≡ none
unfolding authenticate_token
IsRevoked-authenticate_token crypto at now raw db h = elim (Bool-cases (is_empty raw)) [
  | inl e ↦ rw e refl
  | inr e ↦ elim (Option-cases (find (is_user h.row.user_id) db.users)) [
    | inl u ↦ rw (e, h.found, authenticate_token, u) refl
    | inr (owner, u) ↦ rw (e, h.found, authenticate_token, u, h.since) refl
  ]
]

create_token-IsRevoked :
    (crypto : Crypto) (hash : Text) (at id : ℕ) (raw : Text) (user : User) (name : Text)
    (db : Accounts)
    → IsRevoked hash at db.tokens
    → IsRevoked hash at (kept (create_token crypto id raw user name db) db).tokens
unfolding create_token
create_token-IsRevoked crypto hash at id raw user name db h =
    elim (Bool-cases (is_empty (strip name) || ltb 100 (length (strip name)))) [
      | inl e ↦ rw e h
      | inr e ↦ rw e (record {
        row = h.row;
        found = find-append (token_with hash) db.tokens _ h.found;
        since = h.since;
      })
    ]

revoke_token-IsRevoked :
    (hash : Text) (at now : ℕ) (user : User) (id : ℕ) (db : Accounts)
    → IsRevoked hash at db.tokens
    → IsRevoked hash at (kept (revoke_token now user id db) db).tokens
unfolding revoke_token
revoke_token-IsRevoked hash at now user id db h =
    elim (Option-cases (find (is_token id) db.tokens)) [
      | inl f ↦ rw (f, revoke_token) h
      | inr (t, f) ↦ elim (Bool-cases (t.user_id == user.id)) [
        | inr e ↦ rw (f, revoke_token, e) h
        | inl e ↦
            rw (f, revoke_token, e)
              (update-IsRevoked hash at (is_token id) (revoke_row now) (λ x. refl)
                (λ x k. keep_first-some x.revoked_at at now k) db.tokens h)
      ]
    ]

authenticate_token-IsRevoked :
    (crypto : Crypto) (hash : Text) (at now : ℕ) (raw : Text) (db : Accounts)
    → IsRevoked hash at db.tokens
    → IsRevoked hash at (authenticate_token crypto now raw db).1.tokens
unfolding authenticate_token
authenticate_token-IsRevoked crypto hash at now raw db h =
    let mine = crypto.hash_token raw in
    elim (Bool-cases (is_empty raw)) [
      | inl e ↦ rw e h
      | inr e ↦ elim (Option-cases (find (token_with mine) db.tokens)) [
        | inl f ↦ rw (e, f, authenticate_token) h
        | inr (t, f) ↦ elim (Option-cases (find (is_user t.user_id) db.users)) [
          | inl u ↦ rw (e, f, authenticate_token, u) h
          | inr (owner, u) ↦ elim (Bool-cases (is_set t.revoked_at)) [
            | inl r ↦ rw (e, f, authenticate_token, u, r) h
            | inr r ↦
                rw (e, f, authenticate_token, u, r)
                  (update-IsRevoked hash at (token_with mine)
                    (λ x. record x { last_used = some now }) (λ x. refl) (λ x k. k) db.tokens h)
          ]
        ]
      ]
    ]

token_calls-IsRevoked :
    (crypto : Crypto) (hash : Text) (at : ℕ) (cs : List TokenCall) (db : Accounts)
    → IsRevoked hash at db.tokens
    → IsRevoked hash at (token_calls crypto cs db).tokens
unfolding token_calls token_call
token_calls-IsRevoked crypto hash at [] db h = h
token_calls-IsRevoked crypto hash at (mint id raw user name ∷ cs) db h =
    token_calls-IsRevoked crypto hash at cs _
      (create_token-IsRevoked crypto hash at id raw user name db h)
token_calls-IsRevoked crypto hash at (revoke now user id ∷ cs) db h =
    token_calls-IsRevoked crypto hash at cs _ (revoke_token-IsRevoked hash at now user id db h)
token_calls-IsRevoked crypto hash at (present now raw ∷ cs) db h =
    token_calls-IsRevoked crypto hash at cs _
      (authenticate_token-IsRevoked crypto hash at now raw db h)

-- The secret of a token that its owner has revoked is refused for good, whatever tokens are minted,
-- revoked or presented after that; and the time of its revocation stays the first one.
pub revoke_token-is_final :
    (crypto : Crypto) (at now : ℕ) (raw : Text) (user : User) (cs : List TokenCall)
    (db revoked_db : Accounts) (t : ApiToken)
    → revoke_token at user t.id db ≡ ok revoked_db
    → find (token_with (crypto.hash_token raw)) db.tokens ≡ some t
    → t.revoked_at ≡ none
    → ((authenticate_token crypto now raw (token_calls crypto cs revoked_db)).0 ≡ none)
      × IsRevoked (crypto.hash_token raw) at (token_calls crypto cs revoked_db).tokens
unfolding revoke_token
revoke_token-is_final crypto at now raw user cs db revoked_db t h f live =
    let hash = crypto.hash_token raw in
    let revoked_rows : revoked_db.tokens ≡ update_where (is_token t.id) (revoke_row at) db.tokens =
      elim (Option-cases (find (is_token t.id) db.tokens)) [
        | inl g ↦ ground arith
        | inr (other, g) ↦ elim (Bool-cases (other.user_id == user.id)) [
          | inl e ↦ ground arith
          | inr e ↦ ground arith
        ]
      ] in
    let gone : IsRevoked hash at revoked_db.tokens = record {
      row = revoke_row at t;
      found =
          rw
            (
              revoked_rows,
              find-update_where (token_with hash) (is_token t.id) (revoke_row at) (λ x. refl)
                  db.tokens,
              f,
              (==_iff t.id t.id).1 refl,
            )
            refl;
      since = rw live refl;
    } in
    let later = token_calls-IsRevoked crypto hash at cs revoked_db gone in
    (IsRevoked-authenticate_token crypto at now raw _ later, later)
