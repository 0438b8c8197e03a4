-- ===== src/Access/Tokens.antt =====
-- recon/orchestrator/tokens.py: the bearer tokens of the command line and the REST client.
pub mod Revoked
use recon_platform.Prelude.{
  ℕ, ltb, ◌==◌, Bool, true, false, ◌||◌, Option, none, some, List, [], ◌∷◌, ◌++◌, length, find,
  update_where, if◌then◌else◌, Result, ok, err,
}
use recon_platform.Prelude.Text.{Text, text_eq, is_empty, strip}
use recon_platform.Access.{
  User, ApiToken, Accounts, Crypto, AccessError, bad_name, token_not_found, is_user,
}

-- `TokenService.create`
unfoldable pub create_token :
    Crypto → ℕ → Text → User → Text → Accounts → Result AccessError Accounts
unfolding strip
create_token crypto id raw user given db =
    let name = strip given in
    let token : ApiToken = record {
      id = id;
      user_id = user.id;
      name = name;
      token_hash = crypto.hash_token raw;
      last_used = none;
      revoked_at = none;
    } in
    if is_empty name || ltb 100 (length name)
    then err bad_name
    else ok (record db { tokens = db.tokens ++ token ∷ [] })

abbrev pub is_token : ℕ → ApiToken → Bool
is_token id t = t.id == id

abbrev pub keep_first : Option ℕ → ℕ → Option ℕ
keep_first none now = some now
keep_first (some t) now = some t

abbrev pub revoke_row : ℕ → ApiToken → ApiToken
revoke_row now t = record t { revoked_at = keep_first t.revoked_at now }

-- `TokenService.revoke`
unfoldable pub revoke_token : ℕ → User → ℕ → Accounts → Result AccessError Accounts
revoke_token now user id db = elim (find (is_token id) db.tokens) [
  | none ↦ err token_not_found
  | some t ↦
      if t.user_id == user.id
      then ok (record db { tokens = update_where (is_token id) (revoke_row now) db.tokens })
      else err token_not_found
]

abbrev pub token_with : Text → ApiToken → Bool
token_with hash t = text_eq t.token_hash hash

abbrev pub is_set {ℓ} : {A : Type ℓ} → Option A → Bool
is_set none = false
is_set (some _) = true

-- `TokenService.authenticate`
unfoldable pub authenticate_token : Crypto → ℕ → Text → Accounts → Option User × Accounts
authenticate_token crypto now raw db =
    let hash = crypto.hash_token raw in
    let used = record db {
      tokens = update_where (token_with hash) (λ t. record t { last_used = some now }) db.tokens;
    } in
    if is_empty raw then (none, db) else elim (find (token_with hash) db.tokens) [
      | none ↦ (none, db)
      | some t ↦ elim (find (is_user t.user_id) db.users) [
        | none ↦ (none, db)
        | some user ↦ if is_set t.revoked_at then (none, db) else (some user, used)
      ]
    ]
