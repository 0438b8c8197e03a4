-- ===== src/Access.antt =====
-- recon/orchestrator/auth.py, tokens.py and recon/core/security.py: the operator's account, the
-- sessions of the dashboard and the bearer tokens of the REST client. The digests, the password
-- hasher and the fresh secrets are parameters; time is in ticks.
pub mod Tokens
pub mod Rows
pub mod Sessions
pub mod Revocation
pub mod Operator
mod Tests
use recon_platform.Prelude.{
  ℕ, zero, suc, ◌+◌, ltb, leb, ◌==◌, Bool, true, false, ◌&&◌, ◌||◌, not, Option, none, some, List,
  [], ◌∷◌, ◌++◌, length, any, find, update_where, if◌then◌else◌, Result, ok, err, ◌>>=◌, ◌>>◌,
}
use recon_platform.Prelude.Text.{
  Text, text_eq, is_empty, is_lower, is_upper, is_digit, is_alpha, strip, lower,
}

pub record User : Type 0 where
  pub id : ℕ
  pub username : Text
  pub password_hash : Text
  pub last_login : Option ℕ

pub record Session : Type 0 where
  pub user_id : ℕ
  pub token_hash : Text
  pub last_activity : ℕ
  pub expires_at : ℕ
  pub revoked : Bool

pub record ApiToken : Type 0 where
  pub id : ℕ
  pub user_id : ℕ
  pub name : Text
  pub token_hash : Text
  pub last_used : Option ℕ
  pub revoked_at : Option ℕ

-- The tables.
pub record Accounts : Type 0 where
  pub users : List User
  pub sessions : List Session
  pub tokens : List ApiToken

-- SHA-256 and the Argon2 hasher: `verify` answers with the new hash if the old one is outdated.
pub record Crypto : Type 0 where
  pub hash_token : Text → Text
  pub hash_password : Text → Text
  pub verify : Text → Text → Option (Option Text)

pub data AccessError : Type 0 where
  setup_already_complete bad_username weak_password wrong_password bad_name token_not_found :
      AccessError

abbrev one_if : Bool → ℕ
one_if b = if b then 1 else 0

abbrev is_symbol : ℕ → Bool
is_symbol c = not (is_alpha c || is_digit c)

-- The number of the four classes of characters that the password has.
abbrev pub classes : Text → ℕ
classes p =
    one_if (any is_lower p)
    + one_if (any is_upper p)
    + one_if (any is_digit p)
    + one_if (any is_symbol p)

-- `validate_password_strength`
unfoldable pub validate_password_strength : Text → Result AccessError (Unit {0})
validate_password_strength p =
    if ltb (length p) 12
    then err weak_password
    else if ltb (classes p) 3
    then err weak_password
    else ok tt

unfoldable pub needs_setup : Accounts → Bool
needs_setup db = length db.users == 0

-- `create_initial_admin`; `id` is the fresh id of the row.
unfoldable pub create_initial_admin :
    Crypto → ℕ → Text → Text → Accounts → Result AccessError Accounts
unfolding needs_setup validate_password_strength strip lower
create_initial_admin crypto id username password db =
    let name = lower (strip username) in
    let user : User = record {
      id = id;
      username = name;
      password_hash = crypto.hash_password password;
      last_login = none;
    } in
    if not (needs_setup db)
    then err setup_already_complete
    else if is_empty name || ltb 64 (length name)
    then err bad_username
    else validate_password_strength password >>= λ _.
        ok (record db { users = db.users ++ user ∷ [] })

abbrev pub is_user : ℕ → User → Bool
is_user id u = u.id == id

abbrev set_user : ℕ → (User → User) → Accounts → Accounts
set_user id f db = record db { users = update_where (is_user id) f db.users }

-- A login that succeeded; an outdated hash is replaced.
abbrev pub logged_in : ℕ → Option Text → User → User
logged_in now none u = record u { last_login = some now }
logged_in now (some hash) u = record u { last_login = some now; password_hash = hash }

-- `authenticate`
unfoldable pub authenticate : Crypto → ℕ → Text → Text → Accounts → Option User × Accounts
unfolding strip lower text_eq
authenticate crypto now username password db =
    let name = lower (strip username) in
    elim (find (λ u. text_eq u.username name) db.users) [
      | none ↦ (none, db)
      | some u ↦ elim (crypto.verify password u.password_hash) [
        | none ↦ (none, db)
        | some rehash ↦ (some (logged_in now rehash u), set_user u.id (logged_in now rehash) db)
      ]
    ]

-- `start_session`, with the fresh secret `raw`.
unfoldable pub start_session : Crypto → ℕ → ℕ → Text → User → Accounts → Accounts
start_session crypto timeout now raw user db = record db {
  sessions =
      db.sessions
      ++ record {
        user_id = user.id;
        token_hash = crypto.hash_token raw;
        last_activity = now;
        expires_at = now + timeout;
        revoked = false;
      }
        ∷ [];
}

abbrev pub has_hash : Text → Session → Bool
has_hash hash sess = text_eq sess.token_hash hash

-- Sliding idle expiry.
abbrev pub slide : ℕ → ℕ → Session → Session
slide timeout now sess = record sess { last_activity = now; expires_at = now + timeout }

-- `resolve_session`
unfoldable pub resolve_session : Crypto → ℕ → ℕ → Text → Accounts → Option User × Accounts
resolve_session crypto timeout now raw db =
    let hash = crypto.hash_token raw in
    let slid = record db {
      sessions = update_where (has_hash hash) (slide timeout now) db.sessions;
    } in
    if is_empty raw then (none, db) else elim (find (has_hash hash) db.sessions) [
      | none ↦ (none, db)
      | some sess ↦ elim (find (is_user sess.user_id) db.users) [
        | none ↦ (none, db)
        | some user ↦
            if sess.revoked || ltb sess.expires_at now then (none, db) else (some user, slid)
      ]
    ]

abbrev pub revoke_session : Session → Session
revoke_session sess = record sess { revoked = true }

-- `end_session`
unfoldable pub end_session : Crypto → Text → Accounts → Accounts
end_session crypto raw db = if is_empty raw then db else record db {
  sessions = update_where (has_hash (crypto.hash_token raw)) revoke_session db.sessions;
}

abbrev pub of_user : ℕ → Session → Bool
of_user id sess = sess.user_id == id

-- `change_password`
unfoldable pub change_password :
    Crypto → User → Text → Text → Accounts → Result AccessError Accounts
unfolding validate_password_strength
change_password crypto user old new db = elim (crypto.verify old user.password_hash) [
  | none ↦ err wrong_password
  | some _ ↦ validate_password_strength new >>= λ _. ok (record db {
    users =
        update_where (is_user user.id) (λ u. record u { password_hash = crypto.hash_password new })
          db.users;
    sessions = update_where (of_user user.id) revoke_session db.sessions;
  })
]
