-- ===== src/Access/Revocation.antt =====
-- recon/orchestrator/auth.py: a session that was ended stays ended, and there is one operator.
use recon_platform.Prelude.{
  ℕ, ltb, ◌≡◌, refl, Bool, true, false, ◌||◌, none, some, List, [], ◌∷◌, find, update_where,
  if◌then◌else◌, ok, Option-cases, Result-cases, Bool-cases, inl, inr, arith, ap,
}
use recon_platform.Prelude.Text.{Text, is_empty, text_eq, strip, lower}
use recon_platform.Access.{
  User, Session, Accounts, Crypto, create_initial_admin, authenticate, start_session, has_hash,
  slide, resolve_session, end_session, change_password, is_user, revoke_session, of_user,
  validate_password_strength,
}
use recon_platform.Access.Rows.{find-update_where, find-append, find-holds}
use recon_platform.Access.Sessions.{
  Call, setup, login, open_session, resolve, close, change, or_same, serve, serve_all,
}

-- The session of the secret with this hash is there and revoked.
pub record IsEnded (hash : Text) (sessions : List Session) : Type 0 where
  pub row : Session
  pub found : find (has_hash hash) sessions ≡ some row
  pub ended : row.revoked ≡ true

-- An update that does not revive a session.
update-IsEnded :
    (hash : Text) (q : Session → Bool) (f : Session → Session)
    (same : (s : Session) → has_hash hash (f s) ≡ has_hash hash s)
    (keeps : (s : Session) → s.revoked ≡ true → (f s).revoked ≡ true) (sessions : List Session)
    → IsEnded hash sessions
    → IsEnded hash (update_where q f sessions)
update-IsEnded hash q f same keeps sessions h = record {
  row = if q h.row then f h.row else h.row;
  found = rw (find-update_where (has_hash hash) q f same sessions, h.found) refl;
  ended = elim (Bool-cases (q h.row)) [ inl e ↦ rw e (keeps h.row h.ended) | inr e ↦ rw e h.ended ];
}

resolve_session-sessions :
    (hash : Text) (crypto : Crypto) (timeout now : ℕ) (raw : Text) (db : Accounts)
    → IsEnded hash db.sessions
    → IsEnded hash (resolve_session crypto timeout now raw db).1.sessions
unfolding resolve_session
resolve_session-sessions hash crypto timeout now raw db h =
    let mine = crypto.hash_token raw in
    elim (Bool-cases (is_empty raw)) [
      | inl e ↦ rw e h
      | inr e ↦ elim (Option-cases (find (has_hash mine) db.sessions)) [
        | inl f ↦ rw (e, f, resolve_session) h
        | inr (sess, f) ↦ elim (Option-cases (find (is_user sess.user_id) db.users)) [
          | inl u ↦ rw (e, f, resolve_session, u) h
          | inr (owner, u) ↦ elim (Bool-cases (sess.revoked || ltb sess.expires_at now)) [
            | inl r ↦ rw (e, f, resolve_session, u, r) h
            | inr r ↦
                rw (e, f, resolve_session, u, r)
                  (update-IsEnded hash (has_hash mine) (slide timeout now) (λ s. refl) (λ s k. k)
                    db.sessions h)
          ]
        ]
      ]
    ]

start_session-IsEnded :
    (hash : Text) (crypto : Crypto) (timeout now : ℕ) (raw : Text) (user : User) (db : Accounts)
    → IsEnded hash db.sessions
    → IsEnded hash (start_session crypto timeout now raw user db).sessions
unfolding start_session
start_session-IsEnded hash crypto timeout now raw user db h = record {
  row = h.row;
  found = find-append (has_hash hash) db.sessions _ h.found;
  ended = h.ended;
}

end_session-IsEnded :
    (hash : Text) (crypto : Crypto) (raw : Text) (db : Accounts)
    → IsEnded hash db.sessions
    → IsEnded hash (end_session crypto raw db).sessions
unfolding end_session
end_session-IsEnded hash crypto raw db h = elim (Bool-cases (is_empty raw)) [
  | inl e ↦ rw e h
  | inr e ↦ rw e (
      update-IsEnded hash (has_hash (crypto.hash_token raw)) revoke_session (λ s. refl)
        (λ s k. refl) db.sessions h)
]

change_password-IsEnded :
    (hash : Text) (crypto : Crypto) (user : User) (old new : Text) (db : Accounts)
    → IsEnded hash db.sessions
    → IsEnded hash (or_same (change_password crypto user old new db) db).sessions
unfolding change_password
change_password-IsEnded hash crypto user old new db h =
    elim (Option-cases (crypto.verify old user.password_hash)) [
      | inl v ↦ rw (v, change_password) h
      | inr (hashed, v) ↦ elim (Result-cases (validate_password_strength new)) [
        | inr (e, w) ↦ rw (v, change_password, w) h
        | inl (u, w) ↦
            rw (v, change_password, w)
              (update-IsEnded hash (of_user user.id) revoke_session (λ s. refl) (λ s k. refl)
                db.sessions h)
      ]
    ]

create_initial_admin-sessions :
    (crypto : Crypto) (id : ℕ) (name password : Text) (db : Accounts)
    → (or_same (create_initial_admin crypto id name password db) db).sessions ≡ db.sessions
unfolding create_initial_admin
create_initial_admin-sessions crypto id name password db = ground arith

authenticate-sessions :
    (crypto : Crypto) (now : ℕ) (name password : Text) (db : Accounts)
    → (authenticate crypto now name password db).1.sessions ≡ db.sessions
unfolding authenticate
authenticate-sessions crypto now name password db =
    elim (Option-cases (find (λ u. text_eq u.username (lower (strip name))) db.users)) [
      | inl f ↦ rw (f, authenticate) refl
      | inr (u, f) ↦ elim (Option-cases (crypto.verify password u.password_hash)) [
        | inl v ↦ rw (f, authenticate, v) refl
        | inr (rehash, v) ↦ rw (f, authenticate, v) refl
      ]
    ]

serve-IsEnded :
    (hash : Text) (crypto : Crypto) (timeout : ℕ) (c : Call) (db : Accounts)
    → IsEnded hash db.sessions
    → IsEnded hash (serve crypto timeout c db).sessions
unfolding serve
serve-IsEnded hash crypto timeout (setup id name password) db h =
    rw (create_initial_admin-sessions crypto id name password db) h
serve-IsEnded hash crypto timeout (login now name password) db h =
    rw (authenticate-sessions crypto now name password db) h
serve-IsEnded hash crypto timeout (open_session now raw user) db h =
    start_session-IsEnded hash crypto timeout now raw user db h
serve-IsEnded hash crypto timeout (resolve now raw) db h =
    resolve_session-sessions hash crypto timeout now raw db h
serve-IsEnded hash crypto timeout (close raw) db h = end_session-IsEnded hash crypto raw db h
serve-IsEnded hash crypto timeout (change user old new) db h =
    change_password-IsEnded hash crypto user old new db h

pub serve_all-IsEnded :
    (hash : Text) (crypto : Crypto) (timeout : ℕ) (cs : List Call) (db : Accounts)
    → IsEnded hash db.sessions
    → IsEnded hash (serve_all crypto timeout cs db).sessions
unfolding serve_all
serve_all-IsEnded hash crypto timeout [] db h = h
serve_all-IsEnded hash crypto timeout (c ∷ cs) db h =
    serve_all-IsEnded hash crypto timeout cs (serve crypto timeout c db)
      (serve-IsEnded hash crypto timeout c db h)

-- A secret whose session is revoked is refused, and the tables stay as they are.
IsEnded-resolve_session :
    (crypto : Crypto) (timeout now : ℕ) (raw : Text) (db : Accounts)
    → IsEnded (crypto.hash_token raw) db.sessions
    → resolve_session crypto timeout now raw db ≡ (none, db)
unfolding resolve_session
IsEnded-resolve_session crypto timeout now raw db h = elim (Bool-cases (is_empty raw)) [
  | inl e ↦ rw e refl
  | inr e ↦ elim (Option-cases (find (is_user h.row.user_id) db.users)) [
    | inl u ↦ rw (e, h.found, resolve_session, u) refl
    | inr (owner, u) ↦ rw (e, h.found, resolve_session, u, h.ended) refl
  ]
]

-- A session that is in the table is refused for good once its operator has logged out: whatever
-- calls follow, logins, new sessions and changes of the password included, at whatever time.
pub end_session-is_final :
    (crypto : Crypto) (timeout now : ℕ) (raw : Text) (cs : List Call) (db : Accounts)
    (sess : Session)
    → find (has_hash (crypto.hash_token raw)) db.sessions ≡ some sess
    → is_empty raw ≡ false
    → (resolve_session crypto timeout now raw
        (serve_all crypto timeout cs (end_session crypto raw db))).0
      ≡ none
unfolding end_session
end_session-is_final crypto timeout now raw cs db sess f given =
    let hash = crypto.hash_token raw in
    let gone : IsEnded hash (end_session crypto raw db).sessions = record {
      row = revoke_session sess;
      found =
          rw
            (
              given,
              find-update_where (has_hash hash) (has_hash hash) revoke_session (λ s. refl)
                  db.sessions,
              f,
              find-holds (has_hash hash) db.sessions f,
            )
            refl;
      ended = refl;
    } in
    ap (λ p. p.0)
      (IsEnded-resolve_session crypto timeout now raw _
        (serve_all-IsEnded hash crypto timeout cs (end_session crypto raw db) gone))

-- Once an operator has changed the password, each session that the operator had before, the one of
-- the change included, is refused for good, whatever calls follow.
pub change_password-is_final :
    (crypto : Crypto) (timeout now : ℕ) (raw old new : Text) (cs : List Call) (user : User)
    (db changed_db : Accounts) (sess : Session)
    → change_password crypto user old new db ≡ ok changed_db
    → find (has_hash (crypto.hash_token raw)) db.sessions ≡ some sess
    → of_user user.id sess ≡ true
    → (resolve_session crypto timeout now raw (serve_all crypto timeout cs changed_db)).0 ≡ none
unfolding change_password
change_password-is_final crypto timeout now raw old new cs user db changed_db sess h f mine =
    let hash = crypto.hash_token raw in
    let revoked_rows : changed_db.sessions
        ≡ update_where (of_user user.id) revoke_session db.sessions =
      elim (Option-cases (crypto.verify old user.password_hash)) [
        | inl v ↦ ground arith
        | inr (hashed, v) ↦ elim (Result-cases (validate_password_strength new)) [
          | inr (e, w) ↦ ground arith
          | inl (u, w) ↦ ground arith
        ]
      ] in
    let gone : IsEnded hash changed_db.sessions = record {
      row = revoke_session sess;
      found =
          rw
            (
              revoked_rows,
              find-update_where (has_hash hash) (of_user user.id) revoke_session (λ s. refl)
                  db.sessions,
              f,
              mine,
            )
            refl;
      ended = refl;
    } in
    ap (λ p. p.0)
      (IsEnded-resolve_session crypto timeout now raw _
        (serve_all-IsEnded hash crypto timeout cs changed_db gone))
