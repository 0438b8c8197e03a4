-- ===== src/Access/Sessions.antt =====
-- recon/orchestrator/auth.py: sequences of calls of the service, and the sliding expiry of a session.
use recon_platform.Prelude.{
  ℕ, ◌+◌, leb, ltb, ◌≡◌, refl, false, ◌||◌, none, some, List, [], ◌∷◌, find, update_where,
  if◌then◌else◌, Result, ok, err, Option-cases, Bool-cases, inl, inr, arith,
}
use recon_platform.Prelude.Text.{Text, is_empty}
use recon_platform.Access.{
  User, Session, Accounts, Crypto, AccessError, create_initial_admin, authenticate, start_session,
  has_hash, slide, resolve_session, end_session, change_password, is_user,
}
use recon_platform.Access.Rows.{find-update_where, find-holds}

pub data Call : Type 0 where
  setup : ℕ → Text → Text → Call
  login : ℕ → Text → Text → Call
  open_session : ℕ → Text → User → Call
  resolve : ℕ → Text → Call
  close : Text → Call
  change : User → Text → Text → Call

abbrev pub or_same : Result AccessError Accounts → Accounts → Accounts
or_same (ok db) old = db
or_same (err _) old = old

-- A call of the service by a route; one that raises changes nothing.
unfoldable pub serve : Crypto → ℕ → Call → Accounts → Accounts
serve crypto timeout (setup id name password) db =
    or_same (create_initial_admin crypto id name password db) db
serve crypto timeout (login now name password) db = (authenticate crypto now name password db).1
serve crypto timeout (open_session now raw user) db = start_session crypto timeout now raw user db
serve crypto timeout (resolve now raw) db = (resolve_session crypto timeout now raw db).1
serve crypto timeout (close raw) db = end_session crypto raw db
serve crypto timeout (change user old new) db = or_same (change_password crypto user old new db) db

unfoldable pub serve_all : Crypto → ℕ → List Call → Accounts → Accounts
unfolding serve
serve_all crypto timeout [] db = db
serve_all crypto timeout (c ∷ cs) db = serve_all crypto timeout cs (serve crypto timeout c db)

-- The answer to a session that the tables hold in this form.
pub resolve_session-found :
    (crypto : Crypto) (timeout now : ℕ) (raw : Text) (db : Accounts) (sess : Session) (user : User)
    → is_empty raw ≡ false
    → find (has_hash (crypto.hash_token raw)) db.sessions ≡ some sess
    → find (is_user sess.user_id) db.users ≡ some user
    → resolve_session crypto timeout now raw db ≡ (
        if sess.revoked || ltb sess.expires_at now then (none, db) else (
          some user,
          record db {
            sessions =
                update_where (has_hash (crypto.hash_token raw)) (slide timeout now) db.sessions;
          },
        ))
unfolding resolve_session
resolve_session-found crypto timeout now raw db sess user e f u = rw (e, f, resolve_session, u) refl

abbrev slid : Crypto → ℕ → ℕ → Text → Accounts → Accounts
slid crypto timeout now raw db = record db {
  sessions = update_where (has_hash (crypto.hash_token raw)) (slide timeout now) db.sessions;
}

-- What is behind an accepted secret.
record Accepted (crypto : Crypto) (timeout now : ℕ) (raw : Text) (db : Accounts) (user : User)
    : Type 0 where
  row : Session
  given : is_empty raw ≡ false
  found : find (has_hash (crypto.hash_token raw)) db.sessions ≡ some row
  owner : find (is_user row.user_id) db.users ≡ some user
  alive : row.revoked ≡ false
  after : resolve_session crypto timeout now raw db ≡ (some user, slid crypto timeout now raw db)

resolve_session-Accepted :
    (crypto : Crypto) (timeout now : ℕ) (raw : Text) (db : Accounts) (user : User)
    → (resolve_session crypto timeout now raw db).0 ≡ some user
    → Accepted crypto timeout now raw db user
unfolding resolve_session
resolve_session-Accepted crypto timeout now raw db user h =
    let hash = crypto.hash_token raw in
    elim (Bool-cases (is_empty raw)) [
      | inl e ↦ let no_user : (resolve_session crypto timeout now raw db).0 ≡ none = rw e refl in cc
      | inr e ↦ elim (Option-cases (find (has_hash hash) db.sessions)) [
        | inl f ↦
            let no_user : (resolve_session crypto timeout now raw db).0 ≡ none =
              rw (e, f, resolve_session) refl in
            cc
        | inr (sess, f) ↦ elim (Option-cases (find (is_user sess.user_id) db.users)) [
          | inl u ↦
              let no_user : (resolve_session crypto timeout now raw db).0 ≡ none =
                rw (e, f, resolve_session, u) refl in
              cc
          | inr (owner, u) ↦
              let answer = resolve_session-found crypto timeout now raw db sess owner e f u in
              elim (Bool-cases (sess.revoked || ltb sess.expires_at now)) [
                | inl r ↦
                    let no_user : (resolve_session crypto timeout now raw db).0 ≡ none =
                      rw (answer, r) refl in
                    cc
                | inr r ↦
                    let same : (resolve_session crypto timeout now raw db).0 ≡ some owner =
                      rw (answer, r) refl in
                    let one : owner ≡ user = cc in
                    rw⁻¹ one (record {
                      row = sess;
                      given = e;
                      found = f;
                      owner = u;
                      alive = ground arith;
                      after = rw (answer, r) refl;
                    })
              ]
        ]
      ]
    ]

-- A session that is accepted at `now` is accepted again, in the tables that are left then, up to and
-- including `timeout` after that and no longer, for the same operator.
pub resolve_session-slides :
    (crypto : Crypto) (timeout now later : ℕ) (raw : Text) (db : Accounts) (user : User)
    → (resolve_session crypto timeout now raw db).0 ≡ some user
    → (resolve_session crypto timeout later raw (resolve_session crypto timeout now raw db).1).0
      ≡ (if leb later (now + timeout) then some user else none)
resolve_session-slides crypto timeout now later raw db user h =
    let a = resolve_session-Accepted crypto timeout now raw db user h in
    let hash = crypto.hash_token raw in
    let again : find (has_hash hash) (slid crypto timeout now raw db).sessions
        ≡ some (slide timeout now a.row) =
      rw
        (
          find-update_where (has_hash hash) (has_hash hash) (slide timeout now) (λ s. refl)
              db.sessions,
          a.found,
          find-holds (has_hash hash) db.sessions a.found,
        )
        refl in
    let answer =
      resolve_session-found crypto timeout later raw (slid crypto timeout now raw db)
        (slide timeout now a.row) user a.given again a.owner in
    rw (a.after, answer, a.alive)
      (elim (Bool-cases (ltb (now + timeout) later)) [
        | inl l ↦ ground (arith, l)
        | inr l ↦ ground (arith, l)
      ])
