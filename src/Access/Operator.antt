-- ===== src/Access/Operator.antt =====
-- recon/orchestrator/auth.py: there is one operator account.
use recon_platform.Prelude.{
  ℕ, ◌≤◌, ◌==◌, ltb, ◌||◌, ◌≡◌, refl, Bool, List, [], ◌∷◌, length, find, update_where, Option-cases,
  Bool-cases, inl, inr, arith, length-append, Result-cases,
}
use recon_platform.Prelude.Text.{Text, is_empty, text_eq, strip, lower}
use recon_platform.Access.{
  User, Accounts, Crypto, create_initial_admin, authenticate, start_session, has_hash, needs_setup,
  is_user, logged_in, resolve_session, end_session, change_password, validate_password_strength,
}
use recon_platform.Access.Sessions.{
  Call, setup, login, open_session, resolve, close, change, or_same, serve, serve_all,
}

length-update_where {ℓ} :
    {A : Type ℓ} (p : A → Bool) (f : A → A) (xs : List A) → length (update_where p f xs) ≡ length xs
length-update_where p f [] = refl
length-update_where p f (x ∷ xs) = omega (arith, length-update_where p f xs)

create_initial_admin-length :
    (crypto : Crypto) (id : ℕ) (name password : Text) (db : Accounts)
    → length db.users ≤ 1
    → length (or_same (create_initial_admin crypto id name password db) db).users ≤ 1
unfolding create_initial_admin needs_setup
create_initial_admin-length crypto id name password db h =
    let who = lower (strip name) in
    elim (Bool-cases (length db.users == 0)) [
      | inr e ↦ rw e h
      | inl e ↦ elim (Bool-cases (is_empty who || ltb 64 (length who))) [
        | inl b ↦ rw (e, b) h
        | inr b ↦ elim (Result-cases (validate_password_strength password)) [
          | inr (w, v) ↦ rw (e, b, v) h
          | inl (w, v) ↦ rw (e, b, v, length-append db.users) (ground (arith, e))
        ]
      ]
    ]

authenticate-length :
    (crypto : Crypto) (now : ℕ) (name password : Text) (db : Accounts)
    → length (authenticate crypto now name password db).1.users ≡ length db.users
unfolding authenticate
authenticate-length crypto now name password db =
    elim (Option-cases (find (λ u. text_eq u.username (lower (strip name))) db.users)) [
      | inl f ↦ rw (f, authenticate) refl
      | inr (u, f) ↦ elim (Option-cases (crypto.verify password u.password_hash)) [
        | inl v ↦ rw (f, authenticate, v) refl
        | inr (rehash, v) ↦
            rw (f, authenticate, v)
              (length-update_where (is_user u.id) (logged_in now rehash) db.users)
      ]
    ]

resolve_session-length :
    (crypto : Crypto) (timeout now : ℕ) (raw : Text) (db : Accounts)
    → (resolve_session crypto timeout now raw db).1.users ≡ db.users
unfolding resolve_session
resolve_session-length crypto timeout now raw db = elim (Bool-cases (is_empty raw)) [
  | inl e ↦ rw e refl
  | inr e ↦ elim (Option-cases (find (has_hash (crypto.hash_token raw)) db.sessions)) [
    | inl f ↦ rw (e, f, resolve_session) refl
    | inr (sess, f) ↦ elim (Option-cases (find (is_user sess.user_id) db.users)) [
      | inl u ↦ rw (e, f, resolve_session, u) refl
      | inr (owner, u) ↦ elim (Bool-cases (sess.revoked || ltb sess.expires_at now)) [
        | inl r ↦ rw (e, f, resolve_session, u, r) refl
        | inr r ↦ rw (e, f, resolve_session, u, r) refl
      ]
    ]
  ]
]

change_password-length :
    (crypto : Crypto) (user : User) (old new : Text) (db : Accounts)
    → length (or_same (change_password crypto user old new db) db).users ≡ length db.users
unfolding change_password
change_password-length crypto user old new db =
    elim (Option-cases (crypto.verify old user.password_hash)) [
      | inl v ↦ rw (v, change_password) refl
      | inr (hashed, v) ↦ elim (Result-cases (validate_password_strength new)) [
        | inr (e, w) ↦ rw (v, change_password, w) refl
        | inl (u, w) ↦
            rw (v, change_password, w)
              (length-update_where (is_user user.id)
                (λ x. record x { password_hash = crypto.hash_password new }) db.users)
      ]
    ]

serve-length :
    (crypto : Crypto) (timeout : ℕ) (c : Call) (db : Accounts)
    → length db.users ≤ 1
    → length (serve crypto timeout c db).users ≤ 1
unfolding serve start_session end_session
serve-length crypto timeout (setup id name password) db h =
    create_initial_admin-length crypto id name password db h
serve-length crypto timeout (login now name password) db h =
    rw (authenticate-length crypto now name password db) h
serve-length crypto timeout (open_session now raw user) db h = h
serve-length crypto timeout (resolve now raw) db h =
    rw (resolve_session-length crypto timeout now raw db) h
serve-length crypto timeout (close raw) db h = elim (Bool-cases (is_empty raw)) [
  | inl e ↦ rw e h
  | inr e ↦ rw e h
]
serve-length crypto timeout (change user old new) db h =
    rw (change_password-length crypto user old new db) h

-- Whatever calls of the service are made, and however often the first-run setup is tried, there is
-- never more than one account, when there was none or one before.
pub serve_all-length :
    (crypto : Crypto) (timeout : ℕ) (cs : List Call) (db : Accounts)
    → length db.users ≤ 1
    → length (serve_all crypto timeout cs db).users ≤ 1
unfolding serve_all
serve_all-length crypto timeout [] db h = h
serve_all-length crypto timeout (c ∷ cs) db h =
    serve_all-length crypto timeout cs (serve crypto timeout c db)
      (serve-length crypto timeout c db h)
