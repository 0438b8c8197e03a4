-- ===== src/Access/Tests.antt =====
-- Runs of the account service, with digests that are the texts themselves.
use recon_platform.Prelude.{
  ◌≤◌, ◌≡◌, refl, arith, none, some, [], ◌∷◌, ok, err, false, length, find, if◌then◌else◌,
}
use recon_platform.Prelude.Text.{text, text_eq}
use recon_platform.Access.{
  User, Session, ApiToken, Accounts, Crypto, weak_password, validate_password_strength, has_hash,
  resolve_session, end_session, change_password, revoke_session,
}
use recon_platform.Access.Sessions.{setup, open_session, serve_all, resolve_session-slides}
use recon_platform.Access.Revocation.{end_session-is_final, change_password-is_final}
use recon_platform.Access.Operator.{serve_all-length}
use recon_platform.Access.Tokens.{revoke_token, token_with, authenticate_token}
use recon_platform.Access.Tokens.Revoked.{revoke, token_calls, IsRevoked, revoke_token-is_final}

abbrev plain : Crypto
plain = record {
  hash_token = λ t. t;
  hash_password = λ p. p;
  verify = λ p h. if text_eq p h then some none else none;
}

abbrev alice : User
alice = record {
  id = 1;
  username = text "alice";
  password_hash = text "Correct-Horse9";
  last_login = none;
}

abbrev open_row : Session
open_row = record {
  user_id = 1;
  token_hash = text "secret";
  last_activity = 5;
  expires_at = 65;
  revoked = false;
}

abbrev token_row : ApiToken
token_row = record {
  id = 7;
  user_id = 1;
  name = text "cli";
  token_hash = text "recon_x";
  last_used = none;
  revoked_at = none;
}

abbrev accounts : Accounts
accounts = record { users = alice ∷ []; sessions = open_row ∷ []; tokens = token_row ∷ [] }

short_password : validate_password_strength (text "Ab1-") ≡ err weak_password
unfolding validate_password_strength
short_password = refl

plain_password : validate_password_strength (text "correcthorsebattery") ≡ err weak_password
unfolding validate_password_strength
plain_password = refl

accepted : (resolve_session plain 60 65 (text "secret") accounts).0 ≡ some alice
unfolding resolve_session text_eq
accepted = refl

resolve_session-slides_example :
    (resolve_session plain 60 126
      (text "secret")
      (resolve_session plain 60 65 (text "secret") accounts).1).0
    ≡ none
resolve_session-slides_example =
    resolve_session-slides plain 60 65 126 (text "secret") accounts alice accepted

there : find (has_hash (text "secret")) accounts.sessions ≡ some open_row
unfolding text_eq
there = refl

end_session-is_final_example :
    (resolve_session plain 60 10 (text "secret") (
      serve_all plain 60
        (open_session 9 (text "other") alice ∷ [])
        (end_session plain (text "secret") accounts))).0
    ≡ none
end_session-is_final_example =
    end_session-is_final plain 60 10 (text "secret") (open_session 9 (text "other") alice ∷ [])
      accounts open_row there refl

abbrev changed_accounts : Accounts
changed_accounts = record {
  users = record alice { password_hash = text "Battery-Staple7" } ∷ [];
  sessions = revoke_session open_row ∷ [];
  tokens = token_row ∷ [];
}

changes :
    change_password plain alice (text "Correct-Horse9") (text "Battery-Staple7") accounts
    ≡ ok changed_accounts
unfolding change_password text_eq
changes = refl

change_password-is_final_example :
    (resolve_session plain 60 10 (text "secret") (serve_all plain 60 [] changed_accounts)).0 ≡ none
change_password-is_final_example =
    change_password-is_final plain 60 10 (text "secret") (text "Correct-Horse9")
      (text "Battery-Staple7") [] alice accounts changed_accounts open_row changes there refl

serve_all-length_example :
    length
      (serve_all plain 60
        (setup 1 (text "Alice") (text "Correct-Horse9")
          ∷ setup 2 (text "bob") (text "Correct-Horse9")
          ∷ [])
        (record { users = []; sessions = []; tokens = [] })).users
    ≤ 1
serve_all-length_example =
    serve_all-length plain 60
      (setup 1 (text "Alice") (text "Correct-Horse9")
        ∷ setup 2 (text "bob") (text "Correct-Horse9")
        ∷ [])
      (record { users = []; sessions = []; tokens = [] }) (omega arith)

abbrev revoked_accounts : Accounts
revoked_accounts = record accounts { tokens = record token_row { revoked_at = some 20 } ∷ [] }

revokes : revoke_token 20 alice 7 accounts ≡ ok revoked_accounts
unfolding revoke_token
revokes = refl

has_token : find (token_with (text "recon_x")) accounts.tokens ≡ some token_row
unfolding text_eq
has_token = refl

revoke_token-is_final_example :
    ((authenticate_token plain 30
        (text "recon_x")
        (token_calls plain (revoke 25 alice 7 ∷ []) revoked_accounts)).0
      ≡ none)
    × IsRevoked
        (text "recon_x")
        20
        (token_calls plain (revoke 25 alice 7 ∷ []) revoked_accounts).tokens
revoke_token-is_final_example =
    revoke_token-is_final plain 20 30 (text "recon_x") alice (revoke 25 alice 7 ∷ []) accounts
      revoked_accounts token_row revokes has_token refl
