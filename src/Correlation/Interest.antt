-- ===== src/Correlation/Interest.antt =====
-- recon/correlation/engine.py, `_interest`: the level of interest of an asset.
use recon_platform.Prelude.{
  ◌==◌, Bool, true, false, ◌&&◌, ◌||◌, none, some, List, [], ◌∷◌, drop, length, if◌then◌else◌,
}
use recon_platform.Prelude.Text.{Text, text, text_eq, lower, starts_with, before_first}
use recon_platform.Correlation.{
  AssetType, service, finding, email, document, netblock, InterestLevel, informational, notable,
  high_value, max_interest, Evidence,
}

-- The words of `_INTEREST_RE`.
abbrev words : List Text
words =
    text "admin"
    ∷ text "adminer"
    ∷ text "administrator"
    ∷ text "login"
    ∷ text "signin"
    ∷ text "logout"
    ∷ text "internal"
    ∷ text "intranet"
    ∷ text "staging"
    ∷ text "preprod"
    ∷ text "uat"
    ∷ text "vpn"
    ∷ text "jenkins"
    ∷ text "gitlab"
    ∷ text "gitea"
    ∷ text "phpmyadmin"
    ∷ text "grafana"
    ∷ text "kibana"
    ∷ text "jira"
    ∷ text "confluence"
    ∷ text "backup"
    ∷ text "backups"
    ∷ text "legacy"
    ∷ text "deprecated"
    ∷ text "actuator"
    ∷ text "swagger"
    ∷ text "graphql"
    ∷ text "api"
    ∷ text "apis"
    ∷ text "private"
    ∷ text "secret"
    ∷ text "upload"
    ∷ text "uploads"
    ∷ text "phpinfo"
    ∷ text "server-status"
    ∷ text "healthz"
    ∷ text "debug"
    ∷ text "portal"
    ∷ text "dashboard"
    ∷ text "wp-admin"
    ∷ text "wp-login"
    ∷ text ".git"
    ∷ text ".svn"
    ∷ text ".env"
    ∷ text ".htpasswd"
    ∷ text ".sql"
    ∷ text ".bak"
    ∷ []

abbrev is_edge : Text → Bool
is_edge [] = true
is_edge (c ∷ _) = c == b'/' || c == b'.' || c == b'_' || c == b'-'

-- A word stands here, and its end is an edge.
word_at : Text → List Text → Bool
word_at s [] = false
word_at s (w ∷ ws) = starts_with s w && is_edge (drop (length w) s) || word_at s ws

-- `_INTEREST_RE.search`, where `start` says that an edge stands before the text.
search_words : Bool → Text → Bool
unfolding word_at
search_words start [] = false
search_words start (c ∷ s) = start && word_at (c ∷ s) words || search_words (is_edge (c ∷ [])) s

unfoldable pub is_interesting : Text → Bool
unfolding search_words lower
is_interesting value = search_words true (lower value)

-- `_NEGATIVE_INTEREST`, with its default.
unfoldable pub negative_interest : Text → InterestLevel
unfolding text_eq
negative_interest kind =
    if text_eq kind (text "caa") || text_eq kind (text "mta_sts") || text_eq kind (text "tls_rpt")
    then informational
    else notable

abbrev raise_to : Bool → InterestLevel → InterestLevel
raise_to b best = if b then max_interest best notable else best

-- The hints in the evidence.
hinted : List Evidence → InterestLevel → InterestLevel
hinted [] best = best
hinted (e ∷ es) best = elim e.interest [
  | none ↦ hinted es best
  | some h ↦ hinted es (max_interest best h)
]

abbrev is_finding : AssetType → Bool
is_finding finding = true
is_finding _ = false

abbrev notable_type : AssetType → Bool
notable_type service = true
notable_type email = true
notable_type document = true
notable_type netblock = true
notable_type _ = false

-- `_interest`
unfoldable pub interest : AssetType → Text → List Evidence → InterestLevel
unfolding hinted is_interesting negative_interest max_interest starts_with
interest type value evs =
    let hint = hinted evs informational in
    let kind =
      if is_finding type
      then max_interest hint (negative_interest (before_first b':' value))
      else hint in
    if is_finding type && starts_with value (text "secret:")
    then high_value
    else raise_to (is_interesting value) (raise_to (notable_type type) kind)
