-- ===== src/Engagements/Tests.antt =====
-- Runs of the engagement service.
use recon_platform.Prelude.{◌≡◌, refl, Option, none, some, [], ◌∷◌, err, false, length}
use recon_platform.Prelude.Text.{Text, text, strip}
use recon_platform.Engagements.{
  RoeConfig, Tables, not_found, archived, create, set_active, list_engagements, creating, marking,
  focusing, purging, get, set_status, calls,
}
use recon_platform.Engagements.Pointers.{AreShown, calls-AreShown}

abbrev load : Text → Option (RoeConfig × Text)
load raw = some (
  record { name = raw; client = text "Acme"; window = some (3, 9); analysis_enabled = false },
  text "hash",
)

abbrev nothing : Tables
nothing = record {
  engagements = [];
  operators = record { id = 1; active_engagement_id = none } ∷ [];
  evidence = [];
}

absent : set_active 1 (some 5) nothing ≡ err not_found
unfolding set_active get
absent = refl

hidden :
    length (
      list_engagements false
        (calls load (creating 5 (text "a") none ∷ marking 5 archived ∷ []) nothing))
    ≡ 0
unfolding calls list_engagements strip set_status create
hidden = refl

calls-AreShown_example :
    AreShown
      (calls load (creating 5 (text "a") none ∷ focusing 1 (some 5) ∷ purging 5 ∷ []) nothing)
calls-AreShown_example =
    calls-AreShown load (creating 5 (text "a") none ∷ focusing 1 (some 5) ∷ purging 5 ∷ []) nothing
      (tt, tt)
