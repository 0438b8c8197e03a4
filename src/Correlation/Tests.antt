-- ===== src/Correlation/Tests.antt =====
-- Runs of the correlation of one asset.
use recon_platform.Prelude.{◌≡◌, refl, true, false, none, some, List, [], ◌∷◌}
use recon_platform.Prelude.Text.{text, text_eq, starts_with, lower}
use recon_platform.Correlation.{finding, high_value, Evidence, distinct_sources, confidence}
use recon_platform.Correlation.Interest.{is_interesting, interest}

abbrev two_sources : List Evidence
two_sources =
    record {
      source_module = "passive_subdomains";
      source = some "crt.sh";
      interest = none;
      discovered_at = some 4;
    }
    ∷ record {
      source_module = "passive_subdomains";
      source = some "otx";
      interest = none;
      discovered_at = some 2;
    }
    ∷ record {
      source_module = "passive_subdomains";
      source = some "otx";
      interest = none;
      discovered_at = some 9;
    }
    ∷ []

three_quarters : confidence (distinct_sources two_sources) ≡ 15
unfolding confidence distinct_sources
three_quarters = refl

admin_host : is_interesting (text "Admin.example.com") ≡ true
unfolding is_interesting starts_with lower
admin_host = refl

skills_path : is_interesting (text "example.com/skills/devsecops-engineer") ≡ false
unfolding is_interesting starts_with lower
skills_path = refl

secret_finding : interest finding (text "secret:x") [] ≡ high_value
unfolding interest starts_with text_eq
secret_finding = refl
