-- ===== src/Scope/Tests.antt =====
-- Runs of the scope manager on rules with a wildcard, a network and exclusions.
use recon_platform.Prelude.{◌≡◌, refl, none, some, [], ◌∷◌, ok, err, true, false}
use recon_platform.Prelude.Text.{
  text, has_text, cut, count_char, is_numeric, split, has_char, decimal_from, text_eq, starts_with,
  ends_with, elem, lower, strip, rstrip_dots, before_first, after_last,
}
use recon_platform.Scope.Ip.{v4, v6, ip_address}
use recon_platform.Scope.Networks.{ip_network}
use recon_platform.Scope.Urls.{value_error}
use recon_platform.Scope.{
  flagged, excluded, Rules, cidr_match, no_match, listed_host, ScopeDecision, extract_host,
  candidates, matches_any, any_in_cidrs, classify, check_window, after_window,
}
use recon_platform.Scope.Names.{classify-IsName}
use recon_platform.Scope.Verdict.{Follows, classify-Follows}

abbrev pub example_rules : Rules
example_rules = record {
  allowed = record {
    domains = text "*.example.com" ∷ text "example.com" ∷ [];
    cidrs = text "10.0.0.0/24" ∷ [];
    hosts = [];
  };
  barred = record {
    domains = [];
    cidrs = text "10.0.0.128/25" ∷ [];
    hosts = text "mail.example.com" ∷ [];
  };
}

url_host :
    extract_host (text " https://user@WWW.Example.com:8443/a?b ") ≡ ok (text "www.example.com")
unfolding extract_host has_text cut count_char is_numeric split has_char decimal_from text_eq
    starts_with ends_with elem lower strip rstrip_dots before_first after_last
url_host = refl

v6_host : extract_host (text "[FE80::1]:443") ≡ ok (text "fe80::1")
unfolding extract_host has_text cut count_char is_numeric split has_char decimal_from text_eq
    starts_with ends_with elem lower strip rstrip_dots before_first after_last
v6_host = refl

open_bracket : extract_host (text "[fe80::1") ≡ err value_error
unfolding extract_host has_text cut count_char is_numeric split has_char decimal_from text_eq
    starts_with ends_with elem lower strip rstrip_dots before_first after_last
open_bracket = refl

compressed_v6 :
    ip_address (text "::ffff:1.2.3.4") ≡ some (record { version = v6; number = 281470698652420 })
unfolding ip_address has_text cut count_char is_numeric split has_char decimal_from text_eq
    starts_with ends_with elem lower strip rstrip_dots before_first after_last
compressed_v6 = refl

leading_zero : ip_address (text "10.0.0.01") ≡ none
unfolding ip_address has_text cut count_char is_numeric split has_char decimal_from text_eq
    starts_with ends_with elem lower strip rstrip_dots before_first after_last
leading_zero = refl

loose_network :
    ip_network false (text "10.0.0.9/255.255.255.0")
    ≡ some (record { first = record { version = v4; number = 167772160 }; prefixlen = 24 })
unfolding ip_network ip_address has_text cut count_char is_numeric split has_char decimal_from
    text_eq starts_with ends_with elem lower strip rstrip_dots before_first after_last
loose_network = refl

strict_network : ip_network true (text "10.0.0.9/24") ≡ none
unfolding ip_network ip_address has_text cut count_char is_numeric split has_char decimal_from
    text_eq starts_with ends_with elem lower strip rstrip_dots before_first after_last
strict_network = refl

abbrev mail : ScopeDecision
mail = record {
  status = excluded;
  target = text "MAIL.example.com.";
  host = text "mail.example.com";
  reason = listed_host;
}

mail_is_excluded : classify example_rules (text "MAIL.example.com.") [] ≡ ok mail
unfolding classify extract_host matches_any any_in_cidrs ip_address ip_network candidates has_text
    cut count_char is_numeric split has_char decimal_from text_eq starts_with ends_with elem lower
    strip rstrip_dots before_first after_last
mail_is_excluded = refl

resolved_is_excluded :
    classify example_rules (text "www.example.com") (text "10.0.0.200" ∷ [])
    ≡ ok (record {
      status = excluded;
      target = text "www.example.com";
      host = text "www.example.com";
      reason = cidr_match;
    })
unfolding classify extract_host matches_any any_in_cidrs ip_address ip_network candidates has_text
    cut count_char is_numeric split has_char decimal_from text_eq starts_with ends_with elem lower
    strip rstrip_dots before_first after_last
resolved_is_excluded = refl

other_is_flagged :
    classify example_rules (text "example.org") []
    ≡ ok (record {
      status = flagged;
      target = text "example.org";
      host = text "example.org";
      reason = no_match;
    })
unfolding classify extract_host matches_any any_in_cidrs ip_address ip_network candidates has_text
    cut count_char is_numeric split has_char decimal_from text_eq starts_with ends_with elem lower
    strip rstrip_dots before_first after_last
other_is_flagged = refl

after_the_end : check_window (some (record { start = 3; end = 7; hard = false })) 8 ≡ after_window
unfolding check_window
after_the_end = refl

classify-Follows_example :
    (extract_host (text "MAIL.example.com.") ≡ ok (text "mail.example.com"))
    × Follows example_rules mail (candidates (text "mail.example.com" ∷ []))
classify-Follows_example =
    classify-Follows example_rules (text "MAIL.example.com.") [] mail mail_is_excluded

same_name :
    lower (rstrip_dots (text "MAIL.example.com.")) ≡ lower (rstrip_dots (text "mail.EXAMPLE.com"))
unfolding lower rstrip_dots
same_name = refl

classify-IsName_example :
    classify example_rules (text "mail.EXAMPLE.com") []
    ≡ ok (record mail { target = text "mail.EXAMPLE.com" })
classify-IsName_example =
    classify-IsName example_rules (text "MAIL.example.com.") (text "mail.EXAMPLE.com") [] mail refl
      refl same_name mail_is_excluded
