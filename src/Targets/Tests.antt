-- ===== src/Targets/Tests.antt =====
-- Runs of the resolution of targets.
use recon_platform.Prelude.{◌≡◌, refl, true, false, none, some, List, [], ◌∷◌, ok, err}
use recon_platform.Prelude.Text.{
  Text, text, cut, is_numeric, split, has_char, decimal_from, text_eq, starts_with, lower, strip,
  lstrip_if, before_first, after_last,
}
use recon_platform.Scope.Ip.{ip_address}
use recon_platform.Scope.Networks.{ip_network}
use recon_platform.Scope.Urls.{urlsplit, value_error}
use recon_platform.Scope.{in_scope, flagged, excluded}
use recon_platform.Targets.{is_safe_target, safe_url_root, normalize_url_root, hostname, port_of}
use recon_platform.Targets.Resolve.{
  hostname as host_type, explicit, out_of_scope, candidate, roe_host, RawCandidate,
  TargetResolution, Provenance,
}

option_is_unsafe : is_safe_target (text "-oX") ≡ false
unfolding is_safe_target strip starts_with
option_is_unsafe = refl

wide_is_unsafe : is_safe_target (text "0.0.0.0/0") ≡ false
unfolding is_safe_target strip starts_with ip_network ip_address split is_numeric decimal_from
    has_char
wide_is_unsafe = refl

-- A root with a port that is no port passes the check, and then cannot be written.
bad_port_is_safe : safe_url_root (text "http://example.com:99999/") ≡ true
unfolding safe_url_root urlsplit hostname is_safe_target strip starts_with ip_network ip_address
    split is_numeric decimal_from has_char cut text_eq before_first after_last lower
bad_port_is_safe = refl

bad_port_raises : normalize_url_root (text "http://example.com:99999/") ≡ err value_error
unfolding normalize_url_root lstrip_if urlsplit hostname port_of starts_with has_char cut text_eq
    before_first after_last lower is_numeric decimal_from
bad_port_raises = refl

-- The root of an IPv6 host loses its brackets, and is then unsafe.
v6_root : normalize_url_root (text "http://[::1]:8080/") ≡ ok (text "http://::1:8080/")
unfolding normalize_url_root lstrip_if urlsplit hostname port_of starts_with has_char cut text_eq
    before_first after_last lower is_numeric decimal_from ip_address split
v6_root = refl

v6_root_is_unsafe : safe_url_root (text "http://::1:8080/") ≡ false
unfolding safe_url_root urlsplit hostname is_safe_target strip starts_with ip_network ip_address
    split is_numeric decimal_from has_char cut text_eq before_first after_last lower
v6_root_is_unsafe = refl

abbrev of_rules : Provenance
of_rules = record { source_module = none; evidence_id = none; scan_run_id = none }

abbrev raw : Text → RawCandidate
raw value = record {
  value = value;
  target_type = host_type;
  source_kind = roe_host;
  source = of_rules;
  resolved_ips = [];
}

abbrev raws : List RawCandidate
raws = raw (text "www.example.com") ∷ raw (text "mail.example.com") ∷ raw (text "example.org") ∷ []

abbrev found : TargetResolution
found = record {
  eligible = candidate (raw (text "www.example.com")) in_scope none ∷ [];
  excluded_ones =
      candidate (raw (text "mail.example.com")) excluded (some explicit)
      ∷ candidate (raw (text "example.org")) flagged (some out_of_scope)
      ∷ [];
}
