-- ===== src/Targets/Forms.antt =====
-- recon/modules/_targets.py: what the checks of a target's form are sure of, character by character.
use recon_platform.Prelude.{
  ℕ, ◌+◌, ◌≤◌, leb, ◌≡◌, ◌≢◌, true, false, ◌||◌, some, [], ◌∷◌, length, all, any, All, ok,
  Bool-cases, Option-cases, Result-cases, inl, inr, ◌⊎◌, arith,
}
use recon_platform.Prelude.Text.{Text, text, text_eq_iff, is_empty, strip, starts_with}
use recon_platform.Scope.Ip.{v4, v6, Version, Network, width}
use recon_platform.Scope.Networks.{ip_network}
use recon_platform.Scope.Urls.{Url, urlsplit}
use recon_platform.Targets.{
  is_hostname, is_safe_target, safe_url_root, hostname, safe_form, host_char, is_special, is_http,
  narrow,
}

-- A letter, a digit, a hyphen, a dot or an underscore.
abbrev pub IsHostChar : ℕ → Type 0
IsHostChar c =
    ((b'a' ≤ c) × (c ≤ b'z'))
    ⊎ ((b'A' ≤ c) × (c ≤ b'Z'))
    ⊎ ((b'0' ≤ c) × (c ≤ b'9'))
    ⊎ (c ≡ b'-')
    ⊎ (c ≡ b'.')
    ⊎ (c ≡ b'_')

abbrev pub HasNoOption : Text → Type 0
HasNoOption [] = Unit {0}
HasNoOption (c ∷ _) = c ≢ b'-'

-- An address or a network of 256 addresses at most, or a name.
abbrev pub IsPlace : Text → Type 0
IsPlace s =
    ((net : Network) × (ip_network false s ≡ some net)
      × (width net.first.version ≤ net.prefixlen + 8))
    ⊎ (All IsHostChar s × (length s ≤ 253))

pub record IsSafeHost (s : Text) : Type 0 where
  filled : strip s ≢ []
  no_option : HasNoOption (strip s)
  place : IsPlace (strip s)

-- A character that neither splits a command line nor ends a command.
abbrev pub IsQuiet : ℕ → Type 0
IsQuiet c =
    (c ≢ b' ')
    × (c ≢ 9)
    × (c ≢ 10)
    × (c ≢ 13)
    × (c ≢ b'`')
    × (c ≢ b'$')
    × (c ≢ b'|')
    × (c ≢ b';')
    × (c ≢ b'&')

pub record IsSafeUrl (s : Text) : Type 0 where
  parts : Url
  split : urlsplit s ≡ ok parts
  scheme : parts.scheme ≡ text "http" ⊎ parts.scheme ≡ text "https"
  host : IsSafeHost (hostname parts)
  quiet : All IsQuiet s

host_char-IsHostChar : (c : ℕ) → host_char c ≡ true → IsHostChar c
host_char-IsHostChar c h = ground arith

all-IsHostChar : (s : Text) → all host_char s ≡ true → All IsHostChar s
all-IsHostChar [] h = tt
all-IsHostChar (c ∷ s) h = (host_char-IsHostChar c (ground arith), all-IsHostChar s (ground arith))

starts_with-HasNoOption : (s : Text) → starts_with s (text "-") ≡ false → HasNoOption s
unfolding starts_with
starts_with-HasNoOption [] h = tt
starts_with-HasNoOption (c ∷ s) h = λ e. ground arith

narrow-width : (net : Network) → narrow net ≡ true → width net.first.version ≤ net.prefixlen + 8
narrow-width net h = go net.first.version h
  where
    go :
        (v : Version)
        → elim v [ v4 ↦ leb 24 net.prefixlen | v6 ↦ leb 120 net.prefixlen ] ≡ true
        → width v ≤ net.prefixlen + 8
    go v4 k = ground arith
    go v6 k = ground arith

safe_form-IsPlace : (s : Text) → safe_form (ip_network false s) s ≡ true → IsPlace s
unfolding safe_form is_hostname
safe_form-IsPlace s h = elim (Option-cases (ip_network false s)) [
  | inl name ↦
      let named : is_hostname s ≡ true = ground arith in
      inr (all-IsHostChar s (ground arith), ground arith)
  | inr (net, parsed) ↦
      let small : narrow net ≡ true = ground arith in inl (net, parsed, narrow-width net small)
]

pub is_safe_target-IsSafeHost : (s : Text) → is_safe_target s ≡ true → IsSafeHost s
unfolding is_safe_target
is_safe_target-IsSafeHost s h =
    elim (Bool-cases (is_empty (strip s) || starts_with (strip s) (text "-"))) [
      | inl bad ↦ ground arith
      | inr good ↦ record {
        filled = λ e. ground arith;
        no_option = starts_with-HasNoOption (strip s) (ground arith);
        place = safe_form-IsPlace (strip s) (ground arith);
      }
    ]

is_special-IsQuiet : (c : ℕ) → is_special c ≡ false → IsQuiet c
is_special-IsQuiet c h = ground arith

any-IsQuiet : (s : Text) → any is_special s ≡ false → All IsQuiet s
any-IsQuiet [] h = tt
any-IsQuiet (c ∷ s) h = (is_special-IsQuiet c (ground arith), any-IsQuiet s (ground arith))

pub safe_url_root-IsSafeUrl : (s : Text) → safe_url_root s ≡ true → IsSafeUrl s
unfolding safe_url_root
safe_url_root-IsSafeUrl s h = elim (Result-cases (urlsplit s)) [
  | inr (e, q) ↦ ground arith
  | inl (u, q) ↦
      let http : is_http u.scheme ≡ true = ground arith in
      let calm : any is_special s ≡ false = ground arith in
      let safe : is_safe_target (hostname u) ≡ true = ground arith in
      record {
        parts = u;
        split = q;
        scheme =
            ground (
              arith,
              http,
              text_eq_iff u.scheme (text "http"),
              text_eq_iff u.scheme (text "https"),
            );
        host = is_safe_target-IsSafeHost (hostname u) safe;
        quiet = any-IsQuiet s calm;
      }
]
