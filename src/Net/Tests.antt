-- ===== src/Net/Tests.antt =====
-- Runs of the backoff and of the client, with a network that redirects.
use recon_platform.Prelude.{
  ℕ, ◌+◌, ◌-◌, ◌*◌, max, ◌/◌, ◌≤◌, ◌≡◌, refl, leb, ◌==◌, none, some, List, [], ◌∷◌, ◌++◌, ok, true,
  false, arith, length, if◌then◌else◌, ◌↔◌,
}
use recon_platform.Prelude.Text.{
  Text, text, has_text, cut, count_char, is_numeric, split, has_char, decimal_from, text_eq,
  starts_with, ends_with, elem, lower, strip, rstrip_dots, before_first, after_last,
}
use recon_platform.Scope.Ip.{ip_address}
use recon_platform.Scope.Networks.{ip_network}
use recon_platform.Scope.{extract_host, classify, candidates, matches_any, any_in_cidrs}
use recon_platform.Scope.Tests.{example_rules}
use recon_platform.Net.KillSwitch.{
  engaging, resetting, is_engaged, new_switch, switch_calls, raise_if_engaged, stopped_by,
  raise_if_engaged-switch_calls,
}
use recon_platform.Net.Backoff.{RateArith, IsRateArith, Controller, record_outcome}
use recon_platform.Net.Backoff.Bounds.{Sample, InBounds, outcomes_of, outcomes_of-InBounds}
use recon_platform.Net.Backoff.Burst.{outcomes_of-trips}
use recon_platform.Net.RateLimit.{
  new_limiter, update_rate, refill, acquire, returns, acquire-update_rate,
}
use recon_platform.Net.Client.{get, Method, Reply, response, Config, ClientState, request}
use recon_platform.Net.Refusals.{refusals, refused}
use recon_platform.Net.Gate.{IsGated, request-IsGated}
use recon_platform.Net.Hops.{request-length}

-- Rates in thousandths.
abbrev thousandths : RateArith
thousandths = record {
  Rate = ℕ;
  le = leb;
  least = 10;
  floor_of = λ x. x / 10;
  cut = λ x. x / 2;
  recover = λ x. x + x / 2;
}

thousandths-IsRateArith : IsRateArith thousandths
thousandths-IsRateArith = record {
  le_refl = λ x. ground arith;
  le_trans = λ x y z a b. ground arith;
  le_total = λ x y a. ground arith;
  floor_le = λ x. ground arith;
  cut_le = λ x. ground arith;
  le_recover = λ x. ground arith;
}

abbrev burst : List Sample
burst =
    record { now = 1; throttled = true; failed = false }
    ∷ record { now = 2; throttled = true; failed = false }
    ∷ record { now = 40; throttled = false; failed = false }
    ∷ []

abbrev fresh : Controller thousandths
fresh = record {
  base_rate = 9000;
  current_rate = 9000;
  outcomes = [];
  cooldown_until = 0;
  trips = 0;
}

burst_recovers : (outcomes_of thousandths 15 burst fresh).current_rate ≡ 6750
unfolding outcomes_of record_outcome
burst_recovers = refl

outcomes_of-InBounds_example : InBounds thousandths 9000 (outcomes_of thousandths 15 burst fresh)
outcomes_of-InBounds_example =
    outcomes_of-InBounds thousandths thousandths-IsRateArith 15 burst 9000 fresh
      (record { ceiling = refl; above = refl; below = refl })

abbrev two_failures : List Sample
two_failures =
    record { now = 1; throttled = true; failed = false }
    ∷ record { now = 2; throttled = true; failed = false }
    ∷ []

outcomes_of-trips_example :
    ((outcomes_of thousandths 15 two_failures fresh).trips ≤ 1)
    × (leb 4500 (outcomes_of thousandths 15 two_failures fresh).current_rate ≡ true)
outcomes_of-trips_example =
    outcomes_of-trips thousandths thousandths-IsRateArith (λ x y h. ground arith) 15 1 two_failures
      9000 fresh (record { ceiling = refl; above = refl; below = refl })
      ((omega arith, omega arith), ((omega arith, omega arith), tt))

raise_if_engaged-switch_calls_example :
    (raise_if_engaged (switch_calls (resetting ∷ engaging "stop" none 3 ∷ []) new_switch) ≡ ok tt)
    ↔ (stopped_by (is_engaged new_switch) (resetting ∷ engaging "stop" none 3 ∷ []) ≡ false)
raise_if_engaged-switch_calls_example =
    raise_if_engaged-switch_calls (resetting ∷ engaging "stop" none 3 ∷ []) new_switch

abbrev redirecting : ℕ → Method → Text → Reply
redirecting n method url =
    if text_eq url (text "http://www.example.com/")
    then response 302 true (some (text "http://mail.example.com/"))
    else response 200 false none

abbrev config : Config
config = record {
  roe = example_rules;
  allow_oos = false;
  user_agents = "one" ∷ "two" ∷ [];
  random_rotation = false;
  choice = λ n. 0;
  network = redirecting;
  urljoin = λ base location. location;
  audit_works = λ n. n == 0;
}

abbrev unused : ClientState
unused = record { sent = []; trail = []; ua_index = 0; outcomes = [] }

-- The second hop leads to an excluded host: one request went out, and two rows were written.
one_hop :
    (request config true none none true 5 get (text "http://www.example.com/") unused).1.sent
    ≡ (get, text "http://www.example.com/") ∷ []
unfolding request extract_host classify matches_any any_in_cidrs ip_address ip_network candidates
    has_text cut count_char is_numeric split has_char decimal_from text_eq starts_with ends_with
    elem lower strip rstrip_dots before_first after_last
one_hop = refl

two_rows :
    length
      (request config true none none true 5 get (text "http://www.example.com/") unused).1.trail
    ≡ 2
unfolding request extract_host classify matches_any any_in_cidrs ip_address ip_network candidates
    has_text cut count_char is_numeric split has_char decimal_from text_eq starts_with ends_with
    elem lower strip rstrip_dots before_first after_last
two_rows = refl

request-IsGated_example :
    IsGated config none
      (request config true none none true 5 get (text "http://www.example.com/") unused).1
    × (refusals
          (request config true none none true 5 get (text "http://www.example.com/") unused).1.trail
        ≡ refused
            (request config true none none true 5 get (text "http://www.example.com/") unused).0
          ++ [])
request-IsGated_example =
    request-IsGated config none none true 5 get (text "http://www.example.com/") unused
      (record { permitted = tt; complete = refl })

request-length_example :
    length (request config true none none true 5 get (text "http://www.example.com/") unused).1.sent
    ≤ 6
request-length_example =
    request-length config true none none true 5 get (text "http://www.example.com/") unused

-- Six tenths of a second are slept for the three eighths of a request that miss.
missing_slept :
    1000000 ≤ (refill 0 (update_rate 625 (new_limiter 5000 0))).tokens + (600 - 0) * max 625 10
unfolding refill update_rate new_limiter
missing_slept = omega arith

acquire-update_rate_example :
    returns (acquire (0 ∷ 600 ∷ 9000 ∷ []) (update_rate 625 (new_limiter 5000 0))) ≡ leb 1000 625
acquire-update_rate_example =
    acquire-update_rate 625 0 600 (9000 ∷ []) (new_limiter 5000 0) missing_slept

-- At five requests per second an empty bucket serves after a fifth of a second.
refilled : returns (acquire (0 ∷ 200 ∷ []) (record (new_limiter 5000 0) { tokens = 0 })) ≡ true
unfolding acquire refill new_limiter
refilled = refl
