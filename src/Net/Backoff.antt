-- ===== src/Net/Backoff.antt =====
-- recon/net/backoff.py: the rate of requests is cut when the target shows distress, and recovers
-- towards the ceiling of the rules of engagement. Rates are floats, which the section takes as an
-- ordered set; time is in ticks.
pub mod Bounds
pub mod Burst
use recon_platform.Prelude.{
  ℕ, zero, suc, ◌+◌, ◌*◌, ltb, leb, ◌≡◌, refl, Bool, true, false, ◌&&◌, ◌||◌, not, List, [], ◌∷◌,
  ◌++◌, length, drop, ◌-◌, if◌then◌else◌, Bool-cases, inl, inr, arith, ◌≤◌,
}

-- The floats that the controller computes with: their order, and the products with its factors.
pub record RateArith : Type 1 where
  pub Rate : Type 0
  pub le : Rate → Rate → Bool
  pub least : Rate
  pub floor_of : Rate → Rate
  pub cut : Rate → Rate
  pub recover : Rate → Rate

-- What the controller relies on: a total order, and factors below or above one.
pub record IsRateArith (A : RateArith) : Type 0 where
  pub le_refl : (x : A.Rate) → A.le x x ≡ true
  pub le_trans : (x y z : A.Rate) → A.le x y ≡ true → A.le y z ≡ true → A.le x z ≡ true
  pub le_total : (x y : A.Rate) → A.le x y ≡ false → A.le y x ≡ true
  pub floor_le : (x : A.Rate) → A.le (A.floor_of x) x ≡ true
  pub cut_le : (x : A.Rate) → A.le (A.cut x) x ≡ true
  pub le_recover : (x : A.Rate) → A.le x (A.recover x) ≡ true

-- `deque.append` with a maximal length.
abbrev pub push : ℕ → List Bool → Bool → List Bool
push window xs x = drop (length xs + 1 - window) (xs ++ x ∷ [])

abbrev count_true : List Bool → ℕ
count_true [] = 0
count_true (x ∷ xs) = (if x then 1 else 0) + count_true xs

-- `_distress_ratio() >= 0.3`; an empty window has the ratio 0.
unfoldable pub distressed : List Bool → Bool
distressed [] = false
distressed (x ∷ xs) = leb (3 * length (x ∷ xs)) (10 * count_true (x ∷ xs))

module _ (A : RateArith) where
  pub record Controller : Type 0 where
    pub base_rate : A.Rate
    pub current_rate : A.Rate
    pub outcomes : List Bool
    pub cooldown_until : ℕ
    pub trips : ℕ

  abbrev pub max_rate : A.Rate → A.Rate → A.Rate
  max_rate x y = if A.le x y then y else x

  abbrev pub min_rate : A.Rate → A.Rate → A.Rate
  min_rate x y = if A.le x y then x else y

  -- `__init__`
  unfoldable pub new_controller : A.Rate → Controller
  new_controller rate =
      let base = max_rate rate A.least in
      record { base_rate = base; current_rate = base; outcomes = []; cooldown_until = 0; trips = 0 }

  -- A trip, unless one cool-down is running; the window starts again.
  unfoldable pub trip : ℕ → ℕ → Controller → Controller
  trip cooldown now c = if ltb now c.cooldown_until then record c { outcomes = [] } else record c {
    outcomes = [];
    current_rate = max_rate (A.floor_of c.base_rate) (A.cut c.current_rate);
    cooldown_until = now + cooldown;
    trips = c.trips + 1;
  }

  unfoldable pub recovered : ℕ → Controller → Controller
  recovered now c =
      if leb c.cooldown_until now && not (A.le c.base_rate c.current_rate)
      then record c { current_rate = min_rate c.base_rate (A.recover c.current_rate) }
      else c

  -- `record`, with a window of 20 outcomes.
  unfoldable pub record_outcome : ℕ → ℕ → Bool → Bool → Controller → Controller
  unfolding distressed trip recovered
  record_outcome cooldown now throttled connection_error c =
      let seen = record c { outcomes = push 20 c.outcomes (throttled || connection_error) } in
      if throttled || distressed seen.outcomes then trip cooldown now seen else recovered now seen

  -- `extra_delay`
  unfoldable pub extra_delay : ℕ → Controller → ℕ
  extra_delay now c = c.cooldown_until - now
