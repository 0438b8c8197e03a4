-- ===== src/Net/Backoff/Burst.antt =====
-- recon/net/backoff.py: a burst of failures cuts the rate once.
use recon_platform.Prelude.{
  ℕ, ◌+◌, ltb, leb, ◌≡◌, refl, ◌∙◌, Bool, true, ◌&&◌, ◌||◌, not, List, [], ◌∷◌, Bool-cases, inl,
  inr, ◌⊎◌, arith, ◌≤◌, ◌<◌, All,
}
use recon_platform.Net.Backoff.{
  RateArith, IsRateArith, Controller, max_rate, distressed, push, trip, recovered, record_outcome,
}
use recon_platform.Net.Backoff.Bounds.{Sample, outcomes_of, InBounds, record_outcome-InBounds}

module _ (A : RateArith) (laws : IsRateArith A)
    (cut_mono : (x y : A.Rate) → A.le x y ≡ true → A.le (A.cut x) (A.cut y) ≡ true) where
  -- What one cut makes of a rate.
  abbrev pub cut_once : A.Rate → A.Rate → A.Rate
  cut_once base rate = max_rate A (A.floor_of base) (A.cut rate)

  max_rate-le :
      (x y z : A.Rate) → A.le x z ≡ true → A.le y z ≡ true → A.le (max_rate A x y) z ≡ true
  max_rate-le x y z xz yz = elim (Bool-cases (A.le x y)) [ inl e ↦ rw e yz | inr e ↦ rw e xz ]

  le-max_rate : (x y : A.Rate) → (A.le x (max_rate A x y) ≡ true) × (A.le y (max_rate A x y) ≡ true)
  le-max_rate x y = elim (Bool-cases (A.le x y)) [
    | inl e ↦ rw e (e, laws.le_refl y)
    | inr e ↦ rw e (laws.le_refl x, laws.le_total x y e)
  ]

  cut_once_mono :
      (base x y : A.Rate) → A.le x y ≡ true → A.le (cut_once base x) (cut_once base y) ≡ true
  cut_once_mono base x y h =
      let (above, up) = le-max_rate (A.floor_of base) (A.cut y) in
      max_rate-le (A.floor_of base) (A.cut x) _ above (laws.le_trans _ _ _ (cut_mono x y h) up)

  -- A recovery does not lower the rate.
  recovered-le :
      (now : ℕ) (c : Controller A)
      → A.le c.current_rate c.base_rate ≡ true
      → A.le c.current_rate (recovered A now c).current_rate ≡ true
  unfolding recovered
  recovered-le now c below =
      elim (Bool-cases (leb c.cooldown_until now && not (A.le c.base_rate c.current_rate))) [
        | inr e ↦ rw e (laws.le_refl c.current_rate)
        | inl e ↦ elim (Bool-cases (A.le c.base_rate (A.recover c.current_rate))) [
          | inl top ↦ rw (e, top) below
          | inr free ↦ rw (e, free) (laws.le_recover c.current_rate)
        ]
      ]

  -- No trip yet since `trips`, and the rate is not below `rate`; or one whose cool-down covers the
  -- burst, and the rate is not below what one cut makes of `rate`.
  abbrev Tripped : A.Rate → A.Rate → ℕ → ℕ → Controller A → Type 0
  Tripped base rate trips stop c =
      ((c.trips ≡ trips) × (A.le rate c.current_rate ≡ true))
      ⊎ ((c.trips ≡ trips + 1)
          × (stop ≤ c.cooldown_until)
          × (A.le (cut_once base rate) c.current_rate ≡ true))

  trip-Tripped :
      (cooldown start trips now : ℕ) (base rate : A.Rate) (c : Controller A)
      → start ≤ now
      → now < start + cooldown
      → c.base_rate ≡ base
      → Tripped base rate trips (start + cooldown) c
      → Tripped base rate trips (start + cooldown) (trip A cooldown now c)
  unfolding trip
  trip-Tripped cooldown start trips now base rate c from until same h =
      elim (Bool-cases (ltb now c.cooldown_until)) [
        | inl l ↦ rw l h
        | inr l ↦ rw l (elim h [
          | inl (t, k) ↦
              inr (
                ground (arith, t),
                ground arith,
                rw same (cut_once_mono base rate c.current_rate k),
              )
          | inr (t, k, m) ↦ ground arith
        ])
      ]

  recovered-keeps :
      (now : ℕ) (c : Controller A)
      → ((recovered A now c).trips ≡ c.trips)
        × ((recovered A now c).cooldown_until ≡ c.cooldown_until)
  unfolding recovered
  recovered-keeps now c =
      elim (Bool-cases (leb c.cooldown_until now && not (A.le c.base_rate c.current_rate))) [
        | inr e ↦ rw e (refl, refl)
        | inl e ↦ rw e (refl, refl)
      ]

  recovered-Tripped :
      (trips stop now : ℕ) (base rate : A.Rate) (c : Controller A)
      → A.le c.current_rate c.base_rate ≡ true
      → Tripped base rate trips stop c
      → Tripped base rate trips stop (recovered A now c)
  recovered-Tripped trips stop now base rate c below h =
      let up = recovered-le now c below in
      let (same_trips, same_until) = recovered-keeps now c in
      elim h [
        | inl (t, k) ↦ inl (same_trips ∙ t, laws.le_trans _ _ _ k up)
        | inr (t, k, m) ↦ inr (same_trips ∙ t, rw same_until k, laws.le_trans _ _ _ m up)
      ]

  record_outcome-Tripped :
      (cooldown start trips now : ℕ) (throttled failed : Bool) (base rate : A.Rate)
      (c : Controller A)
      → start ≤ now
      → now < start + cooldown
      → InBounds A base c
      → Tripped base rate trips (start + cooldown) c
      → Tripped base rate trips
          (start + cooldown)
          (record_outcome A cooldown now throttled failed c)
  unfolding record_outcome
  record_outcome-Tripped cooldown start trips now throttled failed base rate c from until within h =
      let seen : Controller A = record c { outcomes = push 20 c.outcomes (throttled || failed) } in
      elim (Bool-cases (throttled || distressed seen.outcomes)) [
        | inl e ↦
            rw e (trip-Tripped cooldown start trips now base rate seen from until within.ceiling h)
        | inr e ↦ rw e (
            recovered-Tripped trips (start + cooldown) now base rate seen
              (rw within.ceiling within.below) h)
      ]

  outcomes_of-Tripped :
      (cooldown start trips : ℕ) (xs : List Sample) (base rate : A.Rate) (c : Controller A)
      → All (λ x. (start ≤ x.now) × (x.now < start + cooldown)) xs
      → InBounds A base c
      → Tripped base rate trips (start + cooldown) c
      → Tripped base rate trips (start + cooldown) (outcomes_of A cooldown xs c)
  unfolding outcomes_of
  outcomes_of-Tripped cooldown start trips [] base rate c h within t = t
  outcomes_of-Tripped cooldown start trips (x ∷ xs) base rate c ((a, b), h) within t =
      outcomes_of-Tripped cooldown start trips xs base rate _ h
        (record_outcome-InBounds A laws cooldown x.now x.throttled x.failed base c within)
        (record_outcome-Tripped cooldown start trips x.now x.throttled x.failed base rate c a b
          within t)

  -- However many requests fail within the length of one cool-down, one trip is counted at most, and
  -- the rate does not fall below what one cut, down to the floor at most, makes of the rate before.
  -- The rate is within its bounds before, and the floats are ordered: their factors lower or raise
  -- them, and the cut keeps their order.
  pub outcomes_of-trips :
      (cooldown start : ℕ) (xs : List Sample) (base : A.Rate) (c : Controller A)
      → InBounds A base c
      → All (λ x. (start ≤ x.now) × (x.now < start + cooldown)) xs
      → ((outcomes_of A cooldown xs c).trips ≤ c.trips + 1)
        × (A.le (cut_once base c.current_rate) (outcomes_of A cooldown xs c).current_rate ≡ true)
  outcomes_of-trips cooldown start xs base c within h =
      let least : A.le (cut_once base c.current_rate) c.current_rate ≡ true =
        max_rate-le (A.floor_of base) (A.cut c.current_rate) c.current_rate within.above
          (laws.cut_le c.current_rate) in
      elim (outcomes_of-Tripped cooldown start c.trips xs base c.current_rate c h within
        (inl (refl, laws.le_refl c.current_rate))) [
          | inl (t, k) ↦ (ground (arith, t), laws.le_trans _ _ _ least k)
          | inr (t, _, k) ↦ (ground (arith, t), k)
        ]
