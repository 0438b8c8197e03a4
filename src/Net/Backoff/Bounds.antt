-- ===== src/Net/Backoff/Bounds.antt =====
-- recon/net/backoff.py: the rate stays between the floor and the ceiling.
use recon_platform.Prelude.{
  ℕ, ltb, leb, ◌≡◌, Bool, true, ◌&&◌, ◌||◌, not, List, [], ◌∷◌, Bool-cases, inl, inr,
}
use recon_platform.Net.Backoff.{
  RateArith, IsRateArith, Controller, max_rate, min_rate, distressed, push, trip, recovered,
  record_outcome,
}

-- One outcome of a request: the time, whether it was throttled, whether the connection failed.
pub record Sample : Type 0 where
  pub now : ℕ
  pub throttled : Bool
  pub failed : Bool

module _ (A : RateArith) where
  unfoldable pub outcomes_of : ℕ → List Sample → Controller A → Controller A
  outcomes_of cooldown [] c = c
  outcomes_of cooldown (x ∷ xs) c =
      outcomes_of cooldown xs (record_outcome A cooldown x.now x.throttled x.failed c)

  -- The rate of the controller lies between the floor and the ceiling that belong to `base`.
  pub record InBounds (base : A.Rate) (c : Controller A) : Type 0 where
    pub ceiling : c.base_rate ≡ base
    pub above : A.le (A.floor_of base) c.current_rate ≡ true
    pub below : A.le c.current_rate base ≡ true

  module _ (laws : IsRateArith A) where
    pub max_rate-Between :
        (x y z : A.Rate)
        → A.le x z ≡ true
        → A.le y z ≡ true
        → (A.le x (max_rate A x y) ≡ true) × (A.le (max_rate A x y) z ≡ true)
    max_rate-Between x y z xz yz = elim (Bool-cases (A.le x y)) [
      | inl e ↦ rw e (e, yz)
      | inr e ↦ rw e (laws.le_refl x, xz)
    ]

    min_rate-Between :
        (x y z : A.Rate)
        → A.le z x ≡ true
        → A.le z y ≡ true
        → (A.le z (min_rate A x y) ≡ true) × (A.le (min_rate A x y) x ≡ true)
    min_rate-Between x y z zx zy = elim (Bool-cases (A.le x y)) [
      | inl e ↦ rw e (zx, laws.le_refl x)
      | inr e ↦ rw e (zy, laws.le_total x y e)
    ]

    trip-InBounds :
        (cooldown now : ℕ) (base : A.Rate) (c : Controller A)
        → InBounds base c
        → InBounds base (trip A cooldown now c)
    unfolding trip
    trip-InBounds cooldown now base c h = elim (Bool-cases (ltb now c.cooldown_until)) [
      | inl e ↦ rw e (record { ceiling = h.ceiling; above = h.above; below = h.below })
      | inr e ↦
          let kept =
            max_rate-Between (A.floor_of base) (A.cut c.current_rate) base (laws.floor_le base)
              (laws.le_trans _ _ _ (laws.cut_le c.current_rate) h.below) in
          rw e (record {
            ceiling = h.ceiling;
            above = rw h.ceiling kept.0;
            below = rw h.ceiling kept.1;
          })
    ]

    recovered-InBounds :
        (now : ℕ) (base : A.Rate) (c : Controller A)
        → InBounds base c
        → InBounds base (recovered A now c)
    unfolding recovered
    recovered-InBounds now base c h =
        elim (Bool-cases (leb c.cooldown_until now && not (A.le c.base_rate c.current_rate))) [
          | inr e ↦ rw e h
          | inl e ↦
              let kept =
                min_rate-Between base (A.recover c.current_rate) (A.floor_of base)
                  (laws.floor_le base)
                  (laws.le_trans _ _ _ h.above (laws.le_recover c.current_rate)) in
              rw e (record {
                ceiling = h.ceiling;
                above = rw h.ceiling kept.0;
                below = rw h.ceiling kept.1;
              })
        ]

    pub record_outcome-InBounds :
        (cooldown now : ℕ) (throttled failed : Bool) (base : A.Rate) (c : Controller A)
        → InBounds base c
        → InBounds base (record_outcome A cooldown now throttled failed c)
    unfolding record_outcome
    record_outcome-InBounds cooldown now throttled failed base c h =
        let seen = record c { outcomes = push 20 c.outcomes (throttled || failed) } in
        let same : InBounds base seen = record {
          ceiling = h.ceiling;
          above = h.above;
          below = h.below;
        } in
        elim (Bool-cases (throttled || distressed seen.outcomes)) [
          | inl e ↦ rw e (trip-InBounds cooldown now base seen same)
          | inr e ↦ rw e (recovered-InBounds now base seen same)
        ]

    -- Whatever the outcomes of the requests and their times, the rate stays at or below the ceiling
    -- and at or above the floor that belongs to it, if it does so at first. The floats are ordered, and
    -- their factors lower or raise them (`laws`).
    pub outcomes_of-InBounds :
        (cooldown : ℕ) (xs : List Sample) (base : A.Rate) (c : Controller A)
        → InBounds base c
        → InBounds base (outcomes_of cooldown xs c)
    unfolding outcomes_of
    outcomes_of-InBounds cooldown [] base c h = h
    outcomes_of-InBounds cooldown (x ∷ xs) base c h =
        outcomes_of-InBounds cooldown xs base _
          (record_outcome-InBounds cooldown x.now x.throttled x.failed base c h)
