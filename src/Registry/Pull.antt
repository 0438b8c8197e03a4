-- ===== src/Registry/Pull.antt =====
-- `_pull` of registry.py: the set of wanted modules is closed under installed dependencies.
use recon_platform.Prelude.{
  ℕ, zero, suc, ◌≡◌, ◌⊎◌, inl, inr, String, eq_iff, Bool, true, false, some, List, [], ◌∷◌, ◌++◌,
  ok, arith, Bool-cases, Option-cases, All,
}
use recon_platform.Prelude.Names.{contains, contains-snoc, for_each}
use recon_platform.Prelude.Loops.{for_each-rel, for_each-post}
use recon_platform.Registry.{Registry, ReconModule, installed, pull}

abbrev pub Has : List String → String → Type 0
Has names n = contains names n ≡ true

-- The dependencies of `n` that are installed are wanted.
abbrev pub IsClosed : Registry → List String → String → Type 0
IsClosed reg wanted n =
    (m : ReconModule)
    → installed reg n ≡ some m
    → All (λ d. (d' : ReconModule) → installed reg d ≡ some d' → Has wanted d) m.depends_on

-- What a call of `_pull` adds: the set grows, and what is new is installed and closed.
pub record Grows (reg : Registry) (w w' : List String) : Type 0 where
  pub mono : (n : String) → Has w n → Has w' n
  pub known : (n : String) → Has w' n → Has w n ⊎ ((m : ReconModule) × (installed reg n ≡ some m))
  pub closed : (n : String) → Has w' n → Has w n ⊎ IsClosed reg w' n

pub All-map :
    {P Q : String → Type 0} (xs : List String) → ((n : String) → P n → Q n) → All P xs → All Q xs
All-map [] f h = tt
All-map (x ∷ xs) f (p, h) = (f x p, All-map xs f h)

IsClosed-mono :
    (reg : Registry) (w w' : List String) (n : String)
    → ((k : String) → Has w k → Has w' k)
    → IsClosed reg w n
    → IsClosed reg w' n
IsClosed-mono reg w w' n up c m e = All-map m.depends_on (λ d h d' e'. up d (h d' e')) (c m e)

pub Grows-refl : (reg : Registry) (w : List String) → Grows reg w w
Grows-refl reg w = record { mono = λ n h. h; known = λ n h. inl h; closed = λ n h. inl h }

pub Grows-trans :
    (reg : Registry) (u v w : List String) → Grows reg u v → Grows reg v w → Grows reg u w
Grows-trans reg u v w g h = record {
  mono = λ n k. h.mono n (g.mono n k);
  known = λ n k. elim (h.known n k) [ inl old ↦ g.known n old | inr new ↦ inr new ];
  closed = λ n k. elim (h.closed n k) [
    | inl old ↦ elim (g.closed n old) [
      | inl older ↦ inl older
      | inr c ↦ inr (IsClosed-mono reg v w n h.mono c)
    ]
    | inr c ↦ inr c
  ];
}

pub Has-snoc : (w : List String) (n : String) → Has (w ++ n ∷ []) n
Has-snoc w n = ground (arith, contains-snoc w n n, eq_iff n n)

pub snoc-Has : (w : List String) (m n : String) → Has (w ++ m ∷ []) n → Has w n ⊎ (m ≡ n)
snoc-Has w m n h = ground (arith, contains-snoc w m n, eq_iff m n)

pub snoc_mono : (w : List String) (m n : String) → Has w n → Has (w ++ m ∷ []) n
snoc_mono w m n h = ground (arith, contains-snoc w m n)

-- The name that was pulled is wanted, if it is installed.
abbrev Pulled : Registry → String → List String → Type 0
Pulled reg n w = (m : ReconModule) → installed reg n ≡ some m → Has w n

abbrev pub Always : String → Type 0
Always n = Unit

pub All-Always : (xs : List String) → All Always xs
All-Always [] = tt
All-Always (x ∷ xs) = (tt, All-Always xs)

module _ (reg : Registry) where
  -- A new module, when its dependencies have been pulled.
  new-Grows :
      (n : String) (m : ReconModule) (w w' : List String)
      → installed reg n ≡ some m
      → Grows reg (w ++ n ∷ []) w'
      → All (λ d. Pulled reg d w') m.depends_on
      → Grows reg w w'
  new-Grows n m w w' e g deps = record {
    mono = λ k h. g.mono k (snoc_mono w n k h);
    known = λ k h. elim (g.known k h) [
      | inl old ↦ elim (snoc-Has w n k old) [
        | inl older ↦ inl older
        | inr same ↦ inr (m, rw (← same) e)
      ]
      | inr new ↦ inr new
    ];
    closed = λ k h. elim (g.closed k h) [
      | inl old ↦ elim (snoc-Has w n k old) [
        | inl older ↦ inl older
        | inr same ↦ inr (rw (← same) (closed_here n m w' e deps))
      ]
      | inr c ↦ inr c
    ];
  }
    where
      closed_here :
          (n : String) (m : ReconModule) (w' : List String)
          → installed reg n ≡ some m
          → All (λ d. Pulled reg d w') m.depends_on
          → IsClosed reg w' n
      closed_here n m w' e deps m' e' = let same : m ≡ m' = cc in rw (← same) deps

  -- The loop over the dependencies, given what a call at the lower fuel does.
  module _ (fuel : ℕ)
      (ih : (required : Bool) (n : String) (w w' : List String)
        → pull reg fuel required n w ≡ ok w'
        → Grows reg w w' × Pulled reg n w') where
    loop-Grows :
        (names w w' : List String) → for_each (pull reg fuel false) names w ≡ ok w' → Grows reg w w'
    loop-Grows names w w' =
        for_each-rel (pull reg fuel false) Always (Grows reg) (Grows-refl reg) (Grows-trans reg)
          (λ d s t _ e. (ih false d s t e).0) names w w' (All-Always names)

    loop-Pulled :
        (names w w' : List String)
        → for_each (pull reg fuel false) names w ≡ ok w'
        → All (λ d. Pulled reg d w') names
    loop-Pulled names w w' =
        for_each-post (pull reg fuel false) Always (Grows reg) (Grows-refl reg) (Grows-trans reg)
          (λ d s t _ e. (ih false d s t e).0) (Pulled reg) (λ d s t _ e. (ih false d s t e).1)
          (λ d s t g q m e. g.mono d (q m e)) names w w' (All-Always names)

    pull_deps :
        (n : String) (m : ReconModule) (w w' : List String)
        → installed reg n ≡ some m
        → for_each (pull reg fuel false) m.depends_on (w ++ n ∷ []) ≡ ok w'
        → Grows reg w w' × Pulled reg n w'
    pull_deps n m w w' is e =
        let g = loop-Grows m.depends_on (w ++ n ∷ []) w' e in
        (
          new-Grows n m w w' is g (loop-Pulled m.depends_on (w ++ n ∷ []) w' e),
          λ m' _. g.mono n (Has-snoc w n),
        )

  pub pull_lem :
      (fuel : ℕ) (required : Bool) (n : String) (w w' : List String)
      → pull reg fuel required n w ≡ ok w'
      → Grows reg w w' × Pulled reg n w'
  unfolding pull
  pull_lem zero required n w w' h = cc
  pull_lem (suc fuel) required n w w' h = elim (Bool-cases (contains w n)) [
    | inl old ↦ let e : w ≡ w' = ground arith in rw (← e) (Grows-refl reg w, λ m _. old)
    | inr new ↦ elim (Option-cases (installed reg n)) [
      | inl missing ↦ let e : w ≡ w' = ground arith in rw (← e) (Grows-refl reg w, λ m is. cc)
      | inr (m, is) ↦ pull_deps fuel (pull_lem fuel) n m w w' is (ground arith)
    ]
  ]

  -- A name that was asked for is wanted.
  pub required_pull :
      (fuel : ℕ) (n : String) (w w' : List String) → pull reg fuel true n w ≡ ok w' → Has w' n
  unfolding pull
  required_pull zero n w w' h = cc
  required_pull (suc fuel) n w w' h = elim (Bool-cases (contains w n)) [
    | inl old ↦ let e : w ≡ w' = ground arith in rw (← e) old
    | inr new ↦ elim (Option-cases (installed reg n)) [
      | inl missing ↦ absurd (ground arith)
      | inr (m, is) ↦ (pull_deps fuel (pull_lem fuel) n m w w' is (ground arith)).1 m is
    ]
  ]

  -- What the loop over the requested names ends with.
  pub pull-All :
      (fuel : ℕ) (names w : List String)
      → for_each (pull reg fuel true) names [] ≡ ok w
      → Grows reg [] w × All (Has w) names
  pull-All fuel names w h = (
    for_each-rel (pull reg fuel true) Always (Grows reg) (Grows-refl reg) (Grows-trans reg)
        (λ d s t _ e. (pull_lem fuel true d s t e).0) names [] w (All-Always names) h,
    for_each-post (pull reg fuel true) Always (Grows reg) (Grows-refl reg) (Grows-trans reg)
        (λ d s t _ e. (pull_lem fuel true d s t e).0) (λ n s. Has s n)
        (λ d s t _ e. required_pull fuel d s t e) (λ d s t g q. g.mono d q) names [] w
        (All-Always names) h,
  )
