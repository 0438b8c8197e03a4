-- ===== src/Registry/Sort.antt =====
-- `_toposort` of registry.py: dependencies first, and each name once.
use mathlib.Core.List.{append-nil, append_assoc}
use recon_platform.Prelude.{
  ℕ, zero, suc, ◌+◌, ◌≡◌, refl, sym, ◌⊎◌, inl, inr, String, eq_iff, Bool, true, false, some, List,
  [], ◌∷◌, ◌++◌, ok, arith, Bool-cases, All, length, >>=-eq-ok, if◌then◌else◌, Result, ◌>>=◌,
}
use recon_platform.Prelude.Names.{contains, contains-snoc, contains-sorted, sorted, for_each}
use recon_platform.Prelude.Loops.{All-contains, contains-All, for_each-rel, for_each-post}
use recon_platform.Registry.{
  Registry, RegistryError, ReconModule, installed, get_module, visit, toposort,
}
use recon_platform.Registry.Pull.{Has, Has-snoc, snoc-Has, snoc_mono, Always, All-Always}

abbrev pub Distinct : List String → Type 0
Distinct [] = Unit
Distinct (x ∷ xs) = (contains xs x ≡ false) × Distinct xs

pub Distinct-snoc :
    (xs : List String) (n : String) → Distinct xs → contains xs n ≡ false → Distinct (xs ++ n ∷ [])
unfolding contains
Distinct-snoc [] n d h = (refl, tt)
Distinct-snoc (x ∷ xs) n (new, d) h = (
  ground (arith, contains-snoc xs n x, eq_iff n x, eq_iff x n),
  Distinct-snoc xs n d (ground arith),
)

pub bool_ext : (a b : Bool) → (a ≡ true → b ≡ true) → (b ≡ true → a ≡ true) → a ≡ b
bool_ext true b f g = sym (f refl)
bool_ext false true f g = g refl
bool_ext false false f g = refl

module _ (reg : Registry) (subset : List String) where
  -- Of the dependencies of `n`, those in the subset have been seen.
  abbrev pub After : List String → String → Type 0
  After seen n =
      (m : ReconModule)
      → installed reg n ≡ some m
      → All (λ d. Has subset d → Has seen d) m.depends_on

  abbrev pub Topo : List String → List String → Type 0
  Topo seen [] = Unit
  Topo seen (n ∷ rest) = After seen n × Topo (seen ++ n ∷ []) rest

  Topo-snoc :
      (seen xs : List String) (n : String)
      → Topo seen xs
      → After (seen ++ xs) n
      → Topo seen (xs ++ n ∷ [])
  Topo-snoc seen [] n t a = (rw (← append-nil seen) a, tt)
  Topo-snoc seen (x ∷ xs) n (b, t) a = (b, Topo-snoc (seen ++ x ∷ []) xs n t (rw append_assoc a))

  pub record Visits (visiting w w' : List String) : Type 0 where
    pub mono : (n : String) → Has w n → Has w' n
    pub sound : (n : String) → Has w' n → Has w n ⊎ Has subset n
    pub topo : Topo [] w → Topo [] w'
    pub distinct : Distinct w → Distinct w'
    pub apart : (n : String) → Has visiting n → Has w' n → Has w n

  Visits-refl : (v w : List String) → Visits v w w
  Visits-refl v w = record {
    mono = λ n h. h;
    sound = λ n h. inl h;
    topo = λ t. t;
    distinct = λ d. d;
    apart = λ n _ h. h;
  }

  Visits-trans : (v w x y : List String) → Visits v w x → Visits v x y → Visits v w y
  Visits-trans v w x y g h = record {
    mono = λ n k. h.mono n (g.mono n k);
    sound = λ n k. elim (h.sound n k) [ inl old ↦ g.sound n old | inr new ↦ inr new ];
    topo = λ t. h.topo (g.topo t);
    distinct = λ d. h.distinct (g.distinct d);
    apart = λ n a k. g.apart n a (h.apart n a k);
  }

  -- The state after the loop over the dependencies of `n`, and then after `out.append(n)`.
  visited :
      (v w o : List String) (n : String) (m : ReconModule)
      → Has subset n
      → contains w n ≡ false
      → contains v n ≡ false
      → installed reg n ≡ some m
      → Visits (n ∷ v) w o
      → All (λ d. Has subset d → Has o d) m.depends_on
      → Visits v w (o ++ n ∷ [])
  unfolding contains
  visited v w o n m inside new free is g deps = record {
    mono = λ k h. snoc_mono o n k (g.mono k h);
    sound = λ k h. elim (snoc-Has o n k h) [
      | inl old ↦ g.sound k old
      | inr same ↦ inr (rw (← same) inside)
    ];
    topo = λ t. Topo-snoc [] o n (g.topo t) (λ m' is'. let e : m ≡ m' = cc in rw (← e) deps);
    distinct = λ d. Distinct-snoc o n (g.distinct d) fresh;
    apart = λ k a h. elim (snoc-Has o n k h) [
      | inl old ↦ g.apart k (ground (arith, eq_iff n k)) old
      | inr same ↦ let e : contains v n ≡ true = rw same a in cc
    ];
  }
    where
      fresh : contains o n ≡ false
      fresh = ground (arith, Bool-cases (contains o n), g.apart n, eq_iff n n)

  abbrev pub dep_step :
      (String → List String → Result RegistryError (List String))
      → String
      → List String
      → Result RegistryError (List String)
  dep_step deeper dep o = if contains subset dep then deeper dep o else ok o

  module _ (fuel : ℕ)
      (ih : (v : List String) (n : String) (w w' : List String)
        → Has subset n
        → visit reg subset fuel v n w ≡ ok w'
        → Visits v w w' × Has w' n) where
    dep_lem :
        (v : List String) (d : String) (s t : List String)
        → dep_step (visit reg subset fuel v) d s ≡ ok t
        → Visits v s t × (Has subset d → Has t d)
    dep_lem v d s t h = elim (Bool-cases (contains subset d)) [
      | inl inside ↦ let r = ih v d s t inside (ground arith) in (r.0, λ _. r.1)
      | inr outside ↦ let e : s ≡ t = ground arith in rw (← e) (Visits-refl v s, λ inside. cc)
    ]

    deps_lem :
        (v : List String) (names s t : List String)
        → for_each (dep_step (visit reg subset fuel v)) names s ≡ ok t
        → Visits v s t × All (λ d. Has subset d → Has t d) names
    deps_lem v names s t h = (
      for_each-rel (dep_step (visit reg subset fuel v)) Always (Visits v) (Visits-refl v)
          (Visits-trans v) (λ d s t _ e. (dep_lem v d s t e).0) names s t (All-Always names) h,
      for_each-post (dep_step (visit reg subset fuel v)) Always (Visits v) (Visits-refl v)
          (Visits-trans v) (λ d s t _ e. (dep_lem v d s t e).0) (λ d t. Has subset d → Has t d)
          (λ d s t _ e. (dep_lem v d s t e).1) (λ d s t g q inside. g.mono d (q inside)) names s t
          (All-Always names) h,
    )

    visit_new :
        (v : List String) (n : String) (w w' : List String)
        → Has subset n
        → contains w n ≡ false
        → contains v n ≡ false
        → (get_module reg n >>= λ m.
            for_each (dep_step (visit reg subset fuel (n ∷ v))) (sorted m.depends_on) w >>= λ o.
            ok (o ++ n ∷ []))
          ≡ ok w'
        → Visits v w w' × Has w' n
    unfolding get_module
    visit_new v n w w' inside new free h =
        let (m, found, h') = >>=-eq-ok (get_module reg n) _ h in
        let (o, loop, e) = >>=-eq-ok (for_each _ (sorted m.depends_on) w) _ h' in
        let e' : o ++ n ∷ [] ≡ w' = cc in
        let r = deps_lem (n ∷ v) (sorted m.depends_on) w o loop in
        let deps =
          All-contains _ m.depends_on
            (λ d k. contains-All _ (sorted m.depends_on) r.1 d (rw contains-sorted k)) in
        rw (← e') (visited v w o n m inside new free (ground arith) r.0 deps, Has-snoc o n)

  pub visit_lem :
      (fuel : ℕ) (v : List String) (n : String) (w w' : List String)
      → Has subset n
      → visit reg subset fuel v n w ≡ ok w'
      → Visits v w w' × Has w' n
  unfolding visit
  visit_lem zero v n w w' inside h = cc
  visit_lem (suc fuel) v n w w' inside h = elim (Bool-cases (contains w n)) [
    | inl old ↦ let e : w ≡ w' = ground arith in rw (← e) (Visits-refl v w, old)
    | inr new ↦ elim (Bool-cases (contains v n)) [
      | inl again ↦ absurd (ground arith)
      | inr free ↦ visit_new fuel (visit_lem fuel) v n w w' inside new free (rw (new, free) at h)
    ]
  ]

  -- The order of a subset: its names, each once, behind their dependencies.
  pub toposort_lem :
      (out : List String)
      → toposort reg subset ≡ ok out
      → Topo [] out × Distinct out × ((n : String) → contains out n ≡ contains subset n)
  unfolding toposort contains
  toposort_lem out h = (
    v.topo tt,
    v.distinct tt,
    λ n.
        bool_ext _ _ (λ k. from_subset n (v.sound n k))
          (λ k. contains-All (Has out) (sorted subset) all_in n (rw contains-sorted k)),
  )
    where
      inside : All (Has subset) (sorted subset)
      inside = All-contains (Has subset) (sorted subset) (λ n k. rw contains-sorted at k)

      v : Visits [] [] out
      v =
          for_each-rel (visit reg subset (length subset + 1) []) (Has subset) (Visits [])
            (Visits-refl []) (Visits-trans []) (λ d s t i e. (visit_lem _ [] d s t i e).0)
            (sorted subset) [] out inside h

      all_in : All (Has out) (sorted subset)
      all_in =
          for_each-post (visit reg subset (length subset + 1) []) (Has subset) (Visits [])
            (Visits-refl []) (Visits-trans []) (λ d s t i e. (visit_lem _ [] d s t i e).0)
            (λ d t. Has t d) (λ d s t i e. (visit_lem _ [] d s t i e).1) (λ d s t g q. g.mono d q)
            (sorted subset) [] out inside h

      from_subset : (n : String) → Has [] n ⊎ Has subset n → Has subset n
      from_subset n (inl none_yet) = cc
      from_subset n (inr k) = k
