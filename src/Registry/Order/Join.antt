-- ===== src/Registry/Order/Join.antt =====
-- The orders of the three phases, joined: each name once, behind its dependencies, phase by phase.
use mathlib.Core.List.{append-nil}
use recon_platform.Prelude.{
  ◌<◌, ap, Bool-cases, ◌&&◌, ◌∙◌, ℕ, ◌≤◌, ◌≡◌, refl, sym, ◌⊎◌, inl, inr, String, true, false, some,
  List, [], ◌∷◌, ◌++◌, arith, All, All-append, keep,
}
use recon_platform.Prelude.Names.{contains, contains-append}
use recon_platform.Prelude.Loops.{All-contains}
use recon_platform.Registry.{
  Registry, ReconModule, Phase, osint, passive, active, phase_rank, is_phase, installed, in_phase,
}
use recon_platform.Registry.Pull.{IsClosed, Has}
use recon_platform.Registry.Sort.{Distinct, Topo}
use recon_platform.Registry.Order.Parts.{
  contains-keep, DepsFirst, DepsFirst-append, Topo-DepsFirst, Distinct-append, in_phase_lem,
  NamesSorted, NamesSorted-append, same-NamesSorted, Between, Covered, Allowed,
}

append_left : (xs ys : List String) (n : String) → Has xs n → Has (xs ++ ys) n
append_left xs ys n h = ground (arith, contains-append xs ys n)

append_right : (xs ys : List String) (n : String) → Has ys n → Has (xs ++ ys) n
append_right xs ys n h = ground (arith, contains-append xs ys n)

split_append : (xs ys : List String) (n : String) → Has (xs ++ ys) n → Has xs n ⊎ Has ys n
split_append xs ys n h = ground (arith, contains-append xs ys n)

not-Has-nil : (n : String) → ¬ (Has [] n)
unfolding contains
not-Has-nil n h = cc

phase_of_rank : (p q : Phase) → phase_rank p ≡ phase_rank q → p ≡ q
phase_of_rank p q e = ground arith

is_phase_eq : (p q : Phase) → q ≡ p → is_phase p q ≡ true
is_phase_eq osint q e = ground arith
is_phase_eq passive q e = ground arith
is_phase_eq active q e = ground arith

pub old_or_new : {A : Type 0} (n : String) → Has [] n ⊎ A → A
old_or_new n (inl k) = absurd (not-Has-nil n k)
old_or_new n (inr x) = x

-- The names of one phase, from the set of wanted names.
module _ (reg : Registry) (wanted : List String) where
  abbrev pub subset_of : Phase → List String
  subset_of p = keep (in_phase reg p) wanted

  abbrev pub IsSortOf : Phase → List String → Type 0
  IsSortOf p out =
      Topo reg (subset_of p) [] out
      × Distinct out
      × ((n : String) → contains out n ≡ contains (subset_of p) n)

  in_sort :
      (p : Phase) (out : List String)
      → IsSortOf p out
      → (n : String) → Has out n
      → Has wanted n × ((m : ReconModule) × (installed reg n ≡ some m) × (m.phase ≡ p))
  in_sort p out (_, _, same) n h =
      let both : (contains wanted n && in_phase reg p n) ≡ true =
        sym (contains-keep (in_phase reg p) wanted n) ∙ sym (same n) ∙ h in
      (ground arith, in_phase_lem reg p n (ground arith))

  Between-sort :
      (lo hi : ℕ) (p : Phase) (out : List String)
      → IsSortOf p out
      → lo ≤ phase_rank p
      → phase_rank p ≤ hi
      → All (Between reg lo hi) out
  Between-sort lo hi p out s l u =
      All-contains _ out (λ n h m is. at_rank n m is (in_sort p out s n h).1)
    where
      at_rank :
          (n : String) (m : ReconModule)
          → installed reg n ≡ some m
          → ((m' : ReconModule) × (installed reg n ≡ some m') × (m'.phase ≡ p))
          → (lo ≤ phase_rank m.phase) × (phase_rank m.phase ≤ hi)
      at_rank n m is (m', is', e) = let e' : m.phase ≡ p = cc in rw e' (l, u)

  -- The sorts of two phases share no name.
  sorts_apart :
      (p q : Phase) (xs ys : List String)
      → IsSortOf p xs
      → IsSortOf q ys
      → phase_rank p < phase_rank q
      → (n : String) → Has xs n
      → contains ys n ≡ false
  sorts_apart p q xs ys sx sy lt n h = elim (Bool-cases (contains ys n)) [
    | inl k ↦ absurd (clash (in_sort p xs sx n h).1 (in_sort q ys sy n k).1)
    | inr k ↦ k
  ]
    where
      clash :
          ((m : ReconModule) × (installed reg n ≡ some m) × (m.phase ≡ p))
          → ((m : ReconModule) × (installed reg n ≡ some m) × (m.phase ≡ q))
          → ⊥
      clash (m, is, e) (m', is', e') = let same : p ≡ q = cc in omega (arith, ap phase_rank same)

  -- A wanted module of a phase is in the sort of that phase.
  sort-Has :
      (p : Phase) (out : List String)
      → IsSortOf p out
      → (n : String) (m : ReconModule) → Has wanted n
      → installed reg n ≡ some m
      → m.phase ≡ p
      → Has out n
  sort-Has p out (_, _, same) n m h is e =
      let inside : in_phase reg p n ≡ true = ground (arith, is_phase_eq p m.phase e) in
      same n ∙ contains-keep (in_phase reg p) wanted n ∙ both h inside
    where
      both :
          contains wanted n ≡ true
          → in_phase reg p n ≡ true
          → (contains wanted n && in_phase reg p n) ≡ true
      both a b = ground arith

  subset-Has :
      (p : Phase) (n : String) (m : ReconModule)
      → Has wanted n
      → installed reg n ≡ some m
      → m.phase ≡ p
      → Has (subset_of p) n
  subset-Has p n m h is e =
      let inside : in_phase reg p n ≡ true = ground (arith, is_phase_eq p m.phase e) in
      contains-keep (in_phase reg p) wanted n ∙ cc

  module _ (closed : (n : String) → Has wanted n → IsClosed reg wanted n)
      (allowed : (n : String)
        → Has wanted n
        → (m : ReconModule) → installed reg n ≡ some m
        → All (Allowed reg m) m.depends_on) where
    -- A dependency of a module of phase `p` is wanted, and of no later phase.
    sort-Covered :
        (p : Phase) (before out : List String)
        → IsSortOf p out
        → ((d : String) (d' : ReconModule)
            → Has wanted d
            → installed reg d ≡ some d'
            → phase_rank d'.phase ≤ phase_rank p
            → Has before d ⊎ Has (subset_of p) d)
        → All (Covered reg before (subset_of p)) out
    sort-Covered p before out s cover = All-contains _ out at
      where
        each :
            (m : ReconModule) (ds : List String)
            → m.phase ≡ p
            → All (λ d. (d' : ReconModule) → installed reg d ≡ some d' → Has wanted d) ds
            → All (Allowed reg m) ds
            → All (λ d. Has before d ⊎ Has (subset_of p) d) ds
        each m [] e c a = tt
        each m (d ∷ ds) e (c, cs) ((d', is, low), later) =
            (cover d d' (c d' is) is (rw e at low), each m ds e cs later)

        at : (n : String) → Has out n → Covered reg before (subset_of p) n
        at n h m is =
            let (w, (m', is', e)) = in_sort p out s n h in
            let same : m' ≡ m = cc in
            each m m.depends_on (rw same at e) (closed n w m is) (allowed n w m is)

    module _ (a b c : List String) (sa : IsSortOf osint a) (sb : IsSortOf passive b)
        (sc : IsSortOf active c) where
      pub joined-Distinct : Distinct (a ++ b ++ c)
      joined-Distinct =
          Distinct-append (a ++ b) c
            (Distinct-append a b sa.1 sb.1 (sorts_apart osint passive a b sa sb (omega arith))) sc.1
            (λ n h. apart n (split_append a b n h))
        where
          apart : (n : String) → Has a n ⊎ Has b n → contains c n ≡ false
          apart n (inl h) = sorts_apart osint active a c sa sc (omega arith) n h
          apart n (inr h) = sorts_apart passive active b c sb sc (omega arith) n h

      pub joined-NamesSorted : NamesSorted reg (a ++ b ++ c)
      joined-NamesSorted =
          NamesSorted-append reg 0 1 2 (a ++ b) c
            (NamesSorted-append reg 0 0 1 a b
              (same-NamesSorted reg 0 a (Between-sort 0 0 osint a sa (omega arith) (omega arith)))
              (same-NamesSorted reg 1 b (Between-sort 1 1 passive b sb (omega arith) (omega arith)))
              (Between-sort 0 0 osint a sa (omega arith) (omega arith))
              (Between-sort 0 1 passive b sb (omega arith) (omega arith)))
            (same-NamesSorted reg 2 c (Between-sort 2 2 active c sc (omega arith) (omega arith)))
            (All-append (Between reg 0 1) a b
              (Between-sort 0 1 osint a sa (omega arith) (omega arith))
              (Between-sort 0 1 passive b sb (omega arith) (omega arith)))
            (Between-sort 1 2 active c sc (omega arith) (omega arith))

      pub joined-Has :
          (n : String) (m : ReconModule)
          → Has wanted n
          → installed reg n ≡ some m
          → Has (a ++ b ++ c) n
      joined-Has n m h is = has m.phase refl
        where
          has : (p : Phase) → m.phase ≡ p → Has (a ++ b ++ c) n
          has osint e =
              append_left (a ++ b) c n (append_left a b n (sort-Has osint a sa n m h is e))
          has passive e =
              append_left (a ++ b) c n (append_right a b n (sort-Has passive b sb n m h is e))
          has active e = append_right (a ++ b) c n (sort-Has active c sc n m h is e)

      pub joined-DepsFirst : DepsFirst reg [] (a ++ b ++ c)
      joined-DepsFirst =
          DepsFirst-append reg [] (a ++ b) c
            (DepsFirst-append reg [] a b
              (Topo-DepsFirst reg [] (subset_of osint) [] a sa.0
                (sort-Covered osint [] a sa (λ d d' w is low. cover_osint d d' w is low)))
              (rw append-nil at (
                Topo-DepsFirst reg a (subset_of passive) [] b sb.0
                  (sort-Covered passive a b sb cover_passive))))
            (rw append-nil at (
              Topo-DepsFirst reg (a ++ b) (subset_of active) [] c sc.0
                (sort-Covered active (a ++ b) c sc cover_active)))
        where
          cover_osint :
              (d : String) (d' : ReconModule)
              → Has wanted d
              → installed reg d ≡ some d'
              → phase_rank d'.phase ≤ 0
              → Has [] d ⊎ Has (subset_of osint) d
          cover_osint d d' w is low =
              inr (subset-Has osint d d' w is (phase_of_rank d'.phase osint (omega arith)))

          cover_passive :
              (d : String) (d' : ReconModule)
              → Has wanted d
              → installed reg d ≡ some d'
              → phase_rank d'.phase ≤ 1
              → Has a d ⊎ Has (subset_of passive) d
          cover_passive d d' w is low = by_phase d'.phase refl
            where
              by_phase : (p : Phase) → d'.phase ≡ p → Has a d ⊎ Has (subset_of passive) d
              by_phase osint e = inl (sort-Has osint a sa d d' w is e)
              by_phase passive e = inr (subset-Has passive d d' w is e)
              by_phase active e = absurd (omega (arith, ap phase_rank e))

          cover_active :
              (d : String) (d' : ReconModule)
              → Has wanted d
              → installed reg d ≡ some d'
              → phase_rank d'.phase ≤ 2
              → Has (a ++ b) d ⊎ Has (subset_of active) d
          cover_active d d' w is low = by_phase d'.phase refl
            where
              by_phase : (p : Phase) → d'.phase ≡ p → Has (a ++ b) d ⊎ Has (subset_of active) d
              by_phase osint e = inl (append_left a b d (sort-Has osint a sa d d' w is e))
              by_phase passive e = inl (append_right a b d (sort-Has passive b sb d d' w is e))
              by_phase active e = inr (subset-Has active d d' w is e)
