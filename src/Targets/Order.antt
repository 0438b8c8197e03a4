-- ===== src/Targets/Order.antt =====
-- Python's `sorted` on candidates, by a key that is a number and a text.
use recon_platform.Prelude.{
  ℕ, ltb, ◌==◌, Bool, true, false, ◌&&◌, ◌||◌, not, List, [], ◌∷◌, any, keep, if◌then◌else◌, Result,
  ok, ◌>>=◌,
}
use recon_platform.Prelude.Text.{Text}
use recon_platform.Scope.{Rules}
use recon_platform.Scope.Urls.{ValueError}
use recon_platform.Targets.Resolve.{
  TargetType, ip, RawCandidate, TargetCandidate, TargetResolution, type_rank, reason_rank,
  same_target, accepts, sift, discovered, account_cidrs,
}

unfoldable pub text_less : Text → Text → Bool
text_less s [] = false
text_less [] (_ ∷ _) = true
text_less (c ∷ s) (d ∷ t) = ltb c d || c == d && text_less s t

-- Whether the second candidate comes strictly before the first one.
abbrev pub precedes : (TargetCandidate → ℕ) → TargetCandidate → TargetCandidate → Bool
precedes key a b = ltb (key a) (key b) || key a == key b && text_less a.value b.value

unfoldable pub insert_by :
    (TargetCandidate → ℕ) → TargetCandidate → List TargetCandidate → List TargetCandidate
unfolding text_less
insert_by key c [] = c ∷ []
insert_by key c (d ∷ ds) =
    let rest = insert_by key c ds in if precedes key d c then d ∷ rest else c ∷ d ∷ ds

unfoldable pub sort_by : (TargetCandidate → ℕ) → List TargetCandidate → List TargetCandidate
unfolding insert_by
sort_by key [] = []
sort_by key (c ∷ cs) = insert_by key c (sort_by key cs)

abbrev pub no_targets : TargetResolution
no_targets = record { eligible = []; excluded_ones = [] }

-- The sorted targets; a candidate that is left out under one source and eligible under another is
-- eligible.
abbrev pub present : TargetResolution → TargetResolution
present r = record {
  eligible = sort_by (λ c. type_rank c.target_type) r.eligible;
  excluded_ones =
      sort_by (λ c. reason_rank c.exclusion_reason)
        (keep (λ c. not (any (same_target c) r.eligible)) r.excluded_ones);
}

abbrev pub with_cidrs : List Text → TargetResolution → Result ValueError TargetResolution
with_cidrs cidrs r = discovered r.eligible >>= λ nets.
    account_cidrs nets cidrs r.excluded_ones >>= λ store. ok (record r { excluded_ones = store })

-- `resolve_targets`, for the types that are accepted.
unfoldable pub resolve_targets :
    Rules → Bool → List TargetType → List RawCandidate → Result ValueError TargetResolution
unfolding sift discovered account_cidrs sort_by
resolve_targets roe allow_oos types raws = sift roe allow_oos types raws no_targets >>= λ r.
    (if accepts types ip then with_cidrs roe.allowed.cidrs r else ok r) >>= λ all. ok (present all)
