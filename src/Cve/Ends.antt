-- ===== src/Cve/Ends.antt =====
-- recon/orchestrator/cve_index.py, `_flatten_cpe_matches`, and recon/modules/active/cve_correlate.py,
-- `_version_in_range`: at the ends of a range.
use recon_platform.Prelude.{
  ℕ, ◌≡◌, refl, Bool, true, false, ◌&&◌, not, Option, none, some, List, [], ◌∷◌, arith,
}
use recon_platform.Prelude.Text.{Text, is_empty}
use recon_platform.Cve.{version_key, key_lt, version_in_range, before, bound_key}
use recon_platform.Cve.Index.{flatten_match}

key_lt_self : (key : List ℕ) → key_lt key key ≡ false
unfolding key_lt
key_lt_self [] = refl
key_lt_self (n ∷ key) = ground (arith, key_lt_self key)

and_false : (b : Bool) → (b && false) ≡ false
and_false true = refl
and_false false = refl

range_end :
    (v : Text) (key : List ℕ) (start : Option Text)
    → is_empty v ≡ false
    → version_key v ≡ some key
    → version_in_range v start (some v) ≡ false
unfolding version_in_range
range_end v key start given keyed =
    rw (keyed, version_in_range, given, keyed, key_lt_self key)
      (and_false (not (before key (bound_key start))))

range_start :
    (v : Text) (key : List ℕ)
    → is_empty v ≡ false
    → version_key v ≡ some key
    → version_in_range v (some v) none ≡ true
unfolding version_in_range
range_start v key given keyed = rw (keyed, version_in_range, given, keyed, key_lt_self key) refl

-- A version that holds a number is judged to be outside of a range of NVD that ends with it, though NVD
-- lists it as affected; and it is judged to be inside of a range that begins behind it and has no end,
-- though NVD does not list it.
pub flatten_match-ends :
    (criteria v : Text) (key : List ℕ) (start : Option Text) (vulnerable : Option Bool)
    → is_empty v ≡ false
    → version_key v ≡ some key
    → (let m = flatten_match criteria (record {
      criteria = some criteria;
      start_including = start;
      start_excluding = none;
      end_including = some v;
      end_excluding = none;
      vulnerable = vulnerable;
    }) in
        version_in_range v m.version_start m.version_end ≡ false)
      × (let m = flatten_match criteria (record {
        criteria = some criteria;
        start_including = none;
        start_excluding = some v;
        end_including = none;
        end_excluding = none;
        vulnerable = vulnerable;
      }) in
          version_in_range v m.version_start m.version_end ≡ true)
unfolding flatten_match
flatten_match-ends criteria v key start vulnerable given keyed =
    (range_end v key _ given keyed, range_start v key given keyed)
