-- ===== src/Correlation/Route/Complete.antt =====
-- recon/correlation/engine.py: the routing loses no evidence and invents none.
use recon_platform.Prelude.{
  ◌≡◌, refl, Bool, true, false, ◌&&◌, ◌||◌, not, Option, none, some, List, [], ◌∷◌, ◌++◌, any, map,
  ◌∙◌, Bool-cases, inl, inr, arith,
}
use recon_platform.Prelude.Text.{Text, text, text_eq, text_eq_iff, is_empty, strip}
use recon_platform.Correlation.{AssetType, subdomain, ip}
use recon_platform.Correlation.Canon.{canon_host, canon_ip, canon}
use recon_platform.Correlation.Route.{
  Row, RawHint, AssetKey, RelHint, Routing, key, same_key, add_to_group, add_to_attributes, group,
  attribute, explicit_hints, explicit_hint, add_explicit, or_else, dns_target,
  derive_dns_relationships, parent_of, add_parent, route_asset, route_subject, evidence_only,
  route_evidence, collect_evidence, asset_type_for, host_type, last_word, upper_char, tagged,
  parent_ref, canon_ref, counted,
}

abbrev blank_target : Row → Bool
blank_target row =
    is_empty (canon_host (or_else row.raw_name row.subject_value))
    || is_empty (strip (or_else row.raw_value []))

-- A DNS record without a name or a value.
abbrev blank_dns : Row → Bool
blank_dns row =
    not row.is_absent && text_eq row.subject_type (text "dns_record") && blank_target row

-- The rows that the graph is made of.
abbrev pub is_material : Row → Bool
is_material row = not row.is_error && not (evidence_only row.subject_type) && not (blank_dns row)

secret_not_dns :
    (s : Text) → text_eq s (text "secret") ≡ true → text_eq s (text "dns_record") ≡ false
unfolding text_eq
secret_not_dns s h = rw ((text_eq_iff s (text "secret")).0 h) refl

module _ (p : Row → Bool) where
  abbrev in_groups : List (AssetKey × List Row) → Bool
  in_groups [] = false
  in_groups ((_, rows) ∷ groups) = any p rows || in_groups groups

  abbrev in_attributes : List (Text × List Row) → Bool
  in_attributes [] = false
  in_attributes ((_, rows) ∷ more) = any p rows || in_attributes more

  -- Some row of a group or of an attribute's list has the property.
  abbrev pub holds : Routing → Bool
  holds r = in_groups r.groups || in_attributes r.attributes

  any-concat : (rows : List Row) (row : Row) → any p (rows ++ row ∷ []) ≡ (any p rows || p row)
  any-concat [] row = ground arith
  any-concat (x ∷ rows) row = ground (arith, any-concat rows row)

  in_groups-add :
      (k : AssetKey) (row : Row) (groups : List (AssetKey × List Row))
      → in_groups (add_to_group k row groups) ≡ (in_groups groups || p row)
  unfolding add_to_group
  in_groups-add k row [] = ground arith
  in_groups-add k row ((j, rows) ∷ groups) = elim (Bool-cases (same_key j k)) [
    | inl hit ↦ rw hit (ground (arith, any-concat rows row))
    | inr miss ↦ rw miss (ground (arith, in_groups-add k row groups))
  ]

  in_attributes-add :
      (ref : Text) (row : Row) (more : List (Text × List Row))
      → in_attributes (add_to_attributes ref row more) ≡ (in_attributes more || p row)
  unfolding add_to_attributes
  in_attributes-add ref row [] = ground arith
  in_attributes-add ref row ((r, rows) ∷ more) = elim (Bool-cases (text_eq r ref)) [
    | inl hit ↦ rw hit (ground (arith, any-concat rows row))
    | inr miss ↦ rw miss (ground (arith, in_attributes-add ref row more))
  ]

  holds-group :
      (k : AssetKey) (row : Row) (r : Routing) → holds (group k row r) ≡ (holds r || p row)
  holds-group k row r = ground (arith, in_groups-add k row r.groups)

  holds-attribute :
      (ref : Text) (row : Row) (r : Routing) → holds (attribute ref row r) ≡ (holds r || p row)
  holds-attribute ref row r = ground (arith, in_attributes-add ref row r.attributes)

  holds-add_explicit : (o : Option RelHint) (r : Routing) → holds (add_explicit o r) ≡ holds r
  unfolding add_explicit
  holds-add_explicit none r = refl
  holds-add_explicit (some h) r = refl

  holds-explicit_hints :
      (row : Row) (raws : List RawHint) (r : Routing) → holds (explicit_hints row raws r) ≡ holds r
  unfolding explicit_hints
  holds-explicit_hints row [] r = refl
  holds-explicit_hints row (raw ∷ raws) r =
      rw (holds-explicit_hints row raws (add_explicit (explicit_hint row raw) r))
        (holds-add_explicit (explicit_hint row raw) r)

  holds-add_parent :
      (host : Text) (o : Option Text) (r : Routing) → holds (add_parent host o r) ≡ holds r
  unfolding add_parent
  holds-add_parent host none r = refl
  holds-add_parent host (some parent) r = ground arith

  holds-dns_target :
      (rtype name target : Text) (row : Row) (r : Routing)
      → holds r ≡ (holds r || p row)
      → holds (dns_target rtype name target row r) ≡ holds r
  unfolding dns_target
  holds-dns_target rtype name target row r h = ground (
    arith,
    holds-group (key ip (canon_ip target)) row r,
    holds-group (key (host_type (canon_host target)) (canon_host target)) row r,
    holds-group (key (host_type (canon_host (last_word target))) (canon_host (last_word target)))
        row r,
  )

  holds-derive :
      (row : Row) (r : Routing)
      → holds (derive_dns_relationships row r) ≡ (holds r || p row && not (blank_target row))
  unfolding derive_dns_relationships
  holds-derive row r =
      let name = canon_host (or_else row.raw_name row.subject_value) in
      let target = strip (or_else row.raw_value []) in
      let named = group (key (host_type name) name) row r in
      let has : holds named ≡ (holds r || p row) = holds-group (key (host_type name) name) row r in
      elim (Bool-cases (is_empty name || is_empty target)) [
        | inl blank ↦ rw blank (ground arith)
        | inr full ↦ rw full (
            holds-dns_target (map upper_char (or_else row.raw_rtype [])) name target row named
              (ground arith)
            ∙ has
            ∙ ground arith)
      ]

  holds-route_asset :
      (row : Row) (o : Option AssetType) (r : Routing)
      → holds (route_asset row o r) ≡ (holds r || p row)
  unfolding route_asset
  holds-route_asset row none r = holds-group (tagged row.subject_type row.subject_value) row r
  holds-route_asset row (some subdomain) r =
      let host = canon_host row.subject_value in
      holds-add_parent host (parent_of row host) (group (key subdomain host) row r)
      ∙ holds-group (key subdomain host) row r
  holds-route_asset row (some type) r = holds-group (key type (canon type row.subject_value)) row r

  holds-route_subject :
      (row : Row) (r : Routing)
      → holds (route_subject row r) ≡ (holds r || p row && not (blank_dns row))
  unfolding route_subject
  holds-route_subject row r = elim (Bool-cases row.is_absent) [
    | inl absent ↦
        ground (arith, holds-group (tagged row.subject_type (canon_host row.subject_value)) row r)
    | inr present ↦ elim (Bool-cases (text_eq row.subject_type (text "secret"))) [
      | inl secret ↦ ground (
        arith,
        holds-group (tagged (text "secret") row.subject_value) row r,
        secret_not_dns row.subject_type secret,
      )
      | inr other ↦ elim (Bool-cases (text_eq row.subject_type (text "dns_record"))) [
        | inl dns ↦ ground (arith, holds-derive row r)
        | inr other2 ↦ ground (
          arith,
          holds-attribute (canon_ref (parent_ref row)) row r,
          holds-route_asset row (asset_type_for row.subject_type) r,
        )
      ]
    ]
  ]

  holds-route_evidence :
      (row : Row) (r : Routing)
      → row.is_error ≡ false
      → holds (route_evidence row r) ≡ (holds r || p row && is_material row)
  unfolding route_evidence
  holds-route_evidence row r clean = elim (Bool-cases (evidence_only row.subject_type)) [
    | inl only ↦ ground arith
    | inr other ↦ ground (
      arith,
      holds-route_subject row (explicit_hints row row.relationships r),
      holds-explicit_hints row row.relationships r,
    )
  ]

  -- Whatever one asks of a row, some row of the groups and lists that are collected answers it exactly
  -- if one did before, or a material row of the engagement does: one that is no error, no hit that was
  -- only noted, and no DNS record without a name or a value. No such row is lost, and no other gets in.
  pub holds-collect_evidence :
      (rows : List Row) (r : Routing)
      → holds (collect_evidence rows r) ≡ (holds r || any (λ row. p row && is_material row) rows)
  unfolding collect_evidence
  holds-collect_evidence [] r = ground arith
  holds-collect_evidence (row ∷ rows) r = elim (Bool-cases row.is_error) [
    | inl raised ↦ ground (arith, holds-collect_evidence rows r)
    | inr clean ↦ ground (
      arith,
      holds-collect_evidence rows (route_evidence row (counted r)),
      holds-route_evidence row (counted r),
    )
  ]
