-- ===== src/Context/Reading.antt =====
-- recon/modules/base.py: what a module reads of the engagement. The session has no
-- autoflush: a query sees the rows that are committed, and those that a flush has sent. A distinct query
-- gives each value once, here at its first row.
use recon_platform.Prelude.{
  ◌==◌, Bool, true, false, ◌&&◌, ◌||◌, not, Option, none, some, List, [], ◌∷◌, ◌++◌, map, keep,
  take, if◌then◌else◌, Result, ok, ◌>>=◌,
}
use recon_platform.Prelude.Text.{Text, text_eq, elem}
use recon_platform.Scope.{ScopeStatus, in_scope, flagged, excluded, not_applicable, Rules, classify}
use recon_platform.Scope.Urls.{ValueError}
use recon_platform.Correlation.{AssetType}
use recon_platform.Correlation.Upsert.{Asset, type_number}
use recon_platform.Context.{
  EvidenceRow, Snapshot, Added, evidence, artifact, snapshot, delta, audit, Context,
}

abbrev pub visible_rows : Context → List Added
visible_rows c = c.committed ++ take c.flushed c.pending

abbrev pub evidence_rows : List Added → List EvidenceRow
evidence_rows [] = []
evidence_rows (evidence row ∷ rows) = row ∷ evidence_rows rows
evidence_rows (artifact _ ∷ rows) = evidence_rows rows
evidence_rows (snapshot _ ∷ rows) = evidence_rows rows
evidence_rows (delta _ ∷ rows) = evidence_rows rows
evidence_rows (audit _ ∷ rows) = evidence_rows rows

abbrev pub is_known : List Text → EvidenceRow → Bool
is_known types row = elem row.subject_type types && not row.is_error

distinct : List Text → List Text → List Text
unfolding elem
distinct seen [] = []
distinct seen (v ∷ values) =
    if elem v seen then distinct seen values else v ∷ distinct (v ∷ seen) values

-- `known_values`
unfoldable pub known_values : List Text → Context → List Text
unfolding distinct elem text_eq
known_values types c = distinct [] (
    map (λ (row : EvidenceRow). row.subject_value)
      (keep (λ row. is_known types row && not row.is_absent) (evidence_rows (visible_rows c))))

-- `known_evidence`
unfoldable pub known_evidence : List Text → Context → List EvidenceRow
unfolding elem text_eq
known_evidence types c = keep (is_known types) (evidence_rows (visible_rows c))

-- The status keeps a target: never when it is excluded, when flagged only with an override.
abbrev pub keeps : Bool → ScopeStatus → Bool
keeps override excluded = false
keeps override flagged = override
keeps override in_scope = true
keeps override not_applicable = true

-- `scoped_targets`, where a target that cannot be read raises.
unfoldable pub scoped_targets : Rules → Bool → List Text → Result ValueError (List Text)
unfolding classify
scoped_targets rules override [] = ok []
scoped_targets rules override (t ∷ ts) =
    let rest = scoped_targets rules override ts in
    do d ← classify rules t []; out ← rest; ok (if keeps override d.status then t ∷ out else out)

unfoldable pub is_of_type : List AssetType → Asset → Bool
is_of_type [] a = false
is_of_type (type ∷ types) a = type_number a.asset_type == type_number type || is_of_type types a

abbrev pub is_in_scope : ScopeStatus → Bool
is_in_scope in_scope = true
is_in_scope _ = false

-- `known_asset_rows`
unfoldable pub known_asset_rows : List AssetType → Bool → List Asset → List Asset
unfolding is_of_type
known_asset_rows types in_scope_only assets =
    keep (λ a. is_of_type types a && (not in_scope_only || is_in_scope a.in_scope_status)) assets

-- `known_assets`
unfoldable pub known_assets : List AssetType → Bool → List Asset → List Text
unfolding known_asset_rows
known_assets types in_scope_only assets =
    map (λ (a : Asset). a.value) (known_asset_rows types in_scope_only assets)

last_snapshot : List Added → Option Snapshot → Option Snapshot
last_snapshot [] found = found
last_snapshot (snapshot snap ∷ rows) found = last_snapshot rows (some snap)
last_snapshot (evidence _ ∷ rows) found = last_snapshot rows found
last_snapshot (artifact _ ∷ rows) found = last_snapshot rows found
last_snapshot (delta _ ∷ rows) found = last_snapshot rows found
last_snapshot (audit _ ∷ rows) found = last_snapshot rows found

-- `latest_asset_snapshot`: the row that was put in last.
unfoldable pub latest_asset_snapshot : Context → Option Snapshot
unfolding last_snapshot
latest_asset_snapshot c = last_snapshot (visible_rows c) none
