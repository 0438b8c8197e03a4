-- ===== src/Journal/AuditLog.antt =====
-- recon/core/audit.py: the append-only log of requests. The rows stand in the order in which they were
-- recorded, and a query lists the newest first: each row's time is the clock's when it is recorded.
use recon_platform.Prelude.{
  ℕ, zero, suc, ◌≤◌, ◌≡◌, ◌≢◌, refl, sym, ◌∙◌, eq_iff, min, ◌==◌, String, str_eq, Bool, true, false,
  ◌&&◌, ◌||◌, not, Option, none, some, List, [], ◌∷◌, ◌++◌, length, keep, take, drop,
  length-take-le, if◌then◌else◌, Bool-cases, inl, inr, arith, All,
}
use recon_platform.Scope.{ScopeStatus, in_scope, flagged, excluded, not_applicable}

pub record LogEntry : Type 0 where
  pub engagement_id : ℕ
  pub module_name : String
  pub target : String
  pub in_scope_status : ScopeStatus
  pub override_used : Bool
  pub roe_config_hash : String

abbrev same_status : ScopeStatus → ScopeStatus → Bool
same_status in_scope in_scope = true
same_status flagged flagged = true
same_status excluded excluded = true
same_status not_applicable not_applicable = true
same_status _ _ = false

-- `record`: the row goes behind the others.
unfoldable pub record_entry : LogEntry → List LogEntry → List LogEntry
record_entry e log = log ++ e ∷ []

-- The filters of a query.
pub record Query : Type 0 where
  pub engagement_id : ℕ
  pub module_name : Option String
  pub in_scope_status : Option ScopeStatus
  pub override_only : Bool
  pub limit : ℕ
  pub offset : ℕ

-- `if module:` — an empty name filters nothing.
abbrev by_module : Option String → LogEntry → Bool
by_module none e = true
by_module (some name) e = str_eq name "" || str_eq e.module_name name

abbrev by_status : Option ScopeStatus → LogEntry → Bool
by_status none e = true
by_status (some status) e = same_status e.in_scope_status status

abbrev pub matches : Query → LogEntry → Bool
matches q e =
    e.engagement_id == q.engagement_id
    && by_module q.module_name e
    && by_status q.in_scope_status e
    && (not q.override_only || e.override_used)

newest_first : List LogEntry → List LogEntry → List LogEntry
newest_first [] done = done
newest_first (e ∷ es) done = newest_first es (e ∷ done)

-- `list_entries`
unfoldable pub list_entries : Query → List LogEntry → List LogEntry
unfolding newest_first
list_entries q log =
    take (min q.limit 1000) (drop q.offset (keep (matches q) (newest_first log [])))

-- `count`
unfoldable pub count : ℕ → List LogEntry → ℕ
count id log = length (keep (λ e. e.engagement_id == id) log)

-- What a query asks of a row, filter by filter; an empty module name asks nothing.
pub record IsAnswer (q : Query) (e : LogEntry) : Type 0 where
  engagement : e.engagement_id ≡ q.engagement_id
  by_name : (name : String) → q.module_name ≡ some name → name ≢ "" → e.module_name ≡ name
  by_scope : (status : ScopeStatus) → q.in_scope_status ≡ some status → e.in_scope_status ≡ status
  by_override : q.override_only ≡ true → e.override_used ≡ true

same_status_eq : (a b : ScopeStatus) → same_status a b ≡ true → a ≡ b
same_status_eq in_scope in_scope h = refl
same_status_eq flagged flagged h = refl
same_status_eq excluded excluded h = refl
same_status_eq not_applicable not_applicable h = refl
same_status_eq in_scope flagged h = cc
same_status_eq in_scope excluded h = cc
same_status_eq in_scope not_applicable h = cc
same_status_eq flagged in_scope h = cc
same_status_eq flagged excluded h = cc
same_status_eq flagged not_applicable h = cc
same_status_eq excluded in_scope h = cc
same_status_eq excluded flagged h = cc
same_status_eq excluded not_applicable h = cc
same_status_eq not_applicable in_scope h = cc
same_status_eq not_applicable flagged h = cc
same_status_eq not_applicable excluded h = cc

by_module_eq :
    (m : Option String) (e : LogEntry) (name : String)
    → by_module m e ≡ true
    → m ≡ some name
    → name ≢ ""
    → e.module_name ≡ name
by_module_eq none e name h same given = cc
by_module_eq (some n) e name h same given =
    let n_name : n ≡ name = cc in
    elim (Bool-cases (str_eq n "")) [
      | inl blank ↦ absurd (given (sym n_name ∙ (eq_iff n "").0 blank))
      | inr named ↦ (eq_iff e.module_name n).0 (ground arith) ∙ n_name
    ]

by_status_eq :
    (m : Option ScopeStatus) (e : LogEntry) (status : ScopeStatus)
    → by_status m e ≡ true
    → m ≡ some status
    → e.in_scope_status ≡ status
by_status_eq none e status h same = cc
by_status_eq (some s) e status h same =
    let s_status : s ≡ status = cc in same_status_eq e.in_scope_status s h ∙ s_status

matches-IsAnswer : (q : Query) (e : LogEntry) → matches q e ≡ true → IsAnswer q e
matches-IsAnswer q e h = record {
  engagement = ground arith;
  by_name = λ name. by_module_eq q.module_name e name (ground arith);
  by_scope = λ status. by_status_eq q.in_scope_status e status (ground arith);
  by_override = λ only. ground arith;
}

keep-All : (q : Query) (es : List LogEntry) → All (IsAnswer q) (keep (matches q) es)
keep-All q [] = tt
keep-All q (e ∷ es) = elim (Bool-cases (matches q e)) [
  | inl hit ↦ rw hit (matches-IsAnswer q e hit, keep-All q es)
  | inr miss ↦ rw miss (keep-All q es)
]

module _ (P : LogEntry → Type 0) where
  drop-All : (n : ℕ) (es : List LogEntry) → All P es → All P (drop n es)
  drop-All zero es h = h
  drop-All (suc n) [] h = tt
  drop-All (suc n) (e ∷ es) (_, h) = drop-All n es h

  take-All : (n : ℕ) (es : List LogEntry) → All P es → All P (take n es)
  take-All zero es h = tt
  take-All (suc n) [] h = tt
  take-All (suc n) (e ∷ es) (p, h) = (p, take-All n es h)

-- A query shows rows of its engagement only; of its module and of its scope status, where the query
-- names one; and with an override, if it asks for those. It shows a thousand at most, or `limit` if
-- that is fewer.
pub list_entries-IsAnswer :
    (q : Query) (log : List LogEntry)
    → All (IsAnswer q) (list_entries q log) × (length (list_entries q log) ≤ min q.limit 1000)
unfolding list_entries
list_entries-IsAnswer q log = (
  take-All (IsAnswer q) (min q.limit 1000) _
      (drop-All (IsAnswer q) q.offset _ (keep-All q (newest_first log []))),
  length-take-le (min q.limit 1000) _,
)

newest_first-append :
    (log done : List LogEntry) (e : LogEntry)
    → newest_first (log ++ e ∷ []) done ≡ e ∷ newest_first log done
unfolding newest_first
newest_first-append [] done e = refl
newest_first-append (x ∷ log) done e = newest_first-append log (x ∷ done) e

-- The first page of a query, if it has room for a row, after a row is recorded: the row comes first if
-- the query is about it, and the others follow as they were listed before; otherwise nothing changes.
pub list_entries-record_entry :
    (q : Query) (n : ℕ) (e : LogEntry) (log : List LogEntry)
    → q.offset ≡ 0
    → min q.limit 1000 ≡ suc n
    → list_entries q (record_entry e log)
      ≡ (if matches q e then e ∷ list_entries (record q { limit = n }) log else list_entries q log)
unfolding list_entries record_entry
list_entries-record_entry q n e log first room =
    let small : min n 1000 ≡ n = ground (arith, room) in
    elim (Bool-cases (matches q e)) [
      | inl hit ↦ simp (newest_first-append log [] e, hit, first, room, small)
      | inr miss ↦ simp (newest_first-append log [] e, miss, first, room)
    ]
