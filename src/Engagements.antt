-- ===== src/Engagements.antt =====
-- recon/orchestrator/engagements.py: the life of an engagement and the pointers of operators to it.
-- The loading of the rules from YAML is a parameter.
pub mod Pointers
mod Tests
use recon_platform.Prelude.{
  ℕ, ◌==◌, Bool, true, false, ◌||◌, not, Option, none, some, List, [], ◌∷◌, ◌++◌, any, find, keep,
  update_where, if◌then◌else◌, Result, ok, err, ◌>>=◌,
}
use recon_platform.Prelude.Text.{Text, is_empty, strip}

pub data EngagementStatus : Type 0 where
  active paused completed archived : EngagementStatus

-- What the service reads of an RoE document.
pub record RoeConfig : Type 0 where
  pub name : Text
  pub client : Text
  pub window : Option (ℕ × ℕ)
  pub analysis_enabled : Bool

pub record Engagement : Type 0 where
  pub id : ℕ
  pub name : Text
  pub client_name : Text
  pub roe_config_yaml : Text
  pub roe_config : RoeConfig
  pub roe_config_hash : Text
  pub window : Option (ℕ × ℕ)
  pub status : EngagementStatus
  pub llm_analysis_enabled : Bool

-- An operator, with the engagement that the dashboard shows.
pub record Operator : Type 0 where
  pub id : ℕ
  pub active_engagement_id : Option ℕ

-- The tables; `evidence` stands for the rows that belong to an engagement, by its id.
pub record Tables : Type 0 where
  pub engagements : List Engagement
  pub operators : List Operator
  pub evidence : List (ℕ × Text)

pub data EngagementError : Type 0 where
  not_found invalid_roe no_operator : EngagementError

-- `(name_override or "").strip() or config.engagement.name`
display_name : Option Text → Text → Text
unfolding strip
display_name none name = name
display_name (some override) name =
    let given = strip override in if is_empty given then name else given

-- `create`, where `load` is `load_roe`: the configuration and its canonical hash.
unfoldable pub create :
    (Text → Option (RoeConfig × Text))
    → ℕ
    → Text
    → Option Text
    → Tables
    → Result EngagementError Tables
unfolding display_name
create load id raw override t = elim (load raw) [
  | none ↦ err invalid_roe
  | some (config, hash) ↦ ok (record t {
    engagements =
        t.engagements
        ++ record {
          id = id;
          name = display_name override config.name;
          client_name = config.client;
          roe_config_yaml = raw;
          roe_config = config;
          roe_config_hash = hash;
          window = config.window;
          status = active;
          llm_analysis_enabled = config.analysis_enabled;
        }
          ∷ [];
  })
]

abbrev pub is_archived : EngagementStatus → Bool
is_archived archived = true
is_archived _ = false

-- `list`, the newest first: rows are inserted in the order of their creation.
reverse_onto : List Engagement → List Engagement → List Engagement
reverse_onto [] done = done
reverse_onto (e ∷ es) done = reverse_onto es (e ∷ done)

unfoldable pub list_engagements : Bool → Tables → List Engagement
unfolding reverse_onto
list_engagements include_archived t =
    keep (λ e. include_archived || not (is_archived e.status)) (reverse_onto t.engagements [])

abbrev pub has_id : ℕ → Engagement → Bool
has_id id e = e.id == id

-- `get`
unfoldable pub get : ℕ → Tables → Result EngagementError Engagement
get id t = elim (find (has_id id) t.engagements) [ none ↦ err not_found | some e ↦ ok e ]

abbrev set_engagement : ℕ → (Engagement → Engagement) → Tables → Tables
set_engagement id f t = record t { engagements = update_where (has_id id) f t.engagements }

unfoldable pub set_status : ℕ → EngagementStatus → Tables → Result EngagementError Tables
unfolding get
set_status id status t =
    get id t >>= λ _. ok (set_engagement id (λ e. record e { status = status }) t)

unfoldable pub set_llm_enabled : ℕ → Bool → Tables → Result EngagementError Tables
unfolding get
set_llm_enabled id enabled t =
    get id t >>= λ _. ok (set_engagement id (λ e. record e { llm_analysis_enabled = enabled }) t)

abbrev pub is_operator : ℕ → Operator → Bool
is_operator id u = u.id == id

-- `set_active`: the engagement must be there, if one is named. An id is a number, so that the empty
-- text, which the source takes for no id in its check, is none; its callers pass the id of a row.
unfoldable pub point_at : ℕ → Option ℕ → Tables → Result EngagementError Tables
point_at user target t = elim (find (is_operator user) t.operators) [
  | none ↦ err no_operator
  | some _ ↦ ok (record t {
    operators =
        update_where (is_operator user) (λ u. record u { active_engagement_id = target })
          t.operators;
  })
]

unfoldable pub set_active : ℕ → Option ℕ → Tables → Result EngagementError Tables
unfolding get point_at
set_active user none t = point_at user none t
set_active user (some id) t = get id t >>= λ _. point_at user (some id) t

abbrev pub points_at : ℕ → Operator → Bool
points_at id u = elim u.active_engagement_id [ none ↦ false | some target ↦ target == id ]

abbrev pub detach : Operator → Operator
detach u = record u { active_engagement_id = none }

-- `purge`: the pointers are cleared first, then the engagement goes with the rows that belong to it.
unfoldable pub purge : ℕ → Tables → Result EngagementError Tables
unfolding get
purge id t = get id t >>= λ _. ok (record {
  engagements = keep (λ e. not (has_id id e)) t.engagements;
  operators = update_where (points_at id) detach t.operators;
  evidence = keep (λ row. not (row.0 == id)) t.evidence;
})

pub data Call : Type 0 where
  creating : ℕ → Text → Option Text → Call
  marking : ℕ → EngagementStatus → Call
  allowing : ℕ → Bool → Call
  focusing : ℕ → Option ℕ → Call
  purging : ℕ → Call

abbrev pub or_same : Result EngagementError Tables → Tables → Tables
or_same (ok t) old = t
or_same (err _) old = old

unfoldable pub call : (Text → Option (RoeConfig × Text)) → Call → Tables → Tables
call load (creating id raw override) t = or_same (create load id raw override t) t
call load (marking id status) t = or_same (set_status id status t) t
call load (allowing id enabled) t = or_same (set_llm_enabled id enabled t) t
call load (focusing user id) t = or_same (set_active user id t) t
call load (purging id) t = or_same (purge id t) t

unfoldable pub calls : (Text → Option (RoeConfig × Text)) → List Call → Tables → Tables
unfolding call
calls load [] t = t
calls load (c ∷ cs) t = calls load cs (call load c t)
