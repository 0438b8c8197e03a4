-- ===== src/Engagements/Pointers.antt =====
-- recon/orchestrator/engagements.py: the engagement that a dashboard shows is there, whatever is
-- created, changed or purged, and a purge leaves the other engagements alone.
use recon_platform.Prelude.{
  ℕ, ◌==◌, ◌≡◌, refl, ◌∙◌, Bool, true, false, not, Option, none, some, List, [], ◌∷◌, any,
  any-update_where, any-append_left, ◌>>=◌, find, keep, update_where, ok, All, Option-cases,
  Result-cases, Bool-cases, inl, inr, arith,
}
use recon_platform.Prelude.Text.{Text}
use recon_platform.Engagements.{
  RoeConfig, Engagement, Operator, Tables, create, get, set_status, set_llm_enabled, set_active,
  point_at, purge, has_id, is_operator, points_at, detach, Call, creating, marking, allowing,
  focusing, purging, or_same, call, calls,
}

-- The table holds the engagement that is named, if one is.
abbrev pub Shown : List Engagement → Option ℕ → Type 0
Shown es none = Unit
Shown es (some id) = any (has_id id) es ≡ true

abbrev pub IsShown : List Engagement → Operator → Type 0
IsShown es u = Shown es u.active_engagement_id

-- Each operator shows no engagement, or one that is in the table.
abbrev pub AreShown : Tables → Type 0
AreShown t = All (IsShown t.engagements) t.operators

Shown-mono :
    (es fs : List Engagement)
    (keeps : (id : ℕ) → any (has_id id) es ≡ true → any (has_id id) fs ≡ true) (o : Option ℕ)
    → Shown es o
    → Shown fs o
Shown-mono es fs keeps none h = tt
Shown-mono es fs keeps (some id) h = keeps id h

-- A change of the table that keeps its ids.
IsShown-mono :
    (es fs : List Engagement)
    (keeps : (id : ℕ) → any (has_id id) es ≡ true → any (has_id id) fs ≡ true) (us : List Operator)
    → All (IsShown es) us
    → All (IsShown fs) us
IsShown-mono es fs keeps [] h = tt
IsShown-mono es fs keeps (u ∷ us) (p, h) =
    (Shown-mono es fs keeps u.active_engagement_id p, IsShown-mono es fs keeps us h)

update-AreShown :
    (id : ℕ) (f : Engagement → Engagement)
    (same : (target : ℕ) (e : Engagement) → has_id target (f e) ≡ has_id target e) (t : Tables)
    → AreShown t
    → AreShown (
        or_same
          (get id t >>= λ _.
            ok (record t { engagements = update_where (has_id id) f t.engagements }))
          t)
update-AreShown id f same t h = elim (Result-cases (get id t)) [
  | inr (e, g) ↦ rw g h
  | inl (e, g) ↦ rw g (
      IsShown-mono t.engagements (update_where (has_id id) f t.engagements)
        (λ target k. any-update_where (has_id target) (has_id id) f (same target) t.engagements ∙ k)
        t.operators h)
]

-- An update of operators to one that is shown.
update-IsShown :
    (es : List Engagement) (q : Operator → Bool) (f : Operator → Operator)
    (shown : (u : Operator) → IsShown es (f u)) (us : List Operator)
    → All (IsShown es) us
    → All (IsShown es) (update_where q f us)
update-IsShown es q f shown [] h = tt
update-IsShown es q f shown (u ∷ us) (p, h) = elim (Bool-cases (q u)) [
  | inl k ↦ rw k (shown u, update-IsShown es q f shown us h)
  | inr k ↦ rw k (p, update-IsShown es q f shown us h)
]

find-any :
    (p : Engagement → Bool) (es : List Engagement) (e : Engagement)
    → find p es ≡ some e
    → any p es ≡ true
find-any p [] e h = cc
find-any p (e ∷ es) x h = elim (Bool-cases (p e)) [
  | inl hit ↦ ground (arith, hit)
  | inr miss ↦ ground (arith, find-any p es x (ground (arith, miss, h)))
]

point_at-AreShown :
    (user : ℕ) (target : Option ℕ) (t : Tables)
    → Shown t.engagements target
    → AreShown t
    → AreShown (or_same (point_at user target t) t)
unfolding point_at
point_at-AreShown user target t k h = elim (Option-cases (find (is_operator user) t.operators)) [
  | inl f ↦ rw (f, point_at) h
  | inr (u, f) ↦
      rw (f, point_at)
        (update-IsShown t.engagements (is_operator user)
          (λ u. record u { active_engagement_id = target }) (λ u. k) t.operators h)
]

set_active-AreShown :
    (user : ℕ) (target : Option ℕ) (t : Tables)
    → AreShown t
    → AreShown (or_same (set_active user target t) t)
unfolding set_active
set_active-AreShown user none t h = point_at-AreShown user none t tt h
set_active-AreShown user (some id) t h = elim (Option-cases (find (has_id id) t.engagements)) [
  | inl f ↦ rw (f, get) h
  | inr (e, f) ↦
      rw (f, get) (point_at-AreShown user (some id) t (find-any (has_id id) t.engagements e f) h)
]

create-AreShown :
    (load : Text → Option (RoeConfig × Text)) (id : ℕ) (raw : Text) (override : Option Text)
    (t : Tables)
    → AreShown t
    → AreShown (or_same (create load id raw override t) t)
unfolding create
create-AreShown load id raw override t h = elim (Option-cases (load raw)) [
  | inl f ↦ rw (f, create) h
  | inr (c, f) ↦
      rw (f, create)
        (IsShown-mono t.engagements _
          (λ target k. any-append_left (has_id target) t.engagements _ k) t.operators h)
]

any-keep :
    (id target : ℕ) (es : List Engagement)
    → (target == id) ≡ false
    → any (has_id target) es ≡ true
    → any (has_id target) (keep (λ e. not (has_id id e)) es) ≡ true
any-keep id target [] other h = cc
any-keep id target (e ∷ es) other h = elim (Bool-cases (has_id id e)) [
  | inl hit ↦ rw hit (any-keep id target es other (ground arith))
  | inr miss ↦ rw miss (elim (Bool-cases (has_id target e)) [
    | inl k ↦ ground (arith, k)
    | inr k ↦ ground (arith, k, any-keep id target es other (ground (arith, k, h)))
  ])
]

Shown-keep :
    (id : ℕ) (es : List Engagement) (o : Option ℕ)
    → elim o [ none ↦ false | some target ↦ target == id ] ≡ false
    → Shown es o
    → Shown (keep (λ e. not (has_id id e)) es) o
Shown-keep id es none other h = tt
Shown-keep id es (some target) other h = any-keep id target es other h

detach-IsShown :
    (id : ℕ) (es : List Engagement) (us : List Operator)
    → All (IsShown es) us
    → All (IsShown (keep (λ e. not (has_id id e)) es)) (update_where (points_at id) detach us)
detach-IsShown id es [] h = tt
detach-IsShown id es (u ∷ us) (p, h) = elim (Bool-cases (points_at id u)) [
  | inl hit ↦ rw hit (tt, detach-IsShown id es us h)
  | inr miss ↦ rw miss (Shown-keep id es u.active_engagement_id miss p, detach-IsShown id es us h)
]

purge-AreShown : (id : ℕ) (t : Tables) → AreShown t → AreShown (or_same (purge id t) t)
unfolding purge
purge-AreShown id t h = elim (Option-cases (find (has_id id) t.engagements)) [
  | inl f ↦ rw (f, get) h
  | inr (e, f) ↦ rw (f, get) (detach-IsShown id t.engagements t.operators h)
]

-- Whatever engagements are created, changed, shown and purged, each operator shows none or one that
-- is in the table, if each did so before: no dashboard is left with a purged engagement.
pub calls-AreShown :
    (load : Text → Option (RoeConfig × Text)) (cs : List Call) (t : Tables)
    → AreShown t
    → AreShown (calls load cs t)
unfolding calls call set_status set_llm_enabled
calls-AreShown load [] t h = h
calls-AreShown load (creating id raw override ∷ cs) t h =
    calls-AreShown load cs _ (create-AreShown load id raw override t h)
calls-AreShown load (marking id status ∷ cs) t h =
    calls-AreShown load cs _
      (update-AreShown id (λ e. record e { status = status }) (λ target e. refl) t h)
calls-AreShown load (allowing id enabled ∷ cs) t h =
    calls-AreShown load cs _
      (update-AreShown id (λ e. record e { llm_analysis_enabled = enabled }) (λ target e. refl) t h)
calls-AreShown load (focusing user id ∷ cs) t h =
    calls-AreShown load cs _ (set_active-AreShown user id t h)
calls-AreShown load (purging id ∷ cs) t h = calls-AreShown load cs _ (purge-AreShown id t h)
