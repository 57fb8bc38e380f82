-- ===== src/Projection/Bounds.antt =====
-- The bounds of the live views of src/review-events.ts, and the reviews of a state.
use dsh_codex_workflow.Common.{
  ◌≤◌, String, ◌≡◌, refl, subst, ◌∙◌, inl, inr, true, Option, none, some, List, [], ◌∷◌, arith,
  if◌then◌else◌, str_eq, str_eq_iff, str_eq_refl, Bool-cases, Option-cases, length, All,
}
use dsh_codex_workflow.Common.Table.{get, key-get}
use dsh_codex_workflow.Projection.Live.{ViewEntry, max_entries, Bounded}
use dsh_codex_workflow.Projection.Reviews.{
  PlanView, ReviewView, State, review_id_of, upsert, is_current, entries_or_nil, review_or_blank,
  kept_active, kept_reviews,
}

-- A view has at most 96 entries of at most 65,536 code units.
abbrev pub Limited : Option (List ViewEntry) → Type 0
Limited o = (length (entries_or_nil o) ≤ max_entries) × Bounded (entries_or_nil o)

abbrev pub LimitedPlan : Option PlanView → Type 0
LimitedPlan none = Unit
LimitedPlan (some p) = Limited p.live

pub record Consistent (s : State) : Type 0 where
  pub active_listed :
      (r : ReviewView) → s.active_review ≡ some r → get review_id_of r.review_id s.reviews ≡ some r
  pub plan_limited : LimitedPlan s.plan
  pub reviews_limited : All (λ r. Limited r.live) s.reviews

pub get-upsert :
    (id : String) (rs : List ReviewView) (next : ReviewView)
    → get review_id_of id (upsert rs next)
      ≡ (if str_eq next.review_id id then some next else get review_id_of id rs)
unfolding get upsert
get-upsert id [] next = refl
get-upsert id (r ∷ rs) next = elim (Bool-cases (str_eq r.review_id next.review_id)) [
  | inl same ↦ ground (arith, str_eq_iff r.review_id next.review_id)
  | inr other ↦ elim (Bool-cases (str_eq r.review_id id)) [
    | inl hit ↦ ground (
      arith,
      str_eq_iff r.review_id id,
      str_eq_iff next.review_id id,
      str_eq_iff r.review_id next.review_id,
    )
    | inr miss ↦ ground (arith, get-upsert id rs next)
  ]
]

pub upsert-All :
    (rs : List ReviewView) (next : ReviewView)
    → All (λ r. Limited r.live) rs
    → Limited next.live
    → All (λ r. Limited r.live) (upsert rs next)
unfolding upsert
upsert-All [] next all l = (l, tt)
upsert-All (r ∷ rs) next (a, all) l = elim (Bool-cases (str_eq r.review_id next.review_id)) [
  | inl same ↦ rw (same, upsert) (l, all)
  | inr other ↦ rw (other, upsert) (a, upsert-All rs next all l)
]

pub get-All :
    (id : String) (rs : List ReviewView) (r : ReviewView)
    → All (λ r. Limited r.live) rs
    → get review_id_of id rs ≡ some r
    → Limited r.live
unfolding get
get-All id [] r all e = absurd cc
get-All id (x ∷ rs) r (a, all) e = elim (Bool-cases (str_eq x.review_id id)) [
  | inl hit ↦ subst (λ (y : ReviewView). Limited y.live) (found hit) a
  | inr miss ↦ get-All id rs r all (ground arith)
]
  where
    found : str_eq x.review_id id ≡ true → x ≡ r
    found hit = ground arith

pub nothing-Limited : Limited none
nothing-Limited = (omega arith, tt)

pub review_or_blank-Limited :
    (workflow_id id date : String) (rs : List ReviewView)
    → All (λ r. Limited r.live) rs
    → Limited (review_or_blank workflow_id id date rs).live
review_or_blank-Limited workflow_id id date rs all = elim (Option-cases (get review_id_of id rs)) [
  | inl gone ↦ rw (gone, review_or_blank) nothing-Limited
  | inr (r, e) ↦ rw (e, review_or_blank) (get-All id rs r all e)
]

-- The review that is replaced has the id of the event.
pub review_or_blank-id :
    (workflow_id id date : String) (rs : List ReviewView)
    → (review_or_blank workflow_id id date rs).review_id ≡ id
review_or_blank-id workflow_id id date rs = elim (Option-cases (get review_id_of id rs)) [
  | inl gone ↦ rw (gone, review_or_blank) refl
  | inr (r, e) ↦ rw (e, review_or_blank) (key-get review_id_of id rs e)
]

-- A review that is stored as the active one.
pub stored_active :
    (rs : List ReviewView) (next : ReviewView) (r : ReviewView)
    → ◌≡◌ {A = Option ReviewView} (some next) (some r)
    → get review_id_of r.review_id (upsert rs next) ≡ some r
stored_active rs next r e =
    subst (λ x. get review_id_of x.review_id (upsert rs next) ≡ some x) same
      (get-upsert next.review_id rs next ∙ rw (str_eq_refl next.review_id) refl)
  where
    same : next ≡ r
    same = cc

pub kept_listed :
    (s : State) (id : String)
    → Consistent s
    → (r : ReviewView) → kept_active s id ≡ some r
    → get review_id_of r.review_id (kept_reviews s id) ≡ some r
kept_listed s id c r e = elim (Bool-cases (is_current s id)) [
  | inl same ↦ rw same (c.active_listed r (rw same at e))
  | inr new ↦ absurd (none_some (rw new at e))
]
  where
    none_some : ◌≡◌ {A = Option ReviewView} none (some r) → ⊥
    none_some h = cc

pub kept-Limited :
    (s : State) (id : String) → Consistent s → All (λ r. Limited r.live) (kept_reviews s id)
kept-Limited s id c = elim (Bool-cases (is_current s id)) [
  | inl same ↦ rw same c.reviews_limited
  | inr new ↦ rw new tt
]
