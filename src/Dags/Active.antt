-- ===== src/Dags/Active.antt =====
-- A run ID stays active until every task has succeeded with it.
use Prim.Native.String.{String, [], ◌∷◌}
use text.Mathlib.TextLemmas.{append-ne-nil_of_right_ne-nil, cons≢nil, cons-append}
use udhyam_msme_extractor.Prelude.{
  ◌≡◌, ◌≢◌, refl, sym, ap, subst, ◌∙◌, ◌⊎◌, inl, inr, false, Bool-cases, Option, none, some, List,
  [], ◌∷◌, eq_iff,
}
use udhyam_msme_extractor.Prelude.Text.{is_blank, take}
use udhyam_msme_extractor.Exec.{Result, ok}
use udhyam_msme_extractor.Web.Cache.Fresh.{In}
use udhyam_msme_extractor.Dags.{
  Variable, Task, extract, compact_batches, load_to_snowflake, dbt_run, dbt_docs_generate,
  clear_run_id, after, DagRun, Pipeline, Step, begins, dies, succeeds, fails, finishes, Reach,
  start, next, get_or_create_run_id, reused, created, new_run_id, clear_run_id_after_success,
  known_run_id, cleared,
}

-- the tasks before this one have succeeded with the ID
abbrev pub DoneBefore : Task → String → List (Task × String) → Type 0
DoneBefore extract id l = Unit
DoneBefore compact_batches id l = In (extract, id) l
DoneBefore load_to_snowflake id l = In (extract, id) l × In (compact_batches, id) l
DoneBefore dbt_run id l =
    In (extract, id) l × In (compact_batches, id) l × In (load_to_snowflake, id) l
DoneBefore dbt_docs_generate id l =
    In (extract, id) l
    × In (compact_batches, id) l
    × In (load_to_snowflake, id) l
    × In (dbt_run, id) l
DoneBefore clear_run_id id l =
    In (extract, id) l
    × In (compact_batches, id) l
    × In (load_to_snowflake, id) l
    × In (dbt_run, id) l
    × In (dbt_docs_generate, id) l

DoneBefore-after :
    (task : Task) (id : String) (l : List (Task × String))
    → task ≢ clear_run_id
    → DoneBefore task id l
    → DoneBefore (after task) id ((task, id) ∷ l)
DoneBefore-after extract id l n h = inl refl
DoneBefore-after compact_batches id l n h = (inr h, inl refl)
DoneBefore-after load_to_snowflake id l n h = (inr h.0, inr h.1, inl refl)
DoneBefore-after dbt_run id l n h = (inr h.0, inr h.1, inr h.2, inl refl)
DoneBefore-after dbt_docs_generate id l n h = (inr h.0, inr h.1, inr h.2, inr h.3, inl refl)
DoneBefore-after clear_run_id id l n h = absurd (n refl)

-- An active run works on the ID of the variable, and on the task that is due.
abbrev Works : Variable → Option DagRun → List (Task × String) → Type 0
Works v none l = Unit
Works v (some run) l =
    (v ≡ some run.run_id) × (is_blank run.run_id ≡ false) × DoneBefore run.due run.run_id l

not_blank : (s : String) → s ≢ [] → is_blank s ≡ false
not_blank s n = elim (Bool-cases (is_blank s)) [
  | inl e ↦ absurd (n ((eq_iff s []).0 e))
  | inr e ↦ e
]

new_run_id-not_blank : (timestamp hex : String) → is_blank (new_run_id timestamp hex) ≡ false
unfolding new_run_id
new_run_id-not_blank timestamp hex = not_blank _ (
    append-ne-nil_of_right_ne-nil timestamp
      (λ e. cons≢nil (sym (cons-append "_" [] (take 8 hex)) ∙ e)))

reused-nonblank :
    (fresh : String) (v : Variable)
    → is_blank fresh ≡ false
    → (id : String) × (reused fresh v v ≡ (ok id, some id)) × (is_blank id ≡ false)
unfolding reused created
reused-nonblank fresh none h = (fresh, refl, h)
reused-nonblank fresh (some active) h = elim (Bool-cases (is_blank active)) [
  | inl e ↦ (fresh, rw e refl, h)
  | inr e ↦ (active, rw e refl, e)
]

created_or_reused :
    (timestamp hex id : String) (v v' : Variable)
    → get_or_create_run_id timestamp hex v ≡ (ok id, v')
    → (v' ≡ some id) × (is_blank id ≡ false)
unfolding get_or_create_run_id
created_or_reused timestamp hex id v v' e =
    let (j, p, b) =
      reused-nonblank (new_run_id timestamp hex) v (new_run_id-not_blank timestamp hex) in
    let q : ◌≡◌ {A = Result String String × Variable} (ok j, some j) (ok id, v') = sym p ∙ e in
    let same : j ≡ id = cc in (sym (ap (λ x. x.1) q) ∙ ap some same, rw (← same) b)

-- an active ID is returned and stays
reuses :
    (timestamp hex id : String)
    → is_blank id ≡ false
    → get_or_create_run_id timestamp hex (some id) ≡ (ok id, some id)
unfolding get_or_create_run_id reused
reuses timestamp hex id h = rw h refl

clears :
    (id : String)
    → is_blank id ≡ false
    → clear_run_id_after_success (some id) (some id) ≡ (ok tt, none)
unfolding clear_run_id_after_success known_run_id cleared
clears id h = rw (h, (eq_iff id id).1 refl) refl

Step-Works :
    {p p' : Pipeline}
    → Step p p'
    → Works p.variable p.active p.succeeded
    → Works p'.variable p'.active p'.succeeded
Step-Works (begins v v' l timestamp hex id e) h =
    let (q, b) = created_or_reused timestamp hex id v v' e in (q, b, tt)
Step-Works (dies v l timestamp hex) h = tt
Step-Works (succeeds v l id task n) h = (h.0, h.1, DoneBefore-after task id l n h.2)
Step-Works (fails v l run) h = tt
Step-Works (finishes v l id) h = tt

Reach-Works : {p : Pipeline} → Reach p → Works p.variable p.active p.succeeded
Reach-Works start = tt
Reach-Works (next r s) = Step-Works s (Reach-Works r)

-- the active run works on `id`
abbrev pub WorksOn : String → Option DagRun → Type 0
WorksOn id none = Unit
WorksOn id (some run) = run.run_id ≡ id

-- `id` is active still, for the active run too, or it has been cleared after every task succeeded with it
abbrev pub IsKept : String → Pipeline → Type 0
IsKept id p =
    ((p.variable ≡ some id) × WorksOn id p.active)
    ⊎ ((p.variable ≡ none) × DoneBefore clear_run_id id p.succeeded)

Step-variable :
    {p p' : Pipeline} (id : String)
    → Step p p'
    → Works p.variable p.active p.succeeded
    → p.variable ≡ some id
    → is_blank id ≡ false
    → (p'.variable ≡ some id) ⊎ ((p'.variable ≡ none) × DoneBefore clear_run_id id p'.succeeded)
Step-variable id (begins v v' l timestamp hex j e) h a b =
    let q : ◌≡◌ {A = Result String String × Variable} (ok id, some id) (ok j, v') =
      sym (reuses timestamp hex id b) ∙ (rw a at e) in
    inl (sym (ap (λ x. x.1) q))
Step-variable id (dies v l timestamp hex) h a b = inl (rw (a, reuses timestamp hex id b) refl)
Step-variable id (succeeds v l j task n) h a b = inl a
Step-variable id (fails v l run) h a b = inl a
Step-variable id (finishes v l j) h a b =
    let q : ◌≡◌ {A = Variable} (some j) (some id) = sym h.0 ∙ a in
    let same : j ≡ id = cc in
    inr (rw (h.0, clears j h.1) refl, subst (λ x. DoneBefore clear_run_id x l) same h.2)

works_on :
    (id : String) (v : Variable) (run : Option DagRun) (l : List (Task × String))
    → Works v run l
    → v ≡ some id
    → WorksOn id run
works_on id v none l h a = tt
works_on id v (some run) l h a =
    let q : ◌≡◌ {A = Variable} (some run.run_id) (some id) = sym h.0 ∙ a in cc

kept :
    (id : String) (p : Pipeline)
    → Works p.variable p.active p.succeeded
    → (p.variable ≡ some id) ⊎ ((p.variable ≡ none) × DoneBefore clear_run_id id p.succeeded)
    → IsKept id p
kept id p w (inl e) = inl (e, works_on id p.variable p.active p.succeeded w e)
kept id p w (inr done) = inr done

-- Whatever fails, dies or is tried again: once a run has made an ID active, no step replaces it. Each
-- later run works on the same ID, until every task from the extraction to the documentation has
-- succeeded with it; only then is it cleared.
pub Reach-Kept :
    (p p' : Pipeline) (id : String)
    → Reach p
    → Step p p'
    → p.variable ≡ some id
    → is_blank id ≡ false
    → IsKept id p'
Reach-Kept p p' id r s a b =
    kept id p' (Step-Works s (Reach-Works r)) (Step-variable id s (Reach-Works r) a b)
