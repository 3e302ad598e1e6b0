-- ===== src/Moderation/Counting.antt =====
-- The count of apps/api/src/reports/reports.service.ts against the reporters that it stands for, and what a new
-- report and a mark on one do to them.
use buyseekk.Prelude.{
  ℕ, ◌≤◌, ◌≡◌, ◌≢◌, refl, subst, inl, inr, Bool, true, false, not, List, [], ◌∷◌, ◌==◌, ◌&&◌, leb,
  length, some_of, arith, Bool-cases, if◌then◌else◌,
}
use buyseekk.Shared.RequestStatus.Sorting.{AllOf, IsOrdered}
use buyseekk.Moderation.Rows.{AutoAction, Report}
use buyseekk.Moderation.Thresholds.{count_unique_reporters}
use buyseekk.Moderation.Reports.{mark_first}

-- A report of the user fits and has weight.
abbrev pub counts_for : (Report → Bool) → ℕ → Report → Bool
counts_for p id r = p r && leb 1 r.weight && r.reporter_id == id

-- There are at least `n` different users whose reports fit and have weight.
pub record HasReporters (n : ℕ) (p : Report → Bool) (reports : List Report) : Type 0 where
  pub ids : List ℕ
  pub enough : n ≤ length ids
  pub distinct : IsOrdered (λ a b. a ≢ b) ids
  pub reported : AllOf (λ id. some_of (counts_for p id) reports ≡ true) ids

module _ (p : Report → Bool) where
  abbrev is_first : Report → List Report → Bool
  is_first r rs = p r && leb 1 r.weight && not (some_of (counts_for p r.reporter_id) rs)

  abbrev reporters : List Report → List ℕ
  reporters [] = []
  reporters (r ∷ rs) =
      let rest = reporters rs in if is_first r rs then r.reporter_id ∷ rest else rest

  length-reporters : (rs : List Report) → length (reporters rs) ≡ count_unique_reporters p rs
  unfolding count_unique_reporters
  length-reporters [] = refl
  length-reporters (r ∷ rs) = elim (Bool-cases (is_first r rs)) [
    | inl t ↦ rw (t, length-reporters rs) (omega arith)
    | inr t ↦ rw (t, length-reporters rs) refl
  ]

  AllOf-later :
      (r : Report) (rs : List Report) (ids : List ℕ)
      → AllOf (λ id. some_of (counts_for p id) rs ≡ true) ids
      → AllOf (λ id. some_of (counts_for p id) (r ∷ rs) ≡ true) ids
  AllOf-later r rs [] h = tt
  AllOf-later r rs (id ∷ ids) h = (ground (arith, h.0), AllOf-later r rs ids h.1)

  reporters-reported :
      (rs : List Report) → AllOf (λ id. some_of (counts_for p id) rs ≡ true) (reporters rs)
  reporters-reported [] = tt
  reporters-reported (r ∷ rs) = elim (Bool-cases (is_first r rs)) [
    | inl t ↦ rw t (ground arith, AllOf-later r rs (reporters rs) (reporters-reported rs))
    | inr t ↦ rw t (AllOf-later r rs (reporters rs) (reporters-reported rs))
  ]

  AllOf-apart :
      (id : ℕ) (rs : List Report) (ids : List ℕ)
      → some_of (counts_for p id) rs ≡ false
      → AllOf (λ j. some_of (counts_for p j) rs ≡ true) ids
      → AllOf (λ j. id ≢ j) ids
  AllOf-apart id rs [] none_yet h = tt
  AllOf-apart id rs (j ∷ ids) none_yet h = (
    λ e. absurd (cc (subst (λ k. some_of (counts_for p k) rs ≡ false) e none_yet)),
    AllOf-apart id rs ids none_yet h.1,
  )

  reporters-distinct : (rs : List Report) → IsOrdered (λ a b. a ≢ b) (reporters rs)
  reporters-distinct [] = tt
  reporters-distinct (r ∷ rs) = elim (Bool-cases (is_first r rs)) [
    | inl t ↦ rw t (
      AllOf-apart r.reporter_id rs (reporters rs) (ground arith) (reporters-reported rs),
      reporters-distinct rs,
    )
    | inr t ↦ rw t (reporters-distinct rs)
  ]

  pub count-HasReporters :
      (n : ℕ) (rs : List Report) → n ≤ count_unique_reporters p rs → HasReporters n p rs
  count-HasReporters n rs h = record {
    ids = reporters rs;
    enough = omega (arith, h, length-reporters rs);
    distinct = reporters-distinct rs;
    reported = reporters-reported rs;
  }

  pub cons-HasReporters :
      {n : ℕ} (r : Report) (rs : List Report) → HasReporters n p rs → HasReporters n p (r ∷ rs)
  cons-HasReporters r rs h = record {
    ids = h.ids;
    enough = h.enough;
    distinct = h.distinct;
    reported = AllOf-later r rs h.ids h.reported;
  }

  module _ (actions : List AutoAction)
      (blind : (r : Report) → p (record r { auto_triggered_action = actions }) ≡ p r) where
    AllOf-marked :
        (rs : List Report) (ids : List ℕ)
        → AllOf (λ id. some_of (counts_for p id) rs ≡ true) ids
        → AllOf (λ id. some_of (counts_for p id) (mark_first actions rs) ≡ true) ids
    AllOf-marked rs [] h = tt
    AllOf-marked [] (id ∷ ids) h = h
    AllOf-marked (r ∷ rs) (id ∷ ids) h = (rw (blind r) h.0, AllOf-marked (r ∷ rs) ids h.1)

    pub mark-HasReporters :
        {n : ℕ} (rs : List Report) → HasReporters n p rs → HasReporters n p (mark_first actions rs)
    mark-HasReporters rs h = record {
      ids = h.ids;
      enough = h.enough;
      distinct = h.distinct;
      reported = AllOf-marked rs h.ids h.reported;
    }
