-- ===== src/Findings/Bound.antt =====
-- `_stamp_categories` and `_stamp_and_bound` of engine/run.py: what one call of a lens contributes.
pub mod Laws
use lgtmaybe.Prelude.{
  ℕ, zero, suc, ◌+◌, ◌-◌, Bool, true, false, ◌||◌, Option, none, some, List, [], ◌∷◌, if◌then◌else◌,
  leb, ◌==◌, length, take, map,
}
use lgtmaybe.Text.{Text}
use lgtmaybe.Findings.Model.{ReviewFinding, category_in}
use lgtmaybe.Findings.Cap.{sort_by_rank}
use lgtmaybe.Findings.Ceiling.{clamp_to_category_ceiling}
use lgtmaybe.Findings.SelfTalk.{drop_self_talk}

-- the fields of `_Lens` that are read here
pub record Lens : Type 0 where
  pub id : Text
  pub allowed_categories : Option (List Text)

abbrev pub is_allowed : Option (List Text) → Option Text → Bool
is_allowed none category = false
is_allowed (some allowed) category = category_in category allowed

-- `f.model_copy(update={"category": ...})`
unfoldable pub stamp : Lens → ReviewFinding → ReviewFinding
stamp lens f = record f {
  category = (if is_allowed lens.allowed_categories f.category then f.category else some lens.id);
}

unfoldable pub stamp_categories : List ReviewFinding → Lens → List ReviewFinding
unfolding stamp
stamp_categories findings lens = clamp_to_category_ceiling (map (stamp lens) findings)

-- The findings, and how many the run's state counts for the lens: notes of the model to itself, and
-- findings over the bound.
pub record Bounded : Type 0 where
  pub findings : List ReviewFinding
  pub self_talk : ℕ
  pub flooded : ℕ

-- `max_findings_per_lens` is `cap`; zero is no bound
unfoldable pub bound : ℕ → List ReviewFinding → ℕ → Bounded
bound cap findings self_talk =
    if cap == 0 || leb (length findings) cap
    then record { findings = findings; self_talk = self_talk; flooded = 0 }
    else record {
      findings = take cap (sort_by_rank findings);
      self_talk = self_talk;
      flooded = length findings - length (take cap (sort_by_rank findings));
    }

unfoldable pub stamp_and_bound : (ℕ → Bool) → List ReviewFinding → Lens → ℕ → Bounded
unfolding bound
stamp_and_bound is_word findings lens cap =
    let (kept, self_talk) = drop_self_talk is_word (stamp_categories findings lens) in
    bound cap kept (length self_talk)
