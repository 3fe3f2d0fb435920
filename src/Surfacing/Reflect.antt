-- ===== src/Surfacing/Reflect.antt =====
-- `reflect_findings` of engine/reflect.py. The audit itself, one call of the model with its prompt and
-- the reading of its verdicts, is a parameter, and so is what `resolve_needs` of engine/retrieve.py
-- fetches: both may answer differently on each hop.
use lgtmaybe.Prelude.{
  ℕ, zero, suc, ◌-◌, Bool, true, false, ◌&&◌, ◌||◌, Option, none, some, List, [], ◌∷◌, ◌++◌,
  if◌then◌else◌, ltb, any, keep_if, map, concat,
}
use mathlib.Core.Option
use lgtmaybe.Text.{Text, text_eq}
use lgtmaybe.Collections.{nat_is_eq, text_is_eq}
use lgtmaybe.Collections.Dict.{get}
use lgtmaybe.Diff.Split.{split_by_file}
use lgtmaybe.Findings.Model.{ReviewFinding}
use lgtmaybe.Recovery.Split.{sorted_set}
use lgtmaybe.Surfacing.Config.{ReviewConfig, PrContext}

-- `_ParsedVerdict`
pub record ParsedVerdict : Type 0 where
  pub keep : Bool
  pub broad : Bool
  pub needs : List Text
  pub confidence : Option ℕ

-- `_KEEP_VERDICT`
abbrev pub keep_verdict : ParsedVerdict
keep_verdict = record { keep = true; broad = false; needs = []; confidence = none }

abbrev pub Verdicts : Type 0
Verdicts = List (ℕ × ParsedVerdict)

-- `audit` gets the hop, the findings, the context and the paths fetched for this pass, and gives the
-- verdicts and the grounded paths, or nothing where it raises. `fetch` is nothing where there is no
-- fetcher; it gets the hop, what is needed and what is grounded.
pub record Auditor : Type 0 where
  pub audit : ℕ → List ReviewFinding → PrContext → List Text → Option (Verdicts × List Text)
  pub fetch : Option (ℕ → List Text → List Text → List (Text × Text))

abbrev pub max_hops : ℕ
max_hops = 2

abbrev pub verdict_of : Option ParsedVerdict → ParsedVerdict
verdict_of none = keep_verdict
verdict_of (some verdict) = verdict

-- `verdict.confidence is not None and verdict.confidence < cfg.min_confidence`
abbrev pub below : ℕ → Option ℕ → Bool
below floor none = false
below floor (some confidence) = ltb confidence floor

pub record Judged : Type 0 where
  pub survivors : List ReviewFinding
  pub deferred : List ReviewFinding
  pub deferred_needs : List Text

abbrev pub needs_more : ParsedVerdict → Bool
needs_more verdict = nonempty verdict.needs
  where
    nonempty : List Text → Bool
    nonempty [] = false
    nonempty (n ∷ ns) = true

abbrev pub scored : ParsedVerdict → ReviewFinding → ReviewFinding
scored verdict finding = record finding { broad = verdict.broad; confidence = verdict.confidence }

-- one round of the loop over the findings, in front of the rounds that follow
unfoldable pub judge_one : ReviewConfig → ParsedVerdict → ReviewFinding → Judged → Judged
judge_one cfg verdict finding j =
    if needs_more verdict
    then record j {
      deferred = finding ∷ j.deferred;
      deferred_needs = verdict.needs ++ j.deferred_needs;
    }
    else if verdict.keep
    then (if ltb 0 cfg.min_confidence && below cfg.min_confidence verdict.confidence
        then j
        else record j { survivors = scored verdict finding ∷ j.survivors })
    else j

unfoldable pub judge : ReviewConfig → Verdicts → ℕ → List ReviewFinding → Judged
unfolding judge_one
judge cfg verdicts i [] = record { survivors = []; deferred = []; deferred_needs = [] }
judge cfg verdicts i (f ∷ fs) =
    judge_one cfg (verdict_of (get i verdicts)) f (judge cfg verdicts (suc i) fs)

-- `{**ctx.file_contents, **fetched}`
abbrev with_fetched : List (Text × Text) → (Text → Option Text) → Text → Option Text
with_fetched fetched contents path = elim (get path fetched) [
  | none ↦ contents path
  | some text ↦ some text
]

abbrev fetched_paths : List (Text × Text) → List Text
fetched_paths fetched = map (λ (file : Text × Text). file.0) fetched

-- the context of the recheck
unfoldable pub augmented : PrContext → List ReviewFinding → List (Text × Text) → PrContext
augmented ctx deferred fetched =
    let wanted = λ (path : Text).
      any (λ f. text_eq path f.path) deferred || any (text_eq path) (fetched_paths fetched) in
    record ctx {
      diff = concat (
          map (λ (p : Text × Text). p.1)
            (keep_if (λ (p : Text × Text). wanted p.0) (split_by_file ctx.diff ctx.changed_files)));
      file_contents = with_fetched fetched ctx.file_contents;
    }

-- the recursive call, where a hop is left
abbrev pub Recheck : Type 0
Recheck = PrContext → List ReviewFinding → List Text → List ReviewFinding

abbrev pub recheck_fetched : Recheck → PrContext → Judged → List (Text × Text) → List ReviewFinding
recheck_fetched again ctx j [] = j.survivors
recheck_fetched again ctx j (file ∷ fetched) =
    j.survivors
    ++ again (augmented ctx j.deferred (file ∷ fetched)) j.deferred
        (sorted_set (fetched_paths (file ∷ fetched)))

-- `fetched` is what the fetcher would find, if there is one and a hop is left
abbrev pub recheck :
    Option Recheck → Option (List (Text × Text)) → PrContext → Judged → List ReviewFinding
recheck none fetched ctx j = j.survivors
recheck (some again) none ctx j = j.survivors
recheck (some again) (some fetched) ctx j = recheck_fetched again ctx j fetched

abbrev pub settle_deferred :
    Option Recheck
    → Option (List (Text × Text))
    → PrContext
    → Judged
    → List ReviewFinding
    → List ReviewFinding
settle_deferred again fetched ctx j [] = j.survivors
settle_deferred again fetched ctx j (f ∷ deferred) = recheck again fetched ctx j

module _ (cfg : ReviewConfig) (auditor : Auditor) where
  abbrev pub after_audit :
      Option Recheck
      → ℕ
      → PrContext
      → List ReviewFinding
      → Option (Verdicts × List Text)
      → List ReviewFinding
  after_audit again hop ctx findings none = findings
  after_audit again hop ctx findings (some (verdicts, grounded_paths)) =
      let j = judge cfg verdicts 0 findings in
      settle_deferred again
        (Option.map (λ fetch. fetch hop j.deferred_needs grounded_paths) auditor.fetch) ctx j
        j.deferred

  abbrev pub pass : Option Recheck → ℕ → Recheck
  pass again hop ctx [] fetched = []
  pass again hop ctx (f ∷ fs) fetched =
      after_audit again hop ctx (f ∷ fs) (auditor.audit hop (f ∷ fs) ctx fetched)

  -- `hops_left` is `MAX_HOPS - hop`
  unfoldable pub reflect_from : ℕ → Recheck
  unfolding judge augmented
  reflect_from zero = pass none max_hops
  reflect_from (suc hops_left) = pass (some (reflect_from hops_left)) (max_hops - suc hops_left)

  unfoldable pub reflect_findings : PrContext → List ReviewFinding → List ReviewFinding
  unfolding reflect_from
  reflect_findings ctx findings = reflect_from max_hops ctx findings []
