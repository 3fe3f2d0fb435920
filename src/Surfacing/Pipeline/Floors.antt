-- ===== src/Surfacing/Pipeline/Floors.antt =====
-- Which findings pass the gates in front of the team's rules, stated of the finding before the rules.
use lgtmaybe.Prelude.{
  ◌≤◌, ◌≡◌, ◌≢◌, ◌⊎◌, inl, inr, refl, ap, Bool, true, false, not, ◌&&◌, ◌||◌, Option, none, some,
  List, [], ◌∷◌, arith, keep_if, All, All-imp, All-keep_if, Bool-cases, subst,
}
use mathlib.Core.List.{Memᴰ}
use mathlib.Core.List.Memᴰ.{head, tail}
use lgtmaybe.Text.{Text, codes, text_eq, text_eq_iff}
use lgtmaybe.Text.Words.{strip}
use lgtmaybe.Findings.Model.{ReviewFinding, Severity, rank, at_least, category_in, or_empty}
use lgtmaybe.Findings.Scan.{is_scan_finding, is_droppable_scan, unanchorable_scan_categories}
use lgtmaybe.Surfacing.Config.{ReviewConfig, PrContext, PreparedReview, FindingRule}
use lgtmaybe.Surfacing.Stages.{
  has_evidence, failure_scenario_categories, passes_severity_floor, apply_floors, hinted_no_line,
  filled,
}
use lgtmaybe.Surfacing.Rules.{run_rules, loop_rules, apply_finding_rules, kept_in_front, or_loop}
use lgtmaybe.Surfacing.Pipeline.{Outside, selected, surfaced}
use lgtmaybe.Surfacing.Pipeline.Kept.{OfSome}
use lgtmaybe.Surfacing.Pipeline.Flow.{
  run_rules-OfSome, arbitrated, All-arbitrated, in_scope, selected-in_scope, selected-has_evidence,
}

-- a finding of a category that asks for a failure scenario has one
abbrev pub Evident : ReviewFinding → Type 0
Evident f =
    (category_in f.category failure_scenario_categories ≡ false)
    ⊎ (strip (or_empty f.failure_scenario) ≢ [])

-- a scanner's finding that is not anchored is of the scanner of dependencies
abbrev pub InScope : ReviewFinding → Type 0
InScope f =
    (f.anchored ≡ true)
    ⊎ ((is_scan_finding f ≡ false) ⊎ (f.category ≡ some (codes "scan:osv-scanner")))

filled-nonempty : (b : Bool) (s : Text) → (not b || filled s) ≡ true → (b ≡ false) ⊎ (s ≢ [])
filled-nonempty false s h = inl refl
filled-nonempty true [] h = absurd cc
filled-nonempty true (c ∷ s) h = inr (λ e. cc)

has_evidence-Evident : (f : ReviewFinding) → has_evidence f ≡ true → Evident f
unfolding has_evidence
has_evidence-Evident f h =
    filled-nonempty (category_in f.category failure_scenario_categories)
      (strip (or_empty f.failure_scenario)) h

dependency_only :
    (category : Option Text) (anchored scan : Bool)
    → (anchored || not (scan && not (category_in category unanchorable_scan_categories))) ≡ true
    → (anchored ≡ true) ⊎ ((scan ≡ false) ⊎ (category ≡ some (codes "scan:osv-scanner")))
dependency_only category true scan h = inl refl
dependency_only category false false h = inr (inl refl)
dependency_only none false true h = absurd cc
dependency_only (some c) false true h = elim (Bool-cases (text_eq c (codes "scan:osv-scanner"))) [
  | inl e ↦ inr (inr (ap some ((text_eq_iff c (codes "scan:osv-scanner")).0 e)))
  | inr e ↦ absurd (ground arith)
]

in_scope-InScope : (f : ReviewFinding) → in_scope f ≡ true → InScope f
unfolding is_droppable_scan
in_scope-InScope f h = dependency_only f.category f.anchored (is_scan_finding f) h

floors_lem :
    (severity plain strict : Severity) (anchored hinted scan : Bool)
    → (at_least severity plain && (anchored || ((hinted && not scan) || at_least severity strict)))
      ≡ true
    → (rank plain ≤ rank severity)
      × ((anchored ≡ true) ⊎ ((rank strict ≤ rank severity) ⊎ ((hinted ≡ true) × (scan ≡ false))))
floors_lem severity plain strict anchored hinted scan h = (ground arith, ground arith)

-- what the rules make of a finding, if they keep it, with the finding it was
abbrev pub MadeOf :
    (ReviewFinding → Type 0) → (Text → Text) → List FindingRule → ReviewFinding → Type 0
MadeOf P lower rules r =
    (f : ReviewFinding) × (run_rules lower rules f ≡ some r)
    × (r ≡ record f { severity = r.severity })
    × P f

-- the rules change nothing but the severity
run_rules-severity :
    (lower : Text → Text) (rules : List FindingRule) (f r : ReviewFinding)
    → run_rules lower rules f ≡ some r
    → r ≡ record f { severity = r.severity }
run_rules-severity lower rules f r e =
    let Same = λ (g : ReviewFinding). g ≡ record f { severity = g.severity } in
    subst (OfSome Same) e (
      run_rules-OfSome Same
        (λ severity g h. ap {A = ReviewFinding} (λ x. record x { severity = severity }) h) lower
        rules f refl)

pub All-both :
    (P Q : ReviewFinding → Type 0) (xs : List ReviewFinding)
    → All P xs
    → All Q xs
    → All (λ x. P x × Q x) xs
All-both P Q [] p q = tt
All-both P Q (x ∷ xs) p q = ((p.0, q.0), All-both P Q xs p.1 q.1)

members : (fs : List ReviewFinding) → All (λ f. Memᴰ f fs) fs
members [] = tt
members (f ∷ fs) = (head refl, All-imp _ _ (λ g m. tail m) fs (members fs))

module _ (P : ReviewFinding → Type 0) (lower : Text → Text) where
  front-MadeOf :
      (rules : List FindingRule) (f : ReviewFinding) (o : Option ReviewFinding)
      (rest : List ReviewFinding)
      → run_rules lower rules f ≡ o
      → P f
      → All (MadeOf P lower rules) rest
      → All (MadeOf P lower rules) (kept_in_front lower o rest)
  front-MadeOf rules f none rest e p h = h
  front-MadeOf rules f (some r) rest e p h = ((f, e, run_rules-severity lower rules f r e, p), h)

  loop_rules-MadeOf :
      (rules : List FindingRule) (fs : List ReviewFinding)
      → All P fs
      → All (MadeOf P lower rules) (loop_rules lower rules fs)
  unfolding loop_rules
  loop_rules-MadeOf rules [] h = tt
  loop_rules-MadeOf rules (f ∷ fs) h =
      front-MadeOf rules f (run_rules lower rules f) (loop_rules lower rules fs) refl h.0
        (loop_rules-MadeOf rules fs h.1)

  apply_finding_rules-MadeOf :
      (fs : List ReviewFinding) (cfg : ReviewConfig)
      → All P fs
      → All (MadeOf P lower cfg.finding_rules) (apply_finding_rules lower fs cfg)
  unfolding apply_finding_rules run_rules
  apply_finding_rules-MadeOf fs cfg h = go cfg.finding_rules
    where
      go : (rules : List FindingRule) → All (MadeOf P lower rules) (or_loop lower fs rules)
      go [] = All-imp P (MadeOf P lower []) (λ f p. (f, refl, refl, p)) fs h
      go (rule ∷ rules) = loop_rules-MadeOf (rule ∷ rules) fs h

module _ (outside : Outside) (cfg : ReviewConfig) (ctx : PrContext)
    (prepared : PreparedReview) where
  -- the finding is severe enough, by the plain floor and by the one for findings that are not anchored
  abbrev pub Clears : ReviewFinding → Type 0
  Clears f =
      (rank cfg.min_severity ≤ rank f.severity)
      × ((f.anchored ≡ true)
          ⊎ ((rank cfg.unanchored_min_severity ≤ rank f.severity)
              ⊎ ((hinted_no_line ctx prepared f.path ≡ true) × (is_scan_finding f ≡ false))))

  abbrev pub Admissible : ReviewFinding → Type 0
  Admissible f = Clears f × Evident f × InScope f

  -- The rules made the finding of one that arbitration left, and that the floors let through.
  abbrev pub Posted : List ReviewFinding → ReviewFinding → Type 0
  Posted merged =
      MadeOf (λ f. Memᴰ f (arbitrated outside cfg ctx prepared merged) × Admissible f) outside.lower
        cfg.finding_rules

  abbrev passing : ReviewFinding → Bool
  passing f = passes_severity_floor f cfg (hinted_no_line ctx prepared)

  passing-Clears : (f : ReviewFinding) → passing f ≡ true → Clears f
  unfolding passes_severity_floor
  passing-Clears f h =
      floors_lem f.severity cfg.min_severity cfg.unanchored_min_severity f.anchored
        (hinted_no_line ctx prepared f.path) (is_scan_finding f) h

  passing-Admissible :
      (fs : List ReviewFinding)
      → All Evident fs
      → All InScope fs
      → All Admissible (keep_if passing fs)
  passing-Admissible [] e s = tt
  passing-Admissible (f ∷ fs) e s = elim (Bool-cases (passing f)) [
    | inl h ↦ rw h ((passing-Clears f h, e.0, s.0), passing-Admissible fs e.1 s.1)
    | inr h ↦ rw h (passing-Admissible fs e.1 s.1)
  ]

  pub surfaced-Posted :
      (merged : List ReviewFinding)
      → All Evident merged
      → All InScope merged
      → All (Posted merged) (surfaced outside cfg ctx prepared merged)
  unfolding surfaced apply_floors is_scan_finding
  surfaced-Posted merged e s =
      let left = arbitrated outside cfg ctx prepared merged in
      apply_finding_rules-MadeOf (λ f. Memᴰ f left × Admissible f) outside.lower _ cfg
        (All-both _ _ _ (All-keep_if (λ f. Memᴰ f left) passing left (members left)) (
          passing-Admissible left
            (All-arbitrated outside cfg ctx prepared Evident (λ verdict f h. h) merged e)
            (All-arbitrated outside cfg ctx prepared InScope (λ verdict f h. h) merged s)))

  pub selected-Evident :
      (findings : List ReviewFinding) → All Evident (selected outside cfg ctx prepared findings)
  selected-Evident findings =
      All-imp (λ f. has_evidence f ≡ true) Evident has_evidence-Evident _
        (selected-has_evidence outside cfg ctx prepared findings)

  pub selected-InScope :
      (findings : List ReviewFinding) → All InScope (selected outside cfg ctx prepared findings)
  selected-InScope findings =
      All-imp (λ f. in_scope f ≡ true) InScope in_scope-InScope _
        (selected-in_scope outside cfg ctx prepared findings)
