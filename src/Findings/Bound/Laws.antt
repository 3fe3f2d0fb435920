-- ===== src/Findings/Bound/Laws.antt =====
-- What `_stamp_and_bound` of engine/run.py lets through.
use lgtmaybe.Prelude.{
  ℕ, zero, suc, ◌≤◌, ◌≡◌, ◌⊎◌, inl, inr, refl, sym, ◌∙◌, subst, Bool, true, false, not, ◌||◌, ◌&&◌,
  some, List, [], ◌∷◌, ◌++◌, if◌then◌else◌, arith, leb, ◌==◌, length, take, map, keep_if, All,
  append_assoc, append-nil, Bool-cases,
}
use lgtmaybe.Text.{text_eq_iff}
use lgtmaybe.Collections.{eq, text_is_eq, option_is_eq}
use lgtmaybe.Findings.Model.{ReviewFinding, Severity, info, low, medium, high, critical, rank}
use lgtmaybe.Findings.Cap.{insert_by_rank, sort_by_rank}
use lgtmaybe.Findings.Cap.Laws.{length-take, length-sort_by_rank}
use lgtmaybe.Findings.Ceiling.Laws.{is_advisory, lower, clamp_to_category_ceiling-lowered}
use lgtmaybe.Findings.SelfTalk.{is_self_talk, split_self_talk, drop_self_talk}
use lgtmaybe.Findings.Bound.{Lens, is_allowed, stamp, stamp_categories, bound, stamp_and_bound}

split_self_talk-keep_if :
    (is_word : ℕ → Bool) (kept dropped fs : List ReviewFinding)
    → split_self_talk is_word kept dropped fs ≡ (
      kept ++ keep_if (λ f. not (is_self_talk is_word f)) fs,
      dropped ++ keep_if (is_self_talk is_word) fs,
    )
unfolding split_self_talk
split_self_talk-keep_if is_word kept dropped [] =
    λ i. (sym (append-nil kept) i, sym (append-nil dropped) i)
split_self_talk-keep_if is_word kept dropped (f ∷ fs) = elim (Bool-cases (is_self_talk is_word f)) [
  | inl e ↦ rw e (
      split_self_talk-keep_if is_word kept (dropped ++ f ∷ []) fs ∙ λ i. (
        kept ++ keep_if (λ g. not (is_self_talk is_word g)) fs,
        append_assoc dropped (f ∷ []) (keep_if (is_self_talk is_word) fs) i,
      ))
  | inr e ↦ rw e (
      split_self_talk-keep_if is_word (kept ++ f ∷ []) dropped fs ∙ λ i. (
        append_assoc kept (f ∷ []) (keep_if (λ g. not (is_self_talk is_word g)) fs) i,
        dropped ++ keep_if (is_self_talk is_word) fs,
      ))
]

module _ (P : ReviewFinding → Type 0) where
  insert_by_rank-All :
      (f : ReviewFinding) (fs : List ReviewFinding) → P f → All P fs → All P (insert_by_rank f fs)
  unfolding insert_by_rank
  insert_by_rank-All f [] hf h = (hf, tt)
  insert_by_rank-All f (g ∷ gs) hf h = elim (Bool-cases (leb (rank g.severity) (rank f.severity))) [
    | inl e ↦ rw e (hf, h)
    | inr e ↦ rw e (h.0, insert_by_rank-All f gs hf h.1)
  ]

  sort_by_rank-All : (fs : List ReviewFinding) → All P fs → All P (sort_by_rank fs)
  unfolding sort_by_rank
  sort_by_rank-All [] h = tt
  sort_by_rank-All (f ∷ fs) h = insert_by_rank-All f (sort_by_rank fs) h.0 (sort_by_rank-All fs h.1)

  take-All : (n : ℕ) (fs : List ReviewFinding) → All P fs → All P (take n fs)
  take-All zero fs h = tt
  take-All (suc n) [] h = tt
  take-All (suc n) (f ∷ fs) h = (h.0, take-All n fs h.1)

  bound-All :
      (cap : ℕ) (fs : List ReviewFinding) (n : ℕ) → All P fs → All P (bound cap fs n).findings
  unfolding bound
  bound-All cap fs n h = elim (Bool-cases (cap == 0 || leb (length fs) cap)) [
    | inl e ↦ rw e h
    | inr e ↦ rw e (take-All cap (sort_by_rank fs) (sort_by_rank-All fs h))
  ]

-- A finding that may leave a lens: it carries the lens's id or an allowed category, an advisory one is
-- at most medium, and its text is no note of the model to itself.
abbrev pub is_clean : (ℕ → Bool) → Lens → ReviewFinding → Bool
is_clean is_word lens f =
    (is_allowed lens.allowed_categories f.category || eq f.category (some lens.id))
    && ((not (is_advisory f) || leb (rank f.severity) 2) && not (is_self_talk is_word f))

-- the same of a stamped finding, before the notes are dropped
abbrev is_stamped : Lens → ReviewFinding → Bool
is_stamped lens f =
    (is_allowed lens.allowed_categories f.category || eq f.category (some lens.id))
    && (not (is_advisory f) || leb (rank f.severity) 2)

capped :
    (advisory : Bool) (s : Severity)
    → not advisory || leb (rank (if advisory then (if leb (rank s) 2 then s else medium) else s)) 2
      ≡ true
capped false s = refl
capped true info = refl
capped true low = refl
capped true medium = refl
capped true high = refl
capped true critical = refl

stamp-allowed :
    (lens : Lens) (f : ReviewFinding)
    → is_allowed lens.allowed_categories (stamp lens f).category
        || eq (stamp lens f).category (some lens.id)
      ≡ true
unfolding stamp
stamp-allowed lens f = elim (Bool-cases (is_allowed lens.allowed_categories f.category)) [
  | inl e ↦ rw e (ground arith)
  | inr e ↦ rw e (ground (arith, (text_eq_iff lens.id lens.id).1 refl))
]

and-true : (a b : Bool) → a ≡ true → b ≡ true → a && b ≡ true
and-true a b h k = ground arith

lower-is_stamped :
    (lens : Lens) (fs : List ReviewFinding)
    → All (λ f. is_stamped lens f ≡ true) (map lower (map (stamp lens) fs))
lower-is_stamped lens [] = tt
lower-is_stamped lens (f ∷ fs) = (
  and-true _ _ (stamp-allowed lens f) (capped (is_advisory (stamp lens f)) (stamp lens f).severity),
  lower-is_stamped lens fs,
)

stamp_categories-is_stamped :
    (fs : List ReviewFinding) (lens : Lens)
    → All (λ f. is_stamped lens f ≡ true) (stamp_categories fs lens)
unfolding stamp_categories
stamp_categories-is_stamped fs lens =
    subst (All (λ f. is_stamped lens f ≡ true))
      (sym (clamp_to_category_ceiling-lowered (map (stamp lens) fs))) (lower-is_stamped lens fs)

keep_if-is_clean :
    (is_word : ℕ → Bool) (lens : Lens) (fs : List ReviewFinding)
    → All (λ f. is_stamped lens f ≡ true) fs
    → All (λ f. is_clean is_word lens f ≡ true) (keep_if (λ f. not (is_self_talk is_word f)) fs)
keep_if-is_clean is_word lens [] h = tt
keep_if-is_clean is_word lens (f ∷ fs) h = elim (Bool-cases (is_self_talk is_word f)) [
  | inl e ↦ rw e (keep_if-is_clean is_word lens fs h.1)
  | inr e ↦ rw e (clean _ _ (is_self_talk is_word f) h.0 e, keep_if-is_clean is_word lens fs h.1)
]
  where
    clean : (a b c : Bool) → a && b ≡ true → c ≡ false → a && (b && not c) ≡ true
    clean a b c h k = ground arith

length-bound :
    (cap : ℕ) (fs : List ReviewFinding) (n : ℕ)
    → (cap ≡ 0) ⊎ (length (bound cap fs n).findings ≤ cap)
unfolding bound
length-bound cap fs n = elim (Bool-cases (cap == 0 || leb (length fs) cap)) [
  | inl e ↦ rw e (ground arith)
  | inr e ↦
      let enough : cap ≤ length (sort_by_rank fs) = ground (arith, length-sort_by_rank fs) in
      rw e (inr (omega (arith, length-take cap (sort_by_rank fs) enough)))
]

-- Every finding that `_stamp_and_bound` lets through carries the lens's id or an allowed category, is at
-- most medium if its category is advisory, and is no note of the model to itself; and there are no
-- more of them than the bound, unless it is zero.
pub stamp_and_bound-is_clean :
    (is_word : ℕ → Bool) (findings : List ReviewFinding) (lens : Lens) (cap : ℕ)
    → All (λ f. is_clean is_word lens f ≡ true) (stamp_and_bound is_word findings lens cap).findings
      × ((cap ≡ 0) ⊎ (length (stamp_and_bound is_word findings lens cap).findings ≤ cap))
unfolding stamp_and_bound drop_self_talk
stamp_and_bound-is_clean is_word findings lens cap =
    let stamped = stamp_categories findings lens in
    let (kept, dropped) = split_self_talk is_word [] [] stamped in
    (
      bound-All (λ f. is_clean is_word lens f ≡ true) cap kept (length dropped)
          (subst
            (λ (p : List ReviewFinding × List ReviewFinding).
              All (λ f. is_clean is_word lens f ≡ true) p.0)
            (sym (split_self_talk-keep_if is_word [] [] stamped))
            (keep_if-is_clean is_word lens stamped (stamp_categories-is_stamped findings lens))),
      length-bound cap kept (length dropped),
    )
