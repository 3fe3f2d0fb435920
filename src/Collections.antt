-- ===== src/Collections.antt =====
-- Python's `set` and `dict`, over an interface of equality. A set is a list with no element twice,
-- and a dict an association list in insertion order.
pub mod Set
pub mod Dict
use lgtmaybe.Prelude.{
  ℕ, ◌≡◌, ◌↔◌, refl, Bool, true, false, ◌&&◌, arith, ◌==◌, ==_iff, ap, sym, Option, none, some,
  Bool-cases, inl, inr,
}
use lgtmaybe.Text.{Text, text_eq, text_eq_iff}

pub record Eq {ℓ} (A : Type ℓ) : Type ℓ where
  pub beq : A → A → Bool
  pub beq_iff : (a b : A) → (beq a b ≡ true) ↔ (a ≡ b)

abbrev pub eq {ℓ} : {A : Type ℓ} ⦃e : Eq A⦄ → A → A → Bool
eq ⦃e⦄ = e.beq

abbrev pub pair_beq {ℓ κ} : {A : Type ℓ} {B : Type κ} (e : Eq A) (f : Eq B) → A × B → A × B → Bool
pair_beq e f (a, b) (c, d) = e.beq a c && f.beq b d

pub pair_beq_iff {ℓ κ} :
    {A : Type ℓ} {B : Type κ} (e : Eq A) (f : Eq B) (p q : A × B)
    → (pair_beq e f p q ≡ true) ↔ (p ≡ q)
pair_beq_iff e f (a, b) (c, d) = (
  λ h. ground (arith, e.beq_iff a c, f.beq_iff b d),
  λ h. ground (arith, e.beq_iff a c, f.beq_iff b d, ap (λ p. p.0) h, ap (λ p. p.1) h),
)

instance abbrev pub text_is_eq : Eq Text
text_is_eq = record { beq = text_eq; beq_iff = text_eq_iff }

instance abbrev pub nat_is_eq : Eq ℕ
nat_is_eq = record { beq = ◌==◌; beq_iff = ==_iff }

instance abbrev pub pair_is_eq {ℓ κ} : {A : Type ℓ} {B : Type κ} ⦃e : Eq A⦄ ⦃f : Eq B⦄ → Eq (A × B)
pair_is_eq ⦃e⦄ ⦃f⦄ = record { beq = pair_beq e f; beq_iff = pair_beq_iff e f }

abbrev pub option_beq {ℓ} : {A : Type ℓ} (e : Eq A) → Option A → Option A → Bool
option_beq e none none = true
option_beq e none (some b) = false
option_beq e (some a) none = false
option_beq e (some a) (some b) = e.beq a b

pub option_beq_iff {ℓ} :
    {A : Type ℓ} (e : Eq A) (p q : Option A) → (option_beq e p q ≡ true) ↔ (p ≡ q)
option_beq_iff e none none = (λ _. refl, λ _. refl)
option_beq_iff e none (some b) = (λ h. cc, λ h. cc)
option_beq_iff e (some a) none = (λ h. cc, λ h. cc)
option_beq_iff e (some a) (some b) = (λ h. ap some ((e.beq_iff a b).0 h), λ h. (e.beq_iff a b).1 cc)

instance abbrev pub option_is_eq {ℓ} : {A : Type ℓ} ⦃e : Eq A⦄ → Eq (Option A)
option_is_eq ⦃e⦄ = record { beq = option_beq e; beq_iff = option_beq_iff e }

pub eq_refl {ℓ} : {A : Type ℓ} ⦃e : Eq A⦄ (a : A) → eq a a ≡ true
eq_refl ⦃e⦄ a = (e.beq_iff a a).1 refl

pub eq_sound {ℓ} : {A : Type ℓ} ⦃e : Eq A⦄ {a b : A} → eq a b ≡ true → a ≡ b
eq_sound ⦃e⦄ {a} {b} h = (e.beq_iff a b).0 h

pub eq-swap {ℓ} : {A : Type ℓ} ⦃e : Eq A⦄ (a b : A) → eq a b ≡ false → eq b a ≡ false
eq-swap ⦃e⦄ a b h = elim (Bool-cases (e.beq b a)) [
  | inl p ↦ let q : e.beq a b ≡ true = (e.beq_iff a b).1 (sym ((e.beq_iff b a).0 p)) in cc
  | inr p ↦ p
]
