-- ===== src/Text/Decimal.antt =====
-- Decimal numbers in text: the regex `\d`, `int(...)` of digits, and the f-string of an `int`.
use lgtmaybe.Prelude.{
  ℕ, zero, suc, ◌+◌, ◌-◌, ◌*◌, ◌/◌, ◌%◌, ◌≤◌, ◌<◌, ◌≡◌, refl, List, [], ◌∷◌, ◌++◌, ◌&&◌, ltb, leb,
  Option, none, some, true, false, arith, if◌then◌else◌, Bool-cases, inl, inr,
}
use lgtmaybe.Text.{Text, nl, codes, Lacks}

-- The zero of each decimal script, of Unicode 14 (Python 3.11); nine digits follow each.
abbrev zeros : Text
zeros =
    0x30 ∷ 0x660 ∷ 0x6f0 ∷ 0x7c0 ∷ 0x966 ∷ 0x9e6 ∷ 0xa66 ∷ 0xae6 ∷ 0xb66 ∷ 0xbe6 ∷ 0xc66 ∷ 0xce6
    ∷ 0xd66 ∷ 0xde6 ∷ 0xe50 ∷ 0xed0 ∷ 0xf20 ∷ 0x1040 ∷ 0x1090 ∷ 0x17e0 ∷ 0x1810 ∷ 0x1946 ∷ 0x19d0
    ∷ 0x1a80 ∷ 0x1a90 ∷ 0x1b50 ∷ 0x1bb0 ∷ 0x1c40 ∷ 0x1c50 ∷ 0xa620 ∷ 0xa8d0 ∷ 0xa900 ∷ 0xa9d0
    ∷ 0xa9f0 ∷ 0xaa50 ∷ 0xabf0 ∷ 0xff10 ∷ 0x104a0 ∷ 0x10d30 ∷ 0x11066 ∷ 0x110f0 ∷ 0x11136 ∷ 0x111d0
    ∷ 0x112f0 ∷ 0x11450 ∷ 0x114d0 ∷ 0x11650 ∷ 0x116c0 ∷ 0x11730 ∷ 0x118e0 ∷ 0x11950 ∷ 0x11c50
    ∷ 0x11d50 ∷ 0x11da0 ∷ 0x16a60 ∷ 0x16ac0 ∷ 0x16b50 ∷ 0x1d7ce ∷ 0x1d7d8 ∷ 0x1d7e2 ∷ 0x1d7ec
    ∷ 0x1d7f6 ∷ 0x1e140 ∷ 0x1e2f0 ∷ 0x1e950 ∷ 0x1fbf0 ∷ []

digit_in : List ℕ → ℕ → Option ℕ
digit_in [] c = none
digit_in (z ∷ zs) c = if leb z c && ltb c (z + 10) then some (c - z) else digit_in zs c

-- What `\d` matches, and the value that `int` reads it as.
unfoldable pub digit_value : ℕ → Option ℕ
unfolding digit_in
digit_value = digit_in zeros

-- The rest of a greedy `\d+`, with the number that its digits spell behind `n`.
unfoldable pub scan_digits : ℕ → Text → ℕ × Text
scan_digits n [] = (n, [])
scan_digits n (c ∷ s) = elim (digit_value c) [
  | none ↦ (n, c ∷ s)
  | some d ↦ scan_digits (n * 10 + d) s
]

-- A greedy `(\d+)` at the head of the text.
unfoldable pub number : Text → Option (ℕ × Text)
unfolding scan_digits
number [] = none
number (c ∷ s) = elim (digit_value c) [ none ↦ none | some d ↦ some (scan_digits d s) ]

-- `str(n)`, the last digit first; the fuel is the number itself.
digits : ℕ → ℕ → Text → Text
digits zero n out = (48 + n % 10) ∷ out
digits (suc f) n out = elim (ltb n 10) [
  | true ↦ (48 + n) ∷ out
  | false ↦ digits f (n / 10) ((48 + n % 10) ∷ out)
]

unfoldable pub decimal : ℕ → Text
unfolding digits
decimal n = digits n n []

pub digit_value-ascii : (d : ℕ) → d < 10 → digit_value (48 + d) ≡ some d
unfolding digit_value
digit_value-ascii d h = ground arith

-- the text goes on with something that is no digit
abbrev pub NoDigit : Text → Type 0
NoDigit [] = Unit
NoDigit (c ∷ s) = digit_value c ≡ none

scan-rest : (n : ℕ) (s : Text) → NoDigit s → scan_digits n s ≡ (n, s)
unfolding scan_digits
scan-rest n [] h = refl
scan-rest n (c ∷ s) h = rw (h, scan_digits)

scan-digit :
    (n d : ℕ) (s : Text) → d < 10 → scan_digits n ((48 + d) ∷ s) ≡ scan_digits (n * 10 + d) s
unfolding scan_digits
scan-digit n d s h = rw (digit_value-ascii d h, scan_digits)

number-digit : (d : ℕ) (s : Text) → d < 10 → number ((48 + d) ∷ s) ≡ some (scan_digits d s)
unfolding number
number-digit d s h = rw (digit_value-ascii d h, number)

number-digits : (f n : ℕ) (out : Text) → n ≤ f → number (digits f n out) ≡ some (scan_digits n out)
unfolding digits
number-digits zero n out h = let e : n ≡ 0 = omega arith in rw e (number-digit 0 out (omega arith))
number-digits (suc f) n out h = ground (
  arith,
  number-digit n out,
  number-digits f (n / 10) ((48 + n % 10) ∷ out),
  scan-digit (n / 10) (n % 10) out,
)

digits-append : (f n : ℕ) (out s : Text) → digits f n out ++ s ≡ digits f n (out ++ s)
unfolding digits
digits-append zero n out s = refl
digits-append (suc f) n out s = ground (arith, digits-append f (n / 10) ((48 + n % 10) ∷ out) s)

-- A printed number is read back, whatever follows that is no digit.
pub number-decimal : (n : ℕ) (s : Text) → NoDigit s → number (decimal n ++ s) ≡ some (n, s)
unfolding decimal
number-decimal n s h =
    rw (digits-append n n [] s, number-digits n n s (omega arith), scan-rest n s h)

digits-Lacks : (f n : ℕ) (out : Text) → Lacks nl out → Lacks nl (digits f n out)
unfolding digits
digits-Lacks zero n out h = (omega arith, h)
digits-Lacks (suc f) n out h = elim (Bool-cases (ltb n 10)) [
  | inl e ↦ rw (e, digits) (omega arith, h)
  | inr e ↦ rw (e, digits) (digits-Lacks f (n / 10) ((48 + n % 10) ∷ out) (omega arith, h))
]

pub decimal-Lacks : (n : ℕ) → Lacks nl (decimal n)
unfolding decimal
decimal-Lacks n = digits-Lacks n n [] tt

decimal_runs : decimal 1204 ≡ codes "1204"
unfolding decimal
decimal_runs = refl

number_runs : number (codes "0120,") ≡ some (120, codes ",")
unfolding number scan_digits digit_value
number_runs = refl
