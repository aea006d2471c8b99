-- ===== src/CloudInit/Text/Injective.antt =====
-- Numbers in the template's text: different numbers have different texts.
use cluster_api_provider_clo.Base.{
  String, ℕ, if◌then◌else◌, ◌<◌, ◌≡◌, str_eq, arith, sym, ◌<>◌, ◌∙◌, ap, suc, refl, zero, ltb, ◌≤◌,
  ◌⊎◌, true, Bool-cases, inl, inr, ◌%◌, false,
}
use cluster_api_provider_clo.CloudInit.Text.{digit, decimal, itoa}
use text.Mathlib.TextPositions.{len-append, slice-append_left}
use text.Mathlib.TextLemmas.{append_cancel_left}
use cluster_api_provider_clo.Base.{◌/◌}
use Prim.Native.String.{len, slice}

-- The number of a digit.
abbrev value : String → ℕ
value s =
    if str_eq s "0"
    then 0
    else if str_eq s "1"
    then 1
    else if str_eq s "2"
    then 2
    else if str_eq s "3"
    then 3
    else if str_eq s "4"
    then 4
    else if str_eq s "5"
    then 5
    else if str_eq s "6"
    then 6
    else if str_eq s "7"
    then 7
    else if str_eq s "8"
    then 8
    else 9

below_ten :
    (P : ℕ → Type 0)
    → P 0
    → P 1
    → P 2
    → P 3
    → P 4
    → P 5
    → P 6
    → P 7
    → P 8
    → P 9
    → (n : ℕ) → n < 10
    → P n
below_ten P p0 p1 p2 p3 p4 p5 p6 p7 p8 p9 zero h = p0
below_ten P p0 p1 p2 p3 p4 p5 p6 p7 p8 p9 (suc zero) h = p1
below_ten P p0 p1 p2 p3 p4 p5 p6 p7 p8 p9 (suc (suc zero)) h = p2
below_ten P p0 p1 p2 p3 p4 p5 p6 p7 p8 p9 (suc (suc (suc zero))) h = p3
below_ten P p0 p1 p2 p3 p4 p5 p6 p7 p8 p9 (suc (suc (suc (suc zero)))) h = p4
below_ten P p0 p1 p2 p3 p4 p5 p6 p7 p8 p9 (suc (suc (suc (suc (suc zero))))) h = p5
below_ten P p0 p1 p2 p3 p4 p5 p6 p7 p8 p9 (suc (suc (suc (suc (suc (suc zero)))))) h = p6
below_ten P p0 p1 p2 p3 p4 p5 p6 p7 p8 p9 (suc (suc (suc (suc (suc (suc (suc zero))))))) h = p7
below_ten P p0 p1 p2 p3 p4 p5 p6 p7 p8 p9 (suc (suc (suc (suc (suc (suc (suc (suc zero)))))))) h =
    p8
below_ten P p0 p1 p2 p3 p4 p5 p6 p7 p8 p9 (suc (suc (suc (suc (suc (suc (suc (suc (suc zero)))))))))
      h =
    p9
below_ten P p0 p1 p2 p3 p4 p5 p6 p7 p8 p9
      (suc (suc (suc (suc (suc (suc (suc (suc (suc (suc n)))))))))) h =
    absurd (omega arith)

value-digit : (n : ℕ) → n < 10 → value (digit n) ≡ n
value-digit = below_ten (λ n. value (digit n) ≡ n) refl refl refl refl refl refl refl refl refl refl

len-digit : (n : ℕ) → n < 10 → len (digit n) ≡ 1
len-digit = below_ten (λ n. len (digit n) ≡ 1) refl refl refl refl refl refl refl refl refl refl

digit-injective : (m n : ℕ) → m < 10 → n < 10 → digit m ≡ digit n → m ≡ n
digit-injective m n h k e = sym (value-digit m h) ∙ ap value e ∙ value-digit n k

-- Texts that end in a digit.
last_digit :
    (a b : String) (m n : ℕ) → m < 10 → n < 10 → a <> digit m ≡ b <> digit n → (a ≡ b) × (m ≡ n)
last_digit a b m n h k e =
    (same, digit-injective m n h k (append_cancel_left a (digit m) (digit n) ends))
  where
    sizes : len a ≡ len b
    sizes = omega (
      arith,
      len-append a (digit m),
      len-append b (digit n),
      len-digit m h,
      len-digit n k,
      ap len e,
    )

    same : a ≡ b
    same =
        sym (slice-append_left a (digit m))
        ∙ ap (λ (s : String). slice s 0 (len a)) e
        ∙ ap (λ (n' : ℕ). slice (b <> digit n) 0 n') sizes
        ∙ slice-append_left b (digit n)

    ends : a <> digit m ≡ a <> digit n
    ends = e ∙ ap (λ (s : String). s <> digit n) (sym same)

decimal_small : (fuel n : ℕ) → n < 10 → decimal (suc fuel) n ≡ digit n
unfolding decimal
decimal_small fuel n h = rw (ltb_small n h) refl
  where
    ltb_small : (n : ℕ) → n < 10 → ltb n 10 ≡ true
    ltb_small n h = ground arith

decimal_large :
    (fuel n : ℕ) → 10 ≤ n → decimal (suc fuel) n ≡ decimal fuel (n / 10) <> digit (n % 10)
unfolding decimal
decimal_large fuel n h = rw (ltb_large n h) refl
  where
    ltb_large : (n : ℕ) → 10 ≤ n → ltb n 10 ≡ false
    ltb_large n h = ground arith

small_or_large : (n : ℕ) → (n < 10) ⊎ (10 ≤ n)
small_or_large n = elim (Bool-cases (ltb n 10)) [
  | inl h ↦ inl (ground arith)
  | inr h ↦ inr (ground arith)
]

len-decimal : (fuel n : ℕ) → 1 ≤ len (decimal (suc fuel) n)
len-decimal fuel n = elim (small_or_large n) [
  | inl h ↦ omega (arith, ap len (decimal_small fuel n h), len-digit n h)
  | inr h ↦ omega (
    arith,
    ap len (decimal_large fuel n h),
    len-append (decimal fuel (n / 10)) (digit (n % 10)),
    len-digit (n % 10) (omega arith),
  )
]

-- One digit and several are different texts.
small-ne-large : (f g m n : ℕ) → m < 10 → 10 ≤ n → n ≤ g → decimal (suc f) m ≡ decimal (suc g) n → ⊥
small-ne-large f zero m n small large h e = omega arith
small-ne-large f (suc g) m n small large h e = omega (
  arith,
  ap len e,
  ap len (decimal_small f m small),
  len-digit m small,
  ap len (decimal_large (suc g) n large),
  len-append (decimal (suc g) (n / 10)) (digit (n % 10)),
  len-digit (n % 10) (omega arith),
  len-decimal g (n / 10),
)

-- Where one of the numbers is a digit.
digit-decimal : (f g m n : ℕ) → m < 10 → n ≤ g → decimal (suc f) m ≡ decimal (suc g) n → m ≡ n
digit-decimal f g m n small k e = elim (small_or_large n) [
  | inl small' ↦
      digit-injective m n small small'
        (sym (decimal_small f m small) ∙ e ∙ decimal_small g n small')
  | inr large ↦ absurd (small-ne-large f g m n small large k e)
]

-- Where neither is.
tens_and_ones :
    (f g m n : ℕ)
    → 10 ≤ m
    → 10 ≤ n
    → decimal (suc f) m ≡ decimal (suc g) n
    → (decimal f (m / 10) ≡ decimal g (n / 10)) × (m % 10 ≡ n % 10)
tens_and_ones f g m n h k e =
    last_digit _ _ (m % 10) (n % 10) (omega arith) (omega arith)
      (sym (decimal_large f m h) ∙ e ∙ decimal_large g n k)

decimal-injective : (f g m n : ℕ) → m ≤ f → n ≤ g → decimal (suc f) m ≡ decimal (suc g) n → m ≡ n
decimal-injective zero g m n h k e = digit-decimal zero g m n (omega arith) k e
decimal-injective (suc f) zero m n h k e =
    sym (digit-decimal zero (suc f) n m (omega arith) h (sym e))
decimal-injective (suc f) (suc g) m n h k e = elim (small_or_large m) [
  | inl small ↦ digit-decimal (suc f) (suc g) m n small k e
  | inr large ↦ elim (small_or_large n) [
    | inl small ↦ sym (digit-decimal (suc g) (suc f) n m small h (sym e))
    | inr large' ↦
        let (tens, ones) = tens_and_ones (suc f) (suc g) m n large large' e in
        omega (arith, decimal-injective f g (m / 10) (n / 10) (omega arith) (omega arith) tens)
  ]
]

-- Different numbers have different texts: interfaces of a template with different indices have
-- different names, and keys of the client cache different labels.
pub itoa-injective : (m n : ℕ) → itoa m ≡ itoa n → m ≡ n
unfolding itoa
itoa-injective m n e = decimal-injective m n m n (omega arith) (omega arith) e
