-- ===== src/Word/Xor.antt =====
-- Laws of the exclusive or at variables.
use Prim.Native.Nat.{digits, differ, bit_xor, bit_xor-bitwise}
use native.Mathlib.Nat.{pow-suc, div-div-eq-div-mul}
use hash_bench.Common.{
  ℕ, zero, suc, ◌+◌, ◌-◌, ◌*◌, ◌/◌, ◌%◌, ◌^◌, ◌≤◌, ◌<◌, ◌≡◌, ◌∙◌, refl, sym, ap, arith,
}

-- The rounds of `bitwise` on two numbers: what is left of the second one is kept.
abbrev rounds : ℕ → ℕ → ℕ → ℕ
rounds = digits (λ rest. rest) differ

one_round_more : (n a b : ℕ) → a ≤ n → rounds (suc n) a b ≡ rounds n a b
one_round_more zero zero b le = refl
one_round_more zero (suc a) b le = let no : 1 ≤ 0 = omega (arith, le) in elim no [ ]
one_round_more (suc n) zero b le = refl
one_round_more (suc n) (suc a) b le =
    ap (λ t. t * 2 + differ (suc a % 2) (b % 2))
      (one_round_more n (suc a / 2) (b / 2) (omega (arith, le)))

-- Rounds to spare change nothing.
spare_rounds : (k n m a b : ℕ) → n ≡ m + k → a ≤ m → rounds n a b ≡ rounds m a b
spare_rounds zero n m a b e le = ap (λ t. rounds t a b) (omega (arith, e))
spare_rounds (suc k) zero m a b e le = let no : 1 ≤ 0 = omega (arith, e) in elim no [ ]
spare_rounds (suc k) (suc n) m a b e le =
    one_round_more n a b (omega (arith, e, le)) ∙ spare_rounds k n m a b (omega (arith, e)) le

-- The lowest digit, and the rest.
pub bit_xor_step : (x y : ℕ) → bit_xor x y ≡ bit_xor (x / 2) (y / 2) * 2 + differ (x % 2) (y % 2)
bit_xor_step zero y = simp bit_xor-bitwise (omega arith)
bit_xor_step (suc x) y =
    let half = suc x / 2 in
    let spare : rounds x half (y / 2) ≡ rounds half half (y / 2) =
      spare_rounds (x - half) x half half (y / 2) (omega arith) (omega arith) in
    simp bit_xor-bitwise (ap (λ t. t * 2 + differ (suc x % 2) (y % 2)) spare)

differ-lt : (a b : ℕ) → a < 2 → b < 2 → differ a b < 2
differ-lt zero b h k = k
differ-lt (suc zero) zero h k = omega arith
differ-lt (suc zero) (suc zero) h k = omega arith
differ-lt (suc zero) (suc (suc b)) h k = absurd (omega arith)
differ-lt (suc (suc a)) b h k = absurd (omega arith)

differ-injective : (a b c : ℕ) → a < 2 → b < 2 → c < 2 → differ a c ≡ differ b c → a ≡ b
differ-injective zero zero c p q r e = refl
differ-injective zero (suc zero) zero p q r e = e
differ-injective zero (suc zero) (suc zero) p q r e = sym e
differ-injective zero (suc zero) (suc (suc c)) p q r e = absurd (omega arith)
differ-injective zero (suc (suc b)) c p q r e = absurd (omega arith)
differ-injective (suc zero) zero zero p q r e = e
differ-injective (suc zero) zero (suc zero) p q r e = sym e
differ-injective (suc zero) zero (suc (suc c)) p q r e = absurd (omega arith)
differ-injective (suc zero) (suc zero) c p q r e = refl
differ-injective (suc zero) (suc (suc b)) c p q r e = absurd (omega arith)
differ-injective (suc (suc a)) b c p q r e = absurd (omega arith)

-- Words of `k` bits are closed under the exclusive or.
pub bit_xor-lt : (k a b : ℕ) → a < 2 ^ k → b < 2 ^ k → bit_xor a b < 2 ^ k
bit_xor-lt zero zero b h l = simp bit_xor-bitwise l
bit_xor-lt zero (suc a) b h l = absurd (omega arith)
bit_xor-lt (suc k) a b h l =
    let p = pow-suc 2 k in
    let ih = bit_xor-lt k (a / 2) (b / 2) (omega (arith, p)) (omega (arith, p)) in
    omega (arith, p, bit_xor_step a b, differ-lt (a % 2) (b % 2) (omega arith) (omega arith), ih)

-- The lowest digits and the rests of equal exclusive ors are equal.
xor_parts :
    (a b c d : ℕ)
    → bit_xor a b ≡ bit_xor c d
    → (bit_xor (a / 2) (b / 2) ≡ bit_xor (c / 2) (d / 2))
      × (differ (a % 2) (b % 2) ≡ differ (c % 2) (d % 2))
xor_parts a b c d e =
    let p = bit_xor_step a b in
    let q = bit_xor_step c d in
    let x = differ-lt (a % 2) (b % 2) (omega arith) (omega arith) in
    let y = differ-lt (c % 2) (d % 2) (omega arith) (omega arith) in
    (omega (arith, e, p, q, x, y), omega (arith, e, p, q, x, y))

shift_half : (x r : ℕ) → x / 2 ^ r / 2 ≡ x / 2 / 2 ^ r
shift_half x r =
    let swap : 2 ^ r * 2 ≡ 2 * 2 ^ r = omega arith in
    div-div-eq-div-mul x (2 ^ r) 2 ∙ ap (λ n. x / n) swap ∙ sym (div-div-eq-div-mul x 2 (2 ^ r))

shift_suc : (x r : ℕ) → x / 2 ^ suc r ≡ x / 2 / 2 ^ r
shift_suc x r =
    let power : 2 ^ suc r ≡ 2 * 2 ^ r = omega (arith, pow-suc 2 r) in
    ap (λ n. x / n) power ∙ sym (div-div-eq-div-mul x 2 (2 ^ r))

xorshift_below :
    (n r x y : ℕ) → x ≤ n → y ≤ n → bit_xor x (x / 2 ^ suc r) ≡ bit_xor y (y / 2 ^ suc r) → x ≡ y
xorshift_below zero r x y h k e = omega arith
xorshift_below (suc n) r x y h k e =
    let (high, low) = xor_parts x (x / 2 ^ suc r) y (y / 2 ^ suc r) e in
    let halves : x / 2 ≡ y / 2 = xorshift_below n r (x / 2) (y / 2) (omega arith) (omega arith) (
      ap (bit_xor (x / 2)) (sym (shift_half x (suc r)))
      ∙ high
      ∙ ap (bit_xor (y / 2)) (shift_half y (suc r))) in
    let shifts : x / 2 ^ suc r ≡ y / 2 ^ suc r =
      shift_suc x r ∙ ap (λ n. n / 2 ^ r) halves ∙ sym (shift_suc y r) in
    let digit : x % 2 ≡ y % 2 =
      differ-injective (x % 2) (y % 2) (y / 2 ^ suc r % 2) (omega arith) (omega arith) (omega arith)
        (ap (λ n. differ (x % 2) (n % 2)) (sym shifts) ∙ low) in
    omega (arith, halves, digit)

-- `x ^ (x >> r)` loses nothing, for a shift by at least 1.
pub xorshift-injective : (r x y : ℕ) → bit_xor x (x / 2 ^ suc r) ≡ bit_xor y (y / 2 ^ suc r) → x ≡ y
xorshift-injective r x y e = xorshift_below (x + y) r x y (omega arith) (omega arith) e
