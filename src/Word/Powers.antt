-- ===== src/Word/Powers.antt =====
-- Powers, and numbers modulo a number, as the proofs on bench/utils.h and bench/key_generator.h use
-- them.
use native.Mathlib.Nat.{
  pow-suc, pow-zero, mul_comm, div-add-mod, add-mul-mod_self_left, mul-add-mod_self_left, mul_assoc,
  mod-eq_of_lt, mod-lt, mul-lt-mul_of_pos_left, mul-le-mul_left, mul-le-mul_right,
  dvd_iff_mod-eq-zero, dvd-mul_left,
}
use hash_bench.Common.{
  ℕ, zero, suc, ◌+◌, ◌-◌, ◌*◌, ◌/◌, ◌%◌, ◌^◌, ◌≤◌, ◌<◌, ◌≡◌, ◌∙◌, sym, ap, ap₂, arith, subst, ◌∣◌,
  ℕ_discrete,
}

pub pow-add : (g a b : ℕ) → g ^ (a + b) ≡ g ^ a * g ^ b
pow-add g a zero =
    let e : g ^ (a + 0) ≡ g ^ a = ap (λ n. g ^ n) (omega arith) in
    omega (arith, e, pow-zero g, ap (λ n. g ^ a * n) (pow-zero g))
pow-add g a (suc b) =
    let e : g ^ (a + suc b) ≡ g ^ suc (a + b) = ap (λ n. g ^ n) (omega arith) in
    e
    ∙ pow-suc g (a + b)
    ∙ ap (λ n. n * g) (pow-add g a b)
    ∙ mul_assoc (g ^ a) (g ^ b) g
    ∙ ap (λ n. g ^ a * n) (sym (pow-suc g b))

-- `a` and `b` leave the same remainder.
abbrev pub Cong : ℕ → ℕ → ℕ → Type 0
Cong m a b = a % m ≡ b % m

pub mod_parts : (m a q r : ℕ) → a ≡ m * q + r → a % m ≡ r % m
mod_parts m a q r e = ap (λ n. n % m) e ∙ mul-add-mod_self_left m q r

mul-mod_first : (m a c : ℕ) → a * c % m ≡ a % m * c % m
mul-mod_first m a c =
    mod_parts m (a * c) (a / m * c) (a % m * c)
      (grind (arith, div-add-mod a m, ap (λ n. n * c) (div-add-mod a m)))

pub pow-pos : (n : ℕ) → 0 < 2 ^ n
pow-pos zero = omega arith
pow-pos (suc n) = omega (arith, pow-pos n, pow-suc 2 n)

pub mul-mod-mul_left : (m c d : ℕ) → 0 < m → 0 < d → m * c % (m * d) ≡ m * (c % d)
mul-mod-mul_left m c d posm posd =
    mod_parts (m * d) (m * c) (c / d) (m * (c % d))
      (grind (arith, ap (λ t. m * t) (div-add-mod c d)))
    ∙ mod-eq_of_lt (mul-lt-mul_of_pos_left (mod-lt c posd) posm)

-- A digit and the number of the others.
pub mod-mul_digit : (b m x : ℕ) → 0 < b → 0 < m → x % (b * m) ≡ x % b + b * (x / b % m)
mod-mul_digit b m x posb posm =
    let high : b * (m * (x / b / m) + x / b % m) ≡ b * (x / b) =
      ap (λ t. b * t) (div-add-mod (x / b) m) in
    let low : x % b < b = mod-lt x posb in
    let cap : x / b % m < m = mod-lt (x / b) posm in
    let le : b * suc (x / b % m) ≤ b * m = mul-le-mul_left b cap in
    mod_parts (b * m) x (x / b / m) (x % b + b * (x / b % m)) (grind (arith, high, div-add-mod x b))
    ∙ mod-eq_of_lt (grind (arith, le, low))

pub Cong-mul : (m a b c d : ℕ) → Cong m a b → Cong m c d → Cong m (a * c) (b * d)
Cong-mul m a b c d e f =
    mul-mod_first m a c
    ∙ ap (λ x. x * c % m) e
    ∙ sym (mul-mod_first m b c)
    ∙ ap (λ n. n % m) (mul_comm b c)
    ∙ mul-mod_first m c b
    ∙ ap (λ x. x * b % m) f
    ∙ sym (mul-mod_first m d b)
    ∙ ap (λ n. n % m) (mul_comm d b)

-- A power of two of a number that is 1 modulo 4 is 1.
pub Cong-order :
    (n m c g modulus : ℕ)
    → modulus ≡ 4 * m * 2 ^ n
    → Cong modulus (g ^ m) (1 + 4 * m * c)
    → Cong modulus (g ^ (m * 2 ^ n)) 1
Cong-order zero m c g modulus size e =
    let plain : m * 2 ^ 0 ≡ m = omega arith in
    let size' : modulus ≡ 4 * m = omega (arith, size) in
    ap (λ n. g ^ n % modulus) plain
    ∙ e
    ∙ ap (λ n. (1 + 4 * m * c) % n) size'
    ∙ add-mul-mod_self_left 1 (4 * m) c
    ∙ ap (λ n. 1 % n) (sym size')
Cong-order (suc n) m c g modulus size e =
    let power : 2 ^ suc n ≡ 2 * 2 ^ n = omega (arith, pow-suc 2 n) in
    let exponent : m * 2 ^ suc n ≡ (m + m) * 2 ^ n = ap (λ t. m * t) power ∙ (grind arith) in
    let size' : modulus ≡ 4 * (m + m) * 2 ^ n = size ∙ ap (λ t. 4 * m * t) power ∙ (grind arith) in
    let square : (1 + 4 * m * c) * (1 + 4 * m * c) ≡ 1 + 4 * (m + m) * (c + 2 * m * (c * c)) =
      grind arith in
    let next : Cong modulus (g ^ (m + m)) (1 + 4 * (m + m) * (c + 2 * m * (c * c))) =
      ap (λ t. t % modulus) (pow-add g m m)
      ∙ Cong-mul modulus (g ^ m) (1 + 4 * m * c) (g ^ m) (1 + 4 * m * c) e e
      ∙ ap (λ t. t % modulus) square in
    ap (λ t. g ^ t % modulus) exponent
    ∙ Cong-order n (m + m) (c + 2 * m * (c * c)) g modulus size' next

-- The only odd divisor of a power of two is 1.
odd_divisor : (n c q : ℕ) → c * q ≡ 2 ^ n → q % 2 ≡ 1 → q ≡ 1
odd_divisor zero c q e odd =
    let one : c * q ≡ 1 = e ∙ pow-zero 2 in
    elim (ℕ_discrete c 0) [
      | yes z ↦ let gone : c * q ≡ 0 * q = ap (λ t. t * q) z in omega (arith, gone, one)
      | no some_c ↦
          let le : 1 * q ≤ c * q = mul-le-mul_right q (omega arith) in omega (arith, one, le, odd)
    ]
odd_divisor (suc n) c q e odd =
    let parts : (2 * (c / 2) + c % 2) * (2 * (q / 2) + 1) ≡ 2 * 2 ^ n =
      ap₂ (λ a b. a * b) (omega arith) (omega (arith, odd)) ∙ e ∙ (omega (arith, pow-suc 2 n)) in
    let expand : (2 * (c / 2) + c % 2) * (2 * (q / 2) + 1)
        ≡ 2 * (c / 2 * (2 * (q / 2) + 1) + c % 2 * (q / 2)) + c % 2 =
      grind arith in
    let even : c % 2 ≡ 0 = omega (arith, expand, parts) in
    let whole : 2 * (q / 2) + 1 ≡ q = omega (arith, odd) in
    let none_left : c % 2 * (q / 2) ≡ 0 * (q / 2) = ap (λ t. t * (q / 2)) even in
    let half : c / 2 * q ≡ 2 ^ n =
      ap (λ t. c / 2 * t) (sym whole) ∙ (omega (arith, expand, parts, even, none_left)) in
    odd_divisor n (c / 2) q half odd

-- A divisor of 2 ^ 64 that is less can be doubled.
pub double-dvd : (c : ℕ) → c ∣ 2 ^ 64 → c < 2 ^ 64 → 2 * c ∣ 2 ^ 64
double-dvd c d lt =
    let exact : 2 ^ 64 % c ≡ 0 = (dvd_iff_mod-eq-zero c).0 d in
    let q = 2 ^ 64 / c in
    let whole : c * q ≡ 2 ^ 64 = omega (arith, exact, div-add-mod (2 ^ 64) c) in
    elim (ℕ_discrete (q % 2) 1) [
      | yes odd ↦
          let one : q ≡ 1 = odd_divisor 64 c q whole odd in
          let same : c * q ≡ c * 1 = ap (λ t. c * t) one in
          let no : 1 ≤ 0 = omega (arith, whole, same, lt) in elim no [ ]
      | no even ↦
          let two : q ≡ q / 2 * 2 = omega arith in
          let e : 2 ^ 64 ≡ q / 2 * (2 * c) = sym whole ∙ ap (λ t. c * t) two ∙ (grind arith) in
          subst (λ t. 2 * c ∣ t) (sym e) (dvd-mul_left (2 * c) (q / 2))
    ]

pub even_divisor : (c : ℕ) → c ∣ 2 ^ 64 → 1 < c → c ≡ 2 * (c / 2)
even_divisor c d several = elim (ℕ_discrete (c % 2) 1) [
  | yes odd ↦
      let exact : 2 ^ 64 % c ≡ 0 = (dvd_iff_mod-eq-zero c).0 d in
      let whole : 2 ^ 64 / c * c ≡ 2 ^ 64 =
        mul_comm (2 ^ 64 / c) c ∙ (omega (arith, exact, div-add-mod (2 ^ 64) c)) in
      omega (arith, odd_divisor 64 (2 ^ 64 / c) c whole odd, several)
  | no even ↦ omega arith
]

-- There is no power of two between half of one and the next.
pub double-le : (n m c q : ℕ) → c * q ≡ 2 ^ m → c < 2 ^ n → 2 * c ≤ 2 ^ n
double-le zero m c q e lt = omega (arith, lt, pow-zero 2)
double-le (suc n) m c q e lt = elim (ℕ_discrete (c % 2) 1) [
  | yes odd ↦
      let one : c ≡ 1 = odd_divisor m q c (mul_comm q c ∙ e) odd in
      omega (arith, one, pow-pos n, pow-suc 2 n)
  | no even ↦
      let two : 2 * (c / 2) ≡ c = omega arith in
      let twice : 2 * (c / 2 * q) ≡ c * q = (grind arith) ∙ ap (λ t. t * q) two in
      let low : c / 2 < 2 ^ n = omega (arith, lt, pow-suc 2 n) in
      let half : 2 * (c / 2) ≤ 2 ^ n = elim (ℕ_discrete m 0) [
        | yes z ↦
            let single : c * q ≡ 1 = e ∙ ap (λ t. 2 ^ t) z ∙ pow-zero 2 in
            absurd (omega (arith, twice, single))
        | no some_m ↦
            let down : 2 ^ m ≡ 2 ^ suc (m - 1) = ap (λ t. 2 ^ t) (omega arith) in
            let power : 2 ^ m ≡ 2 * 2 ^ (m - 1) = omega (arith, down, pow-suc 2 (m - 1)) in
            double-le n (m - 1) (c / 2) q (omega (arith, twice, e, power)) low
      ] in
      omega (arith, half, two, pow-suc 2 n)
]

pub double-dvd_le : (c : ℕ) → c ∣ 2 ^ 64 → c < 2 ^ 31 → 2 * c ≤ 2 ^ 31
double-dvd_le c d lt =
    let exact : 2 ^ 64 % c ≡ 0 = (dvd_iff_mod-eq-zero c).0 d in
    let whole : c * (2 ^ 64 / c) ≡ 2 ^ 64 = omega (arith, exact, div-add-mod (2 ^ 64) c) in
    double-le 31 64 c (2 ^ 64 / c) whole lt
