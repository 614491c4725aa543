-- ===== src/DiscreteLog/Rounds.antt =====
-- A round of `discrete_log` of bench/utils.h: the congruences between its variables.
use native.Mathlib.Nat.{
  pow-suc, pow-le-pow_right, mul-div_cancel_left, mod-lt, mul-le-mul_left, mul_assoc, mul_comm,
}
use hash_bench.Common.{ℕ, suc, ◌+◌, ◌*◌, ◌/◌, ◌%◌, ◌^◌, ◌≤◌, ◌<◌, ◌≡◌, ◌∙◌, sym, ap, ap₂, arith}
use hash_bench.DiscreteLog.{masked}
use hash_bench.Word.Powers.{pow-add, pow-pos, Cong, Cong-mul}
use hash_bench.DiscreteLog.Masks.{join, join_lem, masked-Cong, masked-mul, mod_two}

-- The state at a round with `n` bits to go: `radix` is the bit, `up` and `gpow` are multiples of it.
pub record Round (p n radix up x gpow a c base k : ℕ) : Type 0 where
  pub size : radix * 2 ^ n ≡ 2 ^ p
  pub small : p ≤ 53
  pub pos : 0 < radix
  pub up_lem : up ≡ radix * a
  pub up-lt : a < 2 ^ n
  pub x-lt : x < radix
  pub gpow_lem : gpow ≡ radix * c
  pub odd : 0 < n → c % 2 ≡ 1
  pub power : Cong (4 * 2 ^ p) (base ^ radix) (1 + 4 * gpow)
  pub product : Cong (4 * 2 ^ p) ((1 + 4 * k) * base ^ x) (1 + 4 * up)

module _ {p n radix up x gpow a c base k : ℕ} (r : Round p (suc n) radix up x gpow a c base k) where
  abbrev pub next : ℕ
  next = (c + 2 * radix * (c * c)) % 2 ^ n

  lim : p ≤ 64
  lim = omega (arith, r.small)

  next_pos : 0 < radix * 2
  next_pos = omega (arith, r.pos)

  pub next_size : radix * 2 * 2 ^ n ≡ 2 ^ p
  next_size =
      mul_assoc radix 2 (2 ^ n)
      ∙ ap (λ t. radix * t) (sym (pow-suc 2 n ∙ mul_comm (2 ^ n) 2))
      ∙ r.size

  pub radix-lt : radix * 2 < 2 ^ 64
  radix-lt =
      let le : radix * 2 * 1 ≤ radix * 2 * 2 ^ n = mul-le-mul_left (radix * 2) (pow-pos n) in
      let cap : 2 ^ p ≤ 2 ^ 53 = pow-le-pow_right (omega arith) r.small in
      omega (arith, le, cap, next_size)

  next_gpow : masked p (join gpow gpow) ≡ radix * 2 * next
  next_gpow =
      let whole : join gpow gpow ≡ radix * 2 * (c + 2 * radix * (c * c)) =
        ap (λ g. join g g) r.gpow_lem ∙ (grind arith) in
      ap (masked p) whole
      ∙ masked-mul p (radix * 2) n (c + 2 * radix * (c * c)) lim next_pos next_size

  next_odd : 0 < n → next % 2 ≡ 1
  next_odd lt =
      let e : c + 2 * radix * (c * c) ≡ c + 2 * (radix * (c * c)) = grind arith in
      mod_two n (c + 2 * radix * (c * c)) lt ∙ (omega (arith, e, r.odd (omega arith)))

  -- The power that belongs to the mask of a product belongs to the product.
  joined :
      (a b q s : ℕ)
      → Cong (4 * 2 ^ p) q (1 + 4 * a)
      → Cong (4 * 2 ^ p) s (1 + 4 * b)
      → Cong (4 * 2 ^ p) (q * s) (1 + 4 * masked p (join a b))
  joined a b q s e f =
      Cong-mul (4 * 2 ^ p) q (1 + 4 * a) s (1 + 4 * b) e f
      ∙ ap (λ t. t % (4 * 2 ^ p)) (join_lem a b)
      ∙ masked-Cong p (join a b) lim

  next_power : Cong (4 * 2 ^ p) (base ^ (radix * 2)) (1 + 4 * masked p (join gpow gpow))
  next_power =
      let sum : radix * 2 ≡ radix + radix = omega arith in
      let double : base ^ (radix * 2) ≡ base ^ radix * base ^ radix =
        ap (λ t. base ^ t) sum ∙ pow-add base radix radix in
      ap (λ t. t % (4 * 2 ^ p)) double
      ∙ joined gpow gpow (base ^ radix) (base ^ radix) r.power r.power

  -- The bit that the round tests is the lowest one of `a`.
  pub bit_lem : up / radix % 2 ≡ a % 2
  bit_lem = ap (λ t. t / radix % 2) r.up_lem ∙ ap (λ t. t % 2) (mul-div_cancel_left a r.pos)

  -- `up` after a round in which the bit is set.
  abbrev pub half : ℕ
  half = (a + c) / 2 + 2 * a * radix * c

  half_lem : a % 2 ≡ 1 → join up gpow ≡ radix * 2 * half
  half_lem bit =
      let even : a + c ≡ 2 * ((a + c) / 2) = omega (arith, bit, r.odd (omega arith)) in
      let whole : join (radix * a) (radix * c) ≡ radix * (a + c) + radix * 2 * (2 * a * radix * c) =
        grind arith in
      ap₂ join r.up_lem r.gpow_lem
      ∙ whole
      ∙ ap (λ t. radix * t + radix * 2 * (2 * a * radix * c)) even
      ∙ (grind arith)

  pub set-Round :
      a % 2 ≡ 1
      → Round p n
          (radix * 2)
          (masked p (join up gpow))
          (x + radix)
          (masked p (join gpow gpow))
          (half % 2 ^ n)
          next
          base
          k
  set-Round bit = record {
    size = next_size;
    small = r.small;
    pos = next_pos;
    up_lem = ap (masked p) (half_lem bit) ∙ masked-mul p (radix * 2) n half lim next_pos next_size;
    up-lt = mod-lt half (pow-pos n);
    x-lt = omega (arith, r.x-lt);
    gpow_lem = next_gpow;
    odd = next_odd;
    power = next_power;
    product =
        ap (λ t. t % (4 * 2 ^ p))
          (ap (λ t. (1 + 4 * k) * t) (pow-add base x radix)
            ∙ sym (mul_assoc (1 + 4 * k) (base ^ x) (base ^ radix)))
        ∙ joined up gpow ((1 + 4 * k) * base ^ x) (base ^ radix) r.product r.power;
  }

  pub clear-Round :
      a % 2 ≡ 0 → Round p n (radix * 2) up x (masked p (join gpow gpow)) (a / 2) next base k
  clear-Round bit =
      let even : a ≡ 2 * (a / 2) = omega (arith, bit) in
      record {
        size = next_size;
        small = r.small;
        pos = next_pos;
        up_lem = r.up_lem ∙ ap (λ t. radix * t) even ∙ sym (mul_assoc radix 2 (a / 2));
        up-lt = omega (arith, r.up-lt, pow-suc 2 n);
        x-lt = omega (arith, r.x-lt);
        gpow_lem = next_gpow;
        odd = next_odd;
        power = next_power;
        product = r.product;
      }
