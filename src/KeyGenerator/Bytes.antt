-- ===== src/KeyGenerator/Bytes.antt =====
-- The bytes that `next` of bench/key_generator.h writes for an identifier.
use native.Mathlib.Nat.{
  pow-suc, pow-zero, mod-mod_of_dvd, dvd-mul_left, mod-lt, mod-eq_of_lt, mul-div_cancel_left,
  mul_comm,
}
use hash_bench.Common.{
  ℕ, zero, suc, ◌+◌, ◌-◌, ◌*◌, ◌/◌, ◌%◌, ◌^◌, ◌≤◌, ◌<◌, ◌∣◌, ◌≡◌, ◌∙◌, refl, sym, ap, ap₂, subst,
  arith, false, some, List, [], ◌∷◌, ◌++◌, length, length-append, length-replicate, replicate, take,
  drop, if◌then◌else◌, ◌==◌, ltb, inl, inr, Bool-cases,
}
use hash_bench.Word.{u64, little_endian}
use hash_bench.Word.Powers.{pow-add, pow-pos, mul-mod-mul_left, mod-mul_digit, Cong-mul, mod_parts}
use hash_bench.KeyGenerator.{multiplicative_hash, bytes_of, id_bytes}

pow-pos_byte : (n : ℕ) → 0 < 256 ^ n
pow-pos_byte zero = omega (arith, pow-zero 256)
pow-pos_byte (suc n) = omega (arith, pow-pos_byte n, pow-suc 256 n)

byte_power : (n : ℕ) → 256 ^ n ≡ 2 ^ (n * 8)
byte_power zero = refl
byte_power (suc n) =
    let e : suc n * 8 ≡ n * 8 + 8 = omega arith in
    pow-suc 256 n
    ∙ ap (λ t. t * 256) (byte_power n)
    ∙ sym (pow-add 2 (n * 8) 8)
    ∙ ap (λ t. 2 ^ t) (sym e)

length-bytes_of : (n x : ℕ) → length (bytes_of n x) ≡ n
length-bytes_of zero x = refl
length-bytes_of (suc n) x = ap suc (length-bytes_of n (x / 256))

little_endian-bytes_of : (n x : ℕ) → little_endian (bytes_of n x) ≡ x % 256 ^ n
little_endian-bytes_of zero x =
    let lt : x % 1 < 1 = mod-lt x (omega arith) in
    let one : x % 256 ^ 0 ≡ x % 1 = ap (λ t. x % t) (pow-zero 256) in omega (arith, lt, one)
little_endian-bytes_of (suc n) x =
    ap (λ t. x % 256 + 256 * t) (little_endian-bytes_of n (x / 256))
    ∙ sym (mod-mul_digit 256 (256 ^ n) x (omega arith) (pow-pos_byte n))
    ∙ ap (λ t. x % t) (sym (pow-suc 256 n ∙ mul_comm (256 ^ n) 256))

-- The bytes of the word that a key holds.
abbrev pub id_width : ℕ → ℕ
id_width n = if ltb n 8 then n else 8

-- The inverse of the multiplicative hash.
abbrev pub inverse : ℕ
inverse = 7581284681210600073

-- The shifts leave the low bytes.
low_bytes : (n h : ℕ) → n ≤ 8 → u64 (h * 2 ^ ((8 - n) * 8)) / 2 ^ ((8 - n) * 8) ≡ h % 256 ^ n
low_bytes n h le =
    let s = (8 - n) * 8 in
    let sum : s + n * 8 ≡ 64 = omega arith in
    let size : 2 ^ 64 ≡ 2 ^ s * 256 ^ n =
      ap (λ t. 2 ^ t) (sym sum) ∙ pow-add 2 s (n * 8) ∙ ap (λ t. 2 ^ s * t) (sym (byte_power n)) in
    ap₂ (λ a b. a % b / 2 ^ s) (mul_comm h (2 ^ s)) size
    ∙ ap (λ t. t / 2 ^ s) (mul-mod-mul_left (2 ^ s) h (256 ^ n) (pow-pos s) (pow-pos_byte n))
    ∙ mul-div_cancel_left (h % 256 ^ n) (pow-pos s)

byte-dvd : (n : ℕ) → n ≤ 8 → 256 ^ n ∣ 2 ^ 64
byte-dvd n le =
    let sum : (8 - n) * 8 + n * 8 ≡ 64 = omega arith in
    subst (λ t. 256 ^ n ∣ t)
      (ap (λ t. 2 ^ ((8 - n) * 8) * t) (byte_power n)
        ∙ sym (pow-add 2 ((8 - n) * 8) (n * 8))
        ∙ ap (λ t. 2 ^ t) sum)
      (dvd-mul_left (256 ^ n) (2 ^ ((8 - n) * 8)))

-- The inverse undoes the hash, also on what is left of it in a short key.
pub inverse_lem :
    (n id : ℕ) → n ≤ 8 → inverse * (multiplicative_hash id % 256 ^ n) % 256 ^ n ≡ id % 256 ^ n
unfolding multiplicative_hash
inverse_lem n id le =
    let m = 256 ^ n in
    let d : m ∣ 2 ^ 64 = byte-dvd n le in
    let product = 11400714819323198393 * id in
    let whole : inverse * product ≡ 2 ^ 64 * (4685491611377062118 * id) + id = omega arith in
    Cong-mul m inverse inverse (u64 product % m) product refl
      (mod-eq_of_lt (mod-lt (u64 product) (pow-pos_byte n)) ∙ mod-mod_of_dvd m product d)
    ∙ sym (mod-mod_of_dvd m (inverse * product) d)
    ∙ ap (λ t. t % m) (mod_parts (2 ^ 64) (inverse * product) (4685491611377062118 * id) id whole)
    ∙ mod-mod_of_dvd m id d

drop-append : (n : ℕ) (xs ys : List ℕ) → length xs ≡ n → drop n (xs ++ ys) ≡ ys
drop-append zero [] ys e = refl
drop-append zero (x ∷ xs) ys e = let no : 1 ≤ 0 = omega (arith, e) in elim no [ ]
drop-append (suc n) [] ys e = let no : 1 ≤ 0 = omega (arith, e) in elim no [ ]
drop-append (suc n) (x ∷ xs) ys e = drop-append n xs ys (omega (arith, e))

-- The bytes behind the prefix, and the word in the last of them.
pub record Encoded (n h : ℕ) : Type 0 where
  pub bytes : List ℕ
  pub bytes_lem : id_bytes n h ≡ some bytes
  pub width : length bytes ≡ n
  pub word : little_endian (drop (n - 8) bytes) ≡ h % 256 ^ id_width n

pub id_bytes-Encoded : (n h : ℕ) → 0 < n → Encoded n h
unfolding id_bytes
id_bytes-Encoded n h pos = elim (Bool-cases (ltb n 8)) [
  | inl e ↦
      let v = u64 (h * 2 ^ ((8 - n) * 8)) / 2 ^ ((8 - n) * 8) in
      let lt : n ≤ 8 = ground arith in
      let none_before : n - 8 ≡ 0 = omega arith in
      let width : id_width n ≡ n = rw e refl in
      let ne : ((8 - n) * 8 == 64) ≡ false = ground arith in
      record {
        bytes = bytes_of n v;
        bytes_lem = rw (e, ne) refl;
        width = length-bytes_of n v;
        word =
            ap (λ t. little_endian (drop t (bytes_of n v))) none_before
            ∙ little_endian-bytes_of n v
            ∙ ap (λ t. t % 256 ^ n) (low_bytes n h lt)
            ∙ mod-eq_of_lt (mod-lt h (pow-pos_byte n))
            ∙ ap (λ t. h % 256 ^ t) (sym width);
      }
  | inr e ↦
      let ge : 8 ≤ n = ground arith in
      let width : id_width n ≡ 8 = rw e refl in
      record {
        bytes = replicate (n - 8) 1 ++ bytes_of 8 h;
        bytes_lem = rw e refl;
        width =
            length-append (replicate (n - 8) 1) (bytes_of 8 h)
            ∙ (omega (arith, length-replicate {A = ℕ} (n - 8) 1, ge));
        word =
            ap little_endian (
              drop-append (n - 8) (replicate (n - 8) 1) (bytes_of 8 h)
                (length-replicate {A = ℕ} (n - 8) 1))
            ∙ little_endian-bytes_of 8 h
            ∙ ap (λ t. h % 256 ^ t) (sym width);
      }
]

pub take-drop : (k j n : ℕ) (xs : List ℕ) → j + k ≡ n → take k (drop j xs) ≡ drop j (take n xs)
take-drop k zero n xs e = ap (λ t. take t xs) (omega (arith, e))
take-drop k (suc j) zero xs e = let no : 1 ≤ 0 = omega (arith, e) in elim no [ ]
take-drop zero (suc j) (suc n) [] e = refl
take-drop (suc k) (suc j) (suc n) [] e = refl
take-drop k (suc j) (suc n) (x ∷ xs) e = take-drop k j n xs (omega (arith, e))
