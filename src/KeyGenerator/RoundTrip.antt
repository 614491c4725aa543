-- ===== src/KeyGenerator/RoundTrip.antt =====
-- The keys of bench/key_generator.h, and the identifier that is read back from one.
use hash_bench.Common.{
  ℕ, ◌+◌, ◌-◌, ◌*◌, ◌%◌, ◌^◌, ◌≤◌, ◌<◌, ◌≡◌, ◌∙◌, sym, ap, arith, Bool, true, Option, none, some,
  List, length, length-replicate, replicate, take, drop, overwrite, length-overwrite,
  take-drop-overwrite, take-overwrite, if◌then◌else◌, leb,
}
use hash_bench.Word.{u64, little_endian}
use hash_bench.KeyGenerator.{
  KeyGenerator, multiplicative_hash, memcpy, next, key_max, new_key_generator,
}
use hash_bench.KeyGenerator.Bytes.{
  inverse, id_width, inverse_lem, take-drop, Encoded, id_bytes-Encoded,
}

-- The identifier that a key of the generator holds, modulo the room for it.
pub read_id : KeyGenerator → List ℕ → ℕ
read_id g key =
    inverse
    * little_endian
        (take (id_width g.key_size) (drop (g.key_size - 8) (drop (length g.prefix) key)))
    % 256 ^ id_width g.key_size

-- The buffer has its prefix, and the keys fit in it.
pub record IsValid (g : KeyGenerator) : Type 0 where
  pub width : length g.buf ≡ key_max
  pub prefixed : take (length g.prefix) g.buf ≡ g.prefix
  pub some_room : 0 < g.key_size
  pub fits : length g.prefix + g.key_size ≤ key_max

-- What `next` returns and leaves for a generator `g` and an identifier.
pub record NextKey (g : KeyGenerator) (sequential : Bool) (drawn id : ℕ) : Type 0 where
  pub bytes : List ℕ
  pub after : KeyGenerator
  pub next_lem : next sequential drawn g ≡ some (bytes, after)
  pub after-IsValid : IsValid after
  pub prefixed : take (length g.prefix) bytes ≡ g.prefix
  pub read : read_id g bytes ≡ id % 256 ^ id_width g.key_size

-- What `next` leaves behind.
abbrev written : List ℕ → ℕ → KeyGenerator → KeyGenerator
written buf id g = record {
  buf = buf;
  current_id = id;
  keyspace = g.keyspace;
  key_size = g.key_size;
  prefix = g.prefix;
}

abbrev copied : Option (List ℕ) → ℕ → KeyGenerator → Option (List ℕ × KeyGenerator)
copied buf id g = elim buf [ none ↦ none | some buf ↦ some (buf, written buf id g) ]

abbrev next_body : Option (List ℕ) → ℕ → KeyGenerator → Option (List ℕ × KeyGenerator)
next_body bytes id g = elim bytes [
  | none ↦ none
  | some bytes ↦ copied (memcpy g.buf (length g.prefix) bytes) id g
]

memcpy_lem :
    (buf : List ℕ) (i : ℕ) (bytes : List ℕ)
    → i + length bytes ≤ length buf
    → memcpy buf i bytes ≡ some (overwrite buf i bytes)
memcpy_lem buf i bytes le =
    let test : leb (i + length bytes) (length buf) ≡ true = ground arith in
    ap (λ b. if b then some (overwrite buf i bytes) else none) test

-- The word of a key, by way of the bytes that are written.
read_id-overwrite :
    (g : KeyGenerator) (id : ℕ) (b : Encoded g.key_size (multiplicative_hash id))
    → length g.prefix + length b.bytes ≤ length g.buf
    → read_id g (overwrite g.buf (length g.prefix) b.bytes) ≡ id % 256 ^ id_width g.key_size
unfolding read_id
read_id-overwrite g id b room =
    let n = g.key_size in
    let w = id_width n in
    let tail = drop (length g.prefix) (overwrite g.buf (length g.prefix) b.bytes) in
    let sum : n - 8 + w ≡ n = ground arith in
    let le : w ≤ 8 = ground arith in
    let written_bytes : take n tail ≡ b.bytes =
      ap (λ t. take t tail) (sym b.width)
      ∙ take-drop-overwrite g.buf (length g.prefix) b.bytes room in
    ap (λ t. inverse * little_endian t % 256 ^ w)
      (take-drop w (n - 8) n tail sum ∙ ap (λ t. drop (n - 8) t) written_bytes)
    ∙ ap (λ t. inverse * t % 256 ^ w) b.word
    ∙ inverse_lem w id le

-- For a well-formed generator, whose keys fit in the buffer, `next` stays in the buffer; the key has
-- the generator's prefix and holds the identifier that it is made from, modulo the room for it, and
-- the generator is well-formed after it.
pub next-NextKey :
    (g : KeyGenerator) (sequential : Bool) (drawn : ℕ)
    → IsValid g
    → NextKey g sequential drawn (if sequential then g.current_id else drawn)
unfolding next
next-NextKey g sequential drawn v =
    let id = if sequential then g.current_id else drawn in
    let id' = if sequential then u64 (g.current_id + 1) else g.current_id in
    let b = id_bytes-Encoded g.key_size (multiplicative_hash id) v.some_room in
    let at = length g.prefix in
    let room : at + length b.bytes ≤ length g.buf = omega (arith, v.width, v.fits, b.width) in
    let buf = overwrite g.buf at b.bytes in
    let kept : take at buf ≡ g.prefix =
      take-overwrite g.buf at at b.bytes (omega arith) ∙ v.prefixed in
    record {
      bytes = buf;
      after = written buf id' g;
      next_lem =
          ap (λ o. next_body o id' g) b.bytes_lem
          ∙ ap (λ o. copied o id' g) (memcpy_lem g.buf at b.bytes room);
      after-IsValid = record {
        width = length-overwrite g.buf at b.bytes ∙ v.width;
        prefixed = kept;
        some_room = v.some_room;
        fits = v.fits;
      };
      prefixed = kept;
      read = read_id-overwrite g id b room;
    }

-- The constructor makes a well-formed generator of a key size and a prefix that fit in the buffer.
pub new_key_generator-IsValid :
    (n key_size current_id : ℕ) (prefix : List ℕ)
    → 0 < key_size
    → length prefix + key_size ≤ key_max
    → (g : KeyGenerator) × (new_key_generator n key_size prefix current_id ≡ some g) × IsValid g
unfolding new_key_generator
new_key_generator-IsValid n key_size current_id prefix pos le =
    let zeros = replicate key_max 0 in
    let wide : length zeros ≡ key_max = length-replicate {A = ℕ} key_max 0 in
    let room : 0 + length prefix ≤ length zeros = omega (arith, wide, le) in
    let started : List ℕ → KeyGenerator = (λ buf. record {
      buf = buf;
      current_id = current_id;
      keyspace = n;
      key_size = key_size;
      prefix = prefix;
    }) in
    (
      started (overwrite zeros 0 prefix),
      ap (λ o. elim o [ none ↦ none | some buf ↦ some (started buf) ])
          (memcpy_lem zeros 0 prefix room),
      record {
        width = length-overwrite zeros 0 prefix ∙ wide;
        prefixed = take-drop-overwrite zeros 0 prefix room;
        some_room = pos;
        fits = le;
      },
    )
