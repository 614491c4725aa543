-- ===== src/GenericKey/Tests.antt =====
-- `GenericKey` of util/config.h on known strings, and its theorem at an example.
use hash_bench.Common.{ℕ, ◌-◌, ◌≡◌, ◌↔◌, refl, arith, Bool, true, some, List, [], ◌∷◌, take}
use hash_bench.GenericKey.{until_nul, set_from_string, same}
use hash_bench.GenericKey.Compare.{set_from_string-same}

abbrev short_text : List ℕ
short_text = 97 ∷ 98 ∷ []

abbrev long_text : List ℕ
long_text = 97 ∷ 98 ∷ 99 ∷ 100 ∷ 101 ∷ []

-- A long string is cut so that the last byte is 0.
cut : set_from_string 4 long_text ≡ 97 ∷ 98 ∷ 99 ∷ 0 ∷ []
unfolding set_from_string
cut = refl

padded : set_from_string 4 short_text ≡ 97 ∷ 98 ∷ 0 ∷ 0 ∷ []
unfolding set_from_string
padded = refl

set_from_string-same_example :
    (r : Bool) × (same (set_from_string 4 short_text) (set_from_string 4 long_text) ≡ some r)
    × ((r ≡ true) ↔ (until_nul (take (4 - 1) short_text) ≡ until_nul (take (4 - 1) long_text)))
set_from_string-same_example = set_from_string-same 4 short_text long_text (omega arith)
