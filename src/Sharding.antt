-- ===== src/Sharding.antt =====
-- internal/sharding/sharding.go: the partition of an entity and the subject of its commands, with
-- `crc32.ChecksumIEEE` of the standard library written out bit by bit.
use Prim.Native.Nat.{bit_xor}
use Prim.Native.String
use todo_1m.Prelude.{
  ℕ, zero, suc, ◌+◌, ◌/◌, ◌%◌, ◌≡◌, refl, String, code, List, [], ◌∷◌, ltb, eqb, if◌then◌else◌,
  itoa,
}

abbrev pub shard_count : ℕ
shard_count = 1024

-- The UTF-8 bytes of a code point, in front of `rest`.
utf8_rune : ℕ → List ℕ → List ℕ
utf8_rune c rest =
    if ltb c 0x80
    then c ∷ rest
    else if ltb c 0x800
    then (0xc0 + c / 64) ∷ (0x80 + c % 64) ∷ rest
    else if ltb c 0x10000
    then (0xe0 + c / 4096) ∷ (0x80 + c / 64 % 64) ∷ (0x80 + c % 64) ∷ rest
    else (0xf0 + c / 262144)
      ∷ (0x80 + c / 4096 % 64)
      ∷ (0x80 + c / 64 % 64)
      ∷ (0x80 + c % 64)
      ∷ rest

-- `[]byte(s)`
unfoldable pub bytes_of : String → List ℕ
unfolding utf8_rune
bytes_of String.[] = []
bytes_of (String.◌∷◌ c s) = utf8_rune (code c) (bytes_of s)

-- One bit of the reflected polynomial division.
crc_bit : ℕ → ℕ
crc_bit r = if eqb (r % 2) 1 then bit_xor (r / 2) 0xedb88320 else r / 2

crc_bits : ℕ → ℕ → ℕ
unfolding crc_bit
crc_bits zero r = r
crc_bits (suc n) r = crc_bits n (crc_bit r)

crc_update : ℕ → List ℕ → ℕ
unfolding crc_bits
crc_update r [] = r
crc_update r (b ∷ bs) = crc_update (crc_bits 8 (bit_xor r b)) bs

-- `crc32.ChecksumIEEE`
unfoldable pub checksum_ieee : List ℕ → ℕ
unfolding crc_update
checksum_ieee bs = bit_xor (crc_update 0xffffffff bs) 0xffffffff

unfoldable pub get_shard_id : String → ℕ
unfolding bytes_of checksum_ieee
get_shard_id entity_id = checksum_ieee (bytes_of entity_id) % shard_count

unfoldable pub get_subject : String → String → String
get_subject entity_type entity_id = String.◌++◌ "app.command." (
    String.◌++◌ (itoa (get_shard_id entity_id))
      (String.◌++◌ "." (String.◌++◌ entity_type (String.◌++◌ "." entity_id))))

-- The values of the package's own tests.
shard_tests :
    (get_shard_id "user-1" ≡ 532) × (get_shard_id "user-2" ≡ 942) × (get_shard_id "todo-abc" ≡ 748)
unfolding get_shard_id
shard_tests = (refl, refl, refl)

subject_test : get_subject "todo" "user-1" ≡ "app.command.532.todo.user-1"
unfolding get_subject get_shard_id itoa
subject_test = refl
