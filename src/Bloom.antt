-- ===== src/Bloom.antt =====
-- internal/ds/bloom.go: Bloom filters. murmur3, and the size and the number of hashes that
-- NewBloomFilter computes in floating point, are parameters.
pub mod Marked
pub mod Kept
use Prim.Native.Nat.{bit_and, bit_or}
use monster_db.Prelude.{
  ℕ, zero, suc, ◌+◌, ◌-◌, ◌*◌, ◌/◌, ◌%◌, ◌^◌, Bool, true, false, Option, none, some, List, [], ◌∷◌,
  get_elem?, replicate, ltb, ◌==◌, if◌then◌else◌, ◌>>=◌,
}
use monster_db.Prelude.Int.{ℤ, pos, negsuc}
use monster_db.Prelude.Bytes.{Bytes}

pub record BloomFilter : Type 0 where
  pub filter : List ℕ
  pub size : ℤ
  pub k : ℕ

-- What the code takes from the libraries: `murmur3.Sum32WithSeed`, of which `Sum32` is that with
-- seed 0, and from a capacity and the text of an error rate the numbers `m` and `k`; a negative `k`
-- makes no rounds and is 0 here.
pub record Hashing : Type 0 where
  pub sum32 : ℕ → Bytes → ℕ
  pub sizing : ℤ → Bytes → ℤ × ℕ

unfoldable pub hashes : Hashing → Bytes → ℕ × ℕ
hashes hs key = let h2 : ℕ = hs.sum32 12345 key in (hs.sum32 0 key, if h2 == 0 then 1 else h2)

-- The number of words `(m+63)/64`, rounded toward 0; `none` is the panic at a negative one.
unfoldable pub words_for : ℤ → Option ℕ
words_for (pos m) = some ((m + 63) / 64)
words_for (negsuc m) = if ltb m 126 then some 0 else none

unfoldable pub new_bloom_filter : ℤ × ℕ → Option BloomFilter
unfolding words_for
new_bloom_filter (m, k) = do
  n ← words_for m
  some (record { filter = replicate n 0; size = m; k = k })

abbrev modulus : ℤ → ℕ
modulus (pos m) = m
modulus (negsuc m) = m + 1

-- The word and the mask of a sum that is taken as an int and then modulo the size, which keeps the
-- sign of the int; `none` is a division by 0 or a negative index. A shift by a negative `bit` gives 0.
abbrev pub word_and_mask : ℕ → ℕ → Option (ℕ × ℕ)
word_and_mask sum size =
    if size == 0
    then none
    else if ltb sum (2 ^ 63)
    then some (sum % size / 64, 2 ^ (sum % size % 64))
    else (let back : ℕ = (2 ^ 64 - sum) % size in
        if ltb back 64 then some (0, if back == 0 then 1 else 0) else none)

unfoldable pub locate : ℕ × ℕ → ℕ → ℤ → Option (ℕ × ℕ)
locate (h1, h2) i size = word_and_mask ((h1 + i * h2) % 2 ^ 64) (modulus size)

-- `b.filter[word] |= mask`.
unfoldable pub or_word : ℕ → ℕ → List ℕ → Option (List ℕ)
or_word word mask [] = none
or_word zero mask (w ∷ ws) = some (bit_or w mask ∷ ws)
or_word (suc word) mask (w ∷ ws) = do ws' ← or_word word mask ws; some (w ∷ ws')

-- The loops of Add and Exists: `left` rounds from `i`.
unfoldable pub add_loop : ℕ × ℕ → ℕ → ℕ → BloomFilter → Option BloomFilter
unfolding locate or_word
add_loop hs zero i b = some b
add_loop hs (suc left) i b = do
  (word, mask) ← locate hs i b.size
  ws ← or_word word mask b.filter
  add_loop hs left (i + 1) (record b { filter = ws })

unfoldable pub add : Hashing → Bytes → BloomFilter → Option BloomFilter
unfolding add_loop hashes
add hs key b = add_loop (hashes hs key) b.k 0 b

unfoldable pub exists_loop : ℕ × ℕ → ℕ → ℕ → BloomFilter → Option Bool
unfolding locate
exists_loop hs zero i b = some true
exists_loop hs (suc left) i b =
    let later = exists_loop hs left (i + 1) b in
    do
      (word, mask) ← locate hs i b.size
      w ← get_elem? b.filter word
      if bit_and w mask == 0 then some false else later

unfoldable pub exists_key : Hashing → Bytes → BloomFilter → Option Bool
unfolding exists_loop hashes
exists_key hs key b = exists_loop (hashes hs key) b.k 0 b
