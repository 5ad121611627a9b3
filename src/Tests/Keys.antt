-- ===== src/Tests/Keys.antt =====
-- The commands of internal/store/key_cmd.go at a small keyspace, and the eviction pool.
use monster_db.Prelude.{
  ℕ, ◌+◌, ◌-◌, ◌*◌, ◌/◌, ◌%◌, ◌^◌, ◌≡◌, refl, arith, true, false, none, some, [], ◌∷◌, length,
  if◌then◌else◌,
}
use monster_db.Prelude.Int.{pos, negsuc, ltb_ℤ, to_word, ◌+ℤ◌}
use monster_db.Prelude.Bytes.{Bytes, eqb}
use monster_db.Prelude.Text.{ascii}
use monster_db.Prelude.Dict.{lookup, is_some}
use monster_db.Runtime.{int_reply, bytes_reply, null_reply, bulk_string}
use monster_db.TypeString.{assert_type, assert_encoding}
use monster_db.Eviction.{PoolItem, EvictionPool, push}
use monster_db.Eviction.Pool.{push_unbounded}
use monster_db.Keyspace.{passed}
use monster_db.Keyspace.Consistent.{IsConsistent, with_room}
use monster_db.Command.{Outcome, resp_one}
use monster_db.KeyCmd.{set, get_cmd, incr, del_cmd, expire, ttl, set_options, lasts}
use monster_db.KeyCmd.Strings.{get_cmd-set, Counts, incr-Counts}
use monster_db.KeyCmd.Expiry.{named, del_cmd-removes, ttl-expire}
use monster_db.Tests.Hosts.{
  one_digit, one_digit-Converts, small_host, at_second, counter_obj, three_keys,
  three_keys-IsConsistent, no_expiry,
}

counter_found : lookup (b'n' ∷ []) three_keys.store ≡ some counter_obj
unfolding three_keys lookup
counter_found = refl

counter-Counts : Counts one_digit (at_second 5) three_keys (b'n' ∷ []) (pos 7)
unfolding assert_type assert_encoding
counter-Counts = record {
  obj = counter_obj;
  found = counter_found;
  value = refl;
  is_string = refl;
  is_integer = refl;
  alive = no_expiry (b'n' ∷ []);
}

-- SET k v EX 3.
ex_three : set_options one_digit (ascii "EX" ∷ (3 ∷ []) ∷ []) (negsuc 0) ≡ lasts (pos 3000)
unfolding set_options
ex_three = refl

get_cmd-set_example :
    (out : Outcome) × (out' : Outcome) × (set one_digit small_host
        (at_second 5)
        ((b'k' ∷ []) ∷ (b'v' ∷ []) ∷ ascii "EX" ∷ (3 ∷ []) ∷ [])
        three_keys
      ≡ some out)
    × (get_cmd small_host (at_second 6) ((b'k' ∷ []) ∷ []) out.db ≡ some out')
    × (out'.replies
        ≡ (if passed (at_second 6) (lookup (b'k' ∷ []) out.db.expires)
            then null_reply
            else bulk_string (b'v' ∷ []))
          ∷ [])
    × (lookup (b'k' ∷ []) out.db.expires ≡ (
        if ltb_ℤ (pos 0) (pos 3000)
        then some ((1000 + to_word (2 ^ 64) (pos 3000)) % 2 ^ 64)
        else lookup (b'k' ∷ []) ((with_room small_host (at_second 5) three_keys).expires)))
get_cmd-set_example =
    get_cmd-set one_digit small_host (at_second 5) (at_second 6) (b'k' ∷ []) (b'v' ∷ [])
      (ascii "EX" ∷ (3 ∷ []) ∷ []) (pos 3000) three_keys ex_three

incr-Counts_example :
    (out : Outcome) × (incr one_digit small_host (at_second 5) ((b'n' ∷ []) ∷ []) three_keys
      ≡ some out)
    × (out.replies ≡ int_reply (pos 7 +ℤ pos 1) ∷ [])
    × Counts one_digit (at_second 5) out.db (b'n' ∷ []) (pos 7 +ℤ pos 1)
    × ((j : Bytes) → eqb (b'n' ∷ []) j ≡ false → lookup j out.db.store ≡ lookup j three_keys.store)
    × (out.db.modified ≡ three_keys.modified)
incr-Counts_example =
    incr-Counts one_digit small_host (at_second 5) (b'n' ∷ []) (pos 7) three_keys one_digit-Converts
      counter-Counts (omega arith) (omega arith)

del_cmd-removes_example :
    (out : Outcome) × (n : ℕ) × (del_cmd small_host
        (at_second 5)
        ((b'n' ∷ []) ∷ (b'z' ∷ []) ∷ [])
        three_keys
      ≡ some out)
    × (out.replies ≡ int_reply (pos n) ∷ [])
    × (length three_keys.store ≡ n + length out.db.store)
    × ((j : Bytes)
        → lookup j out.db.store
          ≡ (if named j ((b'n' ∷ []) ∷ (b'z' ∷ []) ∷ []) then none else lookup j three_keys.store))
    × IsConsistent out.db
del_cmd-removes_example =
    del_cmd-removes small_host (at_second 5) ((b'n' ∷ []) ∷ (b'z' ∷ []) ∷ []) three_keys
      three_keys-IsConsistent

ttl-expire_example :
    (out : Outcome) × (out' : Outcome) × (expire one_digit small_host
        (at_second 5)
        ((b'n' ∷ []) ∷ (9 ∷ []) ∷ [])
        three_keys
      ≡ some out)
    × (out.replies ≡ bytes_reply resp_one ∷ [])
    × (ttl small_host (at_second 6) ((b'n' ∷ []) ∷ []) out.db ≡ some out')
    × (out'.replies ≡ int_reply (pos ((1000 + 9 * 1000 - 1000) / 1000)) ∷ [])
ttl-expire_example =
    ttl-expire one_digit small_host (at_second 5) (at_second 6) (b'n' ∷ []) (9 ∷ []) 9 counter_obj
      three_keys refl counter_found (no_expiry (b'n' ∷ [])) (omega arith) (omega arith)

-- A pool that is full.
abbrev item_of : ℕ → PoolItem
item_of c = record { key = c ∷ []; last_accessed_at = c }

abbrev full_pool : EvictionPool
full_pool = record {
  pool = item_of 1 ∷ item_of 2 ∷ [];
  capacity = 2;
  keyset = (1 ∷ [], item_of 1) ∷ (2 ∷ [], item_of 2) ∷ [];
}

not_pooled : lookup (3 ∷ []) full_pool.keyset ≡ none
unfolding lookup
not_pooled = refl

push_unbounded_example :
    (length (push small_host.sort small_host.grow (3 ∷ []) 9 full_pool).pool
      ≡ length full_pool.pool + 1)
    × ((j : Bytes)
        → is_some (lookup j (push small_host.sort small_host.grow (3 ∷ []) 9 full_pool).keyset)
          ≡ (if eqb (3 ∷ []) j then true else is_some (lookup j full_pool.keyset)))
push_unbounded_example =
    push_unbounded small_host.sort small_host.grow (3 ∷ []) 9 full_pool (λ items. refl)
      (λ n. omega arith) not_pooled
