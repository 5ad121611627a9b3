-- ===== src/Tests/Hosts.antt =====
-- A host, conversions of numbers and keyspaces for the tests of the commands.
use monster_db.Prelude.{
  ℕ, ◌+◌, ◌-◌, ◌^◌, ◌≡◌, refl, arith, Bool, true, false, [], ◌∷◌, ltb, length, ◌%◌,
}
use monster_db.Prelude.Int.{ℤ, pos, negsuc, FitsIn}
use monster_db.Prelude.Bytes.{Bytes}
use monster_db.Prelude.Dict.{lookup}
use monster_db.Bloom.{Hashing}
use monster_db.Keyspace.{has_expired, Obj, Db, Host, Moment, Content, no_content, quicklist, intset}
use monster_db.Keyspace.Consistent.{IsConsistent}
use monster_db.Command.{Strconv}
use monster_db.KeyCmd.Strings.{Converts}
use monster_db.SetCmd.Members.{Bounds16}
use monster_db.Tests.Lists.{one_node}
use monster_db.Tests.Sets.{three_words}

-- Numbers are written with one digit for their value, in a base beyond all of them, and a sign.
abbrev in_range : ℕ → ℤ → Bool
in_range w (pos n) = ltb n w
in_range w (negsuc n) = ltb n w

abbrev read_number : Bytes → ℤ
read_number [] = pos 0
read_number (n ∷ []) = pos n
read_number (sign ∷ n ∷ rest) = negsuc (n - 1)

abbrev print_number : ℤ → Bytes
print_number (pos n) = n ∷ []
print_number (negsuc n) = b'-' ∷ (n + 1) ∷ []

abbrev pub one_digit : Strconv
one_digit = record {
  parse_int = λ bits s. (read_number s, in_range (2 ^ (bits - 1)) (read_number s));
  format_int = print_number;
}

pub one_digit-Converts : Converts one_digit
one_digit-Converts (pos n) h = ground arith
one_digit-Converts (negsuc n) h = ground arith

in_range-FitsIn : (w : ℕ) (i : ℤ) → in_range w i ≡ true → FitsIn w i
in_range-FitsIn w (pos n) h = ground arith
in_range-FitsIn w (negsuc n) h = ground arith

pub one_digit-Bounds16 : Bounds16 one_digit
one_digit-Bounds16 s h = in_range-FitsIn 32768 (read_number s) h

abbrev pub small_host : Host
small_host = record {
  key_limit = 10;
  evict_count = 5;
  sort = λ before items. items;
  grow = λ n. n + n;
}

-- Hashes of a key's length, and filters of 64 positions with two rounds.
abbrev pub low_hashing : Hashing
low_hashing = record {
  sum32 = λ seed key. (length key + seed) % 2 ^ 32;
  sizing = λ capacity rate. (pos 64, 2);
}

abbrev pub at_second : ℕ → Moment
at_second n = record {
  milli = 1000;
  second = n;
  minute = 0;
  drawn = false;
  risen = [];
  visited = [];
}

abbrev holding : ℕ → Bytes → Content → Obj
holding type s c = record { type_encoding = type; str_val = s; last_accessed_at = 0; content = c }

-- A counter at n, a list at l and a set at s.
abbrev pub counter_obj : Obj
counter_obj = holding 1 (7 ∷ []) no_content

abbrev pub list_obj : Obj
list_obj = holding 19 [] (quicklist one_node)

abbrev pub set_obj : Obj
set_obj = holding 52 [] (intset three_words)

unfoldable pub three_keys : Db
three_keys = record {
  store = (b'n' ∷ [], counter_obj) ∷ (b'l' ∷ [], list_obj) ∷ (b's' ∷ [], set_obj) ∷ [];
  expires = [];
  e_pool = record { pool = []; capacity = 16; keyset = [] };
  keys_stat = pos 3;
  modified = [];
  ready = [];
}

pub three_keys-IsConsistent : IsConsistent three_keys
unfolding three_keys lookup
three_keys-IsConsistent = record {
  unique = (refl, (refl, (refl, tt)));
  unique_expires = tt;
  expiring = λ k h. refl;
}

pub no_expiry : (k : Bytes) → has_expired (at_second 5) k three_keys ≡ false
unfolding three_keys has_expired lookup
no_expiry k = refl
