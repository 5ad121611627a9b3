-- ===== src/Tests/Scores.antt =====
-- The sorted sets of internal/store/zset.go and zset_cmd.go at small lists.
use monster_db.Prelude.{
  subst, ℕ, ◌+◌, ◌-◌, ◌≡◌, ◌≢◌, ◌⊎◌, refl, sym, ap, ◌∙◌, arith, true, false, none, some, inl, inr,
  [], ◌∷◌, map, take, drop, if◌then◌else◌,
}
use monster_db.Prelude.Int.{pos}
use monster_db.Prelude.Bytes.{Bytes, eqb}
use monster_db.Prelude.Dict.{lookup}
use monster_db.Runtime.{bytes_reply, int_reply}
use monster_db.Skiplist.{
  SkiplistNode, Skiplist, new_skiplist, below_score, chain_at, ltb_bytes, insert, delete, search,
}
use monster_db.Skiplist.Walk.{In}
use monster_db.Skiplist.Linked.{IsSkiplist, new_skiplist-IsSkiplist, place, place_levels}
use monster_db.Skiplist.Insert.{insert-IsSkiplist}
use monster_db.Skiplist.Find.{find_node, TieFree, OneAt, search-find_node}
use monster_db.Skiplist.Delete.{without, delete-IsSkiplist}
use monster_db.Skiplist.Tied.{search-tied}
use monster_db.Zset.{Zset, new_zset, add, range}
use monster_db.Zset
use monster_db.Zset.Ordered.{IsZset, add-IsZset}
use monster_db.Zset.Interval.{first_index, end_index, range-take}
use monster_db.TypeString.{assert_type}
use monster_db.Keyspace.{Obj, Db, has_expired, zset}
use monster_db.Keyspace.Consistent.{IsConsistent}
use monster_db.Command.{Outcome, resp_one}
use monster_db.ZsetCmd.{zadd, zrem, zscore}
use monster_db.ZsetCmd.Scored.{HoldsZset, held, score_reply, zscore-zadd, zscore-zrem}
use monster_db.Tests.Hosts.{one_digit, small_host, at_second}

-- Two members, `a` at 5 and `b` at 3.
abbrev a : Bytes
a = b'a' ∷ []

abbrev b : Bytes
b = b'b' ∷ []

abbrev one_scored : Skiplist
one_scored = (insert 1 a (pos 5) new_skiplist).1

one_scored-IsSkiplist : IsSkiplist one_scored
one_scored-IsSkiplist =
    (insert-IsSkiplist 1 a (pos 5) new_skiplist new_skiplist-IsSkiplist (omega arith)).0

abbrev two_scored : Skiplist
two_scored = (insert 2 b (pos 3) one_scored).1

insert-IsSkiplist_example :
    IsSkiplist two_scored
    × (two_scored.forward
        ≡ place_levels
            (2 + 1)
            (below_score (pos 3))
            ((insert 2 b (pos 3) one_scored).0)
            one_scored.forward)
    × (chain_at 0 two_scored.forward
        ≡ place
            (below_score (pos 3))
            ((insert 2 b (pos 3) one_scored).0)
            (chain_at 0 one_scored.forward))
insert-IsSkiplist_example =
    insert-IsSkiplist 2 b (pos 3) one_scored one_scored-IsSkiplist (omega arith)

abbrev node_a : SkiplistNode
node_a = record { id = 0; member = a; score = pos 5 }

one_chain : chain_at 0 one_scored.forward ≡ node_a ∷ []
unfolding insert new_skiplist
one_chain = refl

only_a : (n : SkiplistNode) → In n (chain_at 0 one_scored.forward) → n ≡ node_a
only_a n i = elim (subst (In n) one_chain i) [ inl e ↦ e | inr none_left ↦ absurd none_left ]

one_scored-TieFree : TieFree (pos 5) (chain_at 0 one_scored.forward)
one_scored-TieFree n m i j e f = ap (λ x. x.member) (only_a n i ∙ sym (only_a m j))

one_scored-OneAt : OneAt (pos 5) (chain_at 0 one_scored.forward)
one_scored-OneAt n m i j e f = only_a n i ∙ sym (only_a m j)

search-find_node_example :
    search a (pos 5) one_scored ≡ find_node a (pos 5) (chain_at 0 one_scored.forward)
search-find_node_example =
    search-find_node a (pos 5) one_scored one_scored-IsSkiplist one_scored-TieFree

delete-IsSkiplist_example :
    (delete a (pos 5) one_scored
      ≡ without (find_node a (pos 5) (chain_at 0 one_scored.forward)) one_scored)
    × IsSkiplist (delete a (pos 5) one_scored)
delete-IsSkiplist_example =
    delete-IsSkiplist a (pos 5) one_scored one_scored-IsSkiplist one_scored-OneAt

a_first : ltb_bytes a b ≡ true
unfolding ltb_bytes
a_first = refl

search-tied_example :
    (search a (pos 5) ((insert 0 b (pos 5) one_scored).1) ≡ none)
    × (delete a (pos 5) ((insert 0 b (pos 5) one_scored).1) ≡ (insert 0 b (pos 5) one_scored).1)
    × ((n : SkiplistNode)
        → In n (chain_at 0 one_scored.forward)
        → In n (chain_at 0 ((insert 0 b (pos 5) one_scored).1).forward))
search-tied_example =
    search-tied 0 a b (pos 5) one_scored one_scored-IsSkiplist (omega arith) a_first
      (λ n i e. ap (λ x. x.member) (only_a n i))

abbrev one_zset : Zset
one_zset = record { dict = (a, node_a) ∷ []; list = one_scored }

one_zset-IsZset : IsZset one_zset
unfolding lookup
one_zset-IsZset = record {
  list = one_scored-IsSkiplist;
  apart = λ n m i j e. only_a n i ∙ sym (only_a m j);
  mapped = λ n i. ap (λ x. lookup x.member one_zset.dict) (only_a n i) ∙ ap some (sym (only_a n i));
}

add-IsZset_example :
    IsZset (add 3 a (pos 7) one_zset)
    × (Zset.search a (add 3 a (pos 7) one_zset) ≡ (pos 7, true))
    × ((new : SkiplistNode) × In new (chain_at 0 (add 3 a (pos 7) one_zset).list.forward)
        × (new.member ≡ a)
        × (new.score ≡ pos 7))
    × ((n : SkiplistNode)
        → In n (chain_at 0 (add 3 a (pos 7) one_zset).list.forward)
        → (n.member ≡ a) ⊎ In n (chain_at 0 one_zset.list.forward))
    × ((n : SkiplistNode)
        → In n (chain_at 0 one_zset.list.forward)
        → n.member ≢ a
        → In n (chain_at 0 (add 3 a (pos 7) one_zset).list.forward))
add-IsZset_example =
    add-IsZset 3 a (pos 7) one_zset one_zset-IsZset (omega arith)
      (λ n i e. ap (λ x. x.member) (only_a n i))

range-take_example :
    range (pos 0) (pos 1) one_zset
    ≡ map
        (λ n. n.member)
        (take
          (end_index (pos 1) - first_index (pos 0))
          (drop (first_index (pos 0)) (chain_at 0 one_zset.list.forward)))
range-take_example = range-take (pos 0) (pos 1) one_zset

-- A keyspace with this sorted set at `z`.
abbrev zset_obj : Obj
zset_obj = record {
  type_encoding = 69;
  str_val = [];
  last_accessed_at = 0;
  content = zset one_zset;
}

unfoldable scored_key : Db
scored_key = record {
  store = (b'z' ∷ [], zset_obj) ∷ [];
  expires = [];
  e_pool = record { pool = []; capacity = 16; keyset = [] };
  keys_stat = pos 1;
  modified = [];
  ready = [];
}

scored_key-IsConsistent : IsConsistent scored_key
unfolding scored_key lookup
scored_key-IsConsistent = record {
  unique = (refl, tt);
  unique_expires = tt;
  expiring = λ k h. refl;
}

scored_key-HoldsZset : HoldsZset scored_key (b'z' ∷ []) one_zset
unfolding scored_key lookup assert_type
scored_key-HoldsZset = record { obj = zset_obj; found = refl; is_type = refl; content = refl }

lasting : (n : ℕ) → has_expired (at_second n) (b'z' ∷ []) scored_key ≡ false
unfolding scored_key has_expired lookup
lasting n = refl

zscore-zadd_example :
    (out : Outcome) × (out' : Outcome) × (zadd one_digit small_host
        (at_second 5)
        ((b'z' ∷ []) ∷ (9 ∷ []) ∷ b ∷ [])
        scored_key
      ≡ some out)
    × (out.replies ≡ bytes_reply resp_one ∷ [])
    × (zscore small_host (at_second 6) ((b'z' ∷ []) ∷ a ∷ []) out.db ≡ some out')
    × (out'.replies
        ≡ (if eqb b a then int_reply (pos 9) else score_reply (lookup a one_zset.dict)) ∷ [])
zscore-zadd_example =
    zscore-zadd one_digit small_host (at_second 5) (at_second 6) (b'z' ∷ []) (9 ∷ []) b a (pos 9)
      one_zset scored_key refl scored_key-IsConsistent (held scored_key-HoldsZset (lasting 5))
      (lasting 6)

zscore-zrem_example :
    (out : Outcome) × (out' : Outcome) × (zrem small_host
        (at_second 5)
        ((b'z' ∷ []) ∷ a ∷ [])
        scored_key
      ≡ some out)
    × (zscore small_host (at_second 6) ((b'z' ∷ []) ∷ a ∷ []) out.db ≡ some out')
    × (out'.replies ≡ score_reply (lookup a one_zset.dict) ∷ [])
zscore-zrem_example =
    zscore-zrem small_host (at_second 5) (at_second 6) (b'z' ∷ []) a a [] one_zset scored_key
      scored_key-HoldsZset (lasting 5) (lasting 6)
