-- ===== src/Quicklist/Nodes.antt =====
-- The chain of internal/ds/quicklist.go as the list of values that its nodes hold in order.
use monster_db.Prelude.{
  ◌+◌, ◌-◌, ◌*◌, ◌^◌, ◌<◌, ◌≤◌, ◌≡◌, refl, sym, ◌∙◌, ap, arith, some, List, [], ◌∷◌, ◌++◌, length,
  length-append,
}
use monster_db.Prelude.Int.{pos, FitsIn, to_word}
use monster_db.Prelude.Bytes.{le_bytes, zeros, write-append, write, length-le_bytes}
use monster_db.Listpack.{Listpack, new_listpack, total_len, end_byte, max_listpack_bytes}
use monster_db.Listpack.Codec.{Value, int, str, encode_int, encode_string}
use monster_db.Listpack.Entries.{
  encode, body, body-append, packed, packed-header, header, length-header, Holds, set_meta-packed,
  total_len-packed,
}
use monster_db.Quicklist.{Quicklist}

-- An int64, or a string of less than 2 ^ 31 bytes.
abbrev pub Fits : Value → Type 0
Fits (int i) = FitsIn (2 ^ 63) i
Fits (str s) = length s < 2 ^ 31

abbrev pub AllFit : List Value → Type 0
AllFit [] = Unit {0}
AllFit (v ∷ vs) = Fits v × AllFit vs

-- The values of one node: few enough for the 16-bit counter, with a total in 32 bits.
pub record IsNode (vs : List Value) : Type 0 where
  pub few : length vs ≤ 4096
  pub total : length (body vs) + 7 < 256 ^ 4
  pub fit : AllFit vs

-- The nodes hold the lists `vss`, each in turn.
abbrev pub AllHold : List Listpack → List (List Value) → Type 0
AllHold [] [] = Unit {0}
AllHold [] (vs ∷ vss) = ⊥
AllHold (lp ∷ nodes) [] = ⊥
AllHold (lp ∷ nodes) (vs ∷ vss) = Holds lp vs × IsNode vs × AllHold nodes vss

abbrev pub flat : List (List Value) → List Value
flat [] = []
flat (vs ∷ vss) = vs ++ flat vss

-- `ql` is well formed and stands for the list `vs`.
pub record Represents (ql : Quicklist) (vs : List Value) : Type 0 where
  pub parts : List (List Value)
  pub hold : AllHold ql.nodes parts
  pub all : flat parts ≡ vs
  pub counted : ql.len ≡ length vs

pub AllFit-snoc : (v : Value) (vs : List Value) → AllFit vs → Fits v → AllFit (vs ++ v ∷ [])
AllFit-snoc v [] h f = (f, tt)
AllFit-snoc v (w ∷ vs) h f = (h.0, AllFit-snoc v vs h.1 f)

blank : zeros 7 ≡ packed 0 0 (0 ∷ [])
unfolding zeros packed le_bytes
blank = refl

pub new_listpack-Holds : (lp : Listpack) × (new_listpack ≡ some lp) × Holds lp []
unfolding new_listpack body
new_listpack-Holds =
    let w : write 6 (end_byte ∷ []) (zeros 7) ≡ some (packed 0 0 (end_byte ∷ [])) =
      rw (blank, packed-header 0 0 (0 ∷ []), packed-header 0 0 (end_byte ∷ []))
        (write-append 6 (header 0 0) (end_byte ∷ []) (0 ∷ []) [] (sym (length-header 0 0)) refl) in
    (
      record { content = packed 7 0 (end_byte ∷ []); spare = zeros (max_listpack_bytes - 7) },
      rw w (set_meta-packed 0 0 0 (end_byte ∷ []) (zeros (max_listpack_bytes - 7))),
      refl,
    )

pub IsNode-nil : IsNode []
unfolding body
IsNode-nil = record { few = omega arith; total = omega arith; fit = tt }

pub length-encode-le : (v : Value) → Fits v → length (encode v) ≤ 2 ^ 31 + 5
unfolding encode_int encode_string
length-encode-le (int v) h = ground (
  arith,
  length-le_bytes 2 (to_word (256 ^ 2) v),
  length-le_bytes 4 (to_word (256 ^ 4) v),
  length-le_bytes 8 (to_word (256 ^ 8) v),
)
length-encode-le (str s) h = ground (
  arith,
  length-append (le_bytes 4 (to_word (256 ^ 4) (pos (length s)))) s,
  length-le_bytes 4 (to_word (256 ^ 4) (pos (length s))),
)

pub length-encode-ge : (v : Value) → 2 ≤ length (encode v)
unfolding encode_int encode_string
length-encode-ge (int v) = ground arith
length-encode-ge (str s) = ground arith

length-body-ge : (vs : List Value) → 2 * length vs ≤ length (body vs)
unfolding body
length-body-ge [] = omega arith
length-body-ge (v ∷ vs) =
    omega (arith, length-append (encode v) (body vs), length-encode-ge v, length-body-ge vs)

-- A node with room for an entry by the test of `AddToTail` or `AddToHead` takes one more value.
module _ (v : Value) (vs : List Value) (node : IsNode vs) (fits : Fits v)
    (room : length (body vs) + 7 + 16 ≤ 8192) where
  pub IsNode-cons : IsNode (v ∷ vs)
  unfolding body
  IsNode-cons = record {
    few = omega (arith, length-body-ge vs);
    total = omega (arith, length-append (encode v) (body vs), length-encode-le v fits);
    fit = (fits, node.fit);
  }

  pub IsNode-snoc : IsNode (vs ++ v ∷ [])
  unfolding body
  IsNode-snoc = record {
    few = omega (arith, length-body-ge vs, length-append vs (v ∷ []));
    total = rw (body-append vs (v ∷ [])) (
        omega (
          arith,
          length-append (body vs) (encode v ++ []),
          length-append (encode v) [],
          length-encode-le v fits,
        ));
    fit = AllFit-snoc v vs node.fit fits;
  }

-- `totalLen` is the length of the buffer.
pub total_len-Holds :
    (vs : List Value) (lp : Listpack)
    → Holds lp vs
    → IsNode vs
    → total_len lp ≡ some (length (body vs) + 7)
total_len-Holds vs lp h node =
    ap (λ c. total_len (record { content = c; spare = lp.spare })) h
    ∙ total_len-packed (length (body vs) + 7) (length vs) (body vs ++ end_byte ∷ []) lp.spare
    ∙ ap some (omega (arith, node.total))

pub single-IsNode : (v : Value) → Fits v → IsNode (v ∷ [])
single-IsNode v fits = IsNode-cons v [] IsNode-nil fits empty_room
  where
    empty_room : length (body []) + 7 + 16 ≤ 8192
    empty_room = unfold body in omega arith
