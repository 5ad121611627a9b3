-- ===== src/Tests/Sets.antt =====
-- Integer sets of internal/ds/intset.go at small inputs.
use monster_db.Prelude.{◌≡◌, refl, arith, some, List, [], ◌∷◌, not, if◌then◌else◌}
use monster_db.Prelude.Int.{ℤ, pos, negsuc}
use monster_db.Prelude.Bytes.{le_bytes}
use monster_db.Intset.{Intset, set}
use monster_db.Intset.Packed.{Represents, pack}
use monster_db.Intset.Members.{contains, insert}
use monster_db.Intset.Update.{set-insert}

abbrev pub three_members : List ℤ
three_members = negsuc 1 ∷ pos 3 ∷ pos 300 ∷ []

abbrev pub three_words : Intset
three_words = record { count = 3; content = 254 ∷ 255 ∷ 3 ∷ 0 ∷ 44 ∷ 1 ∷ [] }

pub three_words-Represents : Represents three_words three_members
unfolding pack le_bytes
three_words-Represents = record {
  content = refl;
  count = refl;
  sorted = ((omega arith, (omega arith, tt)), ((omega arith, tt), (tt, tt)));
  fit = (omega arith, (omega arith, (omega arith, tt)));
}

set-insert_example :
    (is : Intset) × (set (pos 5) three_words ≡ some (not (contains (pos 5) three_members), is))
    × Represents is
        (if contains (pos 5) three_members then three_members else insert (pos 5) three_members)
set-insert_example =
    set-insert (pos 5) three_members three_words three_words-Represents (omega arith)
