-- ===== src/Tests/Strings.antt =====
-- Entries of internal/ds/listpack.go at small inputs.
use monster_db.Prelude.{◌≡◌, refl, [], ◌∷◌, ◌++◌}
use monster_db.Prelude.Bytes.{Bytes}
use monster_db.Listpack.{Listpack, set_meta, end_byte}
use monster_db.Listpack.Splice.{insert, behind, insert-behind}

-- A listpack with one entry and no spare capacity.
abbrev full : Listpack
full = record { content = 9 ∷ 0 ∷ 0 ∷ 0 ∷ 1 ∷ 0 ∷ 1 ∷ 5 ∷ end_byte ∷ []; spare = [] }

insert-behind_example :
    (spare : Bytes) × (insert 6 (1 ∷ 4 ∷ []) full
      ≡ set_meta 1 (record {
        content =
            (9 ∷ 0 ∷ 0 ∷ 0 ∷ 1 ∷ 0 ∷ [])
            ++ ((1 ∷ 4 ∷ []) ++ behind (1 ∷ 4 ∷ []) (1 ∷ 5 ∷ end_byte ∷ []) full);
        spare = spare;
      }))
insert-behind_example =
    insert-behind (9 ∷ 0 ∷ 0 ∷ 0 ∷ 1 ∷ 0 ∷ []) (1 ∷ 5 ∷ end_byte ∷ []) (1 ∷ 4 ∷ []) full refl
