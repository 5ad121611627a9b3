-- ===== src/Keyspace/Behind.antt =====
-- Changes of what is behind the pointer of a stored object, as the commands of
-- internal/store make them.
use monster_db.Prelude.{ℕ, ◌≡◌, refl, true, Option, none, some}
use monster_db.Prelude.Bytes.{Bytes}
use monster_db.Prelude.Dict.{lookup, insert, lookup-insert_self}
use monster_db.TypeString.{assert_type}
use monster_db.Keyspace.{Content, Obj, Db, Moment, touch}
use monster_db.Keyspace.Consistent.{IsConsistent, insert-IsConsistent}

-- What is behind the pointer of the object at a key has changed.
abbrev pub with_content : Content → Option Obj → Option Obj
with_content c none = none
with_content c (some obj) = some (record obj { content = c })

abbrev pub set_at : Bytes → Option Obj → Db → Db
set_at key none db = db
set_at key (some obj) db = record db { store = insert key obj db.store }

unfoldable pub update_content : Bytes → Content → Db → Db
update_content key c db = set_at key (with_content c (lookup key db.store)) db

pub update_content-lookup :
    (key : Bytes) (c : Content) (obj : Obj) (db : Db)
    → lookup key db.store ≡ some obj
    → (lookup key (update_content key c db).store ≡ some (record obj { content = c }))
      × ((update_content key c db).expires ≡ db.expires)
unfolding update_content
update_content-lookup key c obj db e =
    rw e (lookup-insert_self key (record obj { content = c }) db.store, refl)

set_at-IsConsistent :
    (key : Bytes) (o : Option Obj) (db : Db) → IsConsistent db → IsConsistent (set_at key o db)
set_at-IsConsistent key none db h = h
set_at-IsConsistent key (some obj) db h = insert-IsConsistent key obj db h

pub update_content-IsConsistent :
    (key : Bytes) (c : Content) (db : Db) → IsConsistent db → IsConsistent (update_content key c db)
unfolding update_content
update_content-IsConsistent key c db h =
    set_at-IsConsistent key (with_content c (lookup key db.store)) db h

-- The key holds an object of a type with this content.
pub record Holds (db : Db) (key : Bytes) (type : ℕ) (c : Content) : Type 0 where
  pub obj : Obj
  pub found : lookup key db.store ≡ some obj
  pub is_type : assert_type obj.type_encoding type ≡ true
  pub content : obj.content ≡ c

-- The keyspace after a read of the key.
abbrev pub touched : Moment → Bytes → Obj → Db → Db
touched m key obj db = record db { store = insert key (touch m obj) db.store }

pub touched-Holds :
    (m : Moment) (key : Bytes) (type : ℕ) (c : Content) (db : Db) (h : Holds db key type c)
    → Holds (touched m key h.obj db) key type c
unfolding touch
touched-Holds m key type c db h = record {
  obj = touch m h.obj;
  found = lookup-insert_self key (touch m h.obj) db.store;
  is_type = h.is_type;
  content = h.content;
}

pub changed-Holds :
    (key : Bytes) (type : ℕ) (c c' : Content) (db : Db)
    → Holds db key type c
    → Holds (update_content key c' db) key type c'
      × ((update_content key c' db).expires ≡ db.expires)
changed-Holds key type c c' db h =
    let (found, expires) = update_content-lookup key c' h.obj db h.found in
    (
      record {
        obj = record (h.obj) { content = c' };
        found = found;
        is_type = h.is_type;
        content = refl;
      },
      expires,
    )
