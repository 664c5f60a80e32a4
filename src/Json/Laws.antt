-- ===== src/Json/Laws.antt =====
-- Looking up a key after an insertion, and after a literal object is built.
use free_claude_desktop.Prelude.{
  String, ◌≡◌, refl, Option, none, some, arith, ◌==◌, eq_iff, eq_refl, if◌then◌else◌, ◌or_else◌,
}
use free_claude_desktop.Json.{Value, Fields, field, end, get_field, insert, set_some}

pub get_field-insert :
    (k j : String) (v : Value) (m : Fields)
    → get_field j (insert k v m) ≡ (if k == j then some v else get_field j m)
unfolding get_field insert
get_field-insert k j v end = refl
get_field-insert k j v (field i w m) =
    ground (arith, eq_iff k j, eq_iff i k, eq_iff k i, eq_iff i j, get_field-insert k j v m)

pub get_field-insert_self :
    (k : String) (v : Value) (m : Fields) → get_field k (insert k v m) ≡ some v
get_field-insert_self k v m = simp (get_field-insert, eq_refl)

pub get_field-set_some :
    (k j : String) (o : Option Value) (m : Fields)
    → get_field j (set_some k o m) ≡ (if k == j then o or_else get_field j m else get_field j m)
unfolding set_some
get_field-set_some k j none m = ground arith
get_field-set_some k j (some v) m = get_field-insert k j v m
