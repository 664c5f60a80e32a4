-- ===== src/Settings/Maps.antt =====
-- Two association lists for one hash map: the same keys and values, in any order.
use free_claude_desktop.Prelude.{
  String, ◌≡◌, ◌≢◌, sym, ◌∙◌, inl, inr, some, [], ◌∷◌, arith, ◌==◌, eq_iff, Bool-cases,
}
use free_claude_desktop.Prelude.Members.{Member, All-Member}
use free_claude_desktop.Settings.{HashMap, HasDistinctKeys, get_key}

module _ {V : Type 0} where
  pub get_key-Member :
      (m : HashMap V) (k : String) (v : V) → get_key k m ≡ some v → Member {A = String × V} (k, v) m
  unfolding get_key
  get_key-Member [] k v h = cc
  get_key-Member ((j, w) ∷ m) k v h = elim (Bool-cases (j == k)) [
    | inl here ↦ inl (ground (arith, eq_iff j k))
    | inr later ↦ inr (get_key-Member m k v (ground arith))
  ]

  pub get_key_of_Member :
      (m : HashMap V) (k : String) (v : V)
      → HasDistinctKeys m
      → Member {A = String × V} (k, v) m
      → get_key k m ≡ some v
  unfolding get_key
  get_key_of_Member [] k v d h = elim h [ ]
  get_key_of_Member ((j, w) ∷ m) k v d (inl e) = ground (arith, eq_iff j k)
  get_key_of_Member ((j, w) ∷ m) k v d (inr later) =
      let fresh : k ≢ j = All-Member _ m d.0 later in
      ground (arith, eq_iff j k, get_key_of_Member m k v d.1 later)

  -- Equality of hash maps.
  abbrev pub SameMap : HashMap V → HashMap V → Type 0
  SameMap m m' = (k : String) → get_key k m ≡ get_key k m'

  pub Member-SameMap :
      (m m' : HashMap V) (k : String) (v : V)
      → HasDistinctKeys m
      → SameMap m m'
      → Member {A = String × V} (k, v) m
      → Member {A = String × V} (k, v) m'
  Member-SameMap m m' k v d same h =
      get_key-Member m' k v (sym (same k) ∙ get_key_of_Member m k v d h)
