-- ===== src/Settings/Insert.antt =====
-- What is found in a hash map after insertions.
use free_claude_desktop.Prelude.{
  String, ◌≡◌, ◌≢◌, refl, sym, subst, Bool, keep, none, ◌∙◌, ◌↔◌, inl, inr, some, [], ◌∷◌, arith,
  ◌==◌, eq_iff, Bool-cases, true, false, eq_refl, ap, if◌then◌else◌, ◌⊎◌, All,
}
use free_claude_desktop.Prelude.Members.{Member}
use free_claude_desktop.Settings.{HashMap, HasDistinctKeys, get_key, put_key, collect_map}

module _ {V : Type 0} where
  pub get_key-put_key_same :
      (k : String) (v : V) (m : HashMap V) → get_key k (put_key k v m) ≡ some v
  unfolding get_key put_key
  get_key-put_key_same k v [] = rw (eq_refl k) refl
  get_key-put_key_same k v ((j, w) ∷ m) = elim (Bool-cases (j == k)) [
    | inl here ↦ rw (here, eq_refl k) refl
    | inr later ↦ rw (later, later) (get_key-put_key_same k v m)
  ]

  pub get_key-put_key_other :
      (k j : String) (v : V) (m : HashMap V)
      → (j == k) ≡ false
      → get_key k (put_key j v m) ≡ get_key k m
  unfolding get_key put_key
  get_key-put_key_other k j v [] h = rw h refl
  get_key-put_key_other k j v ((i, w) ∷ m) h = elim (Bool-cases (i == j)) [
    | inl here ↦ let e : (i == k) ≡ false = ground (arith, eq_iff i j) in rw (here, h, e) refl
    | inr later ↦ elim (Bool-cases (i == k)) [
      | inl found ↦ rw (later, found) refl
      | inr other ↦ rw (later, other) (get_key-put_key_other k j v m h)
    ]
  ]

  collect_map-other :
      (k : String) (pairs m : HashMap V)
      → All (λ e. e.0 ≢ k) pairs
      → get_key k (collect_map pairs m) ≡ get_key k m
  unfolding collect_map
  collect_map-other k [] m h = refl
  collect_map-other k ((j, v) ∷ pairs) m h =
      collect_map-other k pairs (put_key j v m) h.1
      ∙ get_key-put_key_other k j v m (ground (arith, eq_iff j k, h.0))

  collect_map-same :
      (k : String) (v : V) (pairs m : HashMap V)
      → HasDistinctKeys pairs
      → Member {A = String × V} (k, v) pairs
      → get_key k (collect_map pairs m) ≡ some v
  unfolding collect_map
  collect_map-same k v [] m d h = elim h [ ]
  collect_map-same k v ((j, w) ∷ pairs) m d (inl e) =
      let key : k ≡ j = ap (λ p. p.0) e in
      let value : v ≡ w = ap (λ p. p.1) e in
      collect_map-other k pairs (put_key j w m)
        (subst (λ x. All (λ e. e.0 ≢ x) pairs) (sym key) d.0)
      ∙ subst (λ x. get_key x (put_key j w m) ≡ some v) (sym key)
          (get_key-put_key_same j w m ∙ ap some (sym value))
  collect_map-same k v ((j, w) ∷ pairs) m d (inr later) =
      collect_map-same k v pairs (put_key j w m) d.1 later

  collect_map-Member :
      (k : String) (v : V) (pairs m : HashMap V)
      → get_key k (collect_map pairs m) ≡ some v
      → Member {A = String × V} (k, v) pairs ⊎ (get_key k m ≡ some v)
  unfolding collect_map
  collect_map-Member k v [] m h = inr h
  collect_map-Member k v ((j, w) ∷ pairs) m h =
      elim (collect_map-Member k v pairs (put_key j w m) h) [
        | inl later ↦ inl (inr later)
        | inr placed ↦ elim (Bool-cases (j == k)) [
          | inl here ↦
              let key = (eq_iff j k).0 here in
              let value = get_key-put_key_same j w m in
              inl (
                inl
                  (ground (arith, key, subst (λ x. get_key x (put_key j w m) ≡ some w) key value)))
          | inr other ↦ inr (sym (get_key-put_key_other k j w m other) ∙ placed)
        ]
      ]

  pub found_in :
      (k : String) (v : V) (pairs : HashMap V)
      → get_key k (collect_map pairs []) ≡ some v
      → Member {A = String × V} (k, v) pairs
  unfolding get_key
  found_in k v pairs h = elim (collect_map-Member k v pairs [] h) [
    | inl m ↦ m
    | inr none_there ↦ cc
  ]

  pub collect_map_iff :
      (k : String) (v : V) (pairs : HashMap V)
      → HasDistinctKeys pairs
      → (get_key k (collect_map pairs []) ≡ some v) ↔ Member {A = String × V} (k, v) pairs
  collect_map_iff k v pairs d = (found_in k v pairs, collect_map-same k v pairs [] d)

  -- What is found after `retain` by a test of the keys.
  pub get_key-keep :
      (p : String → Bool) (k : String) (m : HashMap V)
      → get_key k (keep (λ e. p e.0) m) ≡ (if p k then get_key k m else none)
  unfolding get_key
  get_key-keep p k [] = elim (Bool-cases (p k)) [ inl t ↦ rw t refl | inr f ↦ rw f refl ]
  get_key-keep p k ((j, w) ∷ m) = elim (Bool-cases (p j)) [
    | inl stays ↦ elim (Bool-cases (j == k)) [
      | inl here ↦
          let t : p k ≡ true = ap p (sym ((eq_iff j k).0 here)) ∙ stays in rw (stays, here, t) refl
      | inr other ↦ rw (stays, other) (get_key-keep p k m)
    ]
    | inr goes ↦ elim (Bool-cases (j == k)) [
      | inl here ↦
          let f : p k ≡ false = ap p (sym ((eq_iff j k).0 here)) ∙ goes in
          rw (goes, f) (get_key-keep p k m ∙ rw f refl)
      | inr other ↦ rw (goes, other) (get_key-keep p k m)
    ]
  ]
