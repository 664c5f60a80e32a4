-- ===== src/Settings/Secrets/RoundTrip.antt =====
-- A key that is put into the keyring is read back from it.
use free_claude_desktop.Prelude.{
  String, ◌≡◌, refl, sym, ap, inl, inr, true, Bool-cases, Result-cases, Result, ok, err,
  ok-injective,
}
use free_claude_desktop.Prelude.Texts.{is_empty_text}
use free_claude_desktop.Settings.Secrets.{
  Vault, Keyring, protect_secret, unprotect_secret, stored, password,
}
use Prim.Native.String.{[], ◌∷◌}

empty : (s : String) → is_empty_text s ≡ true → s ≡ ""
empty [] h = refl
empty (c ∷ s) h = cc

module _ (keyring : Keyring) where
  -- What is relied on: the password that is set is the one that is got.
  abbrev pub KeepsPasswords : Type 0
  KeepsPasswords =
      (secret : String) (vault vault' : Vault)
      → keyring.set_password secret vault ≡ (ok tt, vault')
      → keyring.get_password vault' ≡ ok secret

  stored-ok :
      (r : Result Unit String × Vault) (text : String) (vault' : Vault)
      → stored keyring r ≡ (ok text, vault')
      → ("keyring:real_api_key" ≡ text) × (r ≡ (ok tt, vault'))
  stored-ok (ok u, v) text vault' h =
      (ok-injective (ap (λ p. p.0) h), ap (λ w. (ok tt, w)) (ap (λ p. p.1) h))
  stored-ok (err e, v) text vault' h = cc

  -- If the keyring gives the password that was set, then a key that is protected is what is read
  -- back from the text that stands for it.
  pub unprotect_secret-protect_secret :
      (secret : String) (vault : Vault) (text : String) (vault' : Vault)
      → KeepsPasswords
      → protect_secret keyring secret vault ≡ (ok text, vault')
      → unprotect_secret keyring text vault' ≡ ok secret
  unfolding protect_secret unprotect_secret
  unprotect_secret-protect_secret secret vault text vault' keeps h =
      elim (Bool-cases (is_empty_text secret)) [
        | inl nothing ↦
            let same : "" ≡ text = ok-injective (ap (λ p. p.0) (rw nothing at h)) in
            rw (← same) (ap ok (sym (empty secret nothing)))
        | inr some_key ↦ elim (Result-cases keyring.new_entry) [
          | inr (e, closed) ↦ cc (rw closed at (rw some_key at h))
          | inl (u, opened) ↦
              let (same, set) =
                stored-ok (keyring.set_password secret vault) text vault'
                  (rw opened at (rw some_key at h)) in
              rw (← same) (rw opened (ap (password keyring) (keeps secret vault vault' set)))
        ]
      ]
