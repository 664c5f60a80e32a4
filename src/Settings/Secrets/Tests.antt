-- ===== src/Settings/Secrets/Tests.antt =====
-- A key is stored and read back.
use free_claude_desktop.Prelude.{String, ◌≡◌, refl, sym, ap, none, some, Result, ok, err}
use free_claude_desktop.Settings.Secrets.{Vault, Keyring, protect_secret, unprotect_secret}
use free_claude_desktop.Settings.Secrets.RoundTrip.{KeepsPasswords, unprotect_secret-protect_secret}

got : Vault → Result String String
got none = err "no entry"
got (some secret) = ok secret

abbrev keyring : Keyring
keyring = record {
  new_entry = ok tt;
  set_password = λ secret vault. (ok tt, some secret);
  get_password = got;
  delete_credential = λ vault. (ok tt, none);
}

keyring-KeepsPasswords : KeepsPasswords keyring
unfolding got
keyring-KeepsPasswords secret vault vault' h = ap got (sym (ap (λ p. p.1) h))

kept : protect_secret keyring "a key" none ≡ (ok "keyring:real_api_key", some "a key")
unfolding protect_secret
kept = refl

unprotect_secret-protect_secret_example :
    unprotect_secret keyring "keyring:real_api_key" (some "a key") ≡ ok "a key"
unprotect_secret-protect_secret_example =
    unprotect_secret-protect_secret keyring "a key" none "keyring:real_api_key" (some "a key")
      keyring-KeepsPasswords kept
