-- ===== src/Settings/Secrets.antt =====
-- core/src/platform/crypto.rs: the key of the gateway is kept in the keyring of the operating
-- system. Keyring holds what is called of the crate keyring; `Vault` is the entry's password.
pub mod RoundTrip
mod Tests
use text.Mathlib.Text.{starts_with}
use free_claude_desktop.Prelude.{
  String, Bool, true, false, ◌≡◌, refl, sym, ap, ◌∙◌, Option, none, some, [], ◌∷◌, ◌==◌,
  if◌then◌else◌, Result, ok, err,
}
use free_claude_desktop.Prelude.Texts.{concat, is_empty_text}
use free_claude_desktop.AppError.{AppError, crypto}

abbrev keyring_prefix : String
keyring_prefix = "keyring:"

abbrev keyring_user : String
keyring_user = "real_api_key"

abbrev pub Vault : Type 0
Vault = Option String

-- An error of the crate: that there is no entry, or another one.
pub data KeyringError : Type 0 where
  no_entry : KeyringError
  other : String → KeyringError

pub record Keyring : Type 0 where
  pub new_entry : Result Unit String
  pub set_password : String → Vault → Result Unit String × Vault
  pub get_password : Vault → Result String String
  pub delete_credential : Vault → Result Unit KeyringError × Vault

module _ (keyring : Keyring) where
  open keyring use {new_entry, set_password, get_password, delete_credential}

  abbrev deleted : Result Unit KeyringError × Vault → Result Unit AppError × Vault
  deleted (ok _, vault) = (ok tt, vault)
  deleted (err no_entry, vault) = (ok tt, vault)
  deleted (err (other e), vault) = (err (crypto e), vault)

  abbrev delete_from : Vault → Result Unit String → Result Unit AppError × Vault
  delete_from vault (err e) = (ok tt, vault)
  delete_from vault (ok _) = deleted (delete_credential vault)

  unfoldable pub delete_stored_secret : Vault → Result Unit AppError × Vault
  delete_stored_secret vault = delete_from vault new_entry

  abbrev pub stored : Result Unit String × Vault → Result String AppError × Vault
  stored (ok _, vault) = (ok (concat (keyring_prefix ∷ keyring_user ∷ [])), vault)
  stored (err e, vault) = (err (crypto e), vault)

  abbrev store_in : String → Vault → Result Unit String → Result String AppError × Vault
  store_in secret vault (err e) = (err (crypto e), vault)
  store_in secret vault (ok _) = stored (set_password secret vault)

  unfoldable pub protect_secret : String → Vault → Result String AppError × Vault
  protect_secret secret vault =
      if is_empty_text secret then (ok "", vault) else store_in secret vault new_entry

  abbrev pub password : Result String String → Result String AppError
  password (ok secret) = ok secret
  password (err e) = err (crypto e)

  abbrev read_from : Vault → Result Unit String → Result String AppError
  read_from vault (err e) = err (crypto e)
  read_from vault (ok _) = password (get_password vault)

  unfoldable pub unprotect_secret : String → Vault → Result String AppError
  unprotect_secret stored_text vault =
      if is_empty_text stored_text
      then ok ""
      else if starts_with stored_text keyring_prefix
      then read_from vault new_entry
      else err (crypto "Unsupported API key storage format")
