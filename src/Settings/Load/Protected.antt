-- ===== src/Settings/Load/Protected.antt =====
-- The settings that are loaded hold no key, and loading them again changes nothing.
use free_claude_desktop.Prelude.{
  String, ◌≡◌, refl, sym, ap, ◌∙◌, ◌⊎◌, inl, inr, Bool, true, false, ◌||◌, Option, none, some,
  Bool-cases, Result-cases, arith, Result, ok, err,
}
use free_claude_desktop.Json.{Value}
use free_claude_desktop.AppError.{AppError}
use free_claude_desktop.Settings.{Settings}
use free_claude_desktop.Settings.Legacy.{is_protected_key}
use free_claude_desktop.Settings.Load.{
  File, Storage, parse_json_text, deserialize_settings_value, save_launcher_settings,
  load_launcher_settings, loaded, loaded_after, read_file, protected_settings,
  has_unprotected_api_key, written,
}

protected_lem : (s : Settings) → is_protected_key (protected_settings s).gateway.real_api_key ≡ true
protected_lem s = elim (Bool-cases (has_unprotected_api_key s)) [
  | inl open_key ↦ rw open_key refl
  | inr closed ↦ rw closed (ground arith)
]

closed :
    (s : Settings)
    → is_protected_key s.gateway.real_api_key ≡ true
    → has_unprotected_api_key s ≡ false
closed s key = ground arith

loaded_after-ok :
    (t s : Settings) (r : Result Unit AppError × File) (file : File)
    → loaded_after t r ≡ (ok (some s), file)
    → (s ≡ t) × (r ≡ (ok tt, file))
loaded_after-ok t s (ok u, f) file h = ground arith
loaded_after-ok t s (err e, f) file h = cc

module _ (storage : Storage) where
  -- What `loaded` gives where it gives settings.
  loaded-ok :
      (file : File) (r : Result (Settings × Bool) AppError) (s : Settings) (file' : File)
      → loaded storage file r ≡ (ok (some s), file')
      → (read : Settings) × (s ≡ protected_settings read)
        × ((file' ≡ file) ⊎ (save_launcher_settings storage s file ≡ (ok tt, file')))
  loaded-ok file (err e) s file' h = cc
  loaded-ok file (ok (read, migrated)) s file' h =
      elim (Bool-cases (migrated || has_unprotected_api_key read)) [
        | inl write ↦
            let (same, wrote) =
              loaded_after-ok (protected_settings read) s
                (save_launcher_settings storage (protected_settings read) file) file'
                (rw write at h) in
            (read, same, inr (rw same wrote))
        | inr keep ↦
            let kept : ◌≡◌ {A = Result (Option Settings) AppError × File}
                (ok (some (protected_settings read)), file) (ok (some s), file') =
              rw keep at h in
            (read, ground arith, inl (ground arith))
      ]

  load-cases :
      (file : File) (s : Settings) (file' : File)
      → load_launcher_settings storage file ≡ (ok (some s), file')
      → (read : Settings) × (s ≡ protected_settings read)
        × ((file' ≡ file) ⊎ (save_launcher_settings storage s file ≡ (ok tt, file')))
  unfolding load_launcher_settings
  load-cases none s file' h = cc
  load-cases (some text) s file' h =
      loaded-ok (some text) (read_file storage (storage.read_to_string text)) s file' h

  -- If the loading of the settings gives settings, then their key is empty or a reference into
  -- the keyring, and the file is as it was or what saving them made of it.
  pub load_launcher_settings-IsProtected :
      (file : File) (s : Settings) (file' : File)
      → load_launcher_settings storage file ≡ (ok (some s), file')
      → (is_protected_key s.gateway.real_api_key ≡ true)
        × ((file' ≡ file) ⊎ (save_launcher_settings storage s file ≡ (ok tt, file')))
  load_launcher_settings-IsProtected file s file' h =
      let (read, same, after) = load-cases file s file' h in
      (ap (λ x. is_protected_key x.gateway.real_api_key) same ∙ protected_lem read, after)

  -- What is relied on: a transaction that succeeds leaves the text in the file, the file reads as
  -- it is, and serde reads back the settings `s` when it printed them.
  pub record IsFaithful (s : Settings) : Type 0 where
    pub wrote :
        (text : String) (file file' : File)
        → storage.write_transaction text file ≡ (ok tt, file')
        → file' ≡ some text
    pub reads : (text : String) → storage.read_to_string text ≡ ok text
    pub read_back :
        (text : String)
        → storage.to_string_pretty s ≡ ok text
        → (v : Value) × (parse_json_text storage text ≡ ok v) × (storage.nested v ≡ ok s)

  written-ok :
      {s : Settings} (printed : Result String String) (file file' : File)
      → IsFaithful s
      → written storage file printed ≡ (ok tt, file')
      → (text : String) × (printed ≡ ok text) × (file' ≡ some text)
  written-ok (err e) file file' faithful h = cc
  written-ok (ok text) file file' faithful h = (text, refl, faithful.wrote text file file' h)

  saved-ok :
      (s : Settings) (file file' : File)
      → IsFaithful s
      → save_launcher_settings storage s file ≡ (ok tt, file')
      → (text : String) × (storage.to_string_pretty s ≡ ok text) × (file' ≡ some text)
  unfolding save_launcher_settings
  saved-ok s file file' faithful h = elim (Result-cases storage.create_dir_all) [
    | inl (u, made) ↦ written-ok (storage.to_string_pretty s) file file' faithful (rw made at h)
    | inr (e, failed) ↦ cc (rw failed at h)
  ]

  -- If a transaction that succeeds leaves its text in the file, the file reads as it is and serde
  -- reads back the settings that were loaded, then loading them again gives the same settings and
  -- changes nothing.
  pub load_launcher_settings-load :
      (file : File) (s : Settings) (file' : File)
      → IsFaithful s
      → load_launcher_settings storage file ≡ (ok (some s), file')
      → load_launcher_settings storage file' ≡ (ok (some s), file')
  unfolding load_launcher_settings deserialize_settings_value
  load_launcher_settings-load file s file' faithful h =
      let (key, after) = load_launcher_settings-IsProtected file s file' h in
      elim after [
        | inl same ↦ ap (load_launcher_settings storage) same ∙ h
        | inr stored ↦
            let (text, printed, there) = saved-ok s file file' faithful stored in
            let (v, parsed, back) = faithful.read_back text printed in
            ap (load_launcher_settings storage) there
            ∙ rw (faithful.reads text)
                (rw parsed (rw back (rw (closed s key) (ap (λ f. (ok (some s), f)) (sym there)))))
      ]
