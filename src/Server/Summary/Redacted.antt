-- ===== src/Server/Summary/Redacted.antt =====
-- What the log keeps of an address.
use Prim.Native.Char.{Char, code}
use Prim.Native.String.{[], ◌∷◌, ◌++◌}
use Prim.Native.String.append
use free_claude_desktop.Prelude.{
  String, ◌≡◌, refl, sym, ap, ◌∙◌, inl, inr, Bool, true, not, ◌||◌, eqb, Bool-cases,
}
use free_claude_desktop.Prelude.Texts.{before_any, all_chars}
use free_claude_desktop.Server.Summary.{redacted_url}

-- The marks of a query and of a fragment.
abbrev pub is_mark : Char → Bool
is_mark c = eqb (code c) b'?' || eqb (code c) b'#'

-- The front part of an address up to the first mark, which is all of it where it has none.
pub data IsFront (url : String) (front : String) : Type 0 where
  whole : front ≡ url → IsFront url front
  cut :
      (c : Char) (rest : String) → is_mark c ≡ true → url ≡ front ++ (c ∷ rest) → IsFront url front

IsFront-cons : (c : Char) (url front : String) → IsFront url front → IsFront (c ∷ url) (c ∷ front)
IsFront-cons c url front (whole e) = whole (ap (λ s. c ∷ s) e)
IsFront-cons c url front (cut d rest mark e) =
    cut d rest mark (ap (λ s. c ∷ s) e ∙ sym (append.cons c front (d ∷ rest)))

-- The address that is logged has neither ? nor #, and is the whole address, or what stands in
-- front of one of them in it.
pub redacted_url-IsFront :
    (url : String)
    → (all_chars (λ c. not (is_mark c)) (redacted_url url) ≡ true) × IsFront url (redacted_url url)
unfolding redacted_url before_any
redacted_url-IsFront [] = (refl, whole refl)
redacted_url-IsFront (c ∷ url) = elim (Bool-cases (is_mark c)) [
  | inl mark ↦ rw mark (refl, cut c url mark (sym (append.nil (c ∷ url))))
  | inr plain ↦
      let (clean, front) = redacted_url-IsFront url in
      rw plain (rw plain clean, IsFront-cons c url (redacted_url url) front)
]
