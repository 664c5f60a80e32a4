-- ===== src/Request/Images/Supported.antt =====
-- The images that `tool_result_image` can convert, described by what the block must hold.
use free_claude_desktop.Prelude.{
  String, ◌≡◌, refl, sym, ap, ◌∙◌, ◌⊎◌, inl, inr, ◌↔◌, Bool, true, false, ◌==◌, Option, none, some,
  [], ◌∷◌, eq_iff, if-elim, or-cases, and_then, ◌or_else◌, ◌||◌, arith, not, ◌&&◌, is_some,
  unwrap_or, and_then-eq-some, Bool-cases, if◌then◌else◌,
}
use free_claude_desktop.Prelude.Texts.{concat}
use free_claude_desktop.Json.{Value, get, get_str, as_str}
use free_claude_desktop.Claude.{}
use free_claude_desktop.Request.Images.{
  has_text, is_image, image_url, image_source_url, tool_result_image,
}

-- The media type stands under `media_type`, or under `mimeType` where the first is missing.
abbrev pub HasMedia : Value → String → Type 0
HasMedia source media =
    (get_str "media_type" source ≡ some media)
    ⊎ ((get "media_type" source ≡ none) × (get_str "mimeType" source ≡ some media))

-- The address that a source stands for: the one it names, or its data written as an address.
pub data HasUrl (source : Value) (url : String) : Type 0 where
  link : get_str "type" source ≡ some "url" → get_str "url" source ≡ some url → HasUrl source url
  inline :
      (kind media content : String)
      → get_str "type" source ≡ some kind
      → (kind ≡ "base64") ⊎ (kind ≡ "image")
      → HasMedia source media
      → get_str "data" source ≡ some content
      → url ≡ concat ("data:" ∷ media ∷ ";base64," ∷ content ∷ [])
      → HasUrl source url

-- The image of a content block, whose source is the block itself where it names no other.
abbrev pub Shows : Value → String → Type 0
Shows block url = HasUrl (unwrap_or block (get "source" block)) url

abbrev pub IsImage : Value → Type 0
IsImage block = get_str "type" block ≡ some "image"

-- A block that is no image, or an image with an address.
pub data IsSupported (block : Value) : Type 0 where
  other : ¬ IsImage block → IsSupported block
  image : (url : String) → Shows block url → IsSupported block

abbrev is_text : String → Option String → Bool
is_text text o = elim o [ none ↦ false | some s ↦ s == text ]

is_text_iff : (text : String) (o : Option String) → (is_text text o ≡ true) ↔ (o ≡ some text)
is_text_iff text none = (λ h. cc, λ h. cc)
is_text_iff text (some s) =
    (λ h. ap (λ (t : String). some t) ((eq_iff s text).0 h), λ h. (eq_iff s text).1 cc)

pub has_text_iff :
    (key text : String) (v : Value) → (has_text key text v ≡ true) ↔ (get_str key v ≡ some text)
has_text_iff key text v = is_text_iff text (get_str key v)

media_iff :
    (first second : Option Value) (media : String)
    → (and_then (first or_else second) as_str ≡ some media)
      ↔ (and_then first as_str ≡ some media)
        ⊎ ((first ≡ none) × (and_then second as_str ≡ some media))
media_iff none second media = (λ h. inr (refl, h), elim [ inl h ↦ cc | inr (e, h) ↦ h ])
media_iff (some v) second media = (λ h. inl h, elim [ inl h ↦ h | inr (e, h) ↦ cc ])

url_of : {made url : String} → ◌≡◌ {A = Option String} (some made) (some url) → url ≡ made
url_of h = cc

media-HasMedia :
    (source : Value) (media : String)
    → (and_then (get "media_type" source or_else get "mimeType" source) as_str ≡ some media)
      ↔ HasMedia source media
unfolding get_str
media-HasMedia source media = media_iff (get "media_type" source) (get "mimeType" source) media

abbrev data_url : String → String → Option String
data_url media content = some (concat ("data:" ∷ media ∷ ";base64," ∷ content ∷ []))

abbrev inlined_url : Value → String → Option String
inlined_url source media = and_then (get_str "data" source) (data_url media)

image_source_url-HasUrl :
    (source : Value) (url : String) → image_source_url source ≡ some url → HasUrl source url
unfolding image_source_url
image_source_url-HasUrl source url =
    if-elim (λ o. o ≡ some url → HasUrl source url) (has_text "type" "url" source)
      (λ named h. link ((has_text_iff "type" "url" source).0 named) h)
      (λ _.
        if-elim (λ o. o ≡ some url → HasUrl source url)
          (has_text "type" "base64" source || has_text "type" "image" source)
          (λ kind h.
            let (media, given, rest) =
              and_then-eq-some
                (and_then (get "media_type" source or_else get "mimeType" source) as_str)
                (inlined_url source) h in
            let (content, found, last) =
              and_then-eq-some (get_str "data" source) (data_url media) rest in
            let typed = (media-HasMedia source media).0 given in
            elim (or-cases _ _ kind) [
              | inl base64 ↦
                  inline "base64" media content ((has_text_iff "type" "base64" source).0 base64)
                    (inl refl) typed found (url_of last)
              | inr block ↦
                  inline "image" media content ((has_text_iff "type" "image" source).0 block)
                    (inr refl) typed found (url_of last)
            ])
          (λ _ h. cc))

if-of : {b : Bool} {x : Option String} (y : Option String) → b ≡ true → (if b then x else y) ≡ x
if-of y h = ground arith

if-not : {b : Bool} (x : Option String) {y : Option String} → b ≡ false → (if b then x else y) ≡ y
if-not x h = ground arith

and_then-of :
    {A : Type 0} {o : Option A} {a : A} (f : A → Option String) → o ≡ some a → and_then o f ≡ f a
and_then-of f e = ap (λ o. and_then o f) e

module _ (source : Value) where
  data_type-inline :
      (kind : String)
      → (kind ≡ "base64") ⊎ (kind ≡ "image")
      → get_str "type" source ≡ some kind
      → (has_text "type" "url" source ≡ false)
        × ((has_text "type" "base64" source || has_text "type" "image" source) ≡ true)
  data_type-inline kind (inl e) t =
      let u = t ∙ ap (λ (k : String). some k) e in
      (ap (is_text "url") u, ap (λ o. is_text "base64" o || is_text "image" o) u)
  data_type-inline kind (inr e) t =
      let u = t ∙ ap (λ (k : String). some k) e in
      (ap (is_text "url") u, ap (λ o. is_text "base64" o || is_text "image" o) u)

  pub HasUrl-image_source_url :
      (url : String) → HasUrl source url → image_source_url source ≡ some url
  unfolding image_source_url
  HasUrl-image_source_url url (link named h) =
      if-of _ ((has_text_iff "type" "url" source).1 named) ∙ h
  HasUrl-image_source_url url (inline kind media content t k m c e) =
      let (not_url, inlined) = data_type-inline kind k t in
      if-not _ not_url
      ∙ if-of _ inlined
      ∙ and_then-of _ ((media-HasMedia source media).1 m)
      ∙ and_then-of _ c
      ∙ ap (λ (u : String). some u) (sym e)

module _ (make : String → Value) where
  converted_of :
      {image_block : Bool} (found : Option String)
      → (image_block && not (is_some (and_then found (λ url. some (make url))))) ≡ false
      → image_block ≡ true
      → (url : String) × (found ≡ some url)
  converted_of none h e = cc
  converted_of (some url) h e = (url, refl)

  unconverted_of :
      {found : Option String} (image_block : Bool) {url : String}
      → found ≡ some url
      → (image_block && not (is_some (and_then found (λ url. some (make url))))) ≡ false
  unconverted_of true e = ap (λ o. not (is_some (and_then o (λ url. some (make url))))) e
  unconverted_of false e = refl

module _ (block : Value) where
  pub unsupported-IsSupported :
      (is_image block && not (is_some (tool_result_image block))) ≡ false → IsSupported block
  unfolding tool_result_image
  unsupported-IsSupported h = elim (Bool-cases (is_image block)) [
    | inr differs ↦ other (λ h. ground (arith, (has_text_iff "type" "image" block).1 h))
    | inl image_block ↦
        let (url, found) =
          converted_of image_url (image_source_url (unwrap_or block (get "source" block))) h
            image_block in
        image url (image_source_url-HasUrl _ url found)
  ]

  pub IsSupported-unsupported :
      IsSupported block → (is_image block && not (is_some (tool_result_image block))) ≡ false
  unfolding tool_result_image
  IsSupported-unsupported (other differs) = elim (Bool-cases (is_image block)) [
    | inl image_block ↦ elim (differs ((has_text_iff "type" "image" block).0 image_block)) [ ]
    | inr differs_too ↦ ground arith
  ]
  IsSupported-unsupported (image url shows) =
      unconverted_of image_url (is_image block) (HasUrl-image_source_url _ url shows)
