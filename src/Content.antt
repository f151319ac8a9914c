-- ===== src/Content.antt =====
-- What the checks of the content of an entity share, whatever its source: scraping/scraper.py, scraping/utils.py and
-- common/data.py. Instants are microseconds since the epoch, in UTC.
pub mod Reddit
pub mod Counts
pub mod X
pub mod Youtube
use Prim.Native.String.{count}
use custom_scraper.Prelude.{
  Bool, List, Option, String, [], arith, false, if◌then◌else◌, ltb, none, not, option_same,
  option_same_iff, refl, some, string_key, true, ℕ, ◌&&◌, ◌*◌, ◌/◌, ◌==◌, ◌||◌, ◌↔◌, ◌∷◌, ◌≡◌,
}

-- `ValidationResult`; each text of the source for a reason is a value of a data type.
pub record ValidationResult (Reason : Type 0) : Type 0 where
  pub is_valid : Bool
  pub reason : Reason
  pub content_size_bytes_validated : ℕ

-- `DataSource`
abbrev pub reddit_source : ℕ
reddit_source = 1

abbrev pub x_source : ℕ
x_source = 2

abbrev pub youtube_source : ℕ
youtube_source = 3

-- `DataEntity`
pub record DataEntity : Type 0 where
  pub uri : String
  pub datetime : ℕ
  pub source : ℕ
  pub label : Option String
  pub content : List ℕ
  pub content_size_bytes : ℕ

abbrev pub one_minute : ℕ
one_minute = 60000000

abbrev pub one_hour : ℕ
one_hour = 3600000000

abbrev pub one_day : ℕ
one_day = 86400000000

-- `obfuscate_datetime_to_minute`
unfoldable pub obfuscate_datetime_to_minute : ℕ → ℕ
obfuscate_datetime_to_minute datetime = datetime / one_minute * one_minute

-- The limit of the characters of a label.
abbrev pub max_label_length : ℕ
max_label_length = 140

-- `DataLabel(value=value)`, with `str.lower`; `none` is the error of the validation.
unfoldable pub data_label : (String → String) → String → Option String
data_label lower value =
    if ltb max_label_length (count value) || ltb max_label_length (count (lower value))
    then none
    else some (lower value)

-- `DataEntity.are_non_content_fields_equal`
unfoldable pub are_non_content_fields_equal : DataEntity → DataEntity → Bool
are_non_content_fields_equal this other =
    string_key.same this.uri other.uri
    && this.datetime == other.datetime
    && this.source == other.source
    && option_same this.label other.label

-- The same address, instant, source and label.
abbrev pub SameFields : DataEntity → DataEntity → Type 0
SameFields a b =
    (a.uri ≡ b.uri) × (a.datetime ≡ b.datetime) × (a.source ≡ b.source) × (a.label ≡ b.label)

pub are_non_content_fields_equal_lem :
    (a b : DataEntity) → (are_non_content_fields_equal a b ≡ true) ↔ SameFields a b
unfolding are_non_content_fields_equal
are_non_content_fields_equal_lem a b = (
  λ h. ground (arith, string_key.same_iff a.uri b.uri, option_same_iff a.label b.label),
  λ h. ground (arith, string_key.same_iff a.uri b.uri, option_same_iff a.label b.label),
)

-- `if media`
unfoldable pub has_media : Option (List String) → Bool
has_media none = false
has_media (some []) = false
has_media (some (_ ∷ _)) = true

-- `media`, or nothing.
unfoldable pub media_of : Option (List String) → List String
media_of none = []
media_of (some urls) = urls

unfoldable pub text_list_same : List String → List String → Bool
text_list_same [] [] = true
text_list_same (s ∷ ss) (t ∷ ts) = string_key.same s t && text_list_same ss ts
text_list_same _ _ = false

pub text_list_same_iff : (ss ts : List String) → (text_list_same ss ts ≡ true) ↔ (ss ≡ ts)
unfolding text_list_same
text_list_same_iff [] [] = (λ h. refl, λ h. refl)
text_list_same_iff [] (t ∷ ts) = (λ h. cc, λ h. cc)
text_list_same_iff (s ∷ ss) [] = (λ h. cc, λ h. cc)
text_list_same_iff (s ∷ ss) (t ∷ ts) =
    let (to, from) = text_list_same_iff ss ts in
    (
      λ h. ground (arith, string_key.same_iff s t, to),
      λ h. ground (arith, string_key.same_iff s t, from),
    )

module _ {Reason : Type 0} where
  -- The results of a check that fails and of one that passes, with the size that was claimed.
  unfoldable pub rejected : Reason → DataEntity → ValidationResult Reason
  rejected reason e = record {
    is_valid = false;
    reason = reason;
    content_size_bytes_validated = e.content_size_bytes;
  }

  unfoldable pub accepted : Reason → DataEntity → ValidationResult Reason
  accepted reason e = record {
    is_valid = true;
    reason = reason;
    content_size_bytes_validated = e.content_size_bytes;
  }

  -- A check that returns a result which is valid.
  abbrev pub passes : Option (ValidationResult Reason) → Bool
  passes none = false
  passes (some r) = r.is_valid

  -- `if b: return rejected`, and the rest.
  pub passes_if :
      (b : Bool) (reason : Reason) (e : DataEntity) (rest : Option (ValidationResult Reason))
      → (passes (if b then some (rejected reason e) else rest) ≡ true)
        ↔ ((b ≡ false) × (passes rest ≡ true))
  unfolding rejected
  passes_if true reason e rest = (λ h. cc, λ h. cc (h.0))
  passes_if false reason e rest = (λ h. (refl, h), λ h. h.1)

  -- `if not b: return rejected`, and the rest.
  pub passes_unless :
      (b : Bool) (reason : Reason) (e : DataEntity) (rest : Option (ValidationResult Reason))
      → (passes (if not b then some (rejected reason e) else rest) ≡ true)
        ↔ ((b ≡ true) × (passes rest ≡ true))
  unfolding rejected
  passes_unless true reason e rest = (λ h. (refl, h), λ h. h.1)
  passes_unless false reason e rest = (λ h. cc, λ h. cc (h.0))

  -- A problem is refused, and without one the rest is done.
  abbrev pub refused :
      Option Reason
      → DataEntity
      → Option (ValidationResult Reason)
      → Option (ValidationResult Reason)
  refused none e rest = rest
  refused (some reason) e rest = some (rejected reason e)

  pub passes-refused :
      (o : Option Reason) (e : DataEntity) (rest : Option (ValidationResult Reason))
      → (passes (refused o e rest) ≡ true) ↔ ((o ≡ none) × (passes rest ≡ true))
  unfolding rejected
  passes-refused none e rest = (λ h. (refl, h), λ h. h.1)
  passes-refused (some reason) e rest = (λ h. cc, λ h. cc (h.0))
