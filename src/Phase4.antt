-- ===== src/Phase4.antt =====
-- Phone numbers, names, consent and channels before staging: multi-messaging-platform/core_engine/
-- services/phase4_utils.py, with `normalize_persian_digits` of pricing_scraper.py. None stands for
-- the `ValueError`. White space and `\D` are those of ASCII.
pub mod Phones
pub mod Consents
use Prim.Native.Char.{code}
use senderplatformtest.Prelude.{
  ℕ, zero, suc, ◌-◌, Bool, true, false, not, ◌&&◌, ◌||◌, Option, none, some, String, leb, ◌==◌,
  if◌then◌else◌, str_eq, length,
}
use senderplatformtest.Prelude.Text.{Text, codes, is_digit, lower, strip, text_eq, starts_with}
use senderplatformtest.Validation.{strip_string, is_blank, digit}
use senderplatformtest.Baileys.{QueuePayload}

-- a + b, of texts
unfoldable pub plus : String → String → String
plus String.[] t = t
plus (String.◌∷◌ c s) t = String.◌∷◌ c (plus s t)

unfoldable pub filter_string : (ℕ → Bool) → String → String
filter_string keep String.[] = String.[]
filter_string keep (String.◌∷◌ c s) =
    let rest = filter_string keep s in if keep (code c) then String.◌∷◌ c rest else rest

-- s[n:]
unfoldable pub drop_string : ℕ → String → String
drop_string zero s = s
drop_string (suc n) String.[] = String.[]
drop_string (suc n) (String.◌∷◌ c s) = drop_string n s

-- `normalize_persian_digits`: the ten Persian and the ten Arabic digits
unfoldable pub normalize_persian_digits : String → String
unfolding plus
normalize_persian_digits String.[] = String.[]
normalize_persian_digits (String.◌∷◌ c s) =
    let rest = normalize_persian_digits s in
    if leb 1776 (code c) && leb (code c) 1785
    then plus (digit (code c - 1776)) rest
    else if leb 1632 (code c) && leb (code c) 1641
    then plus (digit (code c - 1632)) rest
    else String.◌∷◌ c rest

-- re.sub(r"\D", "", s)
unfoldable pub digits_of : String → String
unfolding filter_string
digits_of = filter_string is_digit

-- neither a blank, a hyphen nor a bracket
unfoldable pub is_kept : ℕ → Bool
is_kept c = not (c == 32 || (c == 45 || (c == 40 || c == 41)))

unfoldable pub string_starts_with : String → String → Bool
string_starts_with prefix s = starts_with (codes prefix) (codes s)

-- `_looks_like_iranian_mobile_with_leading_zero`
unfoldable pub looks_like_iranian_mobile_with_leading_zero : String → Bool
looks_like_iranian_mobile_with_leading_zero value =
    let digits = digits_of value in length (codes digits) == 11 && string_starts_with "09" digits

-- `normalize_phone` after the separators are taken out
unfoldable pub normalize_text : String → Option String
normalize_text text =
    let digits = digits_of text in
    if str_eq text ""
    then none
    else if string_starts_with "0098" text
    then some (plus "+98" (drop_string 4 text))
    else if string_starts_with "+" text
    then some (plus "+" (digits_of (drop_string 1 text)))
    else if string_starts_with "98" text
    then some (plus "+98" (digits_of (drop_string 2 text)))
    else if string_starts_with "0" text && looks_like_iranian_mobile_with_leading_zero text
    then some (plus "+98" (digits_of (drop_string 1 text)))
    else if string_starts_with "9" digits && length (codes digits) == 10
    then some (plus "+98" digits)
    else if str_eq digits ""
    then none
    else some (plus "+" digits)

unfoldable pub without_separators : String → String
without_separators phone = filter_string is_kept (normalize_persian_digits (strip_string phone))

unfoldable pub normalize_phone : String → Option String
normalize_phone phone = if is_blank phone then none else normalize_text (without_separators phone)

or_empty : Option String → String
or_empty none = ""
or_empty (some s) = s

unfoldable pub build_full_name : Option String → Option String → Option String
unfolding or_empty
build_full_name first_name last_name =
    let first = strip_string (or_empty first_name) in
    let last = strip_string (or_empty last_name) in
    if str_eq first "" && str_eq last ""
    then none
    else if not (str_eq first "") && not (str_eq last "")
    then some (plus first (plus " " last))
    else if str_eq first ""
    then some last
    else some first

pub data Consent : Type 0 where
  allowed : Consent
  blocked : Consent
  unknown : Consent

-- The entries of _LEGACY_CONSENT_MAP.
unfoldable pub legacy_consent_map : Text → Option Consent
legacy_consent_map value =
    if text_eq value (codes "opted_in") || text_eq value (codes "allowed")
    then some allowed
    else if text_eq value (codes "opted_out") || text_eq value (codes "blocked")
    then some blocked
    else if text_eq value (codes "unknown")
    then some unknown
    else none

unfoldable pub normalize_consent_status : Option String → Option Consent
normalize_consent_status none = some unknown
normalize_consent_status (some value) =
    if is_blank value then some unknown else legacy_consent_map (lower (strip (codes value)))

is_allowed : Consent → Bool
is_allowed allowed = true
is_allowed blocked = false
is_allowed unknown = false

unfoldable pub is_consent_allowed : String → Option Bool
unfolding is_allowed
is_consent_allowed value = elim (normalize_consent_status (some value)) [
  | none ↦ none
  | some status ↦ some (is_allowed status)
]

pub data Channel : Type 0 where
  whatsapp : Channel
  telegram : Channel
  rubika : Channel
  bale : Channel

unfoldable pub channel_name : Channel → String
channel_name whatsapp = "whatsapp"
channel_name telegram = "telegram"
channel_name rubika = "rubika"
channel_name bale = "bale"

unfoldable pub validate_campaign_channel : String → Option Channel
validate_campaign_channel channel =
    let normalized = lower (strip (codes channel)) in
    if is_blank channel
    then none
    else if text_eq normalized (codes "whatsapp")
    then some whatsapp
    else if text_eq normalized (codes "telegram")
    then some telegram
    else if text_eq normalized (codes "rubika")
    then some rubika
    else if text_eq normalized (codes "bale")
    then some bale
    else none

-- `build_staged_queue_payload`, less its notes; the channel comes first, then the phone.
unfoldable pub build_staged_queue_payload :
    ℕ → ℕ → Option ℕ → String → String → Option String → String → Option QueuePayload
build_staged_queue_payload campaign_id contact_id rendered_message_id channel phone channel_handle
      final_text =
    elim (validate_campaign_channel channel) [
      | none ↦ none
      | some valid ↦ elim (normalize_phone phone) [
        | none ↦ none
        | some normalized ↦ some (record {
          campaign_id = campaign_id;
          contact_id = contact_id;
          rendered_message_id = rendered_message_id;
          channel = channel_name valid;
          phone = normalized;
          channel_handle = channel_handle;
          final_text = final_text;
          account_id = none;
        })
      ]
    ]
