-- ===== src/Rendering.antt =====
-- The texts of messages before they are queued: multi-messaging-platform/core_engine/services/
-- message_render.py. The pricing snapshot, the context and the generation by a language model are
-- arguments. A message has the keys of PersonalizedMessageOutput; a key of its dict that is missing
-- is none.
pub mod Checking
pub mod Saving
pub mod Ready
pub mod Warnings
use Prim.Native.String.{◌++◌}
use senderplatformtest.Prelude.{
  ℕ, zero, suc, ◌+◌, ◌-◌, Bool, true, false, not, ◌&&◌, ◌||◌, Option, none, some, List, [], ◌∷◌,
  String, ltb, if◌then◌else◌, str_eq, length, map,
}
use senderplatformtest.Prelude.Text.{Text, codes, starts_with}
use senderplatformtest.Validation.{or_text, is_given, strip_string, str}

pub record Product : Type 0 where
  pub title : Option String
  pub brand : Option String
  pub model : Option String

pub record ProductContext : Type 0 where
  pub enabled : Bool
  pub products : List Product
  pub warning : Option String

pub record RenderedMessagePayload : Type 0 where
  pub greeting : Option String
  pub body : Option String
  pub cta : Option String
  pub product_block : Option String
  pub final_text : Option String
  pub warnings : List String

-- s.count(sub), of a sub that is not empty: `skip` points of a match are still to be passed
unfoldable pub count_from : Text → ℕ → Text → ℕ
count_from sub skip [] = 0
count_from sub (suc skip) (c ∷ s) = count_from sub skip s
count_from sub zero (c ∷ s) =
    let behind = count_from sub (length sub - 1) s in
    let next = count_from sub 0 s in if starts_with sub (c ∷ s) then suc behind else next

unfoldable pub count : String → String → ℕ
unfolding count_from
count sub s = count_from (codes sub) 0 (codes s)

-- sub in s
unfoldable pub has_part : Text → Text → Bool
has_part sub [] = starts_with sub []
has_part sub (c ∷ s) = starts_with sub (c ∷ s) || has_part sub s

abbrev pub dishwasher : String
dishwasher = "\u{638}\u{631}\u{641}\u{634}\u{648}\u{6cc}\u{6cc}"

abbrev pub television : String
television = "\u{62a}\u{644}\u{648}\u{6cc}\u{632}\u{6cc}\u{648}\u{646}"

abbrev pub goods : String
goods = "\u{645}\u{62d}\u{635}\u{648}\u{644}"

abbrev pub greeting_start : String
greeting_start = "\u{633}\u{644}\u{627}\u{645} \u{622}\u{642}\u{627}\u{6cc} "

unfoldable pub compact_product_label : Product → String
unfolding has_part
compact_product_label product =
    let title = strip_string (or_text product.title "") in
    let brand = strip_string (or_text product.brand "") in
    let model = strip_string (or_text product.model "") in
    let both = not (str_eq brand "") && not (str_eq model "") in
    if has_part (codes dishwasher) (codes title) && both
    then dishwasher ++ " " ++ brand ++ " " ++ model
    else if has_part (codes television) (codes title) && both
    then television ++ " " ++ brand ++ " " ++ model
    else if not (str_eq title "")
    then title
    else if both
    then brand ++ " " ++ model
    else or_text (some brand) (or_text (some model) goods)

-- sep.join(parts)
unfoldable pub join : String → List String → String
join sep [] = ""
join sep (part ∷ []) = part
join sep (part ∷ next ∷ parts) = part ++ sep ++ join sep (next ∷ parts)

abbrev pub default_cta : String
default_cta =
    "\u{627}\u{6af}\u{631} \u{645}\u{648}\u{62c}\u{648}\u{62f}\u{6cc} \u{648} \u{634}\u{631}\u{627}\u{6cc}\u{637} \u{62e}\u{631}\u{6cc}\u{62f} \u{631}\u{627} \u{645}\u{6cc}\u{200c}\u{62e}\u{648}\u{627}\u{647}\u{6cc}\u{62f}، \u{67e}\u{6cc}\u{627}\u{645} \u{628}\u{62f}\u{647}\u{6cc}\u{62f}."

abbrev pub default_body_with_products : String
default_body_with_products =
    "\u{686}\u{646}\u{62f} \u{645}\u{62f}\u{644} \u{67e}\u{631}\u{641}\u{631}\u{648}\u{634} \u{627}\u{645}\u{631}\u{648}\u{632} \u{627}\u{641}\u{631}\u{627}\u{6a9}\u{627}\u{644}\u{627} \u{628}\u{631}\u{627}\u{6cc} \u{647}\u{645}\u{6a9}\u{627}\u{631}\u{6cc} B2B \u{622}\u{645}\u{627}\u{62f}\u{647} \u{628}\u{631}\u{631}\u{633}\u{6cc} \u{627}\u{633}\u{62a}"

abbrev pub default_body_without_products : String
default_body_without_products =
    "\u{627}\u{641}\u{631}\u{627}\u{6a9}\u{627}\u{644}\u{627} \u{628}\u{631}\u{627}\u{6cc} \u{647}\u{645}\u{6a9}\u{627}\u{631}\u{6cc} B2B \u{622}\u{645}\u{627}\u{62f}\u{647} \u{647}\u{645}\u{627}\u{647}\u{646}\u{6af}\u{6cc} \u{627}\u{633}\u{62a}"

-- The warning in a list, where it is there and not empty.
unfoldable pub given_warning : Option String → List String
given_warning none = []
given_warning (some w) = if str_eq w "" then [] else w ∷ []

-- The context has its products switched on and is not empty.
unfoldable pub offers : ProductContext → Bool
offers context = context.enabled && ltb 0 (length context.products)

unfoldable pub build_mock_personalized_message :
    String → Option String → ProductContext → RenderedMessagePayload
unfolding given_warning offers
build_mock_personalized_message first_name last_name context =
    let greeting = greeting_start ++ or_text last_name first_name in
    let block = join "، " (map compact_product_label context.products) in
    if offers context
    then record {
      greeting = some greeting;
      body = some default_body_with_products;
      cta = some default_cta;
      product_block = some block;
      final_text =
          some
            (greeting ++ "، " ++ default_body_with_products ++ " " ++ block ++ ". " ++ default_cta);
      warnings = given_warning context.warning;
    }
    else record {
      greeting = some greeting;
      body = some default_body_without_products;
      cta = some default_cta;
      product_block = none;
      final_text = some (greeting ++ "، " ++ default_body_without_products ++ ". " ++ default_cta);
      warnings = given_warning context.warning;
    }
