-- ===== src/Rendering/Checking.antt =====
-- The check of a rendered message and the result of a dry run: `validate_rendered_message`,
-- `_build_success_response` and `dry_run_message_render` of message_render.py.
use senderplatformtest.Prelude.{
  ℕ, ◌&&◌, ◌||◌, Bool, false, not, Option, none, some, List, [], ◌∷◌, ◌++◌, String, ltb, leb,
  if◌then◌else◌, str_eq, length,
}
use senderplatformtest.Prelude.Text.{codes}
use senderplatformtest.Validation.{or_text, is_given, strip_string, str}
use senderplatformtest.Phase4.{plus}
use senderplatformtest.Rendering.{
  ProductContext, RenderedMessagePayload, count, given_warning, build_mock_personalized_message,
}

-- warning in warnings
unfoldable pub has_warning : String → List String → Bool
has_warning w [] = false
has_warning w (v ∷ vs) = str_eq w v || has_warning w vs

-- The loop that appends each of `added` unless it is there.
unfoldable pub add_warnings : List String → List String → List String
unfolding has_warning
add_warnings warnings [] = warnings
add_warnings warnings (w ∷ added) =
    if has_warning w warnings
    then add_warnings warnings added
    else add_warnings (warnings ++ w ∷ []) added

unfoldable pub stripped_text : RenderedMessagePayload → String
stripped_text payload = strip_string (or_text payload.final_text "")

-- The length of a text in code points.
unfoldable pub text_length : String → ℕ
text_length s = length (codes s)

abbrev pub max_final_text_chars : ℕ
max_final_text_chars = 450

unfoldable pub is_sendable : String → Bool
unfolding text_length
is_sendable final_text =
    not (str_eq final_text "") && leb (text_length final_text) max_final_text_chars

unfoldable pub text_warnings : String → List String
unfolding text_length plus
text_warnings final_text =
    if str_eq final_text ""
    then "final_text is empty" ∷ []
    else if ltb max_final_text_chars (text_length final_text)
    then plus "final_text exceeds 450 characters (" (plus (str (text_length final_text)) ")") ∷ []
    else []

unfoldable pub cta_warnings : RenderedMessagePayload → List String
unfolding stripped_text
cta_warnings payload =
    let cta = strip_string (or_text payload.cta "") in
    if not (str_eq cta "") && ltb 1 (count cta (stripped_text payload))
    then "Multiple CTA phrases detected; only one CTA is recommended." ∷ []
    else []

unfoldable pub product_warnings : RenderedMessagePayload → Bool → List String
product_warnings payload used_products =
    if is_given payload.product_block && not used_products
    then "product_block is present but no valid product snapshot was used." ∷ []
    else []

-- `ready_for_queue` and the warnings.
unfoldable pub validate_rendered_message : RenderedMessagePayload → Bool → Bool × List String
unfolding add_warnings is_sendable text_warnings cta_warnings product_warnings stripped_text
validate_rendered_message payload used_products = (
  is_sendable (stripped_text payload),
  add_warnings [] (
      payload.warnings
      ++ text_warnings (stripped_text payload)
      ++ cta_warnings payload
      ++ product_warnings payload used_products),
)

pub record Rendered : Type 0 where
  pub mode : String
  pub used_kb : Bool
  pub used_products : Bool
  pub products_count : ℕ
  pub snapshot_id : Option ℕ
  pub snapshot_expires_at : Option String
  pub message : RenderedMessagePayload
  pub final_text : String
  pub ready_for_queue : Bool
  pub warnings : List String

-- A result without success is returned as it is.
pub data RenderResult : Type 0 where
  failure : String → RenderResult
  success : Rendered → RenderResult

-- The warnings of the message, the one of the snapshot and those of the check.
unfoldable pub merged_warnings : RenderedMessagePayload → Bool → Option String → List String
unfolding add_warnings given_warning
merged_warnings message used_products snapshot_warning =
    add_warnings (add_warnings message.warnings (given_warning snapshot_warning))
      (validate_rendered_message message used_products).1

unfoldable pub build_success_response :
    String
    → RenderedMessagePayload
    → Bool
    → Bool
    → Option ℕ
    → Option String
    → ℕ
    → Option String
    → Rendered
unfolding merged_warnings stripped_text
build_success_response mode message used_kb used_products snapshot_id snapshot_expires_at
      products_count snapshot_warning =
    let warnings = merged_warnings message used_products snapshot_warning in
    record {
      mode = mode;
      used_kb = used_kb;
      used_products = used_products;
      products_count = products_count;
      snapshot_id = snapshot_id;
      snapshot_expires_at = snapshot_expires_at;
      message = record message { warnings = warnings };
      final_text = stripped_text message;
      ready_for_queue = (validate_rendered_message message used_products).0;
      warnings = warnings;
    }

-- `get_latest_valid_product_snapshot`, as far as it is read
pub record SnapshotMeta : Type 0 where
  pub found : Bool
  pub reason : Option String

-- What `prepare_gpt_generation_context` gives with success.
pub record Context : Type 0 where
  pub used_kb : Bool
  pub used_products : Bool
  pub snapshot_id : Option ℕ
  pub snapshot_expires_at : Option String
  pub product_context : ProductContext

-- What `generate_personalized_message` gives with success; a missing key is none.
pub record Generation : Type 0 where
  pub message : RenderedMessagePayload
  pub used_kb : Option Bool
  pub used_products : Option Bool
  pub snapshot_id : Option (Option ℕ)
  pub snapshot_expires_at : Option (Option String)

pub data Answer (A : Type 0) : Type 0 where
  refused : String → Answer A
  given : A → Answer A

-- The fields of GenerateMessageRequest that are read here, after `normalize_customer_fields`, which
-- refuses a request without a first name.
pub record GenerateMessageRequest : Type 0 where
  pub first_name : String
  pub last_name : Option String
  pub include_products : Bool
  pub force_mock_output : Bool

-- What the call reads from other services; `products_found` counts the products of the new context.
pub record Services : Type 0 where
  pub snapshot : SnapshotMeta
  pub context : Answer Context
  pub generation : Answer Generation
  pub products_found : ℕ

-- d.get(key, default)
unfoldable pub get_or {ℓ} : {A : Type ℓ} → Option A → A → A
get_or none a = a
get_or (some a) b = a

unfoldable pub snapshot_warning_of : GenerateMessageRequest → SnapshotMeta → Option String
snapshot_warning_of request meta =
    if request.include_products && not meta.found
    then some (or_text meta.reason "No valid product pricing snapshot available")
    else none

unfoldable pub mock_response : GenerateMessageRequest → SnapshotMeta → Context → Rendered
unfolding build_success_response snapshot_warning_of
mock_response request meta context =
    build_success_response "mock"
      (build_mock_personalized_message request.first_name request.last_name context.product_context)
      context.used_kb context.used_products context.snapshot_id context.snapshot_expires_at
      (if context.used_products then length context.product_context.products else 0)
      (snapshot_warning_of request meta)

unfoldable pub openai_response :
    GenerateMessageRequest → SnapshotMeta → Context → ℕ → Generation → Rendered
unfolding build_success_response snapshot_warning_of get_or
openai_response request meta context products_found g =
    let used = get_or g.used_products context.used_products in
    build_success_response "openai" g.message (get_or g.used_kb context.used_kb) used
      (get_or g.snapshot_id context.snapshot_id)
      (get_or g.snapshot_expires_at context.snapshot_expires_at)
      (if used
        then products_found
        else if context.used_products
        then length context.product_context.products
        else 0)
      (snapshot_warning_of request meta)

unfoldable pub dry_run_message_render : GenerateMessageRequest → Services → RenderResult
unfolding mock_response openai_response
dry_run_message_render request services = elim services.context [
  | refused e ↦ failure e
  | given context ↦
      if request.force_mock_output
      then success (mock_response request services.snapshot context)
      else elim services.generation [
        | refused e ↦ failure e
        | given g ↦
            success (openai_response request services.snapshot context services.products_found g)
      ]
]
