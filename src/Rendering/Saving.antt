-- ===== src/Rendering/Saving.antt =====
-- The row of a rendered message with its queue payload: core_engine/services/
-- message_queue_payload.py. Reading an ISO date is an argument.
use senderplatformtest.Prelude.{
  ℕ, ◌+◌, Bool, Option, none, some, List, [], ◌∷◌, ◌++◌, String, if◌then◌else◌,
}
use senderplatformtest.Validation.{or_text, is_given, strip_string}
use senderplatformtest.Phase4.{plus}
use senderplatformtest.Rendering.Checking.{
  Rendered, RenderResult, failure, success, GenerateMessageRequest, Services,
  dry_run_message_render,
}

-- A key that is missing is none, and so is one with the value None; warnings
-- that are missing are the empty list.
pub record Metadata : Type 0 where
  pub render_mode : String
  pub used_kb : Bool
  pub used_products : Bool
  pub ready_for_queue : Bool
  pub customer_name : Option String
  pub customer_phone : Option String
  pub intent : Option String
  pub product_snapshot_id : Option ℕ
  pub snapshot_expires_at : Option String
  pub warnings : List String
  pub trace_snapshot_id : Option ℕ

pub record RenderedQueuePayload : Type 0 where
  pub rendered_message_id : ℕ
  pub campaign_id : Option ℕ
  pub contact_id : Option ℕ
  pub channel : String
  pub final_text : String
  pub metadata : Metadata

pub record RenderedMessage : Type 0 where
  pub id : ℕ
  pub campaign_id : Option ℕ
  pub contact_id : Option ℕ
  pub channel : String
  pub final_text : String
  pub render_mode : String
  pub used_kb : Bool
  pub used_products : Bool
  pub product_snapshot_id : Option ℕ
  pub snapshot_expires_at : Option String
  pub ready_for_queue : Bool
  pub warnings : List String
  pub queue_payload : Option RenderedQueuePayload

pub record SaveRequest : Type 0 where
  pub generate : GenerateMessageRequest
  pub campaign_id : Option ℕ
  pub contact_id : Option ℕ
  pub channel : String
  pub customer_name : Option String
  pub customer_phone : Option String
  pub intent : Option String

unfoldable pub customer_display_name : SaveRequest → String
unfolding plus
customer_display_name request =
    if is_given request.customer_name
    then strip_string (or_text request.customer_name "")
    else if is_given request.generate.last_name
    then strip_string
        (plus request.generate.first_name (plus " " (or_text request.generate.last_name "")))
    else request.generate.first_name

-- A text that is there and not empty.
unfoldable pub if_given : Option String → Option String
if_given value = if is_given value then value else none

unfoldable pub build_queue_payload_from_rendered_message :
    RenderedMessage → Option String → Option String → Option String → RenderedQueuePayload
unfolding if_given
build_queue_payload_from_rendered_message row customer_name customer_phone intent = record {
  rendered_message_id = row.id;
  campaign_id = row.campaign_id;
  contact_id = row.contact_id;
  channel = row.channel;
  final_text = row.final_text;
  metadata = record {
    render_mode = row.render_mode;
    used_kb = row.used_kb;
    used_products = row.used_products;
    ready_for_queue = row.ready_for_queue;
    customer_name = if_given customer_name;
    customer_phone = if_given customer_phone;
    intent = if_given intent;
    product_snapshot_id = if row.used_products then row.product_snapshot_id else none;
    snapshot_expires_at = row.snapshot_expires_at;
    warnings = row.warnings;
    trace_snapshot_id = if row.used_products then none else row.product_snapshot_id;
  };
}

unfoldable pub or_id : Option ℕ → Option ℕ → Option ℕ
or_id none b = b
or_id (some a) b = some a

or_warnings : List String → List String → List String
or_warnings [] b = b
or_warnings (a ∷ more) b = a ∷ more

-- The table, and the id that the next row gets.
pub record Rows : Type 0 where
  pub next_id : ℕ
  pub rows : List RenderedMessage

module _ (parse_snapshot_expires_at : Option String → Option String) where
  -- The row as it is added, still without its payload.
  unfoldable pub new_row : SaveRequest → Rendered → Option ℕ → Option ℕ → ℕ → RenderedMessage
  unfolding or_id or_warnings
  new_row request result campaign_id contact_id id = record {
    id = id;
    campaign_id = or_id campaign_id request.campaign_id;
    contact_id = or_id contact_id request.contact_id;
    channel = request.channel;
    final_text = strip_string (or_text result.message.final_text result.final_text);
    render_mode = or_text (some result.mode) "unknown";
    used_kb = result.used_kb;
    used_products = result.used_products;
    product_snapshot_id = result.snapshot_id;
    snapshot_expires_at = parse_snapshot_expires_at result.snapshot_expires_at;
    ready_for_queue = result.ready_for_queue;
    warnings = or_warnings result.warnings result.message.warnings;
    queue_payload = none;
  }

  unfoldable pub with_payload : SaveRequest → RenderedMessage → RenderedMessage
  unfolding build_queue_payload_from_rendered_message customer_display_name
  with_payload request row = record row {
    queue_payload = some (
        build_queue_payload_from_rendered_message row (some (customer_display_name request))
          request.customer_phone request.intent);
  }

  -- The saved row, or the text of the failure that is returned, and the table.
  unfoldable pub save_rendered_message :
      SaveRequest → RenderResult → Option ℕ → Option ℕ → Rows → Option RenderedMessage × Rows
  unfolding new_row with_payload
  save_rendered_message request (failure e) campaign_id contact_id table = (none, table)
  save_rendered_message request (success result) campaign_id contact_id table =
      let row =
        with_payload request (new_row request result campaign_id contact_id table.next_id) in
      (some row, record { next_id = table.next_id + 1; rows = table.rows ++ row ∷ [] })

  unfoldable pub save_dry_run_rendered_message :
      SaveRequest → Services → Rows → Option RenderedMessage × Rows
  unfolding save_rendered_message
  save_dry_run_rendered_message request services table =
      save_rendered_message request (dry_run_message_render request.generate services) none none
        table
