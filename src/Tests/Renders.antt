-- ===== src/Tests/Renders.antt =====
-- The theorems on rendered messages at concrete inputs.
use senderplatformtest.Prelude.{◌≡◌, true, false, Option, none, some, List, [], ◌∷◌, ◌++◌, String}
use senderplatformtest.Rendering.{Product, ProductContext, RenderedMessagePayload, given_warning}
use senderplatformtest.Rendering.Checking.{
  has_warning, validate_rendered_message, merged_warnings, given, refused, GenerateMessageRequest,
  Services,
}
use senderplatformtest.Rendering.Saving.{SaveRequest, Rows, save_dry_run_rendered_message}
use senderplatformtest.Rendering.Ready.{SaveOutcome, save_dry_run-IsSaved}
use senderplatformtest.Rendering.Warnings.{AreFresh, merged_warnings-AreFresh}

abbrev washer : Product
washer = record { title = some " washer "; brand = some "AB"; model = none }

abbrev offer : ProductContext
offer = record { enabled = true; products = washer ∷ []; warning = some "old prices" }

abbrev mock_request : GenerateMessageRequest
mock_request = record {
  first_name = "Sara";
  last_name = none;
  include_products = true;
  force_mock_output = true;
}

abbrev save_request : SaveRequest
save_request = record {
  generate = mock_request;
  campaign_id = some 3;
  contact_id = some 4;
  channel = "bale";
  customer_name = none;
  customer_phone = some "0912";
  intent = none;
}

abbrev services : Services
services = record {
  snapshot = record { found = true; reason = none };
  context = given (record {
    used_kb = true;
    used_products = true;
    snapshot_id = some 9;
    snapshot_expires_at = none;
    product_context = offer;
  });
  generation = refused "no key";
  products_found = 1;
}

abbrev no_rendered : Rows
no_rendered = record { next_id = 5; rows = [] }

abbrev no_date : Option String → Option String
no_date text = none

save_dry_run-IsSaved_example :
    SaveOutcome no_date no_rendered
      (save_dry_run_rendered_message no_date save_request services no_rendered)
save_dry_run-IsSaved_example = save_dry_run-IsSaved no_date save_request services no_rendered

abbrev doubtful : RenderedMessagePayload
doubtful = record {
  greeting = none;
  body = none;
  cta = some "call";
  product_block = some "AB";
  final_text = some " ";
  warnings = "w" ∷ [];
}

merged_warnings-AreFresh_example :
    let merged = merged_warnings doubtful false (some "late") in
    ((more : List String) × (merged ≡ doubtful.warnings ++ more) × AreFresh doubtful.warnings more)
    × ((v : String)
        → has_warning v (given_warning (some "late")) ≡ true
        → has_warning v merged ≡ true)
    × ((v : String)
        → has_warning v (validate_rendered_message doubtful false).1 ≡ true
        → has_warning v merged ≡ true)
merged_warnings-AreFresh_example = merged_warnings-AreFresh doubtful false (some "late")
