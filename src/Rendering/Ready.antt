-- ===== src/Rendering/Ready.antt =====
-- What is ready for the queue, and what its payload says.
use senderplatformtest.Prelude.{
  ℕ, suc, ◌≤◌, ◌≡◌, ◌≢◌, ◌⊎◌, refl, sym, ap, ◌∙◌, Bool, true, false, Option, none, some, [], ◌∷◌,
  ◌++◌, String, arith, str_eq, eq_iff, Bool-cases, inl, inr,
}
use senderplatformtest.Validation.{or_text, strip_string, lstrip_string, reverse_onto}
use senderplatformtest.Rendering.{RenderedMessagePayload}
use senderplatformtest.Rendering.Checking.{
  stripped_text, text_length, max_final_text_chars, is_sendable, validate_rendered_message,
  Rendered, RenderResult, failure, success, build_success_response, Services,
  GenerateMessageRequest, Answer, refused, given, snapshot_warning_of, dry_run_message_render,
  mock_response, openai_response,
}
use senderplatformtest.Rendering.Saving.{
  RenderedQueuePayload, RenderedMessage, SaveRequest, build_queue_payload_from_rendered_message,
  Rows, new_row, customer_display_name, with_payload, save_rendered_message,
  save_dry_run_rendered_message,
}

-- The result is one of a check: its text is the message's, and the check says whether it is ready.
pub record IsChecked (r : Rendered) : Type 0 where
  pub same_text : r.final_text ≡ stripped_text r.message
  pub checked : r.ready_for_queue ≡ is_sendable r.final_text

build_success_response-IsChecked :
    (mode : String) (message : RenderedMessagePayload) (used_kb used_products : Bool)
    (snapshot_id : Option ℕ) (expires : Option String) (products_count : ℕ) (w : Option String)
    → IsChecked (
        build_success_response mode message used_kb used_products snapshot_id expires products_count
          w)
unfolding build_success_response stripped_text validate_rendered_message
build_success_response-IsChecked mode message used_kb used_products snapshot_id expires n w =
    record { same_text = refl; checked = refl }

abbrev pub IsCheckedResult : RenderResult → Type 0
IsCheckedResult (failure e) = Unit
IsCheckedResult (success r) = IsChecked r

Answer-cases :
    {A : Type 0} (a : Answer A) → ((e : String) × (a ≡ refused e)) ⊎ ((x : A) × (a ≡ given x))
Answer-cases (refused e) = inl (e, refl)
Answer-cases (given x) = inr (x, refl)

-- What a dry run reports as its result is checked, in either mode.
dry_run-IsChecked :
    (request : GenerateMessageRequest) (services : Services)
    → IsCheckedResult (dry_run_message_render request services)
unfolding dry_run_message_render mock_response openai_response
dry_run-IsChecked request services = elim (Answer-cases services.context) [
  | inl (e, refusal) ↦ rw refusal tt
  | inr (context, ready) ↦ rw ready (elim (Bool-cases request.force_mock_output) [
    | inl mock ↦ rw mock (
        build_success_response-IsChecked _ _ _ _ _ _ _
          (snapshot_warning_of request services.snapshot))
    | inr openai ↦ rw openai (elim (Answer-cases services.generation) [
      | inl (e, refusal) ↦ rw refusal tt
      | inr (g, ready_g) ↦ rw ready_g (
          build_success_response-IsChecked _ _ _ _ _ _ _
            (snapshot_warning_of request services.snapshot))
    ])
  ])
]

strip_empty : strip_string "" ≡ ""
unfolding strip_string lstrip_string reverse_onto
strip_empty = refl

stripped_again :
    (m : Option String)
    → strip_string (or_text m (strip_string (or_text m ""))) ≡ strip_string (or_text m "")
unfolding or_text
stripped_again none = ap strip_string strip_empty
stripped_again (some a) = elim (Bool-cases (str_eq a "")) [
  | inl empty ↦ rw empty (ap strip_string strip_empty)
  | inr full ↦ rw full refl
]

-- The saved text is the one that was checked.
saved_text :
    (r : Rendered)
    → IsChecked r
    → strip_string (or_text r.message.final_text r.final_text) ≡ r.final_text
unfolding stripped_text
saved_text r c =
    ap (λ t. strip_string (or_text r.message.final_text t)) c.same_text
    ∙ stripped_again r.message.final_text
    ∙ sym c.same_text

is_sendable_lem :
    (s : String) → is_sendable s ≡ true → (s ≢ "") × (text_length s ≤ max_final_text_chars)
unfolding is_sendable text_length
is_sendable_lem s h = ground (arith, eq_iff s "")

-- The queue payload of a row says what the row says, and the snapshot of the prices is named for its
-- products where products are used, and else for the trace alone.
pub record Mirrors (row : RenderedMessage) (payload : RenderedQueuePayload) : Type 0 where
  pub same_id : payload.rendered_message_id ≡ row.id
  pub same_campaign : payload.campaign_id ≡ row.campaign_id
  pub same_contact : payload.contact_id ≡ row.contact_id
  pub same_channel : payload.channel ≡ row.channel
  pub same_text : payload.final_text ≡ row.final_text
  pub same_ready : payload.metadata.ready_for_queue ≡ row.ready_for_queue
  pub snapshot :
      ((row.used_products ≡ true)
        × (payload.metadata.product_snapshot_id ≡ row.product_snapshot_id)
        × (payload.metadata.trace_snapshot_id ≡ none))
      ⊎ ((row.used_products ≡ false)
          × (payload.metadata.product_snapshot_id ≡ none)
          × (payload.metadata.trace_snapshot_id ≡ row.product_snapshot_id))

-- A row that a save added: it is the last one, with the next id, and has its payload; it is ready
-- just where its text is neither empty nor longer than the limit.
pub record IsSaved (row : RenderedMessage) (before after : Rows) : Type 0 where
  pub added : after.rows ≡ before.rows ++ row ∷ []
  pub own_id : row.id ≡ before.next_id
  pub next : after.next_id ≡ suc before.next_id
  pub ready : row.ready_for_queue ≡ is_sendable row.final_text
  pub sendable :
      row.ready_for_queue ≡ true
      → (row.final_text ≢ "") × (text_length row.final_text ≤ max_final_text_chars)
  pub payload : RenderedQueuePayload
  pub has_payload : row.queue_payload ≡ some payload
  pub mirrors : Mirrors row payload

build-Mirrors :
    (row : RenderedMessage) (name phone intent : Option String)
    → Mirrors row (build_queue_payload_from_rendered_message row name phone intent)
unfolding build_queue_payload_from_rendered_message
build-Mirrors row name phone intent = record {
  same_id = refl;
  same_campaign = refl;
  same_contact = refl;
  same_channel = refl;
  same_text = refl;
  same_ready = refl;
  snapshot = elim (Bool-cases row.used_products) [
    | inl used ↦ inl (used, rw used refl, rw used refl)
    | inr unused ↦ inr (unused, rw unused refl, rw unused refl)
  ];
}

module _ (parse : Option String → Option String) where
  abbrev pub SaveOutcome : Rows → Option RenderedMessage × Rows → Type 0
  SaveOutcome table (none, after) = after ≡ table
  SaveOutcome table (some row, after) = IsSaved row table after

  save-IsSaved :
      (request : SaveRequest) (result : RenderResult) (campaign_id contact_id : Option ℕ)
      (table : Rows)
      → IsCheckedResult result
      → SaveOutcome table (save_rendered_message parse request result campaign_id contact_id table)
  unfolding save_rendered_message with_payload new_row build_queue_payload_from_rendered_message
  save-IsSaved request (failure e) campaign_id contact_id table c = refl
  save-IsSaved request (success r) campaign_id contact_id table c =
      let row = new_row parse request r campaign_id contact_id table.next_id in
      let text = saved_text r c in
      let ready : r.ready_for_queue ≡ is_sendable row.final_text =
        c.checked ∙ ap is_sendable (sym text) in
      record {
        added = refl;
        own_id = refl;
        next = omega arith;
        ready = ready;
        sendable = λ h. is_sendable_lem row.final_text (sym ready ∙ h);
        payload =
            build_queue_payload_from_rendered_message row (some (customer_display_name request))
              request.customer_phone request.intent;
        has_payload = refl;
        mirrors =
            build-Mirrors (with_payload parse request row) (some (customer_display_name request))
              request.customer_phone request.intent;
      }

  -- Saving a dry run. Where the dry run fails, the table stays as it is. Else one row is added at the
  -- end, with the next id; it is ready for the queue just where its text, stripped, is neither empty
  -- nor longer than 450 characters, and its queue payload names the row, its campaign and contact,
  -- its channel, its text and whether it is ready, and the snapshot of the prices for the products
  -- or for the trace alone as products are used or not.
  pub save_dry_run-IsSaved :
      (request : SaveRequest) (services : Services) (table : Rows)
      → SaveOutcome table (save_dry_run_rendered_message parse request services table)
  unfolding save_dry_run_rendered_message
  save_dry_run-IsSaved request services table =
      save-IsSaved request (dry_run_message_render request.generate services) none none table
        (dry_run-IsChecked request.generate services)
