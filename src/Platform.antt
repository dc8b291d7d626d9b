-- ===== src/Platform.antt =====
-- The enumerations of multi-messaging-platform/core_engine/models.py that the services compare.
use senderplatformtest.Prelude.{Bool, true, false, Option, none, some, String, if◌then◌else◌}
use senderplatformtest.Prelude.Text.{codes, strip, lower, text_eq}

pub data PlatformType : Type 0 where
  whatsapp telegram rubika bale : PlatformType

pub data AccountStatus : Type 0 where
  active resting banned requires_login : AccountStatus

pub data CampaignStatus : Type 0 where
  draft prepared paused archived running completed failed cancelled : CampaignStatus

pub data StagedQueueItemStatus : Type 0 where
  staged blocked skipped ready pushing queued : StagedQueueItemStatus

pub data SendStatus : Type 0 where
  pending queued processing accepted_by_worker accepted_by_platform delivered read : SendStatus
  failed_retryable failed_permanent dry_run shadow_sent opted_out blacklisted : SendStatus

pub data MessageAttemptStatus : Type 0 where
  started success failed_retryable failed_permanent dry_run shadow_sent : MessageAttemptStatus

pub PlatformType-discrete : Discrete PlatformType
PlatformType-discrete = hlevel

abbrev pub platform_eq : PlatformType → PlatformType → Bool
platform_eq whatsapp whatsapp = true
platform_eq telegram telegram = true
platform_eq rubika rubika = true
platform_eq bale bale = true
platform_eq _ _ = false

abbrev pub platform_value : PlatformType → String
platform_value whatsapp = "whatsapp"
platform_value telegram = "telegram"
platform_value rubika = "rubika"
platform_value bale = "bale"

-- PlatformType(text.strip().lower()), with None where that raises
unfoldable pub platform_of : String → Option PlatformType
platform_of text =
    let normalized = lower (strip (codes text)) in
    if text_eq normalized (codes "whatsapp")
    then some whatsapp
    else if text_eq normalized (codes "telegram")
    then some telegram
    else if text_eq normalized (codes "rubika")
    then some rubika
    else if text_eq normalized (codes "bale")
    then some bale
    else none
