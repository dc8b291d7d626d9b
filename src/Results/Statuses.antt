-- ===== src/Results/Statuses.antt =====
-- The two tables against each other.
use senderplatformtest.Prelude.{
  ◌≡◌, refl, Bool, true, false, ◌&&◌, Option, none, some, List, [], ◌∷◌, String, str_eq, eq_iff,
  arith,
}
use senderplatformtest.Platform.{SendStatus, MessageAttemptStatus}
use senderplatformtest.Results.{
  result_to_send_status, result_to_attempt_status, get_status, or_default, send_status_of,
  attempt_status_of,
}

-- The status of an attempt that goes with a recipient's status; those that no result gives are
-- STARTED.
abbrev pub attempt_for : SendStatus → MessageAttemptStatus
attempt_for SendStatus.delivered = MessageAttemptStatus.success
attempt_for SendStatus.read = MessageAttemptStatus.success
attempt_for SendStatus.failed_retryable = MessageAttemptStatus.failed_retryable
attempt_for SendStatus.failed_permanent = MessageAttemptStatus.failed_permanent
attempt_for SendStatus.dry_run = MessageAttemptStatus.dry_run
attempt_for SendStatus.shadow_sent = MessageAttemptStatus.shadow_sent
attempt_for _ = MessageAttemptStatus.started

abbrev pub attempt_for_some : Option SendStatus → Option MessageAttemptStatus
attempt_for_some none = none
attempt_for_some (some s) = some (attempt_for s)

attempt_eq : MessageAttemptStatus → MessageAttemptStatus → Bool
attempt_eq MessageAttemptStatus.started MessageAttemptStatus.started = true
attempt_eq MessageAttemptStatus.success MessageAttemptStatus.success = true
attempt_eq MessageAttemptStatus.failed_retryable MessageAttemptStatus.failed_retryable = true
attempt_eq MessageAttemptStatus.failed_permanent MessageAttemptStatus.failed_permanent = true
attempt_eq MessageAttemptStatus.dry_run MessageAttemptStatus.dry_run = true
attempt_eq MessageAttemptStatus.shadow_sent MessageAttemptStatus.shadow_sent = true
attempt_eq _ _ = false

attempt_eq-eq : (a b : MessageAttemptStatus) → attempt_eq a b ≡ true → a ≡ b
unfolding attempt_eq
attempt_eq-eq a b h = ground arith

aligned : List (String × SendStatus) → List (String × MessageAttemptStatus) → Bool
unfolding attempt_eq
aligned [] [] = true
aligned ((k, s) ∷ t) ((j, a) ∷ u) = str_eq k j && (attempt_eq (attempt_for s) a && aligned t u)
aligned _ _ = false

aligned-get_status :
    (t : List (String × SendStatus)) (u : List (String × MessageAttemptStatus)) (status : String)
    → aligned t u ≡ true
    → get_status status u ≡ attempt_for_some (get_status status t)
unfolding aligned get_status
aligned-get_status [] [] status h = refl
aligned-get_status ((k, s) ∷ t) ((j, a) ∷ u) status h = ground (
  arith,
  eq_iff k j,
  eq_iff k status,
  eq_iff j status,
  attempt_eq-eq (attempt_for s) a,
  aligned-get_status t u status,
)
aligned-get_status _ _ status h = cc

tables_aligned : aligned result_to_send_status result_to_attempt_status ≡ true
unfolding aligned result_to_send_status result_to_attempt_status
tables_aligned = refl

or_default-attempt_for :
    (o : Option SendStatus) (success : Option Bool)
    → or_default
        (attempt_for_some o)
        success
        MessageAttemptStatus.success
        MessageAttemptStatus.failed_permanent
      ≡ attempt_for_some (or_default o success SendStatus.delivered SendStatus.failed_permanent)
or_default-attempt_for none none = refl
or_default-attempt_for none (some true) = refl
or_default-attempt_for none (some false) = refl
or_default-attempt_for (some s) success = refl

-- Whatever status a worker reports, and whether or not it says that the send succeeded, the
-- attempt's status is the one that goes with the recipient's: the two tables and their defaults
-- never disagree, and where one side writes nothing neither does the other.
pub attempt_status-agrees :
    (status : String) (success : Option Bool)
    → attempt_status_of status success ≡ attempt_for_some (send_status_of status success)
unfolding send_status_of attempt_status_of
attempt_status-agrees status success =
    rw (aligned-get_status result_to_send_status result_to_attempt_status status tables_aligned)
      (or_default-attempt_for (get_status status result_to_send_status) success)
