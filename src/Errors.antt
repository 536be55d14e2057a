-- ===== src/Errors.antt =====
-- packages/durable-work/src/core/errors.ts: what a step or a callback throws, and how it is read.
use open_mercato_durable.Common.{ℕ, Option, none, some, ◌==◌, if◌then◌else◌}
use open_mercato_durable.Types.{ErrorClass, ErrorCode, SliceVerdict, Message, Lease}

-- The text of a `durableErrorClass` property, one of the three classes or another.
pub data ClassText : Type 0 where
  known : ErrorClass → ClassText
  unknown : ℕ → ClassText

-- A thrown value: an `Error`, a text, another value, or one of the mechanism's own errors.
pub data Failure : Type 0 where
  error : (class : Option ClassText) (code : Option ErrorCode) (message : Message) → Failure
  text : ℕ → Failure
  value : (class : Option ClassText) (code : Option ErrorCode) → Failure
  lease_lost : Lease → Failure
  mirror_mismatch : (job_id : ℕ) → Failure
  no_further_attempts : SliceVerdict → Failure

abbrev class_of_text : Option ClassText → ErrorClass
class_of_text (some (ClassText.known c)) = c
class_of_text _ = ErrorClass.transient

unfoldable pub classify_error : Failure → ErrorClass
classify_error (Failure.error class code message) = class_of_text class
classify_error (Failure.value class code) = class_of_text class
classify_error _ = ErrorClass.transient

-- The empty text, `other 0`, is no code.
abbrev nonempty_code : Option ErrorCode → Option ErrorCode
nonempty_code none = none
nonempty_code (some (ErrorCode.other n)) = if n == 0 then none else some (ErrorCode.other n)
nonempty_code (some (ErrorCode.verdict v)) = some (ErrorCode.verdict v)
nonempty_code (some (ErrorCode.parked p)) = some (ErrorCode.parked p)

unfoldable pub error_code_of : Failure → Option ErrorCode
error_code_of (Failure.error class code message) = nonempty_code code
error_code_of (Failure.value class code) = nonempty_code code
error_code_of _ = none

unfoldable pub error_message_of : Failure → Message
error_message_of (Failure.error class code message) = message
error_message_of (Failure.text t) = Message.given t
error_message_of (Failure.value class code) = Message.unknown_error
error_message_of (Failure.lease_lost l) = Message.lease_lost_for l.job_id l.owner l.epoch
error_message_of (Failure.mirror_mismatch id) = Message.mirror_matched_none id
error_message_of (Failure.no_further_attempts v) = Message.no_attempts_left v
