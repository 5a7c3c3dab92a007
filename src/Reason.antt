-- ===== src/Reason.antt =====
-- The reasons for a disconnect, lib/include/messi.h, and their texts, lib/src/messi.c.
mod Tests
use Prim.Native.String.{String}
use messi.Base.{ℕ, ◌≡◌, ◌≢◌, refl, ◌==◌, if◌then◌else◌}

-- `enum messi_disconnect_reason_t`
pub data Reason : Type 0 where
  message_encode_error message_decode_error connection_closed keep_alive_timeout : Reason
  general_error message_too_big : Reason

-- The value of an enumerator.
unfoldable pub reason_value : Reason → ℕ
reason_value message_encode_error = 0
reason_value message_decode_error = 1
reason_value connection_closed = 2
reason_value keep_alive_timeout = 3
reason_value general_error = 4
reason_value message_too_big = 5

-- The argument is any value that the C variable may hold.
unfoldable pub disconnect_reason_string : ℕ → String
disconnect_reason_string n =
    if n == 0
    then "Message encode error."
    else if n == 1
    then "Message decode error."
    else if n == 2
    then "Connection closed."
    else if n == 3
    then "Keep alive timeout."
    else if n == 4
    then "General error."
    else if n == 5
    then "Message too big."
    else "*** Unknown ***"
