-- ===== src/Reason/Tests.antt =====
-- The texts of tst/messi/test_messi.c.
use messi.Base.{◌≡◌, refl}
use messi.Reason.{general_error, reason_value, disconnect_reason_string}

general : disconnect_reason_string (reason_value general_error) ≡ "General error."
unfolding disconnect_reason_string reason_value
general = refl

unknown : disconnect_reason_string 99 ≡ "*** Unknown ***"
unfolding disconnect_reason_string
unknown = refl
