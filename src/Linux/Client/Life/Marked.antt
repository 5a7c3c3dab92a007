-- ===== src/Linux/Client/Life/Marked.antt =====
-- A user who sends when the connection is lost: `on_disconnected` and `disconnect` of
-- messi/c_source/templates/linux/client.c.
use messi.Reason.{Reason}
use messi.Linux.Client.State.{Client}
