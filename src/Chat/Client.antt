-- ===== src/Chat/Client.antt =====
-- The chat client of examples/chat/client/linux/main.c and examples/chat/client/async/client.c: the line
-- that the user types. What it prints is left out.
pub mod Line
pub mod Buffer
pub mod Program
pub mod AsyncProgram
use messi.Base.{
  ℕ, ◌+◌, List, [], ◌∷◌, ◌++◌, Bool, true, false, ◌==◌, if◌then◌else◌, get_or, write_at,
}
use messi.Linux.Client.State.{Event, connected, disconnected}
use messi.Chat.{ToServer, ToClient, connect_rsp}

-- The static variables of main.c, and `struct client_t` of the async client.
pub record ChatClient : Type 0 where
  pub user : List ℕ
  pub line_length : ℕ
  -- 128 characters
  pub line_buf : List ℕ
  pub is_connected : Bool

-- A string of C ends at its first NUL.
abbrev pub until_nul : List ℕ → List ℕ
until_nul [] = []
until_nul (c ∷ cs) = let rest = until_nul cs in if c == 0 then [] else c ∷ rest

abbrev pub newline : ℕ
newline = 10

-- The message of `send_message_ind`.
abbrev pub typed_message : ChatClient → ToServer
typed_message a = ToServer.message_ind a.user (until_nul a.line_buf)

-- `on_connected`, `on_disconnected`, `on_connect_rsp` and `on_message_ind`: the messages that each sends,
-- and what each does to the line.
abbrev pub chat_sends : Event ToClient → ChatClient → List ToServer
chat_sends connected a = ToServer.connect_req a.user ∷ []
chat_sends (disconnected r) a = []
chat_sends (Event.received m) a = []

abbrev pub chat_event : Event ToClient → ChatClient → ChatClient
chat_event connected a = a
chat_event (disconnected r) a = record a { line_length = 0; is_connected = false }
chat_event (Event.received connect_rsp) a = record a { is_connected = true }
chat_event (Event.received (ToClient.message_ind u t)) a = a

-- The same of the async client, which keeps the length of the line on a disconnect.
abbrev pub async_chat_event : Event ToClient → ChatClient → ChatClient
async_chat_event connected a = a
async_chat_event (disconnected r) a = record a { is_connected = false }
async_chat_event (Event.received connect_rsp) a = record a { is_connected = true }
async_chat_event (Event.received (ToClient.message_ind u t)) a = a

-- `line_length` set back at the end of the buffer.
abbrev pub wrapped : ChatClient → ℕ
wrapped a = if a.line_length == 127 then 0 else a.line_length

-- From the test of the character that was put into the line on.
unfoldable pub end_of_input : ChatClient → ChatClient × List ToServer
end_of_input a =
    let ended = record a { line_buf = write_at a.line_buf a.line_length (0 ∷ []) } in
    if get_or a.line_buf a.line_length 0 == newline
    then (record ended { line_length = 0 }, typed_message ended ∷ [])
    else (record a { line_length = a.line_length + 1 }, [])

-- `user_input` of main.c, with the character that is read: the line, and the messages sent.
unfoldable pub user_input : ℕ → ChatClient → ChatClient × List ToServer
unfolding end_of_input
user_input c a =
    let n = wrapped a in
    let a' = record a { line_length = n; line_buf = write_at a.line_buf n (c ∷ []) } in
    if a.is_connected then end_of_input a' else (a', [])

-- `client_user_input` of the async client.
unfoldable pub client_user_input : ℕ → ChatClient → ChatClient × List ToServer
unfolding end_of_input
client_user_input c a =
    let n = wrapped a in
    if a.is_connected
    then end_of_input (record a { line_length = n; line_buf = write_at a.line_buf n (c ∷ []) })
    else (a, [])
