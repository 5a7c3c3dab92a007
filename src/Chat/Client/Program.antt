-- ===== src/Chat/Client/Program.antt =====
-- The chat client of examples/chat/client/linux/main.c on the Linux client: its callbacks and `main`.
use messi.Base.{
  ℕ, ◌-◌, List, [], ◌∷◌, ◌++◌, Bool, false, Option, none, some, if◌then◌else◌, length, take,
  replicate,
}
use messi.Uri.Strings.{codes}
use messi.Kernel.{Turn, answers, Call, callback}
use messi.Protocol.{Codec}
use messi.Linux.Client.State.{Client, Setup, Event, connected, send_each}
use messi.Linux.Client.Api.{Buffers, client_init, client_start, client_process}
use messi.Chat.{ToServer, ToClient}
use messi.Chat.Client.{ChatClient, chat_sends, chat_event, user_input}

-- The static variables, and the client of the library.
pub record ChatProgram : Type 0 where
  pub line : ChatClient
  pub library : Client ToClient

-- What `epoll_wait` reports: a character at the standard input, or a descriptor of the library.
pub data ChatTurn : Type 0 where
  typed : ℕ → ChatTurn
  reported : Turn → ChatTurn

-- The callbacks that a log notes, the oldest first.
abbrev pub events : List (Call (Event ToClient)) → List (Event ToClient)
events [] = []
events (callback e ∷ log) = events log ++ e ∷ []
events (_ ∷ log) = events log

abbrev pub new_events : (before after : List (Call (Event ToClient))) → List (Event ToClient)
new_events before after = events (take (length after - length before) after)

abbrev pub chat_events : List (Event ToClient) → ChatClient → ChatClient
chat_events [] a = a
chat_events (e ∷ es) a = chat_events es (chat_event e a)

-- `parse_args`, with the arguments behind the name of the program: the user and the URI; `none` is the exit
-- with the usage.
abbrev pub client_args : List (List ℕ) → Option (List ℕ × List ℕ)
client_args [] = none
client_args (user ∷ uri ∷ []) = some (user, uri)
client_args (user ∷ _) = some (user, codes "tcp://127.0.0.1:6000")

-- The buffers on the stack of `main`, with what `encoded_in` holds.
abbrev pub client_buffers : List ℕ → Buffers
client_buffers memory = record {
  encoded_in = memory;
  encoded_in_size = 128;
  workspace_in_size = 128;
  encoded_out_size = 128;
}

-- The static variables at the start of the program; `main` sets the user.
abbrev pub fresh_line : List ℕ → ChatClient
fresh_line user = record {
  user = user;
  line_length = 0;
  line_buf = replicate 128 0;
  is_connected = false;
}

module _ (to_server : Codec ToServer) (to_client : Codec ToClient) where
  -- What `main` gives to `chat_client_init`, for this user.
  abbrev pub chat_client : List ℕ → Setup ToServer ToClient
  chat_client user = record {
    to_server = to_server;
    to_client = to_client;
    on_connected = λ c. chat_sends connected (fresh_line user);
    on_disconnected = λ r c. [];
    on_message = λ m c. [];
  }

  -- One round of the loop of `main`.
  unfoldable pub chat_round : ChatTurn → ChatProgram → ChatProgram
  chat_round (typed c) p =
      let (line, sent) = user_input c p.line in
      record { line = line; library = send_each (chat_client p.line.user) sent p.library }
  chat_round (reported t) p =
      let answered = record (p.library) { world = answers t p.library.world } in
      let after = client_process (chat_client p.line.user) (some t.fd) answered in
      record {
        line = chat_events (new_events p.library.world.log after.world.log) p.line;
        library = after;
      }

  unfoldable pub chat_rounds : List ChatTurn → ChatProgram → ChatProgram
  unfolding chat_round
  chat_rounds [] p = p
  chat_rounds (t ∷ ts) p = chat_rounds ts (chat_round t p)

  -- `main` once the arguments are read.
  unfoldable pub chat_started :
      (List ℕ → ℕ) → List ℕ → List ℕ → List ℕ → Client ToClient → List ChatTurn → Option ChatProgram
  unfolding chat_rounds
  chat_started atoi user uri memory old ts =
      elim (client_init atoi uri (client_buffers memory) old) [
        | none ↦ none
        | some c ↦
            let started = client_start (chat_client user) c in
            some (
              chat_rounds ts (record {
                line = chat_events (new_events c.world.log started.world.log) (fresh_line user);
                library = started;
              }))
      ]

  -- `ready` is whether `epoll_create1` and the `epoll_ctl` for the standard input succeed. The end is that of
  -- the list of turns; `none` is the return before the loop.
  unfoldable pub chat_client_main :
      (List ℕ → ℕ)
      → List (List ℕ)
      → (ready : Bool) → List ℕ
      → Client ToClient
      → List ChatTurn
      → Option ChatProgram
  unfolding chat_started
  chat_client_main atoi args ready memory old ts = elim (client_args args) [
    | none ↦ none
    | some (user, uri) ↦ if ready then chat_started atoi user uri memory old ts else none
  ]
