-- ===== src/System/Tests.antt =====
-- The Linux client and the Linux server of messi/c_source/templates together, at a protocol whose messages
-- are numbers below 256, encoded in one byte.
use messi.Base.{ℕ, ◌≡◌, refl, List, [], ◌∷◌, arith}
use messi.Header.{header_at, header_get_size, header_create, header_bytes, header_set_size}
use messi.Input.{reset_input, received, message_type, message_payload}
use messi.Input.Frames.{frame}
use messi.Input.Receive.{held}
use messi.Kernel.{sent, again, note, attempt, write, malloc}
use messi.Linux.Client.State.{Client, send_each, call_back}
use messi.Linux.Client.Callbacks.{deliveries}
use messi.Linux.Client.Socket.{process_socket}
use messi.Linux.Client.Tests.{bytes, bytes-CodecLaws, silent, client, client-IsReading}
use messi.Linux.Server.State.{set_client, server_epoll_ctl_mod}
use messi.Linux.Server.Output.{client_write, process_client_socket_out}
use messi.Linux.Server.Send.{server_send, server_call_back}
use messi.Linux.Server.Messages.{process_client_socket_in}
use messi.Linux.Server.Rounds.{input_of, given_by}
use messi.Linux.Server.Tests.{server}
use messi.Linux.Server.Delivery.Tests.{echo, listening, reads-fit}
use messi.System.ClientToServer.{client_to_server}
use messi.System.Stream.{Step, sends, flushes}
use messi.System.ServerToClient.{server_to_client}
use messi.Linux.Client.Tests

-- A client whose socket takes two messages of one byte.
abbrev sending : Client ℕ
sending = record (client []) {
  world = record ((client []).world) { writes = sent 5 ∷ sent 5 ∷ [] };
}

-- It sends 7 and 9, which the server reads in five pieces.
client_to_server_example :
    (given_by 1 (process_client_socket_in echo 1 listening) ≡ 7 ∷ 9 ∷ [])
    × (held (input_of 1 (process_client_socket_in echo 1 listening)) ≡ [])
unfolding process_client_socket_in received message_type message_payload server_call_back
    reset_input header_at header_get_size frame header_bytes header_create header_set_size note
    attempt set_client client_write write malloc server_epoll_ctl_mod send_each
client_to_server_example =
    client_to_server silent echo bytes-CodecLaws 3 (7 ∷ 9 ∷ []) sending 1 listening refl refl
      (omega arith) (refl, (refl, tt)) refl
      (record { storage = refl; room = omega arith; waits = omega arith; phase = omega arith }) refl
      refl reads-fit refl refl

-- The server's socket takes three bytes, and later the rest; the second message waits in the queue.
abbrev steps : List (Step ℕ)
steps = sends 7 ∷ flushes ∷ sends 9 ∷ flushes ∷ []

server_to_client_example :
    deliveries (process_socket silent (client Tests.reads)).world.log ≡ 7 ∷ 9 ∷ []
unfolding process_socket received message_type message_payload call_back note reset_input header_at
    header_get_size frame header_bytes header_create header_set_size server_send write malloc
    set_client server_epoll_ctl_mod process_client_socket_out attempt client_write
server_to_client_example =
    server_to_client echo silent bytes-CodecLaws 10 0 steps
      (server [] (sent 3 ∷ again ∷ sent 2 ∷ again ∷ sent 5 ∷ [])) (client Tests.reads) refl refl
      refl (λ n. refl) (omega arith) (refl, (refl, tt)) refl refl (client-IsReading Tests.reads)
      refl refl Tests.reads-fit refl refl
