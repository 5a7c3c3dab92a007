-- ===== src/Linux/Client/EndToEnd.antt =====
-- From the server's encoder to the user of the Linux client: messages that are framed as
-- `encode_user_message` of messi/c_source/templates/linux/server.c frames them, and read by
-- `process_socket` of linux/client.c.
use messi.Base.{ℕ, ◌≡◌, ap, ◌∙◌, List, [], ◌++◌, true, false, All}
use messi.Header.{server_to_client_user}
use messi.Input.Frames.{concat}
use messi.Input.Receive.{IsReading, held}
use messi.Protocol.{CodecLaws}
use messi.Protocol.Messages.{
  Encoded, frames_sent, messages_sent, messages_in-sent, frames_sent-IsFrame,
}
use messi.Input.Reading.{bytes_read}
use messi.Linux.Client.State.{Client, Setup}
use messi.Linux.Client.Socket.{process_socket}
use messi.Linux.Client.Callbacks.{deliveries}
use messi.Linux.Client.Delivery.{FitsReads, process_socket-frames}

module _ {C2s S2c : Type 0} (setup : Setup C2s S2c) (laws : CodecLaws setup.to_client) where
  -- The messages that the server sent arrive, each once and in order. Let the generated code decode
  -- what it encodes, and let the client have room to decode. If what `process_socket` reads from a frame
  -- boundary on, in whatever pieces, is the frames of some messages that the client knows, of at most
  -- 2^24 - 1 bytes each, and no disconnect is pending at its end, then the user was given exactly these
  -- messages, in the order sent.
  pub process_socket-sent :
      (c : Client S2c) (room : ℕ) (sent : List (S2c × List ℕ))
      → IsReading c.input
      → held c.input ≡ []
      → setup.to_client.new c.workspace_in_size ≡ true
      → All (Encoded setup.to_client room) sent
      → FitsReads setup c.world.reads c
      → bytes_read c.world.reads ≡ concat (frames_sent server_to_client_user sent)
      → (process_socket setup c).pending_disconnect ≡ false
      → deliveries (process_socket setup c).world.log ≡ deliveries c.world.log ++ messages_sent sent
  process_socket-sent c room sent ok fresh new h fits stream up =
      (process_socket-frames setup c (frames_sent server_to_client_user sent) ok fresh fits
        (frames_sent-IsFrame setup.to_client server_to_client_user room sent h) stream up).0
      ∙ ap (◌++◌ (deliveries c.world.log)) (
          messages_in-sent setup.to_client server_to_client_user laws room c.workspace_in_size new
            sent h)
