-- ===== src/System/ServerToClient.antt =====
-- From the user of the Linux server to the user of a Linux client: `NAME_server_send` and
-- `process_client_socket_out` of messi/c_source/templates/linux/server.c and `process_socket` of
-- linux/client.c.
use messi.Base.{ℕ, ◌<◌, ◌^◌, ◌≡◌, refl, sym, ap, ◌∙◌, subst, List, [], ◌++◌, true, false, some, All}
use messi.Header.{server_to_client_user}
use messi.Input.Frames.{concat, append_cancel}
use messi.Input.Receive.{IsReading, held}
use messi.Input.Reading.{bytes_read}
use messi.Kernel.Counts.{written}
use messi.Protocol.{Codec, CodecLaws}
use messi.Protocol.Messages.{Encoded, frames_sent}
use messi.Linux.Client.State.{Client, Setup}
use messi.Linux.Client.Socket.{process_socket}
use messi.Linux.Client.Callbacks.{deliveries}
use messi.Linux.Client.Delivery.{FitsReads}
use messi.Linux.Client.EndToEnd.{process_socket-sent}
use messi.Linux.Server.State.{Server}
use messi.Linux.Server.Send.{ServerSetup}
use messi.System.ClientToServer.{payload_room}
use messi.System.Follows.{HasMemory}
use messi.System.Stream.{Step, do_steps, fitting, KnowsAll, do_steps-Streamed, written-all}

module _ {C2s S2c : Type 0} (server : ServerSetup C2s S2c) (setup : Setup C2s S2c) where
  -- The messages that the user of the server sends to a client reach the user of that client, each once and
  -- in order, whether they are written at once, in parts or from the queue. Let client and server have
  -- the same generated code, and let it decode what it encodes; let the server have a descriptor of the
  -- client, an empty queue for it, memory for every allocation and room for a payload of less than 2^24
  -- bytes, and let the messages be known to the protocol; and let the client be at a frame boundary, with
  -- room to decode. If after any sequence of sends to the client and of writes from its queue the server
  -- still has that descriptor and the queue is empty, if what the client's `process_socket` reads, in
  -- whatever pieces within the contract of `read`, is what the server wrote to the descriptor, and if no
  -- disconnect of the client is pending at its end, then the client's user was given exactly those of
  -- the messages that the server's buffer has room for, in their order.
  pub server_to_client :
      (laws : CodecLaws server.to_client) (fd i : ℕ) (ts : List (Step S2c)) (s : Server C2s)
      (c : Client S2c)
      → setup.to_client ≡ server.to_client
      → (s.clients i).client_fd ≡ some fd
      → (s.clients i).output ≡ []
      → HasMemory s
      → payload_room s.encoded_out_size < 2 ^ 24
      → KnowsAll server i ts
      → ((do_steps server i ts s).clients i).client_fd ≡ some fd
      → ((do_steps server i ts s).clients i).output ≡ []
      → IsReading c.input
      → held c.input ≡ []
      → setup.to_client.new c.workspace_in_size ≡ true
      → FitsReads setup c.world.reads c
      → written fd (do_steps server i ts s).world.log
        ≡ written fd s.world.log ++ bytes_read c.world.reads
      → (process_socket setup c).pending_disconnect ≡ false
      → deliveries (process_socket setup c).world.log
        ≡ deliveries c.world.log ++ fitting server i (payload_room s.encoded_out_size) ts
  server_to_client laws fd i ts s c codec here empty memory small known still flushed ok fresh new
        fits_ net up =
      let room = payload_room s.encoded_out_size in
      let w = do_steps-Streamed server i laws fd ts s room refl known small here memory still in
      let s' = do_steps server i ts s in
      let bytes = append_cancel (written fd s.world.log) _ _ (
        sym net
        ∙ sym (written-all server i fd s' flushed)
        ∙ w.log
        ∙ ap (λ t. t ++ concat (frames_sent server_to_client_user w.sent))
            (written-all server i fd s empty)) in
      process_socket-sent setup (subst (λ (k : Codec S2c). CodecLaws k) (sym codec) laws) c room
        w.sent ok fresh new
        (subst (λ (k : Codec S2c). All (Encoded k room) w.sent) (sym codec) w.encoded) fits_ bytes
        up
      ∙ ap (◌++◌ (deliveries c.world.log)) w.same
