-- ===== src/System/ClientToServer.antt =====
-- From the user of the Linux client to the user of the Linux server: `NAME_client_send` of
-- messi/c_source/templates/linux/client.c and `process_client_socket_in` of linux/server.c.
use messi.Base.{
  both_ways, ℕ, ◌<◌, ◌^◌, ◌≡◌, refl, sym, ap, ◌∙◌, subst, List, [], ◌∷◌, ◌++◌, true, false, Option,
  none, some, arith, length, All, append_assoc, append-nil, take, ==→eq, Bool-cases, inl, inr,
}
use messi.Header.{header_size, client_to_server_user}
use messi.Input.Frames.{concat, frame, append_cancel}
use messi.Input.Receive.{IsReading, held}
use messi.Input.Reading.{bytes_read}
use messi.Kernel.{Call, WriteReply, sent, again, failed, note_wrote, write}
use messi.Kernel.Counts.{written}
use messi.Protocol.{Codec, CodecLaws}
use messi.Reason.{Reason, message_encode_error, connection_closed}
use messi.Protocol.Messages.{Encoded, frames_sent, messages_sent}
use messi.Linux.Client.State.{
  Client, Setup, Event, size_sub, pending_disconnect, wrote_all, write_all, send_encoded,
  client_send, send_each,
}
use messi.Linux.Client.Callbacks.{send_each-Quiet}
use messi.Linux.Server.State.{Server}
use messi.Linux.Server.Send.{ServerSetup}
use messi.Linux.Server.Messages.{process_client_socket_in}
use messi.Linux.Server.Output.Stream.{take-length, written_wrote, write_log}
use messi.Linux.Server.Rounds.{input_of, given_by, HasFd, FitsReads}
use messi.Linux.Server.Delivery.{process_client_socket_in-sent}

-- The room for a payload in `output.encoded`.
abbrev pub payload_room : ℕ → ℕ
payload_room size = size_sub size header_size

module _ {S2c : Type 0} (fd : ℕ) where
  -- The bytes were written to the descriptor, whole, and it is still the client's.
  record Wrote (bytes : List ℕ) (c c' : Client S2c) : Type 0 where
    log : written fd c'.world.log ≡ written fd c.world.log ++ bytes
    server : c'.server_fd ≡ some fd
    room : c'.encoded_out_size ≡ c.encoded_out_size

  note_wrote_all :
      (bytes : List ℕ) (r : WriteReply) (log : List (Call (Event S2c)))
      → wrote_all r (length bytes) ≡ true
      → written fd (note_wrote (some fd) bytes r log) ≡ written fd log ++ bytes
  note_wrote_all bytes (sent n) log h =
      written_wrote fd (take n bytes) log
      ∙ ap (λ k. written fd log ++ take k bytes) (==→eq n (length bytes) h)
      ∙ ap (◌++◌ (written fd log)) (take-length bytes)
  note_wrote_all bytes again log h = cc
  note_wrote_all bytes failed log h = cc

  pending_disconnect-pending :
      (r : Reason) (c : Client S2c) → (pending_disconnect r c).pending_disconnect ≡ true
  unfolding pending_disconnect
  pending_disconnect-pending r c = ground arith

  write_all-Wrote :
      (bytes : List ℕ) (r : Reason) (c : Client S2c)
      → c.server_fd ≡ some fd
      → (write_all bytes r c).1.pending_disconnect ≡ false
      → Wrote bytes c (write_all bytes r c).1
  unfolding write_all
  write_all-Wrote bytes r c here up =
      elim (Bool-cases (wrote_all (write c.server_fd bytes c.world).0 (length bytes))) [
        | inl whole ↦ rw whole (record {
          log =
              ap (written fd) (write_log fd bytes c.world c.server_fd here)
              ∙ note_wrote_all bytes (write c.server_fd bytes c.world).0 c.world.log whole;
          server = here;
          room = refl;
        })
        | inr part ↦
            let w = (write c.server_fd bytes c.world).1 in
            let down = pending_disconnect-pending r (record c { world = w }) in
            absurd (both_ways down (rw part at up))
      ]

  send_encoded-Wrote :
      (o : Option (List ℕ)) (c : Client S2c)
      → c.server_fd ≡ some fd
      → (send_encoded o c).pending_disconnect ≡ false
      → (payload : List ℕ) × (o ≡ some payload)
        × Wrote (frame client_to_server_user payload) c (send_encoded o c)
  unfolding send_encoded frame
  send_encoded-Wrote none c here up =
      let down = pending_disconnect-pending message_encode_error c in absurd (cc)
  send_encoded-Wrote (some payload) c here up =
      (payload, refl, write_all-Wrote _ connection_closed c here up)

module _ {C2s S2c : Type 0} (setup : Setup C2s S2c) (laws : CodecLaws setup.to_server)
    (fd : ℕ) where
  -- What a number of calls of `NAME_client_send` wrote: the frames of the messages.
  record SentAll (ms : List C2s) (c c' : Client S2c) : Type 0 where
    sent : List (C2s × List ℕ)
    same : messages_sent sent ≡ ms
    encoded : All (Encoded setup.to_server (payload_room c.encoded_out_size)) sent
    log :
        written fd c'.world.log
        ≡ written fd c.world.log ++ concat (frames_sent client_to_server_user sent)

  -- While no disconnect is pending at the end, every message was written as a whole.
  send_each-SentAll :
      (ms : List C2s) (c : Client S2c)
      → c.server_fd ≡ some fd
      → payload_room c.encoded_out_size < 2 ^ 24
      → All (λ m. setup.to_server.known m ≡ true) ms
      → (send_each setup ms c).pending_disconnect ≡ false
      → SentAll ms c (send_each setup ms c)
  unfolding send_each client_send
  send_each-SentAll [] c here small known up = record {
    sent = [];
    same = refl;
    encoded = tt;
    log = sym (append-nil (written fd c.world.log));
  }
  send_each-SentAll (m ∷ ms) c here small known up =
      let c' = client_send setup m c in
      let room = payload_room c.encoded_out_size in
      let (payload, e, w) =
        send_encoded-Wrote fd (setup.to_server.encode m room) c here
          ((send_each-Quiet setup ms c').pending up) in
      let rest =
        send_each-SentAll ms c' w.server
          (subst (λ (n : ℕ). payload_room n < 2 ^ 24) (sym w.room) small) known.1 up in
      let one = frame client_to_server_user payload in
      record {
        sent = (m, payload) ∷ rest.sent;
        same = ap (◌∷◌ m) rest.same;
        encoded = (
          (e, known.0, omega (arith, laws.encode_fits m room payload e)),
          subst (λ (n : ℕ). All (Encoded setup.to_server (payload_room n)) rest.sent) w.room
              rest.encoded,
        );
        log =
            rest.log
            ∙ ap (λ t. t ++ concat (frames_sent client_to_server_user rest.sent)) w.log
            ∙ append_assoc (written fd c.world.log) one
                (concat (frames_sent client_to_server_user rest.sent));
      }

module _ {C2s S2c : Type 0} (setup : Setup C2s S2c) (server : ServerSetup C2s S2c) where
  -- The messages that the user of a client sends reach the user of the server, each once and in order.
  -- Let client and server have the same generated code, and let it decode what it encodes; let the
  -- client be connected, its room for a payload be less than 2^24 bytes and the messages be known to the
  -- protocol; and let the server be at a frame boundary of this client, with room to decode. If no
  -- disconnect of the client is pending after the messages were sent, if what `process_client_socket_in`
  -- reads, in whatever pieces within the contract of `read`, is what the client wrote, and if the
  -- server still has the client's descriptor at its end, then the server's user was given exactly these
  -- messages from this client, in their order, and the server is at a frame boundary again.
  pub client_to_server :
      (laws : CodecLaws setup.to_server) (fd : ℕ) (ms : List C2s) (c : Client S2c) (i : ℕ)
      (s : Server C2s)
      → server.to_server ≡ setup.to_server
      → c.server_fd ≡ some fd
      → payload_room c.encoded_out_size < 2 ^ 24
      → All (λ m. setup.to_server.known m ≡ true) ms
      → (send_each setup ms c).pending_disconnect ≡ false
      → IsReading (input_of i s)
      → held (input_of i s) ≡ []
      → server.to_server.new s.workspace_in_size ≡ true
      → FitsReads server i s.world.reads s
      → written fd (send_each setup ms c).world.log
        ≡ written fd c.world.log ++ bytes_read s.world.reads
      → HasFd i (process_client_socket_in server i s)
      → (given_by i (process_client_socket_in server i s) ≡ given_by i s ++ ms)
        × (held (input_of i (process_client_socket_in server i s)) ≡ [])
  client_to_server laws fd ms c i s codec here small known up ok fresh new fits net still =
      let w = send_each-SentAll setup laws fd ms c here small known up in
      let room = payload_room c.encoded_out_size in
      let stream = append_cancel (written fd c.world.log) _ _ (sym net ∙ w.log) in
      let r =
        process_client_socket_in-sent server i
          (subst (λ (k : Codec C2s). CodecLaws k) (sym codec) laws) s room w.sent ok fresh new
          (subst (λ (k : Codec C2s). All (Encoded k room) w.sent) (sym codec) w.encoded) fits stream
          still in
      (r.0 ∙ ap (◌++◌ (given_by i s)) w.same, r.1)
