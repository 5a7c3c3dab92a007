-- ===== src/Linux/Server/Rounds.antt =====
-- What one round of the loop of `process_client_socket_in` of
-- messi/c_source/templates/linux/server.c does, compared with the stream of bytes.
use messi.Base.{
  ℕ, ◌≤◌, ◌<◌, ◌≡◌, refl, sym, ap, ◌∙◌, subst, List, [], ◌∷◌, ◌++◌, Bool, true, false, arith,
  length, eq→==,
}
use messi.Header.{client_to_server_user}
use messi.Input.{Input, Outcome, more, too_big, message, reset_input, message_type, message_payload}
use messi.Input.Receive.{IsReading, Continues, held, reset_input-IsReading, room_for_header}
use messi.Input.Reading.{Reads, Reads-more, Reads-message, RoundReads}
use messi.Kernel.{Round, go_on, leave, ReadReply, got}
use messi.Protocol.Messages.{messages_in}
use messi.Linux.Client.Socket.{read_reply}
use messi.Linux.Server.State.{Server, ServerClient, set_client, client_pending_disconnect}
use messi.Linux.Server.Send.{ServerSetup}
use messi.Linux.Server.Messages.{
  set_input, client_reset_input, server_asked, server_handle_message, after_handled,
  server_after_received, in_round,
}
use messi.Linux.Server.Spares.{is_open, given_from, disconnect-closed}
use messi.Linux.Server.Handling.{Hands, handle_message-Hands}

module _ {C2s : Type 0} (i : ℕ) where
  abbrev pub input_of : Server C2s → Input
  input_of s = (s.clients i).input

  abbrev pub given_by : Server C2s → List C2s
  given_by s = given_from i s.world.log

  -- The client has a descriptor: it is not disconnected.
  abbrev pub HasFd : Server C2s → Type 0
  HasFd s = is_open (s.clients i).client_fd ≡ true

  set_input_at :
      (v : Input) (s : Server C2s)
      → (set_input i v s).clients i ≡ record (s.clients i) { input = v }
  unfolding set_input set_client
  set_input_at v s = rw (eq→== i i refl)

  set_input-keeps :
      (v : Input) (s : Server C2s)
      → ((set_input i v s).workspace_in_size ≡ s.workspace_in_size)
        × ((set_input i v s).world ≡ s.world)
  unfolding set_input set_client
  set_input-keeps v s = (refl, refl)

  pub disconnected-down : (s : Server C2s) → HasFd (client_pending_disconnect i s) → ⊥
  disconnected-down s up = let gone = disconnect-closed i s in absurd (cc)

module _ {C2s S2c : Type 0} (setup : ServerSetup C2s S2c) (i : ℕ) where
  -- The contract of `read`: while data comes, it is at least one byte and at most as many as were asked
  -- for.
  abbrev pub FitsRound : (Server C2s → Type 0) → Round (Server C2s) → Type 0
  FitsRound P (go_on s) = P s
  FitsRound P (leave s) = Unit

  abbrev pub FitsReads : List ReadReply → Server C2s → Type 0
  FitsReads [] s = Unit
  FitsReads (got bytes ∷ rs) s =
      (0 < length bytes)
      × (length bytes ≤ (s.clients i).input.left)
      × FitsRound (FitsReads rs)
          (in_round setup (read_reply (s.clients i).client_fd (got bytes)) i (server_asked rs i s))
  FitsReads (_ ∷ rs) s = Unit

  module _ (w : ℕ) where
    abbrev pub IsFixed : Server C2s → Type 0
    IsFixed s = s.workspace_in_size ≡ w

    abbrev pub messages : List ℕ → List C2s
    messages = messages_in setup.to_server client_to_server_user w

    abbrev pub ServerReads : Server C2s → List ℕ → List (List ℕ) → Server C2s → Type 0
    ServerReads = Reads (input_of i) (given_by i) (HasFd i) IsFixed messages

    abbrev pub Done : Server C2s → List ℕ → Round (Server C2s) → Type 0
    Done = RoundReads (input_of i) (given_by i) (HasFd i) IsFixed messages

    after_handled-Done :
        (s : Server C2s) (bytes : List ℕ) (v : Input) (r : Bool × Server C2s)
        → IsFixed s
        → IsReading (input_of i s)
        → Continues (input_of i s) bytes message v
        → Hands i (set_input i v s) (messages (held (input_of i s) ++ bytes)) r
        → Done s bytes (after_handled i r)
    unfolding after_handled client_reset_input
    after_handled-Done s bytes v (true, s') e ok h hands =
        let v' = reset_input (s'.clients i).input in
        let d = set_input i v' s' in
        let new = set_input_at i v' s' in
        let handled = set_input_at i v s in
        let kept = set_input-keeps i v s in
        let kept' = set_input-keeps i v' s' in
        let reset : input_of i d ≡ reset_input v =
          ap (λ (c : ServerClient). c.input) new
          ∙ ap reset_input (hands.input ∙ ap (λ (c : ServerClient). c.input) handled) in
        let fixed : IsFixed d = kept'.0 ∙ hands.workspace ∙ kept.0 ∙ e in
        let said : given_by i d ≡ given_by i s ++ messages (held (input_of i s) ++ bytes) =
          ap (λ w'. given_from i w'.log) kept'.1
          ∙ hands.said refl
          ∙ ap (λ w'. given_from i w'.log ++ messages (held (input_of i s) ++ bytes)) kept.1 in
        (
          subst IsReading (sym reset)
              (reset_input-IsReading v h.4 (omega (arith, h.5, room_for_header ok))),
          fixed,
          λ up. (
            (held (input_of i s) ++ bytes) ∷ [],
            Reads-message _ _ _ _ _ s d bytes v ok h reset said fixed (
                ap (λ (c : ServerClient). is_open c.client_fd) (sym handled)
                ∙ hands.up (ap (λ (c : ServerClient). is_open c.client_fd) (sym new) ∙ up)),
          ),
        )
    after_handled-Done s bytes v (false, s') e ok h hands = disconnected-down i s'

    pub after_received-Done :
        (s : Server C2s) (bytes : List ℕ) (o : Outcome) (v : Input)
        → IsFixed s
        → IsReading (input_of i s)
        → Continues (input_of i s) bytes o v
        → Done s bytes (server_after_received setup i (v, o) s)
    unfolding server_after_received
    after_received-Done s bytes more v e ok h =
        let new = set_input_at i v s in
        let kept = set_input-keeps i v s in
        let held_v : input_of i (set_input i v s) ≡ v = ap (λ (c : ServerClient). c.input) new in
        (
          subst IsReading (sym held_v) h.0,
          kept.0 ∙ e,
          λ up. (
            [],
            Reads-more _ _ _ _ _ s (set_input i v s) bytes v h held_v
                (ap (λ w'. given_from i w'.log) kept.1) (kept.0 ∙ e)
                (ap (λ (c : ServerClient). is_open c.client_fd) (sym new) ∙ up),
          ),
        )
    after_received-Done s bytes too_big v e ok h = disconnected-down i (set_input i v s)
    after_received-Done s bytes message v e ok h =
        let s1 = set_input i v s in
        let new = set_input_at i v s in
        let held_v : input_of i s1 ≡ v = ap (λ (c : ServerClient). c.input) new in
        after_handled-Done s bytes v (server_handle_message setup (message_type v) i s1) e ok h (
          subst
            (λ (n : ℕ).
              Hands i s1
                (messages_in setup.to_server client_to_server_user n (held (input_of i s) ++ bytes))
                (server_handle_message setup (message_type v) i s1))
            ((set_input-keeps i v s).0 ∙ e)
            (handle_message-Hands setup i s1 (held (input_of i s) ++ bytes) (message_type v) h.1
              (ap message_payload held_v ∙ h.2) (ap (λ (j : Input). j.size) held_v ∙ h.3)))
