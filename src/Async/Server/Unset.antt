-- ===== src/Async/Server/Unset.antt =====
-- What `NAME_server_init` of messi/c_source/templates/async/server.c leaves unset, and what follows from
-- it in the life of the server.
use messi.Base.{
  ℕ, zero, suc, ◌-◌, ◌≡◌, refl, ap, ◌∙◌, List, [], ◌∷◌, Bool, true, false, ◌&&◌, Option, none, some,
  ◌==◌, if_cases, arith,
}
use messi.Input.{Input, Outcome, more, too_big, message, received, message_type, message_payload}
use messi.Header.{header_size}
use messi.Kernel.{Round, go_on, leave}
use messi.Uri.{parse_tcp_uri}
use messi.Linux.Server.Api.{ServerBuffers}
use messi.Linux.Server.Links.{Ptr}
use messi.Linux.Server.Send.{Action}
use messi.Linux.Server.State.{ServerEvent, client_connected, client_disconnected}
use messi.Async.Server.State.{
  AsyncServer, AsyncServerSetup, callback, requests, set_input_of, async_broadcast_loop,
  broadcast_bytes, async_encode_user_message, async_server_broadcast, async_act,
  async_server_call_back,
}
use messi.Async.Server.Handlers.{
  async_client_reset_input, async_handle_message_ping, async_server_asked, on_stcp_client_connected,
  on_stcp_client_disconnected, async_server_handle_choice, async_server_handle_decoded,
  async_server_handle_message_user, async_server_handle_message, async_after_handled,
  async_server_after_received, async_in_round, on_stcp_client_input_loop, on_stcp_client_input,
}
use messi.Async.Server.Api.{async_server_init_parsed, async_server_init, async_server_start}
use messi.Async.Server.Acting.{act-OnlyCalls, act_each-OnlyCalls}

module _ {C2s S2c : Type 0} (setup : AsyncServerSetup C2s S2c) where
  -- What may happen next: a client connects, disconnects or sends, or the user sends.
  pub data ServerStep (s : AsyncServer C2s) : AsyncServer C2s → Type 0 where
    connects : (i : ℕ) → ServerStep s (on_stcp_client_connected setup i s)
    disconnects : (i : ℕ) → ServerStep s (on_stcp_client_disconnected setup i s)
    input_comes :
        (i : ℕ) (rs : List (List ℕ))
        → ServerStep s (on_stcp_client_input setup i (record s { reads = rs }))
    acts : (a : Action S2c) → ServerStep s (async_act setup a s)

  pub data ServerReach (start : AsyncServer C2s) : AsyncServer C2s → Type 0 where
    here : ServerReach start start
    next : {s t : AsyncServer C2s} → ServerReach start s → ServerStep s t → ServerReach start t

  -- The list of connected clients is as it was.
  abbrev SameList : Ptr → AsyncServer C2s → Type 0
  SameList p s = s.connected_list_p ≡ p

  module _ (p : Ptr) where
    act-SameList :
        (a : Action S2c) (s : AsyncServer C2s) → SameList p s → SameList p (async_act setup a s)
    act-SameList a s h =
        ap (λ (t : AsyncServer C2s). t.connected_list_p) (act-OnlyCalls setup a s).same ∙ h

    call_back-SameList :
        (e : ServerEvent C2s) (actions : AsyncServer C2s → List (Action S2c)) (s : AsyncServer C2s)
        → SameList p s
        → SameList p (async_server_call_back setup e actions s)
    unfolding async_server_call_back
    call_back-SameList e actions s h =
        let noted : AsyncServer C2s = requests (callback e) s in
        ap (λ (t : AsyncServer C2s). t.connected_list_p)
          (act_each-OnlyCalls setup (actions noted) noted).same
        ∙ h

    handle_choice-SameList :
        (i : ℕ) (m : C2s) (s : AsyncServer C2s)
        → SameList p s
        → SameList p (async_server_handle_choice setup i m s)
    unfolding async_server_handle_choice
    handle_choice-SameList i m s h =
        let s1 : AsyncServer C2s = record s { current_client_p = some i } in
        if_cases (SameList p) (setup.to_server.known m) _ _
          (λ k. call_back-SameList (ServerEvent.received i m) (setup.on_message i m) s1 h) (λ k. h)

    handle_decoded-SameList :
        (o : Option (ℕ × C2s)) (size i : ℕ) (s : AsyncServer C2s)
        → SameList p s
        → SameList p (async_server_handle_decoded setup o size i s).1
    unfolding async_server_handle_decoded
    handle_decoded-SameList none size i s h = h
    handle_decoded-SameList (some (res, m)) size i s h =
        if_cases (λ (r : Bool × AsyncServer C2s). SameList p r.1) (res == size) _ _
          (λ k. handle_choice-SameList i m s h) (λ k. h)

    handle_message_user-SameList :
        (i : ℕ) (s : AsyncServer C2s)
        → SameList p s
        → SameList p (async_server_handle_message_user setup i s).1
    unfolding async_server_handle_message_user
    handle_message_user-SameList i s h =
        let v = (s.clients i).input in
        if_cases (λ (r : Bool × AsyncServer C2s). SameList p r.1) (s.clients i).server_p _ _
          (λ k.
            if_cases (λ (r : Bool × AsyncServer C2s). SameList p r.1)
              (setup.to_server.new s.workspace_in_size) _ _
              (λ k'.
                handle_decoded-SameList (setup.to_server.decode (message_payload v))
                  (v.size - header_size) i s h)
              (λ k'. h))
          (λ k. h)

    handle_message-SameList :
        (type i : ℕ) (s : AsyncServer C2s)
        → SameList p s
        → SameList p (async_server_handle_message setup type i s).1
    unfolding async_server_handle_message async_handle_message_ping
    handle_message-SameList type i s h =
        if_cases (λ (r : Bool × AsyncServer C2s). SameList p r.1) (type == 1) _ _
          (λ k. handle_message_user-SameList i s h)
          (λ k.
            if_cases (λ (r : Bool × AsyncServer C2s). SameList p r.1) (type == 3) _ _ (λ k'. h)
              (λ k'. h))

    abbrev RoundSameList : Round (AsyncServer C2s) → Type 0
    RoundSameList (go_on s) = SameList p s
    RoundSameList (leave s) = SameList p s

    after_handled-SameList :
        (i : ℕ) (r : Bool × AsyncServer C2s)
        → SameList p r.1
        → RoundSameList (async_after_handled i r)
    unfolding async_after_handled async_client_reset_input set_input_of
    after_handled-SameList i (true, s) h = h
    after_handled-SameList i (false, s) h = h

    round-SameList :
        (i : ℕ) (o : Outcome) (v : Input) (s : AsyncServer C2s)
        → SameList p s
        → RoundSameList (async_server_after_received setup i (v, o) s)
    unfolding async_server_after_received set_input_of
    round-SameList i more v s h = h
    round-SameList i too_big v s h = h
    round-SameList i message v s h =
        after_handled-SameList i _
          (handle_message-SameList (message_type v) i (set_input_of i v s) h)

    after_round-SameList :
        (i : ℕ) (rs : List (List ℕ)) (r : Round (AsyncServer C2s))
        → ((s : AsyncServer C2s)
            → SameList p s
            → SameList p (on_stcp_client_input_loop setup rs i s))
        → RoundSameList r
        → SameList p (elim r [ go_on s ↦ on_stcp_client_input_loop setup rs i s | leave s ↦ s ])
    after_round-SameList i rs (go_on s) ih h = ih s h
    after_round-SameList i rs (leave s) ih h = h

    input_loop-SameList :
        (i : ℕ) (rs : List (List ℕ)) (s : AsyncServer C2s)
        → SameList p s
        → SameList p (on_stcp_client_input_loop setup rs i s)
    unfolding on_stcp_client_input_loop async_in_round
    input_loop-SameList i [] s h = h
    input_loop-SameList i ([] ∷ rs) s h = h
    input_loop-SameList i ((b ∷ bytes) ∷ rs) s h =
        let r = received (s.clients i).input (b ∷ bytes) in
        after_round-SameList i rs
          (async_server_after_received setup i r (async_server_asked rs i s))
          (input_loop-SameList i rs) (round-SameList i r.1 r.0 (async_server_asked rs i s) h)

    Step-SameList : {s t : AsyncServer C2s} → ServerStep s t → SameList p s → SameList p t
    unfolding on_stcp_client_connected on_stcp_client_disconnected on_stcp_client_input
        async_client_reset_input set_input_of
    Step-SameList {s} (connects i) h =
        if_cases (SameList p) ((s.clients i).server_p && s.has_on_client_connected) _ _
          (λ k.
            call_back-SameList (client_connected i) (setup.on_client_connected i)
              (async_client_reset_input i s) h)
          (λ k. h)
    Step-SameList {s} (disconnects i) h =
        if_cases (SameList p) ((s.clients i).server_p && s.has_on_client_disconnected) _ _
          (λ k. call_back-SameList (client_disconnected i) (setup.on_client_disconnected i) s h)
          (λ k. h)
    Step-SameList {s} (input_comes i rs) h = input_loop-SameList i rs (record s { reads = rs }) h
    Step-SameList {s} (acts a) h = act-SameList a s h

    Reach-SameList :
        {start s : AsyncServer C2s} → ServerReach start s → SameList p start → SameList p s
    Reach-SameList here h = h
    Reach-SameList (next r st) h = Step-SameList st (Reach-SameList r h)

  loop_nobody :
      (n : ℕ) (bytes : List ℕ) (s : AsyncServer C2s) → async_broadcast_loop n none bytes s ≡ s
  unfolding async_broadcast_loop
  loop_nobody zero bytes s = refl
  loop_nobody (suc n) bytes s = refl

  broadcast_bytes_nobody :
      (o : Option (List ℕ)) (s : AsyncServer C2s)
      → s.connected_list_p ≡ none
      → broadcast_bytes setup o s ≡ s
  broadcast_bytes_nobody none s e = refl
  broadcast_bytes_nobody (some bytes) s e =
      ap (λ (p : Ptr). async_broadcast_loop setup.clients_max p bytes s) e
      ∙ loop_nobody setup.clients_max bytes s

  init_parsed-list :
      (o : Option (List ℕ × ℕ)) (n : ℕ) (b : ServerBuffers) (old s : AsyncServer C2s)
      → async_server_init_parsed o n b old ≡ some s
      → (s.connected_list_p ≡ old.connected_list_p)
        × (s.has_on_client_connected ≡ old.has_on_client_connected)
  unfolding async_server_init_parsed
  init_parsed-list none n b old s e = absurd (cc)
  init_parsed-list (some (host, port)) n b old s e = ground arith

  -- A server that is initialised in cleared memory never gets a list of connected clients: whatever clients
  -- connect, disconnect and send, and whatever the user sends, a broadcast reaches nobody.
  pub broadcast_reaches_nobody :
      (atoi : List ℕ → ℕ) (uri : List ℕ) (b : ServerBuffers) (old start s : AsyncServer C2s)
      (m : S2c)
      → old.connected_list_p ≡ none
      → async_server_init atoi uri setup.clients_max b old ≡ some start
      → ServerReach (async_server_start start) s
      → async_server_broadcast setup m s ≡ s
  unfolding async_server_broadcast async_server_init async_server_start
  broadcast_reaches_nobody atoi uri b old start s m clear e r =
      broadcast_bytes_nobody (async_encode_user_message setup m s) s
        (Reach-SameList none r ((init_parsed-list _ setup.clients_max b old start e).0 ∙ clear))

  -- A server that is initialised in cleared memory calls its callback for the first connection through
  -- NULL, whatever callback it was given.
  pub first_connection_faults :
      (atoi : List ℕ → ℕ) (uri : List ℕ) (b : ServerBuffers) (old start : AsyncServer C2s) (i : ℕ)
      → old.has_on_client_connected ≡ false
      → async_server_init atoi uri setup.clients_max b old ≡ some start
      → (on_stcp_client_connected setup i (async_server_start start)).fault ≡ true
  unfolding async_server_init async_server_start on_stcp_client_connected async_client_reset_input
      set_input_of
  first_connection_faults atoi uri b old start i clear e =
      let unset : start.has_on_client_connected ≡ false =
        (init_parsed-list (parse_tcp_uri atoi uri 16) setup.clients_max b old start e).1 ∙ clear in
      if_cases (λ (t : AsyncServer C2s). t.fault ≡ true)
        ((start.clients i).server_p && start.has_on_client_connected) _ _
        (λ k. absurd (ground arith)) (λ k. refl)
