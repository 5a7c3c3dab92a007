-- ===== src/Async/Client/UnderWay.antt =====
-- One thing is always under way in the life of an async client, messi/c_source/templates/async/client.c.
use messi.Base.{
  ℕ, ◌-◌, ◌<◌, ◌≡◌, refl, ◌∙◌, List, [], ◌∷◌, Bool, true, false, Option, none, some, arith, ◌==◌,
  if_cases,
}
use messi.Header.{header_size}
use messi.Input.{Input, Outcome, more, too_big, message, message_type, message_payload}
use messi.Kernel.{Round, go_on, leave}
use messi.Reason.{Reason}
use messi.Linux.Client.State.{size_sub, Event, connected, disconnected}
use messi.Async.Client.State.{
  AsyncClient, AsyncSetup, keep_alive, timer_started, expired, connect_ended, connection_lost,
  input_arrived, call_made, callback, calls, disconnect_and_start_reconnect_timer,
  async_send_encoded, async_client_send, async_send_each, async_call_back,
}
use messi.Async.Client.Handlers.{
  on_keep_alive_timeout, on_stcp_disconnected, async_client_start, async_on_disconnected,
  async_handle_decoded, async_handle_message, on_stcp_connected, async_after_received, async_asked,
  async_round, on_stcp_input_loop, on_stcp_input,
}
use messi.Async.Client.Lifecycle.{
  connecting, posted, happens, IsUnderWay, Step, connect_ends, connection_is_lost, input_comes,
  keep_alive_expires, reconnect_expires, call_is_made, user_sends, Reach, started, later,
}

module _ {C2s S2c : Type 0} (setup : AsyncSetup C2s S2c) where
  disconnect-IsUnderWay :
      (r : Reason) (c : AsyncClient S2c)
      → IsUnderWay c
      → IsUnderWay (disconnect_and_start_reconnect_timer r c)
  unfolding disconnect_and_start_reconnect_timer
  disconnect-IsUnderWay r c h = ground arith

  send_encoded-IsUnderWay :
      (o : Option (List ℕ)) (c : AsyncClient S2c)
      → IsUnderWay c
      → IsUnderWay (async_send_encoded o c)
  unfolding async_send_encoded
  send_encoded-IsUnderWay none c h = disconnect-IsUnderWay _ c h
  send_encoded-IsUnderWay (some p) c h = ground arith

  send_each-IsUnderWay :
      (ms : List C2s) (c : AsyncClient S2c) → IsUnderWay c → IsUnderWay (async_send_each setup ms c)
  unfolding async_send_each async_client_send
  send_each-IsUnderWay [] c h = h
  send_each-IsUnderWay (m ∷ ms) c h =
      send_each-IsUnderWay ms (async_client_send setup m c) (send_encoded-IsUnderWay _ c h)

  call_back-IsUnderWay :
      (e : Event S2c) (sends : AsyncClient S2c → List C2s) (c : AsyncClient S2c)
      → IsUnderWay c
      → IsUnderWay (async_call_back setup e sends c)
  unfolding async_call_back
  call_back-IsUnderWay e sends c h =
      send_each-IsUnderWay (sends (calls (callback e) c)) (calls (callback e) c)
        (record { one = h.one; guarded = h.guarded })

  handle_decoded-IsUnderWay :
      (o : Option (ℕ × S2c)) (size : ℕ) (c : AsyncClient S2c)
      → IsUnderWay c
      → IsUnderWay (async_handle_decoded setup o size c)
  unfolding async_handle_decoded
  handle_decoded-IsUnderWay none size c h = disconnect-IsUnderWay _ c h
  handle_decoded-IsUnderWay (some (res, m)) size c h =
      if_cases IsUnderWay (res == size) _ _
        (λ k.
          if_cases IsUnderWay (setup.to_client.known m) _ _
            (λ k'. call_back-IsUnderWay (Event.received m) (setup.on_message m) c h) (λ k'. h))
        (λ k. disconnect-IsUnderWay _ c h)

  handle_message-IsUnderWay :
      (type : ℕ) (c : AsyncClient S2c)
      → IsUnderWay c
      → IsUnderWay (async_handle_message setup type c)
  unfolding async_handle_message
  handle_message-IsUnderWay type c h =
      if_cases IsUnderWay (type == 2) _ _
        (λ k.
          if_cases IsUnderWay (setup.to_client.new c.workspace_in_size) _ _
            (λ k'.
              handle_decoded-IsUnderWay (setup.to_client.decode (message_payload c.input))
                (c.input.size - header_size) c h)
            (λ k'. h))
        (λ k.
          if_cases IsUnderWay (type == 4) _ _ (λ k'. record { one = h.one; guarded = h.guarded })
            (λ k'. h))

  abbrev RoundIsUnderWay : Round (AsyncClient S2c) → Type 0
  RoundIsUnderWay (go_on c) = IsUnderWay c
  RoundIsUnderWay (leave c) = IsUnderWay c

  with_input-IsUnderWay :
      (i : Input) (c : AsyncClient S2c) → IsUnderWay c → IsUnderWay (record c { input = i })
  with_input-IsUnderWay i c h = record { one = h.one; guarded = h.guarded }

  after_received-IsUnderWay :
      (i : Input) (o : Outcome) (c : AsyncClient S2c)
      → IsUnderWay c
      → RoundIsUnderWay (async_after_received setup (i, o) c)
  unfolding async_after_received
  after_received-IsUnderWay i more c h = with_input-IsUnderWay i c h
  after_received-IsUnderWay i too_big c h =
      disconnect-IsUnderWay _ (record c { input = i }) (with_input-IsUnderWay i c h)
  after_received-IsUnderWay i message c h =
      let c' = async_handle_message setup (message_type i) (record c { input = i }) in
      with_input-IsUnderWay _ c' (
        handle_message-IsUnderWay (message_type i) (record c { input = i })
          (with_input-IsUnderWay i c h))

  round-IsUnderWay :
      (bytes : List ℕ) (c : AsyncClient S2c)
      → IsUnderWay c
      → RoundIsUnderWay (async_round setup bytes c)
  unfolding async_round
  round-IsUnderWay [] c h = h
  round-IsUnderWay (b ∷ bytes) c h = after_received-IsUnderWay _ _ c h

  after_round-IsUnderWay :
      (rs : List (List ℕ)) (r : Round (AsyncClient S2c))
      → ((c : AsyncClient S2c) → IsUnderWay c → IsUnderWay (on_stcp_input_loop setup rs c))
      → RoundIsUnderWay r
      → IsUnderWay (elim r [ go_on c ↦ on_stcp_input_loop setup rs c | leave c ↦ c ])
  after_round-IsUnderWay rs (go_on c) ih k = ih c k
  after_round-IsUnderWay rs (leave c) ih k = k

  input_loop-IsUnderWay :
      (rs : List (List ℕ)) (c : AsyncClient S2c)
      → IsUnderWay c
      → IsUnderWay (on_stcp_input_loop setup rs c)
  unfolding on_stcp_input_loop
  input_loop-IsUnderWay [] c h = record { one = h.one; guarded = h.guarded }
  input_loop-IsUnderWay (bytes ∷ rs) c h =
      after_round-IsUnderWay rs (async_round setup bytes (async_asked rs c))
        (input_loop-IsUnderWay rs)
        (round-IsUnderWay bytes (async_asked rs c) (record { one = h.one; guarded = h.guarded }))

  -- What sending does while there is no connection: at most it writes.
  record Idle (c c' : AsyncClient S2c) : Type 0 where
    still : c'.is_connected ≡ false
    connects : connecting c'.log ≡ connecting c.log
    calls_posted : posted c'.log ≡ posted c.log

  send_encoded-Idle :
      (o : Option (List ℕ)) (c : AsyncClient S2c)
      → c.is_connected ≡ false
      → Idle c (async_send_encoded o c)
  unfolding async_send_encoded disconnect_and_start_reconnect_timer
  send_encoded-Idle none c off = ground arith
  send_encoded-Idle (some p) c off = ground arith

  send_each-Idle :
      (ms : List C2s) (c : AsyncClient S2c)
      → c.is_connected ≡ false
      → Idle c (async_send_each setup ms c)
  unfolding async_send_each async_client_send
  send_each-Idle [] c off = record { still = off; connects = refl; calls_posted = refl }
  send_each-Idle (m ∷ ms) c off =
      let first =
        send_encoded-Idle (setup.to_server.encode m (size_sub c.encoded_out_size header_size)) c
          off in
      let rest = send_each-Idle ms (async_client_send setup m c) first.still in
      record {
        still = rest.still;
        connects = rest.connects ∙ first.connects;
        calls_posted = rest.calls_posted ∙ first.calls_posted;
      }

  call_made-IsUnderWay :
      (c : AsyncClient S2c)
      → IsUnderWay c
      → 0 < posted c.log
      → IsUnderWay (async_on_disconnected setup (happens call_made c))
  unfolding async_on_disconnected async_call_back
  call_made-IsUnderWay c h p =
      let off : c.is_connected ≡ false = ground arith in
      let noted : AsyncClient S2c =
        calls (callback (disconnected c.disconnect_reason)) (happens call_made c) in
      let idle = send_each-Idle (setup.on_disconnected c.disconnect_reason noted) noted off in
      let last = async_send_each setup (setup.on_disconnected c.disconnect_reason noted) noted in
      record {
        one = rw idle.still (omega (arith, idle.connects, idle.calls_posted, rw off at h.one));
        guarded = λ on. absurd (ground (arith, idle.still));
      }

  connected-IsUnderWay :
      (r : Bool) (c : AsyncClient S2c)
      → IsUnderWay c
      → 0 < connecting c.log
      → IsUnderWay (on_stcp_connected setup r (happens (connect_ended r) c))
  unfolding on_stcp_connected
  connected-IsUnderWay true c h p =
      call_back-IsUnderWay connected setup.on_connected
        (record (calls (timer_started keep_alive) (happens (connect_ended true) c)) {
          pong_received = true;
          is_connected = true;
        })
        (ground arith)
  connected-IsUnderWay false c h p = ground arith

  keep_alive-IsUnderWay :
      (c : AsyncClient S2c)
      → IsUnderWay c
      → IsUnderWay (on_keep_alive_timeout (happens (expired keep_alive) c))
  unfolding on_keep_alive_timeout disconnect_and_start_reconnect_timer
  keep_alive-IsUnderWay c h = ground arith

  pub Step-IsUnderWay : {c d : AsyncClient S2c} → Step setup c d → IsUnderWay c → IsUnderWay d
  unfolding async_client_start async_client_send on_stcp_input on_stcp_disconnected
  Step-IsUnderWay {c} (connect_ends r p) h = connected-IsUnderWay r c h p
  Step-IsUnderWay {c} connection_is_lost h =
      disconnect-IsUnderWay _ (happens connection_lost c)
        (record { one = h.one; guarded = h.guarded })
  Step-IsUnderWay {c} (input_comes rs) h =
      input_loop-IsUnderWay rs (happens input_arrived (record c { reads = rs }))
        (record { one = h.one; guarded = h.guarded })
  Step-IsUnderWay {c} (keep_alive_expires p) h = keep_alive-IsUnderWay c h
  Step-IsUnderWay {c} (reconnect_expires p) h = ground arith
  Step-IsUnderWay {c} (call_is_made p) h = call_made-IsUnderWay c h p
  Step-IsUnderWay {c} (user_sends m) h = send_encoded-IsUnderWay _ c h

  -- From `NAME_client_start` on, whatever the framework reports and whatever the user sends, if it does
  -- not stop the client: exactly one thing is under way, a connection, a connect, the reconnect timer
  -- or the posted call that starts it, so the client neither gives up nor connects twice; and while it is
  -- connected, its keep alive timer runs.
  pub Reach-IsUnderWay : {c : AsyncClient S2c} → Reach setup c → IsUnderWay c
  unfolding async_client_start
  Reach-IsUnderWay (started c off new) =
      let none_yet : c.log ≡ [] = new in
      rw (off, new) (record { one = refl; guarded = λ on. absurd (cc) })
  Reach-IsUnderWay (later r st) = Step-IsUnderWay st (Reach-IsUnderWay r)
