-- ===== src/Linux/Server/Orderly/Events.antt =====
-- What comes from a client leaves the lists of messi/c_source/templates/linux/server.c well formed: the
-- reads and writes of its socket and the expiry of its timer, with whatever the user's callbacks do.
use messi.Base.{ℕ, refl, List, Bool, some, if◌then◌else◌, if_cases}
use messi.Kernel.{callback, note}
use messi.Linux.Server.State.{Server, ServerEvent}
use messi.Linux.Server.Send.{Action, ServerSetup, server_call_back}
use messi.Linux.Server.Messages.{server_handle_choice}
use messi.Linux.Server.Api.{Owner, socket_of, keep_alive_timer_of, nobody, process_owner}
use messi.Linux.Server.Rules.{act_each-Kept}
use messi.Linux.Server.Rules.Events.{process_client_socket-Kept}
use messi.Linux.Server.Orderly.{IsOrderly, no_client, any_client, Orderly-Kept}
use messi.Linux.Server.Orderly.Steps.{calls-IsOrderly, Orderly-EventKept}

module _ {C2s S2c : Type 0} (setup : ServerSetup C2s S2c) (n : ℕ) where
  pub call_back-IsOrderly :
      (e : ServerEvent C2s) (actions : Server C2s → List (Action S2c)) (s : Server C2s)
      → IsOrderly n s
      → IsOrderly n (server_call_back setup e actions s)
  unfolding server_call_back
  call_back-IsOrderly e actions s h =
      let noted : Server C2s = record s { world = note (callback e) s.world } in
      act_each-Kept (IsOrderly n) (Orderly-Kept n) setup (actions noted) noted
        (calls-IsOrderly n no_client any_client s noted refl refl h)

  handle_choice-IsOrderly :
      (i : ℕ) (m : C2s) (s : Server C2s)
      → IsOrderly n s
      → IsOrderly n (server_handle_choice setup i m s)
  unfolding server_handle_choice
  handle_choice-IsOrderly i m s h =
      let s1 : Server C2s = record s { current_client_p = some i } in
      let h1 = calls-IsOrderly n no_client any_client s s1 refl refl h in
      let called = server_call_back setup (ServerEvent.received i m) (setup.on_message i m) s1 in
      calls-IsOrderly n no_client any_client (if setup.to_server.known m then called else s1)
        (server_handle_choice setup i m s) refl refl
        (if_cases (IsOrderly n) (setup.to_server.known m) called s1
          (λ k. call_back-IsOrderly (ServerEvent.received i m) (setup.on_message i m) s1 h1)
          (λ k. h1))

  -- Whatever happens on a descriptor of a client, and whatever the user's callbacks write and whomever
  -- they disconnect: if each of `n` clients is in one of the three lists, these are well formed, and only
  -- connected clients have a descriptor, then the same holds afterwards.
  pub process_owner-IsOrderly :
      (o : Owner) (out in_ : Bool) (s : Server C2s)
      → IsOrderly n s
      → IsOrderly n (process_owner setup o out in_ s)
  unfolding process_owner
  process_owner-IsOrderly (socket_of i) out in_ s h =
      process_client_socket-Kept setup (IsOrderly n) i
        (Orderly-EventKept n no_client any_client setup i refl (handle_choice-IsOrderly i)) out in_
        s h
  process_owner-IsOrderly (keep_alive_timer_of i) out in_ s h = (Orderly-Kept n).by_disconnect i s h
  process_owner-IsOrderly nobody out in_ s h = h
