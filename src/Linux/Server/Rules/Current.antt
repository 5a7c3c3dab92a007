-- ===== src/Linux/Server/Rules/Current.antt =====
-- The current client of messi/c_source/templates/linux/server.c: only the handling of a message sets it,
-- and clears it again.
use messi.Base.{ℕ, ◌≡◌, refl, List, [], ◌∷◌, none, some, Option}
use messi.Kernel.{Fd, callback, note, malloc}
use messi.Linux.Server.Links.{Ptr}
use messi.Linux.Server.State.{
  Server, ServerEvent, OutputItem, set_client, free_client_output, disconnect_from,
  client_pending_disconnect,
}
use messi.Linux.Server.Output.{append_item, client_output_append, end_of_out}
use messi.Linux.Server.Send.{Action, ServerSetup, server_call_back}
use messi.Linux.Server.Messages.{set_input, client_start_keep_alive_timer, server_handle_choice}
use messi.Linux.Server.Rules.{Kept, Kept-KeptAt, act_each-Kept}
use messi.Linux.Server.Rules.Events.{EventKept}

module _ {C2s : Type 0} (p : Ptr) where
  abbrev pub CurrentIs : Server C2s → Type 0
  CurrentIs s = s.current_client_p ≡ p

  append_item-CurrentIs :
      (o : Option ℕ) (i : ℕ) (bytes : List ℕ) (s : Server C2s)
      → CurrentIs s
      → CurrentIs (append_item o i bytes s)
  unfolding append_item set_client
  append_item-CurrentIs none i bytes s h = h
  append_item-CurrentIs (some a) i bytes s h = h

  disconnect_from-CurrentIs :
      (fd : Fd) (i : ℕ) (s : Server C2s) → CurrentIs s → CurrentIs (disconnect_from fd i s)
  unfolding disconnect_from free_client_output set_client
  disconnect_from-CurrentIs none i s h = h
  disconnect_from-CurrentIs (some fd) i s h = h

  pub CurrentIs-Kept : Kept CurrentIs
  unfolding client_output_append client_pending_disconnect
  CurrentIs-Kept = record {
    by_write = λ i bytes s h. h;
    by_append = λ i bytes s h.
        append_item-CurrentIs (malloc s.world).0 i bytes (record s { world = (malloc s.world).1 })
          h;
    by_disconnect = λ i s h. disconnect_from-CurrentIs (s.clients i).client_fd i s h;
  }

  end_of_out-CurrentIs :
      (i : ℕ) (items : List OutputItem) (s : Server C2s)
      → CurrentIs s
      → CurrentIs (end_of_out i items s)
  unfolding end_of_out set_client
  end_of_out-CurrentIs i [] s h = h
  end_of_out-CurrentIs i (item ∷ items) s h = h

  pub call_back-CurrentIs :
      {S2c : Type 0} (setup : ServerSetup C2s S2c) (e : ServerEvent C2s)
      (actions : Server C2s → List (Action S2c)) (s : Server C2s)
      → CurrentIs s
      → CurrentIs (server_call_back setup e actions s)
  unfolding server_call_back
  call_back-CurrentIs setup e actions s h =
      let noted : Server C2s = record s { world = note (callback e) s.world } in
      act_each-Kept CurrentIs CurrentIs-Kept setup (actions noted) noted h

-- Between the events no client is the current one.
pub idle-EventKept :
    {C2s S2c : Type 0} (setup : ServerSetup C2s S2c) (i : ℕ) → EventKept setup i (CurrentIs none)
unfolding set_input set_client client_start_keep_alive_timer server_handle_choice
idle-EventKept setup i = record {
  out = record {
    client = Kept-KeptAt (CurrentIs none) i (CurrentIs-Kept none);
    by_free = λ a s h. h;
    by_end = λ items s. end_of_out-CurrentIs none i items s;
  };
  by_input = λ v s h. h;
  by_timer = λ s h. h;
  by_read = λ rs s h. h;
  by_choice = λ m s h. refl;
}
