-- ===== src/Linux/Client/Life/States.antt =====
-- The states of a client of messi/c_source/templates/linux/client.c between and within the events: live,
-- busy, down and idle.
use messi.Base.{ℕ, ◌≡◌, refl, List, Bool, true, false, Option, none, some, if_cases}
use messi.Kernel.{is_open, Fd, World, create_fd}
use messi.Reason.{Reason}
use messi.Input.{reset_input}
use messi.Uri.{parse_tcp_uri}
use messi.Linux.Client.State.{Client, Event, epoll_ctl_add, pending_disconnect}
use messi.Linux.Client.Connect.{
  watch_reconnect_timer, reconnect_timer_created, start_reconnect_timer,
}
use messi.Linux.Client.Api.{Buffers, client_init}
use messi.Linux.Client.Rules.{ClientKept}
use messi.Linux.Client.Life.{IsLive}

pub closed_open : {fd : Fd} → fd ≡ none → is_open fd ≡ true → ⊥
closed_open e k = cc

module _ {S2c : Type 0} where
  -- The parts of `IsLive` that hold within an event, with the reconnect timer that there is.
  pub record IsBusy (timer : Fd) (c : Client S2c) : Type 0 where
    pub down : c.pending_disconnect ≡ true → c.server_fd ≡ none
    pub timed : is_open c.server_fd ≡ true → is_open c.keep_alive_timer_fd ≡ true
    pub alone : is_open c.server_fd ≡ true → c.reconnect_timer_fd ≡ none
    pub same : c.reconnect_timer_fd ≡ timer

  -- Neither connected nor to be disconnected.
  pub record IsDown (c : Client S2c) : Type 0 where
    pub server : c.server_fd ≡ none
    pub up : c.pending_disconnect ≡ false

  pub IsDown-IsLive : (c : Client S2c) → IsDown c → IsLive c
  IsDown-IsLive c h = record {
    down = λ k. h.server;
    timed = λ k. absurd (closed_open h.server k);
    alone = λ k. absurd (closed_open h.server k);
    waiting = λ k. h.up;
  }

  pending_disconnect-IsBusy :
      (timer : Fd) (r : Reason) (c : Client S2c)
      → IsBusy timer c
      → IsBusy timer (pending_disconnect r c)
  unfolding pending_disconnect
  pending_disconnect-IsBusy timer r c h =
      if_cases (IsBusy timer) c.pending_disconnect _ _ (λ k. h)
        (λ k. record {
          down = λ e. refl;
          timed = λ e. absurd (cc);
          alone = λ e. absurd (cc);
          same = h.same;
        })

  pub IsBusy-Kept : (timer : Fd) → ClientKept (IsBusy timer)
  IsBusy-Kept timer = record {
    by_call = λ c w h. record { down = h.down; timed = h.timed; alone = h.alone; same = h.same };
    by_disconnect = pending_disconnect-IsBusy timer;
    by_input = λ v c h. record { down = h.down; timed = h.timed; alone = h.alone; same = h.same };
    by_pong = λ b c h. record { down = h.down; timed = h.timed; alone = h.alone; same = h.same };
  }

  watch_reconnect_timer-IsDown :
      (t : Fd) (w : World (Event S2c)) (c : Client S2c)
      → IsDown c
      → IsDown (watch_reconnect_timer t w c).1
  unfolding watch_reconnect_timer
  watch_reconnect_timer-IsDown t w c h =
      if_cases (λ (r : Bool × Client S2c). IsDown r.1) (epoll_ctl_add t w).0 _ _
        (λ k. record { server = h.server; up = h.up })
        (λ k. record { server = h.server; up = h.up })

  reconnect_timer_created-IsDown :
      (t : Fd) (w : World (Event S2c)) (c : Client S2c)
      → IsDown c
      → IsDown (reconnect_timer_created t w c).1
  unfolding reconnect_timer_created
  reconnect_timer_created-IsDown none w c h = record { server = h.server; up = h.up }
  reconnect_timer_created-IsDown (some t) w c h = watch_reconnect_timer-IsDown (some t) w c h

  pub start_reconnect_timer-IsDown :
      (c : Client S2c) → IsDown c → IsDown (start_reconnect_timer c).1
  unfolding start_reconnect_timer
  start_reconnect_timer-IsDown c h =
      reconnect_timer_created-IsDown (create_fd c.world).0 (create_fd c.world).1 c h

  -- Ready to connect.
  pub record IsIdle (c : Client S2c) : Type 0 where
    pub server : c.server_fd ≡ none
    pub up : c.pending_disconnect ≡ false
    pub no_timer : c.reconnect_timer_fd ≡ none

  abbrev pub Ready : Option (Client S2c) → Type 0
  Ready none = Unit
  Ready (some c) = IsIdle c

  parsed-Ready :
      (o : Option (List ℕ × ℕ)) (b : Buffers) (old : Client S2c)
      → Ready (elim o [
        | none ↦ none
        | some (host, port) ↦ some (record old {
          address = host;
          port = port;
          input =
              reset_input (record (old.input) { buf = b.encoded_in; buf_size = b.encoded_in_size });
          workspace_in_size = b.workspace_in_size;
          encoded_out_size = b.encoded_out_size;
          server_fd = none;
          keep_alive_timer_fd = none;
          reconnect_timer_fd = none;
          pending_disconnect = false;
        })
      ])
  parsed-Ready none b old = tt
  parsed-Ready (some (host, port)) b old = record { server = refl; up = refl; no_timer = refl }

  pub init-Ready :
      (atoi : List ℕ → ℕ) (uri : List ℕ) (b : Buffers) (old : Client S2c)
      → Ready (client_init atoi uri b old)
  unfolding client_init
  init-Ready atoi uri b old = parsed-Ready (parse_tcp_uri atoi uri 16) b old
