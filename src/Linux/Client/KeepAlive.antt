-- ===== src/Linux/Client/KeepAlive.antt =====
-- The keep alive timer of messi/c_source/templates/linux/client.c.
use messi.Base.{ℕ, ◌≡◌, List, [], ◌∷◌, true, false, some, arith, ap, take, ==→eq}
use messi.Header.{header_bytes, header_create, header_set_size}
use messi.Kernel.{
  Call, WriteReply, sent, again, failed, armed, wrote, attempt, write, next_write, note_wrote,
}
use messi.Linux.Client.State.{Client, Event, pending_disconnect, wrote_all, write_all}
use messi.Linux.Client.Connect.{start_timer, send_ping, process_keep_alive_timer}

take_ping : (n : ℕ) → n ≡ 4 → take {A = ℕ} n (3 ∷ 0 ∷ 0 ∷ 0 ∷ []) ≡ 3 ∷ 0 ∷ 0 ∷ 0 ∷ []
take_ping n e = rw e

module _ {S2c : Type 0} where
  -- What `send_ping` leaves if no disconnect is pending: the timer runs again for two seconds, and
  -- the four bytes of a ping were written behind that.
  record Pinged (c c' : Client S2c) : Type 0 where
    waiting : c'.pong_received ≡ false
    calls :
        c'.world.log
        ≡ wrote c.server_fd (3 ∷ 0 ∷ 0 ∷ 0 ∷ []) ∷ armed c.keep_alive_timer_fd 2 ∷ c.world.log

  write_ping :
      (reply : WriteReply) (c : Client S2c) (log : List (Call (Event S2c)))
      → wrote_all reply 4 ≡ true
      → note_wrote c.server_fd (3 ∷ 0 ∷ 0 ∷ 0 ∷ []) reply log
        ≡ wrote c.server_fd (3 ∷ 0 ∷ 0 ∷ 0 ∷ []) ∷ log
  write_ping (sent n) c log h = ap (λ b. wrote c.server_fd b ∷ log) (take_ping n (==→eq n 4 h))
  write_ping again c log h = absurd (cc)
  write_ping failed c log h = absurd (cc)

  send_ping-Pinged :
      (f : ℕ) (c : Client S2c)
      → c.server_fd ≡ some f
      → (send_ping c).pending_disconnect ≡ false
      → Pinged c (send_ping c)
  unfolding send_ping start_timer attempt write_all write pending_disconnect header_bytes
      header_create header_set_size
  send_ping-Pinged f c e up = ground (
    arith,
    write_ping (next_write c.world.writes) c (armed c.keep_alive_timer_fd 2 ∷ c.world.log),
  )

  -- If the timer expires twice and no pong comes in between, the client disconnects, whatever the
  -- outcome of the calls that it makes.
  pub two_expiries_disconnect :
      (c : Client S2c)
      → (process_keep_alive_timer (process_keep_alive_timer c)).pending_disconnect ≡ true
  unfolding process_keep_alive_timer pending_disconnect write_all
  two_expiries_disconnect c = ground arith
