-- ===== src/Async/Client/Lifecycle.antt =====
-- The life of a client of messi/c_source/templates/async/client.c as a sequence of steps: what the
-- framework may call and when, by its documented behaviour, and what the user sends in between.
use messi.Base.{ℕ, ◌+◌, ◌-◌, ◌<◌, ◌≡◌, List, [], ◌∷◌, Bool, true, false, if◌then◌else◌}
use messi.Async.Client.State.{
  AsyncClient, AsyncSetup, AsyncCall, Happening, keep_alive, reconnect, timer_started,
  timer_stopped, connect_called, call_posted, happened, expired, connect_ended, connection_lost,
  input_arrived, call_made, calls, async_client_send,
}
use messi.Async.Client.Handlers.{
  on_keep_alive_timeout, on_stcp_disconnected, async_client_start, async_on_disconnected,
  on_stcp_connected, on_stcp_input,
}

module _ {S2c : Type 0} where
  -- Whether a timer runs: it was started, and neither was it stopped nor has it expired since.
  abbrev pub keep_alive_runs : List (AsyncCall S2c) → ℕ
  keep_alive_runs [] = 0
  keep_alive_runs (timer_started keep_alive ∷ log) = 1
  keep_alive_runs (timer_stopped keep_alive ∷ log) = 0
  keep_alive_runs (happened (expired keep_alive) ∷ log) = 0
  keep_alive_runs (_ ∷ log) = keep_alive_runs log

  abbrev pub reconnect_runs : List (AsyncCall S2c) → ℕ
  reconnect_runs [] = 0
  reconnect_runs (timer_started reconnect ∷ log) = 1
  reconnect_runs (timer_stopped reconnect ∷ log) = 0
  reconnect_runs (happened (expired reconnect) ∷ log) = 0
  reconnect_runs (_ ∷ log) = reconnect_runs log

  -- The connects that have not come to their end, and the posted calls that were not made yet.
  abbrev pub connecting : List (AsyncCall S2c) → ℕ
  connecting [] = 0
  connecting (connect_called a p ∷ log) = 1 + connecting log
  connecting (happened (connect_ended r) ∷ log) = connecting log - 1
  connecting (_ ∷ log) = connecting log

  abbrev pub posted : List (AsyncCall S2c) → ℕ
  posted [] = 0
  posted (call_posted ∷ log) = 1 + posted log
  posted (happened call_made ∷ log) = posted log - 1
  posted (_ ∷ log) = posted log

  abbrev pub happens : Happening → AsyncClient S2c → AsyncClient S2c
  happens h c = calls (happened h) c

  -- Exactly one thing is under way: the client is connected, or a connect is, or the reconnect timer
  -- runs, or the call of `on_disconnected` is posted. While it is connected the keep alive timer runs.
  pub record IsUnderWay (c : AsyncClient S2c) : Type 0 where
    pub one :
        (if c.is_connected then 1 else 0) + connecting c.log + reconnect_runs c.log + posted c.log
        ≡ 1
    pub guarded : c.is_connected ≡ true → keep_alive_runs c.log ≡ 1

module _ {C2s S2c : Type 0} (setup : AsyncSetup C2s S2c) where
  -- What may happen next.
  pub data Step (c : AsyncClient S2c) : AsyncClient S2c → Type 0 where
    connect_ends :
        (r : Bool)
        → 0 < connecting c.log
        → Step c (on_stcp_connected setup r (happens (connect_ended r) c))
    connection_is_lost : Step c (on_stcp_disconnected (happens connection_lost c))
    input_comes :
        (rs : List (List ℕ))
        → Step c (on_stcp_input setup (happens input_arrived (record c { reads = rs })))
    keep_alive_expires :
        keep_alive_runs c.log ≡ 1 → Step c (on_keep_alive_timeout (happens (expired keep_alive) c))
    reconnect_expires :
        reconnect_runs c.log ≡ 1 → Step c (async_client_start (happens (expired reconnect) c))
    call_is_made : 0 < posted c.log → Step c (async_on_disconnected setup (happens call_made c))
    user_sends : (m : C2s) → Step c (async_client_send setup m c)

  -- The states that a client comes to from `NAME_client_start` on, while the user does not stop it.
  pub data Reach : AsyncClient S2c → Type 0 where
    started :
        (c : AsyncClient S2c) → c.is_connected ≡ false → c.log ≡ [] → Reach (async_client_start c)
    later : {c d : AsyncClient S2c} → Reach c → Step c d → Reach d
