-- ===== src/Input.antt =====
-- The input buffer of a connection: `input.encoded` of a client and `input` of a server's client.
-- messi/c_source/templates/linux/client.c, linux/server.c, async/client.c and async/server.c handle
-- it by the same statements; line numbers are those of the Linux client.
pub mod Frames
pub mod Bytes
pub mod Receive
pub mod Overrun
pub mod Reading
mod Tests
use messi.Base.{
  ℕ, ◌+◌, ◌-◌, List, true, false, ◌==◌, ltb, if◌then◌else◌, length, take, drop, write_at,
}
use messi.Header.{header_size, header_at, header_get_size, Header}

-- `NAME_client_input_state_t`
pub data InputState : Type 0 where
  header payload : InputState

pub record Input : Type 0 where
  -- `data.buf_p` and `data.size`
  pub buf : List ℕ
  pub buf_size : ℕ
  pub size : ℕ
  pub left : ℕ
  pub state : InputState

-- `reset_input_encoded`
unfoldable pub reset_input : Input → Input
reset_input i = record i { state = header; size = 0; left = header_size }

-- Where the body of the read loop goes: to the next round, out of the loop with too big a message,
-- or to `handle_message`.
pub data Outcome : Type 0 where
  more too_big message : Outcome

abbrev pub outcome_of_left : ℕ → Outcome
outcome_of_left left = if left == 0 then message else more

-- The header is complete: its size is stored in `left` before it is compared with the buffer.
unfoldable pub end_of_header : Input → Input × Outcome
end_of_header i =
    let left = header_get_size (header_at i.buf) in
    if ltb i.buf_size (left + header_size)
    then (record i { left = left }, too_big)
    else (record i { left = left; state = payload }, outcome_of_left left)

abbrev pub end_of_part : InputState → Input → Input × Outcome
end_of_part header i = end_of_header i
end_of_part payload i = (i, outcome_of_left i.left)

-- The body of the read loop from the bytes that `read` has put behind the `size` bytes held.
unfoldable pub received : Input → List ℕ → Input × Outcome
unfolding end_of_header
received i bytes =
    let i' = record i {
      buf = write_at i.buf i.size bytes;
      size = i.size + length bytes;
      left = i.left - length bytes;
    } in
    if ltb 0 i'.left then (i', more) else end_of_part i.state i'

-- `header_p->type`, and the payload that `handle_message_user` decodes.
unfoldable pub message_type : Input → ℕ
message_type i = (header_at i.buf).type

unfoldable pub message_payload : Input → List ℕ
message_payload i = take (i.size - header_size) (drop header_size i.buf)
