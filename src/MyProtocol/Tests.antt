-- ===== src/MyProtocol/Tests.antt =====
-- The programs of examples/my_protocol, with messages of one byte.
use messi.Base.{
  ℕ, zero, suc, ◌+◌, ◌≤◌, ◌≡◌, refl, List, [], ◌∷◌, true, none, some, Option, ◌==◌, if◌then◌else◌,
  arith, length,
}
use messi.Header.{header_bytes, header_create, header_set_size}
use messi.Input.{header}
use messi.Kernel.{sent, note, write, malloc}
use messi.Protocol.{Codec, CodecLaws}
use messi.Linux.Server.Links.Tests.{two_connected}
use messi.Linux.Server.State.{Server, set_client, server_epoll_ctl_mod}
use messi.Linux.Server.Output.{client_write}
use messi.Linux.Server.Send.{server_call_back}
use messi.Linux.Server.Messages.{server_handle_choice}
use messi.System.Stream.{Streamed}
use messi.MyProtocol.{ToServer, ToClient, foo_req, bar_ind, foo_rsp, fie_req}
use messi.MyProtocol.Server.{my_server}
use messi.MyProtocol.Server.Replies.{handle_each}
use messi.MyProtocol.Server.Answers.{handle_each-answers}

abbrev number : ToClient → ℕ
number foo_rsp = 1
number fie_req = 2

abbrev numbered : ℕ → ToClient
numbered n = if n == 1 then foo_rsp else fie_req

abbrev encode : ToClient → ℕ → Option (List ℕ)
encode m zero = none
encode m (suc room) = some (number m ∷ [])

abbrev decode : List ℕ → Option (ℕ × ToClient)
decode [] = none
decode (b ∷ bs) = some (1, numbered b)

abbrev to_client : Codec ToClient
to_client = record { new = λ size. true; decode = decode; encode = encode; known = λ m. true }

abbrev to_server : Codec ToServer
to_server = record {
  new = λ size. true;
  decode = λ bytes. none;
  encode = λ m room. none;
  known = λ m. true;
}

encode_fits : (m : ToClient) (room : ℕ) (bs : List ℕ) → encode m room ≡ some bs → length bs ≤ room
encode_fits m zero bs e = absurd (ground arith)
encode_fits m (suc room) bs e = ground arith

decode-encode :
    (m : ToClient) (room : ℕ) (bs : List ℕ)
    → encode m room ≡ some bs
    → decode bs ≡ some (length bs, m)
decode-encode m zero bs e = absurd (ground arith)
decode-encode foo_rsp (suc room) bs e = ground arith
decode-encode fie_req (suc room) bs e = ground arith

to_client-CodecLaws : CodecLaws to_client
to_client-CodecLaws = record { encode_fits = encode_fits; decode-encode = decode-encode }

-- The client has the descriptor 10, whose socket takes a message of five bytes.
abbrev server : Server ToServer
server = record {
  address = [];
  port = 7840;
  listener_fd = some 9;
  current_client_p = none;
  links = two_connected;
  clients = λ i. record {
    client_fd = some (10 + i);
    keep_alive_timer_fd = some (20 + i);
    input = record { buf = []; buf_size = 128; size = 0; left = 4; state = header };
    output = [];
  };
  workspace_in_size = 128;
  encoded_out_size = 128;
  world = record {
    statuses = λ n. true;
    fds = λ n. some (n + 100);
    reads = [];
    writes = sent 5 ∷ [];
    log = [];
  };
}

-- What `on_foo_rsp` of the client sends is answered with `fie_req`; that has to wait.
handle_each-answers_example :
    Streamed
      (my_server to_server to_client)
      0
      10
      124
      (foo_rsp ∷ fie_req ∷ [])
      server
      (handle_each to_server to_client (foo_req ∷ bar_ind ∷ bar_ind ∷ []) server)
unfolding server_handle_choice server_call_back client_write write malloc note set_client
    server_epoll_ctl_mod header_bytes header_create header_set_size
handle_each-answers_example =
    handle_each-answers to_server to_client to_client-CodecLaws (λ r. refl) 10
      (foo_req ∷ bar_ind ∷ bar_ind ∷ []) server 124 0 refl refl
      ((refl, (λ e. cc), (refl, (λ e. cc), (refl, (λ e. cc), tt)))) (omega arith) refl (λ n. refl)
      refl
