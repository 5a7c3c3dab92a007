-- ===== src/Chat/Client/Buffer.antt =====
-- The buffer of the line in examples/chat/client/linux/main.c and examples/chat/client/async/client.c.
use messi.Base.{
  ℕ, zero, suc, ◌≤◌, ◌≡◌, refl, ap, ◌∙◌, List, [], ◌∷◌, true, arith, length, ◌==◌, if_cases, get_or,
  overwrite, write_at,
}
use messi.Linux.Client.State.{Event, connected, disconnected}
use messi.Chat.{ToServer, ToClient, connect_rsp}
use messi.Chat.Client.{
  ChatClient, newline, wrapped, end_of_input, user_input, client_user_input, chat_event,
  async_chat_event,
}

-- The line and the character behind it are in the buffer.
pub record InBuffer (a : ChatClient) : Type 0 where
  pub low : a.line_length ≤ 127
  pub size : length a.line_buf ≡ 128

pub data ChatHappening : Type 0 where
  typed : ℕ → ChatHappening
  told : Event ToClient → ChatHappening

abbrev pub chat_run : List ChatHappening → ChatClient → ChatClient
chat_run [] a = a
chat_run (typed c ∷ es) a = chat_run es (user_input c a).0
chat_run (told e ∷ es) a = chat_run es (chat_event e a)

abbrev pub async_chat_run : List ChatHappening → ChatClient → ChatClient
async_chat_run [] a = a
async_chat_run (typed c ∷ es) a = async_chat_run es (client_user_input c a).0
async_chat_run (told e ∷ es) a = async_chat_run es (async_chat_event e a)

length-write_one : (xs : List ℕ) (n c : ℕ) → length (write_at xs n (c ∷ [])) ≡ length xs
length-write_one [] zero c = refl
length-write_one [] (suc n) c = refl
length-write_one (x ∷ xs) zero c = overwrite_nothing xs
  where
    overwrite_nothing : (ys : List ℕ) → suc (length (overwrite ys [])) ≡ suc (length ys)
    overwrite_nothing [] = refl
    overwrite_nothing (y ∷ ys) = refl
length-write_one (x ∷ xs) (suc n) c = ap suc (length-write_one xs n c)

-- The place where the next character is written is not the last one, which is for the NUL.
wrapped_low : (a : ChatClient) → InBuffer a → wrapped a ≤ 126
wrapped_low a h = ground arith

abbrev put : ℕ → ChatClient → ChatClient
put c a = record a { line_length = wrapped a; line_buf = write_at a.line_buf (wrapped a) (c ∷ []) }

end_of_input-InBuffer :
    (a : ChatClient) → a.line_length ≤ 126 → length a.line_buf ≡ 128 → InBuffer (end_of_input a).0
unfolding end_of_input
end_of_input-InBuffer a low size =
    if_cases (λ (r : ChatClient × List ToServer). InBuffer r.0)
      (get_or a.line_buf a.line_length 0 == newline) _ _
      (λ k. record { low = omega arith; size = length-write_one a.line_buf a.line_length 0 ∙ size })
      (λ k. record { low = omega arith; size = size })

put-InBuffer : (c : ℕ) (a : ChatClient) → InBuffer a → length (put c a).line_buf ≡ 128
put-InBuffer c a h = length-write_one a.line_buf (wrapped a) c ∙ h.size

user_input-InBuffer : (c : ℕ) (a : ChatClient) → InBuffer a → InBuffer (user_input c a).0
unfolding user_input
user_input-InBuffer c a h =
    let low = wrapped_low a h in
    if_cases (λ (r : ChatClient × List ToServer). InBuffer r.0) a.is_connected _ _
      (λ k. end_of_input-InBuffer (put c a) low (put-InBuffer c a h))
      (λ k. record { low = omega (arith, low); size = put-InBuffer c a h })

client_user_input-InBuffer :
    (c : ℕ) (a : ChatClient) → InBuffer a → InBuffer (client_user_input c a).0
unfolding client_user_input
client_user_input-InBuffer c a h =
    if_cases (λ (r : ChatClient × List ToServer). InBuffer r.0) a.is_connected _ _
      (λ k. end_of_input-InBuffer (put c a) (wrapped_low a h) (put-InBuffer c a h)) (λ k. h)

chat_run-InBuffer :
    (es : List ChatHappening) (a : ChatClient) → InBuffer a → InBuffer (chat_run es a)
chat_run-InBuffer [] a h = h
chat_run-InBuffer (typed c ∷ es) a h =
    chat_run-InBuffer es (user_input c a).0 (user_input-InBuffer c a h)
chat_run-InBuffer (told connected ∷ es) a h = chat_run-InBuffer es a h
chat_run-InBuffer (told (disconnected r) ∷ es) a h =
    chat_run-InBuffer es (chat_event (disconnected r) a)
      (record { low = omega arith; size = h.size })
chat_run-InBuffer (told (Event.received connect_rsp) ∷ es) a h =
    chat_run-InBuffer es (record a { is_connected = true }) (record { low = h.low; size = h.size })
chat_run-InBuffer (told (Event.received (ToClient.message_ind u t)) ∷ es) a h =
    chat_run-InBuffer es a h

async_chat_run-InBuffer :
    (es : List ChatHappening) (a : ChatClient) → InBuffer a → InBuffer (async_chat_run es a)
async_chat_run-InBuffer [] a h = h
async_chat_run-InBuffer (typed c ∷ es) a h =
    async_chat_run-InBuffer es (client_user_input c a).0 (client_user_input-InBuffer c a h)
async_chat_run-InBuffer (told connected ∷ es) a h = async_chat_run-InBuffer es a h
async_chat_run-InBuffer (told (disconnected r) ∷ es) a h =
    async_chat_run-InBuffer es (async_chat_event (disconnected r) a)
      (record { low = h.low; size = h.size })
async_chat_run-InBuffer (told (Event.received connect_rsp) ∷ es) a h =
    async_chat_run-InBuffer es (record a { is_connected = true })
      (record { low = h.low; size = h.size })
async_chat_run-InBuffer (told (Event.received (ToClient.message_ind u t)) ∷ es) a h =
    async_chat_run-InBuffer es a h

-- Whatever is typed and whatever happens to the connection, in both chat clients: if the line is in its
-- buffer of 128 characters at the start, it is there at the end, and the next character is written at
-- least one place before the last.
pub line_stays-InBuffer :
    (es : List ChatHappening) (a : ChatClient)
    → InBuffer a
    → (InBuffer (chat_run es a) × (wrapped (chat_run es a) ≤ 126))
      × (InBuffer (async_chat_run es a) × (wrapped (async_chat_run es a) ≤ 126))
line_stays-InBuffer es a h =
    let linux = chat_run-InBuffer es a h in
    let async = async_chat_run-InBuffer es a h in
    ((linux, wrapped_low (chat_run es a) linux), (async, wrapped_low (async_chat_run es a) async))
