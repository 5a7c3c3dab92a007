-- ===== src/Kernel.antt =====
-- The operating system as the sources call it: sockets, timers and epoll. How a call turns out is a
-- parameter: each world holds the answers that the coming calls will get, and any answers are
-- possible. What the program did is the log of its calls, the newest first.
pub mod Counts
use messi.Base.{
  ℕ, zero, suc, ◌+◌, List, [], ◌∷◌, Option, none, some, Bool, true, false, if◌then◌else◌, take,
  length,
}

-- A file descriptor; `none` is -1.
abbrev pub Fd : Type 0
Fd = Option ℕ

abbrev pub is_open : Fd → Bool
is_open none = false
is_open (some fd) = true

-- What `read` on a socket returns: some bytes, -1 with `EAGAIN`, -1 with another error, or 0.
pub data ReadReply : Type 0 where
  got : List ℕ → ReadReply
  again failed closed : ReadReply

-- What `write` on a socket returns: a count, -1 with `EAGAIN`, or -1 with another error.
pub data WriteReply : Type 0 where
  sent : ℕ → WriteReply
  again failed : WriteReply

-- A call with its outcome, or a callback `E` of the user.
pub data Call (E : Type 0) : Type 0 where
  -- `socket`, `accept` or `timerfd_create` returned the descriptor
  opened : ℕ → Call E
  closed : Fd → Call E
  -- `EPOLL_CTL_ADD` succeeded; `EPOLL_CTL_DEL`; `EPOLL_CTL_MOD`, for writing also or not
  watched : Fd → Call E
  unwatched : Fd → Call E
  modified : Fd → Bool → Call E
  -- `timerfd_settime` succeeded, with these seconds
  armed : Fd → ℕ → Call E
  -- `read` was given this room: the offset into the input buffer and the count
  reading : Fd → ℕ → ℕ → Call E
  -- `write` accepted these bytes
  wrote : Fd → List ℕ → Call E
  -- `malloc` returned the address; `free`
  allocated : ℕ → Call E
  freed : ℕ → Call E
  callback : E → Call E

-- A loop over calls goes on to its next round, or is left.
pub data Round (S : Type 0) : Type 0 where
  go_on : S → Round S
  leave : S → Round S

pub record World (E : Type 0) : Type 0 where
  -- whether the coming calls that return 0 or -1 succeed
  pub statuses : ℕ → Bool
  -- what the coming calls that create a descriptor, or allocate memory, return
  pub fds : ℕ → Fd
  -- what the coming reads and writes of sockets return; behind these, `EAGAIN`
  pub reads : List ReadReply
  pub writes : List WriteReply
  pub log : List (Call E)

-- What `epoll_wait` reports, a descriptor with `EPOLLOUT` and `EPOLLIN`, and how the calls turn out that
-- the program makes for it.
pub record Turn : Type 0 where
  pub fd : ℕ
  pub out : Bool
  pub in_ : Bool
  pub statuses : ℕ → Bool
  pub fds : ℕ → Fd
  pub reads : List ReadReply
  pub writes : List WriteReply

abbrev pub answers : {E : Type 0} → Turn → World E → World E
answers t w = record w { statuses = t.statuses; fds = t.fds; reads = t.reads; writes = t.writes }

abbrev rest {ℓ} : {A : Type ℓ} → (ℕ → A) → ℕ → A
rest s n = s (suc n)

abbrev pub next_write : List WriteReply → WriteReply
next_write [] = again
next_write (r ∷ rs) = r

abbrev pub later_writes : List WriteReply → List WriteReply
later_writes [] = []
later_writes (r ∷ rs) = rs

module _ {E : Type 0} where
  unfoldable pub note : Call E → World E → World E
  note c w = record w { log = c ∷ w.log }

  -- A call that returns 0 or -1; `c` is noted if it succeeds.
  unfoldable pub attempt : Call E → World E → Bool × World E
  attempt c w = (
    w.statuses 0,
    record w { statuses = rest w.statuses; log = if w.statuses 0 then c ∷ w.log else w.log },
  )

  -- A call of which nothing is noted.
  unfoldable pub check : World E → Bool × World E
  check w = (w.statuses 0, record w { statuses = rest w.statuses })

  abbrev pub note_opened : Fd → List (Call E) → List (Call E)
  note_opened none log = log
  note_opened (some fd) log = opened fd ∷ log

  -- `socket`, `accept`, `timerfd_create`
  unfoldable pub create_fd : World E → Fd × World E
  create_fd w = (w.fds 0, record w { fds = rest w.fds; log = note_opened (w.fds 0) w.log })

  -- `close`
  unfoldable pub close : Fd → World E → World E
  unfolding note
  close fd w = note (closed fd) w

  abbrev pub note_wrote : Fd → List ℕ → WriteReply → List (Call E) → List (Call E)
  note_wrote fd bytes (sent n) log = wrote fd (take n bytes) ∷ log
  note_wrote fd bytes again log = log
  note_wrote fd bytes failed log = log

  -- `write`; on the descriptor -1 it fails (`EBADF`)
  unfoldable pub write : Fd → List ℕ → World E → WriteReply × World E
  write none bytes w = (failed, w)
  write (some fd) bytes w = (
    next_write w.writes,
    record w {
      writes = later_writes w.writes;
      log = note_wrote (some fd) bytes (next_write w.writes) w.log;
    },
  )

  abbrev pub note_allocated : Option ℕ → List (Call E) → List (Call E)
  note_allocated none log = log
  note_allocated (some a) log = allocated a ∷ log

  -- `malloc`; `none` is NULL.
  unfoldable pub malloc : World E → Option ℕ × World E
  malloc w = (w.fds 0, record w { fds = rest w.fds; log = note_allocated (w.fds 0) w.log })
