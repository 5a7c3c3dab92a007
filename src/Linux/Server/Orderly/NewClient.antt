-- ===== src/Linux/Server/Orderly/NewClient.antt =====
-- What `client_init` of messi/c_source/templates/linux/server.c does to the clients: only the new one gets
-- another descriptor, whether it succeeds or not.
use messi.Base.{
  ℕ, ◌≡◌, refl, ap, ◌∙◌, List, [], ◌∷◌, Bool, true, false, none, some, ◌==◌, ◌||◌, eq→==, if_cases,
}
use messi.Input.{reset_input}
use messi.Kernel.{Fd, create_fd, close, note}
use messi.Linux.Server.Links.{Ptr, Links, alloc_from, alloc_client}
use messi.Linux.Server.Links.Chains.{without}
use messi.Linux.Server.State.{Server, set_client, server_epoll_ctl_add, server_epoll_ctl_del}
use messi.Linux.Server.Messages.{set_input, client_reset_input, client_start_keep_alive_timer}
use messi.Linux.Server.Accept.{
  init_out_1, init_out_2, init_timer_started, init_timer_created, server_client_init,
}
use messi.Linux.Server.Orderly.{set_client-fds}
use messi.Linux.Server.Rules.Known.{Knows, watched-InLog, armed-InLog, create_fd-InLog}

pub or-left : (b c : Bool) → (b || c) ≡ false → b ≡ false
or-left true c e = e
or-left false c e = refl

pub without_first : (i : ℕ) (xs : List ℕ) → without i (i ∷ xs) ≡ xs
unfolding without
without_first i xs = rw (eq→== i i refl) refl

pub alloc_none : (l : Links) → l.free_list_p ≡ none → alloc_client l ≡ (none, l)
unfolding alloc_client alloc_from
alloc_none l e = ap (λ (p : Ptr). alloc_from p l) e

module _ {C2s : Type 0} where
  abbrev Untouched : Server C2s → Bool × Server C2s → Type 0
  Untouched s r =
      (r.1.links ≡ s.links)
      × (r.1.clients ≡ s.clients)
      × (r.1.current_client_p ≡ s.current_client_p)

  init_timer_started-Untouched :
      (timer fd : Fd) (s : Server C2s) → Untouched s (init_timer_started timer fd s)
  unfolding init_timer_started init_out_1 init_out_2
  init_timer_started-Untouched timer fd s =
      if_cases (Untouched s) (server_epoll_ctl_add timer s.world).0 _ _
        (λ k.
          if_cases (Untouched s) (server_epoll_ctl_add fd (server_epoll_ctl_add timer s.world).1).0
            _ _ (λ k'. (refl, refl, refl)) (λ k'. (refl, refl, refl)))
        (λ k. (refl, refl, refl))

  init_timer_created-Untouched :
      (timer : Fd) (i : ℕ) (fd : Fd) (s : Server C2s)
      → Untouched s (init_timer_created timer i fd s)
  unfolding init_timer_created init_out_1 client_start_keep_alive_timer
  init_timer_created-Untouched none i fd s = (refl, refl, refl)
  init_timer_created-Untouched (some t) i fd s =
      if_cases (Untouched s) (client_start_keep_alive_timer i s).0 _ _
        (λ k. init_timer_started-Untouched (some t) fd (client_start_keep_alive_timer i s).1)
        (λ k. (refl, refl, refl))

  -- Only the new client has another descriptor than before: the new one.
  pub record Holds (i : ℕ) (fd : Fd) (s : Server C2s) (r : Bool × Server C2s) : Type 0 where
    pub links : r.1.links ≡ s.links
    pub current : r.1.current_client_p ≡ s.current_client_p
    pub new : (r.1.clients i).client_fd ≡ fd
    pub others : (j : ℕ) → (j == i) ≡ false → (r.1.clients j).client_fd ≡ (s.clients j).client_fd

  pub client_init-Holds :
      (i : ℕ) (fd : Fd) (s : Server C2s) → Holds i fd s (server_client_init i fd s)
  unfolding server_client_init client_reset_input set_input set_client create_fd
  client_init-Holds i fd s =
      let s1 = set_client i (record (s.clients i) { client_fd = fd }) s in
      let s2 = client_reset_input i s1 in
      let s3 = set_client i (record (s2.clients i) { output = [] }) s2 in
      let (timer, w) = create_fd s3.world in
      let s4 = set_client i (record (s3.clients i) { keep_alive_timer_fd = timer }) s3 in
      let v2 = record (s1.clients i) { input = reset_input (s1.clients i).input } in
      let kept : (j : ℕ) → (s4.clients j).client_fd ≡ (s1.clients j).client_fd = λ j.
        set_client-fds i (record (s3.clients i) { keep_alive_timer_fd = timer }) s3 j refl
        ∙ set_client-fds i (record (s2.clients i) { output = [] }) s2 j refl
        ∙ set_client-fds i v2 s1 j refl in
      let done = init_timer_created-Untouched timer i fd (record s4 { world = w }) in
      record {
        links = done.0;
        current = done.2;
        new = ap (λ f. (f i).client_fd) done.1 ∙ kept i ∙ rw (eq→== i i refl) refl;
        others = λ j other. ap (λ f. (f j).client_fd) done.1 ∙ kept j ∙ rw other refl;
      }

pub client_init-current :
    {C2s : Type 0} (i : ℕ) (fd : Fd) (s : Server C2s)
    → (server_client_init i fd s).1.current_client_p ≡ s.current_client_p
client_init-current i fd s = (client_init-Holds i fd s).current

module _ {C2s : Type 0} (known : ℕ → Bool) where
  abbrev KnowsStill : Bool × Server C2s → Type 0
  KnowsStill r = Knows known r.1

  init_timer_started-Knows :
      (timer fd : Fd) (s : Server C2s) → Knows known s → KnowsStill (init_timer_started timer fd s)
  unfolding init_timer_started init_out_1 init_out_2 server_epoll_ctl_del close note
  init_timer_started-Knows timer fd s h =
      let w1 = (server_epoll_ctl_add timer s.world).1 in
      let h1 = watched-InLog known timer s.world h in
      let h2 = watched-InLog known fd w1 h1 in
      if_cases KnowsStill (server_epoll_ctl_add timer s.world).0 _ _
        (λ k. if_cases KnowsStill (server_epoll_ctl_add fd w1).0 _ _ (λ k'. h2) (λ k'. h2))
        (λ k. h1)

  init_timer_created-Knows :
      (timer : Fd) (i : ℕ) (fd : Fd) (s : Server C2s)
      → Knows known s
      → KnowsStill (init_timer_created timer i fd s)
  unfolding init_timer_created init_out_1 client_start_keep_alive_timer close note
  init_timer_created-Knows none i fd s h = h
  init_timer_created-Knows (some t) i fd s h =
      let h' = armed-InLog known (s.clients i).keep_alive_timer_fd 3 s.world h in
      if_cases KnowsStill (client_start_keep_alive_timer i s).0 _ _
        (λ k. init_timer_started-Knows (some t) fd (client_start_keep_alive_timer i s).1 h')
        (λ k. h')

  pub client_init-Knows :
      (i : ℕ) (fd : Fd) (s : Server C2s) → Knows known s → KnowsStill (server_client_init i fd s)
  unfolding server_client_init client_reset_input set_input set_client
  client_init-Knows i fd s h =
      let s1 = set_client i (record (s.clients i) { client_fd = fd }) s in
      let s2 = client_reset_input i s1 in
      let s3 = set_client i (record (s2.clients i) { output = [] }) s2 in
      let (timer, w) = create_fd s3.world in
      let s4 = set_client i (record (s3.clients i) { keep_alive_timer_fd = timer }) s3 in
      init_timer_created-Knows timer i fd (record s4 { world = w })
        (create_fd-InLog known s.world h)
