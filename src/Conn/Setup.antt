-- ===== src/Conn/Setup.antt =====
-- `conn_init` and `conn_free` of src/config/conn.c: what they take from the system and give back.
use tcp_dpdk.Base.{
  ℕ, ◌≡◌, refl, Bool, true, false, not, ◌&&◌, List, [], ◌∷◌, ◌++◌, Option, none, some, replicate,
  codes, ◌==◌, if◌then◌else◌, arith,
}
use tcp_dpdk.Conn.{Conn}
use tcp_dpdk.Conn.Bounds.{IsBounded}

-- The six pieces of memory: the object, and those it points to.
pub data Block : Type 0 where
  object welcome prompt buf msg_in msg_out : Block

-- What the system calls return: whether `inet_aton` takes the address, which `calloc` succeeds, the
-- descriptor of `socket` and of `epoll_create` or `none` for -1, whether `bind` and `listen` do.
pub record System : Type 0 where
  pub inet_aton : Bool
  pub calloc : Block → Bool
  pub socket : Option ℕ
  pub bind : Bool
  pub listen : Bool
  pub epoll_create : Option ℕ

-- The memory that is held, and the descriptors opened and closed.
pub record Ledger : Type 0 where
  pub held : Block → Bool
  pub opened : List ℕ
  pub closed : List ℕ

abbrev pub nothing : Ledger
nothing = record { held = λ b. false; opened = []; closed = [] }

abbrev same_block : Block → Block → Bool
same_block object object = true
same_block welcome welcome = true
same_block prompt prompt = true
same_block buf buf = true
same_block msg_in msg_in = true
same_block msg_out msg_out = true
same_block _ _ = false

-- The block is held from now on, or is not.
abbrev hold : Block → Bool → Ledger → Ledger
hold b now l = record l { held = λ x. if same_block x b then now else l.held x }

abbrev open_fd : ℕ → Ledger → Ledger
open_fd fd l = record l { opened = l.opened ++ fd ∷ [] }

abbrev close_fd : ℕ → Ledger → Ledger
close_fd fd l = record l { closed = l.closed ++ fd ∷ [] }

-- `if (fd) close(fd)`
abbrev close_set : ℕ → Ledger → Ledger
close_set fd l = if fd == 0 then l else close_fd fd l

-- `free`, of NULL too. The member `buf` is not freed.
unfoldable pub conn_free : ℕ → ℕ → Ledger → Ledger
conn_free fd_client_group fd_server l =
    let closed = close_set fd_server (close_set fd_client_group l) in
    hold object false
      (hold welcome false (hold prompt false (hold msg_in false (hold msg_out false closed))))

module _ {A : Type 0} (e : System) (state : A) where
  -- The object, filled in.
  abbrev pub filled : ℕ → ℕ → Conn A
  filled fd_server fd_client_group = record {
    welcome = codes "\nWelcome to TCP control panel!\n\n";
    prompt = codes "TCP> ";
    msg_in = replicate 1025 0;
    buf_size = 1048576;
    msg_in_len_max = 1024;
    msg_out_len_max = 1048576;
    msg_in_len = 0;
    fd_server = fd_server;
    fd_client_group = fd_client_group;
    state = state;
    written = [];
    writes = 0;
    closed = [];
  }

  -- The members' memory.
  abbrev pub members : Ledger → Ledger
  members l = hold msg_out (e.calloc msg_out) (
      hold msg_in (e.calloc msg_in) (
        hold buf (e.calloc buf)
          (hold prompt (e.calloc prompt) (hold welcome (e.calloc welcome) l))))

  abbrev pub have_members : Bool
  have_members =
      e.calloc welcome && e.calloc prompt && e.calloc buf && e.calloc msg_in && e.calloc msg_out

  -- The client group, once the server socket `fd` listens.
  abbrev pub make_group : ℕ → Option ℕ → Ledger → Option (Conn A) × Ledger
  make_group fd none l = (none, close_fd fd (conn_free 0 0 l))
  make_group fd (some group) l = (some (filled fd group), open_fd group l)

  -- The object's descriptors are still 0 when it is freed after a failure.
  abbrev pub make_server : Option ℕ → Ledger → Option (Conn A) × Ledger
  make_server none l = (none, conn_free 0 0 l)
  make_server (some fd) l =
      if not e.bind
      then (none, close_fd fd (conn_free 0 0 (open_fd fd l)))
      else if not e.listen
      then (none, close_fd fd (conn_free 0 0 (open_fd fd l)))
      else make_group fd e.epoll_create (open_fd fd l)

  abbrev pub make_members : Ledger → Option (Conn A) × Ledger
  make_members l = if have_members then make_server e.socket l else (none, conn_free 0 0 l)

  -- `none` is NULL.
  unfoldable pub conn_init : Ledger → Option (Conn A) × Ledger
  unfolding conn_free
  conn_init l =
      if not e.inet_aton
      then (none, l)
      else if not (e.calloc object)
      then (none, l)
      else make_members (members (hold object true l))

  -- All that was taken but `buf` is given back: the descriptors that were opened are those that
  -- were closed, and no other block is held.
  abbrev pub GivenBack : Ledger → Type 0
  GivenBack l =
      (l.opened ≡ l.closed)
      × (l.held object ≡ false)
      × (l.held welcome ≡ false)
      × (l.held prompt ≡ false)
      × (l.held msg_in ≡ false)
      × (l.held msg_out ≡ false)

  abbrev pub Outcomes : Option (Conn A) × Ledger → Type 0
  Outcomes (none, l) = GivenBack l
  Outcomes (some c, l) =
      IsBounded c
      × (c.msg_in_len ≡ 0)
      × (c.state ≡ state)
      × (l.opened ≡ c.fd_server ∷ c.fd_client_group ∷ [])
      × (l.closed ≡ [])

  Outcomes-if :
      (b : Bool) (x y : Option (Conn A) × Ledger)
      → Outcomes x
      → Outcomes y
      → Outcomes (if b then x else y)
  Outcomes-if true x y h k = h
  Outcomes-if false x y h k = k

  -- The server socket `fd` is closed behind the rest.
  closed-GivenBack :
      (fd : ℕ) (l : Ledger)
      → l.opened ≡ fd ∷ []
      → l.closed ≡ []
      → GivenBack (close_fd fd (conn_free 0 0 l))
  unfolding conn_free
  closed-GivenBack fd l opened closed = ground arith

  make_group-Outcomes :
      (fd : ℕ) (o : Option ℕ) (l : Ledger)
      → l.opened ≡ fd ∷ []
      → l.closed ≡ []
      → Outcomes (make_group fd o l)
  make_group-Outcomes fd none l opened closed = closed-GivenBack fd l opened closed
  make_group-Outcomes fd (some group) l opened closed =
      (record { size = refl; used = omega arith }, refl, refl, ground arith, closed)

  make_server-Outcomes :
      (o : Option ℕ) (l : Ledger) → l.opened ≡ [] → l.closed ≡ [] → Outcomes (make_server o l)
  unfolding conn_free
  make_server-Outcomes none l opened closed = ground arith
  make_server-Outcomes (some fd) l opened closed =
      let l' = open_fd fd l in
      let one : l'.opened ≡ fd ∷ [] = ground arith in
      Outcomes-if (not e.bind) _ _ (closed-GivenBack fd l' one closed) (
        Outcomes-if (not e.listen) _ _ (closed-GivenBack fd l' one closed)
          (make_group-Outcomes fd e.epoll_create l' one closed))

  make_members-Outcomes : (l : Ledger) → l.opened ≡ [] → l.closed ≡ [] → Outcomes (make_members l)
  unfolding conn_free
  make_members-Outcomes l opened closed =
      Outcomes-if have_members (make_server e.socket l) _
        (make_server-Outcomes e.socket l opened closed) (ground arith)

  -- Whatever the system calls return, a start from nothing either gives a connection with room for
  -- its message, no byte of one yet, the state it was given, and two open descriptors, which are its
  -- own; or it gives NULL, every descriptor that was opened is closed once, and no memory is held but perhaps the read
  -- buffer `buf`.
  pub conn_init-Outcomes : Outcomes (conn_init nothing)
  unfolding conn_init
  conn_init-Outcomes =
      Outcomes-if (not e.inet_aton) _ _ (refl, refl, refl, refl, refl, refl)
        (Outcomes-if (not (e.calloc object)) _ _ (refl, refl, refl, refl, refl, refl)
          (make_members-Outcomes (members (hold object true nothing)) refl refl))
