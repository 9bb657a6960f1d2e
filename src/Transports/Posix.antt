-- ===== src/Transports/Posix.antt =====
-- The system calls that the transports use, over a world `W` that they change. `O` is the type of
-- terminal settings, `P` that of socket addresses. A call that fails gives its `errno`.
use onboard_autonomy.Base.{
  ℕ, ◌≡◌, refl, sym, ap, ◌∙◌, Bool, true, false, Bool-cases, inl, inr, Option, none, some, Text,
  ◌==◌, if◌then◌else◌, ==_iff,
}
use mathlib.Core.Path.{fun_ext}
use onboard_autonomy.Mavlink.Encoder.{Bytes}

pub data Errno : Type 0 where
  eagain ewouldblock eintr : Errno
  other_error : ℕ → Errno

pub data Result {ℓ} (A : Type ℓ) : Type ℓ where
  done : A → Result A
  failed : Errno → Result A

-- The bits of `c_cflag` that the serial transport sets and clears.
pub data ControlFlag : Type 0 where
  clocal cread cstopb crtscts parenb csize cs8 : ControlFlag

-- What `poll` says of a descriptor: POLLIN, and whether one of POLLERR, POLLHUP and POLLNVAL is set.
pub record PollEvents : Type 0 where
  pub readable : Bool
  pub broken : Bool

pub data PollResult : Type 0 where
  poll_failed : Errno → PollResult
  poll_quiet : PollResult
  poll_ready : PollEvents → PollResult

pub record Posix (W O P : Type 0) : Type 0 where
  -- `steady_clock::now`, in nanoseconds
  pub now : W → ℕ
  pub error_message : Errno → Text
  pub close : ℕ → W → W
  pub open_file : Text → W → W × Result ℕ
  pub tcgetattr : ℕ → W → W × Result O
  pub tcsetattr : ℕ → O → W → W × Result (Unit {0})
  pub poll : ℕ → W → W × PollResult
  pub read : ℕ → ℕ → W → W × Result Bytes
  pub write : ℕ → Bytes → W → W × Result ℕ
  pub cfmakeraw : O → O
  pub cfsetispeed : ℕ → O → O
  pub cfsetospeed : ℕ → O → O
  pub set_flag : ControlFlag → O → O
  pub clear_flag : ControlFlag → O → O
  pub set_vmin : ℕ → O → O
  pub set_vtime : ℕ → O → O
  pub socket : W → W × Result ℕ
  -- `fcntl` with F_GETFL and then with F_SETFL and O_NONBLOCK
  pub get_flags : ℕ → W → W × Result ℕ
  pub set_non_blocking_flag : ℕ → ℕ → W → W × Result (Unit {0})
  pub set_reuse_address : ℕ → W → W
  -- `inet_pton` of an IPv4 address, with the port
  pub address_of : Text → ℕ → Option P
  pub bind : ℕ → P → W → W × Result (Unit {0})
  pub recvfrom : ℕ → ℕ → W → W × Result (Bytes × P)
  pub sendto : ℕ → Bytes → P → W → W × Result ℕ

-- The open descriptors, with one more and with one less.
abbrev pub with_one : ℕ → (ℕ → Bool) → ℕ → Bool
with_one fd opened other = if other == fd then true else opened other

abbrev pub without : ℕ → (ℕ → Bool) → ℕ → Bool
without fd opened other = if other == fd then false else opened other

-- A call that opens a descriptor, one that was not open, where it succeeds.
abbrev pub Opens : {W : Type 0} → (W → ℕ → Bool) → W → W × Result ℕ → Type 0
Opens open_set w (w', done fd) = (open_set w fd ≡ false) × (open_set w' ≡ with_one fd (open_set w))
Opens open_set w (w', failed e) = open_set w' ≡ open_set w

-- What POSIX, and Linux for a `close` that fails, say of the open descriptors, as long as nothing else
-- opens or closes one during a call: `open` and `socket` open one more where they succeed, `close`
-- closes its own, if it is open, and no other, and the other calls leave them.
pub record Descriptors {W O P : Type 0} (sys : Posix W O P) : Type 0 where
  pub open_set : W → ℕ → Bool
  pub open_opens : (device : Text) (w : W) → Opens open_set w (sys.open_file device w)
  pub socket_opens : (w : W) → Opens open_set w (sys.socket w)
  pub close_closes : (fd : ℕ) (w : W) → open_set (sys.close fd w) ≡ without fd (open_set w)
  pub tcgetattr_keeps : (fd : ℕ) (w : W) → open_set (sys.tcgetattr fd w).0 ≡ open_set w
  pub tcsetattr_keeps : (fd : ℕ) (o : O) (w : W) → open_set (sys.tcsetattr fd o w).0 ≡ open_set w
  pub poll_keeps : (fd : ℕ) (w : W) → open_set (sys.poll fd w).0 ≡ open_set w
  pub read_keeps : (fd size : ℕ) (w : W) → open_set (sys.read fd size w).0 ≡ open_set w
  pub write_keeps :
      (fd : ℕ) (bytes : Bytes) (w : W) → open_set (sys.write fd bytes w).0 ≡ open_set w
  pub get_flags_keeps : (fd : ℕ) (w : W) → open_set (sys.get_flags fd w).0 ≡ open_set w
  pub set_non_blocking_keeps :
      (fd flags : ℕ) (w : W) → open_set (sys.set_non_blocking_flag fd flags w).0 ≡ open_set w
  pub set_reuse_keeps : (fd : ℕ) (w : W) → open_set (sys.set_reuse_address fd w) ≡ open_set w
  pub bind_keeps : (fd : ℕ) (p : P) (w : W) → open_set (sys.bind fd p w).0 ≡ open_set w

without-with_one :
    (fd : ℕ) (opened : ℕ → Bool) → opened fd ≡ false → without fd (with_one fd opened) ≡ opened
without-with_one fd opened e = fun_ext by_number
  where
    by_number : (other : ℕ) → without fd (with_one fd opened) other ≡ opened other
    by_number other = elim (Bool-cases (other == fd)) [
      | inl same ↦ rw same (sym (rw ((==_iff other fd).0 same) e))
      | inr differs ↦ rw differs refl
    ]

-- The descriptor that is given, beside the `others`: it is open, and none of them.
abbrev pub OpenBeside : (ℕ → Bool) → Option ℕ → (ℕ → Bool) → Type 0
OpenBeside others none opened = opened ≡ others
OpenBeside others (some fd) opened = (others fd ≡ false) × (opened ≡ with_one fd others)

module _ {W O P : Type 0} {sys : Posix W O P} (laws : Descriptors sys) (others : ℕ → Bool) where
  pub still_OpenBeside :
      (d : Option ℕ) (opened opened' : ℕ → Bool)
      → opened' ≡ opened
      → OpenBeside others d opened
      → OpenBeside others d opened'
  still_OpenBeside none opened opened' e h = e ∙ h
  still_OpenBeside (some fd) opened opened' e (free, h) = (free, e ∙ h)

  pub close_OpenBeside :
      (fd : ℕ) (w : W)
      → OpenBeside others (some fd) (laws.open_set w)
      → laws.open_set (sys.close fd w) ≡ others
  close_OpenBeside fd w (free, h) =
      laws.close_closes fd w ∙ ap (without fd) h ∙ without-with_one fd others free

  pub opened_OpenBeside :
      (fd : ℕ) (w w' : W)
      → laws.open_set w ≡ others
      → Opens laws.open_set w (w', done fd)
      → OpenBeside others (some fd) (laws.open_set w')
  opened_OpenBeside fd w w' h (free, added) =
      (sym (ap (λ opened. opened fd) h) ∙ free, added ∙ ap (with_one fd) h)
