-- ===== src/Transports/Sockets.antt =====
-- The descriptors that the constructor of UdpTransport.cpp opens and closes.
use onboard_autonomy.Base.{
  ℕ, ◌≡◌, refl, ◌∙◌, Bool, true, false, Option, none, some, Text, Outcome, returned, thrown,
}
use onboard_autonomy.Transports.Posix.{
  Posix, Descriptors, Opens, OpenBeside, still_OpenBeside, close_OpenBeside, opened_OpenBeside,
  Result, done, failed,
}
use onboard_autonomy.Transports.Udp.{
  UdpTransport, succeeded, with_flags, set_non_blocking, bound, bind_to, prepared, created,
  make_udp_transport,
}

module _ {W O P : Type 0} (sys : Posix W O P) (laws : Descriptors sys) (others : ℕ → Bool) where
  -- The socket beside the others, and only the others after an exception.
  abbrev pub HoldsSocket : W × Outcome (UdpTransport P) → Type 0
  HoldsSocket (w, returned t) = OpenBeside others (some t.socket) (laws.open_set w)
  HoldsSocket (w, thrown f) = laws.open_set w ≡ others

  succeeded-open_set {ℓ} :
      {A : Type ℓ} (r : W × Result A) → laws.open_set (succeeded sys r).0 ≡ laws.open_set r.0
  succeeded-open_set (w, done a) = refl
  succeeded-open_set (w, failed e) = refl

  with_flags-open_set :
      (socket : ℕ) (r : W × Result ℕ)
      → laws.open_set (with_flags sys socket r).0 ≡ laws.open_set r.0
  with_flags-open_set socket (w, done flags) =
      succeeded-open_set (sys.set_non_blocking_flag socket flags w)
      ∙ laws.set_non_blocking_keeps socket flags w
  with_flags-open_set socket (w, failed e) = refl

  bound-HoldsSocket :
      (address : Text) (port socket : ℕ) (r : W × Result (Unit {0}))
      → OpenBeside others (some socket) (laws.open_set r.0)
      → HoldsSocket (bound sys address port socket r)
  unfolding bound
  bound-HoldsSocket address port socket (w, done u) h = h
  bound-HoldsSocket address port socket (w, failed e) h = close_OpenBeside laws others socket w h

  bind_to-HoldsSocket :
      (p : Option P) (address : Text) (port socket : ℕ) (w : W)
      → OpenBeside others (some socket) (laws.open_set w)
      → HoldsSocket (bind_to sys p address port socket w)
  unfolding bind_to
  bind_to-HoldsSocket none address port socket w h = close_OpenBeside laws others socket w h
  bind_to-HoldsSocket (some p) address port socket w h =
      bound-HoldsSocket address port socket (sys.bind socket p w)
        (still_OpenBeside laws others (some socket) _ _ (laws.bind_keeps socket p w) h)

  prepared-HoldsSocket :
      (address : Text) (port socket : ℕ) (r : W × Bool)
      → OpenBeside others (some socket) (laws.open_set r.0)
      → HoldsSocket (prepared sys address port socket r)
  unfolding prepared
  prepared-HoldsSocket address port socket (w, false) h = close_OpenBeside laws others socket w h
  prepared-HoldsSocket address port socket (w, true) h =
      bind_to-HoldsSocket (sys.address_of address port) address port socket
        (sys.set_reuse_address socket w)
        (still_OpenBeside laws others (some socket) _ _ (laws.set_reuse_keeps socket w) h)

  created-HoldsSocket :
      (address : Text) (port : ℕ) (w : W) (r : W × Result ℕ)
      → laws.open_set w ≡ others
      → Opens laws.open_set w r
      → HoldsSocket (created sys address port r)
  unfolding created set_non_blocking
  created-HoldsSocket address port w (w', done socket) h k =
      prepared-HoldsSocket address port socket _ (
        still_OpenBeside laws others (some socket) _ _
          (with_flags-open_set socket (sys.get_flags socket w') ∙ laws.get_flags_keeps socket w')
          (opened_OpenBeside laws others socket w w' h k))
  created-HoldsSocket address port w (w', failed e) h k = k ∙ h

-- Where the constructor of the UDP transport returns, its socket is open, which was not open before,
-- and the other descriptors are as they were; where it throws, whichever of its steps failed, all
-- descriptors are as they were; over calls of the system that open and close as `Descriptors` says.
pub make_udp_transport-HoldsSocket :
    {W O P : Type 0} (sys : Posix W O P) (laws : Descriptors sys) (address : Text) (port : ℕ)
    (w : W)
    → HoldsSocket sys laws (laws.open_set w) (make_udp_transport sys address port w)
unfolding make_udp_transport
make_udp_transport-HoldsSocket sys laws address port w =
    created-HoldsSocket sys laws (laws.open_set w) address port w (sys.socket w) refl
      (laws.socket_opens w)
