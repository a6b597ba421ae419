-- ===== src/Device/Udp/Writes.antt =====
-- src/ioproxy/io/UdpSocketIO.cpp: the datagrams that a write sends, and what it counts.
use mathlib.Core.List.{append_assoc, append-nil, map-append}
use ioproxy.Base.{
  ℕ, ◌+◌, ◌*◌, ◌≡◌, ◌⊎◌, refl, sym, ap, ◌∙◌, Bool, true, false, Bool-cases, Option, none, some,
  List, [], ◌∷◌, ◌++◌, map, length, length-append, arith, inl, inr, if_true, if_false, not,
  if◌then◌else◌,
}
use ioproxy.Base.Int.{pos, negsuc, ◌+ℤ◌, int_laws}
use ioproxy.Io.{DataPack}
use ioproxy.Factory.UdpSocket.{Options}
use ioproxy.Device.Udp.{
  Net, Udp, is_multicast_config, write_datagram, write_remotes, multicast_group_address, write_data,
}

-- Where the data of a write goes: the first group at the local port, or every remote address.
abbrev pub destinations : {Address : Type 0} → Bool → Options Address → List (Address × ℕ)
destinations multicast opts = elim opts.remote_addresses [
  | [] ↦ []
  | (address, port) ∷ rest ↦
      if multicast then (address, opts.bind_port) ∷ [] else (address, port) ∷ rest
]

module _ {Address Iface World : Type 0} (net : Net Address Iface World)
    (sent : World → List (List ℕ × (Address × ℕ)))
    (sends : (bytes : List ℕ) (a : Address) (port : ℕ) (w : World)
      → sent (net.write_datagram bytes a port w).1 ≡ sent w ++ ((bytes, (a, port)) ∷ []))
    (results : (bytes : List ℕ) (a : Address) (port : ℕ) (w : World)
      → ((net.write_datagram bytes a port w).0 ≡ pos (length bytes))
        ⊎ ((net.write_datagram bytes a port w).0 ≡ negsuc 0)) where
  -- The bytes went to the addresses, in order; each that failed took one off the count.
  pub record Sent (bytes : List ℕ) (to : List (Address × ℕ)) (s t : Udp World) : Type 0 where
    pub written : ℕ
    pub failed : ℕ
    pub all : written + failed ≡ length to
    pub datagrams : sent t.world ≡ sent s.world ++ map (λ a. (bytes, a)) to
    pub counted : t.bytes_written +ℤ pos failed ≡ s.bytes_written +ℤ pos (written * length bytes)
    pub emitted : t.emitted ≡ s.emitted

  write_datagram-Sent :
      (bytes : List ℕ) (a : Address) (port : ℕ) (s : Udp World)
      → Sent bytes ((a, port) ∷ []) s (write_datagram net bytes a port s)
  unfolding write_datagram
  write_datagram-Sent bytes a port s = elim (results bytes a port s.world) [
    | inl e ↦ record {
      written = 1;
      failed = 0;
      all = omega arith;
      datagrams = sends bytes a port s.world;
      counted = rw e (grind int_laws);
      emitted = refl;
    }
    | inr e ↦ record {
      written = 0;
      failed = 1;
      all = omega arith;
      datagrams = sends bytes a port s.world;
      counted = rw e (grind int_laws);
      emitted = refl;
    }
  ]

  Sent-trans :
      (bytes : List ℕ) (to more : List (Address × ℕ)) (s t u : Udp World)
      → Sent bytes to s t
      → Sent bytes more t u
      → Sent bytes (to ++ more) s u
  Sent-trans bytes to more s t u h k = record {
    written = h.written + k.written;
    failed = h.failed + k.failed;
    all = omega (arith, h.all, k.all, length-append to more);
    datagrams =
        k.datagrams
        ∙ ap (λ l. l ++ map (λ a. (bytes, a)) more) h.datagrams
        ∙ append_assoc (sent s.world) (map (λ a. (bytes, a)) to) (map (λ a. (bytes, a)) more)
        ∙ ap (λ l. sent s.world ++ l) (sym (map-append (λ a. (bytes, a)) to more));
    counted = grind (int_laws, h.counted, k.counted);
    emitted = k.emitted ∙ h.emitted;
  }

  write_remotes-Sent :
      (bytes : List ℕ) (to : List (Address × ℕ)) (s : Udp World)
      → Sent bytes to s (write_remotes net bytes to s)
  unfolding write_remotes
  write_remotes-Sent bytes [] s = record {
    written = 0;
    failed = 0;
    all = omega arith;
    datagrams = sym (append-nil (sent s.world));
    counted = grind int_laws;
    emitted = refl;
  }
  write_remotes-Sent bytes ((a, port) ∷ rest) s =
      let t = write_datagram net bytes a port s in
      Sent-trans bytes ((a, port) ∷ []) rest s t (write_remotes net bytes rest t)
        (write_datagram-Sent bytes a port s) (write_remotes-Sent bytes rest t)

  -- A write to a socket that is there and bound.
  sending : (opts : Options Address) (p : DataPack) (s : Udp World) → Option (Udp World)
  sending opts p s =
      if is_multicast_config net opts
      then elim (multicast_group_address net opts) [
        | none ↦ none
        | some group ↦ some (write_datagram net p.bytes group opts.bind_port s)
      ]
      else some (write_remotes net p.bytes opts.remote_addresses s)

  sending-Sent :
      (opts : Options Address) (p : DataPack) (s : Udp World)
      → (t : Udp World) × (sending opts p s ≡ some t)
        × Sent p.bytes (destinations (is_multicast_config net opts) opts) s t
  unfolding sending is_multicast_config multicast_group_address write_remotes
  sending-Sent opts p s = go opts.remote_addresses refl
    where
      go :
          (l : List (Address × ℕ))
          → opts.remote_addresses ≡ l
          → (t : Udp World) × (sending opts p s ≡ some t)
            × Sent p.bytes (destinations (is_multicast_config net opts) opts) s t
      go [] e = rw (e, sending, is_multicast_config) (_, refl, write_remotes-Sent p.bytes [] s)
      go ((a, port) ∷ rest) e = elim (Bool-cases (net.is_multicast a)) [
        | inl f ↦
            rw (e, sending, is_multicast_config, multicast_group_address, f)
              (_, refl, write_datagram-Sent p.bytes a opts.bind_port s)
        | inr f ↦
            rw (e, sending, is_multicast_config, multicast_group_address, f)
              (_, refl, write_remotes-Sent p.bytes ((a, port) ∷ rest) s)
      ]

  -- A write reads through a null pointer if there is no socket, does nothing if the socket is not bound,
  -- and otherwise sends the data to the remote addresses, or to the first group, once and in order, and
  -- counts the bytes of each that succeeded, less one for each that failed. It emits nothing.
  pub write_data-Sent :
      (opts : Options Address) (p : DataPack) (s : Udp World)
      → ((s.socket ≡ false) × (write_data net opts p s ≡ none))
        ⊎ (((s.socket ≡ true) × (net.is_bound s.world ≡ false) × (write_data net opts p s ≡ some s))
            ⊎ ((s.socket ≡ true)
                × (net.is_bound s.world ≡ true)
                × ((t : Udp World) × (write_data net opts p s ≡ some t)
                    × Sent p.bytes (destinations (is_multicast_config net opts) opts) s t)))
  unfolding write_data sending
  write_data-Sent opts p s = elim (Bool-cases s.socket) [
    | inr e ↦ inl (e, if_false _ _ e)
    | inl e ↦ elim (Bool-cases (net.is_bound s.world)) [
      | inr f ↦ inr (inl (e, f, if_true _ _ e ∙ if_true _ _ (ap not f)))
      | inl f ↦
          let (t, g, h) = sending-Sent opts p s in
          inr (inr (e, f, (t, if_true _ _ e ∙ if_false _ _ (ap not f) ∙ g, h)))
    ]
  ]
