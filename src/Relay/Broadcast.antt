-- ===== src/Relay/Broadcast.antt =====
-- src/ioproxy/io/TcpServerIO.cpp: what a server with the option broadcast sends on to its other sockets.
use mathlib.Core.List.{append_assoc, append-nil}
use ioproxy.Base.{
  ℕ, suc, ◌+◌, ◌*◌, ◌<◌, ◌≡◌, ◌⊎◌, refl, sym, ap, ◌∙◌, inl, inr, true, false, Bool-cases,
  if◌then◌else◌, List, [], ◌∷◌, ◌++◌, length, arith, ◌==◌,
}
use ioproxy.Base.Int.{pos, eq_ℤ, eq_of_eq_ℤ}
use ioproxy.Io.{DataPack, pack_of, count, Signal}
use ioproxy.Factory.TcpServer.{Options}
use ioproxy.Device.{errors}
use ioproxy.Device.TcpServer.{Net, TcpServer, write_socket, write_others, on_socket_ready_read}
use ioproxy.Device.TcpServer.Counts.{others, broadcast_counts}
use ioproxy.Relay.Flow.{copies}
use ioproxy.Relay.Server.{IsPeer, occurrences, sent_to, write-sent, copies-append}

module _ {Address Socket World : Type 0} {net : Net Address Socket World} {c : Socket}
    (peer : IsPeer net c) where
  -- The client got the bytes and no error was emitted, or one was.
  abbrev pub Got : List ℕ → TcpServer Socket World → TcpServer Socket World → Type 0
  Got l s t =
      ((errors t.emitted ≡ errors s.emitted) × (sent_to peer t ≡ sent_to peer s ++ l))
      ⊎ (errors s.emitted < errors t.emitted)

  Got-trans :
      (l m : List ℕ) (s t u : TcpServer Socket World) → Got l s t → Got m t u → Got (l ++ m) s u
  Got-trans l m s t u (inl (a, b)) (inl (a', b')) =
      inl (a' ∙ a, b' ∙ (ap (λ k. k ++ m) b ∙ append_assoc (sent_to peer s) l m))
  Got-trans l m s t u (inl (a, b)) (inr more) = inr (omega (arith, a, more))
  Got-trans l m s t u (inr more) (inl (a, b)) = inr (omega (arith, a, more))
  Got-trans l m s t u (inr more) (inr more') = inr (omega (arith, more, more'))

  write_socket-Got :
      (x : Socket) (p : DataPack) (s : TcpServer Socket World)
      → Got (copies (occurrences net c (x ∷ [])) p.bytes) s (write_socket net x p s)
  unfolding write_socket
  write_socket-Got x p s =
      elim (Bool-cases (eq_ℤ (net.write x p.bytes s.world).0 (pos (count p)))) [
        | inl full ↦
            let sent = write-sent peer x p.bytes s.world (eq_of_eq_ℤ _ _ full) in
            rw (full, write_socket) (inl (refl, sent))
        | inr short ↦ rw (short, write_socket) (inr (omega arith))
      ]

  write_others-Got :
      (sock : Socket) (xs : List Socket) (p : DataPack) (s : TcpServer Socket World)
      → Got
          (copies (occurrences net c (others net sock xs)) p.bytes)
          s
          (write_others net sock xs p s)
  unfolding write_others others occurrences
  write_others-Got sock [] p s = inl (refl, sym (append-nil (sent_to peer s)))
  write_others-Got sock (x ∷ xs) p s = elim (Bool-cases (net.same x sock)) [
    | inl e ↦ rw (e, write_others, others) (write_others-Got sock xs p s)
    | inr e ↦
        let rest = others net sock xs in
        rw (e, write_others, others)
          (rw⁻¹ (copies-append peer x rest p.bytes) (
            Got-trans (copies (occurrences net c (x ∷ [])) p.bytes)
              (copies (occurrences net c rest) p.bytes) s (write_socket net x p s)
              (write_others net sock xs p (write_socket net x p s)) (write_socket-Got x p s)
              (write_others-Got sock xs p (write_socket net x p s))))
  ]

  -- The client stands in the list of the others as often as among all, unless it is the sender.
  occurrences-others :
      (sock : Socket) (xs : List Socket)
      → occurrences net c (others net sock xs)
        ≡ (if net.same c sock then 0 else occurrences net c xs)
  unfolding occurrences others
  occurrences-others sock [] = ground arith
  occurrences-others sock (x ∷ xs) =
      let below = occurrences-others sock xs in
      elim (Bool-cases (net.same x c)) [
        | inl mine ↦
            let e = ap (λ y. net.same y sock) (peer.same_eq x c mine) in
            elim (Bool-cases (net.same c sock)) [
              | inl sends ↦ rw (e ∙ sends, sends) (rw sends at below)
              | inr other ↦ rw (e ∙ other, mine, other) (ap suc (rw other at below))
            ]
        | inr away ↦ elim (Bool-cases (net.same x sock)) [
          | inl sends ↦ rw (sends, away) below
          | inr other ↦ rw (other, away) below
        ]
      ]

module _ {Address Socket World : Type 0} {net : Net Address Socket World} {c : Socket}
    (peer : IsPeer net c) (opts : Options Address) where
  -- Data is available on one socket of a server with `broadcast`, and `c` is any client. The server emits what
  -- it reads of the socket as one pack, last, and counts its bytes as read, and its sockets stay. The bytes
  -- are sent to `c` once for each time that it is a socket of the server, but not at all if it is the sender;
  -- or at least one error is emitted. Of all other sockets, each write is counted in full or reported as
  -- an error.
  pub broadcast_lem :
      (sock : Socket) (s : TcpServer Socket World)
      → (net.bytes_available sock s.world == 0) ≡ false
      → opts.broadcast ≡ true
      → let bytes = (net.read sock (net.bytes_available sock s.world) s.world).0 in
        let t = on_socket_ready_read net opts sock s in
        Got peer (copies (if net.same c sock then 0 else occurrences net c s.sockets) bytes) s t
        × ((older : List Signal) × (t.emitted ≡ Signal.new_data (pack_of bytes) ∷ older))
        × (t.bytes_written + length bytes * errors t.emitted
            ≡ s.bytes_written
              + length bytes * (errors s.emitted + length (others net sock s.sockets)))
        × (t.bytes_read ≡ s.bytes_read + length bytes)
        × (t.sockets ≡ s.sockets)
  unfolding on_socket_ready_read
  broadcast_lem sock s available broadcast =
      let n = net.bytes_available sock s.world in
      let (bytes, w) = net.read sock n s.world in
      let after : TcpServer Socket World = record s { world = w } in
      let (a, b, d, e) = broadcast_counts net opts sock s available broadcast in
      let got = write_others-Got peer sock s.sockets (pack_of bytes) after in
      let start : Got peer [] s after =
        inl (refl, peer.read sock n s.world ∙ sym (append-nil (sent_to peer s))) in
      let all =
        Got-trans peer [] (copies (occurrences net c (others net sock s.sockets)) bytes) s after
          (write_others net sock s.sockets (pack_of bytes) after) start got in
      (
        rw (available, broadcast) (rw⁻¹ (occurrences-others peer sock s.sockets) all),
        rw (available, broadcast) (_, refl),
        a,
        b,
        e,
      )
