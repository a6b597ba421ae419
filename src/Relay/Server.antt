-- ===== src/Relay/Server.antt =====
-- src/ioproxy/io/TcpServerIO.cpp: the server as an IO that takes data, as one of its clients sees it.
use mathlib.Core.Path.{subst}
use mathlib.Core.List.{append_assoc, append-nil}
use ioproxy.Base.{
  ℕ, suc, ◌≡◌, ◌≢◌, ◌⊎◌, refl, sym, ap, ◌∙◌, inl, inr, true, false, Bool-cases, if_true, if_false,
  if◌then◌else◌, some, List, [], ◌∷◌, ◌++◌, length, arith,
}
use ioproxy.Base.Int.{ℤ, pos, eq_ℤ, eq_of_eq_ℤ}
use ioproxy.Io.{DataPack, count}
use ioproxy.Device.TcpServer.{Net, TcpServer, Event, write_socket, write_each, remove_one}
use ioproxy.Relay.Reports.{OnlyErrors}
use ioproxy.Relay.Flow.{copies}

-- The connection of one client: `sent` is what was written to it in full. Another socket is another connection,
-- and a new one is not the client's.
pub record IsPeer {Address Socket World : Type 0} (net : Net Address Socket World) (c : Socket)
    : Type 0 where
  pub sent : World → List ℕ
  pub same_eq : (x y : Socket) → net.same x y ≡ true → x ≡ y
  pub write :
      (bytes : List ℕ) (w : World)
      → let r = net.write c bytes w in r.0 ≡ pos (length bytes) → sent r.1 ≡ sent w ++ bytes
  pub write_other :
      (x : Socket) (bytes : List ℕ) (w : World)
      → net.same x c ≡ false
      → sent (net.write x bytes w).1 ≡ sent w
  pub read : (x : Socket) (n : ℕ) (w : World) → sent (net.read x n w).1 ≡ sent w
  pub set_read_buffer_size :
      (x : Socket) (n : ℤ) (w : World) → sent (net.set_read_buffer_size x n w) ≡ sent w
  pub next_pending_connection : (w : World) → sent (net.next_pending_connection w).1 ≡ sent w
  pub fresh :
      (x : Socket) (w : World) → (net.next_pending_connection w).0 ≡ some x → net.same x c ≡ false
  pub abort : (x : Socket) (w : World) → net.same x c ≡ false → sent (net.abort x w) ≡ sent w
  pub delete : (x : Socket) (w : World) → net.same x c ≡ false → sent (net.delete x w) ≡ sent w
  pub delete_later :
      (x : Socket) (w : World) → net.same x c ≡ false → sent (net.delete_later x w) ≡ sent w

module _ {Address Socket World : Type 0} (net : Net Address Socket World) (c : Socket) where
  -- What happens to a server whose client `c` stays connected, apart from calls.
  abbrev pub IsElsewhere : Event Socket → Type 0
  IsElsewhere Event.new_connection = Unit
  IsElsewhere (Event.accept_error error) = Unit
  IsElsewhere (Event.ready_read x) = Unit
  IsElsewhere (Event.socket_error x) = Unit
  IsElsewhere (Event.disconnected x) = net.same x c ≡ false
  IsElsewhere Event.call_start = ⊥
  IsElsewhere Event.call_stop = ⊥
  IsElsewhere (Event.call_write_data p) = ⊥

  -- How often the client is in a list of sockets.
  unfoldable pub occurrences : List Socket → ℕ
  occurrences [] = 0
  occurrences (x ∷ xs) = let rest = occurrences xs in if net.same x c then suc rest else rest

  -- The client is a socket of the server, once.
  abbrev pub IsServed : TcpServer Socket World → Type 0
  IsServed s = occurrences s.sockets ≡ 1

  pub occurrences-append :
      (xs : List Socket) (x : Socket)
      → net.same x c ≡ false
      → occurrences (xs ++ (x ∷ [])) ≡ occurrences xs
  unfolding occurrences
  occurrences-append [] x e = ground arith
  occurrences-append (y ∷ xs) x e = ground (arith, occurrences-append xs x e)

module _ {Address Socket World : Type 0} {net : Net Address Socket World} {c : Socket}
    (peer : IsPeer net c) where
  abbrev pub sent_to : TcpServer Socket World → List ℕ
  sent_to s = peer.sent s.world

  -- Writes gave the client the bytes and emitted nothing, or there was an error.
  abbrev pub Outcome : List ℕ → TcpServer Socket World → TcpServer Socket World → Type 0
  Outcome l s t =
      ((t.emitted ≡ s.emitted) × (t.sockets ≡ s.sockets) × (sent_to t ≡ sent_to s ++ l))
      ⊎ (t.emitted ≢ [])

  pub occurrences-remove_one :
      (x : Socket) (xs : List Socket)
      → net.same x c ≡ false
      → occurrences net c (remove_one net x xs) ≡ occurrences net c xs
  unfolding occurrences remove_one
  occurrences-remove_one x [] e = refl
  occurrences-remove_one x (y ∷ xs) e = elim (Bool-cases (net.same y x)) [
    | inl same ↦
        rw (same, occurrences)
          (sym (if_false _ _ (ap (λ z. net.same z c) (peer.same_eq y x same) ∙ e)))
    | inr other ↦ rw (other, occurrences) (ground (arith, occurrences-remove_one x xs e))
  ]

  pub write-sent :
      (x : Socket) (bytes : List ℕ) (w : World)
      → (net.write x bytes w).0 ≡ pos (length bytes)
      → peer.sent (net.write x bytes w).1 ≡ peer.sent w ++ copies (occurrences net c (x ∷ [])) bytes
  unfolding occurrences
  write-sent x bytes w full = elim (Bool-cases (net.same x c)) [
    | inl mine ↦
        let e = peer.same_eq x c mine in
        ap (λ z. peer.sent (net.write z bytes w).1) e
        ∙ (peer.write bytes w (ap (λ z. (net.write z bytes w).0) (sym e) ∙ full)
            ∙ rw mine (ap (λ l. peer.sent w ++ l) (sym (append-nil bytes))))
    | inr other ↦ peer.write_other x bytes w other ∙ rw other (sym (append-nil (peer.sent w)))
  ]

  write_socket-Outcome :
      (x : Socket) (p : DataPack) (s : TcpServer Socket World)
      → Outcome (copies (occurrences net c (x ∷ [])) p.bytes) s (write_socket net x p s)
  unfolding write_socket occurrences
  write_socket-Outcome x p s =
      elim (Bool-cases (eq_ℤ (net.write x p.bytes s.world).0 (pos (count p)))) [
        | inl full ↦
            subst (Outcome _ s) (sym (if_true _ _ full))
              (inl (refl, refl, write-sent x p.bytes s.world (eq_of_eq_ℤ _ _ full)))
        | inr short ↦ subst (Outcome _ s) (sym (if_false _ _ short)) (inr (λ q. cc))
      ]

  write_socket-noisy :
      (x : Socket) (p : DataPack) (s : TcpServer Socket World)
      → s.emitted ≢ []
      → (write_socket net x p s).emitted ≢ []
  unfolding write_socket
  write_socket-noisy x p s noisy =
      elim (Bool-cases (eq_ℤ (net.write x p.bytes s.world).0 (pos (count p)))) [
        | inl full ↦
            subst (λ (t : TcpServer Socket World). t.emitted ≢ []) (sym (if_true _ _ full)) noisy
        | inr short ↦
            subst (λ (t : TcpServer Socket World). t.emitted ≢ []) (sym (if_false _ _ short))
              (λ q. cc)
      ]

  write_each-noisy :
      (xs : List Socket) (p : DataPack) (s : TcpServer Socket World)
      → s.emitted ≢ []
      → (write_each net xs p s).emitted ≢ []
  unfolding write_each
  write_each-noisy [] p s noisy = noisy
  write_each-noisy (x ∷ xs) p s noisy =
      write_each-noisy xs p (write_socket net x p s) (write_socket-noisy x p s noisy)

  pub copies-append :
      (x : Socket) (xs : List Socket) (l : List ℕ)
      → copies (occurrences net c (x ∷ [])) l ++ copies (occurrences net c xs) l
        ≡ copies (occurrences net c (x ∷ xs)) l
  unfolding occurrences
  copies-append x xs l = elim (Bool-cases (net.same x c)) [
    | inl mine ↦ rw mine (append_assoc l [] _)
    | inr other ↦ rw other refl
  ]

  -- The loop gives the client the pack once for each time that it is in the list.
  pub write_each-Outcome :
      (xs : List Socket) (p : DataPack) (s : TcpServer Socket World)
      → Outcome (copies (occurrences net c xs) p.bytes) s (write_each net xs p s)
  unfolding write_each occurrences
  write_each-Outcome [] p s = inl (refl, refl, sym (append-nil (sent_to s)))
  write_each-Outcome (x ∷ xs) p s =
      let t = write_socket net x p s in
      elim (write_socket-Outcome x p s) [
        | inr noisy ↦ inr (write_each-noisy xs p t noisy)
        | inl (e, k, l) ↦ elim (write_each-Outcome xs p t) [
          | inr noisy ↦ inr noisy
          | inl (e', k', l') ↦ inl (
            e' ∙ e,
            k' ∙ k,
            l'
                ∙ (ap (λ m. m ++ copies (occurrences net c xs) p.bytes) l
                    ∙ (append_assoc (sent_to s) _ _
                        ∙ ap (λ m. sent_to s ++ m) (copies-append x xs p.bytes))),
          )
        ]
      ]

  write_socket-OnlyErrors :
      (x : Socket) (p : DataPack) (s : TcpServer Socket World)
      → OnlyErrors s.emitted
      → OnlyErrors (write_socket net x p s).emitted
  unfolding write_socket
  write_socket-OnlyErrors x p s only = ground arith

  pub write_each-OnlyErrors :
      (xs : List Socket) (p : DataPack) (s : TcpServer Socket World)
      → OnlyErrors s.emitted
      → OnlyErrors (write_each net xs p s).emitted
  unfolding write_each
  write_each-OnlyErrors [] p s only = only
  write_each-OnlyErrors (x ∷ xs) p s only =
      write_each-OnlyErrors xs p (write_socket net x p s) (write_socket-OnlyErrors x p s only)
