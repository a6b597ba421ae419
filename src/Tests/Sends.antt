-- ===== src/Tests/Sends.antt =====
-- Runs of the writes of a UDP socket and of the older application.
use ioproxy.Base.{
  ℕ, zero, suc, ◌≡◌, ◌⊎◌, refl, Bool, true, false, ◌==◌, none, some, List, [], ◌∷◌, ◌++◌, length,
  inl, arith,
}
use ioproxy.Base.Int.{pos}
use ioproxy.Io.{pack_of, Signal}
use ioproxy.Device.Udp.{Net, Udp, Protocol, is_multicast_config, write_data}
use ioproxy.Device.Udp.Writes.{Sent, write_data-Sent}
use ioproxy.Factory.UdpSocket.{Options}
use ioproxy.Legacy.App.{Ios, new_app, start_all}
use ioproxy.Legacy.App.Startup.{Answers, starts, fails, IsSettled, start_all-IsSettled}

-- The state of the network is the datagrams sent.
abbrev mail : Net ℕ ℕ (List (List ℕ × (ℕ × ℕ)))
mail = record {
  any = 0;
  any_ipv4 = 4;
  any_ipv6 = 6;
  is_null = λ a. a == 0;
  is_multicast = λ a. a == 224;
  protocol = λ a. Protocol.ipv4;
  is_equal = λ a b. a == b;
  address_text = λ a. "address";
  format = λ template arguments. template;
  all_interfaces = λ w. [];
  new_socket = λ w. w;
  bind = λ a p shared w. (true, w);
  set_loopback = λ n w. w;
  set_ttl = λ n w. w;
  set_multicast_interface = λ i w. w;
  join_multicast_group = λ g i w. (true, w);
  close = λ w. w;
  is_bound = λ w. true;
  write_datagram = λ bytes a p w. (pos (length bytes), w ++ ((bytes, (a, p)) ∷ []));
  error_string = λ w. "";
}

abbrev two_remotes : Options ℕ
two_remotes = record {
  bind_address = none;
  bind_port = 5000;
  remote_addresses = (7, 5001) ∷ (8, 5002) ∷ [];
  echo = false;
  multicast_ttl = none;
  multicast_loopback = false;
}

abbrev bound : Udp (List (List ℕ × (ℕ × ℕ)))
bound = record {
  socket = true;
  bytes_read = pos 0;
  bytes_written = pos 0;
  world = [];
  emitted = [];
}

write_data-Sent_example :
    ((true ≡ false) × (write_data mail two_remotes (pack_of (1 ∷ [])) bound ≡ none))
    ⊎ (((true ≡ true)
          × (true ≡ false)
          × (write_data mail two_remotes (pack_of (1 ∷ [])) bound ≡ some bound))
        ⊎ ((true ≡ true)
            × (true ≡ true)
            × ((t : Udp (List (List ℕ × (ℕ × ℕ)))) × (write_data mail two_remotes
                    (pack_of (1 ∷ []))
                    bound
                  ≡ some t)
                × Sent mail
                    (λ w. w)
                    (λ bytes a p w. refl)
                    (λ bytes a p w. inl refl)
                    (1 ∷ [])
                    ((7, 5001) ∷ (8, 5002) ∷ [])
                    bound
                    t)))
unfolding is_multicast_config
write_data-Sent_example =
    write_data-Sent mail (λ w. w) (λ bytes a p w. refl) (λ bytes a p w. inl refl) two_remotes
      (pack_of (1 ∷ [])) bound

-- Three IOs, of which the last fails: `start` counts the calls.
abbrev last_fails : Ios ℕ
last_fails = record {
  size = 3;
  start = λ i w. (
    suc w,
    (elim i [
      | zero ↦ Signal.started ∷ []
      | suc zero ↦ Signal.started ∷ []
      | suc (suc _) ↦ Signal.startup_error_occured "" ∷ []
    ]),
  );
  stop = λ i w. w;
  statistic = λ i w. record { bytes_read = 0; bytes_written = 0 };
}

answers : (i : ℕ) (w : ℕ) → (b : Bool) × Answers b (last_fails.start i w).1
answers zero w = (true, starts)
answers (suc zero) w = (true, starts)
answers (suc (suc i)) w = (false, fails "")

start_all-IsSettled_example : IsSettled last_fails 0 (start_all last_fails (new_app 0))
start_all-IsSettled_example = start_all-IsSettled last_fails answers 0 (omega arith)
