-- ===== src/Scanner/Udp.antt =====
-- cluster-test/test-orchestrator/udp_scanner.go. The connection is a parameter: reading into a buffer of
-- some size gives the connection after it and either an error or the bytes that fit into the buffer.
use ringpop_common.Common.{
  ℕ, zero, suc, ◌≤◌, ◌≡◌, refl, ap, ◌∙◌, Bool, true, false, Option, none, some, List, [], ◌∷◌, ◌++◌,
  map, arith, Bytes, codes, length, take, drop, take-append,
}
use ringpop_common.Outcome.{udp_scanner, udp_scan, Failure, within, io_error, Outcome, ok, err}
use ringpop_common.Scanner.{Scanner, Yields}

-- `net.UDPConn`, and `net.ListenUDP` behind `net.ResolveUDPAddr`
pub record Net (C : Type 0) : Type 0 where
  pub resolve : Bytes → Option Failure
  pub listen : Bytes → Option C
  pub receive : C → C × Option Bytes

pub record UdpScanner (C : Type 0) : Type 0 where
  pub buf : Bytes
  pub text : Bytes
  pub failure : Option Failure
  pub conn : C

abbrev pub buffer_size : ℕ
buffer_size = 1024

unfoldable pub zeros : ℕ → Bytes
zeros zero = []
zeros (suc n) = 0 ∷ zeros n

-- A datagram that is longer than the buffer is cut; a shorter one leaves the end of the buffer.
unfoldable pub fill : Bytes → Bytes → Bytes
fill datagram buf = take (length buf) datagram ++ drop (length (take (length buf) datagram)) buf

module _ {C : Type 0} (net : Net C) where
  listening : Option C → Outcome (UdpScanner C)
  listening none = err (within udp_scanner (io_error (codes "listen")))
  listening (some c) = ok (record { buf = zeros buffer_size; text = []; failure = none; conn = c })

  unfoldable pub new_udp_scanner : Bytes → Outcome (UdpScanner C)
  unfolding listening zeros
  new_udp_scanner port = elim (net.resolve port) [
    | some e ↦ err (within udp_scanner e)
    | none ↦ listening (net.listen port)
  ]

  scanned : UdpScanner C → C × Option Bytes → Bool × UdpScanner C
  unfolding fill
  scanned s (c, none) =
      (false, record s { failure = some (within udp_scan (io_error (codes "read"))); conn = c })
  scanned s (c, some datagram) = (
    true,
    record s {
      buf = fill datagram s.buf;
      text = take (length (take (length s.buf) datagram)) (fill datagram s.buf);
      conn = c;
    },
  )

  -- `Scan`, `Text` and `Err`
  unfoldable pub udp_scanner_methods : Scanner (UdpScanner C)
  unfolding scanned
  udp_scanner_methods = record {
    scan = λ s. scanned s (net.receive s.conn);
    text = λ s. s.text;
    err_of = λ s. s.failure;
  }

length-take : (n : ℕ) (s : Bytes) → length (take n s) ≤ n
length-take zero s = omega arith
length-take (suc n) [] = omega arith
length-take (suc n) (c ∷ s) = omega (arith, length-take n s)

length-take-drop :
    (s buf : Bytes) → length s ≤ length buf → length (s ++ drop (length s) buf) ≡ length buf
length-take-drop [] buf h = refl
length-take-drop (c ∷ s) [] h = absurd (omega arith)
length-take-drop (c ∷ s) (b ∷ buf) h = omega (arith, length-take-drop s buf (omega arith))

length-fill : (datagram buf : Bytes) → length (fill datagram buf) ≡ length buf
unfolding fill
length-fill datagram buf =
    length-take-drop (take (length buf) datagram) buf (length-take (length buf) datagram)

length-zeros : (n : ℕ) → length (zeros n) ≡ n
unfolding zeros
length-zeros zero = refl
length-zeros (suc n) = omega (arith, length-zeros n)

abbrev read_failed : Failure
read_failed = within udp_scan (io_error (codes "read"))

module _ {C : Type 0} (net : Net C) where
  -- The connection receives these datagrams, and then an error.
  abbrev pub Delivers : C → List Bytes → Type 0
  Delivers c [] = (d : C) × (net.receive c ≡ (d, none))
  Delivers c (x ∷ xs) = (d : C) × (net.receive c ≡ (d, some x)) × Delivers d xs

  abbrev after : Bytes → UdpScanner C → C → UdpScanner C
  after x s d = record s {
    buf = fill x s.buf;
    text = take (length (take (length s.buf) x)) (fill x s.buf);
    conn = d;
  }

  received-Yields :
      (s : UdpScanner C) (xs : List Bytes)
      → length s.buf ≡ buffer_size
      → s.failure ≡ none
      → Delivers s.conn xs
      → Yields (udp_scanner_methods net) s (map (take buffer_size) xs) (some read_failed)
  unfolding udp_scanner_methods scanned
  received-Yields s [] size no_err (d, got) =
      (record s { failure = some read_failed; conn = d }, rw got, refl)
  received-Yields s (x ∷ xs) size no_err (d, got, more) = (
    after x s d,
    rw got,
    unfold fill in (take-append _ _ ∙ ap (λ n. take n x) size),
    no_err,
    received-Yields (after x s d) xs (length-fill x s.buf ∙ size) no_err more,
  )

  -- Where the port resolves, the connection listens and then receives the datagrams `xs` and an error,
  -- `NewUDPScanner` makes a scanner whose texts are those datagrams, one for each `Scan`, cut to 1024
  -- bytes and with nothing of an earlier, longer one behind them; then it stops with that error.
  pub new_udp_scanner-Yields :
      (port : Bytes) (c : C) (xs : List Bytes)
      → net.resolve port ≡ none
      → net.listen port ≡ some c
      → Delivers c xs
      → (s : UdpScanner C) × (new_udp_scanner net port ≡ ok s)
        × Yields (udp_scanner_methods net) s (map (take buffer_size) xs) (some read_failed)
  unfolding new_udp_scanner listening
  new_udp_scanner-Yields port c xs resolves listens more = (
    opened,
    rw (new_udp_scanner, resolves) (rw listens),
    received-Yields opened xs (length-zeros buffer_size) refl more,
  )
    where
      opened : UdpScanner C
      opened = record { buf = zeros buffer_size; text = []; failure = none; conn = c }
