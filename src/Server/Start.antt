-- ===== src/Server/Start.antt =====
-- `main` of server/adc-test-server.c from its start: the files, the buffer and the socket.
use rp_ecosystem.Base.{
  ℕ, ◌<◌, true, false, Bool, not, ◌&&◌, List, [], ◌∷◌, Option, none, some, ltb, if◌then◌else◌, ◌≡◌,
  arith,
}
use rp_ecosystem.Base.Bits.{bit}
use rp_ecosystem.Base.Int.{ℤ, pos, ltb_ℤ}
use rp_ecosystem.Server.Stream.{Turn, stream, stream_loop}
use rp_ecosystem.Server.Control.{
  Server, Outcome, accepting, failure, success, enter_reset, enter_normal, await, serve_client,
  serve, main,
}
use rp_ecosystem.Server.Modes.{main-reset, busy-bits}

-- What the system answers: the two files, the request for the buffer with the address that it
-- leaves, the socket and its address; and whether the status and the configuration were mapped. The
-- buffer is read by the kernel alone, in `send`.
pub record Answers : Type 0 where
  pub mem_opened : ℤ
  pub sts_mapped : Bool
  pub cfg_mapped : Bool
  pub cma_opened : ℤ
  pub ioctl_result : ℤ
  pub size : ℕ
  pub socket : ℤ
  pub bound : ℤ

-- How the program ends: by an access through MAP_FAILED, or by a result, each with the registers.
pub data Exit : Type 0 where
  faulted : Server → Exit
  ended : Server → Outcome → Exit

-- The loop over the clients where the status is not mapped: the first round of the first client
-- reads the writer's position through it. A client with no round was interrupted before one.
unfoldable pub serve_unmapped : List (Option (List Turn)) → Server → Exit
unfolding serve_client
serve_unmapped [] s = ended (await s) accepting
serve_unmapped (none ∷ cs) s = ended (await s) failure
serve_unmapped (some [] ∷ cs) s = ended (enter_reset (serve_client [] s)) success
serve_unmapped (some (t ∷ ts) ∷ cs) s = faulted (enter_normal (await s))

-- From `*rx_addr = size` to `listen`, and the loop over the clients.
unfoldable pub open_socket : Answers → List (Option (List Turn)) → Server → Exit
unfolding serve_unmapped
open_socket a cs s =
    let s' = record s { rx_addr = a.size } in
    if ltb_ℤ a.socket (pos 0)
    then ended s' failure
    else if ltb_ℤ a.bound (pos 0)
    then ended s' failure
    else if a.sts_mapped
    then (let (left, outcome) = main a.size cs s in ended left outcome)
    else serve_unmapped cs s'

unfoldable pub launch : Answers → List (Option (List Turn)) → Server → Exit
unfolding open_socket
launch a cs s =
    if ltb_ℤ a.mem_opened (pos 0)
    then ended s failure
    else if ltb_ℤ a.cma_opened (pos 0)
    then ended s failure
    else if ltb_ℤ a.ioctl_result (pos 0)
    then ended s failure
    else if a.cfg_mapped
    then open_socket a cs s
    else faulted s

-- The files and the driver answer, and the socket does.
abbrev pub opens : Answers → Bool
opens a =
    not (ltb_ℤ a.mem_opened (pos 0))
    && (not (ltb_ℤ a.cma_opened (pos 0)) && not (ltb_ℤ a.ioctl_result (pos 0)))

abbrev pub listens : Answers → Bool
listens a = not (ltb_ℤ a.socket (pos 0)) && not (ltb_ℤ a.bound (pos 0))

-- The registers that a program leaves when it ends, and when it faults.
abbrev pub Leaves : Exit → (Server → Type 0) → (Server → Type 0) → Type 0
Leaves (faulted s) P Q = Q s
Leaves (ended s r) P Q = P s

serve_unmapped-Leaves :
    (size : ℕ) (cs : List (Option (List Turn))) (s : Server) (k : ℕ)
    → k < 8
    → Leaves
        (serve_unmapped cs (record s { rx_addr = size }))
        (λ left.
          (bit left.rx_rst k ≡ (if ltb k 2 then 0 else bit s.rx_rst k))
          × (left.rx_rate ≡ 4)
          × (left.rx_addr ≡ size))
        (λ left.
          (bit left.rx_rst k ≡ (if ltb k 2 then 1 else bit s.rx_rst k))
          × (left.rx_rate ≡ 4)
          × (left.rx_addr ≡ size))
unfolding serve_unmapped main serve stream stream_loop
serve_unmapped-Leaves size [] s k h = main-reset size [] s k h
serve_unmapped-Leaves size (none ∷ cs) s k h = main-reset size (none ∷ cs) s k h
serve_unmapped-Leaves size (some [] ∷ cs) s k h = main-reset size (some [] ∷ cs) s k h
serve_unmapped-Leaves size (some (t ∷ ts) ∷ cs) s k h = busy-bits (record s { rx_addr = size }) k h

-- With the configuration mapped the program ends, or waits for a client, with its registers as they
-- were, if a file or the driver fails; with its buffer's address alone changed, if the socket fails;
-- and otherwise with the bits 0 and 1 of the reset byte clear, its other six bits kept, the rate 4
-- and its buffer's address. It faults only if the status is not mapped, and then with the bits 0 and 1
-- set, its other six bits kept, the rate 4 and its buffer's address.
pub launch-reset :
    (a : Answers) (cs : List (Option (List Turn))) (s : Server) (k : ℕ)
    → a.cfg_mapped ≡ true
    → k < 8
    → Leaves
        (launch a cs s)
        (λ left.
          (bit left.rx_rst k ≡ (if opens a && listens a && ltb k 2 then 0 else bit s.rx_rst k))
          × (left.rx_rate ≡ (if opens a && listens a then 4 else s.rx_rate))
          × (left.rx_addr ≡ (if opens a then a.size else s.rx_addr)))
        (λ left.
          (a.sts_mapped ≡ false)
          × (bit left.rx_rst k ≡ (if ltb k 2 then 1 else bit s.rx_rst k))
          × (left.rx_rate ≡ 4)
          × (left.rx_addr ≡ a.size))
unfolding launch open_socket
launch-reset a cs s k c h =
    let m = main-reset a.size cs s k h in
    let u = serve_unmapped-Leaves a.size cs s k h in ground arith
