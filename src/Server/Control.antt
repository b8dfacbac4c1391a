-- ===== src/Server/Control.antt =====
-- The registers that `main` writes around the clients, and the loop over the clients.
use rp_ecosystem.Base.{
  ℕ, ◌-◌, ◌^◌, bit_and, bit_or, List, [], ◌∷◌, Option, none, some, if◌then◌else◌,
}
use rp_ecosystem.Server.Stream.{Turn, Link, stream}

-- The bytes of the configuration: the reset byte, the rate and the writer's address; and what each
-- client was sent, the last client first.
pub record Server : Type 0 where
  pub rx_rst : ℕ
  pub rx_rate : ℕ
  pub rx_addr : ℕ
  pub clients : List Link

-- `*rx_rst &= ~1; usleep(100); *rx_rst &= ~2;`.
unfoldable pub enter_reset : Server → Server
enter_reset s =
    let s' = record s { rx_rst = bit_and s.rx_rst (2 ^ 8 - 1 - 1) } in
    record s' { rx_rst = bit_and s'.rx_rst (2 ^ 8 - 1 - 2) }

-- `*rx_rst |= 3;`.
unfoldable pub enter_normal : Server → Server
enter_normal s = record s { rx_rst = bit_or s.rx_rst 3 }

-- Waiting in `accept`, EXIT_FAILURE and EXIT_SUCCESS.
pub data Outcome : Type 0 where
  accepting : Outcome
  failure : Outcome
  success : Outcome

-- A pass through the outer loop up to `accept`.
unfoldable pub await : Server → Server
unfolding enter_reset
await s = record (enter_reset s) { rx_rate = 4 }

-- A client from `accept` to `close`.
unfoldable pub serve_client : List Turn → Server → Server
unfolding enter_normal await
serve_client turns s =
    let busy = enter_normal (await s) in record busy { clients = (stream turns).0 ∷ busy.clients }

-- The outer loop on what `accept` gives: a client with the rounds of its loop, or an error. Only in a
-- client's loop does a signal set `interrupted`.
unfoldable pub serve : List (Option (List Turn)) → Server → Server × Outcome
unfolding serve_client
serve [] s = (await s, accepting)
serve (none ∷ cs) s = (await s, failure)
serve (some turns ∷ cs) s =
    let s' = serve_client turns s in
    let rest = serve cs s' in if (stream turns).1 then (enter_reset s', success) else rest

-- `main` from `*rx_addr = size` on.
unfoldable pub main : ℕ → List (Option (List Turn)) → Server → Server × Outcome
unfolding serve
main size cs s = serve cs (record s { rx_addr = size })
