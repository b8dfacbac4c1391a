-- ===== src/Server/Modes.antt =====
-- The reset byte, the rate and the address that `main` leaves.
use rp_ecosystem.Base.{
  ℕ, ◌<◌, min, max, true, ◌&&◌, List, [], ◌∷◌, Option, none, some, ◌==◌, ltb, if◌then◌else◌, ◌≡◌,
  refl, ap, ◌∙◌, arith, Bool-cases, inl, inr,
}
use rp_ecosystem.Base.Bits.{bit, bit-bit_and, bit-bit_or, all_below, bit_table}
use rp_ecosystem.Server.Stream.{Turn, stream}
use rp_ecosystem.Server.Control.{
  Server, enter_reset, enter_normal, await, serve_client, serve, main,
}

abbrev low_bit : ℕ → ℕ → ℕ
low_bit k b = min (min b (bit 254 k)) (bit 253 k)

abbrev set_bit : ℕ → ℕ → ℕ
set_bit k b = max b (bit 3 k)

abbrev cleared : ℕ → ℕ → ℕ
cleared k b = if ltb k 2 then 0 else b

low_table : all_below 8 (λ i. low_bit i 0 == cleared i 0 && low_bit i 1 == cleared i 1) ≡ true
unfolding all_below
low_table = refl

set_table :
    all_below 8
      (λ i. cleared i (set_bit i 0) == cleared i 0 && cleared i (set_bit i 1) == cleared i 1)
    ≡ true
unfolding all_below
set_table = refl

enter_reset-bits :
    (s : Server) (k : ℕ) → k < 8 → bit (enter_reset s).rx_rst k ≡ cleared k (bit s.rx_rst k)
unfolding enter_reset
enter_reset-bits s k h = simp bit-bit_and (bit_table 8 low_bit cleared k s.rx_rst low_table h)

enter_normal-bits :
    (s : Server) (k : ℕ)
    → k < 8
    → cleared k (bit (enter_normal s).rx_rst k) ≡ cleared k (bit s.rx_rst k)
unfolding enter_normal
enter_normal-bits s k h =
    simp bit-bit_or (bit_table 8 (λ i b. cleared i (set_bit i b)) cleared k s.rx_rst set_table h)

cleared_twice : (k b : ℕ) → cleared k (cleared k b) ≡ cleared k b
cleared_twice k b = ground arith

await-bits : (s : Server) (k : ℕ) → k < 8 → bit (await s).rx_rst k ≡ cleared k (bit s.rx_rst k)
unfolding await
await-bits s k h = enter_reset-bits s k h

client-bits :
    (turns : List Turn) (s : Server) (k : ℕ)
    → k < 8
    → cleared k (bit (serve_client turns s).rx_rst k) ≡ cleared k (bit s.rx_rst k)
unfolding serve_client
client-bits turns s k h =
    enter_normal-bits (await s) k h
    ∙ ap (cleared k) (await-bits s k h)
    ∙ cleared_twice k (bit s.rx_rst k)

serve-bits :
    (cs : List (Option (List Turn))) (s : Server) (k : ℕ)
    → k < 8
    → bit (serve cs s).0.rx_rst k ≡ cleared k (bit s.rx_rst k)
unfolding serve
serve-bits [] s k h = await-bits s k h
serve-bits (none ∷ cs) s k h = await-bits s k h
serve-bits (some turns ∷ cs) s k h = elim (Bool-cases (stream turns).1) [
  | inl interrupted ↦
      rw interrupted (enter_reset-bits (serve_client turns s) k h ∙ client-bits turns s k h)
  | inr broken ↦ rw broken (serve-bits cs (serve_client turns s) k h ∙ client-bits turns s k h)
]

serve-rest :
    (cs : List (Option (List Turn))) (s : Server)
    → ((serve cs s).0.rx_rate ≡ 4) × ((serve cs s).0.rx_addr ≡ s.rx_addr)
unfolding serve await enter_reset enter_normal serve_client
serve-rest [] s = (refl, refl)
serve-rest (none ∷ cs) s = (refl, refl)
serve-rest (some turns ∷ cs) s = let ih = serve-rest cs (serve_client turns s) in ground arith

-- Whatever clients come and however their loops end, `main` leaves, or waits for a client with, the
-- bits 0 and 1 of the reset byte clear and its other six bits as they were, the rate 4 and its
-- buffer's address.
pub main-reset :
    (size : ℕ) (cs : List (Option (List Turn))) (s : Server) (k : ℕ)
    → k < 8
    → (bit (main size cs s).0.rx_rst k ≡ (if ltb k 2 then 0 else bit s.rx_rst k))
      × ((main size cs s).0.rx_rate ≡ 4)
      × ((main size cs s).0.rx_addr ≡ size)
unfolding main
main-reset size cs s k h =
    let s' = record s { rx_addr = size } in
    let rest = serve-rest cs s' in (serve-bits cs s' k h, rest.0, rest.1)

busy_table :
    all_below 8 (λ i.
      let want = λ (b : ℕ). if ltb i 2 then 1 else b in
      set_bit i (low_bit i 0) == want 0 && set_bit i (low_bit i 1) == want 1)
    ≡ true
unfolding all_below
busy_table = refl

-- A client finds the bits 0 and 1 of the reset byte set, its other bits kept, and the rate 4.
pub busy-bits :
    (s : Server) (k : ℕ)
    → k < 8
    → let busy = enter_normal (await s) in
      (bit busy.rx_rst k ≡ (if ltb k 2 then 1 else bit s.rx_rst k))
      × (busy.rx_rate ≡ 4)
      × (busy.rx_addr ≡ s.rx_addr)
unfolding enter_normal await enter_reset
busy-bits s k h = (
  simp (bit-bit_or, bit-bit_and)
      (bit_table 8 (λ i b. set_bit i (low_bit i b)) (λ i b. if ltb i 2 then 1 else b) k s.rx_rst
        busy_table h),
  refl,
  refl,
)
