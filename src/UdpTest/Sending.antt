-- ===== src/UdpTest/Sending.antt =====
-- What `send` sends, and that it keeps no snip.
use riot_playground.Common.{
  ℕ, zero, suc, ◌+◌, ◌≡◌, refl, ◌∙◌, ap, List, [], ◌∷◌, ◌++◌, Bool, true, false, arith, u8,
}
use mathlib.Core.List.{append_assoc}
use riot_playground.UdpTest.{
  Udp, Packet, Outcome, no_payload, no_udp_header, no_ip_header, no_thread, goes_out, send_one,
  send_loop,
}

snips-send_one :
    (outcome : Outcome) (data_len port : ℕ) (u : Udp)
    → (send_one outcome data_len port u).1.snips ≡ u.snips
unfolding send_one
snips-send_one no_payload data_len port u = refl
snips-send_one no_udp_header data_len port u = omega arith
snips-send_one no_ip_header data_len port u = omega arith
snips-send_one no_thread data_len port u = omega arith
snips-send_one goes_out data_len port u = omega arith

-- Wherever the loop of `send` stops, with an allocation or the hand-over refused at any turn, it
-- has released or handed over every snip that it allocated.
pub snips-send_loop :
    (outcome : ℕ → Outcome) (data_len port n i : ℕ) (u : Udp)
    → (send_loop outcome data_len port n i u).snips ≡ u.snips
unfolding send_loop
snips-send_loop outcome data_len port zero i u = refl
snips-send_loop outcome data_len port (suc n) i u =
    goes (send_one (outcome i) data_len port u).0
      (snips-send_loop outcome data_len port n (i + 1) (send_one (outcome i) data_len port u).1)
  where
    u' : Udp
    u' = (send_one (outcome i) data_len port u).1

    kept : u'.snips ≡ u.snips
    kept = snips-send_one (outcome i) data_len port u

    goes :
        (b : Bool)
        → (send_loop outcome data_len port n (i + 1) u').snips ≡ u'.snips
        → (elim b as (λ c. Udp) [
          | true ↦ send_loop outcome data_len port n (i + 1) u'
          | false ↦ u'
        ]).snips
          ≡ u.snips
    goes true rest = rest ∙ kept
    goes false rest = kept

-- The packets of `n` turns, the latest first, with the bytes from `count` on.
pub packets : ℕ → ℕ → ℕ → ℕ → List Packet
packets data_len port zero count = []
packets data_len port (suc n) count =
    packets data_len port n (u8 (count + 1))
    ++ record { fill_byte = count; data_len = data_len; port = port } ∷ []

-- A turn that sends a packet.
sent-turn :
    (outcome : ℕ → Outcome) (data_len port n i : ℕ) (u : Udp)
    → outcome i ≡ goes_out
    → let u' = (send_one (outcome i) data_len port u).1 in
      (send_loop outcome data_len port (suc n) i u ≡ send_loop outcome data_len port n (i + 1) u')
      × (u'.send_count ≡ u8 (u.send_count + 1))
      × (u'.sent ≡ record { fill_byte = u.send_count; data_len = data_len; port = port } ∷ u.sent)
unfolding send_loop send_one
sent-turn outcome data_len port n i u e = (
  rw (send_loop, e)
      (ap (λ o. send_loop outcome data_len port n (i + 1) (send_one o data_len port u).1) e),
  rw e refl,
  rw e refl,
)

-- If nothing is refused, `n` turns send `n` packets of the length and port that were asked for,
-- filled with consecutive bytes (modulo 256) from the count of packets before.
pub sent-send_loop :
    (outcome : ℕ → Outcome) (data_len port n i : ℕ) (u : Udp)
    → ((k : ℕ) → outcome k ≡ goes_out)
    → (send_loop outcome data_len port n i u).sent ≡ packets data_len port n u.send_count ++ u.sent
unfolding packets
sent-send_loop outcome data_len port zero i u all = unfold send_loop in refl
sent-send_loop outcome data_len port (suc n) i u all =
    let (turn, count, one_more) = sent-turn outcome data_len port n i u (all i) in
    ap (λ v. v.sent) turn
    ∙ sent-send_loop outcome data_len port n (i + 1) (send_one (outcome i) data_len port u).1 all
    ∙ rw (count, one_more, append_assoc) refl
