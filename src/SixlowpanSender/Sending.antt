-- ===== src/SixlowpanSender/Sending.antt =====
-- What a sequence of commands sends.
use riot_playground.Common.{
  ℕ, ◌+◌, ◌≡◌, refl, sym, ◌∙◌, List, [], ◌∷◌, ◌++◌, u8, Option, none, some, Option-cases, inl, inr,
}
use mathlib.Core.List.{append_assoc}
use riot_playground.Common.Chars.{atoi}
use riot_playground.SixlowpanSender.{State, Packet, packet, checked, send, comp}

-- `send <text>` and `comp <text>`.
pub data Command : Type 0 where
  sends comps : List ℕ → Command

pub run : List Command → State → State
run [] s = s
run (sends text ∷ cs) s = run cs (send ([] ∷ text ∷ []) s)
run (comps text ∷ cs) s = run cs (comp ([] ∷ text ∷ []) s)

-- The numbers that are accepted, in order.
unfoldable pub sizes : List Command → List ℕ
sizes [] = []
sizes (sends text ∷ cs) =
    let rest = sizes cs in elim (checked (atoi text)) [ none ↦ rest | some n ↦ n ∷ rest ]
sizes (comps text ∷ cs) = sizes cs

-- Packets of these sizes with consecutive bytes, the newest first.
abbrev pub packets : ℕ → ℕ → List ℕ → List Packet
packets value src [] = []
packets value src (n ∷ ns) = packets (u8 (value + 1)) src ns ++ packet value src n ∷ []

sized : State → ℕ → State
sized s n = record s {
  data_value = u8 (s.data_value + 1);
  sent = packet s.data_value s.src n ∷ s.sent;
}

send_refused :
    (text : List ℕ) (s : State) → checked (atoi text) ≡ none → send ([] ∷ text ∷ []) s ≡ s
unfolding send
send_refused text s e = rw (send, e) refl

send_accepted :
    (text : List ℕ) (s : State) (n : ℕ)
    → checked (atoi text) ≡ some n
    → send ([] ∷ text ∷ []) s ≡ sized s n
unfolding send sized
send_accepted text s n e = rw (send, e) refl

sizes-sends :
    (text : List ℕ) (cs : List Command) (o : Option ℕ)
    → checked (atoi text) ≡ o
    → sizes (sends text ∷ cs) ≡ elim o [ none ↦ sizes cs | some n ↦ n ∷ sizes cs ]
unfolding sizes
sizes-sends text cs o e = rw (sizes, e) refl

-- After any commands, the packets sent are those of the accepted sizes in order, each filled with the
-- byte after that of the packet before (modulo 256), whatever `comp` does in between.
pub sent-run :
    (cs : List Command) (s : State)
    → (run cs s).sent ≡ packets s.data_value s.src (sizes cs) ++ s.sent
unfolding run sizes comp sized
sent-run [] s = refl
sent-run (sends text ∷ cs) s = elim (Option-cases (checked (atoi text))) [
  | inl e ↦ rw (run, send_refused text s e, sizes-sends text cs none e) (sent-run cs s)
  | inr (n, e) ↦
      rw (run, send_accepted text s n e, sizes-sends text cs (some n) e)
        (sent-run cs (sized s n)
          ∙ sym (
              append_assoc (packets (u8 (s.data_value + 1)) s.src (sizes cs))
                (packet s.data_value s.src n ∷ []) s.sent))
]
sent-run (comps text ∷ cs) s = sent-run cs (comp ([] ∷ text ∷ []) s)
