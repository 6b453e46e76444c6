-- ===== src/Client/Tests/Board.antt =====
-- The whole client at a concrete run, and a context with an ID that was refused.
use riot_playground.Common.{
  ℕ, ◌<◌, ◌≡◌, refl, List, [], ◌∷◌, true, false, Option, none, some, arith, replicate, codes,
}
use riot_playground.Common.Int.{pos}
use riot_playground.Client.Context.{Peer, Userctx, userctx}
use riot_playground.Client.Context.Lengths.{refused_id_added}
use riot_playground.Client.Shell.{
  Libraries, Client, resp_cmd, run_command, start, gpio_irq, check_switch_event_handler, turned,
  interrupt, handled, command, Reach, starts, next,
}
use riot_playground.Client.Shell.Consistent.{Works, Reach-Works}

abbrev takes : List ℕ → Option (List ℕ) → Option ℕ × Option (List ℕ)
takes uri old = (none, some uri)

abbrev libraries : Libraries
libraries = record {
  msg_len = 8;
  uri_set = takes;
  proxy_set = takes;
  pton = λ addr. some addr;
  dns_port = 53;
  cred_add = λ c. none;
  doc_query = λ hostname family. pos 16;
  dns_query = λ hostname family. pos 16;
  keyid_maxlen = 7;
  ivlength = λ alg_num. 2;
  keylength = λ alg_num. 1;
  accepts = λ c. true;
}

-- The switch is turned, its interrupt and its event run, and a response is set.
abbrev turned_on : Client
turned_on = record (start libraries true) {
  board = record { level = false; edge = true; led = false; event = false; printed = [] };
}

abbrev lit : Client
lit = record turned_on { board = gpio_irq turned_on.board }

abbrev told : Client
told = record lit { board = check_switch_event_handler lit.board }

abbrev with_response : Client
with_response =
    (run_command libraries resp_cmd (codes "resp" ∷ codes "69" ∷ codes "2a0f" ∷ []) told).1

reached : Reach libraries true with_response
unfolding start gpio_irq
reached =
    next (next (next (next starts turned) (interrupt refl)) (handled refl))
      (command resp_cmd (codes "resp" ∷ codes "69" ∷ codes "2a0f" ∷ []))

Reach-Works_example : Works libraries with_response
Reach-Works_example = Reach-Works libraries (omega arith) reached

abbrev peer : ℕ → Peer
peer id_len = record { id = replicate 7 0; id_len = id_len; key = replicate 32 0 }

abbrev half_done : Userctx
half_done = record {
  context = record {
    alg_num = pos 10;
    common_iv = replicate 20 0;
    sender = peer 0;
    recipient = peer 2;
  };
  added = [];
}

-- An ID of eight bytes, where seven are allowed.
abbrev long_hex : List ℕ
long_hex = replicate 16 b'1'

refused_id_added_example :
    let (refused, u1) =
      userctx 7
        (λ n. 2)
        (λ n. 1)
        (λ c. true)
        (codes "userctx" ∷ codes "-s" ∷ long_hex ∷ codes "05" ∷ [])
        half_done in
    let (added, u2) =
      userctx 7 (λ n. 2) (λ n. 1) (λ c. true) (codes "userctx" ∷ codes "-c" ∷ []) u1 in
    (refused ≡ 1) × (added ≡ 0) × (u2.added ≡ u1.context ∷ []) × (7 < u1.context.sender.id_len)
refused_id_added_example =
    refused_id_added 7 (λ n. 2) (λ n. 1) (λ c. true) (codes "userctx") long_hex (codes "05")
      half_done refl (λ e. absurd (omega arith)) (omega arith) (λ c. refl)
