-- ===== src/Client/Shell/Consistent.antt =====
-- What holds of the client after any commands and turns of the switch.
use riot_playground.Common.{
  ℕ, ◌<◌, ◌≡◌, ◌≢◌, refl, List, [], ◌∷◌, Bool, false, not, length-replicate, arith, All, inl, inr,
  ◌⊎◌,
}
use riot_playground.Client.Mock.Chunks.{IsValid, resp-IsValid}
use riot_playground.Client.Context.{Context, Userctx, userctx, is_zero}
use riot_playground.Client.Shell.{
  Libraries, Board, Client, check_switch, check_switch_event_handler, gpio_irq, Command, switch_cmd,
  uri_cmd, server_cmd, creds_cmd, proxy_cmd, doc_cmd, dns_cmd, resp_cmd, userctx_cmd, run_command,
  start, Step, turned, interrupt, handled, command, Reach, starts, next,
}

-- With no interrupt outstanding the LED shows the switch, and with no event queued either, so does
-- the last line printed, if there is one.
pub record ShowsSwitch (b : Board) : Type 0 where
  pub lit : b.edge ≡ false → b.led ≡ not b.level
  pub told :
      b.edge ≡ false
      → b.event ≡ false
      → (b.printed ≡ []) ⊎ ((before : List Bool) × (b.printed ≡ not b.level ∷ before))

-- A context that has everything `-i`, `-s` and `-r` give.
abbrev pub IsComplete : Context → Type 0
IsComplete c = (is_zero c.alg_num ≡ false) × (c.sender.id_len ≢ 0) × (c.recipient.id_len ≢ 0)

module _ (l : Libraries) where
  userctx-IsComplete :
      (argv : List (List ℕ)) (u : Userctx)
      → All IsComplete u.added
      → All IsComplete (userctx l.keyid_maxlen l.ivlength l.keylength l.accepts argv u).1.added
  unfolding userctx
  userctx-IsComplete argv u h = ground arith

  pub record Works (c : Client) : Type 0 where
    pub switch : ShowsSwitch c.board
    pub mock : IsValid l.msg_len c.mock
    pub contexts : All IsComplete c.user.added

  run_command-Works :
      (cmd : Command) (argv : List (List ℕ)) (c : Client)
      → Works c
      → Works (run_command l cmd argv c).1
  unfolding run_command check_switch
  run_command-Works switch_cmd argv c v = record {
    switch = record { lit = v.switch.lit; told = λ e h. inr (c.board.printed, refl) };
    mock = v.mock;
    contexts = v.contexts;
  }
  run_command-Works uri_cmd argv c v = record {
    switch = v.switch;
    mock = v.mock;
    contexts = v.contexts;
  }
  run_command-Works server_cmd argv c v = record {
    switch = v.switch;
    mock = v.mock;
    contexts = v.contexts;
  }
  run_command-Works creds_cmd argv c v = record {
    switch = v.switch;
    mock = v.mock;
    contexts = v.contexts;
  }
  run_command-Works proxy_cmd argv c v = record {
    switch = v.switch;
    mock = v.mock;
    contexts = v.contexts;
  }
  run_command-Works doc_cmd argv c v = v
  run_command-Works dns_cmd argv c v = v
  run_command-Works resp_cmd argv c v = record {
    switch = v.switch;
    mock = resp-IsValid l.msg_len argv c.mock v.mock;
    contexts = v.contexts;
  }
  run_command-Works userctx_cmd argv c v = record {
    switch = v.switch;
    mock = v.mock;
    contexts = userctx-IsComplete argv c.user v.contexts;
  }

  Step-Works : {c c' : Client} → Step l c c' → Works c → Works c'
  unfolding gpio_irq check_switch_event_handler
  Step-Works turned v = record {
    switch = record { lit = λ e. cc; told = λ e h. cc };
    mock = v.mock;
    contexts = v.contexts;
  }
  Step-Works (interrupt e) v = record {
    switch = record { lit = λ e. refl; told = λ e h. cc };
    mock = v.mock;
    contexts = v.contexts;
  }
  Step-Works {c} (handled e) v = record {
    switch = record { lit = v.switch.lit; told = λ e h. inr (c.board.printed, refl) };
    mock = v.mock;
    contexts = v.contexts;
  }
  Step-Works {c} (command cmd argv) v = run_command-Works cmd argv c v

  -- After any commands with any arguments, turns of the switch, interrupts and events: with no
  -- interrupt outstanding the LED is lit exactly if the switch is on; with no event queued either,
  -- the last line on the switch that was printed, if there is any, is true of it; the mock response
  -- is shorter than its buffer, which has its size; and every context that gcoap was given has an
  -- algorithm, and an ID of a sender and of a recipient.
  pub Reach-Works : {level : Bool} {c : Client} → 0 < l.msg_len → Reach l level c → Works c
  unfolding start
  Reach-Works {level} some_room starts = record {
    switch = record { lit = λ e. refl; told = λ e h. inl refl };
    mock = record { size = length-replicate {A = ℕ} l.msg_len 0; shorter = some_room };
    contexts = tt;
  }
  Reach-Works some_room (next reach step) = Step-Works step (Reach-Works some_room reach)
