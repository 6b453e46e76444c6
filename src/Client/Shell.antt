-- ===== src/Client/Shell.antt =====
-- lndw22_doc/client/main.c as a whole: the table of shell commands with the state of them all, the
-- switch with its interrupt and its event, and `main`. The shell, which calls any command of the
-- table with any arguments, and the libraries are not part of the repository.
pub mod Consistent
use riot_playground.Common.{
  ℕ, ◌≡◌, List, [], ◌∷◌, Bool, true, false, not, Option, none, some, replicate,
}
use riot_playground.Common.Int.{ℤ, pos}
use riot_playground.Client.Mock.{Mock, resp}
use riot_playground.Client.Creds.{Credential, creds, psk_id_len, psk_len}
use riot_playground.Client.Context.{Peer, Context, Userctx, userctx}
use riot_playground.Client.Commands.{Resolver, Server, query, dns, set_uri, proxy, dns_server}

-- What the commands get from the build, from gcoap, sock and the OSCORE library.
pub record Libraries : Type 0 where
  pub msg_len : ℕ
  pub uri_set : List ℕ → Option (List ℕ) → Option ℕ × Option (List ℕ)
  pub proxy_set : List ℕ → Option (List ℕ) → Option ℕ × Option (List ℕ)
  pub pton : List ℕ → Option (List ℕ)
  pub dns_port : ℕ
  pub cred_add : Credential → Option ℕ
  pub doc_query : Resolver
  pub dns_query : Resolver
  pub keyid_maxlen : ℕ
  pub ivlength : ℤ → ℕ
  pub keylength : ℤ → ℕ
  pub accepts : Context → Bool

-- `level` is that of the pin, `edge` says that its interrupt has not run yet, `event` that
-- `_check_switch_event` is queued. `printed` holds what `_check_switch` has printed, the newest
-- first: whether the switch is on.
pub record Board : Type 0 where
  pub level : Bool
  pub edge : Bool
  pub led : Bool
  pub event : Bool
  pub printed : List Bool

pub record Client : Type 0 where
  pub board : Board
  pub uri : Option (List ℕ)
  pub proxy_uri : Option (List ℕ)
  pub server : Server
  pub credential : Credential
  pub mock : Mock
  pub user : Userctx

unfoldable pub check_switch : Board → Board
check_switch b = record b { printed = not b.level ∷ b.printed }

-- The handler of the event, which its queue forgets.
unfoldable pub check_switch_event_handler : Board → Board
unfolding check_switch
check_switch_event_handler b = check_switch (record b { event = false })

unfoldable pub gpio_irq : Board → Board
gpio_irq b = record b { edge = false; event = true; led = not b.level }

-- `_shell_commands`
pub data Command : Type 0 where
  switch_cmd uri_cmd server_cmd creds_cmd proxy_cmd doc_cmd dns_cmd resp_cmd userctx_cmd : Command

module _ (l : Libraries) where
  -- The exit status of a command, and the state.
  unfoldable pub run_command : Command → List (List ℕ) → Client → ℕ × Client
  unfolding check_switch
  run_command switch_cmd argv c = (0, record c { board = check_switch c.board })
  run_command uri_cmd argv c =
      let (status, uri) = set_uri l.uri_set argv c.uri in (status, record c { uri = uri })
  run_command server_cmd argv c =
      let (status, server) = dns_server l.pton l.dns_port argv c.server in
      (status, record c { server = server })
  run_command creds_cmd argv c =
      let (status, credential) = creds l.cred_add argv c.credential in
      (status, record c { credential = credential })
  run_command proxy_cmd argv c =
      let (status, uri) = proxy l.proxy_set argv c.proxy_uri in
      (status, record c { proxy_uri = uri })
  run_command doc_cmd argv c = (query l.doc_query argv, c)
  run_command dns_cmd argv c = (dns l.dns_query argv, c)
  run_command resp_cmd argv c =
      let (status, mock) = resp l.msg_len argv c.mock in (status, record c { mock = mock })
  run_command userctx_cmd argv c =
      let (status, user) = userctx l.keyid_maxlen l.ivlength l.keylength l.accepts argv c.user in
      (status, record c { user = user })

  abbrev no_peer : Peer
  no_peer = record { id = replicate l.keyid_maxlen 0; id_len = 0; key = replicate 32 0 }

  -- The static variables, and the LED as `main` sets it for the level of the pin.
  unfoldable pub start : Bool → Client
  start level = record {
    board = record { level = level; edge = false; led = not level; event = false; printed = [] };
    uri = none;
    proxy_uri = none;
    server = record { family_set = false; addr = replicate 16 0; port = 0 };
    credential = record {
      tag = 0;
      id_len = 0;
      key_len = 0;
      id = replicate psk_id_len 0;
      key = replicate psk_len 0;
      overrun = false;
      removed = [];
    };
    mock = record { response = replicate l.msg_len 0; response_len = 0; resp_code = 0 };
    user = record {
      context = record {
        alg_num = pos 0;
        common_iv = replicate 20 0;
        sender = no_peer;
        recipient = no_peer;
      };
      added = [];
    };
  }

  -- The switch may be turned at any time between two of the others; each turn gives an interrupt.
  pub data Step (c : Client) : Client → Type 0 where
    turned : Step c (record c { board = record c.board { level = not c.board.level; edge = true } })
    interrupt : c.board.edge ≡ true → Step c (record c { board = gpio_irq c.board })
    handled :
        c.board.event ≡ true → Step c (record c { board = check_switch_event_handler c.board })
    command : (cmd : Command) (argv : List (List ℕ)) → Step c (run_command cmd argv c).1

  pub data Reach (level : Bool) : Client → Type 0 where
    starts : Reach level (start level)
    next : {c c' : Client} → Reach level c → Step c c' → Reach level c'
