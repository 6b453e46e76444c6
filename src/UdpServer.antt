-- ===== src/UdpServer.antt =====
-- What udp_test/udp.c and gnrc_host/udp.c have in common: a server that is started on a port and
-- stopped by shell commands, and that sending does not touch.
pub mod Programs
mod Tests
use riot_playground.Common.{
  ℕ, ◌≡◌, refl, ap, ◌∙◌, List, [], ◌∷◌, Option, none, some, ◌==◌, if◌then◌else◌,
}
use riot_playground.Common.Chars.{atoi, int_to_u16}

-- The server as its users see it: the port that it runs on.
pub started : ℕ → Option ℕ → Option ℕ
started port (some p) = some p
started port none = if port == 0 then none else some port

-- A program with such a server: the commands `server start <port>`, `server stop` and `send`, the
-- port of its server, and what each command does to that.
pub record Program (S : Type 0) : Type 0 where
  pub start : List ℕ → S → S
  pub stop : S → S
  pub send : List (List ℕ) → S → S
  pub port_of : S → Option ℕ
  pub port_of-start :
      (port_str : List ℕ) (s : S)
      → port_of (start port_str s) ≡ started (int_to_u16 (atoi port_str)) (port_of s)
  pub port_of-stop : (s : S) → port_of (stop s) ≡ none
  pub port_of-send : (args : List (List ℕ)) (s : S) → port_of (send args s) ≡ port_of s

pub data Command : Type 0 where
  starts : List ℕ → Command
  stops : Command
  sends : List (List ℕ) → Command

pub spec_run : List Command → Option ℕ → Option ℕ
spec_run [] p = p
spec_run (starts port_str ∷ cs) p = spec_run cs (started (int_to_u16 (atoi port_str)) p)
spec_run (stops ∷ cs) p = spec_run cs none
spec_run (sends args ∷ cs) p = spec_run cs p

module _ {S : Type 0} (program : Program S) where
  open program use {start, stop, send, port_of, port_of-start, port_of-stop, port_of-send}

  pub run : List Command → S → S
  run [] s = s
  run (starts port_str ∷ cs) s = run cs (start port_str s)
  run (stops ∷ cs) s = run cs (stop s)
  run (sends args ∷ cs) s = run cs (send args s)

  -- Every program with these laws refines the server as its users see it.
  pub port_of-run : (cs : List Command) (s : S) → port_of (run cs s) ≡ spec_run cs (port_of s)
  unfolding run spec_run
  port_of-run [] s = refl
  port_of-run (starts port_str ∷ cs) s =
      port_of-run cs (start port_str s) ∙ ap (spec_run cs) (port_of-start port_str s)
  port_of-run (stops ∷ cs) s = port_of-run cs (stop s) ∙ ap (spec_run cs) (port_of-stop s)
  port_of-run (sends args ∷ cs) s =
      port_of-run cs (send args s) ∙ ap (spec_run cs) (port_of-send args s)
