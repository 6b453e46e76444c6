-- ===== src/Boot/Games.antt =====
-- The mains of the five programs.
use riot_playground.Common.{ℕ, List, [], ◌∷◌, ◌++◌}
use riot_playground.Common.Chars.{codes}
use riot_playground.Endpoint.{Endpoint, Str2Ep}
use riot_playground.Boot.{
  Resource, Effect, set_main, set_queue, init_int, init_out, led_off, init_strip, load_strip,
  init_colors, register_listener, sleep, move_dino, register, both, only_post,
}

-- CORERD_SERVER_ADDR of lndw18_luke, and of jugend-hackt-2018-10
abbrev pub luke_corerd : List ℕ
luke_corerd = codes "[2001:db8:f4ba:cbcd:1ac0:ffee:1ac0:ffee]"

abbrev pub hackt_corerd : List ℕ
hackt_corerd = codes "[2001:db8::3:25a:4550:a00:455a]"

abbrev pub controller_resources : List Resource
controller_resources = both (codes "/btn/target") ∷ only_post (codes "/reboot") ∷ []

abbrev pub display_resources : List Resource
display_resources =
    both (codes "/dsp/dif")
    ∷ both (codes "/dsp/points")
    ∷ both (codes "/dsp/target")
    ∷ only_post (codes "/reboot")
    ∷ []

abbrev pub dino_resources : List Resource
dino_resources = both (codes "/dino/points") ∷ only_post (codes "/reboot") ∷ []

abbrev pub button_resources : List Resource
button_resources = only_post (codes "/button/target") ∷ []

abbrev pub toy_resources : List Resource
toy_resources = only_post (codes "/dino/move") ∷ []

module _ (str2ep : Str2Ep) (gcoap_port cord_port : ℕ) (ep : Endpoint) where
  -- lndw18_luke/controller/main.c
  unfoldable pub controller_main : List Effect
  unfolding register
  controller_main =
      set_queue
      ∷ set_main
      ∷ init_int
      ∷ sleep 2
      ∷ register_listener controller_resources
      ∷ register str2ep gcoap_port ep luke_corerd

  -- lndw18_luke/display/main.c
  unfoldable pub display_main : List Effect
  unfolding register
  display_main =
      set_main
        ∷ init_int
        ∷ init_strip
        ∷ load_strip
        ∷ sleep 2
        ∷ register_listener display_resources
        ∷ register str2ep gcoap_port ep luke_corerd
      ++ init_colors ∷ []

  -- lndw18_luke/dino/main.c
  unfoldable pub dino_main : List Effect
  unfolding register
  dino_main =
      led_off
        ∷ init_int
        ∷ init_out
        ∷ sleep 2
        ∷ register_listener dino_resources
        ∷ register str2ep gcoap_port ep luke_corerd
      ++ move_dino ∷ []

  -- jugend-hackt-2018-10/button/main.c
  unfoldable pub button_main : List Effect
  unfolding register
  button_main =
      set_main
      ∷ init_int
      ∷ register_listener button_resources
      ∷ sleep 2
      ∷ register str2ep gcoap_port ep hackt_corerd

  -- jugend-hackt-2018-10/dino/main.c
  unfoldable pub toy_main : List Effect
  unfolding register
  toy_main =
      led_off
      ∷ init_int
      ∷ init_out
      ∷ register_listener toy_resources
      ∷ sleep 2
      ∷ register str2ep cord_port ep hackt_corerd
