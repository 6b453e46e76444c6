-- ===== src/Boot/Ready.antt =====
-- What holds when the mains come to their loops.
use riot_playground.Common.{ℕ, ◌≡◌, refl, List, [], ◌∷◌, true, false}
use riot_playground.Endpoint.{Endpoint, Str2Ep, make_sock_ep}
use riot_playground.Boot.{Effect, register_at, register, main_first}
use riot_playground.Boot.Games.{luke_corerd, controller_main, display_main, button_main}

-- The endpoints at which a program has registered.
abbrev pub registrations : List Effect → List Endpoint
registrations [] = []
registrations (register_at ep ∷ es) = ep ∷ registrations es
registrations (e ∷ es) = registrations es

module _ (str2ep : Str2Ep) (gcoap_port cord_port : ℕ) (ep : Endpoint) where
  -- The interrupts that send messages to the main thread are enabled once it is known.
  mains_first :
      (main_first (controller_main str2ep gcoap_port cord_port ep) ≡ true)
      × (main_first (display_main str2ep gcoap_port cord_port ep) ≡ true)
      × (main_first (button_main str2ep gcoap_port cord_port ep) ≡ true)
  unfolding main_first controller_main display_main button_main
  mains_first = (refl, refl, refl)

  -- An address that cannot be read is registered at all the same, with what stood on the stack.
  registered_anyway :
      (parsed : Endpoint)
      → str2ep (record ep { port = 0 }) luke_corerd ≡ (false, parsed)
      → registrations (controller_main str2ep gcoap_port cord_port ep) ≡ parsed ∷ []
  unfolding controller_main register make_sock_ep
  registered_anyway parsed e = rw e refl
