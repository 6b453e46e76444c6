-- ===== src/Boot.antt =====
-- What the mains of lndw18_luke and jugend-hackt-2018-10 do before their loops: the resources that
-- they serve, the interrupts, and registering at the resource directory. What they call of RIOT is
-- recorded, in order; printing is not.
pub mod Games
pub mod Ready
use riot_playground.Common.{ℕ, List, [], ◌∷◌, ◌++◌, Bool, true, false}
use riot_playground.Endpoint.{Endpoint, Str2Ep, make_sock_ep}

-- A path, and whether GET and POST are allowed.
pub record Resource : Type 0 where
  pub path : List ℕ
  pub gets : Bool
  pub posts : Bool

pub data Effect : Type 0 where
  -- `_main_pid` or `_main_thread` is set, or the queue of messages.
  set_main set_queue : Effect
  -- gpio_init_int and gpio_init
  init_int init_out : Effect
  led_off : Effect
  -- lpd8808_init, lpd8808_load_rgb, _init_color_map
  init_strip load_strip init_colors : Effect
  register_listener : List Resource → Effect
  sleep : ℕ → Effect
  -- cord_ep_register
  register_at : Endpoint → Effect
  -- _set_dino
  move_dino : Effect

-- The endpoint of the directory is made on the stack, where `ep` is what is found there, and is used
-- whether or not the address can be read.
unfoldable pub register : Str2Ep → ℕ → Endpoint → List ℕ → List Effect
unfolding make_sock_ep
register str2ep port ep addr = register_at (make_sock_ep str2ep port ep addr).1 ∷ []

-- Whether no interrupt is enabled before what it needs is set.
unfoldable pub main_first : List Effect → Bool
main_first [] = true
main_first (set_main ∷ es) = true
main_first (init_int ∷ es) = false
main_first (e ∷ es) = main_first es

abbrev pub both : List ℕ → Resource
both path = record { path = path; gets = true; posts = true }

abbrev pub only_post : List ℕ → Resource
only_post path = record { path = path; gets = false; posts = true }
