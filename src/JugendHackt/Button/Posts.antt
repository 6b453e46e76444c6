-- ===== src/JugendHackt/Button/Posts.antt =====
-- When the button posts.
use riot_playground.Common.{
  ℕ, ◌+◌, ◌^◌, ◌<◌, ◌≡◌, List, ◌∷◌, Bool, not, ◌&&◌, ◌==◌, ltb, leb, if◌then◌else◌, arith, get_or,
}
use riot_playground.Common.Chars.{until_nul}
use riot_playground.JugendHackt.Button.{Button, post_to_target}

-- A post goes out exactly if a target is defined and the last post was at least a second ago by
-- the clock, a number of 32 bits that wraps. The wrap is taken into account in the first second
-- after it only: later the clock must show a second more than at the last post, so after a wrap no
-- post goes out until the clock has passed the old time again.
pub post_to_target_lem :
    (unspecified : List ℕ → Bool) (now later : ℕ) (b : Button)
    → now < 2 ^ 32
    → b.last_sent < 2 ^ 32
    → let late =
        if ltb now 1000000
        then leb (b.last_sent + 1000000) (now + 2 ^ 32)
        else leb (b.last_sent + 1000000) now in
      (post_to_target unspecified now later b).posted ≡ (
        if late && (not (unspecified b.remote.addr) && not (get_or b.path 0 0 == 0))
        then record { remote = b.remote; uri_path = until_nul b.path } ∷ b.posted
        else b.posted)
unfolding post_to_target
post_to_target_lem unspecified now later b h h' = ground arith
