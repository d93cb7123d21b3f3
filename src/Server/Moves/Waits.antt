-- ===== src/Server/Moves/Waits.antt =====
-- Which points of a screen end the wait for a switch.
use zero_flow.Prelude.{ℕ, ◌≡◌, ◌<◌, true, false, not, ap}
use zero_flow.Prelude.Int.{lt→ltb_ℤ, le→ltb_ℤ, int_laws}
use zero_flow.Server.{left, right, top, bottom, Point, Shape}
use zero_flow.Server.Geometry.{last_x}
use zero_flow.Server.Moves.{clears_wait}
use zero_flow.Server.Moves.Clamp.{IsWithin}

-- Where there is a jump zone, a wait at the left, the right or the top edge goes on while the cursor
-- is at that edge; but a wait at the bottom edge is ended wherever the cursor is on the screen.
pub clears_wait-bottom :
    (a : Shape) (zone : ℕ) (p : Point)
    → IsWithin a p
    → 0 < zone
    → (clears_wait left a zone (record p { x = a.x }) ≡ false)
      × (clears_wait right a zone (record p { x = last_x a }) ≡ false)
      × (clears_wait top a zone (record p { y = a.y }) ≡ false)
      × (clears_wait bottom a zone p ≡ true)
unfolding clears_wait
clears_wait-bottom a zone p (left_on, right_on, top_on, bottom_on) some_zone = (
  ap not (lt→ltb_ℤ _ _ (omega int_laws)),
  ap not (lt→ltb_ℤ _ _ (omega int_laws)),
  ap not (lt→ltb_ℤ _ _ (omega int_laws)),
  ap not (le→ltb_ℤ _ _ (omega int_laws)),
)
