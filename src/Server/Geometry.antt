-- ===== src/Server/Geometry.antt =====
-- mapToFraction, mapToPixel, getCorner and the places of the edges of a screen.
use zero_flow.Prelude.{ℕ, Bool, ◌||◌, not, if◌then◌else◌}
use zero_flow.Prelude.Int.{ℤ, pos, ◌+ℤ◌, ◌-ℤ◌, ltb_ℤ}
use zero_flow.Server.{Point, Shape}

-- The last pixel of a screen, in x and in y.
abbrev pub last_x : Shape → ℤ
last_x s = s.x +ℤ pos s.w -ℤ pos 1

abbrev pub last_y : Shape → ℤ
last_y s = s.y +ℤ pos s.h -ℤ pos 1

abbrev pub no_corner : ℕ
no_corner = 0

abbrev pub top_left_corner : ℕ
top_left_corner = 1

abbrev pub top_right_corner : ℕ
top_right_corner = 2

abbrev pub bottom_left_corner : ℕ
bottom_left_corner = 4

abbrev pub bottom_right_corner : ℕ
bottom_right_corner = 8

-- The end of getCorner, for a point against the top (`low`) or bottom, or against neither.
unfoldable pub corner_y : Shape → Point → ℤ → Bool → Bool → ℕ
corner_y s p size low against =
    if not against
    then no_corner
    else if ltb_ℤ p.x (s.x +ℤ size)
    then if low then top_left_corner else bottom_left_corner
    else if not (ltb_ℤ p.x (s.x +ℤ pos s.w -ℤ size))
    then if low then top_right_corner else bottom_right_corner
    else no_corner

-- Server::getCorner for a screen's shape
unfoldable pub get_corner : Shape → Point → ℤ → ℕ
get_corner s p size =
    let at_left = not (ltb_ℤ s.x p.x) in
    let at_right = not (ltb_ℤ p.x (last_x s)) in
    let at_top = not (ltb_ℤ s.y p.y) in
    let at_bottom = not (ltb_ℤ p.y (last_y s)) in
    let rest = corner_y s p size at_top (at_top || at_bottom) in
    if not (at_left || at_right)
    then rest
    else if ltb_ℤ p.y (s.y +ℤ size)
    then if at_left then top_left_corner else top_right_corner
    else if not (ltb_ℤ p.y (s.y +ℤ pos s.h -ℤ size))
    then if at_left then bottom_left_corner else bottom_right_corner
    else rest
