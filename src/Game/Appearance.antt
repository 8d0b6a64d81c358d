-- ===== src/Game/Appearance.antt =====
-- game/include/openrs/game/player/appearance.h: the styles and the colours of the body parts.
use openrs.Base.{ℕ, ◌%◌, ◌^◌, ◌<◌, ◌≡◌, ◌⊎◌, inl, inr, refl, ok, throws, M, ◌>>◌, arith}

pub data BodyPart : Type 0 where
  hair beard torso legs boots skin arms forearms : BodyPart

-- The columns; an `int` is kept as its 32 bits, which the getters cut down to those of their answer.
pub record Appearance : Type 0 where
  pub look_hair : ℕ
  pub look_beard : ℕ
  pub look_torso : ℕ
  pub look_legs : ℕ
  pub look_shoes : ℕ
  pub look_arms : ℕ
  pub look_forearms : ℕ
  pub colour_hair : ℕ
  pub colour_torso : ℕ
  pub colour_legs : ℕ
  pub colour_shoes : ℕ
  pub colour_skin : ℕ

unfoldable pub get_appearance_look : BodyPart → Appearance → ℕ
get_appearance_look hair a = a.look_hair % 2 ^ 16
get_appearance_look beard a = a.look_beard % 2 ^ 16
get_appearance_look torso a = a.look_torso % 2 ^ 16
get_appearance_look arms a = a.look_arms % 2 ^ 16
get_appearance_look forearms a = a.look_forearms % 2 ^ 16
get_appearance_look legs a = a.look_legs % 2 ^ 16
get_appearance_look boots a = a.look_shoes % 2 ^ 16
get_appearance_look skin a = 0

unfoldable pub get_appearance_colour : BodyPart → Appearance → ℕ
get_appearance_colour hair a = a.colour_hair % 2 ^ 8
get_appearance_colour torso a = a.colour_torso % 2 ^ 8
get_appearance_colour legs a = a.colour_legs % 2 ^ 8
get_appearance_colour boots a = a.colour_shoes % 2 ^ 8
get_appearance_colour skin a = a.colour_shoes % 2 ^ 8
get_appearance_colour _ a = 0

unfoldable pub set_appearance_look : BodyPart → ℕ → M Appearance (Unit {0})
set_appearance_look hair style a = (ok tt, record a { look_hair = style })
set_appearance_look beard style a = (ok tt, record a { look_beard = style })
set_appearance_look torso style a = (ok tt, record a { look_torso = style })
set_appearance_look arms style a = (ok tt, record a { look_arms = style })
set_appearance_look forearms style a = (ok tt, record a { look_forearms = style })
set_appearance_look legs style a = (ok tt, record a { look_legs = style })
set_appearance_look boots style a = (ok tt, record a { look_shoes = style })
set_appearance_look skin style a = (throws, a)

unfoldable pub set_appearance_colour : BodyPart → ℕ → M Appearance (Unit {0})
set_appearance_colour hair colour a = (ok tt, record a { colour_hair = colour })
set_appearance_colour torso colour a = (ok tt, record a { colour_torso = colour })
set_appearance_colour legs colour a = (ok tt, record a { colour_legs = colour })
set_appearance_colour boots colour a = (ok tt, record a { colour_shoes = colour })
set_appearance_colour skin colour a = (ok tt, record a { colour_shoes = colour })
set_appearance_colour _ colour a = (throws, a)

unfoldable pub set_default_male : M Appearance (Unit {0})
unfolding set_appearance_look set_appearance_colour
set_default_male = do
  set_appearance_look hair 7
  set_appearance_look beard 14
  set_appearance_look torso 18
  set_appearance_look arms 26
  set_appearance_look forearms 34
  set_appearance_look legs 38
  set_appearance_look boots 42
  set_appearance_colour boots 0
  set_appearance_colour legs 32
  set_appearance_colour torso 95
  set_appearance_colour hair 17

unfoldable pub set_default_female : M Appearance (Unit {0})
unfolding set_appearance_look set_appearance_colour
set_default_female = do
  set_appearance_look hair 276
  set_appearance_look beard 57
  set_appearance_look torso 57
  set_appearance_look arms 65
  set_appearance_look forearms 68
  set_appearance_look legs 77
  set_appearance_look boots 80
  set_appearance_colour boots 0
  set_appearance_colour legs 95
  set_appearance_colour torso 95
  set_appearance_colour hair 78

-- A style of 16 bits is what the getter answers behind the setter, for every part but the skin;
-- the style of the skin throws, and then nothing has changed.
pub get-set_appearance_look :
    (part : BodyPart) (style : ℕ) (a : Appearance)
    → style < 2 ^ 16
    → let (r, b) = set_appearance_look part style a in
      ((r ≡ ok tt) × (get_appearance_look part b ≡ style))
      ⊎ ((part ≡ skin) × (r ≡ throws) × (b ≡ a))
unfolding get_appearance_look set_appearance_look
get-set_appearance_look hair style a h = inl (refl, omega arith)
get-set_appearance_look beard style a h = inl (refl, omega arith)
get-set_appearance_look torso style a h = inl (refl, omega arith)
get-set_appearance_look legs style a h = inl (refl, omega arith)
get-set_appearance_look boots style a h = inl (refl, omega arith)
get-set_appearance_look skin style a h = inr (refl, refl, refl)
get-set_appearance_look arms style a h = inl (refl, omega arith)
get-set_appearance_look forearms style a h = inl (refl, omega arith)

-- Setting the colour of the skin, a byte, makes it the one that the getter answers for the boots
-- and for the skin, and leaves the column of the skin as it was.
get_appearance_colour-boots_skin :
    (colour : ℕ) (a : Appearance)
    → colour < 2 ^ 8
    → let b = (set_appearance_colour skin colour a).1 in
      (get_appearance_colour boots b ≡ colour)
      × (get_appearance_colour skin b ≡ colour)
      × (b.colour_skin ≡ a.colour_skin)
unfolding get_appearance_colour set_appearance_colour
get_appearance_colour-boots_skin colour a h = (omega arith, omega arith, refl)
