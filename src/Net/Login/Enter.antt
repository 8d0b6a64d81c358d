-- ===== src/Net/Login/Enter.antt =====
-- openrs/src/net/codec/handler/global/loginpackethandler.cpp, `HandleLoginWorld`: the player is found or
-- registered, and enters the world.
use openrs.Base.{
  ℕ, ◌%◌, ◌^◌, List, [], ◌∷◌, Bool, true, false, ◌&&◌, ◌==◌, not, if◌then◌else◌, M, Outcome, ok,
  fail, ◌>>=◌, ◌>>◌, return,
}
use openrs.Net.Packet.{Packet, error_invalid_login, error_invalid_login_server}
use openrs.Net.Session.{Session, world, set_stage}
use openrs.Net.Login.{Account, send_login_details}
use openrs.Net.Login.Block.{Ciphers, Credentials, refuse, read_login}
use openrs.Game.Appearance.{
  Appearance, skin, set_default_male, set_default_female, set_appearance_colour,
}
use openrs.Game.World.{Players, add_player}
use openrs.Cache.Manager.{Cache}

-- What a login reads and writes of a player.
pub record Player : Type 0 where
  pub account : Account
  pub password : List ℕ
  pub salt : List ℕ
  pub position_x : ℕ
  pub position_y : ℕ
  pub position_z : ℕ
  pub appearance : Appearance
  pub display_mode : ℕ
  pub screen_width : ℕ
  pub screen_height : ℕ

-- What the login calls in other parts of the server and in libraries: the ciphers, the cache,
-- `GetModel` by the name (it returns true where it gives players), `CreateModel` (which gives the
-- player an identifier), `EncodePassword` of a password and a salt, the configured starting
-- location, random numbers, the type of the world 1, and the sinks of `EventLogin`.
pub record Realm (Db : Type 0) : Type 0 where
  pub ciphers : Ciphers
  pub cache : Cache
  pub get_model : List ℕ → Db → List Player
  pub create_model : Player → Db → Player × Db
  pub encode_password : List ℕ → List ℕ → List ℕ
  pub starting_x : ℕ
  pub starting_y : ℕ
  pub starting_z : ℕ
  pub random_salt : List ℕ
  pub random_bool : Bool
  pub random_skin : ℕ
  pub world_type : ℕ
  pub login_event : Player → M Session (Unit {0})

-- The session, the players of the world 1, and the database.
pub record Hall (Db : Type 0) : Type 0 where
  pub session : Session
  pub players : Players Player
  pub database : Db

abbrev pub new_appearance : Appearance
new_appearance = record {
  look_hair = 0;
  look_beard = 0;
  look_torso = 0;
  look_legs = 0;
  look_shoes = 0;
  look_arms = 0;
  look_forearms = 0;
  colour_hair = 0;
  colour_torso = 0;
  colour_legs = 0;
  colour_shoes = 0;
  colour_skin = 0;
}

-- `std::equal` of both ranges.
unfoldable pub equal : List ℕ → List ℕ → Bool
equal [] [] = true
equal [] (b ∷ ys) = false
equal (a ∷ xs) [] = false
equal (a ∷ xs) (b ∷ ys) = a == b && equal xs ys

unfoldable pub random_appearance : Bool → ℕ → M Appearance (Unit {0})
unfolding set_default_male set_default_female set_appearance_colour
random_appearance female colour = do
  if female then set_default_female else set_default_male
  set_appearance_colour skin (colour % 2 ^ 8)

abbrev pub set_display : Credentials → Player → Player
set_display c player = record player {
  display_mode = c.display_mode;
  screen_width = c.screen_width;
  screen_height = c.screen_height;
}

module _ {Db : Type 0} where
  abbrev pub session_back : {A : Type 0} → Hall Db → Outcome A × Session → Outcome A × Hall Db
  session_back h (r, s) = (r, record h { session = s })

  abbrev pub on_session : {A : Type 0} → M Session A → M (Hall Db) A
  on_session m h = session_back h (m h.session)

  -- `CheckPassword`.
  abbrev pub check_password : Realm Db → List ℕ → Player → Bool
  check_password realm password player =
      equal (realm.encode_password password player.salt) player.password

  -- A player of that name, before the database has seen it.
  unfoldable pub new_player : Realm Db → Credentials → Player
  unfolding random_appearance
  new_player realm c = record {
    account = record { id = 0; rights = 0; username = c.username };
    password = realm.encode_password c.password realm.random_salt;
    salt = realm.random_salt;
    position_x = realm.starting_x % 2 ^ 16;
    position_y = realm.starting_y % 2 ^ 16;
    position_z = realm.starting_z % 2 ^ 8;
    appearance = (random_appearance realm.random_bool realm.random_skin new_appearance).1;
    display_mode = 0;
    screen_width = 0;
    screen_height = 0;
  }

  unfoldable pub register : Realm Db → Credentials → M (Hall Db) Player
  unfolding new_player
  register realm c h =
      let (player, database) = realm.create_model (new_player realm c) h.database in
      (ok player, record h { database = database })

  -- What `GetModel` found decides.
  unfoldable pub admit_found : Realm Db → Credentials → List Player → M (Hall Db) Player
  unfolding register equal refuse
  admit_found realm c [] = register realm c
  admit_found realm c (player ∷ []) =
      if not (check_password realm c.password player)
      then on_session (refuse error_invalid_login)
      else return player
  admit_found realm c (player ∷ other ∷ more) = on_session (refuse error_invalid_login_server)

  abbrev pub admit : Realm Db → Credentials → M (Hall Db) Player
  admit realm c h = admit_found realm c (realm.get_model c.username h.database) h

  -- `set_player_world` and `set_player_index`, with `WorldManager::add_player`.
  unfoldable pub join : Player → M (Hall Db) (Unit {0})
  unfolding add_player
  join player h =
      let (index, players) = add_player player h.players in
      (
        ok tt,
        record h {
          session = record (h.session) { player_world = 1; player_index = index };
          players = players;
        },
      )

  -- From the stages of the session on.
  unfoldable pub enter : Realm Db → Player → M (Hall Db) (Unit {0})
  unfolding join send_login_details
  enter realm player = do
    on_session (λ s. (ok tt, set_stage world s))
    join player
    on_session (send_login_details realm.world_type player.account)
    on_session (realm.login_event player)

  -- A `return` before the end is no failure of the call.
  abbrev pub returned : Outcome (Unit {0}) × Hall Db → Outcome (Unit {0}) × Hall Db
  returned (fail, h) = (ok tt, h)
  returned (r, h) = (r, h)

  -- `LoginPacketHandler::HandleLoginWorld`.
  unfoldable pub handle_login_world : Realm Db → Packet → M (Hall Db) (Unit {0})
  unfolding read_login admit_found enter
  handle_login_world realm p h = returned (
      (do
        c ← on_session (read_login realm.ciphers realm.cache p.payload)
        player ← admit realm c
        enter realm (set_display c player))
        h)
