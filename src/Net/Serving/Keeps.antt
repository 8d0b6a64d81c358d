-- ===== src/Net/Serving/Keeps.antt =====
-- The parts of the server that the handlers call leave the input of the session alone.
use openrs.Base.{
  ℕ, ◌≡◌, refl, ap, ◌∙◌, List, [], ◌∷◌, Bool-cases, inl, inr, ltb, ◌||◌, M, Outcome, ok, fail,
  throws, undefined, then_do,
}
use openrs.Common.Buffer.{Buffer}
use openrs.Net.Packet.{PacketType, Packet, error_invalid_login, error_invalid_login_server}
use openrs.Net.Session.{Session, set_stage, world}
use openrs.Net.Input.Keeps.{Keeps, ServerKeeps, send-Keeps}
use openrs.Net.Grab.Keys.{Sealing, send_packed, send_ukeys}
use openrs.Net.Login.{is_above, Account, send_login_details}
use openrs.Net.Login.Block.{Credentials, refuse, read_login}
use openrs.Net.Login.Enter.{
  Player, Realm, Hall, on_session, session_back, check_password, register, admit, admit_found,
  set_display, join, enter, returned, handle_login_world,
}
use openrs.Net.Login.Quiet.{Quiet, refuse-IsQuiet, read_login-IsQuiet}
use openrs.Net.Serving.{Site, server_of}
use openrs.Cache.Manager.{Cache, get_type_count}

send_packed-Keeps : (r : Outcome Buffer) → Keeps (send_packed r)
send_packed-Keeps (ok b) s = send-Keeps _ s
send_packed-Keeps fail s = refl
send_packed-Keeps throws s = refl
send_packed-Keeps undefined s = refl

send_ukeys-Keeps : (sealing : Sealing) (cache : Cache) → Keeps (send_ukeys sealing cache)
unfolding send_ukeys
send_ukeys-Keeps sealing cache s = elim (Bool-cases (ltb 255 (get_type_count cache))) [
  | inl e ↦ rw e refl
  | inr e ↦ rw e (send_packed-Keeps _ s)
]

send_login_details-Keeps :
    (world_type : ℕ) (player : Account) → Keeps (send_login_details world_type player)
unfolding send_login_details
send_login_details-Keeps world_type player s =
    elim (Bool-cases (is_above 255 player.rights || is_above 65535 player.id)) [
      | inl e ↦ rw e refl
      | inr e ↦ rw e (send-Keeps _ s)
    ]

Quiet-input :
    {A : Type 0} (s : Session) (r : Outcome A × Session)
    → Quiet s r
    → r.1.buffer_input ≡ s.buffer_input
Quiet-input s (ok a, t) h = ap (λ (u : Session). u.buffer_input) h
Quiet-input s (fail, t) h = ap (λ (u : Session). u.buffer_input) (h.1)
Quiet-input s (throws, t) h = ap (λ (u : Session). u.buffer_input) (h.1)
Quiet-input s (undefined, t) h = ap (λ (u : Session). u.buffer_input) (h.1)

module _ {Db : Type 0} where
  abbrev HallKeeps : {A : Type 0} → M (Hall Db) A → Type 0
  HallKeeps m = (h : Hall Db) → (m h).1.session.buffer_input ≡ h.session.buffer_input

  then_do-HallKeeps :
      {A B : Type 0} (f : A → M (Hall Db) B) (r : Outcome A × Hall Db)
      → ((a : A) → HallKeeps (f a))
      → (then_do f r).1.session.buffer_input ≡ r.1.session.buffer_input
  then_do-HallKeeps f (ok a, h) k = k a h
  then_do-HallKeeps f (fail, h) k = refl
  then_do-HallKeeps f (throws, h) k = refl
  then_do-HallKeeps f (undefined, h) k = refl

  refused-HallKeeps : (A : Type 0) (t : PacketType) → HallKeeps (on_session (refuse {A = A} t))
  refused-HallKeeps A t h =
      Quiet-input h.session (refuse t h.session) ((refuse-IsQuiet A t).run h.session)

  admit_found-HallKeeps :
      (realm : Realm Db) (c : Credentials) (found : List Player)
      → HallKeeps (admit_found realm c found)
  unfolding admit_found register
  admit_found-HallKeeps realm c [] h = refl
  admit_found-HallKeeps realm c (player ∷ []) h =
      elim (Bool-cases (check_password realm c.password player)) [
        | inl e ↦ rw e refl
        | inr e ↦ rw e (refused-HallKeeps Player error_invalid_login h)
      ]
  admit_found-HallKeeps realm c (player ∷ other ∷ more) h =
      refused-HallKeeps Player error_invalid_login_server h

  enter-HallKeeps :
      (realm : Realm Db) (player : Player)
      → ((p : Player) → Keeps (realm.login_event p))
      → HallKeeps (enter realm player)
  unfolding enter join
  enter-HallKeeps realm player k h =
      let h1 : Hall Db = (join player (record h { session = set_stage world h.session })).1 in
      then_do-HallKeeps (λ _. on_session (realm.login_event player))
        (on_session (send_login_details realm.world_type player.account) h1)
        (λ _ g. k player g.session)
      ∙ send_login_details-Keeps realm.world_type player.account h1.session

  returned_same : (r : Outcome (Unit {0}) × Hall Db) → (returned r).1 ≡ r.1
  returned_same (ok u, h) = refl
  returned_same (fail, h) = refl
  returned_same (throws, h) = refl
  returned_same (undefined, h) = refl

  handle_login_world-HallKeeps :
      (realm : Realm Db) (p : Packet)
      → ((player : Player) → Keeps (realm.login_event player))
      → HallKeeps (handle_login_world realm p)
  unfolding handle_login_world
  handle_login_world-HallKeeps realm p k h =
      let r = read_login realm.ciphers realm.cache p.payload h.session in
      ap (λ (g : Hall Db). g.session.buffer_input) (returned_same _)
      ∙ then_do-HallKeeps _ (session_back h r) (λ c g.
        then_do-HallKeeps _ (admit realm c g)
          (λ player. enter-HallKeeps realm (set_display c player) k)
        ∙ admit_found-HallKeeps realm c (realm.get_model c.username g.database) g)
      ∙ Quiet-input h.session r
          ((read_login-IsQuiet realm.ciphers realm.cache p.payload).run h.session)

  -- The update keys and the login to the world leave the input of the session alone, whatever the
  -- packet, the cache and the database are, if the sinks of the login and of the screen event do.
  pub server_of-ServerKeeps :
      (site : Site Db)
      → ((player : Player) → Keeps (site.realm.login_event player))
      → ((mode width height : ℕ) → Keeps (site.screen_event mode width height))
      → ServerKeeps (server_of site)
  unfolding server_of
  server_of-ServerKeeps site login screen = record {
    ukeys = send_ukeys-Keeps site.sealing site.realm.cache;
    login_world = λ p s.
        handle_login_world-HallKeeps site.realm p login
          (record { session = s; players = site.players; database = site.database });
    screen_event = screen;
  }
