-- ===== src/Net/Login/Admits.antt =====
-- Who gets into the world: what it takes to enter.
use openrs.Base.{
  ◌≡◌, refl, ap, ◌∙◌, sym, List, [], ◌∷◌, true, Bool-cases, ◌⊎◌, inl, inr, subst, ok, fail, throws,
  undefined, M, Outcome, ◌>>=◌, then_do, failing,
}
use openrs.Common.Buffer.{Buffer, empty}
use openrs.Net.Packet.{PacketType, Packet, error_invalid_login, error_invalid_login_server}
use openrs.Net.Decoder.{packet_of}
use openrs.Net.Session.{Session, send_bytes, send_encoded, encode_by, set_stage, world}
use openrs.Game.World.{Players, add_player}
use openrs.Net.Login.{send_login_details}
use openrs.Net.Login.Block.{Credentials, refuse, read_login}
use openrs.Net.Login.Enter.{
  Player, Realm, Hall, on_session, session_back, check_password, new_player, register, admit,
  admit_found, set_display, join, enter, returned, handle_login_world,
}
use openrs.Net.Login.Quiet.{OnlySent, OnlySent-refl, Quiet, read_login-IsQuiet}

module _ {Db : Type 0} where
  -- Nothing has changed but that the session was sent something.
  abbrev pub Refused : Hall Db → Hall Db → Type 0
  Refused h h' = (s : Session) × OnlySent h.session s × (h' ≡ record h { session = s })

  -- The name is new, or it is that of one player, who has this password.
  abbrev pub MayEnter : Realm Db → Hall Db → Credentials → Player → Type 0
  MayEnter realm h c player =
      ((realm.get_model c.username h.database ≡ [])
        × (player ≡ (realm.create_model (new_player realm c) h.database).0))
      ⊎ ((realm.get_model c.username h.database ≡ player ∷ [])
          × (check_password realm c.password player ≡ true))

  -- A player with the credentials that the packet holds has joined the others.
  abbrev pub Entered : Realm Db → Packet → Hall Db → Hall Db → Type 0
  Entered realm p h h' =
      (c : Credentials) × (player : Player) × (read_login realm.ciphers realm.cache p.payload
          h.session
        ≡ (ok c, h.session))
      × MayEnter realm h c player
      × (h'.players ≡ (add_player (set_display c player) h.players).1)

  then_do-players :
      {A B : Type 0} (players : Players Player) (f : A → M (Hall Db) B) (r : Outcome A × Hall Db)
      → r.1.players ≡ players
      → ((a : A) (h : Hall Db) → h.players ≡ players → (f a h).1.players ≡ players)
      → (then_do f r).1.players ≡ players
  then_do-players players f (ok a, h) e k = k a h e
  then_do-players players f (fail, h) e k = e
  then_do-players players f (throws, h) e k = e
  then_do-players players f (undefined, h) e k = e

  enter-players :
      (realm : Realm Db) (player : Player) (h : Hall Db)
      → (enter realm player h).1.players ≡ (add_player player h.players).1
  unfolding enter join
  enter-players realm player h =
      let h1 : Hall Db = (join player (record h { session = set_stage world h.session })).1 in
      then_do-players h1.players (λ _. on_session (realm.login_event player))
        (on_session (send_login_details realm.world_type player.account) h1) refl (λ a g e. e)

  returned-players : (r : Outcome (Unit {0}) × Hall Db) → (returned r).1 ≡ r.1
  returned-players (ok u, h) = refl
  returned-players (fail, h) = refl
  returned-players (throws, h) = refl
  returned-players (undefined, h) = refl

  -- What follows the reading of the blocks.
  abbrev rest_of_login : Realm Db → Credentials → M (Hall Db) (Unit {0})
  rest_of_login realm c = admit realm c >>= (λ player. enter realm (set_display c player))

  entered :
      (realm : Realm Db) (p : Packet) (h h1 : Hall Db) (c : Credentials) (player : Player)
      → read_login realm.ciphers realm.cache p.payload h.session ≡ (ok c, h.session)
      → MayEnter realm h c player
      → h1.players ≡ h.players
      → Entered realm p h (returned (enter realm (set_display c player) h1)).1
  entered realm p h h1 c player e may same = (
    c,
    player,
    e,
    may,
    ap (λ (g : Hall Db). g.players) (returned-players (enter realm (set_display c player) h1))
        ∙ enter-players realm (set_display c player) h1
        ∙ ap (λ (players : Players Player). (add_player (set_display c player) players).1) same,
  )

  sent-Refused :
      (A : Type 0) (h : Hall Db) (f : A → M (Hall Db) (Unit {0})) (r : Outcome (Unit {0}) × Buffer)
      → Refused h
          (returned
            (then_do f (session_back h (then_do (λ _. failing) (send_encoded r h.session))))).1
  sent-Refused A h f (ok u, b) = (send_bytes b.bytes h.session, (b.bytes, refl), refl)
  sent-Refused A h f (fail, b) = (send_bytes b.bytes h.session, (b.bytes, refl), refl)
  sent-Refused A h f (throws, b) = (h.session, OnlySent-refl h.session, refl)
  sent-Refused A h f (undefined, b) = (h.session, OnlySent-refl h.session, refl)

  refuse-Refused :
      (A : Type 0) (h : Hall Db) (f : A → M (Hall Db) (Unit {0})) (t : PacketType)
      → Refused h (returned (then_do f (on_session (refuse t) h))).1
  unfolding refuse
  refuse-Refused A h f t = sent-Refused A h f (encode_by h.session.encoder (packet_of t []) empty)

  admit_found-Admits :
      (realm : Realm Db) (p : Packet) (h : Hall Db) (c : Credentials) (found : List Player)
      → read_login realm.ciphers realm.cache p.payload h.session ≡ (ok c, h.session)
      → realm.get_model c.username h.database ≡ found
      → let h' =
          (returned (
            then_do
              (λ player. enter realm (set_display c player))
              (admit_found realm c found h))).1 in
        Refused h h' ⊎ Entered realm p h h'
  unfolding admit_found register
  admit_found-Admits realm p h c [] e g = inr (entered realm p h _ c _ e (inl (g, refl)) refl)
  admit_found-Admits realm p h c (player ∷ []) e g =
      elim (Bool-cases (check_password realm c.password player)) [
        | inl right ↦ rw right (inr (entered realm p h h c player e (inr (g, right)) refl))
        | inr wrong ↦ rw wrong (inl (refuse-Refused Player h _ error_invalid_login))
      ]
  admit_found-Admits realm p h c (player ∷ other ∷ more) e g =
      inl (refuse-Refused Player h _ error_invalid_login_server)

  read_then :
      (realm : Realm Db) (p : Packet) (h : Hall Db) (r : Outcome Credentials × Session)
      → read_login realm.ciphers realm.cache p.payload h.session ≡ r
      → Quiet h.session r
      → let h' = (returned (then_do (rest_of_login realm) (session_back h r))).1 in
        Refused h h' ⊎ Entered realm p h h'
  read_then realm p h (ok c, t) e q =
      subst
        (λ s.
          let h' = (returned (rest_of_login realm c (record h { session = s }))).1 in
          Refused h h' ⊎ Entered realm p h h')
        (sym q)
        (admit_found-Admits realm p h c (realm.get_model c.username h.database)
          (e ∙ ap (λ s. (ok c, s)) q) refl)
  read_then realm p h (fail, t) e q = inl (t, q, refl)
  read_then realm p h (throws, t) e q = inl (t, q, refl)
  read_then realm p h (undefined, t) e q = inl (t, q, refl)

  -- A login packet, whatever it holds, either changes nothing but the output of its session, and so
  -- neither the players of the world nor the database nor the stage of the session, or it holds
  -- credentials with which a player joins the world: the name is not in the database, or it is
  -- that of exactly one player there and the password is that player's.
  pub handle_login_world-Admits :
      (realm : Realm Db) (p : Packet) (h : Hall Db)
      → let h' = (handle_login_world realm p h).1 in Refused h h' ⊎ Entered realm p h h'
  unfolding handle_login_world
  handle_login_world-Admits realm p h =
      read_then realm p h (read_login realm.ciphers realm.cache p.payload h.session) refl
        ((read_login-IsQuiet realm.ciphers realm.cache p.payload).run h.session)
