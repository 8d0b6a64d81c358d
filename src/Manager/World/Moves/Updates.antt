-- ===== src/Manager/World/Moves/Updates.antt =====
-- How many players `SendLocalPlayerUpdate` can mark.
use openrs.Base.{
  ℕ, zero, suc, ◌≡◌, refl, ap, ◌∙◌, sym, List, [], ◌∷◌, ◌++◌, M, Outcome, ok, fail, throws,
  undefined, then_do, length, arith, ◌≤◌,
}
use openrs.Common.BitBuffer.{BitBuffer, new_bit_buffer}
use openrs.Game.World.{Players}
use openrs.Game.Player.{Player}
use openrs.Net.Packet.{local_player_update}
use openrs.Net.Session.{Session, world, send_bytes}
use openrs.Net.Session.Sending.{send-frame}
use openrs.Net.Encoder.{uint16, world_code_mapping, type_mapping}
use openrs.Net.Encoder.RoundTrip.{frame}
use openrs.Common.Buffer.{append, empty, fresh}
use openrs.Manager.World.{WorldManager}
use openrs.Manager.World.Map.{send_built, on_buffer}
use openrs.Manager.World.Moves.{
  put_world_blocks, mark_player, mark_players, mark_worlds, send_local_player_update,
}

-- The players of all worlds.
unfoldable pub everyone : Players (Players Player) → Players Player
everyone [] = []
everyone ((id, players) ∷ worlds) = players ++ everyone worlds

then_do_assoc :
    {S : Type 0} (f g : Unit {0} → M S (Unit {0})) (r : Outcome (Unit {0}) × S)
    → then_do g (then_do f r) ≡ then_do (λ a s. then_do g (f a s)) r
then_do_assoc f g (ok a, s) = refl
then_do_assoc f g (fail, s) = refl
then_do_assoc f g (throws, s) = refl
then_do_assoc f g (undefined, s) = refl

mark_players-append :
    (xs ys : Players Player) (b : BitBuffer)
    → mark_players (xs ++ ys) b ≡ then_do (λ _. mark_players ys) (mark_players xs b)
unfolding mark_players
mark_players-append [] ys b = refl
mark_players-append (x ∷ xs) ys b =
    ap (λ (k : M BitBuffer (Unit {0})). then_do (λ _. k) (mark_player b))
      (λ i c. mark_players-append xs ys c i)
    ∙ sym (then_do_assoc (λ _. mark_players xs) (λ _. mark_players ys) (mark_player b))

mark_worlds-everyone :
    (worlds : Players (Players Player)) (b : BitBuffer)
    → mark_worlds worlds b ≡ mark_players (everyone worlds) b
unfolding mark_worlds mark_players everyone
mark_worlds-everyone [] b = refl
mark_worlds-everyone ((id, players) ∷ worlds) b =
    ap (λ (k : M BitBuffer (Unit {0})). then_do (λ _. k) (mark_players players b))
      (λ i c. mark_worlds-everyone worlds c i)
    ∙ sym (mark_players-append players (everyone worlds) b)

three_marked :
    (rest : M BitBuffer (Unit {0}))
    → (then_do
        (λ _ b. then_do (λ _ c. then_do (λ _. rest) (mark_player c)) (mark_player b))
        (mark_player new_bit_buffer)).0
      ≡ undefined
unfolding mark_player
three_marked rest = refl

send_undefined :
    (rest : M BitBuffer (Unit {0})) (s : Session) (r : Outcome (Unit {0}) × BitBuffer)
    → r.0 ≡ undefined
    → send_built local_player_update (then_do (λ _. rest) r) s ≡ (undefined, s)
send_undefined rest s (ok u, b) e = absurd cc
send_undefined rest s (fail, b) e = absurd cc
send_undefined rest s (throws, b) e = absurd cc
send_undefined rest s (undefined, b) e = refl

-- The steps of the packet, with the players of all worlds in one list.
abbrev Sends : WorldManager → Session → Players Player → Type 0
Sends manager s players =
    send_local_player_update manager s
    ≡ send_built local_player_update
        (then_do (λ _. on_buffer (append (put_world_blocks manager.worlds empty).bytes))
          (mark_players players new_bit_buffer))
        s

send_local_player_update-everyone :
    (manager : WorldManager) (s : Session) → Sends manager s (everyone manager.worlds)
unfolding send_local_player_update
send_local_player_update-everyone manager s =
    ap
      (λ r.
        send_built local_player_update
          (then_do (λ _. on_buffer (append (put_world_blocks manager.worlds empty).bytes)) r) s)
      (mark_worlds-everyone manager.worlds new_bit_buffer)

-- Four bits for each player: twice a one, and the number 0.
abbrev pub marks : ℕ → List ℕ
marks zero = []
marks (suc zero) = 0xc0 ∷ []
marks (suc (suc n)) = 0xcc ∷ []

few_marked :
    (players : Players Player)
    → length players ≤ 2
    → (p : ℕ) × (mark_players players new_bit_buffer
        ≡ (ok tt, record { buffer = fresh (marks (length players)); bit_position = p }))
unfolding mark_players mark_player
few_marked [] h = (0, refl)
few_marked (x ∷ []) h = (4, refl)
few_marked (x ∷ y ∷ []) h = (8, refl)
few_marked (x ∷ y ∷ z ∷ rest) h = absurd (omega arith)

many_marked :
    (players : Players Player)
    → 3 ≤ length players
    → (mark_players players new_bit_buffer).0 ≡ undefined
unfolding mark_players
many_marked [] h = absurd (omega arith)
many_marked (x ∷ []) h = absurd (omega arith)
many_marked (x ∷ y ∷ []) h = absurd (omega arith)
many_marked (x ∷ y ∷ z ∷ rest) h = three_marked (mark_players rest)

-- Of a session in the world, `SendLocalPlayerUpdate` sends one packet where all worlds together have at
-- most two players: the code 96, the length in two bytes, four bits for each player, and the blocks
-- of the players. It is undefined where they have three or more, since the buffer gets one byte for
-- the bits and no other.
pub send_local_player_update_lem :
    (manager : WorldManager) (s : Session)
    → s.encoder ≡ world
    → let all = everyone manager.worlds in
      let blocks = (put_world_blocks manager.worlds empty).bytes in
      (length all ≤ 2
        → send_local_player_update manager s
          ≡ (ok tt, send_bytes (frame uint16 96 (marks (length all) ++ blocks)) s))
      × (3 ≤ length all → send_local_player_update manager s ≡ (undefined, s))
unfolding world_code_mapping type_mapping
send_local_player_update_lem manager s enc =
    let steps = send_local_player_update-everyone manager s in
    let blocks = on_buffer (append (put_world_blocks manager.worlds empty).bytes) in
    (
      λ few.
          steps
          ∙ ap (λ r. send_built local_player_update (then_do (λ _. blocks) r) s)
              (few_marked (everyone manager.worlds) few).1
          ∙ send-frame _ s 96 uint16 enc refl refl,
      λ many.
          steps
          ∙ send_undefined blocks s (mark_players (everyone manager.worlds) new_bit_buffer)
              (many_marked (everyone manager.worlds) many),
    )
