-- ===== src/Game/World/Slots.antt =====
-- Which slot `add_player` gives a player.
use openrs.Base.{
  ℕ, suc, ◌+◌, ◌%◌, ◌^◌, ◌≤◌, ◌<◌, ◌≡◌, refl, ap, ◌∙◌, List, [], ◌∷◌, ◌++◌, some, true, false, ◌==◌,
  length, length-append, arith,
}
use openrs.Game.World.{
  Players, find, insert, erase, last_key, gap_from, has_no_gap, add_player, remove_player,
}

module _ {Player : Type 0} where
  -- Players in slots one after another, from a first one on.
  unfoldable pub numbered : ℕ → List Player → Players Player
  numbered n [] = []
  numbered n (p ∷ ps) = (n, p) ∷ numbered (n + 1) ps

  -- The keys are at least `lower`, and ascend.
  abbrev pub Ascending : ℕ → Players Player → Type 0
  Ascending lower [] = Unit {0}
  Ascending lower ((i, q) ∷ players) = (lower ≤ i) × Ascending (i + 1) players

  length-numbered : (n : ℕ) (ps : List Player) → length (numbered n ps) ≡ length ps
  unfolding numbered
  length-numbered n [] = refl
  length-numbered n (p ∷ ps) = ap suc (length-numbered (n + 1) ps)

  last_key-numbered :
      (k n : ℕ) (p : Player) (ps : List Player) → last_key k (numbered n (p ∷ ps)) ≡ n + length ps
  unfolding numbered last_key
  last_key-numbered k n p [] = omega arith
  last_key-numbered k n p (q ∷ ps) = last_key-numbered n (n + 1) q ps ∙ omega arith

  -- The players where one of them has left: those before the slot and those behind it.
  erase-numbered :
      (i n m : ℕ) (xs : List Player) (y z : Player) (zs : List Player)
      → i ≡ n + length xs
      → m ≡ i + 1
      → erase i (numbered n (xs ++ y ∷ z ∷ zs)) ≡ numbered n xs ++ numbered m (z ∷ zs)
  unfolding numbered erase
  erase-numbered i n m [] y z zs e f =
      let found : (i == n) ≡ true = ground (arith, e) in
      rw found (ap (λ k. numbered k (z ∷ zs)) {x = n + 1} {y = m} (omega (arith, e, f)))
  erase-numbered i n m (x ∷ xs) y z zs e f =
      ground (arith, e, erase-numbered i (n + 1) m xs y z zs (omega (arith, e)) f)

  last_key-behind :
      (k n m : ℕ) (xs : List Player) (z : Player) (zs : List Player)
      → last_key k (numbered n xs ++ numbered m (z ∷ zs)) ≡ m + length zs
  unfolding numbered last_key
  last_key-behind k n m [] z zs = last_key-numbered k m z zs
  last_key-behind k n m (x ∷ xs) z zs = last_key-behind n (n + 1) m xs z zs

  gap_from-behind :
      (n m : ℕ) (xs : List Player) (z : Player) (zs : List Player)
      → m ≡ n + length xs + 1
      → m < 2 ^ 32
      → gap_from n (numbered n xs ++ numbered m (z ∷ zs)) ≡ m
  unfolding numbered gap_from
  gap_from-behind n m [] z zs e h = ground (arith, e)
  gap_from-behind n m (x ∷ xs) z zs e h =
      let next : (n + 1) % 2 ^ 32 ≡ n + 1 = omega (arith, e) in
      ground (arith, next, gap_from-behind (n + 1) m xs z zs (omega (arith, e)) h)

  insert-there :
      (m n : ℕ) (p : Player) (xs : List Player) (z : Player) (zs : List Player)
      → n + length xs < m
      → insert m p (numbered n xs ++ numbered m (z ∷ zs)) ≡ numbered n xs ++ numbered m (z ∷ zs)
  unfolding numbered insert
  insert-there m n p [] z zs h = ground arith
  insert-there m n p (x ∷ xs) z zs h =
      ground (arith, insert-there m (n + 1) p xs z zs (omega arith))

  find-there :
      (m n : ℕ) (xs : List Player) (z : Player) (zs : List Player)
      → n + length xs < m
      → find m (numbered n xs ++ numbered m (z ∷ zs)) ≡ some z
  unfolding numbered find
  find-there m n [] z zs h = ground arith
  find-there m n (x ∷ xs) z zs h = ground (arith, find-there m (n + 1) xs z zs (omega arith))

  -- When one of the players that stand in the slots from 0 on has left, and another one stands in
  -- the slot behind, the next player that is added is given the slot of that one, and is not put
  -- into the world. The slots fit in 32 bits.
  pub add_player-behind_removed :
      (p y z : Player) (xs zs : List Player)
      → length xs + 1 < 2 ^ 32
      → let players = remove_player (length xs) (numbered 0 (xs ++ y ∷ z ∷ zs)) in
        (add_player p players ≡ (length xs + 1, players)) × (find (length xs + 1) players ≡ some z)
  unfolding add_player
  add_player-behind_removed p y z xs zs h =
      let m = length xs + 1 in
      let left = numbered 0 xs ++ numbered m (z ∷ zs) in
      let gap : has_no_gap left ≡ false = ground (
        arith,
        length-append (numbered 0 xs) (numbered m (z ∷ zs)),
        length-numbered 0 xs,
        length-numbered m (z ∷ zs),
        last_key-behind 0 0 m xs z zs,
      ) in
      rw (erase-numbered (length xs) 0 m xs y z zs (omega arith) refl) (
        rw (
          gap,
          gap_from-behind 0 m xs z zs (omega arith) h,
          insert-there m 0 p xs z zs (omega arith),
        ),
        find-there m 0 xs z zs (omega arith),
      )
