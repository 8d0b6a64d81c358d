-- ===== src/Net/Login/Again.antt =====
-- A player who registered comes back.
use openrs.Base.{ℕ, ◌≡◌, refl, ap, ap₂, ◌∙◌, List, [], ◌∷◌, Bool, true, ==_refl, Outcome, ok, sym}
use openrs.Net.Login.Block.{Credentials}
use openrs.Net.Login.Enter.{Player, Realm, Hall, equal, new_player, register, admit, admit_found}

equal_refl : (xs : List ℕ) → equal xs xs ≡ true
unfolding equal
equal_refl [] = refl
equal_refl (x ∷ xs) = rw (==_refl x) (equal_refl xs)

module _ {Db : Type 0} where
  -- The database stores the columns as they are; it may give the player an identifier.
  abbrev pub KeepsPassword : Realm Db → Type 0
  KeepsPassword realm =
      (player : Player)
      → (db : Db)
      → let stored = (realm.create_model player db).0 in
        (stored.password ≡ player.password) × (stored.salt ≡ player.salt)

  -- A player whose registration was stored, and who is the one that the database finds under the
  -- name, is admitted with the password of the registration, whatever the random numbers are by
  -- then and whatever has happened to the session and the world.
  pub register-admit :
      (realm : Realm Db) (salt : List ℕ) (female : Bool) (colour : ℕ) (c c' : Credentials)
      (h h' : Hall Db) (player : Player)
      → KeepsPassword realm
      → (register realm c h).0 ≡ ok player
      → realm.get_model c'.username h'.database ≡ player ∷ []
      → c'.password ≡ c.password
      → admit
          (record realm { random_salt = salt; random_bool = female; random_skin = colour })
          c'
          h'
        ≡ (ok player, h')
  unfolding register new_player admit_found
  register-admit realm salt female colour c c' h h' player keeps stored found same =
      let (kept, salted) = keeps (new_player realm c) h.database in
      let is_player = ap (λ (o : Outcome Player). elim o [ ok x ↦ x | _ ↦ player ]) stored in
      let its_password : player.password ≡ realm.encode_password c.password realm.random_salt =
        ap (λ (x : Player). x.password) (sym is_player) ∙ kept in
      let its_salt : player.salt ≡ realm.random_salt =
        ap (λ (x : Player). x.salt) (sym is_player) ∙ salted in
      let right : equal (realm.encode_password c'.password player.salt) player.password ≡ true =
        ap₂ (λ x y. equal (realm.encode_password x y) player.password) same its_salt
        ∙ ap (equal (realm.encode_password c.password realm.random_salt)) its_password
        ∙ equal_refl (realm.encode_password c.password realm.random_salt) in
      ap
        (λ players.
          admit_found
            (record realm { random_salt = salt; random_bool = female; random_skin = colour }) c'
            players h')
        found
      ∙ rw right refl
