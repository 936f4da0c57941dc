-- ===== src/Pool/Acquire.antt =====
-- What `ConnectionPool::acquire` does, by the state of the pool and the answers of the client library.
use cpp_oj_vbcoding_teach.Prelude.{
  ◌≡◌, ◌↔◌, refl, sym, ap, subst, ◌∙◌, inl, inr, List, [], ◌∷◌, Option, none, some, true, false,
  Bool-cases,
}
use cpp_oj_vbcoding_teach.Pool.Mysql.{Client, Conn}
use cpp_oj_vbcoding_teach.Pool.{
  Pool, Acquired, sleeps, returns, create_connection, acquire, pop_front, revive,
}

module _ {W : Type 0} (client : Client W) where
  -- The ways an acquisition returns: null from a pool that is shut down; the first idle connection, if it
  -- answers a ping; or, when that connection is dead, a new one that takes its place, or null.
  pub data Outcome (p : Pool) (w : W) : Option Conn → Pool → W → Type 0 where
    refused : p.initialized ≡ false → Outcome p w none p w
    alive :
        (c : Conn) (rest : List Conn)
        → p.initialized ≡ true
        → p.idle ≡ c ∷ rest
        → (client.mysql_ping c w).0 ≡ true
        → Outcome p w (some c) (record p { idle = rest }) (client.mysql_ping c w).1
    replaced :
        (c : Conn) (rest : List Conn)
        → p.initialized ≡ true
        → p.idle ≡ c ∷ rest
        → (client.mysql_ping c w).0 ≡ false
        → Outcome p w
            (create_connection client p.params (client.mysql_close c (client.mysql_ping c w).1)).0
            (record p { idle = rest })
            (create_connection client p.params (client.mysql_close c (client.mysql_ping c w).1)).1

  -- What the two answers of an acquisition say.
  abbrev pub Says : Pool → W → Acquired W → Type 0
  Says p w sleeps = (p.initialized ≡ true) × (p.idle ≡ [])
  Says p w (returns made q v) = Outcome p w made q v

  module _ (p : Pool) (w : W) where
    pop_front_closed :
        (conns : List Conn) → p.initialized ≡ false → pop_front client conns p w ≡ returns none p w
    unfolding pop_front
    pop_front_closed [] e = simp (pop_front, e)
    pop_front_closed (c ∷ rest) e = simp (pop_front, e)

    pop_front_waits : p.initialized ≡ true → pop_front client [] p w ≡ sleeps
    unfolding pop_front
    pop_front_waits e = simp (pop_front, e)

    pop_front_revives :
        (c : Conn) (rest : List Conn)
        → p.initialized ≡ true
        → pop_front client (c ∷ rest) p w ≡ revive client c (record p { idle = rest }) w
    unfolding pop_front
    pop_front_revives c rest e = simp (pop_front, e)

    revive_alive :
        (c : Conn)
        → (client.mysql_ping c w).0 ≡ true
        → revive client c p w ≡ returns (some c) p (client.mysql_ping c w).1
    unfolding revive
    revive_alive c e = simp (revive, e)

    revive_dead :
        (c : Conn)
        → (client.mysql_ping c w).0 ≡ false
        → revive client c p w
          ≡ returns
              (create_connection client p.params (client.mysql_close c (client.mysql_ping c w).1)).0
              p
              (create_connection client p.params (client.mysql_close c (client.mysql_ping c w).1)).1
    unfolding revive
    revive_dead c e = simp (revive, e)

  pop_front-Says :
      (conns : List Conn) (p : Pool) (w : W)
      → p.idle ≡ conns
      → Says p w (pop_front client conns p w)
  pop_front-Says conns p w h = elim (Bool-cases p.initialized) [
    | inl e ↦ opened conns h e
    | inr e ↦ subst (Says p w) (sym (pop_front_closed p w conns e)) (refused e)
  ]
    where
      opened :
          (l : List Conn) → p.idle ≡ l → p.initialized ≡ true → Says p w (pop_front client l p w)
      opened [] h e = subst (Says p w) (sym (pop_front_waits p w e)) (e, h)
      opened (c ∷ rest) h e =
          subst (Says p w) (sym (pop_front_revives p w c rest e))
            (elim (Bool-cases (client.mysql_ping c w).0) [
              | inl t ↦
                  subst (Says p w) (sym (revive_alive (record p { idle = rest }) w c t))
                    (alive c rest e h t)
              | inr f ↦
                  subst (Says p w) (sym (revive_dead (record p { idle = rest }) w c f))
                    (replaced c rest e h f)
            ])

  acquire-Says : (p : Pool) (w : W) → Says p w (acquire client p w)
  unfolding acquire
  acquire-Says p w = pop_front-Says p.idle p w refl

  pub returned :
      {p q : Pool} {w v : W} {made : Option Conn}
      → acquire client p w ≡ returns made q v
      → Outcome p w made q v
  returned {p} {q} {w} {v} {made} h = subst (Says p w) h (acquire-Says p w)

  Outcome-returns :
      (p q : Pool) (w v : W) (made : Option Conn)
      → Outcome p w made q v
      → acquire client p w ≡ returns made q v
  unfolding acquire
  Outcome-returns p q w v made (refused e) = pop_front_closed p w p.idle e
  Outcome-returns p q w v made (alive c rest on h e) =
      ap (λ l. pop_front client l p w) h
      ∙ pop_front_revives p w c rest on
      ∙ revive_alive (record p { idle = rest }) w c e
  Outcome-returns p q w v made (replaced c rest on h e) =
      ap (λ l. pop_front client l p w) h
      ∙ pop_front_revives p w c rest on
      ∙ revive_dead (record p { idle = rest }) w c e

  -- An acquisition sleeps exactly when the pool is started and has no idle connection, and it returns a
  -- connection or null exactly in one of these ways: null from a pool that is shut down; the first idle
  -- connection, which answers a ping; or what the reconnection gives that replaces it when it does not.
  pub acquire_lem :
      (p : Pool) (w : W)
      → ((acquire client p w ≡ sleeps) ↔ ((p.initialized ≡ true) × (p.idle ≡ [])))
        × ((made : Option Conn) (q : Pool) (v : W)
            → (acquire client p w ≡ returns made q v) ↔ Outcome p w made q v)
  unfolding acquire
  acquire_lem p w = (
    (
      λ h. subst (Says p w) h (acquire-Says p w),
      λ (on, h). ap (λ l. pop_front client l p w) h ∙ pop_front_waits p w on,
    ),
    λ made q v. (returned, Outcome-returns p q w v made),
  )
