-- ===== src/Netif/Connected.antt =====
-- To which servers the constructor of `NetworkInterface` connects a client.
use undergraduate_project.Shared.{
  ℕ, suc, ◌<◌, ◌≡◌, refl, ◌∙◌, arith, ltb, leb, ◌==◌, Bool, true, false, ◌||◌, ℤ, pos, negsuc, List,
  [], ◌∷◌, some, Bool-cases, inl, inr, ◌⊎◌, subst, ◌++◌,
}
use undergraduate_project.Config.Load.{NodeConfig, max_nodes}
use undergraduate_project.Netif.Sessions.{
  is_server, Sessions, connects, create_session, connect_loop,
}

ℤ-cases : (z : ℤ) → ((n : ℕ) × (z ≡ pos n)) ⊎ ((k : ℕ) × (z ≡ negsuc k))
ℤ-cases (pos n) = inl (n, refl)
ℤ-cases (negsuc k) = inr (k, refl)

-- The node has a session, made before the turn `i`, whose number leads back to it.
record HasSession (create : ℕ → ℕ) (i n : ℕ) (s : Sessions) : Type 0 where
  turn : ℕ
  before : turn < i
  made : s.sessions n ≡ create turn
  back : s.sess2id (create turn) ≡ some n

create_session-HasSession :
    (create : ℕ → ℕ) (i n m : ℕ) (s : Sessions)
    → ((j k : ℕ) → create j ≡ create k → j ≡ k)
    → HasSession create i n s
    → HasSession create (suc i) n (create_session s m (create i))
unfolding create_session
create_session-HasSession create i n m s injective has = elim (Bool-cases (n == m)) [
  | inl same ↦ record { turn = i; before = omega arith; made = ground arith; back = ground arith }
  | inr other ↦ record {
    turn = has.turn;
    before = omega (arith, has.before);
    made = ground (arith, has.made);
    back = ground (arith, has.back, has.before, injective has.turn i);
  }
]

module _ (recover : Bool) (my_id : ℤ) (create : ℕ → ℕ) where
  -- A turn of the loop goes on with the sessions as they are, or with one more.
  connect_turn :
      (i : ℕ) (conf : NodeConfig) (nodes : List NodeConfig) (s : Sessions) {t : Sessions}
      → connect_loop recover my_id create i (conf ∷ nodes) s ≡ some t
      → ((connect_loop recover my_id create (suc i) nodes s ≡ some t)
          × (((n : ℕ)
              → conf.id ≡ pos n
              → is_server conf.type ≡ true
              → connects recover my_id n ≡ false)))
        ⊎ ((n : ℕ) × (conf.id ≡ pos n)
            × (is_server conf.type ≡ true)
            × (connects recover my_id n ≡ true)
            × (n < max_nodes)
            × (connect_loop recover my_id create (suc i) nodes (create_session s n (create i))
                ≡ some t))
  unfolding connect_loop
  connect_turn i conf nodes s {t} h = elim (Bool-cases (is_server conf.type)) [
    | inr client ↦
        inl (rw (connect_loop, client) at h, λ n e server. absurd (ground (arith, client, server)))
    | inl server ↦ elim (ℤ-cases conf.id) [
      | inr (k, below) ↦ absurd (ground (arith, rw (connect_loop, server, below) at h))
      | inl (n, e) ↦ elim (Bool-cases (connects recover my_id n)) [
        | inr skipped ↦
            let same = rw (connect_loop, server, e, skipped) at h in
            inl (same, λ m e' s. ground (arith, skipped))
        | inl made ↦ elim (Bool-cases (leb max_nodes n)) [
          | inl outside ↦ absurd (ground (arith, rw (connect_loop, server, e, made, outside) at h))
          | inr inside ↦
              let same = rw (connect_loop, server, e, made, inside) at h in
              inr (n, e, server, made, ground arith, same)
        ]
      ]
    ]
  ]

  module _ (injective : (j k : ℕ) → create j ≡ create k → j ≡ k) where
    -- A session that is there stays, or gives way to a later one of the same node.
    loop-HasSession :
        (i n : ℕ) (nodes : List NodeConfig) (s : Sessions) {t : Sessions}
        → connect_loop recover my_id create i nodes s ≡ some t
        → HasSession create i n s
        → (j : ℕ) × HasSession create j n t
    unfolding connect_loop
    loop-HasSession i n [] s h has = (i, subst (HasSession create i n) (ground (arith, h)) has)
    loop-HasSession i n (conf ∷ nodes) s h has = elim (connect_turn i conf nodes s h) [
      | inl (on, skipped) ↦ loop-HasSession (suc i) n nodes s on (record {
        turn = has.turn;
        before = omega (arith, has.before);
        made = has.made;
        back = has.back;
      })
      | inr (m, e, server, made, inside, on) ↦
          loop-HasSession (suc i) n nodes (create_session s m (create i)) on
            (create_session-HasSession create i n m s injective has)
    ]

    -- Every server before the node's own id has a session.
    loop_connects :
        (i n : ℕ) (before : List NodeConfig) (conf : NodeConfig) (after : List NodeConfig)
        (s : Sessions) {t : Sessions}
        → connect_loop recover my_id create i (before ++ conf ∷ after) s ≡ some t
        → conf.id ≡ pos n
        → is_server conf.type ≡ true
        → connects recover my_id n ≡ true
        → (j : ℕ) × HasSession create j n t
    unfolding create_session
    loop_connects i n [] conf after s h e server due = elim (connect_turn i conf after s h) [
      | inl (on, skipped) ↦ absurd (ground (arith, skipped n e server, due))
      | inr (m, e', server', made, inside, on) ↦
          let same : m ≡ n = ground (arith, e, e') in
          loop-HasSession (suc i) n after (create_session s m (create i)) on (
            subst (λ x. HasSession create (suc i) x (create_session s m (create i))) same
              (record { turn = i; before = omega arith; made = ground arith; back = ground arith }))
    ]
    loop_connects i n (first ∷ before) conf after s h e server due =
        elim (connect_turn i first (before ++ conf ∷ after) s h) [
          | inl (on, skipped) ↦ loop_connects (suc i) n before conf after s on e server due
          | inr (m, e', server', made, inside, on) ↦
              loop_connects (suc i) n before conf after (create_session s m (create i)) on e server
                due
        ]

  -- A node that is no such server keeps what it had.
  loop_skips :
      (i n : ℕ) (nodes : List NodeConfig) (s : Sessions) {t : Sessions}
      → connect_loop recover my_id create i nodes s ≡ some t
      → connects recover my_id n ≡ false
      → t.sessions n ≡ s.sessions n
  unfolding connect_loop create_session
  loop_skips i n [] s h off = ground (arith, h)
  loop_skips i n (conf ∷ nodes) s h off = elim (connect_turn i conf nodes s h) [
    | inl (on, skipped) ↦ loop_skips (suc i) n nodes s on off
    | inr (m, e, server, made, inside, on) ↦
        loop_skips (suc i) n nodes (create_session s m (create i)) on off
        ∙ ground (arith, made, off)
  ]

-- A client that the constructor gets through, where the library gives every session a number of its own:
-- each server of the configuration with an id below the client's, or any server in a recovery, has
-- a session whose number leads back to that server; and where an id is not below the client's and it
-- does not recover, the session of that id is never set, be it a server's or not.
pub sessions_are_to_servers_below :
    (recover : Bool) (my_id : ℕ) (create : ℕ → ℕ) (before : List NodeConfig) (conf : NodeConfig)
    (after : List NodeConfig) (n : ℕ) (s : Sessions) {t : Sessions}
    → ((j k : ℕ) → create j ≡ create k → j ≡ k)
    → connect_loop recover (pos my_id) create 0 (before ++ conf ∷ after) s ≡ some t
    → conf.id ≡ pos n
    → is_server conf.type ≡ true
    → (recover || ltb n my_id ≡ true → t.sess2id (t.sessions n) ≡ some n)
      × (recover || ltb n my_id ≡ false → t.sessions n ≡ s.sessions n)
unfolding connects
sessions_are_to_servers_below recover my_id create before conf after n s injective h e server = (
  λ due.
      let (j, has) =
        loop_connects recover (pos my_id) create injective 0 n before conf after s h e server due in
      rw (has.made) (has.back),
  λ off. loop_skips recover (pos my_id) create 0 n (before ++ conf ∷ after) s h off,
)
