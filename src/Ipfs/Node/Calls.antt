-- ===== src/Ipfs/Node/Calls.antt =====
-- What a node does with libp2p.
use ib.Prelude.{
  ℕ, zero, suc, ◌+◌, ◌≡◌, ◌<◌, ◌⊎◌, refl, ap, subst, inl, inr, Str, codes, List, [], ◌∷◌, ◌++◌,
  Bool, true, false, not, ◌&&◌, Option, All, concat, none, some, err, map, any, any-append, ltb,
  arith, Result-cases, Bool-cases,
}
use ib.Ipfs.Node.{
  Config, Libp2p, Event, host_opened, host_closed, slept, provided, failed_to_provide, advertised,
  Node, close, parse_addrs, connect_peers, start_gateway, start_node, open_host, new_node,
  wait_loop, provide_loop, advertise_roots,
}

abbrev pub opens : Event → Bool
opens (host_opened listen announce) = true
opens _ = false

abbrev pub closes : Event → Bool
closes host_closed = true
closes _ = false

-- A host was opened and not closed.
abbrev pub still_open : List Event → Bool
still_open events = any opens events && not (any closes events)

-- The numbers from `i` on, `n` of them.
abbrev pub upto : ℕ → ℕ → List ℕ
upto zero i = []
upto (suc n) i = i ∷ upto n (i + 1)

-- What is printed of a Provide with this error.
abbrev pub report : Str → Option Str → Event
report c none = advertised c
report c (some m) = failed_to_provide c m

module _ (l : Libp2p) where
  connect_peers_quiet :
      (ps : List Str)
      → (any opens (connect_peers l ps) ≡ false) × (any closes (connect_peers l ps) ≡ false)
  unfolding connect_peers
  connect_peers_quiet [] = (refl, refl)
  connect_peers_quiet (p ∷ ps) = ground (arith, connect_peers_quiet ps)

  close_ends : (n : Node) → (any opens (close n) ≡ false) × (any closes (close n) ≡ true)
  unfolding close
  close_ends n = ground arith

  -- From a host that is open on.
  start_node_error :
      (cfg : Config) (listen announce : List Str) (m : Str)
      → (start_node l cfg (host_opened listen announce ∷ [])).1 ≡ err m
      → still_open (start_node l cfg (host_opened listen announce ∷ [])).0
        ≡ elim l.bootstrap [ none ↦ false | some _ ↦ true ]
  unfolding start_node start_gateway
  start_node_error cfg listen announce m h =
      let n : Node = record { gateway = none; root_cids = [] } in
      ground (
        arith,
        any-append opens (connect_peers l cfg.bootstrap_peers) (close n),
        any-append closes (connect_peers l cfg.bootstrap_peers) (close n),
        connect_peers_quiet cfg.bootstrap_peers,
        close_ends n,
      )

  start_node-opens :
      (cfg : Config) (listen announce : List Str)
      → any opens (start_node l cfg (host_opened listen announce ∷ [])).0 ≡ true
  unfolding start_node start_gateway
  start_node-opens cfg listen announce = ground arith

  open_host_error :
      (cfg : Config) (listen announce : List Str) (m : Str)
      → (open_host l cfg listen announce).1 ≡ err m
      → still_open (open_host l cfg listen announce).0 ≡ (
          any opens (open_host l cfg listen announce).0
          && (elim l.bootstrap [ none ↦ false | some _ ↦ true ]))
  unfolding open_host
  open_host_error cfg listen announce m h =
      ground (arith, start_node-opens cfg listen announce, start_node_error cfg listen announce m)

  -- When NewNode returns an error, no libp2p host is left open, unless it is the DHT's bootstrap
  -- that failed: then the host that was opened is never closed.
  pub new_node_error :
      (cfg : Config) (m : Str)
      → (new_node l cfg).1 ≡ err m
      → still_open (new_node l cfg).0
        ≡ (any opens (new_node l cfg).0 && (elim l.bootstrap [ none ↦ false | some _ ↦ true ]))
  unfolding new_node
  new_node_error cfg m h = elim (Result-cases (parse_addrs l (codes "listen") cfg.listen_addrs)) [
    | inr (m1, p) ↦ ground (arith, p)
    | inl (listen, p) ↦ elim (Result-cases (parse_addrs l (codes "announce") cfg.announce_addrs)) [
      | inr (m2, q) ↦ ground (arith, p, q)
      | inl (announce, q) ↦ ground (arith, p, q, h, open_host_error cfg listen announce m)
    ]
  ]

  wait_loop_lem :
      (left i : ℕ)
      → (n : ℕ) × (wait_loop l left i ≡ map slept (upto n i))
        × All (λ j. l.table_size j ≡ 0) (upto n i)
        × ((n ≡ left) ⊎ ((n < left) × (0 < l.table_size (i + n))))
  unfolding wait_loop
  wait_loop_lem zero i = (0, refl, tt, inl refl)
  wait_loop_lem (suc left) i = elim (Bool-cases (ltb 0 (l.table_size i))) [
    | inl t ↦ (0, ground (arith, t), tt, inr (ground (arith, t)))
    | inr t ↦
        let (n, waits, no_peer, ending) = wait_loop_lem left (i + 1) in
        (
          suc n,
          ground (arith, t, waits),
          (ground (arith, t), no_peer),
          elim ending [
            | inl p ↦ inl (ap suc p)
            | inr (p, q) ↦ inr (omega (arith, p), subst (λ k. 0 < l.table_size k) (omega arith) q)
          ],
        )
  ]

  provide_loop_lem :
      (cs : List Str)
      → provide_loop l cs ≡ concat (map (λ c. provided c ∷ report c (l.provide c) ∷ []) cs)
  unfolding provide_loop
  provide_loop_lem [] = refl
  provide_loop_lem (c ∷ cs) = ground (arith, provide_loop_lem cs)

  -- AdvertiseRoots comes to its end: it looks at the routing table and waits a second as long as the
  -- table is empty, thirty times at most, and then provides each root once and in order, whether
  -- those before it succeed or fail, and prints a warning for each that fails.
  pub advertise_roots_lem :
      (node : Node)
      → (n : ℕ) × (advertise_roots l node
          ≡ map slept (upto n 0)
            ++ concat (map (λ c. provided c ∷ report c (l.provide c) ∷ []) node.root_cids))
        × All (λ j. l.table_size j ≡ 0) (upto n 0)
        × ((n ≡ 30) ⊎ ((n < 30) × (0 < l.table_size n)))
  unfolding advertise_roots
  advertise_roots_lem node =
      let (n, waits, no_peer, ending) = wait_loop_lem 30 0 in
      (
        n,
        rw (waits, provide_loop_lem node.root_cids) refl,
        no_peer,
        subst (λ k. (n ≡ 30) ⊎ ((n < 30) × (0 < l.table_size k))) (omega arith) ending,
      )
