-- ===== src/Ipfs/Node.antt =====
-- internal/ipfsnode/node.go: the start of an IPFS node, the roots that it advertises, and its end.
-- libp2p, the DHT, bitswap and the gateway are parameters; what is done with them is a list of events.
pub mod Calls
use ib.Prelude.{
  ℕ, zero, suc, ◌+◌, Str, codes, List, [], ◌∷◌, ◌++◌, Bool, true, false, Option, none, some, Result,
  ok, err, is_empty, ltb, if◌then◌else◌,
}
use ib.Config.{ServerConfig}

pub record Config : Type 0 where
  pub listen_addrs : List Str
  pub announce_addrs : List Str
  pub gateway_addr : Str
  pub bootstrap_peers : List Str

abbrev pub default_config : Config
default_config = record {
  listen_addrs = codes "/ip4/0.0.0.0/tcp/4001" ∷ codes "/ip4/0.0.0.0/udp/4001/quic-v1" ∷ [];
  announce_addrs = [];
  gateway_addr = codes ":8080";
  bootstrap_peers =
      codes "/dnsaddr/bootstrap.libp2p.io/p2p/QmNnooDu7bfjPFoTZYxMNLWUQJyrVwtbZg5gBMjTezGAJN"
      ∷ codes "/dnsaddr/bootstrap.libp2p.io/p2p/QmQCU2EcMqAqQPR2i9bChDtGNJchTbq5TbXJJ16u19uLTa"
      ∷ codes "/dnsaddr/bootstrap.libp2p.io/p2p/QmbLHAnMoJPWSCR5Zhtx6BHJX9KiKNN6tpvbUcqanj75Nb"
      ∷ codes "/dnsaddr/bootstrap.libp2p.io/p2p/QmcZf59bWwK5XFi76CZX8cbJ4BhTzzA3gU1ZjYZcYW3dwt"
      ∷ codes "/ip4/104.131.131.82/tcp/4001/p2p/QmaCpDMGvV2BGHeYERUEnRQAwe3N8SzbUtfsmvsqQLuvuJ"
      ∷ codes
          "/ip4/104.131.131.82/udp/4001/quic-v1/p2p/QmaCpDMGvV2BGHeYERUEnRQAwe3N8SzbUtfsmvsqQLuvuJ"
      ∷ codes "/dnsaddr/am6.bootstrap.libp2p.io/p2p/QmbLHAnMoJPWSCR5Zhtx6BHJX9KiKNN6tpvbUcqanj75Nb"
      ∷ codes "/dnsaddr/ny5.bootstrap.libp2p.io/p2p/QmQCU2EcMqAqQPR2i9bChDtGNJchTbq5TbXJJ16u19uLTa"
      ∷ codes "/dnsaddr/sg1.bootstrap.libp2p.io/p2p/QmcZf59bWwK5XFi76CZX8cbJ4BhTzzA3gU1ZjYZcYW3dwt"
      ∷ codes "/dnsaddr/sv15.bootstrap.libp2p.io/p2p/QmNnooDu7bfjPFoTZYxMNLWUQJyrVwtbZg5gBMjTezGAJN"
      ∷ codes "/ip4/172.65.0.13/tcp/4001/p2p/QmcfgsJsMtx6qJb74akCw1M24X1zFwgGo11h1cuhwQjtJP"
      ∷ codes "/ip6/2606:4700:60::6/tcp/4001/p2p/QmcfgsJsMtx6qJb74akCw1M24X1zFwgGo11h1cuhwQjtJP"
      ∷ codes "/dnsaddr/bitswap.pinata.cloud/p2p/Qma8ddFEQWEU8ijWvdxXm3nxU7oHsRtCykAaVz8WUYhiKn"
      ∷ codes "/ip4/145.40.96.233/tcp/4001/p2p/12D3KooWEGeZ19Q79NdzS6CJBoCwFZwujqi5hoK8BtRcLa48fJdu"
      ∷ codes "/ip4/147.75.87.85/tcp/4001/p2p/12D3KooWBnmsaeNRP6SCdNbhzaNHihQQBPDhmDvjVGsR1EbswncV"
      ∷ [];
}

-- The configuration that server.New makes of the server's.
unfoldable pub ipfs_config : ServerConfig → Config
ipfs_config cfg = record {
  listen_addrs =
      if is_empty cfg.ipfs_listen_addrs then default_config.listen_addrs else cfg.ipfs_listen_addrs;
  announce_addrs =
      if is_empty cfg.ipfs_public_ip
      then []
      else (codes "/ip4/" ++ (cfg.ipfs_public_ip ++ codes "/tcp/4001"))
        ∷ (codes "/ip4/" ++ (cfg.ipfs_public_ip ++ codes "/udp/4001/quic-v1"))
        ∷ [];
  gateway_addr =
      if is_empty cfg.ipfs_gateway_addr then default_config.gateway_addr else cfg.ipfs_gateway_addr;
  bootstrap_peers = default_config.bootstrap_peers;
}

-- What the packages answer: an address in their form, the error of each step (`none` for success),
-- the peer that an address names, the size of the routing table at each look, and the error of
-- providing a CID.
pub record Libp2p : Type 0 where
  pub new_multiaddr : Str → Result Str
  pub conn_manager : Option Str
  pub new_host : List Str → List Str → Option Str
  pub bootstrap : Option Str
  pub addr_info : Str → Result Str
  pub blocks_backend : Option Str
  pub table_size : ℕ → ℕ
  pub provide : Str → Option Str

pub data Event : Type 0 where
  host_opened : List Str → List Str → Event
  connecting : Str → Event
  listening : Str → Event
  advertiser_started : Event
  cancelled gateway_closed bitswap_closed dht_closed host_closed : Event
  slept : ℕ → Event
  provided : Str → Event
  advertised : Str → Event
  failed_to_provide : Str → Str → Event

-- A node: the address of its gateway if it has one, and its root CIDs.
pub record Node : Type 0 where
  pub gateway : Option Str
  pub root_cids : List Str

-- Close with all parts of a node there but perhaps the gateway. Its errors are dropped.
unfoldable pub close : Node → List Event
close n =
    cancelled
    ∷ ((elim n.gateway [ none ↦ [] | some addr ↦ gateway_closed ∷ [] ])
        ++ (bitswap_closed ∷ dht_closed ∷ host_closed ∷ []))

module _ (l : Libp2p) where
  -- The addresses in their form, or the error of the first that has none.
  parse_addrs : Str → List Str → Result (List Str)
  parse_addrs kind [] = ok []
  parse_addrs kind (addr ∷ addrs) = elim (l.new_multiaddr addr) [
    | err m ↦ err (codes "invalid " ++ (kind ++ (codes " address " ++ (addr ++ (codes ": " ++ m)))))
    | ok ma ↦ elim (parse_addrs kind addrs) [ err m ↦ err m | ok rest ↦ ok (ma ∷ rest) ]
  ]

  -- Each bootstrap peer whose address can be read.
  connect_peers : List Str → List Event
  connect_peers [] = []
  connect_peers (p ∷ ps) =
      let rest = connect_peers ps in
      elim (l.new_multiaddr p) [
        | err m ↦ rest
        | ok addr ↦ elim (l.addr_info addr) [ err m ↦ rest | ok peer ↦ connecting peer ∷ rest ]
      ]

  -- The gateway, or its error.
  start_gateway : Str → Node → Result Node
  start_gateway addr n = elim l.blocks_backend [
    | some m ↦ err m
    | none ↦ ok (record n { gateway = some addr })
  ]

  -- From the bootstrap on, with a host that is open.
  start_node : Config → List Event → List Event × Result Node
  unfolding connect_peers start_gateway close
  start_node cfg events = elim l.bootstrap [
    | some m ↦ (events, err (codes "failed to bootstrap DHT: " ++ m))
    | none ↦
        let connected = events ++ connect_peers cfg.bootstrap_peers in
        let n : Node = record { gateway = none; root_cids = [] } in
        if is_empty cfg.gateway_addr
        then (connected ++ (advertiser_started ∷ []), ok n)
        else elim (start_gateway cfg.gateway_addr n) [
          | err m ↦ (connected ++ close n, err (codes "failed to start gateway: " ++ m))
          | ok n' ↦ (connected ++ (listening cfg.gateway_addr ∷ advertiser_started ∷ []), ok n')
        ]
  ]

  open_host : Config → List Str → List Str → List Event × Result Node
  unfolding start_node
  open_host cfg listen announce = elim l.conn_manager [
    | some m ↦ ([], err (codes "failed to create connection manager: " ++ m))
    | none ↦ elim (l.new_host listen announce) [
      | some m ↦ ([], err (codes "failed to create libp2p host: " ++ m))
      | none ↦ start_node cfg (host_opened listen announce ∷ [])
    ]
  ]

  unfoldable pub new_node : Config → List Event × Result Node
  unfolding parse_addrs open_host
  new_node cfg = elim (parse_addrs (codes "listen") cfg.listen_addrs) [
    | err m ↦ ([], err m)
    | ok listen ↦ elim (parse_addrs (codes "announce") cfg.announce_addrs) [
      | err m ↦ ([], err m)
      | ok announce ↦ open_host cfg listen announce
    ]
  ]

  -- The looks at the routing table, from the `i`-th on.
  wait_loop : ℕ → ℕ → List Event
  wait_loop zero i = []
  wait_loop (suc left) i =
      let rest = wait_loop left (i + 1) in if ltb 0 (l.table_size i) then [] else slept i ∷ rest

  -- A CID that cannot be provided is reported and passed over.
  provide_loop : List Str → List Event
  provide_loop [] = []
  provide_loop (c ∷ cs) =
      let rest = provide_loop cs in
      elim (l.provide c) [
        | some m ↦ provided c ∷ failed_to_provide c m ∷ rest
        | none ↦ provided c ∷ advertised c ∷ rest
      ]

  unfoldable pub advertise_roots : Node → List Event
  unfolding wait_loop provide_loop
  advertise_roots n = wait_loop 30 0 ++ provide_loop n.root_cids

unfoldable pub add_root_cid : Str → Node → Node
add_root_cid c n = record n { root_cids = n.root_cids ++ (c ∷ []) }

-- The ticks of periodicAdvertise until the node is closed, each with what it meets.
unfoldable pub periodic_advertise : List Libp2p → Node → List Event
unfolding advertise_roots
periodic_advertise [] n = []
periodic_advertise (l ∷ ls) n =
    (if is_empty n.root_cids then [] else advertise_roots l n) ++ periodic_advertise ls n
